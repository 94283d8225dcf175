-- ===== src/Runtime/Deploy/Reconcile.antt =====
-- `reconcileDeployment` and `failDeployment` of apps/control-cloud/src/runtime/deploy.ts: one pass over
-- a deployment, its deadlines, and what becomes of an error.
use personal_cloud.Prelude.{
  ℕ, ◌-◌, Bool, true, false, not, ◌&&◌, ◌||◌, none, some, if◌then◌else◌, is_some, ltb, leb,
}
use personal_cloud.Prelude.Outcome.{Error, Result, ok, err}
use personal_cloud.Store.{get}
use personal_cloud.Runtime.Deploy.State.{
  Status, deploying, Phase, prepare, build_submit, app_prepare, app_submit, observing, routing,
  cleanup, failure_cleanup, done, error_step, Deployment, World, deployment_id, is_active, Run, M,
  ◌>>=◌, finish, throw, await, edit, save_deployment, step, code, is_pending, safe_error,
}
use personal_cloud.Runtime.Deploy.Phases.{Platform, prepare_run}
use personal_cloud.Runtime.Deploy.Release.{
  build_run, prepare_application, observe_application, promote,
}
use personal_cloud.Runtime.Deploy.Cleanup.{cleanup_run, cleanup_failure}

abbrev pub is_failure_cleanup : Phase → Bool
is_failure_cleanup failure_cleanup = true
is_failure_cleanup _ = false

abbrev pub is_cleanup : Phase → Bool
is_cleanup cleanup = true
is_cleanup failure_cleanup = true
is_cleanup _ = false

abbrev pub is_building : Status → Bool
is_building Status.building = true
is_building _ = false

abbrev pub started_at : Deployment → ℕ
started_at d = elim d.phase_started_at [ none ↦ d.created_at | some t ↦ t ]

abbrev pub limit_of : Status → ℕ
limit_of s = if is_building s then 1200000 else 300000

abbrev pub is_overdue : Deployment → ℕ → Bool
is_overdue d now =
    is_active d.status
    && not (is_failure_cleanup d.phase)
    && ltb (limit_of d.status) (now - started_at d)

module _ (p : Platform) where
  -- `ensureJob` on the sealed job, then the next phase.
  unfoldable pub submit : Phase → M (Unit {0})
  submit next r =
      (await (p.open_sealed r.doc.job_encrypted) >>= λ job.
      await (p.ensure_job job) >>= λ _. edit λ w d. record d { phase = next })
        r

  unfoldable pub run_phase : Phase → M (Unit {0})
  run_phase prepare = prepare_run p
  run_phase build_submit = submit Phase.building
  run_phase Phase.building = build_run p
  run_phase app_prepare = prepare_application p
  run_phase app_submit = submit observing
  run_phase observing = observe_application p
  run_phase routing = promote p
  run_phase cleanup = cleanup_run p
  run_phase failure_cleanup = cleanup_failure p
  run_phase done = finish tt

  unfoldable pub attempt : M (Unit {0})
  attempt r =
      if is_overdue r.doc r.world.now
      then throw 409
          (if is_building r.doc.status
            then "Build exceeded the 20-minute deadline"
            else "Deployment health deadline exceeded; previous version retained")
          r
      else run_phase r.doc.phase r

-- The handler's copy, changed and written.
abbrev write : (World → Deployment → Deployment) → Run → Run
write f r = let d = f r.world r.doc in record r { doc = d; world = save_deployment d r.world }

abbrev pub is_stored : Run → Bool
is_stored r = is_some (get deployment_id r.doc.id r.world.deployments)

-- `failDeployment`
unfoldable pub fail_deployment : Error → World → Deployment → Deployment
fail_deployment e w d =
    step error_step w
      record d { error = some (safe_error e); phase = failure_cleanup; status = deploying }

-- The end of the `try` block, and the `catch` block.
unfoldable pub settle : Result (Unit {0}) → Run → Run
settle (ok _) r = if is_stored r then write (λ w d. d) r else r
settle (err e) r =
    if is_pending e || not (is_stored r)
    then r
    else if is_cleanup r.doc.phase
    then write (λ w d. record d { cleanup_error = some (safe_error e) }) r
    else if leb 500 (code e) && ltb (r.world.now - started_at r.doc) 1200000
    then write (λ w d. record d { last_runtime_error = some (safe_error e) }) r
    else write (fail_deployment e) r

abbrev pub settle_pair : Result (Unit {0}) × Run → Run
settle_pair (answer, r) = settle answer r

abbrev pub is_done : Phase → Bool
is_done done = true
is_done _ = false

unfoldable pub reconcile_deployment : Platform → Run → Run
reconcile_deployment p r = if is_done r.doc.phase then r else settle_pair (attempt p r)
