-- ===== src/Runtime/Deploy/Order.antt =====
-- The phases that clean up, and the whole of `reconcileDeployment`
-- (apps/control-cloud/src/runtime/deploy.ts), in the order of the phases.
use personal_cloud.Prelude.{
  ℕ, ◌≡◌, refl, inl, inr, true, false, Option, none, some, List, [], ◌∷◌, is_id, arith, Bool-cases,
}
use personal_cloud.Prelude.Outcome.{Result, ok, err}
use personal_cloud.Runtime.Deploy.State.{
  Kind, application, build_job, Phase, prepare, build_submit, app_prepare, app_submit, observing,
  routing, cleanup, failure_cleanup, done, Deployment, Service, Run, ◌>>=◌, step,
}
use personal_cloud.Runtime.Deploy.Phases.{Platform}
use personal_cloud.Runtime.Deploy.Release.{}
use personal_cloud.Runtime.Deploy.Cleanup.{
  retire_all, retire, retire_under, retire_job, stop_noted, stop_if, restore_route, fail_over,
  finish_failure, cleanup_run, cleanup_failure,
}
use personal_cloud.Runtime.Deploy.Reconcile.{
  run_phase, submit, is_done, attempt, settle, fail_deployment, reconcile_deployment,
}
use personal_cloud.Runtime.Deploy.Graph.{Moves, Stays, >>=-Moves, may_follow}
use personal_cloud.Runtime.Deploy.Starting.{prepare_run-Moves}
use personal_cloud.Runtime.Deploy.Releasing.{
  build_run-Moves, prepare_application-Moves, observe_application-Moves, promote-Moves,
}

retire-Stays :
    (p : Platform) (d : Deployment) (a : Phase) (r : Run) → r.doc.phase ≡ a → Stays a (retire p d r)
unfolding retire retire_under retire_job stop_noted ◌>>=◌
retire-Stays p d a r h = ground arith

retire_all-Stays :
    (p : Platform) (ds : List Deployment) (a : Phase) (r : Run)
    → r.doc.phase ≡ a
    → Stays a (retire_all p ds r)
unfolding retire_all
retire_all-Stays p [] a r h = h
retire_all-Stays p (d ∷ ds) a r h =
    let k = retire-Stays p d a r h in ground (arith, k, retire_all-Stays p ds a (retire p d r).1 k)

stop_if-Stays :
    (p : Platform) (kind : Kind) (owner : ℕ) (job : Option ℕ) (a : Phase) (r : Run)
    → r.doc.phase ≡ a
    → Stays a (stop_if p kind owner job r)
unfolding stop_if stop_noted
stop_if-Stays p kind owner none a r h = h
stop_if-Stays p kind owner (some job) a r h = ground arith

cleanup_run-Moves :
    (p : Platform) (r : Run) → r.doc.phase ≡ cleanup → Moves cleanup (cleanup_run p r)
unfolding cleanup_run
cleanup_run-Moves p r h = >>=-Moves cleanup _ _ r (retire_all-Stays p _ cleanup r h) λ _ s h.
    >>=-Moves cleanup _ _ s (stop_if-Stays p build_job s.doc.id s.doc.build_job_id cleanup s h)
      λ _ s h. ground arith

restore_route-Stays :
    (p : Platform) (v : Service) (a : Phase) (r : Run)
    → r.doc.phase ≡ a
    → Stays a (restore_route p v r)
unfolding restore_route ◌>>=◌
restore_route-Stays p v a r h = ground arith

fail_over-Moves :
    (p : Platform) (v : Option Service) (r : Run)
    → r.doc.phase ≡ failure_cleanup
    → Moves failure_cleanup (fail_over p v r)
unfolding fail_over finish_failure
fail_over-Moves p none r h = ground arith
fail_over-Moves p (some v) r h =
    let a = failure_cleanup in
    elim (Bool-cases (is_id v.current_deployment_id r.doc.id)) [
      | inl e ↦ rw e (ground arith)
      | inr e ↦ rw e (
          >>=-Moves a _ _ r (restore_route-Stays p v a r h) λ t s h.
            >>=-Moves a _ _ s (stop_if-Stays p application s.doc.id s.doc.job_id a s h) λ _ s h.
              >>=-Moves a _ _ s (stop_if-Stays p build_job s.doc.id s.doc.build_job_id a s h)
                λ _ s h. ground arith)
    ]

run_phase-Moves : (p : Platform) (a : Phase) (r : Run) → r.doc.phase ≡ a → Moves a (run_phase p a r)
unfolding run_phase submit cleanup_failure ◌>>=◌
run_phase-Moves p prepare r h = prepare_run-Moves p r h
run_phase-Moves p build_submit r h = ground arith
run_phase-Moves p Phase.building r h = build_run-Moves p r h
run_phase-Moves p app_prepare r h = prepare_application-Moves p r h
run_phase-Moves p app_submit r h = ground arith
run_phase-Moves p observing r h = observe_application-Moves p r h
run_phase-Moves p routing r h = promote-Moves p r h
run_phase-Moves p cleanup r h = cleanup_run-Moves p r h
run_phase-Moves p failure_cleanup r h = fail_over-Moves p _ r h
run_phase-Moves p done r h = ground arith

attempt-Moves : (p : Platform) (a : Phase) (r : Run) → r.doc.phase ≡ a → Moves a (attempt p r)
unfolding attempt
attempt-Moves p a r h = ground (arith, run_phase-Moves p a r h)

settle-may_follow :
    (a : Phase) (answer : Result (Unit {0})) (r : Run)
    → is_done a ≡ false
    → Moves a (answer, r)
    → may_follow a (settle answer r).doc.phase ≡ true
unfolding settle fail_deployment step
settle-may_follow a (ok _) r n h = ground arith
settle-may_follow a (err e) r n h = ground arith

-- One pass takes a deployment to its own phase or to a successor of it in the table `next_phase`,
-- whatever the awaits answer and do: so a promoted release is never failed, a failed one is only
-- cleaned up (or found to be the current one), and `done` is final.
pub reconcile_deployment-may_follow :
    (p : Platform) (r : Run) → may_follow r.doc.phase (reconcile_deployment p r).doc.phase ≡ true
unfolding reconcile_deployment
reconcile_deployment-may_follow p r = elim (Bool-cases (is_done r.doc.phase)) [
  | inl e ↦ ground arith
  | inr e ↦ rw e (
      settle-may_follow r.doc.phase (attempt p r).0 (attempt p r).1 e
        (attempt-Moves p r.doc.phase r refl))
]
