-- ===== src/Runtime/Deploy/Cleanup.antt =====
-- What a deployment stops: `cleanup` and `cleanupFailure` of apps/control-cloud/src/runtime/deploy.ts.
use personal_cloud.Prelude.{
  ℕ, zero, suc, Bool, true, false, ◌&&◌, ◌||◌, Option, none, some, List, [], ◌∷◌, ◌==◌,
  if◌then◌else◌, is_some, is_id, any, length,
}
use personal_cloud.Prelude.Outcome.{ok}
use personal_cloud.Store.{get}
use personal_cloud.Runtime.Deploy.State.{
  Status, rolled_back, failed, cleanup, done, Deployment, Service, service_failed,
  deployment_failed, World, deployment_id, Kind, application, Stop, build_job, service_key, Run, M,
  after, ◌>>=◌, finish, throw, await, edit, save_deployment, save_service, emit,
}
use personal_cloud.Runtime.Deploy.Phases.{Platform}

abbrev pub is_in : List ℕ → ℕ → Bool
is_in seen k = any (λ j. j == k) seen

-- The loop over `previousId`, with the identities seen so far. The fuel bounds its rounds.
unfoldable pub chain : ℕ → List Deployment → List ℕ → Option ℕ → List Deployment
chain zero ds seen previous = []
chain (suc fuel) ds seen none = []
chain (suc fuel) ds seen (some k) = elim (is_in seen k) [
  | true ↦ []
  | false ↦ elim (get deployment_id k ds) [
    | none ↦ []
    | some d ↦ d ∷ chain fuel ds (k ∷ seen) d.previous_deployment_id
  ]
]

-- One round more than there are deployments is enough.
abbrev pub predecessors : List Deployment → Option ℕ → List Deployment
predecessors ds previous = chain (suc (length ds)) ds [] previous

module _ (p : Platform) where
  -- `stopJob`, noted in `stops`.
  unfoldable pub stop_noted : Kind → ℕ → ℕ → M (Unit {0})
  stop_noted kind owner job r =
      let stop : Stop = record { kind = kind; owner = owner; job = job; before = r.world } in
      await (p.stop_job job) record r { stops = stop ∷ r.stops }

  -- `if (job) await stopJob(job)`
  unfoldable pub stop_if : Kind → ℕ → Option ℕ → M (Unit {0})
  stop_if kind owner none r = (ok tt, r)
  stop_if kind owner (some job) r = stop_noted kind owner job r

  abbrev pub stop_build : M (Unit {0})
  stop_build r = stop_if build_job r.doc.id r.doc.build_job_id r

  abbrev pub is_kept : Deployment → Service → Bool
  is_kept previous s =
      is_id s.current_deployment_id previous.id || is_id s.promotion_deployment_id previous.id

  unfoldable pub retire_job : Deployment → Option ℕ → M (Unit {0})
  retire_job previous none r = (ok tt, r)
  retire_job previous (some job) r =
      (stop_noted application previous.id job >>= λ _. λ (s : Run). (
        ok tt,
        record s { world = save_deployment record previous { status = rolled_back } s.world },
      ))
        r

  unfoldable pub retire_under : Deployment → Option Service → M (Unit {0})
  retire_under previous none r = (ok tt, r)
  retire_under previous (some s) r =
      if is_kept previous s then (ok tt, r) else retire_job previous previous.job_id r

  unfoldable pub retire : Deployment → M (Unit {0})
  retire previous r = retire_under previous (get service_key r.doc.service_id r.world.services) r

  unfoldable pub retire_all : List Deployment → M (Unit {0})
  retire_all [] r = (ok tt, r)
  retire_all (previous ∷ rest) r = after (retire previous r) λ _. retire_all rest

  abbrev pub finish_cleanup : M (Unit {0})
  finish_cleanup =
      edit λ w d. record d { phase = done; job_encrypted = none; config_encrypted = none }

  unfoldable pub cleanup_run : M (Unit {0})
  cleanup_run r =
      (retire_all (predecessors r.world.deployments r.doc.previous_deployment_id) >>= λ _.
      stop_build >>= λ _. finish_cleanup)
        r

  -- The service as it was read at the start is written again here.
  abbrev pub settle_service : Service → World → World
  settle_service s w = elim s.current_deployment_id [
    | some k ↦ w
    | none ↦ save_service record s { status = service_failed } w
  ]

  abbrev pub stop_candidate : M (Unit {0})
  stop_candidate r = stop_if application r.doc.id r.doc.job_id r

  unfoldable pub finish_failure : Service → M (Unit {0})
  finish_failure s r = (
    ok tt,
    record r {
      doc = record r.doc {
        status = failed;
        phase = done;
        finished_at = some r.world.now;
        job_encrypted = none;
        secrets_encrypted = none;
        config_encrypted = none;
      };
      world = emit (deployment_failed s.id) (settle_service s r.world);
    },
  )

  -- The previous route comes back before the candidate is stopped.
  unfoldable pub restore_route : Service → M Service
  restore_route s r =
      if is_id s.promotion_deployment_id r.doc.id
      then (let t : Service = record s {
        promotion_deployment_id = none;
        promotion_address = none;
      } in
          (await (p.refresh_service_domains s.id) >>= λ _. finish t)
            record r { world = save_service t r.world })
      else if is_some r.doc.address && any (λ k. k == s.id) r.world.domains
      then (await (p.refresh_service_domains s.id) >>= λ _. finish s) r
      else (ok s, r)

  unfoldable pub fail_over : Option Service → M (Unit {0})
  fail_over none r = throw 404 "service not found" r
  fail_over (some s) r =
      if is_id s.current_deployment_id r.doc.id
      then (ok tt, record r { doc = record r.doc { status = Status.healthy; phase = cleanup } })
      else (restore_route s >>= λ t. stop_candidate >>= λ _. stop_build >>= λ _. finish_failure t) r

  unfoldable pub cleanup_failure : M (Unit {0})
  cleanup_failure r = fail_over (get service_key r.doc.service_id r.world.services) r
