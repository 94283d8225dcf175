-- ===== src/Runtime/Deploy/Spared.antt =====
-- What `cleanup` (apps/control-cloud/src/runtime/deploy.ts) stops.
use personal_cloud.Prelude.{ℕ, ◌≡◌, ◌≢◌, ◌⊎◌, IsIn, some, List, arith, All}
use personal_cloud.Prelude.Outcome.{Result, ok, err}
use personal_cloud.Store.{get}
use personal_cloud.Runtime.Deploy.State.{Stop, Deployment, Service, World, Run, service_key}
use personal_cloud.Runtime.Deploy.Phases.{Platform}
use personal_cloud.Runtime.Deploy.Reconcile.{settle}

-- At this moment the service stands, and neither leads to the deployment nor waits for it.
abbrev pub IsUnused : ℕ → ℕ → World → Type 0
IsUnused service k w =
    (s : Service) × (get service_key service w.services ≡ some s)
    × (s.current_deployment_id ≢ some k)
    × (s.promotion_deployment_id ≢ some k)

-- A stopped job is right for this cleaning deployment, which has these predecessors: it is the
-- application of one of them that is unused when it is stopped, or the deployment's own build.
abbrev pub Spares : Deployment → List Deployment → Stop → Type 0
Spares d ds x =
    ((e : Deployment) × IsIn e ds × (e.job_id ≡ some x.job) × IsUnused d.service_id e.id x.before)
    ⊎ (d.build_job_id ≡ some x.job)

module _ (p : Platform) (doc : Deployment) (ds : List Deployment) where
  abbrev Kept : {A : Type 0} → Result A × Run → Type 0
  Kept (answer, r) = (r.doc ≡ doc) × All (Spares doc ds) r.stops

pub settle-stops : (answer : Result (Unit {0})) (r : Run) → (settle answer r).stops ≡ r.stops
unfolding settle
settle-stops (ok _) r = ground arith
settle-stops (err e) r = ground arith
