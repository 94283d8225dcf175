-- ===== src/Runtime/Deploy/Retained.antt =====
-- What `cleanupFailure` (apps/control-cloud/src/runtime/deploy.ts) leaves running.
use personal_cloud.Prelude.{
  ◌≡◌, ◌≢◌, ◌⊎◌, ◌==◌, inl, inr, refl, true, Option, none, some, any, is_id, arith, Bool-cases,
}
use personal_cloud.Prelude.Outcome.{ok, Result-cases}
use personal_cloud.Store.{get}
use personal_cloud.Runtime.Deploy.State.{
  Status, failure_cleanup, cleanup, Service, Run, save_service, service_key, ◌>>=◌,
}
use personal_cloud.Runtime.Deploy.Phases.{Platform}
use personal_cloud.Runtime.Deploy.Cleanup.{restore_route, fail_over, cleanup_failure}
use personal_cloud.Runtime.Deploy.Spared.{settle-stops}
use personal_cloud.Runtime.Deploy.Reconcile.{run_phase, attempt, settle, reconcile_deployment}

abbrev pub without_promotion : Service → Service
without_promotion s = record s { promotion_deployment_id = none; promotion_address = none }

attempt-cleanup_failure :
    (p : Platform) (r : Run)
    → r.doc.phase ≡ failure_cleanup
    → attempt p r ≡ fail_over p (get service_key r.doc.service_id r.world.services) r
unfolding attempt run_phase cleanup_failure
attempt-cleanup_failure p r c = ground arith

-- Every route that may lead to a failed deployment is led elsewhere before anything of it is stopped: where
-- its service waits for it, and where it has an address and the service has domains, the domains
-- have been refreshed with success; in the first case with the service as it is without the promotion.
abbrev pub IsRouted : Platform → Service → Run → Type 0
IsRouted p s r =
    (s.promotion_deployment_id ≡ some r.doc.id
      → (p.refresh_service_domains s.id (save_service (without_promotion s) r.world)).0 ≡ ok tt)
    × (s.promotion_deployment_id ≢ some r.doc.id
        → r.doc.address ≢ none
        → any (λ k. k == s.id) r.world.domains ≡ true
        → (p.refresh_service_domains s.id r.world).0 ≡ ok tt)

restore_route-IsRouted :
    (p : Platform) (s t : Service) (r : Run) → (restore_route p s r).0 ≡ ok t → IsRouted p s r
unfolding restore_route ◌>>=◌
restore_route-IsRouted p s t r h =
    ((λ waits. ground (arith, h, waits)), λ free there leads. ground (arith, h, free, there, leads))

restore_route-stops :
    (p : Platform) (s : Service) (r : Run) → (restore_route p s r).1.stops ≡ r.stops
unfolding restore_route ◌>>=◌
restore_route-stops p s r = ground arith

-- What a pass over a failed deployment may stop something for.
abbrev pub MayStop : Platform → Run → Type 0
MayStop p r =
    (s : Service) × (get service_key r.doc.service_id r.world.services ≡ some s)
    × (s.current_deployment_id ≢ some r.doc.id)
    × IsRouted p s r

fail_over-MayStop :
    (p : Platform) (r : Run) (o : Option Service)
    → get service_key r.doc.service_id r.world.services ≡ o
    → ((fail_over p o r).1.stops ≡ r.stops) ⊎ MayStop p r
unfolding fail_over ◌>>=◌
fail_over-MayStop p r none g = inl refl
fail_over-MayStop p r (some s) g = elim (Bool-cases (is_id s.current_deployment_id r.doc.id)) [
  | inl current ↦ inl (rw current refl)
  | inr another ↦ elim (Result-cases (restore_route p s r).0) [
    | inl (e, failed) ↦ inl (ground (arith, another, failed, restore_route-stops p s r))
    | inr (t, restored) ↦
        inr (s, g, ground (arith, another), restore_route-IsRouted p s t r restored)
  ]
]

-- A pass over a failed deployment stops nothing, unless its service stands, is not led to that deployment,
-- and every route that may lead to it has been led elsewhere in this pass.
pub reconcile_deployment-MayStop :
    (p : Platform) (r : Run)
    → r.doc.phase ≡ failure_cleanup
    → ((reconcile_deployment p r).stops ≡ r.stops) ⊎ MayStop p r
unfolding reconcile_deployment
reconcile_deployment-MayStop p r c = ground (
  arith,
  attempt-cleanup_failure p r c,
  fail_over-MayStop p r (get service_key r.doc.service_id r.world.services) refl,
  settle-stops (attempt p r).0 (attempt p r).1,
)

settle-released : (r : Run) → (settle (ok tt) r).stops ≡ r.stops
unfolding settle
settle-released r = ground arith

fail_over-current :
    (p : Platform) (r : Run) (s : Service)
    → s.current_deployment_id ≡ some r.doc.id
    → ((fail_over p (some s) r).0 ≡ ok tt)
      × ((fail_over p (some s) r).1
          ≡ record r { doc = record r.doc { status = Status.healthy; phase = cleanup } })
unfolding fail_over
fail_over-current p r s o = ground arith

settle-doc : (r : Run) → (settle (ok tt) r).doc ≡ r.doc
unfolding settle
settle-doc r = ground arith

-- A failed deployment that turns out to be its service's current one is not stopped: nothing is, and it
-- is healthy again and goes on to clean up its predecessors.
pub reconcile_deployment-healthy :
    (p : Platform) (r : Run) (s : Service)
    → r.doc.phase ≡ failure_cleanup
    → get service_key r.doc.service_id r.world.services ≡ some s
    → s.current_deployment_id ≡ some r.doc.id
    → ((reconcile_deployment p r).stops ≡ r.stops)
      × ((reconcile_deployment p r).doc.phase ≡ cleanup)
      × ((reconcile_deployment p r).doc.status ≡ Status.healthy)
unfolding reconcile_deployment
reconcile_deployment-healthy p r s c g o =
    let q : Run = record r { doc = record r.doc { status = Status.healthy; phase = cleanup } } in
    ground (
      arith,
      attempt-cleanup_failure p r c,
      fail_over-current p r s o,
      settle-released q,
      settle-doc q,
    )
