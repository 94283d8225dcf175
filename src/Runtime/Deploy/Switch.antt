-- ===== src/Runtime/Deploy/Switch.antt =====
-- What `promote` (apps/control-cloud/src/runtime/deploy.ts) writes, and when it writes nothing.
use personal_cloud.Prelude.{
  ℕ, ◌≡◌, ◌≢◌, refl, List, false, Option, none, some, arith, inl, inr, is_id,
}
use personal_cloud.Prelude.Outcome.{Result, ok, err, Error, http, Result-cases}
use personal_cloud.Store.{get, put}
use personal_cloud.Store.Laws.{get-put, get-key}
use personal_cloud.Runtime.Deploy.State.{
  Status, cleanup, Deployment, Service, service_healthy, World, Run, deployment_id, service_key,
  ◌>>=◌, step,
}
use personal_cloud.Runtime.Deploy.Phases.{Platform}
use personal_cloud.Runtime.Deploy.Release.{
  switch, switched, promote, promoted_service, promoted_doc,
}

-- The service leads to the deployment, and no promotion is pending.
abbrev pub LeadsTo : Deployment → Service → Type 0
LeadsTo d s =
    (s.current_deployment_id ≡ some d.id)
    × (s.address ≡ d.address)
    × (s.machine_id ≡ d.machine_id)
    × (s.image_digest ≡ d.image_digest)
    × (s.status ≡ service_healthy)
    × (s.promotion_deployment_id ≡ none)
    × (s.promotion_address ≡ none)

abbrev pub IsReleased : Deployment → Type 0
IsReleased d = (d.status ≡ Status.healthy) × (d.phase ≡ cleanup) × (d.error ≡ none)

-- From a workspace to a later one, only one service and one deployment change.
abbrev pub OnlyChanges : ℕ → ℕ → World → World → Type 0
OnlyChanges service deployment v w =
    ((k : ℕ) → k ≢ service → get service_key k w.services ≡ get service_key k v.services)
    × ((k : ℕ)
        → k ≢ deployment
        → get deployment_id k w.deployments ≡ get deployment_id k v.deployments)

abbrev pub Switched : Deployment → World → Result (Unit {0}) × Run → Type 0
Switched d v (answer, r) =
    (answer ≡ ok tt)
    × ((s : Service) × (get service_key d.service_id r.world.services ≡ some s) × LeadsTo d s)
    × ((e : Deployment) × (get deployment_id d.id r.world.deployments ≡ some e) × IsReleased e)
    × OnlyChanges d.service_id d.id v r.world

get-put_ne :
    {A : Type 0} (key : A → ℕ) (k : ℕ) (d : A) (ds : List A)
    → k ≢ key d
    → get key k (put key d ds) ≡ get key k ds
get-put_ne key k d ds h = ground (arith, get-put key k d ds)

get-put_eq :
    {A : Type 0} (key : A → ℕ) (k : ℕ) (d : A) (ds : List A)
    → key d ≡ k
    → get key k (put key d ds) ≡ some d
get-put_eq key k d ds h = ground (arith, get-put key k d ds)

switched-Switched :
    (p : Platform) (r : Run) (s : Service)
    → get service_key r.doc.service_id r.world.services ≡ some s
    → Switched r.doc r.world (ok tt, switched p s r)
unfolding step
switched-Switched p r s g =
    let key = get-key service_key r.doc.service_id s r.world.services g in
    let t : Service = promoted_service p r.doc s in
    let d : Deployment = promoted_doc p r.world r.doc in
    (
      refl,
      (
        t,
        get-put_eq service_key r.doc.service_id t r.world.services key,
        (refl, refl, refl, refl, refl, refl, refl),
      ),
      (d, get-put_eq deployment_id r.doc.id d r.world.deployments refl, (refl, refl, refl)),
      (
        (λ k n. get-put_ne service_key k t r.world.services (ground (arith, n))),
        λ k n. get-put_ne deployment_id k d r.world.deployments n,
      ),
    )

switch-owned :
    (p : Platform) (r : Run) (s : Service)
    → s.promotion_deployment_id ≡ some r.doc.id
    → switch p (some s) r ≡ (ok tt, switched p s r)
unfolding switch
switch-owned p r s o = ground arith

promote-switch :
    (p : Platform) (r : Run) (w : World)
    → p.refresh_service_domains r.doc.service_id r.world ≡ (ok tt, w)
    → promote p r ≡ switch p (get service_key r.doc.service_id w.services) (record r { world = w })
unfolding promote ◌>>=◌
promote-switch p r w h = ground arith

-- Where the routes are refreshed and the service then still waits for this deployment, both current
-- pointers change together: the service leads to the deployment with no promotion pending, the stored
-- deployment is healthy and goes on to clean up, and no other service or deployment changes.
pub promote-Switched :
    (p : Platform) (r : Run) (w : World) (s : Service)
    → p.refresh_service_domains r.doc.service_id r.world ≡ (ok tt, w)
    → get service_key r.doc.service_id w.services ≡ some s
    → s.promotion_deployment_id ≡ some r.doc.id
    → Switched r.doc w (promote p r)
promote-Switched p r w s h g o =
    rw (promote-switch p r w h, g, switch-owned p (record r { world = w }) s o)
      (switched-Switched p (record r { world = w }) s g)

abbrev pub Failed : Result (Unit {0}) → Type 0
Failed answer = (e : Error) × (answer ≡ err e)

switch-keeps :
    (p : Platform) (v : Option Service) (r : Run)
    → ((s : Service) → v ≡ some s → s.promotion_deployment_id ≢ some r.doc.id)
    → Failed (switch p v r).0 × ((switch p v r).1 ≡ r)
unfolding switch
switch-keeps p none r n = ((http 404 "service not found", refl), refl)
switch-keeps p (some s) r n =
    let free : is_id s.promotion_deployment_id r.doc.id ≡ false = ground (arith, n s refl) in
    rw free ((http 409 "Deployment no longer owns the service promotion", refl), refl)

-- A promotion that the service does not wait for when the routes are refreshed, or whose refresh fails,
-- fails and changes nothing: what remains is what the await did to the workspace.
pub promote-Failed :
    (p : Platform) (r : Run)
    → ((s : Service)
        → get service_key r.doc.service_id
            (p.refresh_service_domains r.doc.service_id r.world).1.services
          ≡ some s
        → s.promotion_deployment_id ≢ some r.doc.id)
    → Failed (promote p r).0
      × ((promote p r).1
          ≡ record r { world = (p.refresh_service_domains r.doc.service_id r.world).1 })
unfolding promote ◌>>=◌
promote-Failed p r n =
    let w = (p.refresh_service_domains r.doc.service_id r.world).1 in
    elim (Result-cases (p.refresh_service_domains r.doc.service_id r.world).0) [
      | inl (e, h) ↦ ((e, ground arith), ground arith)
      | inr (a, h) ↦
          let k =
            switch-keeps p (get service_key r.doc.service_id w.services) (record r { world = w })
              n in
          ((k.0.0, ground arith), ground arith)
    ]
