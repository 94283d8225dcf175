-- ===== src/Runtime/Deploy/OneActive.antt =====
-- A service has one active deployment at most: the transaction of `queueDeployment`
-- (apps/control-cloud/src/runtime/deploy.ts).
use personal_cloud.Prelude.{
  ℕ, ◌+◌, ◌≤◌, ◌≡◌, refl, sym, subst, Bool, true, false, Option, none, some, List, [], ◌∷◌, arith,
  any, if◌then◌else◌,
}
use personal_cloud.Prelude.Outcome.{Result, ok, err, Error, http, or_fail}
use personal_cloud.Store.{get, put}
use personal_cloud.Store.Laws.{get-key}
use personal_cloud.Runtime.Deploy.State.{
  queued_step, Deployment, Service, Snapshot, World, deployment_id, service_key, step,
}
use personal_cloud.Runtime.Deploy.Queue.{
  Wish, is_active_for, new_deployment, admitted, queue_admitted, queue_for, enqueue,
  queue_deployment,
}

abbrev pub active_count : ℕ → List Deployment → ℕ
active_count service [] = 0
active_count service (d ∷ ds) = (if is_active_for service d then 1 else 0) + active_count service ds

abbrev pub HasOneActive : List Deployment → Type 0
HasOneActive ds = (service : ℕ) → active_count service ds ≤ 1

active_count-put :
    (service : ℕ) (d : Deployment) (ds : List Deployment)
    → active_count service (put deployment_id d ds)
      ≤ active_count service ds + (if is_active_for service d then 1 else 0)
unfolding put
active_count-put service d [] = ground arith
active_count-put service d (e ∷ ds) = ground (arith, active_count-put service d ds)

active_count-any :
    (service : ℕ) (ds : List Deployment)
    → any (is_active_for service) ds ≡ false
    → active_count service ds ≡ 0
active_count-any service [] h = refl
active_count-any service (d ∷ ds) h = ground (arith, active_count-any service ds)

enqueue-HasOneActive :
    (d : Deployment) (w : World)
    → HasOneActive w.deployments
    → HasOneActive (enqueue d w).1.deployments
unfolding enqueue step
enqueue-HasOneActive d w h service = ground (
  arith,
  h service,
  active_count-put service (step queued_step w d) w.deployments,
  active_count-any service w.deployments,
)

-- The request fails, and the workspace is as before.
abbrev pub Refused : World → Result Deployment × World → Type 0
Refused w answer = ((e : Error) × (answer.0 ≡ err e)) × (answer.1 ≡ w)

module _ (is_image is_commit : ℕ → Bool) (snapshot : Service → Option Snapshot) where
  queue_admitted-HasOneActive :
      (id : ℕ) (s : Service) (wish : Wish) (w : World) (copy : Result Snapshot)
      → HasOneActive w.deployments
      → HasOneActive (queue_admitted is_image is_commit snapshot id s wish w copy).1.deployments
  queue_admitted-HasOneActive id s wish w (err e) h = h
  queue_admitted-HasOneActive id s wish w (ok copy) h =
      enqueue-HasOneActive (new_deployment id w.now s copy wish) w h

  queue_for-HasOneActive :
      (id : ℕ) (wish : Wish) (w : World) (s : Result Service)
      → HasOneActive w.deployments
      → HasOneActive (queue_for is_image is_commit snapshot id wish w s).1.deployments
  queue_for-HasOneActive id wish w (err e) h = h
  queue_for-HasOneActive id wish w (ok s) h =
      queue_admitted-HasOneActive id s wish w (admitted is_image is_commit snapshot s wish) h

  -- Where no service has two active deployments, none has after a request to deploy one of them, whatever
  -- image, commit or rollback the request names.
  pub queue_deployment-HasOneActive :
      (id service : ℕ) (wish : Wish) (w : World)
      → HasOneActive w.deployments
      → HasOneActive (queue_deployment is_image is_commit snapshot id service wish w).1.deployments
  unfolding queue_deployment
  queue_deployment-HasOneActive id service wish w h = queue_for-HasOneActive id wish w _ h

  enqueue-Refused :
      (d : Deployment) (w : World)
      → any (is_active_for d.service_id) w.deployments ≡ true
      → Refused w (enqueue d w)
  unfolding enqueue
  enqueue-Refused d w h =
      rw h ((http 409 "A deployment is already active for this service", refl), refl)

  queue_admitted-Refused :
      (id : ℕ) (s : Service) (wish : Wish) (w : World) (copy : Result Snapshot)
      → any (is_active_for s.id) w.deployments ≡ true
      → Refused w (queue_admitted is_image is_commit snapshot id s wish w copy)
  queue_admitted-Refused id s wish w (err e) h = ((e, refl), refl)
  queue_admitted-Refused id s wish w (ok copy) h =
      enqueue-Refused (new_deployment id w.now s copy wish) w h

  queue_for-Refused :
      (id service : ℕ) (wish : Wish) (w : World) (found : Option Service)
      → ((s : Service) → found ≡ some s → any (is_active_for s.id) w.deployments ≡ true)
      → Refused w
          (queue_for is_image is_commit snapshot id wish w (or_fail found 404 "service not found"))
  queue_for-Refused id service wish w none h = ((http 404 "service not found", refl), refl)
  queue_for-Refused id service wish w (some s) h =
      queue_admitted-Refused id s wish w (admitted is_image is_commit snapshot s wish) (h s refl)

  -- While a deployment of the service is active, a request to deploy it fails and changes nothing.
  pub queue_deployment-Refused :
      (id service : ℕ) (wish : Wish) (w : World)
      → any (is_active_for service) w.deployments ≡ true
      → Refused w (queue_deployment is_image is_commit snapshot id service wish w)
  unfolding queue_deployment
  queue_deployment-Refused id service wish w h =
      queue_for-Refused id service wish w (get service_key service w.services) λ s g.
        subst (λ k. any (is_active_for k) w.deployments ≡ true)
          (sym (get-key service_key service s w.services g)) h
