-- ===== src/Runtime/Deploy/Queue.antt =====
-- `queueDeployment` of apps/control-cloud/src/runtime/deploy.ts, up to the alarm that it sets at the
-- end.
use personal_cloud.Prelude.{
  ℕ, Bool, true, false, not, ◌&&◌, Option, none, some, [], ◌==◌, if◌then◌else◌, any,
}
use personal_cloud.Prelude.Outcome.{Result, ok, err, fail, fail_if, or_fail, ◌>>=◌, ◌>>◌}
use personal_cloud.Store.{get}
use personal_cloud.Runtime.Deploy.State.{
  queued, prepare, queued_step, Snapshot, Deployment, Service, ServiceStatus, deleting, World,
  service_key, is_active, save_deployment, step,
}

-- What the caller asks for: an image, a commit, the deployment that is rolled back to.
pub record Wish : Type 0 where
  pub image : Option ℕ
  pub commit_sha : Option ℕ
  pub rollback_of : Option ℕ

abbrev pub is_active_for : ℕ → Deployment → Bool
is_active_for service d = d.service_id == service && is_active d.status

abbrev is_deleting : ServiceStatus → Bool
is_deleting deleting = true
is_deleting _ = false

-- `valid(x)` where there is an `x`.
abbrev pub absent_or : (ℕ → Bool) → Option ℕ → Bool
absent_or valid none = true
absent_or valid (some x) = valid x

abbrev pub new_deployment : ℕ → ℕ → Service → Snapshot → Wish → Deployment
new_deployment id now service snapshot wish = record {
  id = id;
  service_id = service.id;
  status = queued;
  phase = prepare;
  created_at = now;
  phase_started_at = none;
  finished_at = none;
  commit_sha = wish.commit_sha;
  image_digest = wish.image;
  previous_deployment_id = service.current_deployment_id;
  rollback_of = wish.rollback_of;
  snapshot = snapshot;
  architecture = none;
  job_id = none;
  build_job_id = none;
  builder_node_id = none;
  job_encrypted = none;
  secrets_encrypted = none;
  config_encrypted = none;
  legacy_image_origin = none;
  is_imported = false;
  allocation_id = none;
  machine_id = none;
  address = none;
  error = none;
  cleanup_error = none;
  last_runtime_error = none;
  steps = [];
}

-- The transaction.
unfoldable pub enqueue : Deployment → World → Result Deployment × World
enqueue d w =
    if any (is_active_for d.service_id) w.deployments
    then (fail 409 "A deployment is already active for this service", w)
    else let queued_copy = step queued_step w d in (ok queued_copy, save_deployment queued_copy w)

-- The tests on images and commits are regular expressions; `snapshot` copies the service and its
-- project.
module _ (is_image is_commit : ℕ → Bool) (snapshot : Service → Option Snapshot) where
  -- What is checked before: the snapshot fails where the project is missing.
  abbrev pub admitted : Service → Wish → Result Snapshot
  admitted service wish = or_fail (snapshot service) 404 "project not found" >>= λ copy.
      fail_if (is_deleting service.status) 409 "Service is being removed"
      >> fail_if (not (absent_or is_image wish.image)) 400
          "Deployments require an immutable sha256 image digest"
      >> fail_if (not (absent_or is_commit wish.commit_sha)) 400 "Invalid source commit"
      >> ok copy

  abbrev pub queue_admitted :
      ℕ → Service → Wish → World → Result Snapshot → Result Deployment × World
  queue_admitted id service wish w (err e) = (err e, w)
  queue_admitted id service wish w (ok copy) = enqueue (new_deployment id w.now service copy wish) w

  abbrev pub queue_for : ℕ → Wish → World → Result Service → Result Deployment × World
  queue_for id wish w (err e) = (err e, w)
  queue_for id wish w (ok service) = queue_admitted id service wish w (admitted service wish)

  unfoldable pub queue_deployment : ℕ → ℕ → Wish → World → Result Deployment × World
  queue_deployment id service_id wish w =
      queue_for id wish w (or_fail (get service_key service_id w.services) 404 "service not found")
