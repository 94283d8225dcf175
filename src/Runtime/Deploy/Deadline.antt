-- ===== src/Runtime/Deploy/Deadline.antt =====
-- The deadlines of `reconcileDeployment` (apps/control-cloud/src/runtime/deploy.ts).
use personal_cloud.Prelude.{
  ◌-◌, ◌<◌, ◌≡◌, String, if◌then◌else◌, true, false, some, arith, is_some, lt→ltb,
}
use personal_cloud.Prelude.Outcome.{err, http}
use personal_cloud.Store.{get}
use personal_cloud.Store.Laws.{get-put}
use personal_cloud.Runtime.Deploy.State.{
  deploying, failure_cleanup, Deployment, Run, deployment_id, is_active, step,
}
use personal_cloud.Runtime.Deploy.Phases.{Platform}
use personal_cloud.Runtime.Deploy.Reconcile.{
  is_cleanup, is_building, is_done, is_overdue, is_stored, limit_of, started_at, attempt, settle,
  fail_deployment, reconcile_deployment,
}

overdue :
    (r : Run)
    → is_active r.doc.status ≡ true
    → is_cleanup r.doc.phase ≡ false
    → limit_of r.doc.status < r.world.now - started_at r.doc
    → is_overdue r.doc r.world.now ≡ true
overdue r a c l =
    let late = lt→ltb (limit_of r.doc.status) (r.world.now - started_at r.doc) l in
    ground (arith, late)

attempt-overdue :
    (p : Platform) (r : Run)
    → is_overdue r.doc r.world.now ≡ true
    → (message : String) × (attempt p r ≡ (err (http 409 message), r))
unfolding attempt
attempt-overdue p r o = (
  (if is_building r.doc.status
      then "Build exceeded the 20-minute deadline"
      else "Deployment health deadline exceeded; previous version retained"),
  ground arith,
)

-- The deployment has failed and is stored so, for its own cleaning; its error is told.
abbrev pub HasFailed : Run → Run → Type 0
HasFailed r s =
    (s.doc.phase ≡ failure_cleanup)
    × (s.doc.status ≡ deploying)
    × (is_some s.doc.error ≡ true)
    × (get deployment_id r.doc.id s.world.deployments ≡ some s.doc)
    × (s.world.services ≡ r.world.services)
    × (s.stops ≡ r.stops)

settle-HasFailed :
    (r : Run) (message : String)
    → is_stored r ≡ true
    → is_cleanup r.doc.phase ≡ false
    → HasFailed r (settle (err (http 409 message)) r)
unfolding settle fail_deployment step
settle-HasFailed r message s c =
    let d : Deployment = fail_deployment (http 409 message) r.world r.doc in
    let stored = get-put deployment_id r.doc.id d r.world.deployments in
    (ground arith, ground arith, ground arith, ground (arith, stored), ground arith, ground arith)

-- A deployment that is active in a phase before the clean-up, and past its deadline (20 minutes for a
-- build, 5 minutes otherwise, since the phase began), fails in the next pass, whatever the scheduler
-- does: it goes on to clean up after itself and is stored with its error; nothing is stopped, and no
-- service changes.
pub reconcile_deployment-HasFailed :
    (p : Platform) (r : Run)
    → is_active r.doc.status ≡ true
    → is_cleanup r.doc.phase ≡ false
    → is_done r.doc.phase ≡ false
    → is_stored r ≡ true
    → limit_of r.doc.status < r.world.now - started_at r.doc
    → HasFailed r (reconcile_deployment p r)
unfolding reconcile_deployment
reconcile_deployment-HasFailed p r a c n s l =
    let (message, e) = attempt-overdue p r (overdue r a c l) in
    rw (n, e) (settle-HasFailed r message s c)
