-- ===== src/Runtime/Deploy/Examples.antt =====
-- A service whose release 1 runs, and whose release 2 is built and takes over.
use personal_cloud.Prelude.{
  ◌⊎◌, ℕ, zero, suc, ◌≡◌, refl, Bool, true, false, Option, some, List, [], ◌∷◌, arith, length,
}
use personal_cloud.Prelude.Outcome.{ok}
use personal_cloud.Store.{get, put}
use personal_cloud.Runtime.Placement.{is_candidate, builds_for, deployment_targets}
use personal_cloud.Runtime.Deploy.State.{
  Status, queued_step, healthy, prepare, routing, cleanup, failure_cleanup, done, Snapshot,
  Deployment, Service, World, Run, step, ◌>>=◌,
}
use personal_cloud.Runtime.Deploy.Queue.{enqueue, queue_deployment}
use personal_cloud.Runtime.Deploy.Phases.{
  seal_build, check_commit, find_commit, use_source, place_on, choose, use_image, prepare_run,
}
use personal_cloud.Runtime.Deploy.Release.{
  log_lines, tried, read_logs, take_image, after_logs, build_on, build_run, seal_application,
  prepare_application, offer, adopt, observe_on, observe_application, switch, promote,
}
use personal_cloud.Runtime.Deploy.Cleanup.{
  chain, predecessors, stop_noted, stop_if, retire_job, retire_under, retire, retire_all,
  cleanup_run,
}
use personal_cloud.Runtime.Deploy.Reconcile.{
  submit, run_phase, attempt, settle, reconcile_deployment,
}
use personal_cloud.Runtime.Deploy.Graph.{may_follow}
use personal_cloud.Runtime.Deploy.Order.{reconcile_deployment-may_follow}
use personal_cloud.Runtime.Deploy.Switch.{Switched, promote-Switched}
use personal_cloud.Runtime.Deploy.Retained.{MayStop, reconcile_deployment-MayStop}
use personal_cloud.Runtime.Deploy.Chain.{predecessors-chain}
use personal_cloud.Runtime.Deploy.OneActive.{HasOneActive, queue_deployment-HasOneActive}
use personal_cloud.Runtime.Deploy.Provenance.{Images, legacy, deployment_registry}
use personal_cloud.Runtime.Deploy.Deadline.{HasFailed, reconcile_deployment-HasFailed}
use personal_cloud.Runtime.Deploy.Samples.{
  platform, broken_routes, service, copy, wish, old, fresh, world, start,
}

abbrev passes : ℕ → Run → Run
passes zero r = r
passes (suc n) r = passes n (reconcile_deployment platform r)

-- Nine passes take the new release from the queue to the end; the old one is stopped.
nine_passes :
    ((passes 9 start).doc.phase ≡ done)
    × ((passes 9 start).doc.status ≡ healthy)
    × (◌≡◌ {A = ℕ} (length (passes 9 start).stops) 2)
unfolding reconcile_deployment settle attempt run_phase submit prepare_run choose place_on
    use_source use_image find_commit check_commit seal_build build_run build_on read_logs tried
    take_image after_logs prepare_application seal_application observe_application observe_on adopt
    offer promote switch cleanup_run retire_all retire retire_under retire_job stop_noted stop_if
    chain log_lines step deployment_targets is_candidate builds_for get put ◌>>=◌
nine_passes = (refl, refl, refl)

reconcile_deployment-may_follow_example :
    may_follow prepare (reconcile_deployment platform start).doc.phase ≡ true
reconcile_deployment-may_follow_example = reconcile_deployment-may_follow platform start

abbrev waiting : Service
waiting = record service { promotion_deployment_id = some 2; promotion_address = some 80 }

abbrev promoting : Run
promoting = record {
  doc = record fresh { status = Status.deploying; phase = routing; address = some 80 };
  world = record world { services = waiting ∷ [] };
  stops = [];
}

promote-Switched_example : Switched promoting.doc promoting.world (promote platform promoting)
unfolding get
promote-Switched_example =
    promote-Switched platform promoting promoting.world waiting refl refl refl

abbrev stale : Run
stale = record promoting { world = world }

abbrev cleaning : Run
cleaning = record start {
  doc = record fresh { status = healthy; phase = cleanup };
  world = record world { services = record service { current_deployment_id = some 2 } ∷ [] };
}

abbrev failing : Run
failing = record promoting {
  doc = record fresh { status = Status.deploying; phase = failure_cleanup; job_id = some 2 };
}

reconcile_deployment-MayStop_example :
    ((reconcile_deployment broken_routes failing).stops ≡ []) ⊎ MayStop broken_routes failing
reconcile_deployment-MayStop_example = reconcile_deployment-MayStop broken_routes failing refl

abbrev current : Run
current = record failing { world = cleaning.world }

-- Two deployments that name each other.
abbrev circle : List Deployment
circle = record old { previous_deployment_id = some 2 } ∷ fresh ∷ []

predecessors-chain_example : chain 100 circle [] (some 1) ≡ predecessors circle (some 1)
predecessors-chain_example = predecessors-chain 100 circle (some 1) (omega arith)

abbrev every : ℕ → Bool
every k = true

abbrev copied : Service → Option Snapshot
copied s = some copy

abbrev idle : World
idle = record world { deployments = old ∷ [] }

-- The request is granted where nothing is active.
queued_deployment :
    (queue_deployment every every copied 2 5 wish idle).0 ≡ ok (step queued_step idle fresh)
unfolding queue_deployment enqueue step get
queued_deployment = refl

idle-HasOneActive : HasOneActive idle.deployments
idle-HasOneActive s = ground arith

queue_deployment-HasOneActive_example :
    HasOneActive (queue_deployment every every copied 2 5 wish idle).1.deployments
queue_deployment-HasOneActive_example =
    queue_deployment-HasOneActive every every copied 2 5 wish idle idle-HasOneActive

abbrev imported_images : Images
imported_images = record {
  is_image = λ k. true;
  is_managed = λ k. false;
  is_configured = true;
  is_valid = true;
  is_legacy = λ k. true;
}

-- The first release was imported; the second goes back to its image.
abbrev imported : Deployment
imported = record old { is_imported = true; image_digest = some 89 }

abbrev back : Deployment
back = record fresh { image_digest = some 89; rollback_of = some 1 }

legacy_image : deployment_registry imported_images (imported ∷ []) back ≡ ok (legacy 1)
unfolding deployment_registry get
legacy_image = refl

abbrev late : Run
late = record start { world = record world { now = 400000 } }

reconcile_deployment-HasFailed_example : HasFailed late (reconcile_deployment platform late)
unfolding get
reconcile_deployment-HasFailed_example =
    reconcile_deployment-HasFailed platform late refl refl refl refl (omega arith)
