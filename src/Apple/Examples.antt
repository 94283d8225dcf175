-- ===== src/Apple/Examples.antt =====
-- A job that runs and succeeds, and one that is cancelled while it runs.
use personal_cloud.Prelude.{◌≡◌, refl, true, false, none, some, List, [], ◌∷◌}
use personal_cloud.Prelude.Outcome.{ok, err, other}
use personal_cloud.Apple.{
  queued, succeeded, cancelled, failed, Job, Allocation, ClientStatus, is_running, is_complete,
  may_start, start, may_finish, report, cancel, stopped, observe, doubt,
}
use personal_cloud.Apple.System.{
  World, Event, idle, ask_start, shown, ask_finish, reported, cancel_job, list_jobs, reach,
  scheduler_stopped, scheduler_ensured, scheduler_showed, step, run,
}
use personal_cloud.Apple.Order.{Follows, IsOwned, run-Follows}
use personal_cloud.Apple.Honest.{is_honest, run-is_honest}

abbrev job : Job
job = record {
  nomad_job_id = some 70;
  node_id = 4;
  attempt = 99;
  status = queued;
  allocation_id = none;
  started_at = none;
  finished_at = none;
  result_status = none;
  artifact_key = none;
  error = false;
  reconcile_error = false;
}

abbrev start_world : World
start_world = record { job = job; starting = λ op. none; finishing = λ op. none; alarm = idle }

abbrev allocation : ClientStatus → Allocation
allocation s = record { id = 8; job_id = 70; node_id = 4; is_desired = true; client_status = s }

-- The alarm starts the job and its Mac reports.
abbrev running_events : List Event
running_events =
    list_jobs
    ∷ reach 10
    ∷ scheduler_ensured (ok tt)
    ∷ scheduler_showed 11 (ok [])
    ∷ ask_start 1 99
    ∷ shown 1 20 (allocation is_running)
    ∷ ask_finish 2 99
    ∷ reported 2 succeeded
    ∷ reported 2 failed
    ∷ []

abbrev ending_events : List Event
ending_events = list_jobs ∷ reach 30 ∷ scheduler_showed 31 (ok (allocation is_complete ∷ [])) ∷ []

abbrev cancelling_events : List Event
cancelling_events =
    list_jobs
    ∷ reach 30
    ∷ cancel_job
    ∷ scheduler_showed 31 (ok (allocation is_complete ∷ []))
    ∷ list_jobs
    ∷ reach 40
    ∷ scheduler_stopped 41 (err other)
    ∷ list_jobs
    ∷ reach 50
    ∷ scheduler_stopped 51 (ok tt)
    ∷ []

succeeds : (run (run start_world running_events) ending_events).job.status ≡ succeeded
unfolding run step may_start start may_finish report observe
succeeds = refl

is_cancelled : (run (run start_world running_events) cancelling_events).job.status ≡ cancelled
unfolding run step may_start start may_finish report observe cancel stopped doubt
is_cancelled = refl

start-IsOwned : IsOwned start_world
start-IsOwned = ((λ due. absurd (cc)), refl, refl)

run-Follows_example : Follows start_world (run start_world running_events)
run-Follows_example = run-Follows start_world running_events start-IsOwned

run-is_honest_example : is_honest (run start_world running_events).job ≡ true
run-is_honest_example = run-is_honest start_world running_events refl
