-- ===== src/Runtime/Scheduler/Examples.antt =====
-- A job with two allocations.
use personal_cloud.Prelude.{◌≡◌, refl, true, false, some, [], ◌∷◌}
use personal_cloud.Prelude.Outcome.{ok, err, http}
use personal_cloud.Store.{get, put}
use personal_cloud.Runtime.Scheduler.{
  running, ended, Allocation, Scheduler, Call, observe_all, observe_stop, stop_job, first_healthy,
  healthy,
}
use personal_cloud.Runtime.Scheduler.Stopped.{IsStopped, stop_job-IsStopped}

abbrev answers : {A : Type 0} → A → Call A
answers a w = (ok a, w)

abbrev first : Allocation
first = record { id = 1; is_stopping = true; client_status = ended }

abbrev second : Allocation
second = record { id = 2; is_stopping = false; client_status = running }

-- The allocations have ended by the time that they are looked at; the job is unknown when it is purged.
abbrev scheduler : Scheduler
scheduler = record {
  job = λ job. answers true;
  register = λ job. answers tt;
  allocations = λ job. answers (first ∷ second ∷ []);
  purge = λ job w. (err (http 404 "unknown job"), w);
  client_status = λ a. answers ended;
  task_running = λ a. answers true;
  checks = λ a. answers (true ∷ []);
  addresses = λ job. answers [];
}

stopped : (stop_job scheduler 5 []).0 ≡ ok tt
unfolding stop_job observe_all observe_stop get put
stopped = refl

stop_job-IsStopped_example : IsStopped scheduler 5 [] (stop_job scheduler 5 []).1
stop_job-IsStopped_example = stop_job-IsStopped scheduler 5 [] stopped

second_is_healthy : (healthy scheduler 5 []).0 ≡ ok (some second)
unfolding healthy first_healthy
second_is_healthy = refl
