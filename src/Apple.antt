-- ===== src/Apple.antt =====
-- One Apple job: what its Mac and users ask for (apps/control-cloud/src/apple-jobs.ts) and what the
-- alarm makes of it (`reconcileAppleJobs` of apps/control-cloud/src/apple-nomad.ts). Each function is what a
-- handler does after its last await, on the job as it is stored then. The status of a job and the one that
-- its Mac reports are of one type. Texts of errors and logs are left out.
pub mod System
pub mod Asked
pub mod Order
pub mod Honest
mod Examples
use personal_cloud.Prelude.{
  ℕ, Bool, true, false, not, ◌&&◌, ◌||◌, Option, none, some, List, [], ◌∷◌, ◌==◌, is_some, is_id,
  if◌then◌else◌,
}
use personal_cloud.Prelude.Outcome.{Result, ok, err, Error, pending, fail_if, ◌>>=◌, ◌>>◌}

pub data Status : Type 0 where
  queued running cancelling succeeded failed cancelled timed_out interrupted : Status

pub record Job : Type 0 where
  pub nomad_job_id : Option ℕ
  pub node_id : ℕ
  pub attempt : ℕ
  pub status : Status
  pub allocation_id : Option ℕ
  pub started_at : Option ℕ
  pub finished_at : Option ℕ
  pub result_status : Option Status
  pub artifact_key : Option ℕ
  pub error : Bool
  pub reconcile_error : Bool

-- An allocation as the scheduler shows it.
pub data ClientStatus : Type 0 where
  is_pending is_running is_complete is_failed is_lost : ClientStatus

pub record Allocation : Type 0 where
  pub id : ℕ
  pub job_id : ℕ
  pub node_id : ℕ
  pub is_desired : Bool
  pub client_status : ClientStatus

abbrev pub is_active : Status → Bool
is_active queued = true
is_active running = true
is_active cancelling = true
is_active _ = false

-- `["queued", "running"]` and `["running", "cancelling"]`
abbrev pub is_runnable : Status → Bool
is_runnable queued = true
is_runnable running = true
is_runnable _ = false

abbrev pub is_open : Status → Bool
is_open running = true
is_open cancelling = true
is_open _ = false

-- The results that a Mac may report.
abbrev pub is_result : Status → Bool
is_result succeeded = true
is_result failed = true
is_result cancelled = true
is_result timed_out = true
is_result _ = false

abbrev pub or_now : Option ℕ → ℕ → ℕ
or_now none now = now
or_now (some t) now = t

abbrev pub runs : ClientStatus → Bool
runs is_running = true
runs _ = false

abbrev pub is_another : Option ℕ → ℕ → Bool
is_another none id = false
is_another (some other_id) id = not (other_id == id)

-- `POST .../start`: the checks before the scheduler is asked, with the attempt in the request's header.
unfoldable pub may_start : ℕ → Job → Result (Unit {0})
may_start attempt job = do
  fail_if (not (attempt == job.attempt)) 403 "Wrong job attempt"
  fail_if (not (is_some job.nomad_job_id) || not (is_runnable job.status)) 409 "Job is not runnable"

-- The scheduler has shown the allocation; `job` was read before, `current` is read now.
unfoldable pub start : ℕ → Job → Allocation → Job → Result Job
start now job a current = do
  fail_if
      (not (is_id job.nomad_job_id a.job_id) || not (a.node_id == job.node_id) || not a.is_desired)
      403 "Allocation does not own this job"
  fail_if (not (runs a.client_status)) 409 "Waiting for Nomad allocation to start"
  fail_if (not (is_runnable current.status) || is_another current.allocation_id a.id) 409
      "Job changed during allocation validation"
  ok (record current {
    status = running;
    allocation_id = some a.id;
    started_at = some (or_now current.started_at now);
  })

-- What the artifact and the result of a job are asked for first.
unfoldable pub may_finish : ℕ → Job → Result (Unit {0})
may_finish attempt job = do
  fail_if (not (attempt == job.attempt)) 403 "Wrong job attempt"
  fail_if (not (is_open job.status)) 409 "Job is already finished"

-- The artifact is stored; a job that ended meanwhile does not get it.
unfoldable pub keep_artifact : ℕ → Job → Result Job
keep_artifact key current = do
  fail_if (not (is_open current.status)) 409 "Job finished during upload"
  ok (record current { artifact_key = some key })

unfoldable pub report : Status → Job → Result Job
report result current = do
  fail_if (not (is_result result)) 400 "Invalid Apple job result"
  fail_if (not (is_open current.status) || is_some current.result_status) 409 "Job already finished"
  ok (record current { result_status = some result })

-- `DELETE /api/projects/:project/apple-jobs/:job`
unfoldable pub cancel : Job → Job
cancel job = if is_active job.status then record job { status = cancelling } else job

-- `reconcileAppleJobs`: a job without a job of the scheduler is given up.
unfoldable pub give_up : ℕ → Job → Job
give_up now original = record original {
  status = interrupted;
  finished_at = some now;
  error = true;
}

unfoldable pub stopped : ℕ → Job → Job
stopped now current = record current {
  status = cancelled;
  reconcile_error = false;
  finished_at = some now;
}

-- How a job ends with its allocation.
abbrev pub failed_with : Option Status → Status
failed_with (some timed_out) = timed_out
failed_with (some cancelled) = cancelled
failed_with _ = failed

abbrev pub ended : ClientStatus → Option Status → Status
ended is_complete (some result) = result
ended is_failed result = failed_with result
ended _ _ = interrupted

abbrev pub is_over : ClientStatus → Bool
is_over is_failed = true
is_over is_lost = true
is_over is_complete = true
is_over _ = false

abbrev pub observed_with : ℕ → Allocation → Job → Job
observed_with now a current =
    if not (is_runnable current.status)
    then current
    else if is_over a.client_status
    then record current {
      allocation_id = some a.id;
      status = ended a.client_status current.result_status;
      finished_at = some now;
      error = current.error || not (is_some current.result_status);
    }
    else if runs a.client_status
    then record current {
      allocation_id = some a.id;
      status = running;
      started_at = some (or_now current.started_at now);
    }
    else current

abbrev pub observed_first : ℕ → List Allocation → Job → Job
observed_first now [] current = current
observed_first now (a ∷ rest) current = observed_with now a current

-- The scheduler has answered with the allocations of the job.
unfoldable pub observe : ℕ → List Allocation → Job → Job
observe now allocations job =
    observed_first now allocations (record job { reconcile_error = false })

abbrev pub is_waiting : Error → Bool
is_waiting pending = true
is_waiting _ = false

-- The `catch` block: the job is kept until the scheduler has said what became of it.
unfoldable pub doubt : Error → Job → Job
doubt e current =
    if is_waiting e || not (is_active current.status)
    then current
    else record current { reconcile_error = true }
