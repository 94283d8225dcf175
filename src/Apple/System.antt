-- ===== src/Apple/System.antt =====
-- An Apple job over time: requests of its Mac, of users, and the alarm, between their awaits
-- (apps/control-cloud/src/apple-jobs.ts and apple-nomad.ts). There is one alarm at a time; it goes through a
-- list of jobs that it has read first.
use personal_cloud.Prelude.{
  ℕ, Option, none, some, List, [], ◌∷◌, is_some, Map, update, if◌then◌else◌,
}
use personal_cloud.Prelude.Outcome.{Result, ok, err}
use personal_cloud.Apple.{
  Status, queued, cancelling, Job, Allocation, is_active, may_start, start, may_finish,
  keep_artifact, report, cancel, give_up, stopped, observe, doubt,
}

-- Where the alarm is with this job.
pub data Alarm : Type 0 where
  idle : Alarm
  listed : Job → Alarm
  stopping ensuring asking : Alarm

pub record World : Type 0 where
  pub job : Job
  -- the job as requests that start it or end it have read it
  pub starting : Map Job
  pub finishing : Map Job
  pub alarm : Alarm

pub data Event : Type 0 where
  ask_start : (op attempt : ℕ) → Event
  shown : (op now : ℕ) → Allocation → Event
  ask_finish : (op attempt : ℕ) → Event
  uploaded : (op key : ℕ) → Event
  reported : (op : ℕ) → Status → Event
  cancel_job : Event
  list_jobs : Event
  reach : (now : ℕ) → Event
  scheduler_stopped : (now : ℕ) → Result (Unit {0}) → Event
  scheduler_ensured : Result (Unit {0}) → Event
  scheduler_showed : (now : ℕ) → Result (List Allocation) → Event

abbrev pub read_if : Result (Unit {0}) → Job → Option Job
read_if (err problem) job = none
read_if (ok done) job = some job

-- A handler that fails writes nothing.
abbrev pub after : Job → Result Job → Job
after job (err problem) = job
after job (ok next) = next

abbrev pub on_shown : ℕ → Allocation → Job → Option Job → Job
on_shown now a current none = current
on_shown now a current (some read) = after current (start now read a current)

abbrev pub on_finish : Job → Option Job → Result Job → Job
on_finish current none next = current
on_finish current (some read) next = after current next

-- The alarm reaches the job.
abbrev pub route_of : Status → Alarm
route_of cancelling = stopping
route_of queued = ensuring
route_of _ = asking

abbrev pub reached : ℕ → Job → World → World
reached now original w =
    if is_some original.nomad_job_id
    then record w { alarm = route_of original.status }
    else record w { job = give_up now original; alarm = idle }

abbrev pub on_reach : ℕ → Alarm → World → World
on_reach now (listed original) w = reached now original w
on_reach now _ w = w

abbrev pub on_stopped : ℕ → Alarm → Result (Unit {0}) → World → World
on_stopped now stopping (ok done) w = record w { job = stopped now w.job; alarm = idle }
on_stopped now stopping (err e) w = record w { job = doubt e w.job; alarm = idle }
on_stopped now _ answer w = w

abbrev pub on_ensured : Alarm → Result (Unit {0}) → World → World
on_ensured ensuring (ok done) w = record w { alarm = asking }
on_ensured ensuring (err e) w = record w { job = doubt e w.job; alarm = idle }
on_ensured _ answer w = w

abbrev pub on_showed : ℕ → Alarm → Result (List Allocation) → World → World
on_showed now asking (ok l) w = record w { job = observe now l w.job; alarm = idle }
on_showed now asking (err e) w = record w { job = doubt e w.job; alarm = idle }
on_showed now _ answer w = w

abbrev pub on_list : Alarm → World → World
on_list idle w = if is_active w.job.status then record w { alarm = listed w.job } else w
on_list _ w = w

unfoldable pub step : World → Event → World
step w (ask_start op attempt) = record w {
  starting = update w.starting op (read_if (may_start attempt w.job) w.job);
}
step w (shown op now a) = record w { job = on_shown now a w.job (w.starting op) }
step w (ask_finish op attempt) = record w {
  finishing = update w.finishing op (read_if (may_finish attempt w.job) w.job);
}
step w (uploaded op key) = record w {
  job = on_finish w.job (w.finishing op) (keep_artifact key w.job);
}
step w (reported op result) = record w {
  job = on_finish w.job (w.finishing op) (report result w.job);
}
step w cancel_job = record w { job = cancel w.job }
step w list_jobs = on_list w.alarm w
step w (reach now) = on_reach now w.alarm w
step w (scheduler_stopped now answer) = on_stopped now w.alarm answer w
step w (scheduler_ensured answer) = on_ensured w.alarm answer w
step w (scheduler_showed now answer) = on_showed now w.alarm answer w

unfoldable pub run : World → List Event → World
run w [] = w
run w (e ∷ es) = run (step w e) es
