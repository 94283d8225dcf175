-- ===== src/Apple/Honest.antt =====
-- What a Mac reports and how its job ends (apps/control-cloud/src/apple-jobs.ts and apple-nomad.ts).
use personal_cloud.Prelude.{
  ℕ, ◌≡◌, refl, ap, ◌∙◌, Bool, true, false, Option, some, List, [], ◌∷◌, arith,
}
use personal_cloud.Prelude.Outcome.{Result, ok, err, Error}
use personal_cloud.Apple.{
  Status, succeeded, failed, timed_out, Job, Allocation, start, keep_artifact, report, cancel,
  give_up, stopped, observe, doubt,
}
use personal_cloud.Apple.System.{
  World, Event, Alarm, idle, listed, stopping, ensuring, asking, ask_start, shown, ask_finish,
  uploaded, reported, cancel_job, list_jobs, reach, scheduler_stopped, scheduler_ensured,
  scheduler_showed, step, run, on_shown, on_finish, on_list, on_reach, on_stopped, on_ensured,
  on_showed,
}

abbrev pub is_same : Status → Option Status → Bool
is_same succeeded (some succeeded) = true
is_same timed_out (some timed_out) = true
is_same a b = false

-- A job that succeeded or ran out of time has a Mac that says so.
abbrev pub agrees : Status → Option Status → Bool
agrees succeeded result = is_same succeeded result
agrees timed_out result = is_same timed_out result
agrees a result = true

abbrev pub is_honest : Job → Bool
is_honest j = agrees j.status j.result_status

shown-is_honest :
    (now : ℕ) (a : Allocation) (j : Job) (o : Option Job)
    → is_honest j ≡ true
    → is_honest (on_shown now a j o) ≡ true
unfolding start
shown-is_honest now a j o h = ground (arith, h)

finished-is_honest :
    (key : ℕ) (result : Status) (j : Job) (o : Option Job)
    → is_honest j ≡ true
    → (is_honest (on_finish j o (keep_artifact key j)) ≡ true)
      × (is_honest (on_finish j o (report result j)) ≡ true)
unfolding keep_artifact report
finished-is_honest key result j o h = ground (arith, h)

cancel-is_honest : (j : Job) → is_honest j ≡ true → is_honest (cancel j) ≡ true
unfolding cancel
cancel-is_honest j h = ground (arith, h)

doubt-is_honest : (e : Error) (j : Job) → is_honest j ≡ true → is_honest (doubt e j) ≡ true
unfolding doubt
doubt-is_honest e j h = ground (arith, h)

observe-is_honest :
    (now : ℕ) (l : List Allocation) (j : Job)
    → is_honest j ≡ true
    → is_honest (observe now l j) ≡ true
unfolding observe
observe-is_honest now [] j h = h
observe-is_honest now (a ∷ l) j h = ground (arith, h)

-- What the alarm does with the job, whatever the scheduler answers.
list-honest : (w : World) (a : Alarm) → (on_list a w).job ≡ w.job
list-honest w a = ground arith

reach-honest :
    (now : ℕ) (w : World) (a : Alarm)
    → is_honest w.job ≡ true
    → is_honest (on_reach now a w).job ≡ true
unfolding give_up
reach-honest now w a h = ground (arith, h)

stopped-honest :
    (now : ℕ) (w : World) (a : Alarm) (r : Result (Unit {0}))
    → is_honest w.job ≡ true
    → is_honest (on_stopped now a r w).job ≡ true
unfolding stopped
stopped-honest now w stopping (ok done) h = refl
stopped-honest now w stopping (err e) h = doubt-is_honest e w.job h
stopped-honest now w idle r h = h
stopped-honest now w (listed j) r h = h
stopped-honest now w ensuring r h = h
stopped-honest now w asking r h = h

ensured-honest :
    (w : World) (a : Alarm) (r : Result (Unit {0}))
    → is_honest w.job ≡ true
    → is_honest (on_ensured a r w).job ≡ true
ensured-honest w ensuring (ok done) h = h
ensured-honest w ensuring (err e) h = doubt-is_honest e w.job h
ensured-honest w idle r h = h
ensured-honest w (listed j) r h = h
ensured-honest w stopping r h = h
ensured-honest w asking r h = h

showed-honest :
    (now : ℕ) (w : World) (a : Alarm) (r : Result (List Allocation))
    → is_honest w.job ≡ true
    → is_honest (on_showed now a r w).job ≡ true
showed-honest now w asking (ok l) h = observe-is_honest now l w.job h
showed-honest now w asking (err e) h = doubt-is_honest e w.job h
showed-honest now w idle r h = h
showed-honest now w (listed j) r h = h
showed-honest now w stopping r h = h
showed-honest now w ensuring r h = h

step-honest : (w : World) (e : Event) → is_honest w.job ≡ true → is_honest (step w e).job ≡ true
unfolding step
step-honest w (ask_start op attempt) h = h
step-honest w (shown op now a) h = shown-is_honest now a w.job (w.starting op) h
step-honest w (ask_finish op attempt) h = h
step-honest w (uploaded op key) h = (finished-is_honest key failed w.job (w.finishing op) h).0
step-honest w (reported op result) h = (finished-is_honest 0 result w.job (w.finishing op) h).1
step-honest w cancel_job h = cancel-is_honest w.job h
step-honest w list_jobs h = ap is_honest (list-honest w w.alarm) ∙ h
step-honest w (reach now) h = reach-honest now w w.alarm h
step-honest w (scheduler_stopped now r) h = stopped-honest now w w.alarm r h
step-honest w (scheduler_ensured r) h = ensured-honest w w.alarm r h
step-honest w (scheduler_showed now r) h = showed-honest now w w.alarm r h

-- A job whose Mac has reported success or a timeout if the job has ended so keeps that, whatever its Mac,
-- users and the scheduler do and in whatever order. So a job that starts queued succeeds only when
-- its Mac has said so.
pub run-is_honest :
    (w : World) (es : List Event) → is_honest w.job ≡ true → is_honest (run w es).job ≡ true
unfolding run
run-is_honest w [] h = h
run-is_honest w (e ∷ es) h = run-is_honest (step w e) es (step-honest w e h)
