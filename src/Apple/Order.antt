-- ===== src/Apple/Order.antt =====
-- The order in which an Apple job's status changes (apps/control-cloud/src/apple-jobs.ts and
-- apple-nomad.ts).
use personal_cloud.Prelude.{
  ℕ, ◌≡◌, inl, inr, refl, Bool, true, false, Option, none, List, [], ◌∷◌, is_some, arith,
  Bool-cases,
}
use personal_cloud.Prelude.Outcome.{Result, ok, err, Error}
use personal_cloud.Apple.{
  Status, cancelled, interrupted, Job, Allocation, is_active, keep_artifact, report, cancel,
  give_up, stopped, observe, doubt,
}
use personal_cloud.Apple.System.{
  World, Event, Alarm, idle, listed, stopping, ensuring, asking, ask_start, shown, ask_finish,
  uploaded, reported, cancel_job, list_jobs, reach, scheduler_stopped, scheduler_ensured,
  scheduler_showed, step, run, on_shown, on_finish, on_list, on_reach, on_stopped, on_ensured,
  on_showed, route_of,
}
use personal_cloud.Apple.Asked.{
  may_reach, reach_refl, reach_trans, has_result, Asks, shown-Asks, uploaded-Asks, reported-Asks,
  cancel-Asks, doubt-same, observe-reach,
}

abbrev pub is_due : Alarm → Bool
is_due idle = false
is_due _ = true

abbrev pub listed_result : Alarm → Option Status
listed_result (listed j) = j.result_status
listed_result _ = none

-- While the alarm is with the job, the job is active: only the alarm ends it.
abbrev pub IsOwned : World → Type 0
IsOwned w =
    (is_due w.alarm ≡ true → is_active w.job.status ≡ true)
    × (has_result w.job.result_status ≡ true)
    × (has_result (listed_result w.alarm) ≡ true)

abbrev pub Follows : World → World → Type 0
Follows w v = (may_reach w.job.status v.job.status ≡ true) × IsOwned v

asked-Follows :
    (w : World) (job : Job) → IsOwned w → Asks w.job job → Follows w (record w { job = job })
asked-Follows w job (h, known, read) (k, active, keeps) =
    (k, (λ due. active (h due), keeps known, read))

list-Follows : (w : World) (a : Alarm) → w.alarm ≡ a → IsOwned w → Follows w (on_list a w)
list-Follows w a e h = ground (arith, e, h, reach_refl w.job.status)

-- The alarm has left the job, which may have changed.
left-Follows :
    (w : World) (job : Job)
    → may_reach w.job.status job.status ≡ true
    → has_result job.result_status ≡ true
    → Follows w (record w { job = job; alarm = idle })
left-Follows w job k known = (k, (λ due. absurd (cc), known, refl))

doubted-Follows :
    (w : World) (e : Error) → IsOwned w → Follows w (record w { job = doubt e w.job; alarm = idle })
doubted-Follows w e (h, known, read) =
    let (same, kept) = doubt-same e w.job in
    left-Follows w (doubt e w.job) (rw same (reach_refl w.job.status)) (rw kept known)

-- The alarm goes on with an active job.
went-Follows :
    (w : World) (a : Alarm)
    → is_active w.job.status ≡ true
    → has_result w.job.result_status ≡ true
    → listed_result a ≡ none
    → Follows w (record w { alarm = a })
went-Follows w a active known no_job =
    (reach_refl w.job.status, (λ due. active, known, rw no_job refl))

same-Follows : (w : World) → IsOwned w → Follows w w
same-Follows w h = (reach_refl w.job.status, h)

active-interrupted : (a : Status) → is_active a ≡ true → may_reach a interrupted ≡ true
active-interrupted a h = ground arith

active-cancelled : (a : Status) → is_active a ≡ true → may_reach a cancelled ≡ true
active-cancelled a h = ground arith

route-unlisted : (s : Status) → listed_result (route_of s) ≡ none
route-unlisted s = ground arith

reach-Follows :
    (now : ℕ) (w : World) (a : Alarm) → w.alarm ≡ a → IsOwned w → Follows w (on_reach now a w)
unfolding give_up
reach-Follows now w (listed original) e (h, known, read) =
    let active = h (rw e refl) in
    elim (Bool-cases (is_some original.nomad_job_id)) [
      | inl scheduled ↦
          rw scheduled (
            went-Follows w (route_of original.status) active known (route-unlisted original.status))
      | inr legacy ↦ rw legacy (
          left-Follows w (give_up now original) (active-interrupted w.job.status active)
            (rw e at read))
    ]
reach-Follows now w idle e h = same-Follows w h
reach-Follows now w stopping e h = same-Follows w h
reach-Follows now w ensuring e h = same-Follows w h
reach-Follows now w asking e h = same-Follows w h

stopped-Follows :
    (now : ℕ) (w : World) (r : Result (Unit {0})) (a : Alarm)
    → w.alarm ≡ a
    → IsOwned w
    → Follows w (on_stopped now a r w)
unfolding stopped
stopped-Follows now w (ok done) stopping e (h, known, read) =
    left-Follows w (stopped now w.job) (active-cancelled w.job.status (h (rw e refl))) known
stopped-Follows now w (err x) stopping e h = doubted-Follows w x h
stopped-Follows now w r idle e h = same-Follows w h
stopped-Follows now w r (listed j) e h = same-Follows w h
stopped-Follows now w r ensuring e h = same-Follows w h
stopped-Follows now w r asking e h = same-Follows w h

ensured-Follows :
    (w : World) (r : Result (Unit {0})) (a : Alarm)
    → w.alarm ≡ a
    → IsOwned w
    → Follows w (on_ensured a r w)
ensured-Follows w (ok done) ensuring e (h, known, read) =
    went-Follows w asking (h (rw e refl)) known refl
ensured-Follows w (err x) ensuring e h = doubted-Follows w x h
ensured-Follows w r idle e h = same-Follows w h
ensured-Follows w r (listed j) e h = same-Follows w h
ensured-Follows w r stopping e h = same-Follows w h
ensured-Follows w r asking e h = same-Follows w h

showed-Follows :
    (now : ℕ) (w : World) (r : Result (List Allocation)) (a : Alarm)
    → w.alarm ≡ a
    → IsOwned w
    → Follows w (on_showed now a r w)
showed-Follows now w (ok l) asking e (h, known, read) =
    let (k, still) = observe-reach now l w.job known in left-Follows w (observe now l w.job) k still
showed-Follows now w (err x) asking e h = doubted-Follows w x h
showed-Follows now w r idle e h = same-Follows w h
showed-Follows now w r (listed j) e h = same-Follows w h
showed-Follows now w r stopping e h = same-Follows w h
showed-Follows now w r ensuring e h = same-Follows w h

pub step-Follows : (w : World) (e : Event) → IsOwned w → Follows w (step w e)
unfolding step
step-Follows w (ask_start op attempt) h = (reach_refl w.job.status, h)
step-Follows w (shown op now a) h =
    asked-Follows w (on_shown now a w.job (w.starting op)) h
      (shown-Asks now a w.job (w.starting op))
step-Follows w (ask_finish op attempt) h = (reach_refl w.job.status, h)
step-Follows w (uploaded op key) h =
    asked-Follows w (on_finish w.job (w.finishing op) (keep_artifact key w.job)) h
      (uploaded-Asks key w.job (w.finishing op))
step-Follows w (reported op result) h =
    asked-Follows w (on_finish w.job (w.finishing op) (report result w.job)) h
      (reported-Asks result w.job (w.finishing op))
step-Follows w cancel_job h = asked-Follows w (cancel w.job) h (cancel-Asks w.job)
step-Follows w list_jobs h = list-Follows w w.alarm refl h
step-Follows w (reach now) h = reach-Follows now w w.alarm refl h
step-Follows w (scheduler_stopped now r) h = stopped-Follows now w r w.alarm refl h
step-Follows w (scheduler_ensured r) h = ensured-Follows w r w.alarm refl h
step-Follows w (scheduler_showed now r) h = showed-Follows now w r w.alarm refl h

-- Whatever a job's Mac, users, the alarm and the scheduler do and in whatever order, the job's status only
-- moves on: it never leaves a final status, and once it is being cancelled it ends as cancelled or as given
-- up at most.
pub run-Follows : (w : World) (es : List Event) → IsOwned w → Follows w (run w es)
unfolding run
run-Follows w [] h = (reach_refl w.job.status, h)
run-Follows w (e ∷ es) h =
    let (now_, owned) = step-Follows w e h in
    let (later, still) = run-Follows (step w e) es owned in
    (
      reach_trans w.job.status (step w e).job.status (run (step w e) es).job.status now_ later,
      still,
    )
