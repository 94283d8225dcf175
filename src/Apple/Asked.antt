-- ===== src/Apple/Asked.antt =====
-- What the requests of a Mac and of users do to the status of an Apple job (apps/control-cloud/src/apple-jobs.ts).
use personal_cloud.Prelude.{
  ℕ, ◌≡◌, refl, Bool, true, false, Option, none, some, List, [], ◌∷◌, arith,
}
use personal_cloud.Prelude.Outcome.{Error}
use personal_cloud.Apple.{
  Status, queued, running, cancelling, succeeded, failed, cancelled, timed_out, interrupted, Job,
  Allocation, is_active, is_result, start, keep_artifact, report, cancel, observe, doubt,
}
use personal_cloud.Apple.System.{on_shown, on_finish}

-- The status can come later: a job that ended stays as it is, and one that is being cancelled can only end as
-- cancelled or given up.
abbrev pub may_reach : Status → Status → Bool
may_reach queued b = true
may_reach running queued = false
may_reach running b = true
may_reach cancelling cancelling = true
may_reach cancelling cancelled = true
may_reach cancelling interrupted = true
may_reach cancelling b = false
may_reach succeeded succeeded = true
may_reach failed failed = true
may_reach cancelled cancelled = true
may_reach timed_out timed_out = true
may_reach interrupted interrupted = true
may_reach a b = false

pub reach_refl : (a : Status) → may_reach a a ≡ true
reach_refl queued = refl
reach_refl running = refl
reach_refl cancelling = refl
reach_refl succeeded = refl
reach_refl failed = refl
reach_refl cancelled = refl
reach_refl timed_out = refl
reach_refl interrupted = refl

pub reach_trans :
    (a b c : Status) → may_reach a b ≡ true → may_reach b c ≡ true → may_reach a c ≡ true
reach_trans a b c h k = ground arith

-- What a Mac has reported is one of the four results.
abbrev pub has_result : Option Status → Bool
has_result none = true
has_result (some r) = is_result r

-- What a request of a Mac or of a user does to the status.
abbrev pub Asks : Job → Job → Type 0
Asks j k =
    (may_reach j.status k.status ≡ true)
    × (is_active j.status ≡ true → is_active k.status ≡ true)
    × (has_result j.result_status ≡ true → has_result k.result_status ≡ true)

pub shown-Asks :
    (now : ℕ) (a : Allocation) (current : Job) (o : Option Job)
    → Asks current (on_shown now a current o)
unfolding start
shown-Asks now a current none = (reach_refl current.status, λ h. h, λ h. h)
shown-Asks now a current (some read) = ground (arith, reach_refl current.status)

pub uploaded-Asks :
    (key : ℕ) (current : Job) (o : Option Job)
    → Asks current (on_finish current o (keep_artifact key current))
unfolding keep_artifact
uploaded-Asks key current none = (reach_refl current.status, λ h. h, λ h. h)
uploaded-Asks key current (some read) = ground (arith, reach_refl current.status)

pub reported-Asks :
    (result : Status) (current : Job) (o : Option Job)
    → Asks current (on_finish current o (report result current))
unfolding report
reported-Asks result current none = (reach_refl current.status, λ h. h, λ h. h)
reported-Asks result current (some read) = ground (arith, reach_refl current.status)

pub cancel-Asks : (current : Job) → Asks current (cancel current)
unfolding cancel
cancel-Asks current = ground (arith, reach_refl current.status)

pub doubt-same :
    (e : Error) (current : Job)
    → ((doubt e current).status ≡ current.status)
      × ((doubt e current).result_status ≡ current.result_status)
unfolding doubt
doubt-same e current = ground arith

pub observe-reach :
    (now : ℕ) (l : List Allocation) (current : Job)
    → has_result current.result_status ≡ true
    → (may_reach current.status (observe now l current).status ≡ true)
      × (has_result (observe now l current).result_status ≡ true)
unfolding observe
observe-reach now [] current h = (reach_refl current.status, h)
observe-reach now (a ∷ l) current h = ground (arith, reach_refl current.status)
