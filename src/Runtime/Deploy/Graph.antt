-- ===== src/Runtime/Deploy/Graph.antt =====
-- The order of the phases that `reconcileDeployment` (apps/control-cloud/src/runtime/deploy.ts) takes a
-- deployment through, and the rule for statements in sequence.
use personal_cloud.Prelude.{◌≡◌, Bool, true, false, ◌||◌, arith}
use personal_cloud.Prelude.Outcome.{Result, ok, err}
use personal_cloud.Runtime.Deploy.State.{
  Phase, prepare, build_submit, app_prepare, app_submit, observing, routing, cleanup,
  failure_cleanup, done, Run, M, after, ◌>>=◌,
}
use personal_cloud.Runtime.Deploy.Release.{}
use personal_cloud.Runtime.Deploy.Reconcile.{}

abbrev pub same_phase : Phase → Phase → Bool
same_phase prepare prepare = true
same_phase build_submit build_submit = true
same_phase Phase.building Phase.building = true
same_phase app_prepare app_prepare = true
same_phase app_submit app_submit = true
same_phase observing observing = true
same_phase routing routing = true
same_phase cleanup cleanup = true
same_phase failure_cleanup failure_cleanup = true
same_phase done done = true
same_phase _ _ = false

-- The successors of a phase.
abbrev pub next_phase : Phase → Phase → Bool
next_phase prepare build_submit = true
next_phase prepare app_prepare = true
next_phase build_submit Phase.building = true
next_phase Phase.building app_prepare = true
next_phase app_prepare app_submit = true
next_phase app_submit observing = true
next_phase observing routing = true
next_phase routing cleanup = true
next_phase cleanup done = true
next_phase failure_cleanup done = true
next_phase failure_cleanup cleanup = true
next_phase prepare failure_cleanup = true
next_phase build_submit failure_cleanup = true
next_phase Phase.building failure_cleanup = true
next_phase app_prepare failure_cleanup = true
next_phase app_submit failure_cleanup = true
next_phase observing failure_cleanup = true
next_phase routing failure_cleanup = true
next_phase _ _ = false

abbrev pub may_follow : Phase → Phase → Bool
may_follow a b = same_phase a b || next_phase a b

abbrev pub enters_routing : Phase → Phase → Bool
enters_routing observing routing = true
enters_routing _ _ = false

-- What a phase does to the phase: where it throws, it stays, or an observation has begun to route.
abbrev pub Moves : Phase → Result (Unit {0}) × Run → Type 0
Moves a (ok _, r) = may_follow a r.doc.phase ≡ true
Moves a (err e, r) = (same_phase a r.doc.phase || enters_routing a r.doc.phase) ≡ true

abbrev pub Stays : {A : Type 0} → Phase → Result A × Run → Type 0
Stays a (answer, r) = r.doc.phase ≡ a

pub after-Moves :
    {A : Type 0} (a : Phase) (x : Result A × Run) (f : A → M (Unit {0}))
    → Stays a x
    → ((v : A) → Moves a (f v x.1))
    → Moves a (after x f)
after-Moves a (err e, r) f h k = ground arith
after-Moves a (ok v, r) f h k = k v

pub >>=-Moves :
    {A : Type 0} (a : Phase) (m : M A) (f : A → M (Unit {0})) (r : Run)
    → Stays a (m r)
    → ((v : A) (s : Run) → s.doc.phase ≡ a → Moves a (f v s))
    → Moves a ((m >>= f) r)
unfolding ◌>>=◌
>>=-Moves a m f r h k = after-Moves a (m r) f h λ v. k v (m r).1 h
