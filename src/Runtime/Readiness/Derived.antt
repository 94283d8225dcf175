-- ===== src/Runtime/Readiness/Derived.antt =====
-- When `deriveReadiness` (apps/control-cloud/src/readiness.ts) calls a workspace ready.
use personal_cloud.Prelude.{
  ℕ, ◌+◌, ◌≤◌, ◌<◌, ◌≡◌, ◌↔◌, inl, inr, refl, subst, Bool, true, false, ◌&&◌, Option, none, some,
  List, [], ◌∷◌, arith, filter, is_some, Bool-cases, if◌then◌else◌, IsIn, filter-IsIn, IsIn-filter,
}
use personal_cloud.Runtime.Placement.{Node, automatic, any_architecture, is_candidate, builds_for}
use personal_cloud.Runtime.Readiness.{
  Url, Machine, Observation, connected_to, same_url, connected, coordinator_of, is_connected,
  is_fresh, has_status, is_verified, is_backed, inventory_of, runtime_blockers, overall, all_ready,
  derive_readiness, Capability, Blocker, runtime_unreachable, runtime_checking,
}
use personal_cloud.Runtime.Readiness.Pairs.{HasPair, pair_blockers-HasPair, HasPair-pair_blockers}

-- The coordinator is in contact, it answered less than half a minute ago, and among the nodes of its answer
-- that belong to machines in contact there are one to run on and one to build for it.
pub record IsDeployable (machines : List Machine) (runtime : Option Url) (o : Option Observation)
    (at : ℕ) : Type 0 where
  pub coordinator : Machine
  pub is_coordinator : coordinator_of machines runtime ≡ some coordinator
  pub in_contact : connected coordinator at ≡ true
  pub seen : Observation
  pub is_seen : o ≡ some seen
  pub its_runtime : same_url seen.runtime runtime ≡ true
  pub not_later : seen.checked_at ≤ at
  pub recent : at < seen.checked_at + 30000
  pub answered : has_status connected_to (some seen) ≡ true
  pub target : Node
  pub helper : Node
  pub target_in : IsIn target seen.nodes
  pub helper_in : IsIn helper seen.nodes
  pub target_backed : is_backed machines at target ≡ true
  pub helper_backed : is_backed machines at helper ≡ true
  pub is_fit : is_candidate automatic any_architecture target ≡ true
  pub is_helpful : builds_for target helper ≡ true

overall_iff : (l : List Blocker) → (overall l ≡ all_ready) ↔ (l ≡ [])
overall_iff [] = (λ e. refl, λ e. refl)
overall_iff (b ∷ bs) = (λ e. absurd (ground arith), λ e. absurd (cc))

no_coordinator : (machines : List Machine) (m : Machine) → coordinator_of machines none ≡ some m → ⊥
no_coordinator machines m e = cc

unverified :
    (unreached : Bool)
    → (if unreached then runtime_unreachable ∷ [] else runtime_checking ∷ []) ≡ []
    → ⊥
unverified unreached e = ground arith

connected_of :
    (c : Option Machine) (m : Machine) (at : ℕ)
    → c ≡ some m
    → connected m at ≡ true
    → is_connected c at ≡ true
connected_of c m at e h = rw e h

connected_inv :
    (c : Option Machine) (at : ℕ)
    → is_connected c at ≡ true
    → (m : Machine) × ((c ≡ some m) × (connected m at ≡ true))
connected_inv none at h = absurd (cc)
connected_inv (some m) at h = (m, (refl, h))

fresh_of :
    (runtime : Option Url) (o : Option Observation) (seen : Observation) (at : ℕ)
    → o ≡ some seen
    → same_url seen.runtime runtime ≡ true
    → seen.checked_at ≤ at
    → at < seen.checked_at + 30000
    → has_status connected_to (some seen) ≡ true
    → (is_fresh runtime o at && has_status connected_to o) ≡ true
fresh_of runtime o seen at e u l r c = rw e (ground arith)

record IsSeen (runtime : Option Url) (o : Option Observation) (at : ℕ) : Type 0 where
  seen : Observation
  is_seen : o ≡ some seen
  its_runtime : same_url seen.runtime runtime ≡ true
  not_later : seen.checked_at ≤ at
  recent : at < seen.checked_at + 30000
  answered : has_status connected_to (some seen) ≡ true

fresh_inv :
    (runtime : Option Url) (o : Option Observation) (at : ℕ)
    → (is_fresh runtime o at && has_status connected_to o) ≡ true
    → IsSeen runtime o at
fresh_inv runtime none at h = absurd (cc)
fresh_inv runtime (some seen) at h = record {
  seen = seen;
  is_seen = refl;
  its_runtime = ground arith;
  not_later = ground arith;
  recent = ground arith;
  answered = ground arith;
}

and_inv : (a b : Bool) → (a && b) ≡ true → (a ≡ true) × (b ≡ true)
and_inv a b h = ground arith

and_intro : (a b : Bool) → a ≡ true → b ≡ true → (a && b) ≡ true
and_intro a b h k = ground arith

coordinator-some :
    (machines : List Machine) (runtime : Option Url) (m : Machine)
    → coordinator_of machines runtime ≡ some m
    → is_some runtime ≡ true
coordinator-some machines none m e = absurd (cc)
coordinator-some machines (some url) m e = refl

module _ (machines : List Machine) (runtime : Option Url) (o : Option Observation) (at : ℕ) where
  IsDeployable-verified :
      IsDeployable machines runtime o at → is_verified machines runtime o at ≡ true
  unfolding is_verified
  IsDeployable-verified h =
      and_intro _ _ (coordinator-some machines runtime h.coordinator h.is_coordinator) (
        and_intro _ _
          (connected_of (coordinator_of machines runtime) h.coordinator at h.is_coordinator
            h.in_contact)
          (fresh_of runtime o h.seen at h.is_seen h.its_runtime h.not_later h.recent h.answered))

  IsDeployable-HasPair :
      IsDeployable machines runtime o at
      → HasPair automatic any_architecture (inventory_of machines runtime o at)
  unfolding inventory_of
  IsDeployable-HasPair h =
      rw (IsDeployable-verified h, h.is_seen)
        record {
          target = h.target;
          helper = h.helper;
          target_in =
              IsIn-filter (is_backed machines at) h.seen.nodes h.target h.target_in h.target_backed;
          helper_in =
              IsIn-filter (is_backed machines at) h.seen.nodes h.helper h.helper_in h.helper_backed;
          is_fit = h.is_fit;
          is_helpful = h.is_helpful;
        }

  inventory-seen :
      (seen : Observation)
      → is_verified machines runtime o at ≡ true
      → o ≡ some seen
      → inventory_of machines runtime o at ≡ filter (is_backed machines at) seen.nodes
  unfolding inventory_of
  inventory-seen seen v e = rw (v, e) refl

  verified_pair :
      is_verified machines runtime o at ≡ true
      → HasPair automatic any_architecture (inventory_of machines runtime o at)
      → IsDeployable machines runtime o at
  unfolding is_verified
  verified_pair v h =
      let (one, rest) = and_inv _ _ v in
      let (two, three) = and_inv _ _ rest in
      let (m, (found, contact)) = connected_inv (coordinator_of machines runtime) at two in
      let s = fresh_inv runtime o at three in
      let same = inventory-seen s.seen v s.is_seen in
      let (target_in, target_backed) =
        filter-IsIn (is_backed machines at) s.seen.nodes h.target
          (subst (IsIn h.target) same h.target_in) in
      let (helper_in, helper_backed) =
        filter-IsIn (is_backed machines at) s.seen.nodes h.helper
          (subst (IsIn h.helper) same h.helper_in) in
      record {
        coordinator = m;
        is_coordinator = found;
        in_contact = contact;
        seen = s.seen;
        is_seen = s.is_seen;
        its_runtime = s.its_runtime;
        not_later = s.not_later;
        recent = s.recent;
        answered = s.answered;
        target = h.target;
        helper = h.helper;
        target_in = target_in;
        helper_in = helper_in;
        target_backed = target_backed;
        helper_backed = helper_backed;
        is_fit = h.is_fit;
        is_helpful = h.is_helpful;
      }

runtime_blockers_iff :
    (machines : List Machine) (runtime : Option Url) (o : Option Observation) (at : ℕ)
    (unreached : Bool) (cs : List Capability)
    → (runtime_blockers machines runtime
          (is_verified machines runtime o at)
          unreached
          (inventory_of machines runtime o at)
          cs
        ≡ [])
      ↔ IsDeployable machines runtime o at
unfolding runtime_blockers
runtime_blockers_iff machines none o at unreached cs = (
  λ e. absurd (ground arith),
  λ h. absurd (no_coordinator machines h.coordinator h.is_coordinator),
)
runtime_blockers_iff machines (some url) o at unreached cs = (
  λ e. elim (Bool-cases (is_verified machines (some url) o at)) [
    | inl v ↦ verified_pair machines (some url) o at v (
        pair_blockers-HasPair automatic any_architecture (inventory_of machines (some url) o at)
          (rw v at e))
    | inr v ↦ absurd (unverified unreached (rw v at e))
  ],
  λ h. rw (IsDeployable-verified machines (some url) o at h) (
      HasPair-pair_blockers automatic any_architecture (inventory_of machines (some url) o at)
        (IsDeployable-HasPair machines (some url) o at h)),
)

-- A workspace is ready exactly when GitHub is connected, the coordinator is in contact and answered less
-- than half a minute ago, and its answer has a node to run on and one of the same architecture to build on,
-- both ready and of machines that are in contact and report a scheduler.
pub derive_readiness_iff :
    (apple_node : Node → Bool) (machines : List Machine) (runtime : Option Url)
    (o : Option Observation) (github : Bool) (at : ℕ)
    → ((derive_readiness apple_node machines runtime o github at).status ≡ all_ready)
      ↔ ((github ≡ true) × IsDeployable machines runtime o at)
unfolding derive_readiness
derive_readiness_iff apple_node machines runtime o false at =
    (λ e. absurd (ground arith), λ h. absurd (cc))
derive_readiness_iff apple_node machines runtime o true at =
    let none_left = runtime_blockers_iff machines runtime o at _ _ in
    (λ e. (refl, none_left.0 ((overall_iff _).0 e)), λ h. (overall_iff _).1 (none_left.1 h.1))
