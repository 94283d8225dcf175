-- ===== src/Runtime/Readiness/Pairs.antt =====
-- Pairs of a target and a machine that builds for it (apps/control-cloud/src/readiness.ts).
use personal_cloud.Prelude.{
  ◌≡◌, inl, inr, refl, subst, true, Option, none, some, List, [], ◌∷◌, arith, find, find-test,
  filter, is_some, Option-cases, IsIn, find-IsIn, find-some, filter-IsIn, IsIn-filter,
}
use personal_cloud.Runtime.Placement.{
  Node, Place, Wanted, is_candidate, builds_for, first_pair, selection_of, deployment_targets,
}
use personal_cloud.Runtime.Readiness.{pair_blockers}

-- A pair of nodes of the inventory that an application can be built and run on.
pub record HasPair (place : Place) (wanted : Wanted) (inventory : List Node) : Type 0 where
  pub target : Node
  pub helper : Node
  pub target_in : IsIn target inventory
  pub helper_in : IsIn helper inventory
  pub is_fit : is_candidate place wanted target ≡ true
  pub is_helpful : builds_for target helper ≡ true

-- The end of the search: the blockers are none exactly where a pair is found.
pub first_pair-HasPair :
    (place : Place) (wanted : Wanted) (inventory ts : List Node) (t : Node) (b : Option Node)
    → ((n : Node) → IsIn n ts → IsIn n inventory × (is_candidate place wanted n ≡ true))
    → first_pair inventory true ts ≡ some (t, b)
    → HasPair place wanted inventory
unfolding first_pair
first_pair-HasPair place wanted inventory [] t b h e = absurd (cc)
first_pair-HasPair place wanted inventory (x ∷ ts) t b h e =
    elim (Option-cases (find (builds_for x) inventory)) [
      | inl missing ↦
          first_pair-HasPair place wanted inventory ts t b (λ n m. h n (inr m)) (rw missing at e)
      | inr (n, there) ↦ record {
        target = x;
        helper = n;
        target_in = (h x (inl refl)).0;
        helper_in = find-IsIn (builds_for x) inventory n there;
        is_fit = (h x (inl refl)).1;
        is_helpful = find-test (builds_for x) inventory n there;
      }
    ]

no_helper : {b : Option Node} → b ≡ none → is_some b ≡ true → ⊥
no_helper e h = ground arith

pub HasPair-first_pair :
    (inventory ts : List Node) (t helper : Node)
    → IsIn t ts
    → IsIn helper inventory
    → builds_for t helper ≡ true
    → (u : Node) × ((b : Node) × (first_pair inventory true ts ≡ some (u, some b)))
unfolding first_pair
HasPair-first_pair inventory [] t helper m k h = absurd m
HasPair-first_pair inventory (x ∷ ts) t helper (inl e) k h =
    elim (Option-cases (find (builds_for x) inventory)) [
      | inl missing ↦ absurd (
          no_helper missing (
            find-some (builds_for x) inventory helper k
              (subst (λ n. builds_for n helper ≡ true) e h)))
      | inr (n, there) ↦ (x, (n, rw there refl))
    ]
HasPair-first_pair inventory (x ∷ ts) t helper (inr m) k h =
    elim (Option-cases (find (builds_for x) inventory)) [
      | inl missing ↦ rw missing (HasPair-first_pair inventory ts t helper m k h)
      | inr (n, there) ↦ (x, (n, rw there refl))
    ]

pair_blockers-some :
    (candidates : List Node) (o : Option (Node × Option Node))
    → pair_blockers (selection_of candidates o) ≡ []
    → (t : Node) × ((b : Node) × (o ≡ some (t, some b)))
pair_blockers-some candidates (some (t, some b)) e = (t, (b, refl))
pair_blockers-some candidates (some (t, none)) e = absurd (cc)
pair_blockers-some [] none e = absurd (cc)
pair_blockers-some (c ∷ cs) none e = absurd (cc)

-- No blocker is left exactly where there is a pair.
pub pair_blockers-HasPair :
    (place : Place) (wanted : Wanted) (inventory : List Node)
    → pair_blockers (deployment_targets inventory place wanted true) ≡ []
    → HasPair place wanted inventory
unfolding deployment_targets
pair_blockers-HasPair place wanted inventory e =
    let candidates = filter (is_candidate place wanted) inventory in
    let (t, (b, found)) = pair_blockers-some candidates (first_pair inventory true candidates) e in
    first_pair-HasPair place wanted inventory candidates t (some b)
      (filter-IsIn (is_candidate place wanted) inventory) found

pub HasPair-pair_blockers :
    (place : Place) (wanted : Wanted) (inventory : List Node)
    → HasPair place wanted inventory
    → pair_blockers (deployment_targets inventory place wanted true) ≡ []
unfolding deployment_targets
HasPair-pair_blockers place wanted inventory h =
    let candidates = filter (is_candidate place wanted) inventory in
    let (t, (b, found)) =
      HasPair-first_pair inventory candidates h.target h.helper
        (IsIn-filter (is_candidate place wanted) inventory h.target h.target_in h.is_fit)
        h.helper_in h.is_helpful in
    rw found refl
