-- ===== src/Runtime/Placement/Targets.antt =====
-- What `deploymentTargets` finds, and when it finds nothing.
use personal_cloud.Prelude.{
  ◌≡◌, ◌↔◌, refl, subst, Bool, true, false, Option, none, some, List, [], ◌∷◌, arith, All, find,
  find-test, filter, Option-cases, inl, inr, Bool-cases,
}
use personal_cloud.Runtime.Placement.{
  Node, Place, Wanted, is_candidate, builds_for, first_pair, selection_of, deployment_targets,
}

-- A target is a candidate, and where a build is needed its builder fits it.
abbrev pub IsPair : Place → Wanted → Bool → Node → Option Node → Type 0
IsPair place wanted needs_build t none =
    (is_candidate place wanted t ≡ true) × (needs_build ≡ false)
IsPair place wanted needs_build t (some b) =
    (is_candidate place wanted t ≡ true) × (builds_for t b ≡ true)

filter-All : (p : Node → Bool) (xs : List Node) → All (λ n. p n ≡ true) (filter p xs)
filter-All p [] = tt
filter-All p (x ∷ xs) = ground (arith, filter-All p xs)

first_pair-IsPair :
    (place : Place) (wanted : Wanted) (needs : Bool) (inventory ts : List Node) (t : Node)
    (b : Option Node)
    → All (λ n. is_candidate place wanted n ≡ true) ts
    → first_pair inventory needs ts ≡ some (t, b)
    → IsPair place wanted needs t b
unfolding first_pair
first_pair-IsPair place wanted needs inventory [] t b h e = absurd (cc)
first_pair-IsPair place wanted needs inventory (x ∷ ts) t b h e =
    elim (Option-cases (find (builds_for x) inventory)) [
      | inl missing ↦ ground (arith, first_pair-IsPair place wanted needs inventory ts t b h.1)
      | inr (n, there) ↦ ground (arith, find-test (builds_for x) inventory n there)
    ]

selection_of-IsPair :
    (place : Place) (wanted : Wanted) (needs : Bool) (cs : List Node)
    (o : Option (Node × Option Node)) (t : Node)
    → ((t : Node) (b : Option Node) → o ≡ some (t, b) → IsPair place wanted needs t b)
    → (selection_of cs o).target ≡ some t
    → IsPair place wanted needs t (selection_of cs o).build_node
selection_of-IsPair place wanted needs cs (some (u, b)) t h e =
    subst (λ n. IsPair place wanted needs n b) (ground arith) (h u b refl)
selection_of-IsPair place wanted needs [] none t h e = absurd (cc)
selection_of-IsPair place wanted needs (c ∷ cs) none t h e = absurd (cc)

-- A machine that is chosen is ready for applications and fits the placement and the architecture;
-- where a build is needed, the builder chosen with it is ready and has the same architecture.
pub deployment_targets-IsPair :
    (inventory : List Node) (place : Place) (wanted : Wanted) (needs : Bool) (t : Node)
    → (deployment_targets inventory place wanted needs).target ≡ some t
    → IsPair place wanted needs t (deployment_targets inventory place wanted needs).build_node
unfolding deployment_targets
deployment_targets-IsPair inventory place wanted needs t e =
    selection_of-IsPair place wanted needs (filter (is_candidate place wanted) inventory) _ t
      (λ u b found.
        first_pair-IsPair place wanted needs inventory _ u b
          (filter-All (is_candidate place wanted) inventory) found)
      e

-- The machine cannot be used: it is no candidate, or a build is needed and no node builds for it.
abbrev pub IsUnusable : Place → Wanted → Bool → List Node → Node → Type 0
IsUnusable place wanted needs inventory t =
    is_candidate place wanted t ≡ true
    → (needs ≡ true) × All (λ b. builds_for t b ≡ false) inventory

find-none : (p : Node → Bool) (xs : List Node) → find p xs ≡ none → All (λ n. p n ≡ false) xs
find-none p [] e = tt
find-none p (x ∷ xs) e = ground (arith, find-none p xs)

first_pair-none :
    (place : Place) (wanted : Wanted) (needs : Bool) (inventory ts : List Node)
    → first_pair inventory needs (filter (is_candidate place wanted) ts) ≡ none
    → All (IsUnusable place wanted needs inventory) ts
unfolding first_pair
first_pair-none place wanted needs inventory [] e = tt
first_pair-none place wanted needs inventory (t ∷ ts) e =
    ground
      (arith, find-none (builds_for t) inventory, first_pair-none place wanted needs inventory ts)

selection_of-none :
    (cs : List Node) (o : Option (Node × Option Node))
    → (selection_of cs o).target ≡ none
    → o ≡ none
selection_of-none cs none e = refl
selection_of-none [] (some (t, b)) e = absurd (cc)
selection_of-none (c ∷ cs) (some (t, b)) e = absurd (cc)

find-eq-none : (p : Node → Bool) (xs : List Node) → All (λ n. p n ≡ false) xs → find p xs ≡ none
find-eq-none p [] h = refl
find-eq-none p (x ∷ xs) h = ground (arith, find-eq-none p xs h.1)

first_pair-eq-none :
    (place : Place) (wanted : Wanted) (needs : Bool) (inventory ts : List Node)
    → All (IsUnusable place wanted needs inventory) ts
    → first_pair inventory needs (filter (is_candidate place wanted) ts) ≡ none
unfolding first_pair
first_pair-eq-none place wanted needs inventory [] h = refl
first_pair-eq-none place wanted needs inventory (t ∷ ts) (unusable, h) =
    elim (Bool-cases (is_candidate place wanted t)) [
      | inl candidate ↦
          let (needed, missing) = unusable candidate in
          ground (
            arith,
            find-eq-none (builds_for t) inventory missing,
            first_pair-eq-none place wanted needs inventory ts h,
          )
      | inr unfit ↦ ground (arith, first_pair-eq-none place wanted needs inventory ts h)
    ]

selection_of-eq-none :
    (cs : List Node) (o : Option (Node × Option Node))
    → o ≡ none
    → (selection_of cs o).target ≡ none
selection_of-eq-none cs (some p) e = absurd (cc)
selection_of-eq-none [] none e = refl
selection_of-eq-none (c ∷ cs) none e = refl

-- No machine is chosen exactly when none of the inventory can be used: each is unready or does not
-- fit the service, or a build is needed and no ready builder has its architecture.
pub deployment_targets-none_iff :
    (inventory : List Node) (place : Place) (wanted : Wanted) (needs : Bool)
    → ((deployment_targets inventory place wanted needs).target ≡ none)
      ↔ All (IsUnusable place wanted needs inventory) inventory
unfolding deployment_targets
deployment_targets-none_iff inventory place wanted needs = (
  λ e.
      first_pair-none place wanted needs inventory inventory
        (selection_of-none (filter (is_candidate place wanted) inventory) _ e),
  λ h.
      selection_of-eq-none (filter (is_candidate place wanted) inventory) _
        (first_pair-eq-none place wanted needs inventory inventory h),
)
