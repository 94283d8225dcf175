-- ===== src/Runtime/Deploy/Chain.antt =====
-- The loop over the predecessors in `cleanup` (apps/control-cloud/src/runtime/deploy.ts) ends, and meets
-- no deployment twice.
use personal_cloud.Prelude.{
  ℕ, zero, suc, ◌+◌, ◌≤◌, ◌<◌, ◌≡◌, refl, false, Option, none, some, List, [], ◌∷◌, arith, inl, inr,
  Bool-cases, Option-cases, length, if◌then◌else◌,
}
use personal_cloud.Store.{get}
use personal_cloud.Runtime.Deploy.State.{Deployment, deployment_id}
use personal_cloud.Runtime.Deploy.Cleanup.{is_in, chain, predecessors}

-- How many deployments have not been seen.
abbrev unseen : List ℕ → List Deployment → ℕ
unseen seen [] = 0
unseen seen (d ∷ ds) = (if is_in seen d.id then 0 else 1) + unseen seen ds

unseen-length : (seen : List ℕ) (ds : List Deployment) → unseen seen ds ≤ length ds
unseen-length seen [] = ground arith
unseen-length seen (d ∷ ds) = ground (arith, unseen-length seen ds)

unseen-more : (k : ℕ) (seen : List ℕ) (ds : List Deployment) → unseen (k ∷ seen) ds ≤ unseen seen ds
unseen-more k seen [] = ground arith
unseen-more k seen (d ∷ ds) = ground (arith, unseen-more k seen ds)

unseen-less :
    (k : ℕ) (seen : List ℕ) (ds : List Deployment) (d : Deployment)
    → get deployment_id k ds ≡ some d
    → is_in seen k ≡ false
    → unseen (k ∷ seen) ds < unseen seen ds
unfolding get
unseen-less k seen [] d g h = absurd (cc)
unseen-less k seen (e ∷ ds) d g h = ground (arith, unseen-less k seen ds d, unseen-more k seen ds)

chain-enough :
    (m n : ℕ) (ds : List Deployment) (seen : List ℕ) (previous : Option ℕ)
    → unseen seen ds < m
    → unseen seen ds < n
    → chain m ds seen previous ≡ chain n ds seen previous
unfolding chain
chain-enough zero n ds seen previous h k = absurd (omega arith)
chain-enough (suc m) zero ds seen previous h k = absurd (omega arith)
chain-enough (suc m) (suc n) ds seen none h k = refl
chain-enough (suc m) (suc n) ds seen (some j) h k = elim (Bool-cases (is_in seen j)) [
  | inl e ↦ ground arith
  | inr e ↦ elim (Option-cases (get deployment_id j ds)) [
    | inl g ↦ ground arith
    | inr (d, g) ↦
        let less = unseen-less j seen ds d g e in
        let rest =
          chain-enough m n ds (j ∷ seen) d.previous_deployment_id (omega (arith, less))
            (omega (arith, less)) in
        ground (arith, rest)
  ]
]

-- The loop over the predecessors ends: any number of rounds above that of the deployments gives the
-- same list, even where the predecessors run in a circle.
pub predecessors-chain :
    (fuel : ℕ) (ds : List Deployment) (previous : Option ℕ)
    → length ds < fuel
    → chain fuel ds [] previous ≡ predecessors ds previous
predecessors-chain fuel ds previous h =
    let l = unseen-length [] ds in
    chain-enough fuel (suc (length ds)) ds [] previous (omega (arith, l)) (omega (arith, l))
