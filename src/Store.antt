-- ===== src/Store.antt =====
-- One collection of the document store (apps/control-cloud/src/store.ts): its documents in the order
-- in which they were first written. `put` on a known key replaces the document where it stands.
-- A document carries its key, which is how the source uses every collection that is modelled.
pub mod Laws
pub mod Loops
pub mod Refinement
mod Examples
use personal_cloud.Prelude.{
  ℕ, Bool, not, Option, none, some, List, [], ◌∷◌, ltb, ◌==◌, if◌then◌else◌, filter,
}

module _ {A : Type 0} (key : A → ℕ) where
  unfoldable pub get : ℕ → List A → Option A
  get k [] = none
  get k (d ∷ ds) = if key d == k then some d else get k ds

  unfoldable pub put : A → List A → List A
  put d [] = d ∷ []
  put d (e ∷ ds) = if key e == key d then d ∷ ds else e ∷ put d ds

  unfoldable pub delete : ℕ → List A → List A
  delete k [] = []
  delete k (d ∷ ds) = if key d == k then ds else d ∷ delete k ds

-- Deletes the documents whose time stamp lies before the limit.
unfoldable pub prune : {A : Type 0} → (A → ℕ) → ℕ → List A → List A
prune field before ds = filter (λ d. not (ltb (field d) before)) ds
