-- ===== src/Store/Refinement.antt =====
-- A collection of apps/control-cloud/src/store.ts as a map from keys to documents: what the handlers see of
-- it is independent of the order of the documents.
use personal_cloud.Prelude.{
  ℕ, ◌≡◌, refl, ap, ◌∙◌, fun_ext, Bool, not, Option, none, some, List, [], ◌∷◌, arith, ltb, ◌==◌,
  if◌then◌else◌, Map, update, filter, Bool-cases, inl, inr,
}
use personal_cloud.Store.{get, put, delete, prune}
use personal_cloud.Store.Laws.{
  IsDistinct, get-filter-none, get-put, get-delete, put-IsDistinct, delete-IsDistinct,
  prune-IsDistinct,
}

pub data Write (A : Type 0) : Type 0 where
  store : A → Write A
  erase : ℕ → Write A
  erase_before : ℕ → Write A

abbrev pub kept_by : {A : Type 0} → (A → Bool) → Option A → Option A
kept_by t none = none
kept_by t (some d) = if t d then some d else none

module _ {A : Type 0} (key : A → ℕ) (field : A → ℕ) where
  -- The collection after one statement, and after several.
  unfoldable pub written : List A → Write A → List A
  written ds (store d) = put key d ds
  written ds (erase k) = delete key k ds
  written ds (erase_before t) = prune field t ds

  unfoldable pub write_all : List A → List (Write A) → List A
  write_all ds [] = ds
  write_all ds (w ∷ ws) = write_all (written ds w) ws

  -- The same statements on a map.
  unfoldable pub map_written : Map A → Write A → Map A
  map_written m (store d) = update m (key d) (some d)
  map_written m (erase k) = update m k none
  map_written m (erase_before t) = λ k. kept_by (λ d. not (ltb (field d) t)) (m k)

  unfoldable pub map_write_all : Map A → List (Write A) → Map A
  map_write_all m [] = m
  map_write_all m (w ∷ ws) = map_write_all (map_written m w) ws

  abbrev pub seen : List A → Map A
  seen ds k = get key k ds

  pub get-filter :
      (t : A → Bool) (k : ℕ) (ds : List A)
      → IsDistinct key ds
      → get key k (filter t ds) ≡ kept_by t (get key k ds)
  unfolding get
  get-filter t k [] h = refl
  get-filter t k (d ∷ ds) h = elim (Bool-cases (key d == k)) [
    | inl own ↦ ground (arith, own, get-filter-none key t k ds, h)
    | inr another ↦ ground (arith, another, get-filter t k ds h.1)
  ]

  written-IsDistinct :
      (ds : List A) (w : Write A) → IsDistinct key ds → IsDistinct key (written ds w)
  unfolding written
  written-IsDistinct ds (store d) h = put-IsDistinct key d ds h
  written-IsDistinct ds (erase k) h = delete-IsDistinct key k ds h
  written-IsDistinct ds (erase_before t) h = prune-IsDistinct key field t ds h

  seen-written :
      (ds : List A) (w : Write A)
      → IsDistinct key ds
      → seen (written ds w) ≡ map_written (seen ds) w
  unfolding written map_written prune
  seen-written ds (store d) h = fun_ext (λ k. get-put key k d ds ∙ ground arith)
  seen-written ds (erase k) h = fun_ext (λ j. get-delete key j k ds h ∙ ground arith)
  seen-written ds (erase_before t) h = fun_ext (λ k. get-filter (λ d. not (ltb (field d) t)) k ds h)

  -- Whatever is stored, erased and pruned, a collection holds what a map holds after the same
  -- statements, and its documents keep different keys.
  pub write_all-refines :
      (ds : List A) (ws : List (Write A))
      → IsDistinct key ds
      → (seen (write_all ds ws) ≡ map_write_all (seen ds) ws) × IsDistinct key (write_all ds ws)
  unfolding write_all map_write_all
  write_all-refines ds [] h = (refl, h)
  write_all-refines ds (w ∷ ws) h =
      let (same, k) = write_all-refines (written ds w) ws (written-IsDistinct ds w h) in
      (same ∙ ap (λ m. map_write_all m ws) (seen-written ds w h), k)
