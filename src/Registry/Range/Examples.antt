-- ===== src/Registry/Range/Examples.antt =====
-- `blobRange` at concrete headers.
use personal_cloud.Prelude.{◌≡◌, ◌↔◌, ◌≤◌, ◌<◌, ℕ, refl, inl, none, some, [], ◌∷◌, arith}
use personal_cloud.Registry.Range.{Range, code_units, number_from, blob_range}
use personal_cloud.Registry.Range.Digits.{header_of}
use personal_cloud.Registry.Range.Bytes.{
  Serves, IsWithin, blob_range-IsWithin, blob_range_exact, blob_range_refused,
}

middle : blob_range (code_units "bytes=2-5") 10 ≡ some (record { offset = 2; length = 4 })
unfolding blob_range
middle = refl

open_end : blob_range (code_units "bytes=4-") 10 ≡ some (record { offset = 4; length = 6 })
unfolding blob_range
open_end = refl

not_a_range : blob_range (code_units "bytes=2-5,7-8") 10 ≡ none
unfolding blob_range
not_a_range = refl

blob_range-IsWithin_example : IsWithin 10 (record { offset = 2; length = 4 })
blob_range-IsWithin_example =
    blob_range-IsWithin (code_units "bytes=2-5") 10 (record { offset = 2; length = 4 }) middle

blob_range_exact_example :
    (r : Range) × (blob_range (header_of (b'2' ∷ []) (b'5' ∷ [])) 10 ≡ some r)
    × ((i : ℕ) → Serves r i ↔ ((2 ≤ i) × (i ≤ 5) × (i < 10)))
unfolding number_from
blob_range_exact_example =
    blob_range_exact b'2' b'5' [] [] 10 (refl, tt) (refl, tt) (omega arith) (omega arith)
      (omega arith)

blob_range_refused_example : blob_range (header_of (b'1' ∷ b'2' ∷ []) (b'1' ∷ b'3' ∷ [])) 10 ≡ none
unfolding number_from
blob_range_refused_example =
    blob_range_refused b'1' b'1' (b'2' ∷ []) (b'3' ∷ []) 10 (refl, (refl, tt)) (refl, (refl, tt))
      (omega arith) (inl (omega arith))
