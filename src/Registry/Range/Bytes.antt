-- ===== src/Registry/Range/Bytes.antt =====
-- The bytes that `blobRange` selects.
use personal_cloud.Prelude.{
  ℕ, ◌+◌, ◌-◌, min, ◌≤◌, ◌<◌, ◌≡◌, ◌∙◌, ◌↔◌, ◌⊎◌, Option, none, some, List, [], ◌∷◌, arith, All,
}
use personal_cloud.Registry.Range.{
  Range, number, max_safe_integer, suffix_range, last_position, from_start, select_range,
  with_match, match_range, blob_range,
}
use personal_cloud.Registry.Range.Digits.{IsDigit, header_of, match_range-header_of}

-- The byte at position `i` is part of the answer.
abbrev pub Serves : Range → ℕ → Type 0
Serves r i = (r.offset ≤ i) × (i < r.offset + r.length)

abbrev pub IsWithin : ℕ → Range → Type 0
IsWithin size r = (0 < r.length) × (r.offset + r.length ≤ size)

from_start-IsWithin :
    (start last size : ℕ) (r : Range) → from_start start last size ≡ some r → IsWithin size r
unfolding from_start
from_start-IsWithin start last size r e = ground arith

suffix_range-IsWithin :
    (last : List ℕ) (size : ℕ) (r : Range)
    → 0 < size
    → suffix_range last size ≡ some r
    → IsWithin size r
unfolding suffix_range
suffix_range-IsWithin last size r h e = ground arith

select_range-IsWithin :
    (first last : List ℕ) (size : ℕ) (r : Range)
    → 0 < size
    → select_range first last size ≡ some r
    → IsWithin size r
unfolding select_range
select_range-IsWithin [] last size r h e = suffix_range-IsWithin last size r h e
select_range-IsWithin (c ∷ s) last size r h e =
    from_start-IsWithin (number (c ∷ s)) (last_position last size) size r e

with_match-IsWithin :
    (m : Option (List ℕ × List ℕ)) (size : ℕ) (r : Range)
    → with_match size m ≡ some r
    → IsWithin size r
with_match-IsWithin none size r e = ground arith
with_match-IsWithin (some (first, last)) size r e =
    ground (arith, select_range-IsWithin first last size r)

-- Whatever the header holds, a range that `blobRange` returns is not empty and lies inside the blob.
pub blob_range-IsWithin :
    (header : List ℕ) (size : ℕ) (r : Range) → blob_range header size ≡ some r → IsWithin size r
unfolding blob_range
blob_range-IsWithin header size r e = with_match-IsWithin (match_range header) size r e

abbrev span_of : ℕ → ℕ → ℕ → Range
span_of start last size = record { offset = start; length = min last (size - 1) - start + 1 }

from_start-eq :
    (start last size : ℕ)
    → start ≤ max_safe_integer
    → last ≤ max_safe_integer
    → start ≤ last
    → start < size
    → from_start start last size ≡ some (span_of start last size)
unfolding from_start
from_start-eq start last size safe safe' ordered inside = ground arith

span_of-Serves :
    (start last size i : ℕ)
    → start ≤ last
    → start < size
    → Serves (span_of start last size) i ↔ ((start ≤ i) × (i ≤ last) × (i < size))
span_of-Serves start last size i ordered inside =
    (λ s. (omega arith, omega arith, omega arith), λ s. (omega arith, omega arith))

blob_range-header_of :
    (first last : List ℕ) (size : ℕ)
    → All IsDigit first
    → All IsDigit last
    → 0 < size
    → blob_range (header_of first last) size ≡ select_range first last size
unfolding blob_range
blob_range-header_of first last size hf hl h =
    rw (match_range-header_of first last hf hl) (ground arith)

-- A header `bytes=<first>-<last>` whose two positions are in order and safe, the first inside the
-- blob, selects exactly the bytes from the first position to the last that the blob has.
pub blob_range_exact :
    (c d : ℕ) (s t : List ℕ) (size : ℕ)
    → All IsDigit (c ∷ s)
    → All IsDigit (d ∷ t)
    → number (d ∷ t) ≤ max_safe_integer
    → number (c ∷ s) ≤ number (d ∷ t)
    → number (c ∷ s) < size
    → (r : Range) × (blob_range (header_of (c ∷ s) (d ∷ t)) size ≡ some r)
      × ((i : ℕ) → Serves r i ↔ ((number (c ∷ s) ≤ i) × (i ≤ number (d ∷ t)) × (i < size)))
unfolding select_range
blob_range_exact c d s t size hf hl safe ordered inside = (
  span_of (number (c ∷ s)) (number (d ∷ t)) size,
  blob_range-header_of (c ∷ s) (d ∷ t) size hf hl (omega arith)
      ∙ from_start-eq (number (c ∷ s)) (number (d ∷ t)) size (omega arith) safe ordered inside,
  λ i. span_of-Serves (number (c ∷ s)) (number (d ∷ t)) size i ordered inside,
)

suffix_range-eq :
    (last : List ℕ) (size : ℕ)
    → number last ≤ max_safe_integer
    → 0 < number last
    → suffix_range last size
      ≡ some (record { offset = size - min (number last) size; length = min (number last) size })
unfolding suffix_range
suffix_range-eq last size safe h = ground arith

-- A header `bytes=-<n>` with a safe, positive `n` selects exactly the last `n` bytes of the blob,
-- all of them where it has fewer.
pub blob_range_suffix :
    (last : List ℕ) (size : ℕ)
    → All IsDigit last
    → number last ≤ max_safe_integer
    → 0 < number last
    → 0 < size
    → (r : Range) × (blob_range (header_of [] last) size ≡ some r)
      × ((i : ℕ) → Serves r i ↔ ((size ≤ i + number last) × (i < size)))
unfolding select_range
blob_range_suffix last size hl safe h inside = (
  record { offset = size - min (number last) size; length = min (number last) size },
  blob_range-header_of [] last size tt hl inside ∙ suffix_range-eq last size safe h,
  λ i. (λ s. (omega arith, omega arith), λ s. (omega arith, omega arith)),
)

from_start-none :
    (start last size : ℕ) → (size ≤ start) ⊎ (last < start) → from_start start last size ≡ none
unfolding from_start
from_start-none start last size h = ground arith

-- A first position at or behind the end of the blob, or behind the last position, is refused.
pub blob_range_refused :
    (c d : ℕ) (s t : List ℕ) (size : ℕ)
    → All IsDigit (c ∷ s)
    → All IsDigit (d ∷ t)
    → 0 < size
    → (size ≤ number (c ∷ s)) ⊎ (number (d ∷ t) < number (c ∷ s))
    → blob_range (header_of (c ∷ s) (d ∷ t)) size ≡ none
unfolding select_range
blob_range_refused c d s t size hf hl h bad =
    blob_range-header_of (c ∷ s) (d ∷ t) size hf hl h
    ∙ from_start-none (number (c ∷ s)) (number (d ∷ t)) size bad
