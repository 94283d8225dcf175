-- ===== src/Registry/Range.antt =====
-- `blobRange` of apps/control-cloud/src/registry.ts: which bytes of a blob a `Range` header asks for.
-- A header is the list of its code units. `Number` of a run of digits is its decimal value; above
-- 2^53 - 1 the source refuses the number, whatever it rounds to.
pub mod Digits
pub mod Bytes
mod Examples
use Prim.Native.Char.{code}
use personal_cloud.Prelude.{
  ℕ, ◌+◌, ◌-◌, ◌*◌, min, String, Bool, not, ◌&&◌, ◌||◌, Option, none, some, List, [], ◌∷◌, ltb, leb,
  ◌==◌, if◌then◌else◌,
}

pub record Range : Type 0 where
  pub offset : ℕ
  pub length : ℕ

abbrev pub code_units : String → List ℕ
code_units (String.◌∷◌ letter text) = code letter ∷ code_units text
code_units String.[] = []

abbrev pub is_digit : ℕ → Bool
is_digit c = leb b'0' c && leb c b'9'

-- The longest run of digits, and what follows it: `(\d*)`.
unfoldable pub span_digits : List ℕ → List ℕ × List ℕ
span_digits [] = ([], [])
span_digits (c ∷ s) =
    let (run, rest) = span_digits s in if is_digit c then (c ∷ run, rest) else ([], c ∷ s)

unfoldable pub strip_prefix : List ℕ → List ℕ → Option (List ℕ)
strip_prefix [] s = some s
strip_prefix (p ∷ ps) [] = none
strip_prefix (p ∷ ps) (c ∷ s) = if p == c then strip_prefix ps s else none

abbrev pub max_safe_integer : ℕ
max_safe_integer = 9007199254740991

unfoldable pub number_from : ℕ → List ℕ → ℕ
number_from acc [] = acc
number_from acc (c ∷ s) = number_from (acc * 10 + (c - b'0')) s

-- `Number(digits)`; the empty text is 0.
abbrev pub number : List ℕ → ℕ
number s = number_from 0 s

-- After `-`: the digits of the last position must reach the end of the header.
abbrev pub end_of_match : List ℕ → List ℕ × List ℕ → Option (List ℕ × List ℕ)
end_of_match first (last, []) = some (first, last)
end_of_match first (last, _ ∷ _) = none

abbrev pub after_first : List ℕ × List ℕ → Option (List ℕ × List ℕ)
after_first (first, []) = none
after_first (first, c ∷ s) = if c == b'-' then end_of_match first (span_digits s) else none

-- `/^bytes=(\d*)-(\d*)$/.exec(header)`
unfoldable pub match_range : List ℕ → Option (List ℕ × List ℕ)
unfolding span_digits strip_prefix
match_range header = elim (strip_prefix (code_units "bytes=") header) [
  | none ↦ none
  | some s ↦ after_first (span_digits s)
]

unfoldable pub suffix_range : List ℕ → ℕ → Option Range
suffix_range last size =
    let suffix = number last in
    if not (leb suffix max_safe_integer) || suffix == 0
    then none
    else some (record { offset = size - min suffix size; length = min suffix size })

abbrev pub last_position : List ℕ → ℕ → ℕ
last_position [] size = size - 1
last_position (c ∷ s) size = number (c ∷ s)

unfoldable pub from_start : ℕ → ℕ → ℕ → Option Range
from_start start last size =
    if not (leb start max_safe_integer)
      || not (leb last max_safe_integer)
      || leb size start
      || ltb last start
    then none
    else some (record { offset = start; length = min last (size - 1) - start + 1 })

unfoldable pub select_range : List ℕ → List ℕ → ℕ → Option Range
unfolding suffix_range from_start number_from
select_range [] last size = suffix_range last size
select_range (c ∷ s) last size = from_start (number (c ∷ s)) (last_position last size) size

abbrev pub with_match : ℕ → Option (List ℕ × List ℕ) → Option Range
with_match size none = none
with_match size (some (first, last)) = if size == 0 then none else select_range first last size

unfoldable pub blob_range : List ℕ → ℕ → Option Range
unfolding match_range select_range
blob_range header size = with_match size (match_range header)
