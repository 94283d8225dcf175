-- ===== src/Registry/Range/Digits.antt =====
-- Reading a header that was put together from digit runs.
use personal_cloud.Prelude.{ℕ, ◌≡◌, refl, true, false, some, List, [], ◌∷◌, ◌++◌, All}
use personal_cloud.Registry.Range.{code_units, is_digit, span_digits, match_range}

abbrev pub IsDigit : ℕ → Type 0
IsDigit c = is_digit c ≡ true

-- The header `bytes=<first>-<last>`.
abbrev pub header_of : List ℕ → List ℕ → List ℕ
header_of first last = code_units "bytes=" ++ (first ++ b'-' ∷ last)

span_digits-All : (s : List ℕ) → All IsDigit s → span_digits s ≡ (s, [])
unfolding span_digits
span_digits-All [] h = refl
span_digits-All (c ∷ s) (d, h) = rw (span_digits-All s h, d)

span_digits-stop :
    (s rest : List ℕ) (c : ℕ)
    → All IsDigit s
    → is_digit c ≡ false
    → span_digits (s ++ c ∷ rest) ≡ (s, c ∷ rest)
unfolding span_digits
span_digits-stop [] rest c h stop = rw stop
span_digits-stop (d ∷ s) rest c (digit, h) stop = rw (span_digits-stop s rest c h stop, digit)

-- Two runs of digits are read back as they were written.
pub match_range-header_of :
    (first last : List ℕ)
    → All IsDigit first
    → All IsDigit last
    → match_range (header_of first last) ≡ some (first, last)
unfolding match_range
match_range-header_of first last hf hl =
    rw (span_digits-stop first last b'-' hf refl, span_digits-All last hl)
