-- ===== src/Sealing/Letters.antt =====
-- Base64 text and the bytes that it stands for (apps/control-cloud/src/crypto.ts).
use personal_cloud.Prelude.{
  ◌++◌, ℕ, ◌+◌, ◌*◌, ◌/◌, ◌%◌, ◌<◌, ◌≡◌, refl, some, List, [], ◌∷◌, map, arith, All, ap,
  if◌then◌else◌, ◌==◌, not, filter, Bool, true, false,
}
use personal_cloud.Sealing.Base64.{
  Bytes, Text, letter, sextet, pad, btoa, is_space, unpad, sextets, bytes_of, atob,
}

abbrev pub IsByte : ℕ → Type 0
IsByte b = b < 256

abbrev pub is_visible : ℕ → Bool
is_visible c = not (is_space c)

-- The character of the URL alphabet for six bits, and the character that it is turned back into.
abbrev pub to_url : ℕ → ℕ
to_url c = let d = if c == b'+' then b'-' else c in if d == b'/' then b'_' else d

abbrev pub of_url : ℕ → ℕ
of_url c = let d = if c == b'-' then b'+' else c in if d == b'_' then b'/' else d

sextet-letter : (v : ℕ) → v < 64 → sextet (letter v) ≡ some v
unfolding sextet letter
sextet-letter v h = ground arith

pub of_url-letter : (v : ℕ) → v < 64 → of_url (to_url (letter v)) ≡ letter v
unfolding letter
of_url-letter v h = ground arith

is_visible-letter : (v : ℕ) → v < 64 → is_visible (letter v) ≡ true
unfolding letter
is_visible-letter v h = ground arith

letter-ne-pad : (v : ℕ) → v < 64 → (letter v == pad) ≡ false
unfolding letter
letter-ne-pad v h = ground arith

pub to_url-ne-pad : (v : ℕ) → v < 64 → (to_url (letter v) == pad) ≡ false
unfolding letter
to_url-ne-pad v h = ground arith

-- The six-bit groups of some bytes, and the padding that completes them.
unfoldable pub digits : Bytes → List ℕ
digits [] = []
digits (a ∷ []) = (a / 4) ∷ (a % 4 * 16) ∷ []
digits (a ∷ b ∷ []) = (a / 4) ∷ (a % 4 * 16 + b / 16) ∷ (b % 16 * 4) ∷ []
digits (a ∷ b ∷ c ∷ rest) =
    (a / 4) ∷ (a % 4 * 16 + b / 16) ∷ (b % 16 * 4 + c / 64) ∷ (c % 64) ∷ digits rest

unfoldable pub padding : Bytes → Text
padding [] = []
padding (a ∷ []) = pad ∷ pad ∷ []
padding (a ∷ b ∷ []) = pad ∷ []
padding (a ∷ b ∷ c ∷ rest) = padding rest

abbrev pub IsSextet : ℕ → Type 0
IsSextet v = v < 64

pub digits-IsSextet : (bytes : Bytes) → All IsByte bytes → All IsSextet (digits bytes)
unfolding digits
digits-IsSextet [] h = tt
digits-IsSextet (a ∷ []) h = ground arith
digits-IsSextet (a ∷ b ∷ []) h = ground arith
digits-IsSextet (a ∷ b ∷ c ∷ rest) h =
    (omega arith, (omega arith, (omega arith, (omega arith, digits-IsSextet rest h.1.1.1))))

pub bytes_of-digits : (bytes : Bytes) → All IsByte bytes → bytes_of (digits bytes) ≡ some bytes
unfolding digits bytes_of
bytes_of-digits [] h = refl
bytes_of-digits (a ∷ []) h = ground arith
bytes_of-digits (a ∷ b ∷ []) h = ground arith
bytes_of-digits (a ∷ b ∷ c ∷ rest) h = ground (arith, bytes_of-digits rest h.1.1.1)

pub btoa-digits : (bytes : Bytes) → btoa bytes ≡ map letter (digits bytes) ++ padding bytes
unfolding btoa digits padding
btoa-digits [] = refl
btoa-digits (a ∷ []) = refl
btoa-digits (a ∷ b ∷ []) = refl
btoa-digits (a ∷ b ∷ c ∷ rest) = rw (btoa-digits rest)

pub sextets-letter : (vs : List ℕ) → All IsSextet vs → sextets (map letter vs) ≡ some vs
sextets-letter [] h = refl
sextets-letter (v ∷ vs) h = ground (arith, sextet-letter v h.0, sextets-letter vs h.1)

pub filter-letter :
    (vs : List ℕ) → All IsSextet vs → filter is_visible (map letter vs) ≡ map letter vs
filter-letter [] h = refl
filter-letter (v ∷ vs) h = rw (is_visible-letter v h.0, filter-letter vs h.1)

filter-append : (p : ℕ → Bool) (xs ys : Text) → filter p (xs ++ ys) ≡ filter p xs ++ filter p ys
filter-append p [] ys = refl
filter-append p (x ∷ xs) ys = ground (arith, filter-append p xs ys)

filter-padding : (bytes : Bytes) → filter is_visible (padding bytes) ≡ padding bytes
unfolding padding
filter-padding [] = refl
filter-padding (a ∷ []) = refl
filter-padding (a ∷ b ∷ []) = refl
filter-padding (a ∷ b ∷ c ∷ rest) = filter-padding rest

-- Nothing is taken off a text that has no pad.
pub unpad-letter : (vs : List ℕ) → All IsSextet vs → unpad (map letter vs) ≡ map letter vs
unfolding unpad
unpad-letter [] h = refl
unpad-letter (a ∷ []) h = refl
unpad-letter (a ∷ b ∷ []) h = refl
unpad-letter (a ∷ b ∷ c ∷ []) h = refl
unpad-letter (a ∷ b ∷ c ∷ d ∷ []) h = rw (letter-ne-pad d h.1.1.1.0)
unpad-letter (a ∷ b ∷ c ∷ d ∷ e ∷ rest) h =
    ap (λ t. letter a ∷ letter b ∷ letter c ∷ letter d ∷ t) (unpad-letter (e ∷ rest) h.1.1.1.1)

-- The padding that `btoa` adds is what `atob` takes off.
unpad-digits :
    (bytes : Bytes)
    → All IsByte bytes
    → unpad (map letter (digits bytes) ++ padding bytes) ≡ map letter (digits bytes)
unfolding unpad digits padding
unpad-digits [] h = refl
unpad-digits (a ∷ []) h = refl
unpad-digits (a ∷ b ∷ []) h = rw (letter-ne-pad (b % 16 * 4) (omega arith))
unpad-digits (a ∷ b ∷ c ∷ []) h = rw (letter-ne-pad (c % 64) (omega arith))
unpad-digits (a ∷ b ∷ c ∷ d ∷ []) h = refl
unpad-digits (a ∷ b ∷ c ∷ d ∷ e ∷ []) h = rw (letter-ne-pad (e % 16 * 4) (omega arith))
unpad-digits (a ∷ b ∷ c ∷ d ∷ e ∷ f ∷ rest) h =
    ap
      (λ t.
        letter (a / 4)
        ∷ letter (a % 4 * 16 + b / 16)
        ∷ letter (b % 16 * 4 + c / 64)
        ∷ letter (c % 64)
        ∷ t)
      (unpad-digits (d ∷ e ∷ f ∷ rest) h.1.1.1)

pub atob-btoa : (bytes : Bytes) → All IsByte bytes → atob (btoa bytes) ≡ some bytes
unfolding atob
atob-btoa bytes h =
    let six = digits-IsSextet bytes h in
    rw
      (
        btoa-digits bytes,
        filter-append is_visible (map letter (digits bytes)) (padding bytes),
        filter-letter (digits bytes) six,
        filter-padding bytes,
        unpad-digits bytes h,
        sextets-letter (digits bytes) six,
      )
      (bytes_of-digits bytes h)
