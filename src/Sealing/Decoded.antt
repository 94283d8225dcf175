-- ===== src/Sealing/Decoded.antt =====
-- Decoding what was encoded.
use personal_cloud.Prelude.{
  ◌++◌, ◌+◌, ◌*◌, ℕ, ◌+◌, ◌*◌, ◌/◌, ◌%◌, ◌<◌, ◌≡◌, refl, some, List, [], ◌∷◌, map, arith, All, ap,
  ◌==◌, false,
}
use personal_cloud.Sealing.Base64.{
  Bytes, Text, letter, btoa, atob, replace_all, strip_pads, base64url, unbase64,
}
use personal_cloud.Sealing.Letters.{
  IsByte, to_url, of_url, of_url-letter, to_url-ne-pad, digits, padding, IsSextet, digits-IsSextet,
  bytes_of-digits, btoa-digits, sextets-letter, filter-letter, unpad-letter,
}

abbrev url : ℕ → ℕ
url v = to_url (letter v)

-- Only the padding is stripped.
strip_pads-padding :
    (vs : List ℕ) (bytes : Bytes)
    → All IsSextet vs
    → strip_pads (map url vs ++ map to_url (padding bytes)) ≡ map url vs
unfolding strip_pads padding
strip_pads-padding [] [] h = refl
strip_pads-padding [] (a ∷ []) h = refl
strip_pads-padding [] (a ∷ b ∷ []) h = refl
strip_pads-padding [] (a ∷ b ∷ c ∷ rest) h = strip_pads-padding [] rest h
strip_pads-padding (v ∷ []) bytes h = rw (strip_pads-padding [] bytes tt, to_url-ne-pad v h.0)
strip_pads-padding (v ∷ w ∷ vs) bytes h = rw (strip_pads-padding (w ∷ vs) bytes h.1)

replace_all-url :
    (text : Text) → replace_all b'/' b'_' (replace_all b'+' b'-' text) ≡ map to_url text
replace_all-url [] = refl
replace_all-url (c ∷ cs) = ap (λ t. to_url c ∷ t) (replace_all-url cs)

replace_all-of_url :
    (text : Text) → replace_all b'_' b'/' (replace_all b'-' b'+' text) ≡ map of_url text
replace_all-of_url [] = refl
replace_all-of_url (c ∷ cs) = ap (λ t. of_url c ∷ t) (replace_all-of_url cs)

map-url-append :
    (vs : List ℕ) (rest : Text) → map to_url (map letter vs ++ rest) ≡ map url vs ++ map to_url rest
map-url-append [] rest = refl
map-url-append (v ∷ vs) rest = ap (λ t. url v ∷ t) (map-url-append vs rest)

base64url-digits : (bytes : Bytes) → All IsByte bytes → base64url bytes ≡ map url (digits bytes)
unfolding base64url
base64url-digits bytes h =
    rw
      (
        replace_all-url (btoa bytes),
        btoa-digits bytes,
        map-url-append (digits bytes) (padding bytes),
      )
      (strip_pads-padding (digits bytes) bytes (digits-IsSextet bytes h))

of_url-digits : (vs : List ℕ) → All IsSextet vs → map of_url (map url vs) ≡ map letter vs
of_url-digits [] h = refl
of_url-digits (v ∷ vs) h = rw (of_url-letter v h.0, of_url-digits vs h.1)

pub unbase64-base64url :
    (bytes : Bytes) → All IsByte bytes → unbase64 (base64url bytes) ≡ some bytes
unfolding unbase64 atob
unbase64-base64url bytes h =
    let six = digits-IsSextet bytes h in
    rw
      (
        base64url-digits bytes h,
        replace_all-of_url (map url (digits bytes)),
        of_url-digits (digits bytes) six,
        filter-letter (digits bytes) six,
        unpad-letter (digits bytes) six,
        sextets-letter (digits bytes) six,
      )
      (bytes_of-digits bytes h)

-- No character of either alphabet is a dot, and what encodes something is not empty.
abbrev pub HasNoDot : Text → Type 0
HasNoDot = All (λ c. (c == b'.') ≡ false)

letter-ne-dot : (v : ℕ) → v < 64 → (letter v == b'.') ≡ false
unfolding letter
letter-ne-dot v h = ground arith

url-ne-dot : (v : ℕ) → v < 64 → (url v == b'.') ≡ false
unfolding letter
url-ne-dot v h = ground arith

url-HasNoDot : (vs : List ℕ) → All IsSextet vs → HasNoDot (map url vs)
url-HasNoDot [] h = tt
url-HasNoDot (v ∷ vs) h = (url-ne-dot v h.0, url-HasNoDot vs h.1)

pub base64url-HasNoDot : (bytes : Bytes) → All IsByte bytes → HasNoDot (base64url bytes)
base64url-HasNoDot bytes h =
    rw (base64url-digits bytes h) (url-HasNoDot (digits bytes) (digits-IsSextet bytes h))

pub btoa-HasNoDot : (bytes : Bytes) → All IsByte bytes → HasNoDot (btoa bytes)
unfolding btoa
btoa-HasNoDot [] h = tt
btoa-HasNoDot (a ∷ []) h = (
  letter-ne-dot (a / 4) (omega arith),
  (letter-ne-dot (a % 4 * 16) (omega arith), (refl, (refl, tt))),
)
btoa-HasNoDot (a ∷ b ∷ []) h = (
  letter-ne-dot (a / 4) (omega arith),
  (
    letter-ne-dot (a % 4 * 16 + b / 16) (omega arith),
    (letter-ne-dot (b % 16 * 4) (omega arith), (refl, tt)),
  ),
)
btoa-HasNoDot (a ∷ b ∷ c ∷ rest) h = (
  letter-ne-dot (a / 4) (omega arith),
  (
    letter-ne-dot (a % 4 * 16 + b / 16) (omega arith),
    (
      letter-ne-dot (b % 16 * 4 + c / 64) (omega arith),
      (letter-ne-dot (c % 64) (omega arith), btoa-HasNoDot rest h.1.1.1),
    ),
  ),
)

pub base64url_cons :
    (b : ℕ) (bytes : Bytes)
    → All IsByte (b ∷ bytes)
    → (c : ℕ) × ((cs : Text) × (base64url (b ∷ bytes) ≡ c ∷ cs))
unfolding digits
base64url_cons b [] h = (url (b / 4), (_, base64url-digits _ h))
base64url_cons b (d ∷ []) h = (url (b / 4), (_, base64url-digits _ h))
base64url_cons b (d ∷ e ∷ rest) h = (url (b / 4), (_, base64url-digits _ h))

pub btoa_cons : (b : ℕ) (bytes : Bytes) → (c : ℕ) × ((cs : Text) × (btoa (b ∷ bytes) ≡ c ∷ cs))
unfolding btoa
btoa_cons b [] = (_, (_, refl))
btoa_cons b (d ∷ []) = (_, (_, refl))
btoa_cons b (d ∷ e ∷ rest) = (_, (_, refl))
