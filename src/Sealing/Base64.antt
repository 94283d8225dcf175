-- ===== src/Sealing/Base64.antt =====
-- `base64`, `base64url` and `unbase64` of apps/control-cloud/src/crypto.ts and auth/crypto.ts, with the
-- platform's `btoa` and `atob`. Bytes and characters are numbers.
use personal_cloud.Prelude.{
  ℕ, ◌+◌, ◌-◌, ◌*◌, ◌/◌, ◌%◌, Bool, ◌&&◌, ◌||◌, Option, none, some, List, [], ◌∷◌, map, ltb, leb,
  ◌==◌, if◌then◌else◌, not, filter,
}

abbrev pub Bytes : Type 0
Bytes = List ℕ

abbrev pub Text : Type 0
Text = List ℕ

-- The character for six bits, and back.
unfoldable pub letter : ℕ → ℕ
letter v =
    if ltb v 26
    then v + 65
    else if ltb v 52
    then v + 71
    else if ltb v 62
    then v - 4
    else if v == 62
    then b'+'
    else b'/'

unfoldable pub sextet : ℕ → Option ℕ
sextet c =
    if leb 65 c && leb c 90
    then some (c - 65)
    else if leb 97 c && leb c 122
    then some (c - 71)
    else if leb 48 c && leb c 57
    then some (c + 4)
    else if c == b'+'
    then some 62
    else if c == b'/'
    then some 63
    else none

abbrev pub pad : ℕ
pad = b'='

unfoldable pub btoa : Bytes → Text
btoa [] = []
btoa (a ∷ []) = letter (a / 4) ∷ letter (a % 4 * 16) ∷ pad ∷ pad ∷ []
btoa (a ∷ b ∷ []) = letter (a / 4) ∷ letter (a % 4 * 16 + b / 16) ∷ letter (b % 16 * 4) ∷ pad ∷ []
btoa (a ∷ b ∷ c ∷ rest) =
    letter (a / 4)
    ∷ letter (a % 4 * 16 + b / 16)
    ∷ letter (b % 16 * 4 + c / 64)
    ∷ letter (c % 64)
    ∷ btoa rest

-- `atob` drops white space, then up to two pads where the length is a multiple of four.
abbrev pub is_space : ℕ → Bool
is_space c = c == 32 || c == 9 || c == 10 || c == 12 || c == 13

abbrev unpad_last : ℕ → ℕ → ℕ → ℕ → Text
unpad_last a b c d =
    if d == pad then if c == pad then a ∷ b ∷ [] else a ∷ b ∷ c ∷ [] else a ∷ b ∷ c ∷ d ∷ []

unfoldable pub unpad : Text → Text
unpad (a ∷ b ∷ c ∷ d ∷ []) = unpad_last a b c d
unpad (a ∷ b ∷ c ∷ d ∷ e ∷ rest) = a ∷ b ∷ c ∷ d ∷ unpad (e ∷ rest)
unpad other = other

abbrev pub sextets : Text → Option (List ℕ)
sextets [] = some []
sextets (c ∷ cs) = elim (sextet c) [
  | none ↦ none
  | some v ↦ elim (sextets cs) [ none ↦ none | some vs ↦ some (v ∷ vs) ]
]

-- Four times six bits are three bytes; spare bits are dropped.
unfoldable pub bytes_of : List ℕ → Option Bytes
bytes_of [] = some []
bytes_of (a ∷ []) = none
bytes_of (a ∷ b ∷ []) = some ((a * 4 + b / 16) ∷ [])
bytes_of (a ∷ b ∷ c ∷ []) = some ((a * 4 + b / 16) ∷ (b % 16 * 16 + c / 4) ∷ [])
bytes_of (a ∷ b ∷ c ∷ d ∷ rest) = elim (bytes_of rest) [
  | none ↦ none
  | some bytes ↦ some ((a * 4 + b / 16) ∷ (b % 16 * 16 + c / 4) ∷ (c % 4 * 64 + d) ∷ bytes)
]

abbrev decoded : Option (List ℕ) → Option Bytes
decoded none = none
decoded (some vs) = bytes_of vs

-- `none`: the call throws.
unfoldable pub atob : Text → Option Bytes
atob text = decoded (sextets (unpad (filter (λ c. not (is_space c)) text)))

-- `text.replaceAll(from, to)` for single characters.
abbrev pub replace_all : ℕ → ℕ → Text → Text
replace_all from to text = map (λ c. if c == from then to else c) text

-- `text.replace(/=+$/, "")`
abbrev keep_unless_end : ℕ → Text → Text
keep_unless_end c [] = if c == pad then [] else c ∷ []
keep_unless_end c (d ∷ ds) = c ∷ d ∷ ds

unfoldable pub strip_pads : Text → Text
strip_pads [] = []
strip_pads (c ∷ cs) = keep_unless_end c (strip_pads cs)

unfoldable pub base64url : Bytes → Text
base64url bytes = strip_pads (replace_all b'/' b'_' (replace_all b'+' b'-' (btoa bytes)))

unfoldable pub unbase64 : Text → Option Bytes
unbase64 text = atob (replace_all b'_' b'/' (replace_all b'-' b'+' text))
