-- ===== src/Sealing/Utf8.antt =====
-- Strings as the platform keeps them, by their 16-bit units, and their UTF-8 bytes: the `TextEncoder` and
-- the `TextDecoder` that apps/control-cloud/src/crypto.ts and auth/crypto.ts use. What is malformed
-- becomes U+FFFD, and a decoder drops a leading byte order mark.
use personal_cloud.Prelude.{
  ℕ, ◌+◌, ◌-◌, ◌*◌, ◌/◌, ◌%◌, Bool, true, false, ◌&&◌, Option, none, some, List, [], ◌∷◌, ◌++◌, ltb,
  leb, ◌==◌, if◌then◌else◌,
}
use personal_cloud.Sealing.Base64.{Bytes, Text}

abbrev pub replacement : ℕ
replacement = 65533

abbrev pub is_high : ℕ → Bool
is_high u = leb 55296 u && leb u 56319

abbrev pub is_low : ℕ → Bool
is_low u = leb 56320 u && leb u 57343

abbrev pub scalar_of : ℕ → ℕ
scalar_of u = if is_low u then replacement else u

abbrev pub paired : ℕ → ℕ → ℕ
paired h u = 65536 + (h - 55296) * 1024 + (u - 56320)

-- The code points of a string, where the first half of a pair may have been read.
unfoldable pub code_points : Option ℕ → Text → List ℕ
code_points none [] = []
code_points (some h) [] = replacement ∷ []
code_points none (u ∷ us) = elim (is_high u) [
  | true ↦ code_points (some u) us
  | false ↦ scalar_of u ∷ code_points none us
]
code_points (some h) (u ∷ us) = elim (is_low u) [
  | true ↦ paired h u ∷ code_points none us
  | false ↦ elim (is_high u) [
    | true ↦ replacement ∷ code_points (some u) us
    | false ↦ replacement ∷ u ∷ code_points none us
  ]
]

unfoldable pub utf8 : ℕ → Bytes
utf8 c =
    if ltb c 128
    then c ∷ []
    else if ltb c 2048
    then (192 + c / 64) ∷ (128 + c % 64) ∷ []
    else if ltb c 65536
    then (224 + c / 4096) ∷ (128 + c / 64 % 64) ∷ (128 + c % 64) ∷ []
    else (240 + c / 262144) ∷ (128 + c / 4096 % 64) ∷ (128 + c / 64 % 64) ∷ (128 + c % 64) ∷ []

unfoldable pub utf8_all : List ℕ → Bytes
utf8_all [] = []
utf8_all (c ∷ cs) = utf8 c ++ utf8_all cs

-- `encoder.encode(text)`
abbrev pub encode : Text → Bytes
encode text = utf8_all (code_points none text)

-- What the first byte of a character says: the character, or how many bytes follow, the bits so far, and
-- between what the next byte lies.
pub data First : Type 0 where
  whole : ℕ → First
  lead : (left bits from to : ℕ) → First
  bad : First

unfoldable pub first_byte : ℕ → First
first_byte b =
    if ltb b 128
    then whole b
    else if leb 194 b && leb b 223
    then lead 1 (b - 192) 128 191
    else if b == 224
    then lead 2 0 160 191
    else if b == 237
    then lead 2 13 128 159
    else if leb 225 b && leb b 239
    then lead 2 (b - 224) 128 191
    else if b == 240
    then lead 3 0 144 191
    else if b == 244
    then lead 3 4 128 143
    else if leb 241 b && leb b 243
    then lead 3 (b - 240) 128 191
    else bad

-- A decoder between two bytes.
pub data Decoder : Type 0 where
  ready : Decoder
  more : (left bits from to : ℕ) → Decoder

unfoldable pub characters : Decoder → Bytes → List ℕ
characters ready [] = []
characters (more left bits from to) [] = replacement ∷ []
characters ready (b ∷ bs) = elim (first_byte b) [
  | whole c ↦ c ∷ characters ready bs
  | lead left bits from to ↦ characters (more left bits from to) bs
  | bad ↦ replacement ∷ characters ready bs
]
characters (more left bits from to) (b ∷ bs) = elim (leb from b && leb b to) [
  | true ↦ elim (left == 1) [
    | true ↦ (bits * 64 + (b - 128)) ∷ characters ready bs
    | false ↦ characters (more (left - 1) (bits * 64 + (b - 128)) 128 191) bs
  ]
  | false ↦ replacement ∷ elim (first_byte b) [
    | whole c ↦ c ∷ characters ready bs
    | lead left' bits' from' to' ↦ characters (more left' bits' from' to') bs
    | bad ↦ replacement ∷ characters ready bs
  ]
]

unfoldable pub units : List ℕ → Text
units [] = []
units (c ∷ cs) =
    let rest = units cs in
    if ltb c 65536
    then c ∷ rest
    else (55296 + (c - 65536) / 1024) ∷ (56320 + (c - 65536) % 1024) ∷ rest

-- The byte order mark is EF BB BF.
unfoldable pub strip_mark : Bytes → Bytes
strip_mark (a ∷ b ∷ c ∷ bs) = if a == 239 && b == 187 && c == 191 then bs else a ∷ b ∷ c ∷ bs
strip_mark bs = bs

-- `new TextDecoder().decode(bytes)`
abbrev pub decode : Bytes → Text
decode bytes = units (characters ready (strip_mark bytes))
