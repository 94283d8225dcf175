-- ===== src/Sealing/Characters.antt =====
-- The characters that a decoder finds in the UTF-8 bytes of a list of code points: `TextDecoder` and `TextEncoder`.
use personal_cloud.Prelude.{
  ℕ, ◌+◌, ◌-◌, ◌*◌, ◌/◌, ◌%◌, ◌<◌, ◌≤◌, ◌≡◌, ◌⊎◌, inl, inr, refl, ap, ◌∙◌, Bool, true, false, not,
  ◌&&◌, List, [], ◌∷◌, ◌++◌, All, arith, ltb, leb, ◌==◌, Bool-cases,
}
use personal_cloud.Sealing.Base64.{Bytes, Text}
use personal_cloud.Sealing.Utf8.{
  is_high, is_low, utf8, utf8_all, lead, first_byte, ready, more, characters,
}

-- A code point that is no surrogate.
abbrev pub is_scalar : ℕ → Bool
is_scalar c = ltb c 1114112 && not (leb 55296 c && leb c 57343)

abbrev pub IsScalar : ℕ → Type 0
IsScalar c = is_scalar c ≡ true

-- Every first half of a pair is followed by a second one, and there are no others.
abbrev pub is_paired : Bool → Text → Bool
is_paired false [] = true
is_paired true [] = false
is_paired false (u ∷ us) = ltb u 65536 && not (is_low u) && is_paired (is_high u) us
is_paired true (u ∷ us) = is_low u && is_paired false us

-- One byte after another.
last_byte :
    (bits low high b : ℕ) (bs : Bytes)
    → low ≤ b
    → b ≤ high
    → characters (more 1 bits low high) (b ∷ bs) ≡ (bits * 64 + (b - 128)) ∷ characters ready bs
unfolding characters
last_byte bits low high b bs h k =
    let e : (leb low b && leb b high) ≡ true = ground arith in rw (e, characters) refl

next_byte :
    (left bits low high b : ℕ) (bs : Bytes)
    → 2 ≤ left
    → low ≤ b
    → b ≤ high
    → characters (more left bits low high) (b ∷ bs)
      ≡ characters (more (left - 1) (bits * 64 + (b - 128)) 128 191) bs
unfolding characters
next_byte left bits low high b bs n h k =
    let e : (leb low b && leb b high) ≡ true = ground arith in
    let m : (left == 1) ≡ false = ground arith in rw (e, m, characters) refl

lead_byte :
    (b left bits low high : ℕ) (bs : Bytes)
    → first_byte b ≡ lead left bits low high
    → characters ready (b ∷ bs) ≡ characters (more left bits low high) bs
unfolding characters
lead_byte b left bits low high bs h = rw (h, characters) refl

-- The first byte, and where the second one lies.
Leads : ℕ → ℕ → ℕ → ℕ → Type 0
Leads left b bits next =
    (low : ℕ) × ((high : ℕ) × ((first_byte b ≡ lead left bits low high)
        × (low ≤ next)
        × (next ≤ high)))

two-Leads : (q r : ℕ) → 2 ≤ q → q < 32 → r < 64 → Leads 1 (192 + q) q (128 + r)
unfolding first_byte Leads
two-Leads q r h k m = (128, (191, (ground arith, omega arith, omega arith)))

three-Leads :
    (q r : ℕ)
    → q < 16
    → r < 64
    → (q ≡ 0 → 32 ≤ r)
    → (q ≡ 13 → r < 32)
    → Leads 2 (224 + q) q (128 + r)
unfolding first_byte Leads
three-Leads q r h m low high = elim (Bool-cases (q == 0)) [
  | inl zero_bits ↦ (160, (191, (ground arith, ground (arith, low), omega arith)))
  | inr positive ↦ elim (Bool-cases (q == 13)) [
    | inl surrogates ↦ (128, (159, (ground arith, omega arith, ground (arith, high))))
    | inr plain ↦ (128, (191, (ground arith, omega arith, omega arith)))
  ]
]

four-Leads :
    (q r : ℕ) → q ≤ 4 → r < 64 → (q ≡ 0 → 16 ≤ r) → (q ≡ 4 → r < 16) → Leads 3 (240 + q) q (128 + r)
unfolding first_byte Leads
four-Leads q r h m low high = elim (Bool-cases (q == 0)) [
  | inl zero_bits ↦ (144, (191, (ground arith, ground (arith, low), omega arith)))
  | inr positive ↦ elim (Bool-cases (q == 4)) [
    | inl last ↦ (128, (143, (ground arith, omega arith, ground (arith, high))))
    | inr plain ↦ (128, (191, (ground arith, omega arith, omega arith)))
  ]
]

characters-two :
    (c : ℕ) (bs : Bytes)
    → 128 ≤ c
    → c < 2048
    → characters ready ((192 + c / 64) ∷ (128 + c % 64) ∷ bs) ≡ c ∷ characters ready bs
unfolding Leads
characters-two c bs h k =
    let (low, (high, (e, below, above))) =
      two-Leads (c / 64) (c % 64) (omega arith) (omega arith) (omega arith) in
    let value : c / 64 * 64 + (128 + c % 64 - 128) ≡ c = omega arith in
    lead_byte (192 + c / 64) 1 (c / 64) low high ((128 + c % 64) ∷ bs) e
    ∙ last_byte (c / 64) low high (128 + c % 64) bs below above
    ∙ ap (λ d. d ∷ characters ready bs) value

characters-three :
    (c : ℕ) (bs : Bytes)
    → 2048 ≤ c
    → c < 65536
    → (c < 55296) ⊎ (57344 ≤ c)
    → characters ready ((224 + c / 4096) ∷ (128 + c / 64 % 64) ∷ (128 + c % 64) ∷ bs)
      ≡ c ∷ characters ready bs
unfolding Leads
characters-three c bs h k plain =
    let q = c / 4096 in
    let r = c / 64 % 64 in
    let s = c % 64 in
    let (low, (high, (e, below, above))) =
      three-Leads q r (omega arith) (omega arith) (λ z. omega arith) (λ z. omega arith) in
    let value : (q * 64 + (128 + r - 128)) * 64 + (128 + s - 128) ≡ c = omega arith in
    lead_byte (224 + q) 2 q low high ((128 + r) ∷ (128 + s) ∷ bs) e
    ∙ next_byte 2 q low high (128 + r) ((128 + s) ∷ bs) (omega arith) below above
    ∙ last_byte (q * 64 + (128 + r - 128)) 128 191 (128 + s) bs (omega arith) (omega arith)
    ∙ ap (λ d. d ∷ characters ready bs) value

characters-four :
    (c : ℕ) (bs : Bytes)
    → 65536 ≤ c
    → c < 1114112
    → characters ready
        ((240 + c / 262144) ∷ (128 + c / 4096 % 64) ∷ (128 + c / 64 % 64) ∷ (128 + c % 64) ∷ bs)
      ≡ c ∷ characters ready bs
unfolding Leads
characters-four c bs h k =
    let q = c / 262144 in
    let r = c / 4096 % 64 in
    let s = c / 64 % 64 in
    let t = c % 64 in
    let (low, (high, (e, below, above))) =
      four-Leads q r (omega arith) (omega arith) (λ z. omega arith) (λ z. omega arith) in
    let two = q * 64 + (128 + r - 128) in
    let three = two * 64 + (128 + s - 128) in
    let value : three * 64 + (128 + t - 128) ≡ c = omega arith in
    lead_byte (240 + q) 3 q low high ((128 + r) ∷ (128 + s) ∷ (128 + t) ∷ bs) e
    ∙ next_byte 3 q low high (128 + r) ((128 + s) ∷ (128 + t) ∷ bs) (omega arith) below above
    ∙ next_byte 2 two 128 191 (128 + s) ((128 + t) ∷ bs) (omega arith) (omega arith) (omega arith)
    ∙ last_byte three 128 191 (128 + t) bs (omega arith) (omega arith)
    ∙ ap (λ d. d ∷ characters ready bs) value

characters-one :
    (c : ℕ) (bs : Bytes) → c < 128 → characters ready (c ∷ bs) ≡ c ∷ characters ready bs
unfolding characters first_byte
characters-one c bs h =
    let e : ltb c 128 ≡ true = ground arith in rw (e, first_byte, characters) refl

characters-utf8 :
    (c : ℕ) (bs : Bytes) → IsScalar c → characters ready (utf8 c ++ bs) ≡ c ∷ characters ready bs
unfolding utf8
characters-utf8 c bs h = elim (Bool-cases (ltb c 128)) [
  | inl one ↦ rw one (characters-one c bs (ground arith))
  | inr over_one ↦ elim (Bool-cases (ltb c 2048)) [
    | inl two ↦ rw (over_one, two) (characters-two c bs (ground arith) (ground arith))
    | inr over_two ↦ elim (Bool-cases (ltb c 65536)) [
      | inl three ↦
          rw (over_one, over_two, three)
            (characters-three c bs (ground arith) (ground arith) (ground arith))
      | inr four ↦
          rw (over_one, over_two, four) (characters-four c bs (ground arith) (ground arith))
    ]
  ]
]

pub characters-utf8_all : (cs : List ℕ) → All IsScalar cs → characters ready (utf8_all cs) ≡ cs
unfolding utf8_all characters
characters-utf8_all [] h = refl
characters-utf8_all (c ∷ cs) h =
    characters-utf8 c (utf8_all cs) h.0 ∙ ap (λ ds. c ∷ ds) (characters-utf8_all cs h.1)
