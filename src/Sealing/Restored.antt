-- ===== src/Sealing/Restored.antt =====
-- A string whose surrogates are paired, and that does not begin with a byte order mark, is decoded to itself
-- after it was encoded.
use personal_cloud.Prelude.{
  ℕ, ◌+◌, ◌-◌, ◌/◌, ◌%◌, ◌≡◌, inl, inr, refl, ap, ◌∙◌, Bool, true, false, not, ◌&&◌, Option, none,
  some, List, [], ◌∷◌, ◌++◌, All, arith, ltb, ◌==◌, Bool-cases, is_some, All-append,
}
use personal_cloud.Sealing.Base64.{Bytes, Text}
use personal_cloud.Sealing.Letters.{IsByte}
use personal_cloud.Sealing.Utf8.{
  is_high, is_low, paired, code_points, utf8, utf8_all, encode, ready, characters, units,
  strip_mark, decode,
}
use personal_cloud.Sealing.Characters.{IsScalar, is_paired, characters-utf8_all}

-- The code points of a string with paired surrogates are scalar values, and give the string back.
IsRead : Text → List ℕ → Type 0
IsRead s cs = All IsScalar cs × (units cs ≡ s)

pair-IsRead :
    (h u : ℕ) (us : Text) (cs : List ℕ)
    → is_high h ≡ true
    → is_low u ≡ true
    → IsRead us cs
    → IsRead (h ∷ u ∷ us) (paired h u ∷ cs)
unfolding IsRead units
pair-IsRead h u us cs high low k =
    let c = paired h u in
    let far : ltb c 65536 ≡ false = ground arith in
    let first_half : 55296 + (c - 65536) / 1024 ≡ h = ground arith in
    let second_half : 56320 + (c - 65536) % 1024 ≡ u = ground arith in
    ((ground arith, k.0), rw (far, first_half, second_half) (ap (λ rest. h ∷ u ∷ rest) k.1))

unit-IsRead :
    (u : ℕ) (us : Text) (cs : List ℕ)
    → ltb u 65536 ≡ true
    → is_high u ≡ false
    → is_low u ≡ false
    → IsRead us cs
    → IsRead (u ∷ us) (u ∷ cs)
unfolding IsRead units
unit-IsRead u us cs near high low k = ((ground arith, k.0), rw near (ap (λ rest. u ∷ rest) k.1))

-- The string with the first half of a pair that was read already.
abbrev behind : Option ℕ → Text → Text
behind none s = s
behind (some h) s = h ∷ s

abbrev IsPending : Option ℕ → Type 0
IsPending none = Unit
IsPending (some h) = is_high h ≡ true

both : (a b : Bool) → (a && b) ≡ true → (a ≡ true) × (b ≡ true)
both a b h = ground arith

all_three : (a b c : Bool) → (a && not b && c) ≡ true → (a ≡ true) × (b ≡ false) × (c ≡ true)
all_three a b c h = ground arith

code_points-IsRead :
    (o : Option ℕ) (s : Text)
    → IsPending o
    → is_paired (is_some o) s ≡ true
    → IsRead (behind o s) (code_points o s)
unfolding code_points IsRead units
code_points-IsRead none [] p k = (tt, refl)
code_points-IsRead (some h) [] p k = absurd (cc)
code_points-IsRead none (u ∷ us) p k =
    let (near, low, others) = all_three (ltb u 65536) (is_low u) (is_paired (is_high u) us) k in
    elim (Bool-cases (is_high u)) [
      | inl high ↦ rw (high, code_points) (code_points-IsRead (some u) us high (rw high at others))
      | inr plain ↦
          let rest = code_points-IsRead none us tt (rw plain at others) in
          rw (plain, low, code_points) (unit-IsRead u us (code_points none us) near plain low rest)
    ]
code_points-IsRead (some h) (u ∷ us) p k =
    let (low, others) = both (is_low u) (is_paired false us) k in
    let rest = code_points-IsRead none us tt others in
    rw (low, code_points) (pair-IsRead h u us (code_points none us) p low rest)

-- The mark is dropped only where the string begins with it.
abbrev pub has_mark : Text → Bool
has_mark [] = false
has_mark (u ∷ us) = u == 65279

kept_first : (b : ℕ) (bs : Bytes) → (b == 239) ≡ false → strip_mark (b ∷ bs) ≡ b ∷ bs
unfolding strip_mark
kept_first b [] h = refl
kept_first b (c ∷ []) h = refl
kept_first b (c ∷ d ∷ bs) h = rw h refl

kept_three :
    (a b c : ℕ) (bs : Bytes)
    → (a == 239 && b == 187 && c == 191) ≡ false
    → strip_mark (a ∷ b ∷ c ∷ bs) ≡ a ∷ b ∷ c ∷ bs
unfolding strip_mark
kept_three a b c bs h = rw h refl

kept_utf8 : (c : ℕ) (bs : Bytes) → (c == 65279) ≡ false → strip_mark (utf8 c ++ bs) ≡ utf8 c ++ bs
unfolding utf8
kept_utf8 c bs h = elim (Bool-cases (ltb c 128)) [
  | inl one ↦ rw one (kept_first c bs (ground arith))
  | inr over_one ↦ elim (Bool-cases (ltb c 2048)) [
    | inl two ↦ rw (over_one, two) (kept_first (192 + c / 64) ((128 + c % 64) ∷ bs) (ground arith))
    | inr over_two ↦ elim (Bool-cases (ltb c 65536)) [
      | inl three ↦
          rw (over_one, over_two, three)
            (kept_three (224 + c / 4096) (128 + c / 64 % 64) (128 + c % 64) bs (ground arith))
      | inr four ↦
          rw (over_one, over_two, four)
            (kept_first (240 + c / 262144)
              ((128 + c / 4096 % 64) ∷ (128 + c / 64 % 64) ∷ (128 + c % 64) ∷ bs) (ground arith))
    ]
  ]
]

kept_all : (cs : List ℕ) → has_mark (units cs) ≡ false → strip_mark (utf8_all cs) ≡ utf8_all cs
unfolding units utf8_all strip_mark
kept_all [] h = refl
kept_all (c ∷ cs) h = kept_utf8 c (utf8_all cs) (ground (arith, h))

-- A string can be sent through UTF-8: its surrogates are paired and it does not begin with a byte order mark.
abbrev pub IsPlain : Text → Type 0
IsPlain s = (is_paired false s ≡ true) × (has_mark s ≡ false)

pub decode-encode : (s : Text) → IsPlain s → decode (encode s) ≡ s
unfolding IsRead
decode-encode s (paired_up, unmarked) =
    let (scalars, back) = code_points-IsRead none s tt paired_up in
    let cs = code_points none s in
    let kept = kept_all cs (ap has_mark back ∙ unmarked) in
    ap (λ bytes. units (characters ready bytes)) kept
    ∙ ap units (characters-utf8_all cs scalars)
    ∙ back

utf8-IsByte : (c : ℕ) → IsScalar c → All IsByte (utf8 c)
unfolding utf8
utf8-IsByte c h = elim (Bool-cases (ltb c 128)) [
  | inl one ↦ rw one (ground arith)
  | inr over_one ↦ elim (Bool-cases (ltb c 2048)) [
    | inl two ↦ rw (over_one, two) (ground arith)
    | inr over_two ↦ elim (Bool-cases (ltb c 65536)) [
      | inl three ↦ rw (over_one, over_two, three) (ground arith)
      | inr four ↦ rw (over_one, over_two, four) (ground arith)
    ]
  ]
]

utf8_all-IsByte : (cs : List ℕ) → All IsScalar cs → All IsByte (utf8_all cs)
unfolding utf8_all
utf8_all-IsByte [] h = tt
utf8_all-IsByte (c ∷ cs) h =
    All-append IsByte (utf8 c) (utf8_all cs) (utf8-IsByte c h.0) (utf8_all-IsByte cs h.1)

pub encode-IsByte : (s : Text) → IsPlain s → All IsByte (encode s)
unfolding IsRead
encode-IsByte s (paired_up, unmarked) =
    utf8_all-IsByte (code_points none s) (code_points-IsRead none s tt paired_up).0
