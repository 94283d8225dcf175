-- ===== src/Prelude/Members.antt =====
-- Elements of a list, and what `find` and `filter` do with them.
use mathlib.Core.Path.{◌≡◌, refl, sym, ap, ◌∙◌}
use mathlib.Core.Logic.{◌⊎◌, inl, inr}
use mathlib.Core.Bool.{Bool, true}
use mathlib.Core.List.{List, [], ◌∷◌}
use mathlib.Core.Option.{some}
use native.Mathlib.Omega.{arith}
use personal_cloud.Prelude.Tests.{is_some, Bool-cases}
use personal_cloud.Prelude.Lists.{find, filter}

module _ {A : Type 0} where
  abbrev pub IsIn : A → List A → Type 0
  IsIn x [] = ⊥
  IsIn x (y ∷ ys) = (x ≡ y) ⊎ IsIn x ys

  pub find-IsIn : (p : A → Bool) (xs : List A) (a : A) → find p xs ≡ some a → IsIn a xs
  find-IsIn p [] a e = absurd (cc)
  find-IsIn p (x ∷ xs) a e = elim (Bool-cases (p x)) [
    | inl q ↦ inl (ground arith)
    | inr q ↦ inr (find-IsIn p xs a (ground arith))
  ]

  pub find-some :
      (p : A → Bool) (xs : List A) (x : A) → IsIn x xs → p x ≡ true → is_some (find p xs) ≡ true
  find-some p [] x m h = absurd m
  find-some p (y ∷ xs) x (inl e) h = rw (ap p (sym e) ∙ h) refl
  find-some p (y ∷ xs) x (inr m) h = ground (arith, find-some p xs x m h)

  filter_cons-IsIn :
      (p : A → Bool) (y x : A) (rest kept : List A)
      → p y ≡ true
      → (IsIn x kept → IsIn x rest × (p x ≡ true))
      → IsIn x (y ∷ kept)
      → IsIn x (y ∷ rest) × (p x ≡ true)
  filter_cons-IsIn p y x rest kept q h (inl e) = (inl e, ap p e ∙ q)
  filter_cons-IsIn p y x rest kept q h (inr m) = (inr (h m).0, (h m).1)

  pub filter-IsIn :
      (p : A → Bool) (xs : List A) (x : A) → IsIn x (filter p xs) → IsIn x xs × (p x ≡ true)
  filter-IsIn p [] x m = absurd m
  filter-IsIn p (y ∷ xs) x m = elim (Bool-cases (p y)) [
    | inl q ↦ filter_cons-IsIn p y x xs (filter p xs) q (filter-IsIn p xs x) (rw q at m)
    | inr q ↦ let (n, h) = filter-IsIn p xs x (rw q at m) in (inr n, h)
  ]

  pub IsIn-filter :
      (p : A → Bool) (xs : List A) (x : A) → IsIn x xs → p x ≡ true → IsIn x (filter p xs)
  IsIn-filter p [] x m h = absurd m
  IsIn-filter p (y ∷ xs) x (inl e) h = rw (ap p (sym e) ∙ h) (inl e)
  IsIn-filter p (y ∷ xs) x (inr m) h = elim (Bool-cases (p y)) [
    | inl q ↦ rw q (inr (IsIn-filter p xs x m h))
    | inr q ↦ rw q (IsIn-filter p xs x m h)
  ]
