-- ===== src/Runtime/Environment/Sums.antt =====
-- Sums over the environment variables of a project (apps/control-cloud/src/runtime.ts).
use personal_cloud.Prelude.{
  ℕ, ◌+◌, ◌≤◌, ◌≡◌, refl, sym, subst, inl, inr, Bool, true, false, ◌&&◌, List, [], ◌∷◌, arith, ◌==◌,
  length, filter, if◌then◌else◌, Bool-cases,
}
use personal_cloud.Runtime.Environment.{
  Text, same_text, Variable, is_row, put_row, total_size, is_other,
}

same_text-eq : (a b : Text) → same_text a b ≡ true → a ≡ b
unfolding same_text
same_text-eq [] [] h = refl
same_text-eq [] (b ∷ bs) h = absurd (cc)
same_text-eq (a ∷ rest) [] h = absurd (cc)
same_text-eq (a ∷ rest) (b ∷ bs) h = ground (arith, same_text-eq rest bs)

pub same_text_refl : (a : Text) → same_text a a ≡ true
unfolding same_text
same_text_refl [] = refl
same_text_refl (a ∷ rest) = ground (arith, same_text_refl rest)

-- The sum of a measure over the variables of a project, and over all but one of them.
unfoldable pub sum_of : (Variable → ℕ) → ℕ → List Variable → ℕ
sum_of g p [] = 0
sum_of g p (v ∷ rows) = (if v.project_id == p then g v else 0) + sum_of g p rows

unfoldable pub sum_but : (Variable → ℕ) → ℕ → Text → List Variable → ℕ
sum_but g p k [] = 0
sum_but g p k (v ∷ rows) = (if is_other p k v then g v else 0) + sum_but g p k rows

abbrev HasNo : ℕ → Text → List Variable → Type 0
HasNo p k [] = Unit {0}
HasNo p k (v ∷ rows) = (is_row p k v ≡ false) × HasNo p k rows

-- No two rows are of one variable.
abbrev pub IsDistinct : List Variable → Type 0
IsDistinct [] = Unit {0}
IsDistinct (v ∷ rows) = HasNo v.project_id v.key rows × IsDistinct rows

sum-HasNo :
    (g : Variable → ℕ) (p : ℕ) (k : Text) (rows : List Variable)
    → HasNo p k rows
    → sum_of g p rows ≡ sum_but g p k rows
unfolding sum_of sum_but
sum-HasNo g p k [] h = refl
sum-HasNo g p k (v ∷ rows) h = ground (arith, sum-HasNo g p k rows h.1)

is_row_self :
    (v w : Variable)
    → v.project_id ≡ w.project_id
    → v.key ≡ w.key
    → is_row v.project_id v.key w ≡ true
is_row_self v w p k =
    subst (λ j. (w.project_id == v.project_id && same_text w.key j) ≡ true) (sym k)
      (ground (arith, same_text_refl w.key))

row-eq : (p : ℕ) (k : Text) (v : Variable) → is_row p k v ≡ true → (v.project_id ≡ p) × (v.key ≡ k)
row-eq p k v h = (ground arith, same_text-eq v.key k (ground arith))

-- A row of the same variable stands for it.
moved :
    (v w : Variable) (rows : List Variable)
    → is_row v.project_id v.key w ≡ true
    → HasNo w.project_id w.key rows
    → HasNo v.project_id v.key rows
moved v w rows same h =
    let (p, k) = row-eq v.project_id v.key w same in
    subst (λ k. HasNo v.project_id k rows) k (subst (λ p. HasNo p w.key rows) p h)

is_row_comm :
    (v w : Variable) → is_row v.project_id v.key w ≡ false → is_row w.project_id w.key v ≡ false
is_row_comm v w h = elim (Bool-cases (is_row w.project_id w.key v)) [
  | inl same ↦
      let (p, k) = row-eq w.project_id w.key v same in
      absurd (ground (arith, same_text_refl w.key, is_row_self v w p k))
  | inr other ↦ other
]

-- After a write, the project's sum is that of its other variables and of the row written.
pub sum-put_row :
    (g : Variable → ℕ) (v : Variable) (rows : List Variable)
    → IsDistinct rows
    → sum_of g v.project_id (put_row v rows) ≡ sum_but g v.project_id v.key rows + g v
unfolding sum_of sum_but put_row
sum-put_row g v [] h = ground arith
sum-put_row g v (w ∷ rows) h = elim (Bool-cases (is_row v.project_id v.key w)) [
  | inl same ↦
      rw same (ground (arith, sum-HasNo g v.project_id v.key rows (moved v w rows same h.0)))
  | inr other ↦ rw other (ground (arith, sum-put_row g v rows h.1))
]

-- Other projects are left alone.
pub sum-put_row_other :
    (g : Variable → ℕ) (q : ℕ) (v : Variable) (rows : List Variable)
    → (v.project_id == q) ≡ false
    → sum_of g q (put_row v rows) ≡ sum_of g q rows
unfolding sum_of put_row
sum-put_row_other g q v [] h = ground arith
sum-put_row_other g q v (w ∷ rows) h = ground (arith, sum-put_row_other g q v rows h)

HasNo-put_row :
    (p : ℕ) (k : Text) (v : Variable) (rows : List Variable)
    → is_row p k v ≡ false
    → HasNo p k rows
    → HasNo p k (put_row v rows)
unfolding put_row
HasNo-put_row p k v [] e h = (e, tt)
HasNo-put_row p k v (w ∷ rows) e h = ground (arith, HasNo-put_row p k v rows e h.1)

pub put_row-IsDistinct :
    (v : Variable) (rows : List Variable) → IsDistinct rows → IsDistinct (put_row v rows)
unfolding put_row
put_row-IsDistinct v [] h = (tt, tt)
put_row-IsDistinct v (w ∷ rows) h = elim (Bool-cases (is_row v.project_id v.key w)) [
  | inl same ↦ rw same (moved v w rows same h.0, h.1)
  | inr other ↦ rw other (
    HasNo-put_row w.project_id w.key v rows (is_row_comm v w other) h.0,
    put_row-IsDistinct v rows h.1,
  )
]

abbrev pub one : Variable → ℕ
one v = 1

abbrev pub is_of : ℕ → Variable → Bool
is_of p v = v.project_id == p

-- At most 128 variables, and at most 128 KiB.
pub record IsWithin (p : ℕ) (rows : List Variable) : Type 0 where
  pub few : length (filter (is_of p) rows) ≤ 128
  pub small : total_size (filter (is_of p) rows) ≤ 131072

pub record IsEnvironment (rows : List Variable) : Type 0 where
  pub distinct : IsDistinct rows
  pub within : (p : ℕ) → IsWithin p rows
