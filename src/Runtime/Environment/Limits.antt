-- ===== src/Runtime/Environment/Limits.antt =====
-- The limits of a project's environment (apps/control-cloud/src/runtime.ts).
use personal_cloud.Prelude.{
  ℕ, ◌≡◌, refl, subst, inl, inr, true, false, List, [], ◌∷◌, arith, ◌==◌, length, filter,
  Bool-cases, ==→eq,
}
use personal_cloud.Prelude.Outcome.{ok, Result-cases}
use personal_cloud.Runtime.Environment.{
  Text, is_key, Variable, size_of, put_row, total_size, is_other, Input, exceeds, check_variable,
  row_for, Seal, put_variable,
}
use personal_cloud.Runtime.Environment.Sums.{
  sum_of, sum_but, IsDistinct, sum-put_row, sum-put_row_other, put_row-IsDistinct, one, is_of,
  IsWithin, IsEnvironment,
}

length-of : (p : ℕ) (rows : List Variable) → length (filter (is_of p) rows) ≡ sum_of one p rows
unfolding sum_of
length-of p [] = refl
length-of p (v ∷ rows) = ground (arith, length-of p rows)

total_size-of :
    (p : ℕ) (rows : List Variable) → total_size (filter (is_of p) rows) ≡ sum_of size_of p rows
unfolding sum_of
total_size-of p [] = refl
total_size-of p (v ∷ rows) = ground (arith, total_size-of p rows)

length-but :
    (p : ℕ) (k : Text) (rows : List Variable)
    → length (filter (is_other p k) rows) ≡ sum_but one p k rows
unfolding sum_but
length-but p k [] = refl
length-but p k (v ∷ rows) = ground (arith, length-but p k rows)

total_size-but :
    (p : ℕ) (k : Text) (rows : List Variable)
    → total_size (filter (is_other p k) rows) ≡ sum_but size_of p k rows
unfolding sum_but
total_size-but p k [] = refl
total_size-but p k (v ∷ rows) = ground (arith, total_size-but p k rows)

-- A row that the limits allow.
put_row-IsWithin :
    (v : Variable) (rows : List Variable)
    → IsDistinct rows
    → exceeds v.project_id (size_of v) (filter (is_other v.project_id v.key) rows) ≡ false
    → IsWithin v.project_id (put_row v rows)
put_row-IsWithin v rows d h = record {
  few = ground (
    arith,
    length-of v.project_id (put_row v rows),
    sum-put_row one v rows d,
    length-but v.project_id v.key rows,
  );
  small = ground (
    arith,
    total_size-of v.project_id (put_row v rows),
    sum-put_row size_of v rows d,
    total_size-but v.project_id v.key rows,
  );
}

put_row-IsWithin_other :
    (q : ℕ) (v : Variable) (rows : List Variable)
    → (v.project_id == q) ≡ false
    → IsWithin q rows
    → IsWithin q (put_row v rows)
put_row-IsWithin_other q v rows e h = record {
  few = ground (
    arith,
    length-of q (put_row v rows),
    length-of q rows,
    sum-put_row_other one q v rows e,
    h.few,
  );
  small = ground (
    arith,
    total_size-of q (put_row v rows),
    total_size-of q rows,
    sum-put_row_other size_of q v rows e,
    h.small,
  );
}

put_row-IsEnvironment :
    (v : Variable) (rows : List Variable)
    → exceeds v.project_id (size_of v) (filter (is_other v.project_id v.key) rows) ≡ false
    → IsEnvironment rows
    → IsEnvironment (put_row v rows)
put_row-IsEnvironment v rows e h = record {
  distinct = put_row-IsDistinct v rows h.distinct;
  within = λ q. elim (Bool-cases (v.project_id == q)) [
    | inl same ↦
        subst (λ q. IsWithin q (put_row v rows)) (==→eq v.project_id q same)
          (put_row-IsWithin v rows h.distinct e)
    | inr other ↦ put_row-IsWithin_other q v rows other (h.within q)
  ];
}

check_variable-ok :
    (p : ℕ) (input : Input) (rows : List Variable) (name : Text)
    → check_variable p input rows ≡ ok name
    → (is_key name ≡ true) × (exceeds p input.size (filter (is_other p name) rows) ≡ false)
unfolding check_variable
check_variable-ok p input rows name h = ground arith

-- Where nothing else writes variables while a value is encrypted: after a request to set a variable, granted
-- or not, every project has at most 128 variables of at most 131,072 characters together, and no
-- variable twice, if this was so before.
pub put_variable-IsEnvironment :
    (seal : Seal) (p : ℕ) (input : Input) (rows : List Variable)
    → ((value : ℕ) → (seal value rows).1 ≡ rows)
    → IsEnvironment rows
    → IsEnvironment (put_variable seal p input rows).1
unfolding put_variable
put_variable-IsEnvironment seal p input rows quiet h =
    elim (Result-cases (check_variable p input rows)) [
      | inl (e, refused) ↦ rw refused h
      | inr (name, granted) ↦
          rw (granted, quiet input.value)
            (put_row-IsEnvironment
              (row_for p input name (seal input.value rows).0.0 (seal input.value rows).0.1) rows
              (check_variable-ok p input rows name granted).1 h)
    ]
