-- ===== src/Runtime/Environment.antt =====
-- The environment variables of a project: `environmentKey` and the environment requests of `handleRuntime`
-- (apps/control-cloud/src/runtime.ts). A row is stored under its project and its name.
pub mod Sums
pub mod Limits
mod Examples
use personal_cloud.Prelude.{
  ℕ, ◌+◌, Bool, true, false, not, ◌&&◌, ◌||◌, Option, none, some, List, [], ◌∷◌, ltb, leb, ◌==◌,
  length, all, filter, if◌then◌else◌,
}
use personal_cloud.Prelude.Outcome.{Result, ok, err, http, fail_if, ◌>>=◌, ◌>>◌}

abbrev pub Text : Type 0
Text = List ℕ

unfoldable pub same_text : Text → Text → Bool
same_text [] [] = true
same_text (a ∷ as_) (b ∷ bs) = a == b && same_text as_ bs
same_text _ _ = false

abbrev pub is_letter : ℕ → Bool
is_letter c = leb 65 c && leb c 90 || leb 97 c && leb c 122 || c == b'_'

abbrev pub is_word : ℕ → Bool
is_word c = is_letter c || leb 48 c && leb c 57

-- `/^[A-Za-z_][A-Za-z0-9_]{0,127}$/`
unfoldable pub is_key : Text → Bool
is_key [] = false
is_key (c ∷ cs) = is_letter c && (all is_word cs && leb (length cs) 127)

abbrev pub environment_key : Text → Result Text
environment_key value =
    fail_if (not (is_key value)) 400 "Invalid environment variable name" >> ok value

pub record Variable : Type 0 where
  pub project_id : ℕ
  pub key : Text
  -- missing in old rows
  pub value_size : Option ℕ
  pub sealed_length : ℕ
  pub value_encrypted : ℕ

abbrev pub size_of : Variable → ℕ
size_of v = elim v.value_size [ none ↦ v.sealed_length | some n ↦ n ]

abbrev pub is_row : ℕ → Text → Variable → Bool
is_row project key v = v.project_id == project && same_text v.key key

-- `store.put("environment", ...)` and `store.delete("environment", ...)`
unfoldable pub put_row : Variable → List Variable → List Variable
put_row v [] = v ∷ []
put_row v (w ∷ rows) = if is_row v.project_id v.key w then v ∷ rows else w ∷ put_row v rows

unfoldable pub delete_row : ℕ → Text → List Variable → List Variable
delete_row project key [] = []
delete_row project key (w ∷ rows) =
    if is_row project key w then rows else w ∷ delete_row project key rows

abbrev pub total_size : List Variable → ℕ
total_size [] = 0
total_size (v ∷ rows) = size_of v + total_size rows

-- The project's other variables.
abbrev pub is_other : ℕ → Text → Variable → Bool
is_other project key v = v.project_id == project && not (same_text v.key key)

pub record Input : Type 0 where
  pub key : Text
  pub size : ℕ
  pub has_nul : Bool
  pub value : ℕ

abbrev pub exceeds : ℕ → ℕ → List Variable → Bool
exceeds project size others = leb 128 (length others) || ltb 131072 (total_size others + size)

-- Up to the encryption.
unfoldable pub check_variable : ℕ → Input → List Variable → Result Text
check_variable project input rows = environment_key input.key >>= λ name.
    fail_if (ltb 16384 input.size || input.has_nul) 400 "Use an environment value under 16 KiB"
    >> (fail_if (exceeds project input.size (filter (is_other project name) rows)) 400
          "Project environment is limited to 128 variables and 128 KiB"
        >> ok name)

abbrev pub row_for : ℕ → Input → Text → ℕ → ℕ → Variable
row_for project input name sealed sealed_length = record {
  project_id = project;
  key = name;
  value_size = some input.size;
  sealed_length = sealed_length;
  value_encrypted = sealed;
}

-- The encryption is awaited: it gives the sealed text with its length, and the rows found then.
abbrev pub Seal : Type 0
Seal = ℕ → List Variable → (ℕ × ℕ) × List Variable

abbrev pub write_variable :
    ℕ → Input → Text → (ℕ × ℕ) × List Variable → Result (Unit {0}) × List Variable
write_variable project input name ((sealed, sealed_length), rows) =
    (ok tt, put_row (row_for project input name sealed sealed_length) rows)

abbrev pub put_checked :
    Seal → ℕ → Input → Result Text → List Variable → Result (Unit {0}) × List Variable
put_checked seal project input (err e) rows = (err e, rows)
put_checked seal project input (ok name) rows =
    write_variable project input name (seal input.value rows)

-- `PUT /api/projects/:id/environment`
unfoldable pub put_variable : Seal → ℕ → Input → List Variable → Result (Unit {0}) × List Variable
put_variable seal project input rows =
    put_checked seal project input (check_variable project input rows) rows

-- `DELETE /api/projects/:id/environment/:key`
unfoldable pub delete_variable : ℕ → Text → List Variable → Result (Unit {0}) × List Variable
delete_variable project key rows = elim (environment_key key) [
  | err e ↦ (err e, rows)
  | ok name ↦ (ok tt, delete_row project name rows)
]
