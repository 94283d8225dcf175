-- ===== src/Organize/Asked.antt =====
-- What a row of `organize` (apps/control-cloud/src/project-organization.ts) keeps of an assignment.
use personal_cloud.Prelude.{
  ℕ, ◌≡◌, refl, true, none, some, List, [], ◌∷◌, inl, inr, ◌⊎◌, ◌++◌, IsIn,
}
use personal_cloud.Store.{get}
use personal_cloud.Organize.{Project, Assignment, Row, Inventory, row_key, by_name}

abbrev pub key_of : Inventory → Assignment → ℕ
key_of v a = v.resource_id a.kind a.name

-- A row keeps the choices of the assignment: an ignored resource is in no project, a project that is
-- named by its identity is the one, and one that is named by its name is a known project of that name,
-- but for upper and lower case.
abbrev pub HasRow : Inventory → (Project → Type 0) → List Row → Assignment → Type 0
HasRow v IsKnown rows a =
    (r : Row) × (get row_key (key_of v a) rows ≡ some r)
    × (r.environment ≡ a.environment)
    × (r.ignored ≡ a.ignored)
    × (a.ignored ≡ true → r.project_id ≡ none)
    × ((k : ℕ) → a.project_id ≡ some k → r.project_id ≡ some k)
    × ((n : ℕ)
        → a.project_name ≡ some n
        → (q : Project) × IsKnown q × (v.lower q.name ≡ v.lower n) × (r.project_id ≡ some q.id))

abbrev pub Grows : List Row → List Row → Type 0
Grows before after =
    (k : ℕ) (r : Row) → get row_key k before ≡ some r → get row_key k after ≡ some r

-- More rows and more known projects.
pub HasRow-Grows :
    (v : Inventory) (P Q : Project → Type 0) (before after : List Row) (a : Assignment)
    → ((q : Project) → P q → Q q)
    → Grows before after
    → HasRow v P before a
    → HasRow v Q after a
HasRow-Grows v P Q before after a f grow (r, found, e, i, unless, by_id, by_name) = (
  r,
  grow (key_of v a) r found,
  e,
  i,
  unless,
  by_id,
  λ n h. let (q, known, same, its) = by_name n h in (q, f q known, same, its),
)

pub IsIn-append : (xs ys : List Project) (q : Project) → IsIn q (xs ++ ys) → IsIn q xs ⊎ IsIn q ys
IsIn-append [] ys q m = inr m
IsIn-append (x ∷ xs) ys q (inl e) = inl (inl e)
IsIn-append (x ∷ xs) ys q (inr m) = elim (IsIn-append xs ys q m) [
  | inl h ↦ inl (inr h)
  | inr h ↦ inr h
]

pub append-IsIn : (xs ys : List Project) (q : Project) → IsIn q xs → IsIn q (xs ++ ys)
append-IsIn (x ∷ xs) ys q (inl e) = inl e
append-IsIn (x ∷ xs) ys q (inr m) = inr (append-IsIn xs ys q m)
append-IsIn [] ys q m = absurd m

pub append-last : (xs : List Project) (q : Project) → IsIn q (xs ++ (q ∷ []))
append-last [] q = inl refl
append-last (x ∷ xs) q = inr (append-last xs q)
