-- ===== src/Runtime/Backups/Changes.antt =====
-- What one stretch of code may do to the operations (apps/control-cloud/src/runtime/backups.ts), and the
-- rules that follow the code.
use personal_cloud.Prelude.{
  ℕ, ◌≡◌, refl, ap, Bool, true, false, Option, none, some, List, arith, inl, inr, if◌then◌else◌,
  any, ◌==◌, Bool-cases,
}
use personal_cloud.Store.{get}
use personal_cloud.Store.Laws.{get-key, get-put}
use personal_cloud.Runtime.Backups.State.{
  Kind, backup, restore, Backup, World, find_backup, save_backup, backup_id, is_active, busy,
  is_succeeded, is_restoring,
}

abbrev pub SameData : Backup → Backup → Type 0
SameData b c = (c.checksum ≡ b.checksum) × (c.size ≡ b.size) × (c.object_key ≡ b.object_key)

-- An operation goes from `b` to `c` in the workspace `w`: it never becomes active again, a successful
-- copy stays successful while it is being restored, and the data of a finished one stay.
abbrev pub Moves : World → Backup → Backup → Type 0
Moves w b c =
    (c.id ≡ b.id)
    × (c.kind ≡ b.kind)
    × (c.database_id ≡ b.database_id)
    × (c.source_backup_id ≡ b.source_backup_id)
    × (is_active c.status ≡ true → is_active b.status ≡ true)
    × (is_succeeded b.status ≡ true
        → is_succeeded c.status ≡ false
        → any (is_restoring b.id) w.backups ≡ false)
    × (is_active b.status ≡ false → SameData b c)

-- The source of a restoration is a successful copy of the same database.
abbrev pub IsSource : ℕ → Backup → Type 0
IsSource database s =
    (s.kind ≡ backup) × (s.database_id ≡ database) × (is_succeeded s.status ≡ true)

abbrev pub SourceFor : Kind → List Backup → ℕ → Option ℕ → Type 0
SourceFor backup bs database source = Unit
SourceFor restore bs database source =
    (s : Backup) × (source ≡ some s.id) × (get backup_id s.id bs ≡ some s) × IsSource database s

abbrev pub HasSource : List Backup → Backup → Type 0
HasSource bs b = SourceFor b.kind bs b.database_id b.source_backup_id

-- A new operation, which is among `bs` afterwards.
abbrev pub Starts : ℕ → World → List Backup → Backup → Type 0
Starts n w bs b = (b.id ≡ n) × (busy w b.database_id ≡ false) × HasSource bs b

-- Operations are changed or, under the new identity `n`, made; none is lost.
abbrev pub Rel : ℕ → World → List Backup → ℕ → Option Backup → Option Backup → Type 0
Rel n w bs j none none = Unit
Rel n w bs j none (some c) = (j ≡ n) × Starts n w bs c
Rel n w bs j (some b) none = true ≡ false
Rel n w bs j (some b) (some c) = Moves w b c

unfoldable pub Change : ℕ → World → World → Type 0
Change n w v = (j : ℕ) → Rel n w v.backups j (find_backup j w) (find_backup j v)

module _ (n : ℕ) (w : World) where
  Moves-refl : (b : Backup) → Moves w b b
  Moves-refl b = (refl, refl, refl, refl, (λ h. h), (λ h k. absurd (cc)), λ h. (refl, refl, refl))

  Rel-refl : (bs : List Backup) (j : ℕ) (o : Option Backup) → Rel n w bs j o o
  Rel-refl bs j none = tt
  Rel-refl bs j (some b) = Moves-refl b

  -- The operations are as they were.
  pub same : (v : World) → v.backups ≡ w.backups → Change n w v
  unfolding Change
  same v h j =
      let kept : find_backup j v ≡ find_backup j w = ap (λ bs. get backup_id j bs) h in
      rw kept (Rel-refl v.backups j (find_backup j w))

  abbrev stored : Backup → World → Backup
  stored c v = record c { updated_at = v.now }

  pub saved :
      (v : World) (k : ℕ) (b c : Backup)
      → v.backups ≡ w.backups
      → find_backup k w ≡ some b
      → Moves w b c
      → Change n w (save_backup c v)
  unfolding Change
  saved v k b c h g m j = elim (Bool-cases (c.id == j)) [
    | inl t ↦
        let new : find_backup j (save_backup c v) ≡ some (stored c v) =
          ground (arith, get-put backup_id j (stored c v) v.backups) in
        let old : find_backup j w ≡ some b =
          ground (arith, get-key backup_id k b w.backups g, g, m.0) in
        rw (new, old) m
    | inr t ↦
        let kept : find_backup j (save_backup c v) ≡ find_backup j w =
          ground (arith, get-put backup_id j (stored c v) v.backups) in
        rw kept (Rel-refl (save_backup c v).backups j (find_backup j w))
  ]

  pub made :
      (c : Backup)
      → find_backup n w ≡ none
      → Starts n w (save_backup c w).backups c
      → Change n w (save_backup c w)
  unfolding Change
  made c g m j = elim (Bool-cases (c.id == j)) [
    | inl t ↦
        let new : find_backup j (save_backup c w) ≡ some (stored c w) =
          ground (arith, get-put backup_id j (stored c w) w.backups) in
        let old : find_backup j w ≡ none = ground (arith, g, m.0) in
        rw (new, old) (ground (arith, m.0), m)
    | inr t ↦
        let kept : find_backup j (save_backup c w) ≡ find_backup j w =
          ground (arith, get-put backup_id j (stored c w) w.backups) in
        rw kept (Rel-refl (save_backup c w).backups j (find_backup j w))
  ]

  -- The rules for a test, and for what follows a lookup.
  pub branch :
      (b : Bool) (u v : World)
      → (b ≡ true → Change n w u)
      → (b ≡ false → Change n w v)
      → Change n w (if b then u else v)
  branch true u v h k = h refl
  branch false u v h k = k refl

  pub answer_branch :
      {A : Type 0} (b : Bool) (u v : A × World)
      → (b ≡ true → Change n w u.1)
      → (b ≡ false → Change n w v.1)
      → Change n w (if b then u else v).1
  answer_branch true u v h k = h refl
  answer_branch false u v h k = k refl

  pub nothing : Change n w w
  nothing = same w refl
