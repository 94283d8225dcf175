-- ===== src/Runtime/Backups/Retention.antt =====
-- Retention (apps/control-cloud/src/runtime/backups.ts) keeps what restorations need.
use personal_cloud.Prelude.{
  ℕ, ◌≡◌, refl, Bool, true, false, some, List, [], ◌∷◌, arith, any, if◌then◌else◌,
}
use personal_cloud.Store.Laws.{get-put}
use personal_cloud.Runtime.Backups.State.{
  Kind, backup, restore, expiring, Backup, Policy, World, find_backup, save_backup, backup_id,
  is_active, is_restoring,
}
use personal_cloud.Runtime.Backups.Retain.{retire_copy, retire_copies, surplus, retain}
use personal_cloud.Runtime.Backups.Changes.{SourceFor}
use personal_cloud.Runtime.Backups.Sound.{IsExclusive, IsSourced, any-get}

-- An operation that is over replaces the one of its identity, which no restoration needs.
module _ (w : World) (c : Backup) (over : is_active c.status ≡ false)
    (unused : any (is_restoring c.id) w.backups ≡ false) where
  abbrev after : World
  after = save_backup c w

  earlier :
      (i : ℕ) (a : Backup)
      → find_backup i after ≡ some a
      → is_active a.status ≡ true
      → find_backup i w ≡ some a
  earlier i a g h = ground (arith, get-put backup_id i (record c { updated_at = w.now }) w.backups)

  later :
      (i : ℕ) (a s : Backup)
      → find_backup i w ≡ some a
      → is_active a.status ≡ true
      → a.source_backup_id ≡ some s.id
      → find_backup s.id w ≡ some s
      → find_backup s.id after ≡ some s
  later i a s g h e gs = ground (
    arith,
    get-put backup_id s.id (record c { updated_at = w.now }) w.backups,
    any-get (is_restoring c.id) i a w.backups unused g,
  )

  after-IsExclusive : IsExclusive w → IsExclusive after
  after-IsExclusive h i j a b ga gb aa ab e =
      h i j a b (earlier i a ga aa) (earlier j b gb ab) aa ab e

  after-SourceFor :
      (kind : Kind) (i : ℕ) (a : Backup)
      → find_backup i w ≡ some a
      → is_active a.status ≡ true
      → SourceFor kind w.backups a.database_id a.source_backup_id
      → SourceFor kind after.backups a.database_id a.source_backup_id
  after-SourceFor backup i a g h s = tt
  after-SourceFor restore i a g h (s, e, gs, good) = (s, e, later i a s g h e gs, good)

  after-IsSourced : IsSourced w → IsSourced after
  after-IsSourced h i a ga aa =
      let g = earlier i a ga aa in after-SourceFor a.kind i a g aa (h i a g aa)

-- Both at once.
abbrev pub IsSound : World → Type 0
IsSound w = IsExclusive w × IsSourced w

retire_test-IsSound :
    (b : Backup) (w : World) (t : Bool)
    → any (is_restoring b.id) w.backups ≡ t
    → IsSound w
    → IsSound (if t then w else save_backup (record b { status = expiring }) w)
retire_test-IsSound b w true e h = h
retire_test-IsSound b w false e h =
    let c : Backup = record b { status = expiring } in
    (after-IsExclusive w c refl e h.0, after-IsSourced w c refl e h.1)

retire_copy-IsSound : (b : Backup) (w : World) → IsSound w → IsSound (retire_copy b w)
unfolding retire_copy
retire_copy-IsSound b w h = retire_test-IsSound b w (any (is_restoring b.id) w.backups) refl h

retire_copies-IsSound : (bs : List Backup) (w : World) → IsSound w → IsSound (retire_copies bs w)
unfolding retire_copies
retire_copies-IsSound [] w h = h
retire_copies-IsSound (b ∷ bs) w h =
    retire_copies-IsSound bs (retire_copy b w) (retire_copy-IsSound b w h)

pub retain-IsSound : (p : Policy) (w : World) → IsSound w → IsSound (retain p w)
unfolding retain
retain-IsSound p w h = retire_copies-IsSound (surplus p w) w h
