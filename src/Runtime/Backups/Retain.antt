-- ===== src/Runtime/Backups/Retain.antt =====
-- Which copies the alarm lets expire: the retention of `reconcileBackups` in
-- apps/control-cloud/src/runtime/backups.ts. It has no await.
use personal_cloud.Prelude.{
  ℕ, Bool, ◌&&◌, List, [], ◌∷◌, leb, ◌==◌, any, filter, drop, if◌then◌else◌,
}
use personal_cloud.Runtime.Backups.State.{
  expiring, Backup, Policy, World, is_backup, is_succeeded, is_restoring, save_backup,
}

-- The successful copies, the newest first, and what is beyond the number to keep.
abbrev pub is_copy_of : ℕ → Backup → Bool
is_copy_of database b = b.database_id == database && is_backup b.kind && is_succeeded b.status

unfoldable pub insert_newest : Backup → List Backup → List Backup
insert_newest b [] = b ∷ []
insert_newest b (c ∷ cs) =
    if leb c.created_at b.created_at then b ∷ c ∷ cs else c ∷ insert_newest b cs

unfoldable pub newest_first : List Backup → List Backup
newest_first [] = []
newest_first (b ∷ bs) = insert_newest b (newest_first bs)

unfoldable pub surplus : Policy → World → List Backup
surplus p w = drop p.keep (newest_first (filter (is_copy_of p.id) w.backups))

unfoldable pub retire_copy : Backup → World → World
retire_copy old w =
    if any (is_restoring old.id) w.backups
    then w
    else save_backup record old { status = expiring } w

unfoldable pub retire_copies : List Backup → World → World
retire_copies [] w = w
retire_copies (b ∷ bs) w = retire_copies bs (retire_copy b w)

unfoldable pub retain : Policy → World → World
retain p w = retire_copies (surplus p w) w
