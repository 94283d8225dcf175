-- ===== src/Runtime/Backups/Requests.antt =====
-- What users and machines ask for: `backupPolicy`, `queue` and `handleBackups` of
-- apps/control-cloud/src/runtime/backups.ts. Each definition is one stretch of code between two awaits.
use personal_cloud.Prelude.{
  ℕ, ◌+◌, Bool, true, false, not, ◌&&◌, ◌||◌, Option, none, some, ltb, leb, ◌==◌, any, is_id,
  if◌then◌else◌,
}
use personal_cloud.Prelude.Outcome.{http, Result, ok, err}
use personal_cloud.Runtime.Backups.State.{
  backup, restore, queued, provisioning, expiring, Backup, Database, World, is_active, is_backup,
  is_running, is_succeeded, busy, is_restoring, save_backup, save_policy, find_backup, refuse,
  accept,
}

-- The restoration that made a database has succeeded, or nothing did.
abbrev pub is_restored : Option ℕ → World → Bool
is_restored none w = true
is_restored (some k) w = elim (find_backup k w) [ none ↦ false | some b ↦ is_succeeded b.status ]

abbrev pub new_backup : ℕ → Database → ℕ → Backup
new_backup id db now = record {
  id = id;
  kind = backup;
  database_id = db.id;
  status = queued;
  created_at = now;
  deadline = now + 1800000;
  updated_at = now;
  finished_at = none;
  machine_id = db.machine_id;
  source_backup_id = none;
  target_database_id = none;
  object_key = none;
  token_hash = none;
  checksum = none;
  size = none;
  job_id = none;
  job_encrypted = none;
  cleanup_pending = false;
  error = none;
}

-- `queue`
unfoldable pub queue_backup : ℕ → Database → World → Result (Unit {0}) × World
queue_backup id db w =
    if not (is_restored db.restore_id w)
    then refuse 409 "Restore must succeed before backing up this database" w
    else if not db.is_ready
    then refuse 409 "Database must be healthy before backing up" w
    else if busy w db.id
    then refuse 409 "A database backup or restore is already active" w
    else accept (save_backup (new_backup id db w.now) w)

-- `PUT .../policy`
unfoldable pub put_policy : ℕ → Bool → ℕ → World → Result (Unit {0}) × World
put_policy database enabled keep w =
    if leb 1 keep && leb keep 30
    then accept (
        save_policy
          record { id = database; is_enabled = enabled; keep = keep; next_at = w.now; error = none }
          w)
    else refuse 400 "Choose daily backups and retain between 1 and 30 successful copies" w

-- `DELETE` of a backup of this database.
abbrev pub delete_found : ℕ → Option Backup → World → Result (Unit {0}) × World
delete_found database none w = refuse 404 "database_backup not found" w
delete_found database (some b) w =
    if not (b.database_id == database) || not (is_backup b.kind) || is_active b.status
    then refuse 409 "Choose a completed backup" w
    else if any (is_restoring b.id) w.backups
    then refuse 409 "Backup is being restored" w
    else accept (save_backup record b { status = expiring } w)

unfoldable pub delete_backup : ℕ → ℕ → World → Result (Unit {0}) × World
delete_backup database k w = delete_found database (find_backup k w) w

abbrev pub new_restore : ℕ → ℕ → ℕ → Backup → ℕ → Backup
new_restore id target machine source now = record source {
  id = id;
  kind = restore;
  source_backup_id = some source.id;
  target_database_id = some target;
  machine_id = machine;
  status = provisioning;
  created_at = now;
  deadline = now + 1800000;
  finished_at = none;
  token_hash = none;
  size = none;
  job_id = none;
  job_encrypted = none;
  cleanup_pending = false;
  error = none;
}

-- `POST .../restore`
abbrev pub restore_found : ℕ → ℕ → ℕ → ℕ → Option Backup → World → Result (Unit {0}) × World
restore_found id target machine database none w = refuse 404 "database_backup not found" w
restore_found id target machine database (some b) w =
    if not (b.database_id == database) || not (is_backup b.kind) || not (is_succeeded b.status)
    then refuse 409 "Choose a successful backup of this database" w
    else if busy w database
    then refuse 409 "A backup or restore is already active" w
    else accept (save_backup (new_restore id target machine b w.now) w)

unfoldable pub restore_backup : ℕ → ℕ → ℕ → ℕ → ℕ → World → Result (Unit {0}) × World
restore_backup id target machine database k w =
    restore_found id target machine database (find_backup k w) w

-- A transfer is allowed to the machine that holds the credential, while the operation runs.
abbrev pub transfer_errors : ℕ → ℕ → Option Backup → ℕ → Result Backup
transfer_errors machine credential none now = err (http 404 "database_backup not found")
transfer_errors machine credential (some b) now =
    if not (b.machine_id == machine) || not (is_id b.token_hash credential)
    then err (http 403 "Invalid backup transfer credential")
    else if ltb b.deadline now || not (is_running b.status)
    then err (http 409 "Backup transfer has expired")
    else ok b

unfoldable pub transfer_allowed : ℕ → ℕ → ℕ → World → Result Backup
transfer_allowed machine credential k w = transfer_errors machine credential (find_backup k w) w.now

abbrev pub backup_max : ℕ
backup_max = 104857600

-- What is stored under a key; `sha` is the checksum that the storage verified.
pub record Object : Type 0 where
  pub sha : Option ℕ
  pub size : ℕ

abbrev pub matches : Option Object → ℕ → ℕ → Bool
matches none digest size = false
matches (some o) digest size = is_id o.sha digest && o.size == size

-- Before the object is written: `ok true` where the same bytes are there already.
abbrev pub begin_known : Option ℕ → Backup → ℕ → ℕ → Result Bool
begin_known none b digest size = ok false
begin_known (some c) b digest size =
    if c == digest && is_id b.size size then ok true else err (http 409 "Backup data is immutable")

unfoldable pub begin_transfer : Backup → ℕ → ℕ → Bool → Result Bool
begin_transfer b digest size is_digest =
    if not (is_backup b.kind)
    then err (http 405 "Transfer method is not allowed")
    else if not (leb 1 size && leb size backup_max)
    then err (http 413 "Backups currently support dumps up to 100 MiB")
    else if not is_digest
    then err (http 400 "A SHA-256 checksum is required")
    else begin_known b.checksum b digest size

-- After the object is written: `persisted` is what the storage holds.
abbrev pub commit_found : Option Backup → Option Object → ℕ → ℕ → World → Result (Unit {0}) × World
commit_found none persisted digest size w = refuse 404 "database_backup not found" w
commit_found (some b) persisted digest size w =
    if is_running b.status
    then accept (save_backup record b { checksum = some digest; size = some size } w)
    else if is_succeeded b.status && is_id b.checksum digest
    then accept w
    else refuse 409 "Backup is no longer running"
        (save_backup record b { cleanup_pending = true } w)

unfoldable pub commit_transfer : ℕ → Option Object → ℕ → ℕ → World → Result (Unit {0}) × World
commit_transfer k persisted digest size w =
    if matches persisted digest size
    then commit_found (find_backup k w) persisted digest size w
    else refuse 409 "Backup object does not match this upload" w
