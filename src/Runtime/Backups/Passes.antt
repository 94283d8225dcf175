-- ===== src/Runtime/Backups/Passes.antt =====
-- What the alarm does with each backup and policy: `reconcileBackups` of
-- apps/control-cloud/src/runtime/backups.ts. Each definition is one stretch of code between two awaits;
-- what the awaits gave is an argument.
use personal_cloud.Prelude.{
  ℕ, ◌+◌, String, Bool, true, false, not, ◌&&◌, ◌||◌, Option, none, some, ltb, ◌==◌, is_some,
  if◌then◌else◌,
}
use personal_cloud.Prelude.Outcome.{Error, http, pending, other, Result, ok, err}
use personal_cloud.Runtime.Backups.State.{
  Kind, backup, restore, Status, queued, provisioning, running, succeeded, failed, expiring,
  expired, Backup, Database, Policy, World, is_active, is_backup, is_running, busy, save_backup,
  save_database, save_policy, find_backup, find_database, policy_key,
}
use personal_cloud.Store.{get}
use personal_cloud.Runtime.Backups.Requests.{queue_backup, Object}

-- A policy that is due queues a backup.
abbrev pub after_queue : Policy → Result (Unit {0}) × World → World
after_queue p (ok _, v) = save_policy record p { next_at = v.now + 86400000; error = none } v
after_queue p (err e, v) =
    save_policy
      record p {
        next_at = v.now + 3600000;
        error = some "Scheduled backup could not start; database must be healthy";
      }
      v

abbrev pub run_policy : Policy → Option Database → ℕ → World → World
run_policy p none id w = w
run_policy p (some db) id w = if busy w db.id then w else after_queue p (queue_backup id db w)

abbrev pub schedule_known : Option Policy → ℕ → World → World
schedule_known none id w = w
schedule_known (some p) id w =
    if not p.is_enabled || ltb w.now p.next_at then w else run_policy p (find_database p.id w) id w

unfoldable pub schedule_policy : ℕ → ℕ → World → World
schedule_policy k id w = schedule_known (get policy_key k w.policies) id w

-- The end of the cleaning, after the job and, where need be, the object are gone; `revision` is the time
-- of the last change before.
abbrev pub clean_found : Option Backup → ℕ → World → World
clean_found none revision w = w
clean_found (some b) revision w =
    if b.updated_at == revision
    then save_backup record b { job_encrypted = none; token_hash = none; cleanup_pending = false } w
    else w

unfoldable pub finish_cleaning : ℕ → ℕ → World → World
finish_cleaning k revision w = clean_found (find_backup k w) revision w

-- The `catch` block. Only deliberate refusals are shown.
abbrev pub shown_error : Error → String
shown_error (http status message) =
    if status == 409
    then message
    else "Backup operation failed; check machine and storage connectivity"
shown_error pending = "Backup operation failed; check machine and storage connectivity"
shown_error other = "Backup operation failed; check machine and storage connectivity"

abbrev pub mark_target : Kind → Option Database → Bool → World → World
mark_target restore (some db) success w =
    save_database record db { restore_succeeded = some success } w
mark_target restore none success w = w
mark_target backup target success w = w

abbrev pub target_of : Backup → World → Option Database
target_of b w = elim b.target_database_id [ none ↦ none | some k ↦ find_database k w ]

abbrev pub failed_by : Error → World → Backup → Backup
failed_by e w b = record b {
  status = failed;
  finished_at = some w.now;
  error = some (shown_error e);
  cleanup_pending = is_some b.job_id;
}

abbrev pub fail_found : Option Backup → Error → World → World
fail_found none e w = w
fail_found (some b) e w = save_backup (failed_by e w b) (mark_target b.kind (target_of b w) false w)

unfoldable pub fail_backup : ℕ → Error → World → World
fail_backup k e w = fail_found (find_backup k w) e w

-- Nothing but the alarm writes an operation that waits to start. From `queued` to `running`: the credential and the job are sealed by then.
abbrev pub started : Database → ℕ → ℕ → ℕ → ℕ → Backup → Backup
started db job key token sealed b = record b {
  job_id = some job;
  object_key = elim b.object_key [ none ↦ some key | some k ↦ some k ];
  machine_id = db.machine_id;
  token_hash = some token;
  job_encrypted = some sealed;
  status = running;
}

abbrev pub may_start : Status → Bool
may_start queued = true
may_start provisioning = true
may_start _ = false

-- A restoration waits for its own database, which is created while it provisions; a backup reads the
-- one it is of.
abbrev pub database_of : Backup → World → Option Database
database_of b w = if is_backup b.kind then find_database b.database_id w else target_of b w

abbrev pub start_lost : Status → Backup → World → World
start_lost provisioning b w = w
start_lost _ b w = fail_backup b.id (http 404 "database not found") w

abbrev pub start_with : Status → Backup → Database → Backup → World → World
start_with provisioning b db c w =
    if db.is_failed
    then fail_backup b.id (http 409 "Restore destination failed to become healthy") w
    else if not db.is_ready
    then w
    else save_backup c w
start_with queued b db c w =
    if not db.is_ready
    then fail_backup b.id (http 409 "Database is no longer healthy") w
    else save_backup c w
start_with _ b db c w = w

abbrev pub start_on : Backup → Option Database → ℕ → ℕ → ℕ → ℕ → World → World
start_on b none job key token sealed w = start_lost b.status b w
start_on b (some db) job key token sealed w =
    start_with b.status b db (started db job key token sealed b) w

abbrev pub start_known : Option Backup → ℕ → ℕ → ℕ → ℕ → World → World
start_known none job key token sealed w = w
start_known (some b) job key token sealed w =
    if not (may_start b.status) || b.cleanup_pending
    then w
    else if ltb b.deadline w.now
    then fail_backup b.id (http 409 "Backup operation exceeded its 30-minute deadline") w
    else start_on b (database_of b w) job key token sealed w

unfoldable pub start_backup : ℕ → ℕ → ℕ → ℕ → ℕ → World → World
start_backup k job key token sealed w = start_known (find_backup k w) job key token sealed w

pub data ClientStatus : Type 0 where
  complete broken unfinished : ClientStatus

-- What the scheduler says of the backup's job.
pub record Task : Type 0 where
  pub node : ℕ
  pub client_status : ClientStatus
  -- both tasks are dead and have not failed
  pub both_done : Bool

abbrev pub agrees : Option ℕ → ℕ → Bool
agrees none digest = true
agrees (some c) digest = c == digest

-- The object is there with the checksum that the storage verified.
abbrev pub finished : ℕ → ℕ → World → Backup → Backup
finished digest size w b = record b {
  checksum = some digest;
  size = some size;
  status = succeeded;
  finished_at = some w.now;
  cleanup_pending = true;
}

abbrev pub finish_with : Backup → Option ℕ → ℕ → World → World
finish_with b none size w =
    fail_backup b.id (http 409 "Backup object or verified checksum is missing") w
finish_with b (some digest) size w =
    if not (agrees b.checksum digest)
    then fail_backup b.id (http 409 "Backup checksum does not match") w
    else save_backup (finished digest size w b) (mark_target b.kind (target_of b w) true w)

abbrev pub finish_object : Backup → Option Object → World → World
finish_object b none w =
    fail_backup b.id (http 409 "Backup object or verified checksum is missing") w
finish_object b (some o) w = finish_with b o.sha o.size w

abbrev pub observe_end : ClientStatus → Backup → Bool → Option Object → World → World
observe_end broken b done o w =
    fail_backup b.id (http 409 "Database backup task failed; source database was not changed") w
observe_end unfinished b done o w = w
observe_end complete b done o w =
    if not done
    then fail_backup b.id (http 409 "Backup tasks did not finish successfully") w
    else finish_object b o w

abbrev pub observe_task : Backup → ℕ → Option Task → Option Object → World → World
observe_task b node none o w = w
observe_task b node (some t) o w =
    if not (t.node == node)
    then fail_backup b.id (http 409 "Backup task did not run on its selected machine") w
    else observe_end t.client_status b t.both_done o w

abbrev pub observe_on : Backup → Option Database → Option Task → Option Object → World → World
observe_on b none t o w = fail_backup b.id (http 404 "database not found") w
observe_on b (some db) t o w = observe_task b db.node t o w

abbrev pub observe_known : Option Backup → Option Task → Option Object → World → World
observe_known none t o w = w
observe_known (some b) t o w =
    if not (is_running b.status) || b.cleanup_pending
    then w
    else if ltb b.deadline w.now
    then fail_backup b.id (http 409 "Backup operation exceeded its 30-minute deadline") w
    else observe_on b (database_of b w) t o w

unfoldable pub observe_backup : ℕ → Option Task → Option Object → World → World
observe_backup k t o w = observe_known (find_backup k w) t o w

-- An await of a pass fails.
abbrev pub abort_known : Option Backup → Error → World → World
abort_known none e w = w
abort_known (some b) e w =
    if is_active b.status && not b.cleanup_pending then fail_backup b.id e w else w

unfoldable pub abort_backup : ℕ → Error → World → World
abort_backup k e w = abort_known (find_backup k w) e w

-- After the object of an expiring backup is deleted.
abbrev pub is_expiring : Status → Bool
is_expiring expiring = true
is_expiring _ = false

abbrev pub expire_known : Option Backup → World → World
expire_known none w = w
expire_known (some b) w =
    if is_expiring b.status then save_backup record b { status = expired } w else w

unfoldable pub expire_backup : ℕ → World → World
expire_backup k w = expire_known (find_backup k w) w
