-- ===== src/Runtime/Backups/State.antt =====
-- The documents of apps/control-cloud/src/runtime/backups.ts.
use personal_cloud.Prelude.{ℕ, String, Bool, true, false, ◌&&◌, Option, List, ◌==◌, any, is_id}
use personal_cloud.Prelude.Outcome.{http, Result, ok, err}
use personal_cloud.Store.{get, put}

pub data Kind : Type 0 where
  backup restore : Kind

pub data Status : Type 0 where
  queued provisioning running succeeded failed expiring expired : Status

-- A backup, or the restoration of one. Keys, digests and sealed texts are only compared.
pub record Backup : Type 0 where
  pub id : ℕ
  pub kind : Kind
  pub database_id : ℕ
  pub status : Status
  pub created_at : ℕ
  pub deadline : ℕ
  pub updated_at : ℕ
  pub finished_at : Option ℕ
  pub machine_id : ℕ
  pub source_backup_id : Option ℕ
  pub target_database_id : Option ℕ
  pub object_key : Option ℕ
  pub token_hash : Option ℕ
  pub checksum : Option ℕ
  pub size : Option ℕ
  pub job_id : Option ℕ
  pub job_encrypted : Option ℕ
  pub cleanup_pending : Bool
  pub error : Option String

pub record Database : Type 0 where
  pub id : ℕ
  pub machine_id : ℕ
  pub node : ℕ
  -- `status === "healthy" && phase === "ready"`
  pub is_ready : Bool
  pub is_failed : Bool
  pub restore_id : Option ℕ
  pub restore_succeeded : Option Bool

pub record Policy : Type 0 where
  pub id : ℕ
  pub is_enabled : Bool
  pub keep : ℕ
  pub next_at : ℕ
  pub error : Option String

pub record World : Type 0 where
  pub now : ℕ
  pub backups : List Backup
  pub databases : List Database
  pub policies : List Policy

abbrev pub backup_id : Backup → ℕ
backup_id b = b.id

abbrev pub database_key : Database → ℕ
database_key d = d.id

abbrev pub policy_key : Policy → ℕ
policy_key p = p.id

-- `ACTIVE.has(status)`
abbrev pub is_active : Status → Bool
is_active queued = true
is_active provisioning = true
is_active running = true
is_active _ = false

abbrev pub is_backup : Kind → Bool
is_backup backup = true
is_backup restore = false

abbrev pub is_running : Status → Bool
is_running running = true
is_running _ = false

abbrev pub is_succeeded : Status → Bool
is_succeeded succeeded = true
is_succeeded _ = false

abbrev pub is_active_on : ℕ → Backup → Bool
is_active_on database b = b.database_id == database && is_active b.status

unfoldable pub busy : World → ℕ → Bool
busy w database = any (is_active_on database) w.backups

-- An active restoration of this backup.
abbrev pub is_restoring : ℕ → Backup → Bool
is_restoring source b = is_id b.source_backup_id source && is_active b.status

-- `save`
abbrev pub save_backup : Backup → World → World
save_backup b w = record w { backups = put backup_id record b { updated_at = w.now } w.backups }

abbrev pub save_database : Database → World → World
save_database d w = record w { databases = put database_key d w.databases }

abbrev pub save_policy : Policy → World → World
save_policy p w = record w { policies = put policy_key p w.policies }

abbrev pub find_backup : ℕ → World → Option Backup
find_backup k w = get backup_id k w.backups

abbrev pub find_database : ℕ → World → Option Database
find_database k w = get database_key k w.databases

-- The end of a request: an answer, and the workspace.
abbrev pub refuse : ℕ → String → World → Result (Unit {0}) × World
refuse status message w = (err (http status message), w)

abbrev pub accept : World → Result (Unit {0}) × World
accept w = (ok tt, w)
