-- ===== src/Runtime/Databases/State.antt =====
-- The documents of apps/control-cloud/src/runtime/database.ts, and how the reconciliation of a database
-- runs: it holds its own copy of the document, which keeps its changes when the code throws; at an await
-- anything may happen to the workspace.
use personal_cloud.Prelude.{ℕ, String, Bool, true, false, Option, List, [], ◌∷◌, ◌++◌}
use personal_cloud.Prelude.Outcome.{http, Result, ok, err}
use personal_cloud.Store.{get, put}
use personal_cloud.Runtime.Backups.State.{Backup, backup_id}

pub data Health : Type 0 where
  waiting healthy degraded failed unavailable deleting : Health

pub data Phase : Type 0 where
  submit retry observe probe_submit probe_observe probe_cleanup ready deletion failure : Phase

-- Sealed texts and job specifications are only passed on: they are numbers.
pub record Database : Type 0 where
  pub id : ℕ
  pub project_id : ℕ
  pub machine_id : Option ℕ
  pub nomad_node_id : ℕ
  pub volume_name : ℕ
  pub job_id : ℕ
  pub probe_job_id : Option ℕ
  pub restore_id : Option ℕ
  pub status : Health
  pub phase : Phase
  pub operation_started_at : ℕ
  pub connection_encrypted : ℕ
  pub job_encrypted : Option ℕ
  pub address : Option ℕ
  pub port : Option ℕ
  pub allocation_id : Option ℕ
  pub last_verified_at : Option ℕ
  pub error : Option String

pub record Binding : Type 0 where
  pub service_id : ℕ
  pub database_id : ℕ

pub record Service : Type 0 where
  pub id : ℕ
  pub project_id : ℕ

-- A document of `retained_volumes`: the database without its phase and its job.
pub record Volume : Type 0 where
  pub id : ℕ
  pub project_id : ℕ
  pub machine_id : Option ℕ
  pub nomad_node_id : ℕ
  pub volume_name : ℕ
  pub connection_encrypted : ℕ
  pub deleted_at : ℕ

pub data Event : Type 0 where
  database_queued database_healthy database_removed : ℕ → Event

pub record World : Type 0 where
  pub now : ℕ
  pub projects : List ℕ
  pub services : List Service
  pub databases : List Database
  pub bindings : List Binding
  pub backups : List Backup
  -- the databases that have a backup policy
  pub policies : List ℕ
  pub retained_volumes : List Volume
  pub events : List Event

abbrev pub database_id : Database → ℕ
database_id d = d.id

abbrev pub service_of : Binding → ℕ
service_of b = b.service_id

abbrev pub service_key : Service → ℕ
service_key s = s.id

abbrev pub volume_id : Volume → ℕ
volume_id v = v.id

abbrev pub this : ℕ → ℕ
this k = k

abbrev pub find_database : ℕ → World → Option Database
find_database k w = get database_id k w.databases

abbrev pub find_binding : ℕ → World → Option Binding
find_binding k w = get service_of k w.bindings

abbrev pub find_service : ℕ → World → Option Service
find_service k w = get service_key k w.services

abbrev pub find_restore : ℕ → World → Option Backup
find_restore k w = get backup_id k w.backups

-- `save`
abbrev pub save : Database → World → World
save d w = record w { databases = put database_id d w.databases }

abbrev pub emit : Event → World → World
emit e w = record w { events = w.events ++ (e ∷ []) }

abbrev pub is_deleting : Health → Bool
is_deleting deleting = true
is_deleting _ = false

abbrev pub is_waiting : Health → Bool
is_waiting waiting = true
is_waiting _ = false

abbrev pub is_healthy : Health → Bool
is_healthy healthy = true
is_healthy _ = false

abbrev pub is_deletion : Phase → Bool
is_deletion deletion = true
is_deletion _ = false

-- An await: the answer, and the workspace that is found when the code goes on.
abbrev pub Call : Type 0 → Type 0
Call A = World → Result A × World

pub record Run : Type 0 where
  pub doc : Database
  pub world : World

abbrev pub M : Type 0 → Type 0
M A = Run → Result A × Run

module _ {A B : Type 0} where
  abbrev pub after : Result A × Run → (A → M B) → Result B × Run
  after (err e, r) f = (err e, r)
  after (ok a, r) f = f a r

  infixl 5 ◌>>=◌
  unfoldable pub ◌>>=◌ : M A → (A → M B) → M B
  (m >>= f) r = after (m r) f

abbrev pub throw : {A : Type 0} → ℕ → String → M A
throw status message r = (err (http status message), r)

abbrev pub await : {A : Type 0} → Call A → M A
await call r = let (a, w) = call r.world in (a, record r { world = w })

-- Statements on the copy, which may read the clock.
abbrev pub edit : (World → Database → Database) → M (Unit {0})
edit f r = (ok tt, record r { doc = f r.world r.doc })
