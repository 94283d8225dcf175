-- ===== src/Runtime/Databases/Requests.antt =====
-- What users ask for: `bind`, `createDatabase`, `attachDatabase`, `retryDatabase` and `removeDatabase` of
-- apps/control-cloud/src/runtime/database.ts, and the detaching of apps/control-cloud/src/runtime.ts. The
-- inventory of the scheduler and the encryption are parameters.
use personal_cloud.Prelude.{
  ℕ, Bool, true, false, not, ◌&&◌, ◌||◌, Option, none, some, List, [], ◌∷◌, ltb, ◌==◌, length,
  if◌then◌else◌, is_id, is_some, any, find,
}
use personal_cloud.Prelude.Outcome.{Result, ok, err, fail_if, or_fail, ◌>>=◌, ◌>>◌}
use personal_cloud.Store.{put, delete}
use personal_cloud.Runtime.Placement.{Node, database, ready}
use personal_cloud.Runtime.Backups.State.{
  Status, expiring, Backup, is_active, is_backup, is_succeeded,
}
use personal_cloud.Runtime.Databases.State.{
  Health, waiting, degraded, failed, unavailable, deleting, submit, retry, deletion, Database,
  Binding, World, service_of, find_database, find_binding, find_service, find_restore, save, emit,
  database_queued, is_deleting, Call,
}

-- The restoration that makes the database has succeeded, or nothing does.
abbrev pub is_restored : Option ℕ → World → Bool
is_restored none w = true
is_restored (some k) w = elim (find_restore k w) [ none ↦ false | some b ↦ is_succeeded b.status ]

abbrev pub is_other : Option Binding → ℕ → Bool
is_other none id = false
is_other (some b) id = not (b.database_id == id)

abbrev pub bound : Database → ℕ → World → World
bound db service w = record w {
  bindings = put service_of record { service_id = service; database_id = db.id } w.bindings;
}

unfoldable pub bind : Database → ℕ → World → Result World
bind db service w =
    fail_if (not (is_restored db.restore_id w)) 409
      "Wait for a successful restore before attaching this database"
    >> (or_fail (find_service service w) 404 "service not found" >>= λ s.
        fail_if (not (s.project_id == db.project_id)) 400
          "Attach services from this database project"
        >> (fail_if (is_other (find_binding service w) db.id) 409
              "Service already has a database attached"
            >> (fail_if (is_deleting db.status) 409 "Database is being removed"
                >> ok (bound db service w))))

unfoldable pub bind_all : Database → List ℕ → World → Result World
bind_all db [] w = ok w
bind_all db (service ∷ rest) w = bind db service w >>= bind_all db rest

pub record Input : Type 0 where
  pub project_id : ℕ
  -- `none`: `text` refuses it
  pub name : Option ℕ
  pub service_ids : List ℕ
  pub machine_id : Option ℕ

pub record Platform : Type 0 where
  pub nodes : Call (List Node)
  pub open_connection : ℕ → Call ℕ
  pub seal_connection : ℕ → Call ℕ
  pub seal_job : ℕ → ℕ → Call ℕ
  -- the address of a database that is still to be placed
  pub pending_uri : ℕ → ℕ
  pub volume_for : ℕ → ℕ
  pub job_for : ℕ → ℕ
  pub fresh_id : World → ℕ

abbrev pub is_chosen : Option ℕ → Node → Bool
is_chosen none n = ready n database
is_chosen (some m) n = ready n database && is_id n.machine_id m

-- A request: an answer, and the workspace it leaves.
abbrev pub Answer : Type 0
Answer = Result (Unit {0}) × World

-- A transaction that is refused leaves no trace.
abbrev pub commit : Result World → World → Answer
commit (ok v) w = (ok tt, v)
commit (err e) w = (err e, w)

-- `await`, in a request that throws what the call throws.
abbrev pub answered : {A : Type 0} → Result A × World → (A → World → Answer) → Answer
answered (ok a, w) next = next a w
answered (err e, w) next = (err e, w)

-- A check between two awaits.
abbrev pub checked : {A : Type 0} → Result A → World → (A → Answer) → Answer
checked (ok a) w next = next a
checked (err e) w next = (err e, w)

module _ (p : Platform) where
  abbrev pub new_database : ℕ → Option ℕ → Input → Node → ℕ → World → Database
  new_database id restore input target sealed w = record {
    id = id;
    project_id = input.project_id;
    machine_id = target.machine_id;
    nomad_node_id = target.id;
    volume_name = p.volume_for id;
    job_id = p.job_for id;
    probe_job_id = some (p.fresh_id w);
    restore_id = restore;
    status = waiting;
    phase = submit;
    operation_started_at = w.now;
    connection_encrypted = sealed;
    job_encrypted = none;
    address = none;
    port = none;
    allocation_id = none;
    last_verified_at = none;
    error = none;
  }

  -- The transaction, and the event after it.
  abbrev pub admit : Database → List ℕ → World → Answer
  admit db services w =
      commit (bind_all db services w >>= λ v. ok (emit (database_queued db.id) (save db v))) w

  abbrev pub create_on : ℕ → Option ℕ → Input → Node → World → Answer
  create_on id restore input target w =
      answered (p.seal_connection (p.pending_uri id) w) λ sealed v.
        let db = new_database id restore input target sealed w in
        answered (p.seal_job id (p.pending_uri id) v)
          λ job u. admit record db { job_encrypted = some job } input.service_ids u

  abbrev pub create_checks : Input → World → Result (Unit {0})
  create_checks input w =
      fail_if (not (any (λ k. k == input.project_id) w.projects)) 404 "project not found"
      >> (or_fail input.name 400 "Invalid text" >>= λ name.
          fail_if (ltb 100 (length input.service_ids)) 400 "Attach at most 100 services")

  abbrev pub choose_target : Input → List Node → Result Node
  choose_target input inventory =
      or_fail (find (is_chosen input.machine_id) inventory) 409
        "Choose an online database-role machine with a ready Docker scheduler node"

  abbrev pub create_with : ℕ → Option ℕ → Input → List Node → World → Answer
  create_with id restore input inventory w =
      checked (choose_target input inventory) w λ target. create_on id restore input target w

  abbrev pub create_new : ℕ → Option ℕ → Input → World → Answer
  create_new id restore input w =
      checked (create_checks input w) w λ _. answered (p.nodes w) (create_with id restore input)

  -- A reserved identity that is in use already is answered with its database.
  abbrev pub is_reserved : Bool → ℕ → World → Bool
  is_reserved reserved id w = reserved && is_some (find_database id w)

  unfoldable pub create_database : Bool → ℕ → Option ℕ → Input → World → Answer
  create_database reserved id restore input w =
      if is_reserved reserved id w then (ok tt, w) else create_new id restore input w

  -- `retryDatabase`
  abbrev pub may_retry : Health → Bool
  may_retry failed = true
  may_retry degraded = true
  may_retry unavailable = true
  may_retry _ = false

  abbrev pub equal_id : Option ℕ → Option ℕ → Bool
  equal_id none none = true
  equal_id (some a) (some b) = a == b
  equal_id _ _ = false

  abbrev pub is_original : Database → Node → Bool
  is_original db n =
      n.id == db.nomad_node_id && equal_id n.machine_id db.machine_id && ready n database

  abbrev pub retried : Database → ℕ → World → Database
  retried db job w = record db {
    job_encrypted = some job;
    status = waiting;
    phase = retry;
    operation_started_at = w.now;
    probe_job_id = some (p.fresh_id w);
    error = none;
  }

  abbrev pub retry_checks : Database → Result (Unit {0})
  retry_checks db =
      fail_if (is_deleting db.status) 409 "Database is being removed"
      >> fail_if (not (may_retry db.status)) 409 "Only failed or degraded databases can be retried"

  abbrev pub check_original : Database → List Node → Result (Unit {0})
  check_original db inventory =
      fail_if (not (any (is_original db) inventory)) 409
        "The original database machine must be healthy before retrying; volumes never relocate automatically"

  abbrev pub retry_sealed : Database → ℕ → World → Answer
  retry_sealed db job w = (ok tt, save (retried db job w) w)

  abbrev pub retry_opened : Database → ℕ → World → Answer
  retry_opened db uri w = answered (p.seal_job db.id uri w) (retry_sealed db)

  abbrev pub retry_with : Database → List Node → World → Answer
  retry_with db inventory w =
      checked (check_original db inventory) w
        λ _. answered (p.open_connection db.connection_encrypted w) (retry_opened db)

  abbrev pub retry_known : Database → World → Answer
  retry_known db w = checked (retry_checks db) w λ _. answered (p.nodes w) (retry_with db)

  unfoldable pub retry_database : ℕ → World → Answer
  retry_database id w =
      checked (or_fail (find_database id w) 404 "database not found") w λ db. retry_known db w

-- `attachDatabase`
unfoldable pub attach_database : ℕ → ℕ → World → Answer
attach_database id service w =
    commit (or_fail (find_database id w) 404 "database not found" >>= λ db. bind db service w) w

abbrev pub is_bound_to : Option Binding → ℕ → Bool
is_bound_to none id = false
is_bound_to (some b) id = b.database_id == id

unfoldable pub detach_database : ℕ → ℕ → World → World
detach_database id service w =
    if is_bound_to (find_binding service w) id
    then record w { bindings = delete service_of service w.bindings }
    else w

-- `removeDatabase`
abbrev pub is_expiring : Status → Bool
is_expiring expiring = true
is_expiring _ = false

abbrev pub is_operation_on : ℕ → Backup → Bool
is_operation_on id b = is_active b.status && (b.database_id == id || is_id b.target_database_id id)

abbrev pub is_copy_of : ℕ → Backup → Bool
is_copy_of id b =
    b.database_id == id && is_backup b.kind && (is_succeeded b.status || is_expiring b.status)

abbrev pub removing : Database → Database
removing db = record db { status = deleting; phase = deletion }

abbrev pub remove_known : Database → ℕ → World → Result World
remove_known db id w =
    fail_if (any (is_operation_on id) w.backups) 409
      "Wait for the database backup or restore to finish before removing it"
    >> (fail_if (any (is_copy_of id) w.backups) 409
          "Delete retained backup copies before removing this database"
        >> ok (save (removing db) w))

unfoldable pub remove_database : ℕ → World → Answer
remove_database id w =
    commit (or_fail (find_database id w) 404 "database not found" >>= λ db. remove_known db id w) w

-- A request, and what it leaves; a new database comes with its identity.
pub data Request : Type 0 where
  create : Bool → ℕ → Option ℕ → Input → Request
  attach_to detach_from : (id service : ℕ) → Request
  retry_of remove_of : ℕ → Request

unfoldable pub serve : Platform → Request → World → World
serve p (create reserved id restore input) w = (create_database p reserved id restore input w).1
serve p (retry_of id) w = (retry_database p id w).1
serve p (attach_to id service) w = (attach_database id service w).1
serve p (detach_from id service) w = detach_database id service w
serve p (remove_of id) w = (remove_database id w).1
