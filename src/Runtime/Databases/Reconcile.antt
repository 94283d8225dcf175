-- ===== src/Runtime/Databases/Reconcile.antt =====
-- `remove` and `reconcileDatabase` of apps/control-cloud/src/runtime/database.ts: one pass of the alarm
-- over one database.
use personal_cloud.Prelude.{
  ℕ, ◌-◌, Bool, true, false, not, ◌&&◌, ◌||◌, Option, none, some, List, [], ◌∷◌, ltb, leb, ◌==◌,
  if◌then◌else◌, filter,
}
use personal_cloud.Prelude.Outcome.{Error, Result, ok, err}
use personal_cloud.Store.{put, delete}
use personal_cloud.Runtime.Deploy.State.{code, is_pending, safe_error}
use personal_cloud.Runtime.Databases.State.{
  degraded, failed, Phase, probe_cleanup, ready, deletion, failure, Database, Binding, Volume,
  database_removed, World, database_id, service_of, volume_id, this, find_database, save, emit,
  is_waiting, is_deletion, Run, M, throw,
}
use personal_cloud.Runtime.Databases.Phases.{Platform, run_phase}

abbrev pub volume_of : ℕ → Database → Volume
volume_of now d = record {
  id = d.id;
  project_id = d.project_id;
  machine_id = d.machine_id;
  nomad_node_id = d.nomad_node_id;
  volume_name = d.volume_name;
  connection_encrypted = d.connection_encrypted;
  deleted_at = now;
}

-- The loop over the bindings of a database.
unfoldable pub unbind_all : List Binding → List Binding → List Binding
unbind_all [] bindings = bindings
unbind_all (b ∷ rest) bindings = unbind_all rest (delete service_of b.service_id bindings)

-- The transaction of `remove`.
unfoldable pub removal : Database → World → World
removal d w = emit (database_removed d.id) record w {
  retained_volumes = put volume_id (volume_of w.now d) w.retained_volumes;
  bindings = unbind_all (filter (λ (b : Binding). b.database_id == d.id) w.bindings) w.bindings;
  policies = delete this d.id w.policies;
  databases = delete database_id d.id w.databases;
}

-- The document is gone, or its deletion was asked for after the copy was made.
abbrev pub is_deleted : Option Database → Phase → Bool
is_deleted none phase = true
is_deleted (some c) phase = is_deletion c.phase && not (is_deletion phase)

unfoldable pub is_lost : Database → World → Bool
is_lost d w = is_deleted (find_database d.id w) d.phase

abbrev pub keeps_phase : Phase → Bool
keeps_phase deletion = true
keeps_phase probe_cleanup = true
keeps_phase _ = false

abbrev pub is_ready : Phase → Bool
is_ready ready = true
is_ready _ = false

abbrev pub failed_doc : Error → Database → Database
failed_doc e d =
    if is_ready d.phase
    then record d { status = degraded; error = some (safe_error e) }
    else record d { status = failed; error = some (safe_error e); phase = failure }

-- The `catch` block.
unfoldable pub settle_error : Error → Run → World
settle_error e r =
    if is_pending e || is_lost r.doc r.world
    then r.world
    else if keeps_phase r.doc.phase
    then save record r.doc { error = some (safe_error e) } r.world
    else if leb 500 (code e) && ltb (r.world.now - r.doc.operation_started_at) 300000
    then r.world
    else save (failed_doc e r.doc) r.world

unfoldable pub settle : Result (Unit {0}) × Run → World
settle (ok _, r) =
    if is_deletion r.doc.phase
    then removal r.doc r.world
    else if is_lost r.doc r.world
    then r.world
    else save r.doc r.world
settle (err e, r) = settle_error e r

unfoldable pub attempt : Platform → M (Unit {0})
attempt p r =
    if is_waiting r.doc.status && ltb 300000 (r.world.now - r.doc.operation_started_at)
    then throw 409 "Database health verification exceeded its deadline; volume preserved" r
    else run_phase p r.doc.phase r

unfoldable pub reconcile_database : Platform → Database → World → World
reconcile_database p d w = settle (attempt p record { doc = d; world = w })
