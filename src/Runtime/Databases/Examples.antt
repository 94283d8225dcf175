-- ===== src/Runtime/Databases/Examples.antt =====
-- Tests and instances of the theorems on databases.
use personal_cloud.Prelude.{ℕ, ◌≡◌, refl, true, false, none, some, [], ◌∷◌, arith, ◌+◌}
use personal_cloud.Prelude.Outcome.{ok}
use personal_cloud.Store.{get, put}
use personal_cloud.Runtime.Placement.{amd64, ready}
use personal_cloud.Runtime.Databases.State.{
  waiting, failed, Phase, submit, observe, retry, Database, World, find_database, find_binding,
  Call, save, ◌>>=◌,
}
use personal_cloud.Runtime.Databases.Phases
use personal_cloud.Runtime.Databases.Requests
use personal_cloud.Runtime.Databases.Requests.{
  Input, create, serve, bind_all, bind, attach_database, create_database, retry_database,
}
use personal_cloud.Runtime.Databases.Reconcile.{
  removal, reconcile_database, settle, attempt, is_lost,
}
use personal_cloud.Runtime.Databases.Kept.{IsSafe}
use personal_cloud.Runtime.Databases.Ends.{Ends}
use personal_cloud.Runtime.Databases.Removed.{IsRemoved, removal-IsRemoved}
use personal_cloud.Runtime.Databases.Attached.{IsAttached, reconcile_database-IsAttached}
use personal_cloud.Runtime.Databases.Served.{IsQuiet, serve-IsAttached}

abbrev orders : Database
orders = record {
  id = 1;
  project_id = 7;
  machine_id = some 4;
  nomad_node_id = 40;
  volume_name = 11;
  job_id = 12;
  probe_job_id = some 13;
  restore_id = none;
  status = waiting;
  phase = submit;
  operation_started_at = 50;
  connection_encrypted = 14;
  job_encrypted = some 15;
  address = none;
  port = none;
  allocation_id = none;
  last_verified_at = none;
  error = none;
}

abbrev shop : World
shop = record {
  now = 100;
  projects = 7 ∷ [];
  services = record { id = 5; project_id = 7 } ∷ record { id = 6; project_id = 7 } ∷ [];
  databases = orders ∷ [];
  bindings = record { service_id = 5; database_id = 1 } ∷ [];
  backups = [];
  policies = 1 ∷ [];
  retained_volumes = [];
  events = [];
}

-- A scheduler that answers at once and changes nothing.
abbrev says : {A : Type 0} → A → Call A
says a w = (ok a, w)

abbrev prompt : Phases.Platform
prompt = record {
  fresh_id = λ w. 90;
  open_job = λ job. says 15;
  ensure_job = λ job. says tt;
  evaluate = λ job. says tt;
  stop_job = λ job. says tt;
  healthy = λ job. says (some record { id = 60; node = 40 });
  endpoint = λ job a. says record { address = 70; is_private = true; port = 5432 };
  open_connection = λ uri. says 14;
  seal_connection = λ uri. says 16;
  seal_job = λ job. says 17;
  connect = λ uri s. 18;
  database_probe = λ d uri. 19;
  allocations = λ job. says [];
  has_failed = λ a. says false;
  has_answered = λ a. says true;
}

prompt-IsSafe : (P : World → Type 0) → IsSafe P prompt
prompt-IsSafe P = record {
  open_job = λ job w h. h;
  ensure_job = λ job w h. h;
  evaluate = λ job w h. h;
  stop_job = λ job w h. h;
  healthy = λ job w h. h;
  endpoint = λ job a w h. h;
  open_connection = λ uri w h. h;
  seal_connection = λ uri w h. h;
  seal_job = λ job w h. h;
  allocations = λ job w h. h;
  has_failed = λ a w h. h;
  has_answered = λ a w h. h;
}

abbrev owner : ℕ → ℕ
owner k = 7

shop-IsAttached : IsAttached owner shop
unfolding get
shop-IsAttached = record {
  one_database = (refl, tt);
  one_binding = (refl, tt);
  owned = λ k d f. ground arith;
  stored = λ k b f. (orders, ground arith);
  serves = λ k b f. (record { id = 5; project_id = 7 }, (ground arith, ground arith));
}

reconcile_database-IsAttached_example : IsAttached owner (reconcile_database prompt orders shop)
reconcile_database-IsAttached_example =
    reconcile_database-IsAttached owner prompt orders shop (prompt-IsSafe (IsAttached owner)) refl
      shop-IsAttached

removal-IsRemoved_example : IsRemoved orders shop (removal orders shop)
unfolding get
removal-IsRemoved_example = removal-IsRemoved orders shop (refl, tt) (refl, tt) (refl, tt)

-- The first pass starts the job.
first_pass :
    find_database 1 (reconcile_database prompt orders shop) ≡ some record orders { phase = observe }
unfolding get put reconcile_database settle attempt Phases.run_phase Phases.submit_job is_lost ◌>>=◌
first_pass = refl

abbrev fleet : Requests.Platform
fleet = record {
  nodes = says (
      record {
        id = 40;
        is_ready = true;
        is_eligible = true;
        is_draining = false;
        has_docker = true;
        machine_id = some 4;
        location = none;
        runs_compute = true;
        runs_builder = false;
        runs_database = true;
        architecture = some amd64;
      }
      ∷ []);
  open_connection = λ uri. says 14;
  seal_connection = λ uri. says 16;
  seal_job = λ id uri. says 17;
  pending_uri = λ id. 20;
  volume_for = λ id. id + 1000;
  job_for = λ id. id + 2000;
  fresh_id = λ w. 91;
}

fleet-IsQuiet : IsQuiet (IsAttached owner) fleet
fleet-IsQuiet = record {
  nodes = λ w h. h;
  open_connection = λ uri w h. h;
  seal_connection = λ uri w h. h;
  seal_job = λ id uri w h. h;
}

abbrev wish : Input
wish = record { project_id = 7; name = some 3; service_ids = 6 ∷ []; machine_id = none }

serve-IsAttached_example : IsAttached owner (serve fleet (create false 2 none wish) shop)
serve-IsAttached_example =
    serve-IsAttached owner fleet fleet-IsQuiet (create false 2 none wish) shop refl shop-IsAttached

-- The new database is bound to the second service.
created :
    find_binding 6 (serve fleet (create false 2 none wish) shop)
    ≡ some record { service_id = 6; database_id = 2 }
unfolding serve get put bind_all bind create_database ready
created = refl

abbrev attached : World
attached = record shop {
  bindings =
      record { service_id = 5; database_id = 1 } ∷ record { service_id = 6; database_id = 1 } ∷ [];
}

attach_shop : attach_database 1 6 shop ≡ (ok tt, attached)
unfolding attach_database bind get put
attach_shop = refl

-- A removal that is accepted while a retry waits for the inventory is overwritten by the retry.
abbrev broken_db : Database
broken_db = record orders { status = failed; phase = Phase.failure }

abbrev removed_meanwhile : Requests.Platform
removed_meanwhile = record fleet {
  nodes = λ w. ((fleet.nodes w).0, (Requests.remove_database 1 w).1);
}

retry_undoes_removal :
    find_database 1 (retry_database removed_meanwhile 1 (save broken_db shop)).1
    ≡ some record broken_db {
      status = waiting;
      phase = retry;
      operation_started_at = 100;
      probe_job_id = some 91;
      job_encrypted = some 17;
    }
unfolding retry_database Requests.remove_database get put ready
retry_undoes_removal = refl
