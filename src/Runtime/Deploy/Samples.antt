-- ===== src/Runtime/Deploy/Samples.antt =====
-- A platform on which everything succeeds, a service whose release 1 runs, and release 2 in the queue.
use personal_cloud.Prelude.{true, false, none, some, [], ◌∷◌}
use personal_cloud.Prelude.Outcome.{ok, err, http}
use personal_cloud.Runtime.Placement.{Node, amd64, home, automatic, any_architecture}
use personal_cloud.Runtime.Deploy.State.{
  healthy, done, Snapshot, Deployment, Service, service_healthy, World, Run, Call,
}
use personal_cloud.Runtime.Deploy.Queue.{Wish, new_deployment}
use personal_cloud.Runtime.Deploy.Phases.{Platform, Allocation, complete, Output}
use personal_cloud.Runtime.Deploy.Release.{}
use personal_cloud.Runtime.Deploy.Cleanup.{}
use personal_cloud.Runtime.Deploy.Reconcile.{}
use personal_cloud.Runtime.Deploy.Retained.{}
use personal_cloud.Runtime.Deploy.OneActive.{}

abbrev pub machine : Node
machine = record {
  id = 1;
  is_ready = true;
  is_eligible = true;
  is_draining = false;
  has_docker = true;
  machine_id = some 11;
  location = some home;
  runs_compute = true;
  runs_builder = true;
  runs_database = false;
  architecture = some amd64;
}

abbrev pub answers : {A : Type 0} → A → Call A
answers a w = (ok a, w)

abbrev pub run_of_job : Allocation
run_of_job = record { id = 70; client_status = complete }

abbrev pub printed : Output
printed = record { text = 5; image = some 90 }

-- Everything succeeds at once, and nothing else happens.
abbrev pub platform : Platform
platform = record {
  nodes = answers (machine ∷ []);
  deployment_registry = λ d. answers record { config = 40; legacy_image_origin = none };
  seal = λ t. answers t;
  open_sealed = λ t. answers 40;
  source_token = λ k. answers 41;
  branch_head = λ k t. answers 42;
  environment = λ project s. answers 43;
  ensure_job = λ job. answers tt;
  build_allocation = λ job. answers (some run_of_job);
  stdout = λ a. answers printed;
  stderr = λ a. answers printed;
  redact_build_logs = λ d o e. answers 2;
  healthy = λ job. answers (some run_of_job);
  endpoint = λ job a. answers 80;
  machine_of = λ a. answers (some 11);
  refresh_service_domains = λ s. answers tt;
  stop_job = λ job. answers tt;
  is_repository = λ k. true;
  is_commit = λ k. true;
  is_image = λ k. true;
  is_expected = λ d config image. true;
  deploy_job = λ k. k;
  build_job = λ k. k;
  build_spec = λ d config source. 60;
  application_spec = λ d env config. 61;
  secrets_of = λ spec. 62;
  secrets_with = λ env config. 63;
}

-- The routes cannot be refreshed.
abbrev pub broken_routes : Platform
broken_routes = record platform {
  refresh_service_domains = λ s w. (err (http 502 "bad gateway"), w);
}

abbrev pub service : Service
service = record {
  id = 5;
  project_id = 6;
  status = service_healthy;
  current_deployment_id = some 1;
  promotion_deployment_id = none;
  promotion_address = none;
  address = some 79;
  machine_id = some 11;
  image_digest = some 89;
  unhealthy_since = none;
}

abbrev pub copy : Snapshot
copy = record {
  service_id = 5;
  project_id = 6;
  place = automatic;
  wanted = any_architecture;
  repository = 7;
  branch = 8;
}

abbrev pub wish : Wish
wish = record { image = none; commit_sha = none; rollback_of = none }

abbrev pub old : Deployment
old = record (new_deployment 1 0 service copy wish) {
  status = healthy;
  phase = done;
  job_id = some 1;
  previous_deployment_id = none;
}

abbrev pub fresh : Deployment
fresh = new_deployment 2 1000 service copy wish

abbrev pub world : World
world = record {
  now = 1000;
  deployments = old ∷ fresh ∷ [];
  services = service ∷ [];
  machines = 11 ∷ [];
  domains = 5 ∷ [];
  events = [];
}

abbrev pub start : Run
start = record { doc = fresh; world = world; stops = [] }
