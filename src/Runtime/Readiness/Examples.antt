-- ===== src/Runtime/Readiness/Examples.antt =====
-- A workspace with one server that runs and builds.
use personal_cloud.Prelude.{◌≡◌, ◌↔◌, refl, true, false, Bool, none, some, [], ◌∷◌}
use personal_cloud.Runtime.Placement.{
  Node, amd64, vps, automatic, at_home, any_architecture, is_candidate, builds_for, first_pair,
  deployment_targets, ready,
}
use personal_cloud.Runtime.Readiness.{
  Machine, Observation, agent, connected_to, all_ready, blocked, service_placement, github_access,
  runtime_missing, runtime_checking, derive_readiness, connected, is_verified, is_unreachable,
  inventory_of, runtime_blockers, capability,
}
use personal_cloud.Runtime.Readiness.Derived.{IsDeployable, derive_readiness_iff}
use personal_cloud.Runtime.Readiness.Preflight.{service_preflight}

abbrev server : Machine
server = record {
  id = 12;
  last_seen = some 1000;
  created_at = some 100;
  awaits_runtime = true;
  has_docker = true;
  has_nomad = true;
  has_apple = false;
}

abbrev node : Node
node = record {
  id = 2;
  is_ready = true;
  is_eligible = true;
  is_draining = false;
  has_docker = true;
  machine_id = some 12;
  location = some vps;
  runs_compute = true;
  runs_builder = true;
  runs_database = false;
  architecture = some amd64;
}

abbrev seen : Observation
seen = record {
  runtime = some (agent 12);
  checked_at = 2000;
  status = connected_to;
  nodes = node ∷ [];
}

abbrev no_apple : Node → Bool
no_apple n = false

derive_readiness_iff_example :
    ((derive_readiness no_apple (server ∷ []) (some (agent 12)) (some seen) true 3000).status
      ≡ all_ready)
    ↔ ((◌≡◌ {A = Bool} true true) × IsDeployable (server ∷ []) (some (agent 12)) (some seen) 3000)
derive_readiness_iff_example =
    derive_readiness_iff no_apple (server ∷ []) (some (agent 12)) (some seen) true 3000

is_ready_now :
    (derive_readiness no_apple (server ∷ []) (some (agent 12)) (some seen) true 3000).status
    ≡ all_ready
unfolding derive_readiness connected is_verified is_unreachable inventory_of runtime_blockers
    deployment_targets is_candidate builds_for first_pair
is_ready_now = refl

-- Half a minute later the observation is too old to tell.
is_checking_later :
    (derive_readiness no_apple (server ∷ []) (some (agent 12)) (some seen) true 32000).blockers
    ≡ runtime_checking ∷ []
unfolding derive_readiness connected is_verified is_unreachable inventory_of runtime_blockers
is_checking_later = refl

nothing_set_up :
    (derive_readiness no_apple [] none none false 3000).blockers
    ≡ github_access ∷ runtime_missing ∷ []
unfolding derive_readiness runtime_blockers
nothing_set_up = refl

is_admitted :
    (service_preflight
      (derive_readiness no_apple (server ∷ []) (some (agent 12)) (some seen) true 3000)
      (some seen)
      automatic
      any_architecture
      []).0
    ≡ all_ready
unfolding service_preflight derive_readiness connected is_verified is_unreachable inventory_of
    runtime_blockers deployment_targets is_candidate builds_for first_pair capability ready
is_admitted = refl

-- A service that wants a machine at home is told so.
elsewhere :
    (service_preflight
      (derive_readiness no_apple (server ∷ []) (some (agent 12)) (some seen) true 3000)
      (some seen)
      at_home
      any_architecture
      [])
    ≡ (blocked, service_placement ∷ [])
unfolding service_preflight derive_readiness connected is_verified is_unreachable inventory_of
    runtime_blockers deployment_targets is_candidate builds_for first_pair capability ready
elsewhere = refl
