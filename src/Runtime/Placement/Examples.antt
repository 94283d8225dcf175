-- ===== src/Runtime/Placement/Examples.antt =====
-- Two machines of different architectures.
use personal_cloud.Prelude.{◌≡◌, ◌↔◌, refl, true, false, none, some, [], ◌∷◌, All}
use personal_cloud.Runtime.Placement.{
  Node, amd64, arm64, home, vps, automatic, at_vps, any_architecture, is_candidate, builds_for,
  deployment_targets,
}
use personal_cloud.Runtime.Placement.Targets.{IsUnusable, deployment_targets-none_iff}

abbrev laptop : Node
laptop = record {
  id = 1;
  is_ready = true;
  is_eligible = true;
  is_draining = false;
  has_docker = true;
  machine_id = some 11;
  location = some home;
  runs_compute = true;
  runs_builder = false;
  runs_database = false;
  architecture = some arm64;
}

abbrev server : Node
server = record laptop {
  id = 2;
  machine_id = some 12;
  location = some vps;
  runs_builder = true;
  architecture = some amd64;
}

-- The laptop comes first, and has no builder.
second_is_chosen :
    (deployment_targets (laptop ∷ server ∷ []) automatic any_architecture true).target ≡ some server
unfolding deployment_targets is_candidate builds_for
second_is_chosen = refl

deployment_targets-none_iff_example :
    ((deployment_targets (laptop ∷ []) at_vps any_architecture false).target ≡ none)
    ↔ All (IsUnusable at_vps any_architecture false (laptop ∷ [])) (laptop ∷ [])
deployment_targets-none_iff_example =
    deployment_targets-none_iff (laptop ∷ []) at_vps any_architecture false
