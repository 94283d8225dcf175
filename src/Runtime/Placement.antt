-- ===== src/Runtime/Placement.antt =====
-- Which machines an application may be built and run on: `ready` and `fits` of
-- apps/control-cloud/src/runtime/jobs.ts, `deploymentTargets` of apps/control-cloud/src/readiness.ts.
-- A node is what the scheduler reports of a machine, reduced to the fields that are tested.
pub mod Targets
mod Examples
use personal_cloud.Prelude.{
  ℕ, Bool, true, false, not, ◌&&◌, ◌||◌, Option, none, some, List, [], ◌∷◌, ◌==◌, if◌then◌else◌,
  find, filter, is_some, is_id,
}

pub data Architecture : Type 0 where
  amd64 arm64 other_architecture : Architecture

pub data Location : Type 0 where
  home vps other_location : Location

pub data Role : Type 0 where
  compute builder database : Role

pub record Node : Type 0 where
  pub id : ℕ
  pub is_ready : Bool
  pub is_eligible : Bool
  pub is_draining : Bool
  pub has_docker : Bool
  pub machine_id : Option ℕ
  pub location : Option Location
  pub runs_compute : Bool
  pub runs_builder : Bool
  pub runs_database : Bool
  pub architecture : Option Architecture

pub data Place : Type 0 where
  automatic at_home at_vps : Place
  on_machine : ℕ → Place

-- The architecture that a service asks for; a missing one and `auto` are `any_architecture`.
pub data Wanted : Type 0 where
  any_architecture : Wanted
  only : Architecture → Wanted

abbrev pub has_role : Role → Node → Bool
has_role compute n = n.runs_compute
has_role builder n = n.runs_builder
has_role database n = n.runs_database

unfoldable pub ready : Node → Role → Bool
ready n role = n.is_ready && n.is_eligible && not n.is_draining && has_role role n && n.has_docker

abbrev is_at_home : Option Location → Bool
is_at_home (some home) = true
is_at_home _ = false

abbrev is_at_vps : Option Location → Bool
is_at_vps (some vps) = true
is_at_vps _ = false

unfoldable pub fits : Node → Place → Bool
fits n automatic = true
fits n (on_machine m) = is_id n.machine_id m
fits n at_home = is_at_home n.location
fits n at_vps = is_at_vps n.location

abbrev pub same_architecture : Architecture → Architecture → Bool
same_architecture amd64 amd64 = true
same_architecture arm64 arm64 = true
same_architecture other_architecture other_architecture = true
same_architecture _ _ = false

-- `a === b` on two attributes that may be missing.
abbrev pub equal_architecture : Option Architecture → Option Architecture → Bool
equal_architecture none none = true
equal_architecture (some a) (some b) = same_architecture a b
equal_architecture _ _ = false

-- `["amd64", "arm64"].includes(...)`
abbrev pub is_supported : Option Architecture → Bool
is_supported (some amd64) = true
is_supported (some arm64) = true
is_supported _ = false

abbrev is_wanted : Wanted → Option Architecture → Bool
is_wanted any_architecture a = true
is_wanted (only a) b = equal_architecture (some a) b

unfoldable pub is_candidate : Place → Wanted → Node → Bool
unfolding ready fits
is_candidate place wanted n =
    ready n compute
    && fits n place
    && is_supported n.architecture
    && is_wanted wanted n.architecture

unfoldable pub builds_for : Node → Node → Bool
unfolding ready
builds_for target n = ready n builder && equal_architecture n.architecture target.architecture

pub record Selection : Type 0 where
  pub target : Option Node
  pub build_node : Option Node
  pub has_compute : Bool

-- The loop over the candidates.
unfoldable pub first_pair : List Node → Bool → List Node → Option (Node × Option Node)
first_pair inventory needs_build [] = none
first_pair inventory needs_build (t ∷ ts) =
    let b = find (builds_for t) inventory in
    if not needs_build || is_some b then some (t, b) else first_pair inventory needs_build ts

abbrev pub selection_of : List Node → Option (Node × Option Node) → Selection
selection_of candidates (some (t, b)) = record {
  target = some t;
  build_node = b;
  has_compute = true;
}
selection_of [] none = record { target = none; build_node = none; has_compute = false }
selection_of (c ∷ cs) none = record { target = none; build_node = none; has_compute = true }

unfoldable pub deployment_targets : List Node → Place → Wanted → Bool → Selection
unfolding first_pair
deployment_targets inventory place wanted needs_build =
    let candidates = filter (is_candidate place wanted) inventory in
    selection_of candidates (first_pair inventory needs_build candidates)
