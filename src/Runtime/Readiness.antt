-- ===== src/Runtime/Readiness.antt =====
-- What a workspace can run: `connected`, `deriveReadiness` and `observeReadiness` of
-- apps/control-cloud/src/readiness.ts, and the placement check of `servicePreflight`
-- (apps/control-cloud/src/preflight.ts). Times are in milliseconds; a text that is no date is `none`.
pub mod Pairs
pub mod Derived
pub mod Preflight
mod Examples
use personal_cloud.Prelude.{
  ℕ, ◌+◌, Bool, true, false, not, ◌&&◌, ◌||◌, Option, none, some, List, [], ◌∷◌, ◌++◌, ltb, leb,
  ◌==◌, if◌then◌else◌, length, any, all, find, filter, is_some, is_id, map,
}
use personal_cloud.Prelude.Outcome.{Result, ok, err}
use personal_cloud.Runtime.Deploy.State.{is_pending}
use personal_cloud.Runtime.Placement.{
  Node, automatic, any_architecture, compute, builder, database, ready, Selection,
  deployment_targets,
}

-- The runtime of a workspace: the machine that coordinates it, or another address.
pub data Url : Type 0 where
  agent : ℕ → Url
  address : ℕ → Url

pub record Machine : Type 0 where
  pub id : ℕ
  pub last_seen : Option ℕ
  pub created_at : Option ℕ
  -- `setup_intent === "runtime"`
  pub awaits_runtime : Bool
  pub has_docker : Bool
  pub has_nomad : Bool
  -- the report has an enabled Xcode with a simulator
  pub has_apple : Bool

pub data Contact : Type 0 where
  connected_to checking_it unreachable : Contact

pub record Observation : Type 0 where
  pub runtime : Option Url
  pub checked_at : ℕ
  pub status : Contact
  pub nodes : List Node

abbrev pub same_url : Option Url → Option Url → Bool
same_url none none = true
same_url (some (agent a)) (some (agent b)) = a == b
same_url (some (address a)) (some (address b)) = a == b
same_url _ _ = false

-- `age >= -5000 && age < 45000`
abbrev pub seen_at : Option ℕ → ℕ → Bool
seen_at none at = false
seen_at (some t) at = leb t (at + 5000) && ltb at (t + 45000)

unfoldable pub connected : Machine → ℕ → Bool
connected m at = seen_at m.last_seen at

-- A node stands for an Apple machine: `appleNode` of apple-nomad.ts, a parameter here.
pub data State : Type 0 where
  offline apple_ready checking needs_setup reporting_only usable : State

pub record Capability : Type 0 where
  pub machine_id : ℕ
  pub state : State
  pub can_run : Bool
  pub can_build : Bool
  pub can_database : Bool
  pub can_apple : Bool

pub data Blocker : Type 0 where
  github_access runtime_checking runtime_missing runtime_unreachable : Blocker
  compute_missing builder_missing service_placement service_builder_missing : Blocker

pub data Overall : Type 0 where
  all_ready still_checking blocked : Overall

pub record Readiness : Type 0 where
  pub status : Overall
  pub checked_at : Option ℕ
  pub connected_count : ℕ
  pub ready_to_run : ℕ
  pub ready_to_build : ℕ
  pub blockers : List Blocker
  pub machines : List Capability
  -- `["compute"]`, where it is not `["compute", "builder"]`
  pub recommends_compute_only : Bool

abbrev pub is_fresh : Option Url → Option Observation → ℕ → Bool
is_fresh runtime none at = false
is_fresh runtime (some o) at =
    same_url o.runtime runtime && (leb o.checked_at at && ltb at (o.checked_at + 30000))

abbrev pub is_machine : ℕ → Machine → Bool
is_machine k m = m.id == k

abbrev pub coordinator_of : List Machine → Option Url → Option Machine
coordinator_of machines none = none
coordinator_of machines (some (address a)) = none
coordinator_of machines (some (agent k)) = find (is_machine k) machines

abbrev pub is_connected : Option Machine → ℕ → Bool
is_connected none at = false
is_connected (some m) at = connected m at

abbrev pub has_status : Contact → Option Observation → Bool
has_status c none = false
has_status connected_to (some o) = elim o.status [ connected_to ↦ true | _ ↦ false ]
has_status checking_it (some o) = elim o.status [ checking_it ↦ true | _ ↦ false ]
has_status unreachable (some o) = elim o.status [ unreachable ↦ true | _ ↦ false ]

unfoldable pub is_verified : List Machine → Option Url → Option Observation → ℕ → Bool
is_verified machines runtime o at =
    is_some runtime
    && (is_connected (coordinator_of machines runtime) at
        && (is_fresh runtime o at && has_status connected_to o))

unfoldable pub is_unreachable : List Machine → Option Url → Option Observation → ℕ → Bool
is_unreachable machines runtime o at =
    is_some runtime
    && (not (is_connected (coordinator_of machines runtime) at)
        || is_fresh runtime o at && has_status unreachable o)

abbrev pub nodes_of : Option Observation → List Node
nodes_of none = []
nodes_of (some o) = o.nodes

-- The node belongs to a machine that is in contact and reports a scheduler.
abbrev pub stands_for : ℕ → Node → Machine → Bool
stands_for at n m = is_id n.machine_id m.id && (connected m at && m.has_nomad)

abbrev pub is_backed : List Machine → ℕ → Node → Bool
is_backed machines at n = any (stands_for at n) machines

unfoldable pub inventory_of : List Machine → Option Url → Option Observation → ℕ → List Node
inventory_of machines runtime o at =
    if is_verified machines runtime o at then filter (is_backed machines at) (nodes_of o) else []

abbrev pub can : Option Node → (Node → Bool) → Bool
can none test = false
can (some n) test = test n

abbrev pub is_of : ℕ → Node → Bool
is_of k n = is_id n.machine_id k

-- Setup was asked for less than fifteen minutes ago.
abbrev pub is_recent : Option ℕ → ℕ → Bool
is_recent none at = false
is_recent (some t) at = leb t at && ltb at (t + 900000)

unfoldable pub state_of : (contact apple awaiting waiting reports verified capable : Bool) → State
state_of contact apple awaiting waiting reports verified capable =
    if not contact
    then offline
    else if apple
    then apple_ready
    else if awaiting
    then (if waiting then checking else needs_setup)
    else if not reports
    then reporting_only
    else if not verified
    then checking
    else if capable
    then usable
    else needs_setup

module _ (apple_node : Node → Bool) where
  abbrev pub capability_with : Bool → ℕ → Machine → Option Node → Capability
  capability_with verified at m node =
      let can_run = can node (λ n. ready n compute) in
      let can_build = can node (λ n. ready n builder) in
      let can_database = can node (λ n. ready n database) in
      let contact = connected m at in
      let can_apple = can node apple_node && (contact && m.has_apple) in
      let awaiting = m.awaits_runtime && (not m.has_docker || not m.has_nomad) in
      record {
        machine_id = m.id;
        state =
            state_of contact can_apple awaiting (awaiting && is_recent m.created_at at)
              (m.has_docker && m.has_nomad) verified (can_run || (can_build || can_database));
        can_run = can_run;
        can_build = can_build;
        can_database = can_database;
        can_apple = can_apple;
      }

  unfoldable pub capability : Bool → ℕ → List Node → Machine → Capability
  capability verified at inventory m = capability_with verified at m (find (is_of m.id) inventory)

abbrev pub is_checking : Capability → Bool
is_checking c = elim c.state [ checking ↦ true | _ ↦ false ]

abbrev pub wants_runtime : Option Machine → Bool
wants_runtime none = false
wants_runtime (some m) = m.awaits_runtime

abbrev pub is_setting_up : List Machine → Capability → Bool
is_setting_up machines c = is_checking c && wants_runtime (find (is_machine c.machine_id) machines)

abbrev pub pair_blockers : Selection → List Blocker
pair_blockers s =
    if not s.has_compute
    then compute_missing ∷ []
    else if not (is_some s.build_node)
    then builder_missing ∷ []
    else []

-- The blockers but for GitHub.
unfoldable pub runtime_blockers :
    List Machine
    → Option Url
    → (verified unreachable : Bool) → List Node
    → List Capability
    → List Blocker
runtime_blockers machines none verified unreached inventory capabilities =
    if any (is_setting_up machines) capabilities
    then runtime_checking ∷ []
    else runtime_missing ∷ []
runtime_blockers machines (some url) verified unreached inventory capabilities =
    if not verified
    then (if unreached then runtime_unreachable ∷ [] else runtime_checking ∷ [])
    else pair_blockers (deployment_targets inventory automatic any_architecture true)

abbrev pub is_check : Blocker → Bool
is_check runtime_checking = true
is_check _ = false

abbrev pub overall : List Blocker → Overall
overall [] = all_ready
overall (b ∷ bs) = if all is_check (b ∷ bs) then still_checking else blocked

abbrev pub github_blockers : Bool → List Blocker
github_blockers true = []
github_blockers false = github_access ∷ []

abbrev pub time_of : Bool → Option Observation → Option ℕ
time_of true (some o) = some o.checked_at
time_of true none = none
time_of false o = none

abbrev pub runs : Capability → Bool
runs c = c.can_run

abbrev pub builds : Capability → Bool
builds c = c.can_build

module _ (apple_node : Node → Bool) where
  unfoldable pub derive_readiness :
      List Machine → Option Url → Option Observation → Bool → ℕ → Readiness
  derive_readiness machines runtime o github at =
      let verified = is_verified machines runtime o at in
      let inventory = inventory_of machines runtime o at in
      let capabilities = map (capability apple_node verified at inventory) machines in
      let blockers =
        github_blockers github
        ++ runtime_blockers machines runtime verified (is_unreachable machines runtime o at)
            inventory capabilities in
      record {
        status = overall blockers;
        checked_at = time_of (is_fresh runtime o at) o;
        connected_count = length (filter (λ m. connected m at) machines);
        ready_to_run = length (filter runs capabilities);
        ready_to_build = length (filter builds capabilities);
        blockers = blockers;
        machines = capabilities;
        recommends_compute_only = any builds capabilities;
      }

-- What `observeReadiness` reads and writes.
pub record World : Type 0 where
  pub now : ℕ
  pub runtime : Option Url
  pub observation : Option Observation

abbrev pub observed : ℕ → Option Url → Result (List Node) → Observation
observed now runtime (ok nodes) = record {
  runtime = runtime;
  checked_at = now;
  status = connected_to;
  nodes = nodes;
}
observed now runtime (err e) = record {
  runtime = runtime;
  checked_at = now;
  status = if is_pending e then checking_it else unreachable;
  nodes = [];
}

-- A coordinator that was replaced while the scheduler answered does not get the observation.
abbrev pub keep_observation : Option Url → Result (List Node) × World → World
keep_observation runtime (answer, w) =
    if same_url w.runtime runtime
    then record w { observation = some (observed w.now runtime answer) }
    else w

unfoldable pub observe_readiness : (World → Result (List Node) × World) → World → World
observe_readiness nodes w = elim w.runtime [
  | none ↦ w
  | some url ↦ keep_observation (some url) (nodes w)
]
