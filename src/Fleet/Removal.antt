-- ===== src/Fleet/Removal.antt =====
-- The removal of a machine: `assertMachineRemovable` and `DELETE /api/machines/:machine` of
-- apps/control-cloud/src/fleet.ts. The handler checks first, then awaits that the directory forgets the
-- machine's route, and deletes the documents then.
pub mod Led
mod Examples
use personal_cloud.Prelude.{
  ℕ, ◌+◌, Bool, true, false, not, ◌&&◌, ◌||◌, Option, none, some, List, [], ◌∷◌, leb, ◌==◌, is_some,
  is_id, any, if◌then◌else◌,
}
use personal_cloud.Prelude.Outcome.{Result, ok, err, fail, fail_if, ◌>>=◌, ◌>>◌}
use personal_cloud.Store.{get, put, delete}
use personal_cloud.Fleet.Network.{Node, node_id}

-- A status that is none of these is `settled`.
pub data Status : Type 0 where
  queued running cancelling building deploying settled : Status

pub record AppleJob : Type 0 where
  pub machine_id : Option ℕ
  pub status : Status

-- A service, a database or a retained volume.
pub record Resource : Type 0 where
  pub machine_id : Option ℕ
  pub placed_on : Option ℕ

pub record Member : Type 0 where
  pub id : ℕ
  pub nomad : Bool
  pub last_seen : ℕ

pub record Retired : Type 0 where
  pub id : ℕ
  pub runtime : ℕ
  pub retired_at : ℕ

-- The collections that a removal reads or writes.
pub record Holdings : Type 0 where
  pub apple_jobs : List AppleJob
  pub databases : List Resource
  pub services : List Resource
  pub retained_volumes : List Resource
  pub domains : List ℕ
  pub push_requests : List ℕ
  pub deployments : List Status
  pub machines : List Member
  pub network_nodes : List Node
  pub runtime : Option ℕ
  pub retired_runtimes : List Retired

abbrev pub member_key : Member → ℕ
member_key m = m.id

abbrev pub retired_key : Retired → ℕ
retired_key r = r.id

abbrev pub is_working : Status → Bool
is_working queued = true
is_working running = true
is_working cancelling = true
is_working _ = false

abbrev pub is_deploying : Status → Bool
is_deploying queued = true
is_deploying building = true
is_deploying deploying = true
is_deploying _ = false

abbrev pub works_on : ℕ → AppleJob → Bool
works_on id j = is_id j.machine_id id && is_working j.status

abbrev pub is_on : ℕ → Resource → Bool
is_on id r = is_id r.machine_id id || is_id r.placed_on id

abbrev pub owns : ℕ → Holdings → Bool
owns id h =
    any (is_on id) h.databases || any (is_on id) h.services || any (is_on id) h.retained_volumes

abbrev pub serves : Option Node → Bool
serves none = false
serves (some n) = n.is_server

abbrev pub is_other_node : ℕ → Node → Bool
is_other_node id n = not (n.id == id)

abbrev pub is_other_member : ℕ → Member → Bool
is_other_member id m = not (m.id == id) && m.nomad

abbrev pub has_any : {A : Type 0} → List A → Bool
has_any [] = false
has_any (x ∷ xs) = true

abbrev pub has_peers : ℕ → Holdings → Bool
has_peers id h =
    any (is_other_node id) h.network_nodes
    || any (is_other_member id) h.machines
    || has_any h.services
    || has_any h.databases
    || has_any h.domains
    || has_any h.push_requests
    || any is_deploying h.deployments

-- What the coordinator has to meet besides.
abbrev pub coordinator_check : ℕ → Member → Holdings → Bool → Result (Unit {0})
coordinator_check now m h false = ok tt
coordinator_check now m h true = do
  fail_if (has_peers m.id h) 409 "Remove fleet peers and workloads before retiring the coordinator"
  fail_if (leb now (m.last_seen + 60000)) 409 "Stop the empty fleet coordinator before removing it"

unfoldable pub assert_machine_removable : ℕ → Member → Holdings → Result (Unit {0})
assert_machine_removable now m h = do
  fail_if (any (works_on m.id) h.apple_jobs) 409
      "Stop active Apple jobs before removing this machine"
  fail_if (owns m.id h) 409 "Machine owns persistent workloads"
  coordinator_check now m h (serves (get node_id m.id h.network_nodes))

abbrev pub retired_with : ℕ → ℕ → Option ℕ → List Retired → List Retired
retired_with now id none rs = rs
retired_with now id (some r) rs =
    put retired_key (record { id = id; runtime = r; retired_at = now }) rs

abbrev pub retire_if : Bool → ℕ → ℕ → Holdings → Holdings
retire_if false now id h = h
retire_if true now id h = record h {
  retired_runtimes = retired_with now id h.runtime h.retired_runtimes;
  runtime = none;
}

abbrev pub without : ℕ → Holdings → Holdings
without id h = record h {
  machines = delete member_key id h.machines;
  network_nodes = delete node_id id h.network_nodes;
}

-- The documents are deleted once the directory has answered.
unfoldable pub remove_machine : ℕ → ℕ → Holdings → Holdings
remove_machine now id h = without id (retire_if (serves (get node_id id h.network_nodes)) now id h)
