-- ===== src/Fleet/Removal/Examples.antt =====
-- A fleet of two machines: the second one may go, the coordinator may not before.
use personal_cloud.Prelude.{ℕ, ◌+◌, ◌≡◌, refl, inr, true, false, none, some, [], ◌∷◌}
use personal_cloud.Prelude.Outcome.{ok, fail}
use personal_cloud.Store.{get, delete}
use personal_cloud.Fleet.Network.{Node}
use personal_cloud.Fleet.Removal.{Member, Holdings, assert_machine_removable, remove_machine}
use personal_cloud.Fleet.Removal.Led.{IsLed, remove_machine-IsLed}

abbrev node : ℕ → Node
node id = record {
  id = id;
  slot = id;
  high = 0;
  low = id;
  is_server = false;
  public_key = 40 + id;
  endpoint = none;
}

abbrev leader : Node
leader = record (node 2) { is_server = true }

abbrev member : ℕ → Member
member id = record { id = id; nomad = true; last_seen = 1000 }

abbrev two : Holdings
two = record {
  apple_jobs = [];
  databases = [];
  services = record { machine_id = some 2; placed_on = none } ∷ [];
  retained_volumes = [];
  domains = [];
  push_requests = [];
  deployments = [];
  machines = member 2 ∷ member 3 ∷ [];
  network_nodes = leader ∷ node 3 ∷ [];
  runtime = some 8;
  retired_runtimes = [];
}

abbrev one : Holdings
one = record two { services = []; machines = member 2 ∷ []; network_nodes = leader ∷ [] }

second_may_go : assert_machine_removable 5000 (member 3) two ≡ ok tt
unfolding assert_machine_removable get
second_may_go = refl

leader_owns :
    assert_machine_removable 5000 (member 2) two ≡ fail 409 "Machine owns persistent workloads"
unfolding assert_machine_removable
leader_owns = refl

leader_is_seen :
    assert_machine_removable 5000 (member 2) one
    ≡ fail 409 "Stop the empty fleet coordinator before removing it"
unfolding assert_machine_removable get
leader_is_seen = refl

leader_may_go : assert_machine_removable 61001 (member 2) one ≡ ok tt
unfolding assert_machine_removable get
leader_may_go = refl

-- A machine that entered the network while the directory was awaited is left without a coordinator.
left_alone :
    (remove_machine 62000 2 (record one { network_nodes = leader ∷ node 3 ∷ [] })).network_nodes
    ≡ node 3 ∷ []
unfolding remove_machine get delete
left_alone = refl

two-IsLed : IsLed two.network_nodes
unfolding get
two-IsLed = ((refl, (refl, tt)), inr refl)

remove_machine-IsLed_example : IsLed (remove_machine 6000 3 two).network_nodes
remove_machine-IsLed_example =
    remove_machine-IsLed 5000 6000 (member 3) two two second_may_go refl two-IsLed
