-- ===== src/Fleet/Network/Examples.antt =====
-- The first machine is the server; the second one gets the next address.
use personal_cloud.Prelude.{ℕ, ◌≡◌, refl, true, false, none, some, [], ◌∷◌}
use personal_cloud.Prelude.Outcome.{ok}
use personal_cloud.Store.{get, put}
use personal_cloud.Fleet.Network.{Node, node_id, max_slot, network_node}
use personal_cloud.Fleet.Network.Unique.{IsNetwork, network_node-IsNetwork}

abbrev first : Node
first = record {
  id = 11;
  slot = 2;
  high = 0;
  low = 2;
  is_server = true;
  public_key = 50;
  endpoint = none;
}

abbrev second : Node
second = record {
  id = 12;
  slot = 3;
  high = 0;
  low = 3;
  is_server = false;
  public_key = 51;
  endpoint = none;
}

one_machine : network_node 11 50 none [] ≡ ok (first ∷ [])
unfolding network_node max_slot get put
one_machine = refl

two_machines : network_node 12 51 none (first ∷ []) ≡ ok (first ∷ second ∷ [])
unfolding network_node max_slot get put
two_machines = refl

nothing_there : (i : ℕ) (a : Node) → get node_id i [] ≡ some a → {B : Type 0} → B
unfolding get
nothing_there i a g = absurd (cc)

empty-IsNetwork : IsNetwork []
empty-IsNetwork = ((λ i a g. nothing_there i a g), λ i j a b g k. nothing_there i a g)

first-IsNetwork : IsNetwork (first ∷ [])
first-IsNetwork = network_node-IsNetwork 11 50 none [] (first ∷ []) empty-IsNetwork one_machine

network_node-IsNetwork_example : IsNetwork (first ∷ second ∷ [])
network_node-IsNetwork_example =
    network_node-IsNetwork 12 51 none (first ∷ []) (first ∷ second ∷ []) first-IsNetwork
      two_machines
