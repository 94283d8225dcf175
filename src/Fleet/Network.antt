-- ===== src/Fleet/Network.antt =====
-- Addresses of machines in the private network: `networkNode` of apps/control-cloud/src/fleet.ts.
pub mod Unique
mod Examples
use personal_cloud.Prelude.{
  ℕ, ◌+◌, ◌/◌, ◌%◌, Bool, true, false, not, ◌&&◌, Option, none, some, List, [], ◌∷◌, ◌==◌, ltb,
  if◌then◌else◌, any, max,
}
use personal_cloud.Prelude.Outcome.{Result, ok, err, fail}
use personal_cloud.Store.{get, put}

-- The last two bytes of the address 10.77.x.y are kept.
pub record Node : Type 0 where
  pub id : ℕ
  pub slot : ℕ
  pub high : ℕ
  pub low : ℕ
  pub is_server : Bool
  pub public_key : ℕ
  pub endpoint : Option ℕ

abbrev pub node_id : Node → ℕ
node_id n = n.id

-- `Math.max(1, ...slots)`
unfoldable pub max_slot : List Node → ℕ
max_slot [] = 1
max_slot (n ∷ ns) = let rest = max_slot ns in if ltb rest n.slot then n.slot else rest

abbrev pub is_serving : Node → Bool
is_serving n = n.is_server

abbrev pub slot_for : Option Node → List Node → ℕ
slot_for none ns = max_slot ns + 1
slot_for (some n) ns = n.slot

abbrev pub serves_for : Option Node → List Node → Bool
serves_for none ns = not (any is_serving ns)
serves_for (some n) ns = n.is_server

abbrev pub has_key : ℕ → ℕ → Node → Bool
has_key id key n = not (n.id == id) && n.public_key == key

-- `slot >> 8` and `slot % 256`
abbrev pub new_node : ℕ → ℕ → Option ℕ → ℕ → Bool → Node
new_node id key endpoint slot serves = record {
  id = id;
  slot = slot;
  high = slot / 256;
  low = slot % 256;
  is_server = serves;
  public_key = key;
  endpoint = endpoint;
}

abbrev pub network_from : ℕ → ℕ → Option ℕ → Option Node → List Node → Result (List Node)
network_from id key endpoint previous ns =
    if ltb 65534 (slot_for previous ns)
    then fail 409 "Fleet network full"
    else if any (has_key id key) ns
    then fail 409 "WireGuard key already registered"
    else ok
        (put node_id (new_node id key endpoint (slot_for previous ns) (serves_for previous ns)) ns)

unfoldable pub network_node : ℕ → ℕ → Option ℕ → List Node → Result (List Node)
network_node id key endpoint ns = network_from id key endpoint (get node_id id ns) ns
