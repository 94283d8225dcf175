-- ===== src/Fleet/Removal/Led.antt =====
-- A fleet keeps its coordinator (apps/control-cloud/src/fleet.ts).
use personal_cloud.Prelude.{
  ℕ, ◌+◌, ◌<◌, ◌≡◌, ◌⊎◌, inl, inr, refl, true, false, Option, none, some, List, [], ◌∷◌, arith, any,
}
use personal_cloud.Prelude.Outcome.{ok}
use personal_cloud.Store.{get, put, delete}
use personal_cloud.Store.Laws.{IsDistinct, put-IsDistinct, delete-IsDistinct}
use personal_cloud.Fleet.Network.{
  Node, node_id, is_serving, slot_for, serves_for, new_node, network_node,
}
use personal_cloud.Fleet.Removal.{
  Member, Holdings, owns, serves, has_peers, assert_machine_removable, is_other_node,
  remove_machine, works_on,
}

-- Nodes have different machines, and one of them is the server unless there are none.
abbrev pub IsLed : List Node → Type 0
IsLed ns = IsDistinct node_id ns × ((ns ≡ []) ⊎ (any is_serving ns ≡ true))

any-put :
    (n : Node) (ns : List Node)
    → IsDistinct node_id ns
    → (n.is_server ≡ true) ⊎ ((any is_serving ns ≡ true) × (serves (get node_id n.id ns) ≡ false))
    → any is_serving (put node_id n ns) ≡ true
unfolding get put
any-put n [] d h = ground arith
any-put n (m ∷ ns) d h = ground (arith, any-put n ns d.1, h)

any-delete :
    (id : ℕ) (ns : List Node)
    → any is_serving ns ≡ true
    → serves (get node_id id ns) ≡ false
    → any is_serving (delete node_id id ns) ≡ true
unfolding get delete
any-delete id [] h k = absurd (cc)
any-delete id (n ∷ ns) h k = ground (arith, any-delete id ns)

get-others :
    (id : ℕ) (ns : List Node)
    → any (is_other_node id) ns ≡ false
    → IsDistinct node_id ns
    → delete node_id id ns ≡ []
unfolding get delete
get-others id [] h d = refl
get-others id (n ∷ []) h d = ground arith
get-others id (n ∷ m ∷ ns) h d = absurd (ground arith)

led-any :
    (id : ℕ) (ns : List Node) (p : Node)
    → get node_id id ns ≡ some p
    → IsLed ns
    → any is_serving ns ≡ true
unfolding get
led-any id [] p e h = absurd (cc)
led-any id (n ∷ ns) p e (d, inl empty) = absurd (cc)
led-any id (n ∷ ns) p e (d, inr led) = led

node-any :
    (id key : ℕ) (endpoint : Option ℕ) (ns : List Node) (previous : Option Node)
    → get node_id id ns ≡ previous
    → IsLed ns
    → any is_serving
        (put node_id (new_node id key endpoint (slot_for previous ns) (serves_for previous ns)) ns)
      ≡ true
unfolding get
node-any id key endpoint ns none e h =
    any-put (new_node id key endpoint (slot_for none ns) (serves_for none ns)) ns h.0
      (ground (arith, e))
node-any id key endpoint ns (some p) e h =
    any-put (new_node id key endpoint (slot_for (some p) ns) (serves_for (some p) ns)) ns h.0
      (ground (arith, e, led-any id ns p e h))

-- A machine that enters the network, or enters it again, leaves a coordinator there.
pub network_node-IsLed :
    (id key : ℕ) (endpoint : Option ℕ) (ns ms : List Node)
    → network_node id key endpoint ns ≡ ok ms
    → IsLed ns
    → IsLed ms
unfolding network_node
network_node-IsLed id key endpoint ns ms e h =
    let previous = get node_id id ns in
    let n = new_node id key endpoint (slot_for previous ns) (serves_for previous ns) in
    let written = put-IsDistinct node_id n ns h.0 in
    let led = node-any id key endpoint ns previous refl h in ground (arith, e, written, led)

coordinator-lem :
    (now : ℕ) (m : Member) (h : Holdings)
    → assert_machine_removable now m h ≡ ok tt
    → (any (works_on m.id) h.apple_jobs ≡ false)
      × (owns m.id h ≡ false)
      × ((serves (get node_id m.id h.network_nodes) ≡ false)
          ⊎ ((has_peers m.id h ≡ false) × (m.last_seen + 60000 < now)))
unfolding assert_machine_removable
coordinator-lem now m h e = ground (arith, e)

nodes_left :
    (later id : ℕ) (g : Holdings)
    → (remove_machine later id g).network_nodes ≡ delete node_id id g.network_nodes
unfolding remove_machine
nodes_left later id g = ground arith

delete-IsLed :
    (id : ℕ) (ns : List Node)
    → IsLed ns
    → (serves (get node_id id ns) ≡ false) ⊎ (any (is_other_node id) ns ≡ false)
    → IsLed (delete node_id id ns)
unfolding delete
delete-IsLed id ns (d, inl e) h = (delete-IsDistinct node_id id ns d, inl (rw e refl))
delete-IsLed id ns (d, inr led) (inl k) =
    (delete-IsDistinct node_id id ns d, inr (any-delete id ns led k))
delete-IsLed id ns (d, inr led) (inr alone) =
    (delete-IsDistinct node_id id ns d, inl (get-others id ns alone d))

-- When a machine's removal is accepted and the network has not changed until the documents are deleted, the
-- machines that are left have a coordinator.
pub remove_machine-IsLed :
    (now later : ℕ) (m : Member) (h g : Holdings)
    → assert_machine_removable now m h ≡ ok tt
    → g.network_nodes ≡ h.network_nodes
    → IsLed h.network_nodes
    → IsLed (remove_machine later m.id g).network_nodes
remove_machine-IsLed now later m h g e same led =
    let (_, _, free) = coordinator-lem now m h e in
    rw (nodes_left later m.id g)
      (rw same (delete-IsLed m.id h.network_nodes led (ground (arith, free))))
