-- ===== src/Runtime/Readiness/Preflight.antt =====
-- `servicePreflight` of apps/control-cloud/src/preflight.ts. What GitHub answers is an argument.
use personal_cloud.Prelude.{
  ℕ, ◌≡◌, refl, ap, subst, Bool, true, false, ◌&&◌, ◌||◌, Option, none, some, List, [], ◌∷◌, ◌++◌,
  ◌==◌, any, filter, if◌then◌else◌, filter-IsIn, IsIn-filter,
}
use personal_cloud.Runtime.Placement.{
  Node, Place, Wanted, Selection, is_candidate, first_pair, selection_of, deployment_targets,
}
use personal_cloud.Runtime.Readiness.{
  Blocker, service_placement, service_builder_missing, Overall, all_ready, still_checking, blocked,
  Capability, Readiness, Observation, nodes_of, Machine, Url, derive_readiness, overall,
}
use personal_cloud.Runtime.Readiness.Pairs.{HasPair, first_pair-HasPair, HasPair-first_pair}

abbrev is_able : ℕ → Capability → Bool
is_able k c = c.machine_id == k && (c.can_run || c.can_build)

-- `eligibleIds.has(n.Meta?.pc_machine_id)`
abbrev is_able_id : List Capability → Option ℕ → Bool
is_able_id machines none = false
is_able_id machines (some k) = any (is_able k) machines

abbrev pub is_eligible_node : List Capability → Node → Bool
is_eligible_node machines n = is_able_id machines n.machine_id

abbrev pub place_blockers : Selection → List Blocker
place_blockers s = elim s.target [
  | none ↦ (if s.has_compute then service_builder_missing else service_placement) ∷ []
  | some t ↦ []
]

abbrev pub service_blockers :
    Overall → List Capability → Option Observation → Place → Wanted → List Blocker
service_blockers all_ready machines o place wanted =
    place_blockers
      (deployment_targets (filter (is_eligible_node machines) (nodes_of o)) place wanted true)
service_blockers still_checking machines o place wanted = []
service_blockers blocked machines o place wanted = []

-- The repository is looked at only where nothing else is in the way; `source` is what that finds.
abbrev pub with_source : List Blocker → List Blocker → List Blocker
with_source [] source = source
with_source (b ∷ bs) source = b ∷ bs

abbrev pub preflight_status : Overall → List Blocker → Overall
preflight_status status [] = all_ready
preflight_status still_checking (b ∷ bs) = still_checking
preflight_status all_ready (b ∷ bs) = blocked
preflight_status blocked (b ∷ bs) = blocked

unfoldable pub service_preflight :
    Readiness → Option Observation → Place → Wanted → List Blocker → Overall × List Blocker
service_preflight r o place wanted source =
    let blockers =
      with_source (r.blockers ++ service_blockers r.status r.machines o place wanted) source in
    (preflight_status r.status blockers, blockers)

place_blockers-some :
    (cs : List Node) (o : Option (Node × Option Node))
    → place_blockers (selection_of cs o) ≡ []
    → (t : Node) × ((b : Option Node) × (o ≡ some (t, b)))
place_blockers-some cs (some (t, b)) e = (t, (b, refl))
place_blockers-some [] none e = absurd (cc)
place_blockers-some (c ∷ cs) none e = absurd (cc)

-- What is found in a part of the inventory is found in all of it.
HasPair-part :
    (place : Place) (wanted : Wanted) (p : Node → Bool) (nodes : List Node)
    → HasPair place wanted (filter p nodes)
    → HasPair place wanted nodes
HasPair-part place wanted p nodes h = record {
  target = h.target;
  helper = h.helper;
  target_in = (filter-IsIn p nodes h.target h.target_in).0;
  helper_in = (filter-IsIn p nodes h.helper h.helper_in).0;
  is_fit = h.is_fit;
  is_helpful = h.is_helpful;
}

place_blockers-HasPair :
    (place : Place) (wanted : Wanted) (nodes : List Node)
    → place_blockers (deployment_targets nodes place wanted true) ≡ []
    → HasPair place wanted nodes
unfolding deployment_targets
place_blockers-HasPair place wanted nodes e =
    let candidates = filter (is_candidate place wanted) nodes in
    let (t, (b, found)) = place_blockers-some candidates (first_pair nodes true candidates) e in
    first_pair-HasPair place wanted nodes candidates t b
      (filter-IsIn (is_candidate place wanted) nodes) found

HasPair-target :
    (place : Place) (wanted : Wanted) (nodes : List Node)
    → HasPair place wanted nodes
    → (t : Node) × ((b : Node) × (((deployment_targets nodes place wanted true).target ≡ some t)
          × ((deployment_targets nodes place wanted true).build_node ≡ some b)))
unfolding deployment_targets
HasPair-target place wanted nodes h =
    let candidates = filter (is_candidate place wanted) nodes in
    let (t, (b, found)) =
      HasPair-first_pair nodes candidates h.target h.helper
        (IsIn-filter (is_candidate place wanted) nodes h.target h.target_in h.is_fit) h.helper_in
        h.is_helpful in
    (t, (b, (rw found refl, rw found refl)))

preflight-clear :
    (status : Overall) (own service source : List Blocker)
    → preflight_status status (with_source (own ++ service) source) ≡ all_ready
    → (own ≡ []) × (service ≡ [])
preflight-clear status [] [] source e = (refl, refl)
preflight-clear still_checking [] (b ∷ bs) source e = absurd (cc)
preflight-clear all_ready [] (b ∷ bs) source e = absurd (cc)
preflight-clear blocked [] (b ∷ bs) source e = absurd (cc)
preflight-clear still_checking (b ∷ bs) service source e = absurd (cc)
preflight-clear all_ready (b ∷ bs) service source e = absurd (cc)
preflight-clear blocked (b ∷ bs) service source e = absurd (cc)

derive_readiness-overall :
    (apple_node : Node → Bool) (machines : List Machine) (runtime : Option Url)
    (o : Option Observation) (github : Bool) (at : ℕ)
    → let r = derive_readiness apple_node machines runtime o github at in
      r.blockers ≡ [] → r.status ≡ all_ready
unfolding derive_readiness
derive_readiness-overall apple_node machines runtime o github at e = ap overall e

-- A service whose preflight is ready has a machine to run on and a builder: the choice that a deployment
-- makes over the inventory that was observed finds both.
pub service_preflight-chosen :
    (apple_node : Node → Bool) (machines : List Machine) (runtime : Option Url)
    (o : Option Observation) (github : Bool) (at : ℕ) (place : Place) (wanted : Wanted)
    (source : List Blocker)
    → (service_preflight
        (derive_readiness apple_node machines runtime o github at)
        o
        place
        wanted
        source).0
      ≡ all_ready
    → (t : Node) × ((b : Node) × (((deployment_targets (nodes_of o) place wanted true).target
            ≡ some t)
          × ((deployment_targets (nodes_of o) place wanted true).build_node ≡ some b)))
unfolding service_preflight
service_preflight-chosen apple_node machines runtime o github at place wanted source e =
    let r = derive_readiness apple_node machines runtime o github at in
    let (own, service) =
      preflight-clear r.status r.blockers (service_blockers r.status r.machines o place wanted)
        source e in
    let ready_now = derive_readiness-overall apple_node machines runtime o github at own in
    HasPair-target place wanted (nodes_of o) (
      HasPair-part place wanted (is_eligible_node r.machines) (nodes_of o) (
        place_blockers-HasPair place wanted (filter (is_eligible_node r.machines) (nodes_of o))
          (subst (λ s. service_blockers s r.machines o place wanted ≡ []) ready_now service)))
