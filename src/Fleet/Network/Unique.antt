-- ===== src/Fleet/Network/Unique.antt =====
-- No two machines share an address or a key (apps/control-cloud/src/fleet.ts).
use personal_cloud.Prelude.{
  ℕ, ◌/◌, ◌%◌, ◌≤◌, ◌≡◌, ◌⊎◌, refl, sym, ◌∙◌, subst, Bool, true, false, Option, none, some, List,
  [], ◌∷◌, ◌==◌, arith, any, ltb, Bool-cases, inl, inr,
}
use personal_cloud.Prelude.Outcome.{ok}
use personal_cloud.Store.{get, put}
use personal_cloud.Store.Laws.{get-put, get-key}
use personal_cloud.Fleet.Network.{
  Node, node_id, max_slot, is_serving, slot_for, serves_for, has_key, new_node, network_from,
  network_node,
}

abbrev pub IsWithin : Node → Type 0
IsWithin n = (2 ≤ n.slot) × (n.slot ≤ 65534) × (n.high ≡ n.slot / 256) × (n.low ≡ n.slot % 256)

-- Two machines differ in the slot and in the key, and one of them at most is the server.
abbrev pub Differ : ℕ → ℕ → Node → Node → Type 0
Differ i j a b =
    (a.slot ≡ b.slot → i ≡ j)
    × (a.public_key ≡ b.public_key → i ≡ j)
    × (a.is_server ≡ true → b.is_server ≡ true → i ≡ j)

abbrev pub IsNetwork : List Node → Type 0
IsNetwork ns =
    ((i : ℕ) (a : Node) → get node_id i ns ≡ some a → IsWithin a)
    × ((i j : ℕ) (a b : Node)
        → get node_id i ns ≡ some a
        → get node_id j ns ≡ some b
        → Differ i j a b)

max_slot-get :
    (j : ℕ) (b : Node) (ns : List Node) → get node_id j ns ≡ some b → b.slot ≤ max_slot ns
unfolding get max_slot
max_slot-get j b [] g = absurd (cc)
max_slot-get j b (n ∷ ns) g = ground (arith, max_slot-get j b ns)

max_slot-one : (ns : List Node) → 1 ≤ max_slot ns
unfolding max_slot
max_slot-one [] = ground arith
max_slot-one (n ∷ ns) = ground (arith, max_slot-one ns)

any-get :
    (p : Node → Bool) (j : ℕ) (b : Node) (ns : List Node)
    → any p ns ≡ false
    → get node_id j ns ≡ some b
    → p b ≡ false
unfolding get
any-get p j b [] h g = absurd (cc)
any-get p j b (n ∷ ns) h g = ground (arith, any-get p j b ns)

module _ (id key : ℕ) (endpoint : Option ℕ) (ns : List Node) (h : IsNetwork ns) where
  slot_differs :
      (previous : Option Node)
      → get node_id id ns ≡ previous
      → (j : ℕ) (b : Node) → get node_id j ns ≡ some b
      → slot_for previous ns ≡ b.slot
      → id ≡ j
  slot_differs none g j b gb e = absurd (omega (arith, max_slot-get j b ns gb, e))
  slot_differs (some a) g j b gb e = (h.1 id j a b g gb).0 e

  key_differs :
      (j : ℕ) (b : Node)
      → any (has_key id key) ns ≡ false
      → get node_id j ns ≡ some b
      → key ≡ b.public_key
      → id ≡ j
  key_differs j b free g e =
      ground (arith, any-get (has_key id key) j b ns free g, get-key node_id j b ns g)

  server_differs :
      (previous : Option Node)
      → get node_id id ns ≡ previous
      → (j : ℕ) (b : Node) → get node_id j ns ≡ some b
      → serves_for previous ns ≡ true
      → b.is_server ≡ true
      → id ≡ j
  server_differs none g j b gb s t =
      absurd (ground (arith, any-get is_serving j b ns (ground arith) gb))
  server_differs (some a) g j b gb s t = (h.1 id j a b g gb).2 s t

  slot_is_within :
      (previous : Option Node)
      → get node_id id ns ≡ previous
      → ltb 65534 (slot_for previous ns) ≡ false
      → (2 ≤ slot_for previous ns) × (slot_for previous ns ≤ 65534)
  slot_is_within none g f = ground (arith, max_slot-one ns)
  slot_is_within (some a) g f = ((h.0 id a g).0, (h.0 id a g).1)

  swap : (i j : ℕ) (a b : Node) → Differ i j a b → Differ j i b a
  swap i j a b d = ((λ e. sym (d.0 (sym e))), (λ e. sym (d.1 (sym e))), λ s t. sym (d.2 t s))

  module _ (c : Node) (own : c.id ≡ id) where
    there : (i : ℕ) → id ≡ i → get node_id i (put node_id c ns) ≡ some c
    there i e = ground (arith, get-put node_id i c ns, own)

    others : (i : ℕ) → (id == i) ≡ false → get node_id i (put node_id c ns) ≡ get node_id i ns
    others i e = ground (arith, get-put node_id i c ns, own)

    found :
        (i : ℕ) (a : Node)
        → get node_id i (put node_id c ns) ≡ some a
        → ((id ≡ i) × (a ≡ c)) ⊎ (get node_id i ns ≡ some a)
    found i a g = elim (Bool-cases (id == i)) [
      | inl e ↦ let same : id ≡ i = ground arith in inl (same, ground (arith, there i same))
      | inr e ↦ inr (sym (others i e) ∙ g)
    ]

    put-IsNetwork :
        IsWithin c
        → ((j : ℕ) (b : Node) → get node_id j ns ≡ some b → Differ id j c b)
        → IsNetwork (put node_id c ns)
    put-IsNetwork within differ = (
      (λ i a g. elim (found i a g) [ inl (e, q) ↦ rw q within | inr old ↦ h.0 i a old ]),
      λ i j a b ga gb. elim (found i a ga) [
        | inl (e, q) ↦ elim (found j b gb) [
          | inl (f, r) ↦ ((λ _. sym e ∙ f), (λ _. sym e ∙ f), λ _ _. sym e ∙ f)
          | inr old ↦ rw (sym e, q) (differ j b old)
        ]
        | inr old ↦ elim (found j b gb) [
          | inl (f, r) ↦ rw (sym f, r) (swap id i c a (differ i a old))
          | inr new ↦ h.1 i j a b old new
        ]
      ],
    )

network_from-IsNetwork :
    (id key : ℕ) (endpoint : Option ℕ) (previous : Option Node) (ns ms : List Node)
    → get node_id id ns ≡ previous
    → IsNetwork ns
    → network_from id key endpoint previous ns ≡ ok ms
    → IsNetwork ms
network_from-IsNetwork id key endpoint previous ns ms g h e =
    let c = new_node id key endpoint (slot_for previous ns) (serves_for previous ns) in
    let few : ltb 65534 (slot_for previous ns) ≡ false = ground arith in
    let free : any (has_key id key) ns ≡ false = ground arith in
    let same : put node_id c ns ≡ ms = ground arith in
    let slot = slot_is_within id key endpoint ns h previous g few in
    subst IsNetwork same (
      put-IsNetwork id key endpoint ns h c refl (slot.0, slot.1, refl, refl)
        λ j b gb. (
          slot_differs id key endpoint ns h previous g j b gb,
          key_differs id key endpoint ns h j b free gb,
          server_differs id key endpoint ns h previous g j b gb,
        ))

-- Registering a machine, new or known, keeps the network: every machine has a slot between 2 and 65534
-- and the address of its slot, no two machines have one slot or one key, and one at most is the server.
pub network_node-IsNetwork :
    (id key : ℕ) (endpoint : Option ℕ) (ns ms : List Node)
    → IsNetwork ns
    → network_node id key endpoint ns ≡ ok ms
    → IsNetwork ms
unfolding network_node
network_node-IsNetwork id key endpoint ns ms h e =
    network_from-IsNetwork id key endpoint (get node_id id ns) ns ms refl h e
