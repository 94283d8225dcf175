-- ===== src/Registry/Upload/Parts.antt =====
-- The parts in R2: what an upload has committed can be put together for as long as it is open.
use personal_cloud.Prelude.{
  ℕ, ◌+◌, ◌≡◌, refl, Bool, true, false, ◌&&◌, not, Option, none, some, List, [], ◌∷◌, ◌++◌, arith,
  Map, update, Option-cases, inl, inr, is_some, All, All-append, length,
}
use personal_cloud.Prelude.Outcome.{Result, ok, err, Result-cases}
use personal_cloud.Registry.Upload.{
  lease_ms, append, owns, renewed, Chunk, Operation, Upload, acquire, update_owned,
}
use personal_cloud.Registry.Upload.Bounds.{is_open}
use personal_cloud.Registry.Upload.Request.{Request, check, Verdict, reply, proceed, Plan}
use personal_cloud.Registry.Upload.System.{
  Stage, parted, finished, with_stage, begun, after_commit, Pending, System, chunk_of, on_begin,
  on_checked, on_acquired, on_renew, on_store, on_committed,
}

abbrev pub IsPart : Option (List ℕ) → ℕ → Type 0
IsPart none size = ⊥
IsPart (some bytes) size = length bytes ≡ size

abbrev pub IsCommitted : Option Pending → Type 0
IsCommitted none = ⊥
IsCommitted (some p) = (p.part_committed ≡ true) × (is_open p.stage ≡ false)

-- A committed chunk: its object is there, and the request that wrote it knows that it is committed.
abbrev pub IsKept : Map (List ℕ) → Map Pending → Chunk → Type 0
IsKept parts reqs c = IsPart (parts c.key) c.size × IsCommitted (reqs c.key)

abbrev pub is_live : Upload → Bool
is_live u = not u.cancelled && not (is_some u.completed)

-- A part that the holder of the lease is about to commit is there.
abbrev pub HasPart : Option Pending → Option (List ℕ) → Type 0
HasPart none part = Unit
HasPart (some p) part =
    (p.stage ≡ parted → IsPart part p.length) × (is_open p.stage ≡ true → p.part_committed ≡ false)

abbrev pub OwnerHasPart : Option Operation → Map (List ℕ) → Map Pending → Type 0
OwnerHasPart none parts reqs = Unit
OwnerHasPart (some o) parts reqs = HasPart (reqs o.id) (parts o.id)

abbrev pub IsIntact : Option Upload → Map (List ℕ) → Map Pending → Type 0
IsIntact none parts reqs = Unit
IsIntact (some u) parts reqs =
    (is_live u ≡ true → All (IsKept parts reqs) u.chunks) × OwnerHasPart u.operation parts reqs

All-map {ℓ κ} :
    {A : Type ℓ} {P Q : A → Type κ} (f : (a : A) → P a → Q a) (xs : List A) → All P xs → All Q xs
All-map f [] h = tt
All-map f (x ∷ xs) (p, h) = (f x p, All-map f xs h)

-- A committed request may go on to a later stage.
pub All-stage :
    (parts : Map (List ℕ)) (reqs : Map Pending) (op : ℕ) (p : Pending) (stage : Stage)
    (cs : List Chunk)
    → reqs op ≡ some p
    → is_open stage ≡ false
    → All (IsKept parts reqs) cs
    → All (IsKept parts (update reqs op (some (with_stage p stage)))) cs
All-stage parts reqs op p stage cs there closed =
    All-map {P = IsKept parts reqs} (λ c k. ground arith) cs

-- A request that has committed nothing may change in any way.
pub All-request :
    (parts : Map (List ℕ)) (reqs : Map Pending) (op : ℕ) (p : Option Pending) (cs : List Chunk)
    → ¬ IsCommitted (reqs op)
    → All (IsKept parts reqs) cs
    → All (IsKept parts (update reqs op p)) cs
All-request parts reqs op p cs open' = All-map {P = IsKept parts reqs} (λ c k. ground arith) cs

-- Its part may be written or deleted.
pub All-part :
    (parts : Map (List ℕ)) (reqs : Map Pending) (op : ℕ) (part : Option (List ℕ)) (cs : List Chunk)
    → ¬ IsCommitted (reqs op)
    → All (IsKept parts reqs) cs
    → All (IsKept (update parts op part) reqs) cs
All-part parts reqs op part cs open' = All-map {P = IsKept parts reqs} (λ c k. ground arith) cs

acquire_keeps :
    (now op n : ℕ) (start : Option ℕ) (u u' : Upload)
    → acquire now op n start (some u) ≡ ok u'
    → (u'.chunks ≡ u.chunks)
      × (is_live u ≡ true)
      × (u'.operation ≡ some (record { id = op; expires = now + lease_ms }))
unfolding acquire
acquire_keeps now op n start u u' e = ground arith

acquire_gone :
    (now op n : ℕ) (start : Option ℕ) (u : Upload) → ¬ (acquire now op n start none ≡ ok u)
unfolding acquire
acquire_gone now op n start u e = ground arith

append_keeps :
    (now op : ℕ) (c : Chunk) (u u' : Upload)
    → update_owned now op (append c) (some u) ≡ ok u'
    → (u'.chunks ≡ u.chunks ++ c ∷ [])
      × (is_live u ≡ true)
      × (owns u.operation op ≡ true)
      × (u'.operation ≡ renewed now u.operation)
unfolding update_owned
append_keeps now op c u u' e = ground arith

abbrev pub Holds : System → Type 0
Holds s = IsIntact s.upload s.parts s.requests

module _ (s : System) (h : Holds s) where
  on_acquired-Holds :
      (op : ℕ) (r : Request) (p : Plan) (now : ℕ) (u u' : Upload)
      → s.requests op ≡ none
      → s.upload ≡ some u
      → acquire now op p.length p.start (some u) ≡ ok u'
      → Holds (on_acquired s op r p (ok u'))
  on_acquired-Holds op r p now u u' fresh there e =
      let (same, live, owner) = acquire_keeps now op p.length p.start u u' e in
      ground (arith, All-request s.parts s.requests op (some (begun r p u')) u.chunks)

  pub on_renew-Holds : (now op : ℕ) → Holds (on_renew s now op (s.requests op))
  unfolding update_owned
  on_renew-Holds now op = elim (Option-cases s.upload) [
    | inl gone ↦ ground arith
    | inr (u, there) ↦ elim (Option-cases (s.requests op)) [
      | inl unknown ↦ ground arith
      | inr (p, known) ↦
          ground (arith, All-stage s.parts s.requests op p finished u.chunks known refl)
    ]
  ]

  pub on_store-Holds : (op : ℕ) (bytes : List ℕ) → Holds (on_store s op bytes (s.requests op))
  on_store-Holds op bytes = elim (Option-cases s.upload) [
    | inl gone ↦ ground arith
    | inr (u, there) ↦ elim (Option-cases (s.requests op)) [
      | inl unknown ↦ ground arith
      | inr (p, known) ↦ ground (
        arith,
        All-request s.parts s.requests op (some (with_stage p parted)) u.chunks,
        All-request s.parts s.requests op (some (with_stage p finished)) u.chunks,
        All-part s.parts (update s.requests op (some (with_stage p parted))) op (some bytes)
            u.chunks,
      )
    ]
  ]

  on_checked-Holds :
      (now op : ℕ) (r : Request) (v : Result Verdict)
      → s.requests op ≡ none
      → Holds (on_checked s now op r v)
  on_checked-Holds now op r (err e) fresh = h
  on_checked-Holds now op r (ok (reply a)) fresh = h
  on_checked-Holds now op r (ok (proceed p)) fresh =
      elim (Result-cases (acquire now op p.length p.start s.upload)) [
        | inl (e, refused) ↦ rw (refused, on_acquired) h
        | inr (u', taken) ↦ elim (Option-cases s.upload) [
          | inl gone ↦ absurd (acquire_gone now op p.length p.start u' (rw gone at taken))
          | inr (u, there) ↦
              rw taken (on_acquired-Holds op r p now u u' fresh there (rw there at taken))
        ]
      ]

  pub on_begin-Holds : (now op : ℕ) (r : Request) → Holds (on_begin s now op r (s.requests op))
  on_begin-Holds now op r = elim (Option-cases (s.requests op)) [
    | inr (p, used) ↦ rw (used, on_begin) h
    | inl fresh ↦ rw (fresh, on_begin) (on_checked-Holds now op r (check r s.upload) fresh)
  ]

  pub on_committed-Holds :
      (now op : ℕ) (p : Pending) (u u' : Upload)
      → s.requests op ≡ some p
      → p.stage ≡ parted
      → s.upload ≡ some u
      → update_owned now op (append (chunk_of op p)) (some u) ≡ ok u'
      → Holds (on_committed s op p (ok u'))
  on_committed-Holds now op p u u' known stage there e =
      let (same, live, owner, lease) = append_keeps now op (chunk_of op p) u u' e in
      let reqs = update s.requests op (some (after_commit p u')) in
      let kept : IsKept s.parts reqs (chunk_of op p) = ground arith in
      ground (
        arith,
        kept,
        All-request s.parts s.requests op (some (after_commit p u')) u.chunks,
        All-append (IsKept s.parts reqs) u.chunks (chunk_of op p ∷ []),
      )
