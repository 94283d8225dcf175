-- ===== src/Registry/Upload/Recovery.antt =====
-- Every event keeps the committed parts of an open upload together, so they can be assembled.
use personal_cloud.Prelude.{
  ℕ, ◌≡◌, refl, sym, ◌∙◌, Bool, true, false, Option, none, some, List, [], ◌∷◌, ◌++◌, arith,
  Option-cases, inl, inr, All, length, length-append, Map, update, Bool-cases,
}
use personal_cloud.Prelude.Outcome.{Result-cases}
use personal_cloud.Registry.Upload.{
  keep, append, Chunk, Upload, init, update_owned, release, expire,
}
use personal_cloud.Registry.Upload.Bounds.{total, run-IsBounded}
use personal_cloud.Registry.Upload.Parts.{
  Holds, IsIntact, IsKept, All-stage, All-request, All-part, on_begin-Holds, on_renew-Holds,
  on_store-Holds, on_committed-Holds,
}
use personal_cloud.Registry.Upload.System.{
  parted, verified, published, finished, with_stage, chunk_of, Pending, System, Event, step, run,
  assemble, empty_system, set_upload, on_commit, on_committed, on_cancel, on_assembled, on_verify,
  on_publish, on_complete, on_finish, on_alarm, on_clear, initialize, begin, renew, store_part,
  commit_part, cancel_upload, verify, publish, complete_upload, finish, alarm, clear,
}

module _ (s : System) (h : Holds s) where
  on_parted-Holds :
      (now op : ℕ) (p : Pending) (u : Upload)
      → s.requests op ≡ some p
      → p.stage ≡ parted
      → s.upload ≡ some u
      → Holds (on_committed s op p (update_owned now op (append (chunk_of op p)) (some u)))
  on_parted-Holds now op p u known stage there =
      elim (Result-cases (update_owned now op (append (chunk_of op p)) (some u))) [
        | inl (e, lost) ↦
            rw lost (ground (arith, All-stage s.parts s.requests op p finished u.chunks known refl))
        | inr (u', won) ↦ rw won (on_committed-Holds s h now op p u u' known stage there won)
      ]

  on_commit-Holds : (now op : ℕ) → Holds (on_commit s now op (s.requests op))
  unfolding update_owned
  on_commit-Holds now op = elim (Option-cases s.upload) [
    | inl gone ↦ ground arith
    | inr (u, there) ↦ elim (Option-cases (s.requests op)) [
      | inl unknown ↦ ground arith
      | inr (p, known) ↦ ground (arith, on_parted-Holds now op p u known)
    ]
  ]

  on_cancel-Holds : (now op : ℕ) → Holds (on_cancel s now op (s.requests op))
  unfolding update_owned
  on_cancel-Holds now op = elim (Option-cases s.upload) [
    | inl gone ↦ ground arith
    | inr (u, there) ↦ elim (Option-cases (s.requests op)) [
      | inl unknown ↦ ground arith
      | inr (p, known) ↦
          ground (arith, All-stage s.parts s.requests op p finished u.chunks known refl)
    ]
  ]

  on_assembled-Holds :
      (sha256 : List ℕ → ℕ) (now op : ℕ) (p : Pending) (o : Option (List ℕ))
      → s.requests op ≡ some p
      → Holds (on_assembled sha256 s op p o (update_owned now op keep s.upload))
  unfolding update_owned
  on_assembled-Holds sha256 now op p o known = elim (Option-cases s.upload) [
    | inl gone ↦ ground arith
    | inr (u, there) ↦ elim (Option-cases o) [
      | inl missing ↦ ground (arith, All-stage s.parts s.requests op p finished u.chunks known refl)
      | inr (bytes, whole) ↦ ground (
        arith,
        All-stage s.parts s.requests op p finished u.chunks known refl,
        All-stage s.parts s.requests op p (verified bytes) u.chunks known refl,
      )
    ]
  ]

  on_verify-Holds :
      (sha256 : List ℕ → ℕ) (now op : ℕ) → Holds (on_verify sha256 s now op (s.requests op))
  on_verify-Holds sha256 now op = elim (Option-cases (s.requests op)) [
    | inl unknown ↦ rw (unknown, on_verify) h
    | inr (p, known) ↦
        let verified' =
          on_assembled-Holds sha256 now op p (assemble s.parts p.state.chunks) known in
        ground (arith, verified')
  ]

  on_publish-Holds : (op : ℕ) → Holds (on_publish s op (s.requests op))
  on_publish-Holds op = elim (Option-cases s.upload) [
    | inl gone ↦ ground arith
    | inr (u, there) ↦ elim (Option-cases (s.requests op)) [
      | inl unknown ↦ ground arith
      | inr (p, known) ↦
          ground (arith, All-stage s.parts s.requests op p published u.chunks known refl)
    ]
  ]

  on_complete-Holds : (now op : ℕ) → Holds (on_complete s now op (s.requests op))
  unfolding update_owned
  on_complete-Holds now op = elim (Option-cases s.upload) [
    | inl gone ↦ ground arith
    | inr (u, there) ↦ elim (Option-cases (s.requests op)) [
      | inl unknown ↦ ground arith
      | inr (p, known) ↦
          ground (arith, All-stage s.parts s.requests op p finished u.chunks known refl)
    ]
  ]

  on_finish_committed :
      (now op : ℕ) (p : Pending) (u : Upload)
      → s.requests op ≡ some p
      → s.upload ≡ some u
      → p.part_committed ≡ true
      → Holds (on_finish s now op (some p))
  unfolding release
  on_finish_committed now op p u known there kept =
      ground (arith, All-stage s.parts s.requests op p finished u.chunks known refl)

  on_finish_dropped :
      (now op : ℕ) (p : Pending) (u : Upload)
      → s.requests op ≡ some p
      → s.upload ≡ some u
      → p.part_committed ≡ false
      → Holds (on_finish s now op (some p))
  unfolding release
  on_finish_dropped now op p u known there dropped = ground (
    arith,
    All-part s.parts s.requests op none u.chunks,
    All-request (update s.parts op none) s.requests op (some (with_stage p finished)) u.chunks,
  )

  on_finish-Holds : (now op : ℕ) → Holds (on_finish s now op (s.requests op))
  unfolding release
  on_finish-Holds now op = elim (Option-cases s.upload) [
    | inl gone ↦ ground arith
    | inr (u, there) ↦ elim (Option-cases (s.requests op)) [
      | inl unknown ↦ ground arith
      | inr (p, known) ↦ elim (Bool-cases p.part_committed) [
        | inl kept ↦ rw known (on_finish_committed now op p u known there kept)
        | inr dropped ↦ rw known (on_finish_dropped now op p u known there dropped)
      ]
    ]
  ]

  on_alarm-Holds : (now : ℕ) → Holds (on_alarm s (expire now s.upload))
  unfolding expire
  on_alarm-Holds now = ground arith

  on_clear-Holds : (b : Bool) → Holds (on_clear s b)
  on_clear-Holds true = tt
  on_clear-Holds false = h

  set_upload-Holds : (now w name id : ℕ) → Holds (set_upload s (init now w name id s.upload))
  unfolding init
  set_upload-Holds now w name id = ground arith

module _ (sha256 : List ℕ → ℕ) where
  step-Holds : (s : System) (e : Event) → Holds s → Holds (step sha256 s e)
  unfolding step
  step-Holds s (initialize now w name id) h = set_upload-Holds s h now w name id
  step-Holds s (begin now op r) h = on_begin-Holds s h now op r
  step-Holds s (renew now op) h = on_renew-Holds s h now op
  step-Holds s (store_part op bytes) h = on_store-Holds s h op bytes
  step-Holds s (commit_part now op) h = on_commit-Holds s h now op
  step-Holds s (cancel_upload now op) h = on_cancel-Holds s h now op
  step-Holds s (verify now op) h = on_verify-Holds s h sha256 now op
  step-Holds s (publish op) h = on_publish-Holds s h op
  step-Holds s (complete_upload now op) h = on_complete-Holds s h now op
  step-Holds s (finish now op) h = on_finish-Holds s h now op
  step-Holds s (alarm now) h = on_alarm-Holds s h now
  step-Holds s clear h = on_clear-Holds s h s.expiring

  run-Holds : (s : System) (es : List Event) → Holds s → Holds (run sha256 s es)
  unfolding run
  run-Holds s [] h = h
  run-Holds s (e ∷ es) h = run-Holds (step sha256 s e) es (step-Holds s e h)

  assemble-total :
      (parts : Map (List ℕ)) (reqs : Map Pending) (cs : List Chunk)
      → All (IsKept parts reqs) cs
      → (bytes : List ℕ) × (assemble parts cs ≡ some bytes) × (length bytes ≡ total cs)
  unfolding assemble
  assemble-total parts reqs [] k = ([], refl, refl)
  assemble-total parts reqs (c ∷ cs) (k, ks) =
      let (rest, whole, size) = assemble-total parts reqs cs ks in
      elim (Option-cases (parts c.key)) [
        | inl missing ↦ ground arith
        | inr (bytes, there) ↦
            (bytes ++ rest, ground arith, ground (arith, length-append bytes rest))
      ]

  -- After any requests in any order, as long as an upload is neither complete nor cancelled, its
  -- committed chunks are all stored and assemble to exactly as many bytes as its offset says.
  pub run_assembles :
      (es : List Event) (u : Upload)
      → (run sha256 empty_system es).upload ≡ some u
      → u.cancelled ≡ false
      → u.completed ≡ none
      → (bytes : List ℕ) × (assemble (run sha256 empty_system es).parts u.chunks ≡ some bytes)
        × (length bytes ≡ u.size)
  run_assembles es u there live open' =
      let s = run sha256 empty_system es in
      let h : IsIntact (some u) s.parts s.requests = rw there at (run-Holds empty_system es tt) in
      let kept : All (IsKept s.parts s.requests) u.chunks = h.0 (rw (live, open') refl) in
      let (bytes, whole, size) = assemble-total s.parts s.requests u.chunks kept in
      let bounded = rw there at (run-IsBounded sha256 es) in (bytes, whole, size ∙ sym bounded.0)
