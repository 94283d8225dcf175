-- ===== src/Registry/Upload/Bounds.antt =====
-- Sizes: whatever the requests and their order, an upload stays within its limits.
use personal_cloud.Prelude.{
  ℕ, ◌+◌, ◌≤◌, ◌<◌, ◌≡◌, Bool, true, false, Option, none, some, List, [], ◌∷◌, ◌++◌, arith, length,
  length-append, Map, Option-cases, inl, inr,
}
use personal_cloud.Prelude.Outcome.{Result, ok, err}
use personal_cloud.Registry.Upload.{
  Chunk, Operation, Upload, max_blob, max_chunks, init, acquire, update_owned, release, expire,
}
use personal_cloud.Registry.Upload.Request.{Request, check, Verdict, reply, proceed, Plan}
use personal_cloud.Registry.Upload.System.{
  Stage, leased, parted, Pending, System, Event, step, run, empty_system, set_upload, chunk_of,
  on_begin, on_checked, on_acquired, on_renew, on_store, on_commit, on_cancel, on_verify,
  on_publish, on_complete, on_finish, on_alarm, on_clear, initialize, begin, renew, store_part,
  commit_part, cancel_upload, verify, publish, complete_upload, finish, alarm, clear,
}

abbrev pub total : List Chunk → ℕ
total [] = 0
total (c ∷ cs) = c.size + total cs

total-append : (cs : List Chunk) (c : Chunk) → total (cs ++ c ∷ []) ≡ total cs + c.size
total-append [] c = omega arith
total-append (d ∷ cs) c = omega (arith, total-append cs c)

-- The request still has bytes to commit.
abbrev pub is_open : Stage → Bool
is_open leased = true
is_open parted = true
is_open _ = false

abbrev pub HasRoom : Option Pending → Upload → Type 0
HasRoom none u = Unit
HasRoom (some p) u =
    is_open p.stage ≡ true → (u.size + p.length ≤ max_blob) × (length u.chunks < max_chunks)

abbrev pub OwnerFits : Option Operation → Map Pending → Upload → Type 0
OwnerFits none reqs u = Unit
OwnerFits (some o) reqs u = HasRoom (reqs o.id) u

-- The offset is the sum of the committed chunks, the limits hold, and the holder of the lease still
-- has room for its bytes.
abbrev pub IsBounded : Option Upload → Map Pending → Type 0
IsBounded none reqs = Unit
IsBounded (some u) reqs =
    (u.size ≡ total u.chunks)
    × (u.size ≤ max_blob)
    × (length u.chunks ≤ max_chunks)
    × OwnerFits u.operation reqs u

abbrev Holds : System → Type 0
Holds s = IsBounded s.upload s.requests

module _ (s : System) (b : Holds s) where
  on_acquired-Holds :
      (now op : ℕ) (r : Request) (p : Plan)
      → Holds (on_acquired s op r p (acquire now op p.length p.start s.upload))
  unfolding acquire
  on_acquired-Holds now op r p = ground arith

  on_checked-Holds :
      (now op : ℕ) (r : Request) (v : Result Verdict) → Holds (on_checked s now op r v)
  on_checked-Holds now op r (err e) = b
  on_checked-Holds now op r (ok (reply a)) = b
  on_checked-Holds now op r (ok (proceed p)) = on_acquired-Holds now op r p

  on_begin-Holds : (now op : ℕ) (r : Request) → Holds (on_begin s now op r (s.requests op))
  on_begin-Holds now op r = elim (Option-cases (s.requests op)) [
    | inr (p, used) ↦ rw (used, on_begin) b
    | inl fresh ↦ rw (fresh, on_begin) (on_checked-Holds now op r (check r s.upload))
  ]

  on_renew-Holds : (now op : ℕ) → Holds (on_renew s now op (s.requests op))
  unfolding update_owned
  on_renew-Holds now op = ground arith

  on_store-Holds : (op : ℕ) (bytes : List ℕ) → Holds (on_store s op bytes (s.requests op))
  on_store-Holds op bytes = ground arith

  on_commit-Holds : (now op : ℕ) → Holds (on_commit s now op (s.requests op))
  unfolding update_owned
  on_commit-Holds now op = elim (Option-cases s.upload) [
    | inl gone ↦ ground arith
    | inr (u, there) ↦ elim (Option-cases (s.requests op)) [
      | inl unknown ↦ ground arith
      | inr (p, known) ↦
          let c = chunk_of op p in
          ground (arith, total-append u.chunks c, length-append u.chunks (c ∷ []))
    ]
  ]

  on_cancel-Holds : (now op : ℕ) → Holds (on_cancel s now op (s.requests op))
  unfolding update_owned
  on_cancel-Holds now op = ground arith

  on_verify-Holds :
      (sha256 : List ℕ → ℕ) (now op : ℕ) → Holds (on_verify sha256 s now op (s.requests op))
  unfolding update_owned
  on_verify-Holds sha256 now op = ground arith

  on_publish-Holds : (op : ℕ) → Holds (on_publish s op (s.requests op))
  on_publish-Holds op = ground arith

  on_complete-Holds : (now op : ℕ) → Holds (on_complete s now op (s.requests op))
  unfolding update_owned
  on_complete-Holds now op = ground arith

  on_finish-Holds : (now op : ℕ) → Holds (on_finish s now op (s.requests op))
  unfolding release
  on_finish-Holds now op = ground arith

  on_alarm-Holds : (now : ℕ) → Holds (on_alarm s (expire now s.upload))
  unfolding expire
  on_alarm-Holds now = ground arith

  on_clear-Holds : (b' : Bool) → Holds (on_clear s b')
  on_clear-Holds true = tt
  on_clear-Holds false = b

  set_upload-Holds : (now w name id : ℕ) → Holds (set_upload s (init now w name id s.upload))
  unfolding init
  set_upload-Holds now w name id = ground arith

module _ (sha256 : List ℕ → ℕ) where
  -- Every stretch of every request, and the alarm, keeps the upload within its limits.
  pub step-Holds : (s : System) (e : Event) → Holds s → Holds (step sha256 s e)
  unfolding step
  step-Holds s (initialize now w name id) b = set_upload-Holds s b now w name id
  step-Holds s (begin now op r) b = on_begin-Holds s b now op r
  step-Holds s (renew now op) b = on_renew-Holds s b now op
  step-Holds s (store_part op bytes) b = on_store-Holds s b op bytes
  step-Holds s (commit_part now op) b = on_commit-Holds s b now op
  step-Holds s (cancel_upload now op) b = on_cancel-Holds s b now op
  step-Holds s (verify now op) b = on_verify-Holds s b sha256 now op
  step-Holds s (publish op) b = on_publish-Holds s b op
  step-Holds s (complete_upload now op) b = on_complete-Holds s b now op
  step-Holds s (finish now op) b = on_finish-Holds s b now op
  step-Holds s (alarm now) b = on_alarm-Holds s b now
  step-Holds s clear b = on_clear-Holds s b s.expiring

  run-Holds : (s : System) (es : List Event) → Holds s → Holds (run sha256 s es)
  unfolding run
  run-Holds s [] b = b
  run-Holds s (e ∷ es) b = run-Holds (step sha256 s e) es (step-Holds s e b)

  -- Whatever requests come in whatever order, with leases lost and taken over in between, the
  -- committed offset is the sum of the chunk sizes, at most 5 GiB, in at most 512 chunks, and the
  -- request that holds the lease still has room for the bytes that it has not yet committed.
  pub run-IsBounded :
      (es : List Event) → let s = run sha256 empty_system es in IsBounded s.upload s.requests
  run-IsBounded es = run-Holds empty_system es tt
