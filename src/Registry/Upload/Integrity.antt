-- ===== src/Registry/Upload/Integrity.antt =====
-- A blob is only ever stored under the digest of its own bytes.
use personal_cloud.Prelude.{
  ℕ, ◌≡◌, refl, Bool, true, false, Option, none, some, List, [], ◌∷◌, arith, Map, Option-cases, inl,
  inr, is_some,
}
use personal_cloud.Prelude.Outcome.{Result, ok, err}
use personal_cloud.Registry.Upload.{Upload, init, acquire, update_owned, release, expire}
use personal_cloud.Registry.Upload.Request.{Request, check, Verdict, reply, proceed}
use personal_cloud.Registry.Upload.System.{
  Stage, verified, published, Pending, System, Event, step, run, empty_system, set_upload, on_begin,
  on_checked, on_renew, on_store, on_commit, on_cancel, on_verify, on_publish, on_complete,
  on_finish, on_alarm, on_clear, initialize, begin, renew, store_part, commit_part, cancel_upload,
  verify, publish, complete_upload, finish, alarm, clear,
}

module _ (sha256 : List ℕ → ℕ) where
  -- What the stage of a request says of its digest and of the stored blobs.
  abbrev StageHolds : Stage → Option ℕ → Map (List ℕ) → Type 0
  StageHolds (verified bytes) expected blobs = expected ≡ some (sha256 bytes)
  StageHolds published none blobs = Unit
  StageHolds published (some d) blobs = is_some (blobs d) ≡ true
  StageHolds _ expected blobs = Unit

  abbrev RequestHolds : Option Pending → Map (List ℕ) → Type 0
  RequestHolds none blobs = Unit
  RequestHolds (some p) blobs = StageHolds p.stage p.expected blobs

  abbrev IsPublished : Option Upload → Map (List ℕ) → Type 0
  IsPublished none blobs = Unit
  IsPublished (some u) blobs = (d : ℕ) → u.completed ≡ some d → is_some (blobs d) ≡ true

  record Holds (s : System) : Type 0 where
    genuine : (d : ℕ) (bytes : List ℕ) → s.blobs d ≡ some bytes → sha256 bytes ≡ d
    requests : (op : ℕ) → RequestHolds (s.requests op) s.blobs
    completed : IsPublished s.upload s.blobs

  module _ (s : System) (h : Holds s) where
    on_checked-Holds :
        (now op : ℕ) (r : Request) (v : Result Verdict) → Holds (on_checked s now op r v)
    unfolding acquire
    on_checked-Holds now op r (err e) = h
    on_checked-Holds now op r (ok (reply a)) = h
    on_checked-Holds now op r (ok (proceed p)) = record {
      genuine = λ d bytes e. ground (arith, h.genuine d bytes);
      requests = λ op'. ground (arith, h.requests op');
      completed = ground arith;
    }

    on_renew-Holds : (now op : ℕ) → Holds (on_renew s now op (s.requests op))
    unfolding update_owned
    on_renew-Holds now op = record {
      genuine = λ d bytes e. ground (arith, h.genuine d bytes);
      requests = λ op'. ground (arith, h.requests op');
      completed = ground arith;
    }

    on_store-Holds : (op : ℕ) (data' : List ℕ) → Holds (on_store s op data' (s.requests op))
    on_store-Holds op data' = record {
      genuine = λ d bytes e. ground (arith, h.genuine d bytes);
      requests = λ op'. ground (arith, h.requests op');
      completed = ground arith;
    }

    on_commit-Holds : (now op : ℕ) → Holds (on_commit s now op (s.requests op))
    unfolding update_owned
    on_commit-Holds now op = record {
      genuine = λ d bytes e. ground (arith, h.genuine d bytes);
      requests = λ op'. ground (arith, h.requests op');
      completed = ground arith;
    }

    on_cancel-Holds : (now op : ℕ) → Holds (on_cancel s now op (s.requests op))
    unfolding update_owned
    on_cancel-Holds now op = record {
      genuine = λ d bytes e. ground (arith, h.genuine d bytes);
      requests = λ op'. ground (arith, h.requests op');
      completed = ground arith;
    }

    on_verify-Holds : (now op : ℕ) → Holds (on_verify sha256 s now op (s.requests op))
    unfolding update_owned
    on_verify-Holds now op = record {
      genuine = λ d bytes e. ground (arith, h.genuine d bytes);
      requests = λ op'. ground (arith, h.requests op');
      completed = ground arith;
    }

    on_publish-Holds : (op : ℕ) → Holds (on_publish s op (s.requests op))
    on_publish-Holds op = record {
      genuine = λ d bytes e. ground (arith, h.genuine d bytes, h.requests op);
      requests = λ op'. ground (arith, h.requests op', h.requests op);
      completed = ground (arith, h.completed);
    }

    on_complete-Holds : (now op : ℕ) → Holds (on_complete s now op (s.requests op))
    unfolding update_owned
    on_complete-Holds now op = record {
      genuine = λ d bytes e. ground (arith, h.genuine d bytes);
      requests = λ op'. ground (arith, h.requests op');
      completed = ground (arith, h.requests op);
    }

    on_finish-Holds : (now op : ℕ) → Holds (on_finish s now op (s.requests op))
    unfolding release
    on_finish-Holds now op = record {
      genuine = λ d bytes e. ground (arith, h.genuine d bytes);
      requests = λ op'. ground (arith, h.requests op');
      completed = ground arith;
    }

    on_alarm-Holds : (now : ℕ) → Holds (on_alarm s (expire now s.upload))
    unfolding expire
    on_alarm-Holds now = record {
      genuine = λ d bytes e. ground (arith, h.genuine d bytes);
      requests = λ op'. ground (arith, h.requests op');
      completed = ground arith;
    }

    set_upload-Holds : (now w name id : ℕ) → Holds (set_upload s (init now w name id s.upload))
    unfolding init
    set_upload-Holds now w name id = record {
      genuine = λ d bytes e. ground (arith, h.genuine d bytes);
      requests = λ op'. ground (arith, h.requests op');
      completed = ground arith;
    }

    on_begin-Holds : (now op : ℕ) (r : Request) → Holds (on_begin s now op r (s.requests op))
    on_begin-Holds now op r = elim (Option-cases (s.requests op)) [
      | inr (p, used) ↦ rw (used, on_begin) h
      | inl fresh ↦ rw (fresh, on_begin) (on_checked-Holds now op r (check r s.upload))
    ]

    on_clear-Holds : (b : Bool) → Holds (on_clear s b)
    on_clear-Holds true = record { genuine = h.genuine; requests = h.requests; completed = tt }
    on_clear-Holds false = h

  step-Holds : (s : System) (e : Event) → Holds s → Holds (step sha256 s e)
  unfolding step
  step-Holds s (initialize now w name id) h = set_upload-Holds s h now w name id
  step-Holds s (begin now op r) h = on_begin-Holds s h now op r
  step-Holds s (renew now op) h = on_renew-Holds s h now op
  step-Holds s (store_part op bytes) h = on_store-Holds s h op bytes
  step-Holds s (commit_part now op) h = on_commit-Holds s h now op
  step-Holds s (cancel_upload now op) h = on_cancel-Holds s h now op
  step-Holds s (verify now op) h = on_verify-Holds s h now op
  step-Holds s (publish op) h = on_publish-Holds s h op
  step-Holds s (complete_upload now op) h = on_complete-Holds s h now op
  step-Holds s (finish now op) h = on_finish-Holds s h now op
  step-Holds s (alarm now) h = on_alarm-Holds s h now
  step-Holds s clear h = on_clear-Holds s h s.expiring

  run-Holds : (s : System) (es : List Event) → Holds s → Holds (run sha256 s es)
  unfolding run
  run-Holds s [] h = h
  run-Holds s (e ∷ es) h = run-Holds (step sha256 s e) es (step-Holds s e h)

  empty-Holds : Holds empty_system
  empty-Holds = record { genuine = λ d bytes e. cc; requests = λ op. tt; completed = tt }

  run_from_empty : (es : List Event) → Holds (run sha256 empty_system es)
  run_from_empty es = run-Holds empty_system es empty-Holds

  -- After any requests in any order, every stored blob has the digest that it is named by.
  pub run-genuine :
      (es : List Event) (d : ℕ) (bytes : List ℕ)
      → (run sha256 empty_system es).blobs d ≡ some bytes
      → sha256 bytes ≡ d
  run-genuine es d bytes e = (run_from_empty es).genuine d bytes e

  found : (o : Option (List ℕ)) → is_some o ≡ true → (bytes : List ℕ) × (o ≡ some bytes)
  found none h = absurd (cc)
  found (some bytes) h = (bytes, refl)

  -- An upload that is complete has its blob stored, and the bytes have the digest it reports.
  pub run_completed :
      (es : List Event) (u : Upload) (d : ℕ)
      → (run sha256 empty_system es).upload ≡ some u
      → u.completed ≡ some d
      → (bytes : List ℕ) × ((run sha256 empty_system es).blobs d ≡ some bytes) × (sha256 bytes ≡ d)
  run_completed es u d there done =
      let h = run_from_empty es in
      let (bytes, stored) = found _ ((rw there at h.completed) d done) in
      (bytes, stored, h.genuine d bytes stored)
