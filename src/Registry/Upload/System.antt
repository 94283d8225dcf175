-- ===== src/Registry/Upload/System.antt =====
-- `RegistryUpload` over time: the durable upload, the requests in flight between their awaits, and
-- the objects of one upload in R2. Each event is one stretch of the source between two awaits, and
-- the events of several requests may come in any order. A request that throws goes to `finish`.
-- `sha256` is the platform's digest of the assembled bytes.
use personal_cloud.Prelude.{
  ℕ, Bool, true, false, Option, none, some, List, [], ◌∷◌, ◌++◌, ◌==◌, if◌then◌else◌, length, is_id,
  Map, update,
}
use personal_cloud.Prelude.Outcome.{Result, ok, err}
use personal_cloud.Registry.Upload.{
  Chunk, Upload, init, acquire, update_owned, release, expire, keep, append, complete, cancel,
}
use personal_cloud.Registry.Upload.Request.{
  Method, is_put, is_delete, Request, Verdict, reply, proceed, Plan, value_of, check,
}

-- How far a request has come: it has the lease; its part is in R2; the part is committed (or there
-- was none); the assembled bytes have the right digest; its blob is published; it has ended.
pub data Stage : Type 0 where
  leased parted committed : Stage
  verified : List ℕ → Stage
  published finished : Stage

pub record Pending : Type 0 where
  pub method : Method
  pub length : ℕ
  pub expected : Option ℕ
  pub stage : Stage
  -- the local `state`
  pub state : Upload
  -- `partCommitted`
  pub part_committed : Bool

pub record System : Type 0 where
  pub upload : Option Upload
  pub requests : Map Pending
  pub parts : Map (List ℕ)
  pub blobs : Map (List ℕ)
  -- an alarm has cancelled the upload and is about to delete everything
  pub expiring : Bool

pub data Event : Type 0 where
  initialize : (now workspace_id name id : ℕ) → Event
  begin : (now op : ℕ) → Request → Event
  renew : (now op : ℕ) → Event
  store_part : (op : ℕ) → List ℕ → Event
  commit_part : (now op : ℕ) → Event
  cancel_upload : (now op : ℕ) → Event
  verify : (now op : ℕ) → Event
  publish : (op : ℕ) → Event
  complete_upload : (now op : ℕ) → Event
  finish : (now op : ℕ) → Event
  alarm : (now : ℕ) → Event
  clear : Event

abbrev pub empty_system : System
empty_system = record {
  upload = none;
  requests = λ _. none;
  parts = λ _. none;
  blobs = λ _. none;
  expiring = false;
}

abbrev pub set_upload : System → Result (Option Upload) → System
set_upload s (ok u) = record s { upload = u }
set_upload s (err e) = s

-- With no bytes to store the request is at once where a stored part would bring it.
abbrev first_stage : ℕ → Stage
first_stage n = if n == 0 then committed else leased

abbrev pub begun : Request → Plan → Upload → Pending
begun r p u = record {
  method = r.method;
  length = p.length;
  expected = value_of r.digest;
  stage = first_stage p.length;
  state = u;
  part_committed = false;
}

abbrev pub on_acquired : System → ℕ → Request → Plan → Result Upload → System
on_acquired s op r p (err e) = s
on_acquired s op r p (ok u) = record s {
  upload = some u;
  requests = update s.requests op (some (begun r p u));
}

abbrev pub on_checked : System → ℕ → ℕ → Request → Result Verdict → System
on_checked s now op r (err e) = s
on_checked s now op r (ok (reply answer)) = s
on_checked s now op r (ok (proceed p)) =
    on_acquired s op r p (acquire now op p.length p.start s.upload)

-- A new request: `operation = id()` is an identity that no earlier request has.
abbrev pub on_begin : System → ℕ → ℕ → Request → Option Pending → System
on_begin s now op r (some _) = s
on_begin s now op r none = on_checked s now op r (check r s.upload)

abbrev pub with_stage : Pending → Stage → Pending
with_stage p stage = record p { stage = stage }

-- `updateOwned(operation)`: a failure ends the request.
abbrev pub on_renewed : System → ℕ → Pending → Result Upload → System
on_renewed s op p (err e) = record s {
  requests = update s.requests op (some (with_stage p finished));
}
on_renewed s op p (ok u) = record s { upload = some u }

abbrev pub on_renew : System → ℕ → ℕ → Option Pending → System
on_renew s now op none = s
on_renew s now op (some p) = elim p.stage [
  | finished ↦ s
  | _ ↦ on_renewed s op p (update_owned now op keep s.upload)
]

-- `FixedLengthStream` and the byte count let exactly `length` bytes through. A cancelling request
-- stores nothing.
abbrev pub on_store : System → ℕ → List ℕ → Option Pending → System
on_store s op bytes none = s
on_store s op bytes (some p) = elim p.stage [
  | leased ↦
      if is_delete p.method
      then s
      else if length bytes == p.length
      then record s {
        parts = update s.parts op (some bytes);
        requests = update s.requests op (some (with_stage p parted));
      }
      else record s { requests = update s.requests op (some (with_stage p finished)) }
  | _ ↦ s
]

abbrev pub after_commit : Pending → Upload → Pending
after_commit p u = record p { stage = committed; state = u; part_committed = true }

abbrev pub on_committed : System → ℕ → Pending → Result Upload → System
on_committed s op p (err e) = record s {
  requests = update s.requests op (some (with_stage p finished));
}
on_committed s op p (ok u) = record s {
  upload = some u;
  requests = update s.requests op (some (after_commit p u));
}

abbrev pub chunk_of : ℕ → Pending → Chunk
chunk_of op p = record { key = op; size = p.length }

abbrev pub on_commit : System → ℕ → ℕ → Option Pending → System
on_commit s now op none = s
on_commit s now op (some p) = elim p.stage [
  | parted ↦ on_committed s op p (update_owned now op (append (chunk_of op p)) s.upload)
  | _ ↦ s
]

-- `DELETE`, and `removePrefix`: every part of the upload goes.
abbrev pub on_cancelled : System → ℕ → Pending → Result Upload → System
on_cancelled s op p (err e) = record s {
  requests = update s.requests op (some (with_stage p finished));
}
on_cancelled s op p (ok u) = record s {
  upload = some u;
  parts = λ _. none;
  requests = update s.requests op (some (with_stage p finished));
}

abbrev pub on_cancel : System → ℕ → ℕ → Option Pending → System
on_cancel s now op none = s
on_cancel s now op (some p) = elim p.stage [
  | finished ↦ s
  | _ ↦ if is_delete p.method then on_cancelled s op p (update_owned now op cancel s.upload) else s
]

-- The chunks one after another; a chunk that is missing or has another size is an error.
unfoldable pub assemble : Map (List ℕ) → List Chunk → Option (List ℕ)
assemble parts [] = some []
assemble parts (c ∷ cs) = elim (parts c.key) [
  | none ↦ none
  | some bytes ↦
      if length bytes == c.size
      then elim (assemble parts cs) [ none ↦ none | some rest ↦ some (bytes ++ rest) ]
      else none
]

module _ (sha256 : List ℕ → ℕ) where
  -- The digest of the assembled object is the one that the request named.
  abbrev pub on_assembled : System → ℕ → Pending → Option (List ℕ) → Result Upload → System
  on_assembled s op p none r = record s {
    requests = update s.requests op (some (with_stage p finished));
  }
  on_assembled s op p (some bytes) (err e) = record s {
    requests = update s.requests op (some (with_stage p finished));
  }
  on_assembled s op p (some bytes) (ok u) =
      if is_id p.expected (sha256 bytes)
      then record s {
        upload = some u;
        requests = update s.requests op (some (with_stage p (verified bytes)));
      }
      else record s { requests = update s.requests op (some (with_stage p finished)) }

  -- Parts are only ever deleted, so reading them one by one is reading them together.
  abbrev pub on_verify : System → ℕ → ℕ → Option Pending → System
  on_verify s now op none = s
  on_verify s now op (some p) = elim p.stage [
    | committed ↦
        if is_put p.method
        then on_assembled s op p (assemble s.parts p.state.chunks)
            (update_owned now op keep s.upload)
        else s
    | _ ↦ s
  ]

-- The blob's object is named after the digest that the request gave.
abbrev pub publish_as : System → ℕ → Pending → List ℕ → Option ℕ → System
publish_as s op p bytes none = s
publish_as s op p bytes (some digest) = record s {
  blobs = update s.blobs digest (some bytes);
  requests = update s.requests op (some (with_stage p published));
}

abbrev pub on_publish : System → ℕ → Option Pending → System
on_publish s op none = s
on_publish s op (some p) = elim p.stage [
  | verified bytes ↦ publish_as s op p bytes p.expected
  | _ ↦ s
]

abbrev pub on_completed : System → ℕ → Pending → Result Upload → System
on_completed s op p (err e) = record s {
  requests = update s.requests op (some (with_stage p finished));
}
on_completed s op p (ok u) = record s {
  upload = some u;
  parts = λ _. none;
  requests = update s.requests op (some (with_stage p finished));
}

abbrev pub complete_with : System → ℕ → ℕ → Pending → Option ℕ → System
complete_with s now op p none = s
complete_with s now op p (some digest) =
    on_completed s op p (update_owned now op (complete digest) s.upload)

abbrev pub on_complete : System → ℕ → ℕ → Option Pending → System
on_complete s now op none = s
on_complete s now op (some p) = elim p.stage [
  | published ↦ complete_with s now op p p.expected
  | _ ↦ s
]

-- `finally`: a part that was not committed is deleted, and a lease that is still held is given back.
abbrev pub on_finish : System → ℕ → ℕ → Option Pending → System
on_finish s now op none = s
on_finish s now op (some p) = record s {
  upload = release now op s.upload;
  parts = if p.part_committed then s.parts else update s.parts op none;
  requests = update s.requests op (some (with_stage p finished));
}

abbrev pub on_alarm : System → Option Upload → System
on_alarm s none = s
on_alarm s (some u) = record s { upload = some u; expiring = true }

-- `removePrefix` and `deleteAll` after an alarm has cancelled the upload.
abbrev pub on_clear : System → Bool → System
on_clear s false = s
on_clear s true = record s { upload = none; parts = λ _. none; expiring = false }

module _ (sha256 : List ℕ → ℕ) where
  unfoldable pub step : System → Event → System
  step s (initialize now w name id) = set_upload s (init now w name id s.upload)
  step s (begin now op r) = on_begin s now op r (s.requests op)
  step s (renew now op) = on_renew s now op (s.requests op)
  step s (store_part op bytes) = on_store s op bytes (s.requests op)
  step s (commit_part now op) = on_commit s now op (s.requests op)
  step s (cancel_upload now op) = on_cancel s now op (s.requests op)
  step s (verify now op) = on_verify sha256 s now op (s.requests op)
  step s (publish op) = on_publish s op (s.requests op)
  step s (complete_upload now op) = on_complete s now op (s.requests op)
  step s (finish now op) = on_finish s now op (s.requests op)
  step s (alarm now) = on_alarm s (expire now s.upload)
  step s clear = on_clear s s.expiring

  unfoldable pub run : System → List Event → System
  run s [] = s
  run s (e ∷ es) = run (step s e) es
