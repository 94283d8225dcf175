-- ===== src/Registry/Upload.antt =====
-- The storage transactions of `RegistryUpload` (apps/control-cloud/src/registry.ts), one durable
-- object for each blob upload. Times are milliseconds; identities and digests are only compared,
-- so they are numbers. A chunk's object name ends in the operation that wrote it, which is its key.
pub mod Request
pub mod System
pub mod Bounds
pub mod Parts
pub mod Recovery
pub mod Integrity
pub mod Lease
mod Examples
use personal_cloud.Prelude.{
  ℕ, ◌+◌, max, Bool, true, false, ◌&&◌, ◌||◌, Option, none, some, List, [], ◌∷◌, ◌++◌, ltb, leb,
  ◌==◌, not, if◌then◌else◌, length, is_some, is_id,
}
use personal_cloud.Prelude.Outcome.{Result, ok, err, fail, fail_if, or_fail, ◌>>=◌, ◌>>◌}

abbrev pub lease_ms : ℕ
lease_ms = 120000

abbrev pub upload_ttl_ms : ℕ
upload_ttl_ms = 86400000

abbrev pub max_chunk : ℕ
max_chunk = 104857600

abbrev pub max_blob : ℕ
max_blob = 5368709120

abbrev pub max_chunks : ℕ
max_chunks = 512

pub record Chunk : Type 0 where
  pub key : ℕ
  pub size : ℕ

pub record Operation : Type 0 where
  pub id : ℕ
  pub expires : ℕ

pub record Upload : Type 0 where
  pub workspace_id : ℕ
  pub name : ℕ
  pub id : ℕ
  pub chunks : List Chunk
  pub size : ℕ
  pub updated : ℕ
  pub operation : Option Operation
  pub completed : Option ℕ
  pub cancelled : Bool

-- `/init`: the first call creates the upload, a repeated one for the same identity does nothing.
unfoldable pub init : ℕ → ℕ → ℕ → ℕ → Option Upload → Result (Option Upload)
init now workspace_id name id none = ok (
    some (record {
      workspace_id = workspace_id;
      name = name;
      id = id;
      chunks = [];
      size = 0;
      updated = now;
      operation = none;
      completed = none;
      cancelled = false;
    }))
init now workspace_id name id (some u) =
    if u.workspace_id == workspace_id && u.name == name && u.id == id
    then ok (some u)
    else fail 409 "Upload already exists"

abbrev pub is_leased : ℕ → Option Operation → Bool
is_leased now none = false
is_leased now (some o) = ltb now o.expires

abbrev pub is_elsewhere : Option ℕ → ℕ → Bool
is_elsewhere none size = false
is_elsewhere (some start) size = not (start == size)

-- The transaction that takes the lease, for `length` bytes and perhaps a first byte position.
unfoldable pub acquire : ℕ → ℕ → ℕ → Option ℕ → Option Upload → Result Upload
acquire now op length' start none = fail 409 "Upload changed; query its current status"
acquire now op length' start (some u) = do
  fail_if (is_some u.completed || u.cancelled) 409 "Upload changed; query its current status"
  fail_if (is_leased now u.operation) 409 "Another upload operation is in progress"
  fail_if (is_elsewhere start u.size) 416 "Upload range does not match the committed offset"
  fail_if (ltb max_blob (u.size + length') || leb max_chunks (length u.chunks)) 413
      "Upload exceeds the supported blob size or chunk count"
  ok (record u { operation = some (record { id = op; expires = now + lease_ms }); updated = now })

-- The `change` callbacks that the source passes to `updateOwned`.
pub data Change : Type 0 where
  keep : Change
  append : Chunk → Change
  complete : ℕ → Change
  cancel : Change

unfoldable pub change : Change → Upload → Upload
change keep u = u
change (append c) u = record u { chunks = u.chunks ++ c ∷ []; size = u.size + c.size }
change (complete digest) u = record u { completed = some digest; operation = none }
change cancel u = record u { cancelled = true; operation = none }

abbrev pub owns : Option Operation → ℕ → Bool
owns none op = false
owns (some o) op = o.id == op

abbrev pub renewed : ℕ → Option Operation → Option Operation
renewed now none = none
renewed now (some o) = some (record o { expires = now + lease_ms })

unfoldable pub touch : ℕ → Upload → Upload
touch now u = record u { updated = now; operation = renewed now u.operation }

unfoldable pub update_owned : ℕ → ℕ → Change → Option Upload → Result Upload
unfolding change touch
update_owned now op c none = fail 409 "Upload operation was superseded; query the current offset"
update_owned now op c (some u) =
    if not (owns u.operation op) || u.cancelled || is_some u.completed
    then fail 409 "Upload operation was superseded; query the current offset"
    else ok (touch now (change c u))

-- The transaction of the `finally` block.
unfoldable pub release : ℕ → ℕ → Option Upload → Option Upload
release now op none = none
release now op (some u) =
    if owns u.operation op then some (record u { operation = none; updated = now }) else some u

abbrev pub lease_end : Option Operation → ℕ
lease_end none = 0
lease_end (some o) = o.expires

abbrev pub expires : Upload → ℕ
expires u = max (u.updated + upload_ttl_ms) (lease_end u.operation)

-- The transaction of `alarm`: an idle upload is cancelled; `none` means that it is left alone.
unfoldable pub expire : ℕ → Option Upload → Option Upload
expire now none = none
expire now (some u) =
    if ltb now (expires u) then none else some (record u { cancelled = true; operation = none })
