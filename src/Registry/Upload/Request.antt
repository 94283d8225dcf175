-- ===== src/Registry/Upload/Request.antt =====
-- What `RegistryUpload.fetch` answers or demands before it takes the lease
-- (apps/control-cloud/src/registry.ts): identity, state, method and header checks, in its order.
use text.Mathlib.Text.{starts_with}
use personal_cloud.Prelude.{
  ℕ, ◌+◌, ◌-◌, Bool, true, false, ◌&&◌, ◌||◌, Option, none, some, ltb, ◌==◌, not, if◌then◌else◌,
  is_some, is_id,
}
use personal_cloud.Prelude.Outcome.{Error, http, pending, other, Result, ok, fail, fail_if, ◌>>◌}
use personal_cloud.Registry.Upload.{Upload, max_chunk}

pub data Method : Type 0 where
  get patch put delete other_method : Method

-- A header or query value that is missing, does not match its pattern, or does. An empty
-- `Content-Range` counts as missing.
pub data Header {ℓ} (A : Type ℓ) : Type ℓ where
  absent : Header A
  malformed : Header A
  given : A → Header A

pub record Request : Type 0 where
  -- the three internal identity headers match their patterns
  pub internal : Bool
  pub workspace_id : ℕ
  pub name : ℕ
  pub id : ℕ
  pub method : Method
  pub digest : Header ℕ
  pub content_length : Header ℕ
  pub content_range : Header (ℕ × ℕ)
  pub has_body : Bool

pub data Reply : Type 0 where
  -- 204: the next byte to send, with the digest once the upload is complete
  at_offset : ℕ → Option ℕ → Reply
  -- 201
  stored : ℕ → Reply
  -- 202
  accepted : ℕ → Reply

pub record Plan : Type 0 where
  pub length : ℕ
  pub start : Option ℕ

pub data Verdict : Type 0 where
  reply : Reply → Verdict
  proceed : Plan → Verdict

abbrev pub value_of : Header ℕ → Option ℕ
value_of absent = none
value_of malformed = none
value_of (given d) = some d

abbrev is_absent : Header ℕ → Bool
is_absent absent = true
is_absent _ = false

abbrev is_malformed : Header ℕ → Bool
is_malformed malformed = true
is_malformed _ = false

abbrev pub is_put : Method → Bool
is_put put = true
is_put _ = false

abbrev pub is_get : Method → Bool
is_get get = true
is_get _ = false

abbrev pub is_delete : Method → Bool
is_delete delete = true
is_delete _ = false

-- `["PATCH", "PUT", "DELETE"].includes(method)`
abbrev is_write : Method → Bool
is_write patch = true
is_write put = true
is_write delete = true
is_write _ = false

-- `Number(declared ?? 0)`
abbrev pub length_of : Header ℕ → ℕ
length_of (given n) = n
length_of _ = 0

-- `Number(m[2]) - Number(m[1]) + 1 !== length`, for a header that is there
abbrev is_bad_range : Header (ℕ × ℕ) → ℕ → Bool
is_bad_range absent length = false
is_bad_range malformed length = true
is_bad_range (given (first, last)) length = not (last + 1 == first + length)

abbrev start_of : Header (ℕ × ℕ) → Option ℕ
start_of (given (first, last)) = some first
start_of _ = none

-- `Range: 0-${Math.max(0, size - 1)}`
abbrev pub offset_of : Upload → ℕ
offset_of u = u.size - 1

unfoldable pub check_headers : Request → Result Verdict
check_headers r = do
  fail_if (not (is_write r.method)) 405 "Method not allowed"
  fail_if (is_put r.method && not (is_some (value_of r.digest))) 400
      "A valid sha256 digest is required"
  fail_if (not (is_delete r.method) && r.has_body && is_absent r.content_length) 411
      "Content-Length is required for each upload chunk; send bounded chunks"
  fail_if (is_malformed r.content_length) 400 "Invalid Content-Length"
  let length = length_of r.content_length
  fail_if (ltb max_chunk length) 413 "Upload chunk exceeds 100 MiB"
  fail_if (is_bad_range r.content_range length) 416 "Invalid upload range"
  ok (proceed (record { length = length; start = start_of r.content_range }))

-- A completed upload answers a repeated `PUT` of its digest, and `GET`.
unfoldable pub check_completed : Request → Upload → ℕ → Result Verdict
check_completed r u digest =
    if is_put r.method && is_id (value_of r.digest) digest
    then ok (reply (stored digest))
    else if is_get r.method
    then ok (reply (at_offset (offset_of u) (some digest)))
    else fail 404 "Upload is already complete"

unfoldable pub check_open : Request → Upload → Option ℕ → Result Verdict
unfolding check_completed check_headers
check_open r u (some digest) = check_completed r u digest
check_open r u none =
    if is_get r.method then ok (reply (at_offset (offset_of u) none)) else check_headers r

unfoldable pub check : Request → Option Upload → Result Verdict
unfolding check_open
check r none = do
  fail_if (not r.internal) 403 "Invalid internal upload identity"
  fail 404 "Upload not found"
check r (some u) = do
  fail_if (not r.internal) 403 "Invalid internal upload identity"
  fail_if
      (not (u.workspace_id == r.workspace_id)
        || not (u.name == r.name)
        || not (u.id == r.id)
        || u.cancelled)
      404 "Upload not found"
  check_open r u u.completed

pub data ErrorCode : Type 0 where
  digest_invalid size_invalid range_invalid upload_unknown upload_invalid unknown : ErrorCode

abbrev pub status_of : Error → ℕ
status_of (http status message) = status
status_of pending = 500
status_of other = 500

abbrev is_mismatch : Error → Bool
is_mismatch (http status message) = starts_with message "Blob digest mismatch"
is_mismatch _ = false

-- `uploadFailure`: the registry error code of a failure.
unfoldable pub upload_failure : Error → ErrorCode
upload_failure e =
    if is_mismatch e
    then digest_invalid
    else if status_of e == 411
    then size_invalid
    else if status_of e == 416
    then range_invalid
    else if status_of e == 404
    then upload_unknown
    else if status_of e == 400
    then upload_invalid
    else unknown
