-- ===== src/Registry/Upload/Examples.antt =====
-- One upload from `POST` to `PUT`, and the theorems about uploads at it.
use personal_cloud.Prelude.{
  ℕ, ◌+◌, ◌≡◌, refl, true, false, none, some, List, [], ◌∷◌, length, arith,
}
use personal_cloud.Prelude.Outcome.{fail}
use personal_cloud.Registry.Upload.{Upload, init, acquire, update_owned, release}
use personal_cloud.Registry.Upload.Bounds.{IsBounded, run-IsBounded}
use personal_cloud.Registry.Upload.Integrity.{run-genuine, run_completed}
use personal_cloud.Registry.Upload.Lease.{Follows, Expires, lease_excludes, step-Follows}
use personal_cloud.Registry.Upload.Recovery.{run_assembles}
use personal_cloud.Registry.Upload.Request.{
  Method, patch, put, Header, absent, given, Request, check,
}
use personal_cloud.Registry.Upload.System.{
  System, Event, empty_system, step, run, assemble, initialize, begin, store_part, commit_part,
  verify, publish, complete_upload, finish,
}

-- Any function from bytes to a number can stand for the digest.
abbrev sum_bytes : List ℕ → ℕ
sum_bytes [] = 0
sum_bytes (b ∷ bs) = b + sum_bytes bs

abbrev request : Method → Header ℕ → ℕ → Request
request method digest n = record {
  internal = true;
  workspace_id = 1;
  name = 2;
  id = 3;
  method = method;
  digest = digest;
  content_length = given n;
  content_range = absent;
  has_body = true;
}

abbrev sending : List Event
sending =
    initialize 10 1 2 3
    ∷ begin 11 7 (request patch absent 2)
    ∷ store_part 7 (65 ∷ 66 ∷ [])
    ∷ commit_part 12 7
    ∷ finish 13 7
    ∷ []

abbrev sent : Upload
sent = record {
  workspace_id = 1;
  name = 2;
  id = 3;
  chunks = record { key = 7; size = 2 } ∷ [];
  size = 2;
  updated = 13;
  operation = none;
  completed = none;
  cancelled = false;
}

abbrev closing : List Event
closing =
    initialize 10 1 2 3
    ∷ begin 11 7 (request patch absent 2)
    ∷ store_part 7 (65 ∷ 66 ∷ [])
    ∷ commit_part 12 7
    ∷ finish 13 7
    ∷ begin 14 8 (request put (given 131) 0)
    ∷ verify 15 8
    ∷ publish 8
    ∷ complete_upload 16 8
    ∷ finish 17 8
    ∷ []

abbrev done : Upload
done = record sent { updated = 16; completed = some 131 }

run-sending : (run sum_bytes empty_system sending).upload ≡ some sent
unfolding run step init acquire update_owned release check
run-sending = refl

run-closing : (run sum_bytes empty_system closing).upload ≡ some done
unfolding run step init acquire update_owned release check assemble
run-closing = refl

run-closing_blob : (run sum_bytes empty_system closing).blobs 131 ≡ some (65 ∷ 66 ∷ [])
unfolding run step init acquire update_owned release check assemble
run-closing_blob = refl

run-IsBounded_example : let s = run sum_bytes empty_system sending in IsBounded s.upload s.requests
run-IsBounded_example = run-IsBounded sum_bytes sending

run-genuine_example : sum_bytes (65 ∷ 66 ∷ []) ≡ 131
run-genuine_example = run-genuine sum_bytes closing 131 (65 ∷ 66 ∷ []) run-closing_blob

run_completed_example :
    (bytes : List ℕ) × ((run sum_bytes empty_system closing).blobs 131 ≡ some bytes)
    × (sum_bytes bytes ≡ 131)
run_completed_example = run_completed sum_bytes closing done 131 run-closing refl

run_assembles_example :
    (bytes : List ℕ) × (assemble (run sum_bytes empty_system sending).parts sent.chunks
      ≡ some bytes)
    × (length bytes ≡ 2)
run_assembles_example = run_assembles sum_bytes sending sent run-sending refl refl

abbrev held : Upload
held = record sent { operation = some (record { id = 7; expires = 120011 }) }

abbrev holding : System
holding = record empty_system { upload = some held }

lease_excludes_example :
    (step sum_bytes holding (begin 500 9 (request patch absent 4))).upload ≡ some held
lease_excludes_example =
    lease_excludes sum_bytes holding (begin 500 9 (request patch absent 4)) held
      (record { id = 7; expires = 120011 }) refl refl refl (omega arith)

step-Follows_example :
    Follows holding (finish 600 7) held (step sum_bytes holding (finish 600 7)).upload
    × Expires holding (finish 600 7) held (step sum_bytes holding (finish 600 7))
step-Follows_example = step-Follows sum_bytes holding (finish 600 7) held refl

-- A chunk of more than 100 MiB is refused, and so is one at the wrong offset.
too_large :
    check (request patch absent 104857601) (some sent) ≡ fail 413 "Upload chunk exceeds 100 MiB"
unfolding check
too_large = refl

wrong_offset :
    acquire 20 9 4 (some 5) (some sent)
    ≡ fail 416 "Upload range does not match the committed offset"
unfolding acquire
wrong_offset = refl
