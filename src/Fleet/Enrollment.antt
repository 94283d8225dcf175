-- ===== src/Fleet/Enrollment.antt =====
-- How machines join a workspace and report: the enrollment tokens, `/api/agent/enroll`,
-- `authenticateMachine`, the heartbeat and `PUT /api/machines/:machine` of
-- apps/control-cloud/src/fleet.ts. Hashes of tokens and credentials are compared only. What
-- `metadata` and `validateReport` accept is carried along; the directory of routes is another
-- service, and the events of `System` say where its answers are awaited.
pub mod System
pub mod Grants
pub mod Once
pub mod Limit
mod Examples
use personal_cloud.Prelude.{
  ℕ, ◌+◌, ◌*◌, Bool, true, false, not, ◌&&◌, ◌||◌, Option, none, some, List, ltb, leb, ◌==◌,
  is_some, find, any, length,
}
use personal_cloud.Prelude.Outcome.{Result, ok, err, fail, fail_if, or_fail, ◌>>=◌, ◌>>◌}
use personal_cloud.Store.{get, put}

-- Where a machine stands and what it is for, as `metadata` accepts it; roles and tags are numbered.
pub record Metadata : Type 0 where
  pub location : ℕ
  pub roles : List ℕ
  pub tags : List ℕ

pub record Grant : Type 0 where
  pub id : ℕ
  pub token_hash : ℕ
  pub metadata : Metadata
  pub setup_intent : Option ℕ
  pub expires_at : ℕ
  pub used_at : Option ℕ
  pub revoked_at : Option ℕ
  pub machine_id : Option ℕ

pub record Machine : Type 0 where
  pub id : ℕ
  pub credential_hash : ℕ
  pub metadata : Metadata
  pub setup_intent : Option ℕ
  pub report : ℕ
  pub last_seen : ℕ
  pub created_at : ℕ

abbrev pub grant_key : Grant → ℕ
grant_key g = g.token_hash

abbrev pub machine_key : Machine → ℕ
machine_key m = m.id

pub record Fleet : Type 0 where
  pub enrollments : List Grant
  pub machines : List Machine

-- `POST /api/enrollment-tokens`: the grant that is written once the directory has the token.
unfoldable pub new_grant : ℕ → ℕ → ℕ → Metadata → Option ℕ → Grant
new_grant now id hash input intent = record {
  id = id;
  token_hash = hash;
  metadata = input;
  setup_intent = intent;
  expires_at = now + 15 * 60000;
  used_at = none;
  revoked_at = none;
  machine_id = none;
}

unfoldable pub issue_grant : ℕ → ℕ → ℕ → ℕ → Metadata → Option ℕ → Fleet → Result Grant
issue_grant limit now id hash input intent f = do
  fail_if (leb limit (length f.machines)) 409 "Workspace machine limit reached"
  ok (new_grant now id hash input intent)

-- `DELETE /api/enrollment-tokens/:id`, before the directory is told.
unfoldable pub revoke : ℕ → ℕ → Fleet → Result Fleet
revoke now id f = do
  g ← or_fail (find (λ g. g.id == id) f.enrollments) 404 "Enrollment not found"
  fail_if (is_some g.used_at) 409
      "This command already connected a machine. Open Machines to manage it."
  ok (record f { enrollments = put grant_key (record g { revoked_at = some now }) f.enrollments })

-- The machine that asks to join: `id()` and the hash of a new credential are made for it.
pub record Applicant : Type 0 where
  pub token_hash : ℕ
  pub machine_id : ℕ
  pub credential_hash : ℕ
  pub report : ℕ

abbrev pub is_over : ℕ → Grant → Bool
is_over now g = is_some g.used_at || is_some g.revoked_at || leb g.expires_at now

-- The grant of a token that may still be used.
abbrev pub usable : ℕ → Option Grant → Result Grant
usable now none = fail 401 "Enrollment token expired or already used"
usable now (some g) = do
  fail_if (is_over now g) 401 "Enrollment token expired or already used"
  ok g

-- The check of `/api/agent/enroll` before the machine's route is published.
unfoldable pub apply : ℕ → Applicant → Fleet → Result Applicant
apply now a f = do usable now (get grant_key a.token_hash f.enrollments) >>= λ g. ok a

unfoldable pub new_machine : ℕ → Applicant → Grant → Machine
new_machine now a g = record {
  id = a.machine_id;
  credential_hash = a.credential_hash;
  metadata = g.metadata;
  setup_intent = g.setup_intent;
  report = a.report;
  last_seen = now;
  created_at = now;
}

-- The transaction of `/api/agent/enroll`.
unfoldable pub enroll : ℕ → ℕ → Applicant → Fleet → Result Fleet
enroll limit now a f = do
  g ← usable now (get grant_key a.token_hash f.enrollments)
  fail_if (leb limit (length f.machines)) 409 "Workspace machine limit reached"
  ok (record {
    enrollments =
        put grant_key (record g { used_at = some now; machine_id = some a.machine_id })
          f.enrollments;
    machines = put machine_key (new_machine now a g) f.machines;
  })

-- `authenticateMachine`
unfoldable pub authenticate : ℕ → ℕ → Fleet → Result Machine
authenticate id credential f = do
  m ← or_fail (get machine_key id f.machines) 401 "Machine authentication required"
  fail_if (not (m.credential_hash == credential)) 401 "Machine authentication required"
  ok m

-- The heartbeat and the change of a machine write back the machine that they read before the
-- request's body had arrived.
unfoldable pub beat : ℕ → ℕ → Machine → Fleet → Fleet
beat now report m f = record f {
  machines = put machine_key (record m { report = report; last_seen = now }) f.machines;
}

-- The role `database`
abbrev pub stores : List ℕ → Bool
stores roles = any (λ r. r == 2) roles

-- `PUT /api/machines/:machine`, where `owns` tells whether the machine has databases now.
unfoldable pub edit : Bool → Metadata → Machine → Fleet → Result Fleet
edit owns input m f = do
  fail_if (stores m.metadata.roles && not (stores input.roles) && owns) 409
      "Move or remove owned databases before removing this role"
  ok (record f { machines = put machine_key (record m { metadata = input }) f.machines })
