-- ===== src/Fleet/Commands.antt =====
-- The queue of commands between the workspace and its machines: `requestNomad`
-- (apps/control-cloud/src/workspace.ts) puts a command in and waits for its result; a machine
-- claims one by polling and posts what came of it (apps/control-cloud/src/fleet.ts).
-- Times are milliseconds. The stored texts are encrypted with `seal` and read back with `open`; the
-- model keeps them as they are. `key_of` is the SHA-256 of the request's JSON.
pub mod Delivery
pub mod Reuse
mod Examples
use text.Mathlib.Text.{starts_with, find? as position_of}
use personal_cloud.Prelude.{
  ℕ, ◌+◌, String, Bool, true, false, not, ◌&&◌, ◌||◌, Option, none, some, List, [], ◌∷◌, ltb, leb,
  ◌==◌, if◌then◌else◌, is_some, find, filter,
}
use personal_cloud.Prelude.Outcome.{Result, ok, err, pending, fail, fail_if, or_fail, ◌>>=◌, ◌>>◌}
use personal_cloud.Store.{get, put}

pub data Method : Type 0 where
  get_method post_method put_method delete_method other_method : Method

pub record Reply : Type 0 where
  pub status : ℕ
  pub body : ℕ

pub record Command : Type 0 where
  pub id : ℕ
  pub key : ℕ
  pub method : Method
  pub machine_id : ℕ
  pub created_at : ℕ
  pub expires_at : ℕ
  pub claimed_at : Option ℕ
  pub completed_at : Option ℕ
  pub result : Option Reply

pub record Machine : Type 0 where
  pub id : ℕ
  pub last_seen : ℕ

pub record NomadRequest : Type 0 where
  pub method : Method
  pub path : String
  pub machine_id : Option ℕ

abbrev pub command_id : Command → ℕ
command_id c = c.id

abbrev pub machine_key : Machine → ℕ
machine_key m = m.id

abbrev pub is_get : Method → Bool
is_get get_method = true
is_get _ = false

abbrev is_known : Method → Bool
is_known other_method = false
is_known _ = true

-- `requestedMachine ?? runtime?.nomad_url?.replace(/^agent:\/\//, "")`
abbrev chosen : Option ℕ → Option ℕ → Option ℕ
chosen (some m) runtime = some m
chosen none runtime = runtime

abbrev machine_of : Option ℕ → List Machine → Option Machine
machine_of none machines = none
machine_of (some m) machines = get machine_key m machines

-- The checks at the head of `requestNomad`: the machine that the request goes to.
unfoldable pub route : ℕ → NomadRequest → Option ℕ → List Machine → Result ℕ
unfolding get
route now r runtime machines = do
  fail_if
      (not (is_known r.method)
        || not (starts_with r.path "/v1/")
        || is_some (position_of r.path ".."))
      400 "Invalid runtime request"
  m ←
      or_fail (machine_of (chosen r.machine_id runtime) machines) 409
        "Add and provision a fleet server first"
  if ltb (m.last_seen + 60000) now then err pending else ok m.id

-- How long a finished command answers again: 5 s for a read, 60 s for a mutation.
abbrev pub reuse_ms : Method → ℕ
reuse_ms method = if is_get method then 5000 else 60000

abbrev is_recent : ℕ → Method → Option ℕ → Bool
is_recent now method none = true
is_recent now method (some at) = ltb now (at + reuse_ms method)

-- The command with this key that a new request may share.
unfoldable pub is_shared : ℕ → ℕ → Method → Command → Bool
is_shared now key method c =
    c.key == key
    && ((not (is_some c.completed_at) && is_some c.claimed_at && not (is_get method))
        || (ltb now c.expires_at && is_recent now method c.completed_at))

pub data Decision : Type 0 where
  create : Decision
  wait : Command → Decision
  -- the machine took a command and its time is over
  outcome_unknown : Decision

abbrev decided : ℕ → Option Command → Decision
decided now none = create
decided now (some c) =
    if is_some c.claimed_at && not (is_some c.completed_at) && leb c.expires_at now
    then outcome_unknown
    else wait c

unfoldable pub decide : ℕ → ℕ → Method → List Command → Decision
unfolding is_shared
decide now key method commands = decided now (find (is_shared now key method) commands)

unfoldable pub new_command : ℕ → ℕ → ℕ → Method → ℕ → Command
new_command now id key method machine_id = record {
  id = id;
  key = key;
  method = method;
  machine_id = machine_id;
  created_at = now;
  expires_at = now + 120000;
  claimed_at = none;
  completed_at = none;
  result = none;
}

-- One look at the command while `requestNomad` waits: a result outside 200..299 is an error.
abbrev observed : Option Reply → Result (Option Reply)
observed none = ok none
observed (some r) =
    if ltb r.status 200 || leb 300 r.status
    then fail r.status "Machine runtime returned an error"
    else ok (some r)

abbrev look : Command → Result (Option Reply)
look c = if is_some c.completed_at then observed c.result else ok none

abbrev answer_or : Option Reply → Result Reply → Result Reply
answer_or none later = later
answer_or (some r) later = ok r

-- The loop of 40 looks half a second apart, over what each look finds.
unfoldable pub poll : List Command → Result Reply
poll [] = err pending
poll (c ∷ cs) = let later = poll cs in look c >>= λ found. answer_or found later

-- A read that a machine took more than 60 s ago may be taken again; a mutation never.
abbrev may_claim : ℕ → Method → Option ℕ → Bool
may_claim now method none = true
may_claim now method (some at) = is_get method && ltb (at + 60000) now

unfoldable pub is_claimable : ℕ → ℕ → Command → Bool
is_claimable now machine_id c =
    c.machine_id == machine_id
    && may_claim now c.method c.claimed_at
    && not (is_some c.completed_at)
    && ltb now c.expires_at

abbrev pub claimed : ℕ → Command → Command
claimed now c = record c { claimed_at = some now }

abbrev pub with_claim : ℕ → List Command → Option Command → List Command
with_claim now commands none = commands
with_claim now commands (some c) = put command_id (claimed now c) commands

-- `GET /api/agent/:machine/commands`: the command that is handed out, if any.
unfoldable pub next_command : ℕ → ℕ → List Command → Option Command
unfolding is_claimable
next_command now machine_id commands = find (is_claimable now machine_id) commands

-- `POST /api/agent/:machine/commands/:id`. The command is read before the body arrives, so the
-- handler writes back what it read.
abbrev is_foreign : ℕ → Option Command → Bool
is_foreign machine_id none = true
is_foreign machine_id (some c) =
    not (c.machine_id == machine_id) || not (is_some c.claimed_at) || is_some c.completed_at

abbrev is_bad_reply : ℕ → ℕ → Bool
is_bad_reply status size = ltb status 100 || ltb 599 status || ltb 1048576 size

unfoldable pub completion : ℕ → ℕ → Option Command → Reply → ℕ → Result Command
completion now machine_id none reply size = fail 409 "Command expired or already completed"
completion now machine_id (some c) reply size = do
  fail_if (is_foreign machine_id (some c)) 409 "Command expired or already completed"
  fail_if (is_bad_reply reply.status size) 400 "Invalid command result"
  ok (record c { result = some reply; completed_at = some now })
