-- ===== src/Fleet/Commands/Delivery.antt =====
-- The command queue over time: requests, polling machines, results and the hourly pruning, in any
-- order. A request looks for a command that it may share, and where there is none it waits until its text
-- is sealed and then puts a new one in: two events. So are a post's reading of the command and its
-- writing, between which it waits for its body.
use personal_cloud.Prelude.{
  ℕ, ◌+◌, ◌-◌, ◌≤◌, ◌≡◌, Bool, true, not, ◌&&◌, Option, none, some, List, [], ◌∷◌, arith, ◌==◌,
  if◌then◌else◌, Map, update, All, find-test, is_some, ◌<◌,
}
use personal_cloud.Prelude.Outcome.{Result, ok, err}
use personal_cloud.Store.{get, put, prune}
use personal_cloud.Store.Laws.{IsDistinct, get-put}
use personal_cloud.Fleet.Commands.{
  Method, Reply, Command, command_id, is_get, is_claimable, claimed, with_claim, next_command,
  completion, new_command, Decision, create, wait, outcome_unknown, decide,
}

-- A request that found no command to share.
pub record Asked : Type 0 where
  pub key : ℕ
  pub method : Method
  pub machine_id : ℕ

pub record Queue : Type 0 where
  pub commands : List Command
  -- the requests whose text is being sealed
  pub asking : Map Asked
  -- the command that each post in flight has read
  pub posts : Map Command
  -- what has been handed out, the latest first
  pub log : List (ℕ × Method)

pub data Event : Type 0 where
  ask : (op now key : ℕ) → Method → (machine_id : ℕ) → Event
  enqueue : (op now id : ℕ) → Event
  claim : (now machine_id : ℕ) → Event
  post : (op id : ℕ) → Event
  answer : (now op machine_id : ℕ) → Reply → (size : ℕ) → Event
  prune_commands : (now : ℕ) → Event

abbrev pub is_mutation : Method → Bool
is_mutation m = not (is_get m)

-- How often the mutation `id` has been handed to a machine.
abbrev pub deliveries : ℕ → List (ℕ × Method) → ℕ
deliveries id [] = 0
deliveries id ((j, m) ∷ log) = (if j == id && is_mutation m then 1 else 0) + deliveries id log

abbrev handed : ℕ → List Command → Option Command → List (ℕ × Method) → List (ℕ × Method)
handed now commands none log = log
handed now commands (some c) log = (c.id, c.method) ∷ log

-- `id()` gives an identity that was never used.
abbrev pub is_fresh : ℕ → Queue → Bool
is_fresh id q = not (is_some (get command_id id q.commands)) && deliveries id q.log == 0

abbrev pub with_answer : Queue → ℕ → Result Command → Queue
with_answer q op (err e) = q
with_answer q op (ok c) = record q { commands = put command_id c q.commands }

abbrev pub on_answer : Queue → ℕ → ℕ → ℕ → Reply → ℕ → Option Command → Queue
on_answer q now op machine_id r size none = q
on_answer q now op machine_id r size (some c) =
    with_answer q op (completion now machine_id (some c) r size)

abbrev pub asked : Decision → Asked → Option Asked
asked create a = some a
asked (wait c) a = none
asked outcome_unknown a = none

abbrev pub on_enqueue : Queue → ℕ → ℕ → ℕ → Option Asked → Queue
on_enqueue q op now id none = q
on_enqueue q op now id (some a) =
    if is_fresh id q
    then record q {
      commands = put command_id (new_command now id a.key a.method a.machine_id) q.commands;
      asking = update q.asking op none;
    }
    else q

unfoldable pub step : Queue → Event → Queue
step q (ask op now key method machine_id) = record q {
  asking = update q.asking op (
      asked (decide now key method q.commands)
        (record { key = key; method = method; machine_id = machine_id }));
}
step q (enqueue op now id) = on_enqueue q op now id (q.asking op)
step q (claim now machine_id) =
    let c = next_command now machine_id q.commands in
    record q { commands = with_claim now q.commands c; log = handed now q.commands c q.log }
step q (post op id) = record q { posts = update q.posts op (get command_id id q.commands) }
step q (answer now op machine_id r size) = on_answer q now op machine_id r size (q.posts op)
step q (prune_commands now) = record q {
  commands = prune (λ c. c.created_at) (now - 3600000) q.commands;
}

unfoldable pub run : Queue → List Event → Queue
run q [] = q
run q (e ∷ es) = run (step q e) es

abbrev pub empty_queue : Queue
empty_queue = record { commands = []; asking = λ _. none; posts = λ _. none; log = [] }

-- A mutation that nobody has claimed has never been handed out.
abbrev IsQuiet : List (ℕ × Method) → Command → Type 0
IsQuiet log c = c.claimed_at ≡ none → is_mutation c.method ≡ true → deliveries c.id log ≡ 0

record Holds (q : Queue) : Type 0 where
  distinct : IsDistinct command_id q.commands
  quiet : All (IsQuiet q.log) q.commands
  once : (id : ℕ) → deliveries id q.log ≤ 1

-- A claim hands out only a command of the polling machine that is neither finished nor expired, and
-- leaves it marked as claimed at that time, so its next poll does not get it again within a minute.
pub claim_lem :
    (q : Queue) (now machine_id : ℕ) (c : Command)
    → next_command now machine_id q.commands ≡ some c
    → (c.machine_id ≡ machine_id)
      × (c.completed_at ≡ none)
      × (now < c.expires_at)
      × (get command_id c.id (step q (claim now machine_id)).commands ≡ some (claimed now c))
unfolding step next_command is_claimable
claim_lem q now machine_id c found =
    let free = find-test (is_claimable now machine_id) q.commands c found in
    ground (arith, free, get-put command_id c.id (claimed now c) q.commands)
