-- ===== src/Fleet/Commands/Reuse.antt =====
-- When a request shares a command that is already there, and when it may put a new one in.
use personal_cloud.Prelude.{
  ℕ, ◌+◌, ◌≤◌, ◌<◌, ◌≡◌, ◌≢◌, Bool, true, false, not, ◌==◌, all, Option, none, some, List, [], ◌∷◌,
  arith, find, find-test, is_some, refl, All, ◌++◌,
}
use personal_cloud.Prelude.Outcome.{ok}
use personal_cloud.Store.{get}
use personal_cloud.Fleet.Commands.Delivery.{Asked, Queue, Event, ask, enqueue, asked, step, run}
use personal_cloud.Fleet.Commands.{
  Decision, Method, Command, Reply, command_id, is_get, is_shared, reuse_ms, create, wait, decided,
  decide, poll,
}

find-some :
    {A : Type 0} (p : A → Bool) (key : A → ℕ) (k : ℕ) (xs : List A) (a : A)
    → get key k xs ≡ some a
    → p a ≡ true
    → find p xs ≢ none
unfolding get
find-some p key k [] a e t = ground arith
find-some p key k (x ∷ xs) a e t = ground (arith, find-some p key k xs a)

decided-ne-create : (now : ℕ) (o : Option Command) → o ≢ none → decided now o ≢ create
decided-ne-create now none h = absurd (h refl)
decided-ne-create now (some c) h = ground arith

decide-blocked :
    (now key id : ℕ) (method : Method) (commands : List Command) (c : Command)
    → get command_id id commands ≡ some c
    → c.key ≡ key
    → is_get method ≡ false
    → is_some c.claimed_at ≡ true
    → c.completed_at ≡ none
    → decide now key method commands ≢ create
unfolding decide
decide-blocked now key id method commands c there same mutates taken open' =
    decided-ne-create now (find (is_shared now key method) commands)
      (find-some (is_shared now key method) command_id id commands c there (ground arith))

-- The event is not the start of this request.
abbrev pub is_other : ℕ → Event → Bool
is_other op (ask op' now key method machine_id) = not (op' == op)
is_other op e = true

asked-none : (d : Decision) (a : Asked) → d ≢ create → asked d a ≡ none
asked-none d a h = ground (arith, h)

step-asking :
    (op : ℕ) (q : Queue) (e : Event)
    → is_other op e ≡ true
    → q.asking op ≡ none
    → (step q e).asking op ≡ none
unfolding step
step-asking op q e h none_yet = ground (arith, h, none_yet)

run-asking :
    (op : ℕ) (q : Queue) (es : List Event)
    → all (is_other op) es ≡ true
    → q.asking op ≡ none
    → (run q es).asking op ≡ none
unfolding run
run-asking op q [] h none_yet = none_yet
run-asking op q (e ∷ es) h none_yet =
    run-asking op (step q e) es (ground arith) (step-asking op q e (ground arith) none_yet)

-- When a request for a mutation looks for a command and finds a stored one for the same thing that a
-- machine has taken and not answered, however long ago, that request never puts a second command in,
-- whatever happens afterwards. (A command is stored for an hour, and requests that have looked before
-- the first command was put in are not held back.)
pub mutation_blocks :
    (q : Queue) (op now key id : ℕ) (method : Method) (machine_id : ℕ) (c : Command)
    → get command_id id q.commands ≡ some c
    → c.key ≡ key
    → is_get method ≡ false
    → is_some c.claimed_at ≡ true
    → c.completed_at ≡ none
    → (es : List Event) → all (is_other op) es ≡ true
    → (later new : ℕ)
    → step (run (step q (ask op now key method machine_id)) es) (enqueue op later new)
      ≡ run (step q (ask op now key method machine_id)) es
unfolding step
mutation_blocks q op now key id method machine_id c there same mutates taken open' es others later
      new =
    let a : Asked = record { key = key; method = method; machine_id = machine_id } in
    let held =
      asked-none (decide now key method q.commands) a
        (decide-blocked now key id method q.commands c there same mutates taken open') in
    let none_yet =
      run-asking op (step q (ask op now key method machine_id)) es others (ground (arith, held)) in
    ground (arith, none_yet)

-- A request puts none in either while the same request waits in the queue and has not run out.
pub waiting_blocks :
    (now key id : ℕ) (method : Method) (commands : List Command) (c : Command)
    → get command_id id commands ≡ some c
    → c.key ≡ key
    → now < c.expires_at
    → c.completed_at ≡ none
    → decide now key method commands ≢ create
unfolding decide
waiting_blocks now key id method commands c there same live open' =
    decided-ne-create now (find (is_shared now key method) commands)
      (find-some (is_shared now key method) command_id id commands c there (ground arith))

decided_wait : (now : ℕ) (o : Option Command) (c : Command) → decided now o ≡ wait c → o ≡ some c
decided_wait now none c e = ground arith
decided_wait now (some d) c e = ground arith

-- An answer that is shared is one to the same request, and recent: of a finished command less than
-- 5 s old for a read, 60 s for a mutation.
pub shared_recent :
    (now key : ℕ) (method : Method) (commands : List Command) (c : Command)
    → decide now key method commands ≡ wait c
    → (c.key ≡ key)
      × ((at : ℕ) → c.completed_at ≡ some at → (now < at + reuse_ms method) × (now < c.expires_at))
unfolding decide
shared_recent now key method commands c e =
    let shared = find-test (is_shared now key method) commands c (decided_wait now _ c e) in
    (ground arith, λ at done. (ground arith, ground arith))

-- The wait ends with the first finished look: its reply if the status is one of 200 to 299.
pub poll_first :
    (waiting : List Command) (c : Command) (rest : List Command) (r : Reply)
    → All (λ w. w.completed_at ≡ none) waiting
    → is_some c.completed_at ≡ true
    → c.result ≡ some r
    → 200 ≤ r.status
    → r.status < 300
    → poll (waiting ++ c ∷ rest) ≡ ok r
unfolding poll
poll_first [] c rest r none_done done result low high = ground arith
poll_first (w ∷ ws) c rest r (open', more) done result low high =
    ground (arith, poll_first ws c rest r more)
