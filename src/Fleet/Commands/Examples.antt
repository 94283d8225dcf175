-- ===== src/Fleet/Commands/Examples.antt =====
-- One mutation from the request to its result, and the theorems about commands at it.
use personal_cloud.Prelude.{◌≡◌, refl, String, none, some, List, [], ◌∷◌}
use personal_cloud.Prelude.Outcome.{ok, err, pending, fail}
use personal_cloud.Store.{get, put}
use personal_cloud.Fleet.Commands.{
  post_method, Command, Machine, NomadRequest, route, decide, next_command, new_command, completion,
}
use personal_cloud.Fleet.Commands.Delivery.{
  Queue, ask, Event, enqueue, claim, post, answer, step, run, empty_queue,
}
use personal_cloud.Fleet.Commands.Reuse.{mutation_blocks}

abbrev fleet : List Machine
fleet = record { id = 5; last_seen = 1000 } ∷ []

abbrev asking : String → NomadRequest
asking path = record { method = post_method; path = path; machine_id = none }

route_ok : route 2000 (asking "/v1/jobs") (some 5) fleet ≡ ok 5
unfolding route
route_ok = refl

route_offline : route 90000 (asking "/v1/jobs") (some 5) fleet ≡ err pending
unfolding route
route_offline = refl

route_outside : route 2000 (asking "/v1/../x") (some 5) fleet ≡ fail 400 "Invalid runtime request"
unfolding route
route_outside = refl

abbrev events : List Event
events =
    ask 4 9 77 post_method 5
    ∷ enqueue 4 10 1
    ∷ claim 20 5
    ∷ claim 90000 5
    ∷ post 3 1
    ∷ answer 90010 3 5 (record { status = 200; body = 9 }) 12
    ∷ []

run-events_log : (run empty_queue events).log ≡ (1, post_method) ∷ []
unfolding run step next_command new_command completion get put decide
run-events_log = refl

abbrev taken : Command
taken = record {
  id = 1;
  key = 77;
  method = post_method;
  machine_id = 5;
  created_at = 10;
  expires_at = 120010;
  claimed_at = some 20;
  completed_at = none;
  result = none;
}

abbrev waiting : Command
waiting = record taken { claimed_at = none }

abbrev finished : Command
finished = record taken {
  completed_at = some 50;
  result = some (record { status = 200; body = 9 });
}

-- Two requests for one mutation that look at the same time both put a command in.
abbrev twice : List Event
twice =
    ask 4 9 77 post_method 5
    ∷ ask 6 9 77 post_method 5
    ∷ enqueue 4 10 1
    ∷ enqueue 6 11 2
    ∷ claim 20 5
    ∷ claim 30 5
    ∷ []

twice_log : (run empty_queue twice).log ≡ (2, post_method) ∷ (1, post_method) ∷ []
unfolding run step next_command new_command get put decide
twice_log = refl

abbrev busy_queue : Queue
busy_queue = record empty_queue { commands = taken ∷ [] }

abbrev asked_queue : Queue
asked_queue = run (step busy_queue (ask 4 999999 77 post_method 5)) (claim 999999 5 ∷ [])

mutation_blocks_example : step asked_queue (enqueue 4 1000000 9) ≡ asked_queue
unfolding get
mutation_blocks_example =
    mutation_blocks busy_queue 4 999999 77 1 post_method 5 taken refl refl refl refl refl
      (claim 999999 5 ∷ []) refl 1000000 9
