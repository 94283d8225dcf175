-- ===== src/Fleet/Enrollment/Examples.antt =====
-- A user gives out two tokens, takes one back, and two machines try the other at once.
use personal_cloud.Prelude.{
  ℕ, ◌+◌, ◌≤◌, ◌≡◌, ◌≢◌, refl, none, some, List, [], ◌∷◌, ◌++◌, length, false,
}
use personal_cloud.Prelude.Outcome.{ok, err, http}
use personal_cloud.Store.{get, put, delete}
use personal_cloud.Fleet.Enrollment.{
  Metadata, Grant, Fleet, Applicant, grant_key, machine_key, new_grant, new_machine, apply, enroll,
  revoke, is_over, issue_grant, authenticate, beat,
}
use personal_cloud.Fleet.Enrollment.System.{
  World, Event, issue, issued, revoked, knock, join, read_own, report_own, remove_machine, step,
  run, joins, empty_world,
}
use personal_cloud.Fleet.Enrollment.Grants.{IsMade, enroll_lem}
use personal_cloud.Fleet.Enrollment.Once.{joins_once, revoke_ends}
use personal_cloud.Fleet.Enrollment.Limit.{machines_limit}

abbrev home : Metadata
home = record { location = 0; roles = 0 ∷ 2 ∷ []; tags = [] }

abbrev grant : Grant
grant = record {
  id = 1;
  token_hash = 77;
  metadata = home;
  setup_intent = none;
  expires_at = 900010;
  used_at = none;
  revoked_at = none;
  machine_id = none;
}

abbrev applicant : ℕ → Applicant
applicant id = record { token_hash = 77; machine_id = id; credential_hash = 900 + id; report = 5 }

abbrev given : List Event
given = issue 1 10 1 77 home none ∷ issued 1 ∷ issue 2 11 2 88 home none ∷ issued 2 ∷ []

abbrev both : List Event
both = knock 3 20 (applicant 5) ∷ knock 4 21 (applicant 6) ∷ join 4 30 ∷ join 3 31 ∷ []

abbrev start : World
start = run 4 empty_world given

abbrev waiting_fleet : Fleet
waiting_fleet = record { enrollments = grant ∷ []; machines = [] }

abbrev joined_fleet : Fleet
joined_fleet = record {
  enrollments = record grant { used_at = some 30; machine_id = some 6 } ∷ [];
  machines =
      record {
        id = 6;
        credential_hash = 906;
        metadata = home;
        setup_intent = none;
        report = 5;
        last_seen = 30;
        created_at = 30;
      }
      ∷ [];
}

two_try : (run 4 start both).joined ≡ 77 ∷ []
unfolding run step issue_grant new_grant apply enroll new_machine get put
two_try = refl

six_joins : enroll 4 30 (applicant 6) waiting_fleet ≡ ok joined_fleet
unfolding enroll get put new_machine
six_joins = refl

too_late :
    enroll 4 900010 (applicant 6) waiting_fleet
    ≡ err (http 401 "Enrollment token expired or already used")
unfolding enroll get
too_late = refl

-- A report whose machine was read before its removal writes the machine again.
abbrev reported : List Event
reported = read_own 7 6 906 ∷ remove_machine 6 ∷ report_own 7 50 9 ∷ []

reported_again : length (run 4 (run 4 start both) reported).fleet.machines ≡ 1
unfolding run step issue_grant new_grant apply enroll new_machine get put authenticate beat delete
reported_again = refl

joins_once_example : joins 77 (run 4 empty_world (given ++ both)).joined ≤ 1
joins_once_example = joins_once 4 (given ++ both) 77

machines_limit_example : length (run 4 empty_world (given ++ both)).fleet.machines ≤ 4
machines_limit_example = machines_limit 4 (given ++ both) refl

abbrev revoked_fleet : Fleet
revoked_fleet = record { enrollments = record grant { revoked_at = some 25 } ∷ []; machines = [] }

abbrev waiting : World
waiting = record empty_world { fleet = waiting_fleet; applying = λ op. some (applicant 5) }

abbrev late_joins : List Event
late_joins = join 3 26 ∷ join 4 27 ∷ []

revoke_one : revoke 25 1 waiting_fleet ≡ ok revoked_fleet
unfolding revoke put
revoke_one = refl

revoke_ends_example : joins 77 (run 4 (step 4 waiting (revoked 25 1)) late_joins).joined ≡ 0
revoke_ends_example = revoke_ends 4 25 1 waiting revoked_fleet grant revoke_one refl late_joins

enroll_lem_example :
    (d : Grant) × (get grant_key 77 waiting_fleet.enrollments ≡ some d)
    × (is_over 30 d ≡ false)
    × IsMade (applicant 6) d (get machine_key 6 joined_fleet.machines)
    × ((k : ℕ)
        → k ≢ 6
        → get machine_key k joined_fleet.machines ≡ get machine_key k waiting_fleet.machines)
    × ((k : ℕ)
        → k ≢ 77
        → get grant_key k joined_fleet.enrollments ≡ get grant_key k waiting_fleet.enrollments)
    × ((later : ℕ) (b : Applicant)
        → b.token_hash ≡ 77
        → enroll 4 later b joined_fleet ≡ err (http 401 "Enrollment token expired or already used"))
enroll_lem_example = enroll_lem 4 30 (applicant 6) waiting_fleet joined_fleet six_joins
