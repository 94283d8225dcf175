-- ===== src/Fleet/Enrollment/System.antt =====
-- Machines and users of one workspace over time: each event is a stretch of a handler of
-- apps/control-cloud/src/fleet.ts between two awaits. A request in flight keeps what it has read.
-- The two reads of an authenticated request are taken as one.
use personal_cloud.Prelude.{
  ℕ, ◌+◌, Bool, Option, none, some, List, [], ◌∷◌, ◌==◌, is_some, if◌then◌else◌, Map, update,
}
use personal_cloud.Prelude.Outcome.{Result, ok, err}
use personal_cloud.Store.{get, put, delete}
use personal_cloud.Fleet.Enrollment.{
  Metadata, Grant, Machine, Fleet, Applicant, grant_key, machine_key, issue_grant, revoke, apply,
  enroll, authenticate, beat, edit,
}

pub record World : Type 0 where
  pub fleet : Fleet
  -- the grants whose token is being published
  pub issuing : Map Grant
  -- the machines whose route is being published
  pub applying : Map Applicant
  -- the machines that requests in flight have read
  pub reading : Map Machine
  -- the tokens with which machines have joined, the latest first
  pub joined : List ℕ

pub data Event : Type 0 where
  issue : (op now id hash : ℕ) → Metadata → Option ℕ → Event
  issued : (op : ℕ) → Event
  revoked : (now id : ℕ) → Event
  knock : (op now : ℕ) → Applicant → Event
  join : (op now : ℕ) → Event
  read_own : (op id credential : ℕ) → Event
  report_own : (op now report : ℕ) → Event
  read_machine : (op id : ℕ) → Event
  edit_machine : (op : ℕ) (owns : Bool) → Metadata → Event
  remove_machine : (id : ℕ) → Event

abbrev pub kept {ℓ} : {A : Type ℓ} → Result A → Option A
kept (err problem) = none
kept (ok a) = some a

-- A handler that fails leaves the documents as they are.
abbrev pub after : Fleet → Result Fleet → Fleet
after f (err problem) = f
after f (ok g) = g

-- The token is random, so its hash is a new one.
abbrev pub with_grant : World → Option Grant → World
with_grant w none = w
with_grant w (some g) =
    if is_some (get grant_key g.token_hash w.fleet.enrollments)
    then w
    else record w { fleet = record w.fleet { enrollments = put grant_key g w.fleet.enrollments } }

abbrev pub with_machine : World → Applicant → Result Fleet → World
with_machine w a (err problem) = w
with_machine w a (ok f) = record w { fleet = f; joined = a.token_hash ∷ w.joined }

abbrev pub with_applicant : ℕ → ℕ → World → Option Applicant → World
with_applicant limit now w none = w
with_applicant limit now w (some a) = with_machine w a (enroll limit now a w.fleet)

abbrev pub with_report : ℕ → ℕ → World → Option Machine → World
with_report now report w none = w
with_report now report w (some m) = record w { fleet = beat now report m w.fleet }

abbrev pub with_edit : Bool → Metadata → World → Option Machine → World
with_edit owns input w none = w
with_edit owns input w (some m) = record w { fleet = after w.fleet (edit owns input m w.fleet) }

-- `limit` is MAX_MACHINES_PER_WORKSPACE.
unfoldable pub step : ℕ → World → Event → World
step limit w (issue op now id hash input intent) = record w {
  issuing = update w.issuing op (kept (issue_grant limit now id hash input intent w.fleet));
}
step limit w (issued op) = with_grant w (w.issuing op)
step limit w (revoked now id) = record w { fleet = after w.fleet (revoke now id w.fleet) }
step limit w (knock op now a) = record w {
  applying = update w.applying op (kept (apply now a w.fleet));
}
step limit w (join op now) = with_applicant limit now w (w.applying op)
step limit w (read_own op id credential) = record w {
  reading = update w.reading op (kept (authenticate id credential w.fleet));
}
step limit w (report_own op now report) = with_report now report w (w.reading op)
step limit w (read_machine op id) = record w {
  reading = update w.reading op (get machine_key id w.fleet.machines);
}
step limit w (edit_machine op owns input) = with_edit owns input w (w.reading op)
step limit w (remove_machine id) = record w {
  fleet = record w.fleet { machines = delete machine_key id w.fleet.machines };
}

unfoldable pub run : ℕ → World → List Event → World
run limit w [] = w
run limit w (e ∷ es) = run limit (step limit w e) es

-- How often machines have joined with a token.
abbrev pub joins : ℕ → List ℕ → ℕ
joins hash [] = 0
joins hash (h ∷ hs) = (if h == hash then 1 else 0) + joins hash hs

abbrev pub empty_world : World
empty_world = record {
  fleet = record { enrollments = []; machines = [] };
  issuing = λ op. none;
  applying = λ op. none;
  reading = λ op. none;
  joined = [];
}
