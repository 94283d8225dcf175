-- ===== src/Runtime/Backups/System.antt =====
-- Backups over time (apps/control-cloud/src/runtime/backups.ts): requests and alarms in any order.
use personal_cloud.Prelude.{ℕ, Bool, Option, none, some, List, [], ◌∷◌, is_some, if◌then◌else◌}
use personal_cloud.Prelude.Outcome.{Error}
use personal_cloud.Store.{get}
use personal_cloud.Runtime.Backups.State.{
  Database, Policy, World, find_backup, find_database, policy_key, save_database,
}
use personal_cloud.Runtime.Backups.Requests.{
  Object, queue_backup, put_policy, delete_backup, restore_backup, commit_transfer,
}
use personal_cloud.Runtime.Backups.Passes.{
  Task, schedule_policy, finish_cleaning, start_backup, observe_backup, abort_backup, expire_backup,
}
use personal_cloud.Runtime.Backups.Retain.{retain}

pub data Event : Type 0 where
  -- the identities that are made up come first
  ask_backup : ℕ → ℕ → Event
  ask_restore : ℕ → ℕ → ℕ → ℕ → ℕ → Event
  ask_delete : ℕ → ℕ → Event
  set_policy : ℕ → Bool → ℕ → Event
  uploaded : ℕ → Option Object → ℕ → ℕ → Event
  run_schedule : ℕ → ℕ → Event
  cleaned : ℕ → ℕ → Event
  start : ℕ → ℕ → ℕ → ℕ → ℕ → Event
  observe : ℕ → Option Task → Option Object → Event
  abort : ℕ → Error → Event
  apply_retention : ℕ → Event
  expire : ℕ → Event
  -- other parts of the program change a database; time passes
  change_database : Database → Event
  tick : ℕ → Event

abbrev pub ask_on : ℕ → Option Database → World → World
ask_on id none w = w
ask_on id (some db) w = (queue_backup id db w).1

abbrev pub retain_on : Option Policy → World → World
retain_on none w = w
retain_on (some p) w = retain p w

-- A new operation has an identity that no other has.
abbrev pub if_new : ℕ → World → World → World
if_new id w v = if is_some (find_backup id w) then w else v

unfoldable pub step : World → Event → World
step w (ask_backup id db) = if_new id w (ask_on id (find_database db w) w)
step w (ask_restore id target machine db k) =
    if_new id w (restore_backup id target machine db k w).1
step w (ask_delete db k) = (delete_backup db k w).1
step w (set_policy db enabled keep) = (put_policy db enabled keep w).1
step w (uploaded k persisted digest size) = (commit_transfer k persisted digest size w).1
step w (run_schedule k id) = if_new id w (schedule_policy k id w)
step w (cleaned k revision) = finish_cleaning k revision w
step w (start k job key token sealed) = start_backup k job key token sealed w
step w (observe k t o) = observe_backup k t o w
step w (abort k e) = abort_backup k e w
step w (apply_retention k) = retain_on (get policy_key k w.policies) w
step w (expire k) = expire_backup k w
step w (change_database d) = save_database d w
step w (tick t) = record w { now = t }

unfoldable pub run : World → List Event → World
run w [] = w
run w (e ∷ es) = run (step w e) es
