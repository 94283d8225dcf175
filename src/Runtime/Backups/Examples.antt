-- ===== src/Runtime/Backups/Examples.antt =====
-- A database is backed up and restored, and its copy cannot be deleted meanwhile.
use personal_cloud.Prelude.{ℕ, ◌≡◌, refl, true, false, none, some, List, [], ◌∷◌}
use personal_cloud.Store.{get, put}
use personal_cloud.Runtime.Backups.State.{
  Status, succeeded, provisioning, Backup, Database, World, find_backup, busy,
}
use personal_cloud.Runtime.Backups.Requests.{
  Object, queue_backup, delete_backup, restore_backup, commit_transfer,
}
use personal_cloud.Runtime.Backups.Passes.{Task, complete, start_backup, observe_backup}
use personal_cloud.Runtime.Backups.System.{
  Event, ask_backup, ask_restore, ask_delete, uploaded, start, observe, step, run,
}
use personal_cloud.Runtime.Backups.Retention.{IsSound}
use personal_cloud.Runtime.Backups.History.{run-IsSound}

abbrev postgres : Database
postgres = record {
  id = 3;
  machine_id = 11;
  node = 1;
  is_ready = true;
  is_failed = false;
  restore_id = none;
  restore_succeeded = none;
}

abbrev empty : World
empty = record { now = 1000; backups = []; databases = postgres ∷ []; policies = [] }

abbrev dump : Object
dump = record { sha = some 77; size = 500 }

abbrev both : Task
both = record { node = 1; client_status = complete; both_done = true }

-- The second backup is refused, and so is the deletion during the restoration.
abbrev events : List Event
events =
    ask_backup 20 3
    ∷ ask_backup 21 3
    ∷ start 20 30 40 50 60
    ∷ uploaded 20 (some dump) 77 500
    ∷ observe 20 (some both) (some dump)
    ∷ ask_restore 22 4 11 3 20
    ∷ ask_delete 3 20
    ∷ []

abbrev statuses : List Backup → List (ℕ × Status)
statuses [] = []
statuses (b ∷ bs) = (b.id, b.status) ∷ statuses bs

backed_up : statuses (run empty events).backups ≡ (20, succeeded) ∷ (22, provisioning) ∷ []
unfolding run step queue_backup busy start_backup commit_transfer observe_backup restore_backup
    delete_backup get put
backed_up = refl

nothing_there : (i : ℕ) (a : Backup) → find_backup i empty ≡ some a → {B : Type 0} → B
unfolding get
nothing_there i a g = absurd (cc)

empty-IsSound : IsSound empty
empty-IsSound = ((λ i j a b ga gb aa ab e. nothing_there i a ga), λ i a ga aa. nothing_there i a ga)

run-IsSound_example : IsSound (run empty events)
run-IsSound_example = run-IsSound empty events empty-IsSound
