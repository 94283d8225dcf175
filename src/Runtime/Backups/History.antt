-- ===== src/Runtime/Backups/History.antt =====
-- Backups over time (apps/control-cloud/src/runtime/backups.ts): whatever requests and alarms do.
use personal_cloud.Prelude.{
  ℕ, ◌≡◌, refl, not, ◌||◌, Option, none, some, List, [], ◌∷◌, ltb, if◌then◌else◌, is_some,
}
use personal_cloud.Prelude.Outcome.{Result, ok, err}
use personal_cloud.Store.{get}
use personal_cloud.Runtime.Backups.State.{
  Backup, Database, Policy, World, find_backup, find_database, policy_key, busy,
}
use personal_cloud.Runtime.Backups.Requests.{queue_backup}
use personal_cloud.Runtime.Backups.Passes.{after_queue, run_policy, schedule_known, schedule_policy}
use personal_cloud.Runtime.Backups.System.{
  Event, ask_backup, ask_restore, ask_delete, set_policy, uploaded, run_schedule, cleaned, start,
  observe, abort, apply_retention, expire, change_database, tick, ask_on, retain_on, step, run,
}
use personal_cloud.Runtime.Backups.Changes.{Change, branch, nothing}
use personal_cloud.Runtime.Backups.Asked.{
  queue_backup-Change, put_policy-Change, delete_backup-Change, restore_backup-Change,
  commit_transfer-Change,
}
use personal_cloud.Runtime.Backups.Passed.{
  finish_cleaning-Change, start_backup-Change, observe_backup-Change, abort_backup-Change,
  expire_backup-Change,
}
use personal_cloud.Runtime.Backups.Sound.{change-IsExclusive, change-IsSourced}
use personal_cloud.Runtime.Backups.Retention.{IsSound, retain-IsSound}

after_queue-Change :
    (n : ℕ) (p : Policy) (w : World) (x : Result (Unit {0}) × World)
    → Change n w x.1
    → Change n w (after_queue p x)
unfolding Change
after_queue-Change n p w (ok _, v) h = h
after_queue-Change n p w (err e, v) h = h

run_policy-Change :
    (n : ℕ) (p : Policy) (db : Option Database) (w : World)
    → find_backup n w ≡ none
    → Change n w (run_policy p db n w)
run_policy-Change n p none w f = nothing n w
run_policy-Change n p (some db) w f =
    branch n w (busy w db.id) _ _ (λ _. nothing n w)
      λ _. after_queue-Change n p w (queue_backup n db w) (queue_backup-Change n db w f)

schedule_known-Change :
    (n : ℕ) (p : Option Policy) (w : World)
    → find_backup n w ≡ none
    → Change n w (schedule_known p n w)
schedule_known-Change n none w f = nothing n w
schedule_known-Change n (some p) w f =
    branch n w (not p.is_enabled || ltb w.now p.next_at) _ _ (λ _. nothing n w)
      λ _. run_policy-Change n p (find_database p.id w) w f

schedule_policy-Change :
    (n k : ℕ) (w : World) → find_backup n w ≡ none → Change n w (schedule_policy k n w)
unfolding schedule_policy
schedule_policy-Change n k w f = schedule_known-Change n (get policy_key k w.policies) w f

ask_on-Change :
    (n : ℕ) (db : Option Database) (w : World) → find_backup n w ≡ none → Change n w (ask_on n db w)
ask_on-Change n none w f = nothing n w
ask_on-Change n (some db) w f = queue_backup-Change n db w f

sound : (n : ℕ) (w v : World) → Change n w v → IsSound w → IsSound v
sound n w v c h = (change-IsExclusive n w v c h.0, change-IsSourced n w v c h.1)

if_new-IsSound :
    (n : ℕ) (w v : World) (o : Option Backup)
    → find_backup n w ≡ o
    → (find_backup n w ≡ none → Change n w v)
    → IsSound w
    → IsSound (if is_some o then w else v)
if_new-IsSound n w v none f c h = sound n w v (c f) h
if_new-IsSound n w v (some b) f c h = h

retain_on-IsSound : (p : Option Policy) (w : World) → IsSound w → IsSound (retain_on p w)
retain_on-IsSound none w h = h
retain_on-IsSound (some p) w h = retain-IsSound p w h

-- Every event keeps two promises: a database has one active backup or restoration at most, and each
-- active restoration has its copy, a successful backup of the same database that is neither expiring
-- nor expired.
pub step-IsSound : (w : World) (e : Event) → IsSound w → IsSound (step w e)
unfolding step
step-IsSound w (ask_backup n db) h =
    if_new-IsSound n w _ (find_backup n w) refl (ask_on-Change n (find_database db w) w) h
step-IsSound w (ask_restore n target machine db k) h =
    if_new-IsSound n w _ (find_backup n w) refl (restore_backup-Change n target machine db k w) h
step-IsSound w (ask_delete db k) h = sound 0 w _ (delete_backup-Change 0 db k w) h
step-IsSound w (set_policy db enabled keep) h =
    sound 0 w _ (put_policy-Change 0 db enabled keep w) h
step-IsSound w (uploaded k o digest size) h =
    sound 0 w _ (commit_transfer-Change 0 k o digest size w) h
step-IsSound w (run_schedule k n) h =
    if_new-IsSound n w _ (find_backup n w) refl (schedule_policy-Change n k w) h
step-IsSound w (cleaned k revision) h = sound 0 w _ (finish_cleaning-Change 0 k revision w) h
step-IsSound w (start k job key token sealed) h =
    sound 0 w _ (start_backup-Change 0 k job key token sealed w) h
step-IsSound w (observe k t o) h = sound 0 w _ (observe_backup-Change 0 k t o w) h
step-IsSound w (abort k e) h = sound 0 w _ (abort_backup-Change 0 k e w) h
step-IsSound w (apply_retention k) h = retain_on-IsSound (get policy_key k w.policies) w h
step-IsSound w (expire k) h = sound 0 w _ (expire_backup-Change 0 k w) h
step-IsSound w (change_database d) h = h
step-IsSound w (tick t) h = h

-- However requests, uploads and alarms follow each other, a database has one active backup or
-- restoration at most, and the copy that an active restoration reads is a successful backup of the same
-- database, which retention and deletion leave alone. This holds from any workspace where it holds,
-- such as an empty one.
pub run-IsSound : (w : World) (es : List Event) → IsSound w → IsSound (run w es)
unfolding run
run-IsSound w [] h = h
run-IsSound w (e ∷ es) h = run-IsSound (step w e) es (step-IsSound w e h)
