-- ===== src/Runtime/Backups/Passed.antt =====
-- The passes of the alarm as changes of the operations (apps/control-cloud/src/runtime/backups.ts).
use personal_cloud.Prelude.{
  ℕ, ◌≡◌, refl, Bool, true, false, not, Option, none, some, arith, ◌||◌, ◌&&◌, ◌==◌, ltb,
}
use personal_cloud.Prelude.Outcome.{Error}
use personal_cloud.Store.Laws.{get-key}
use personal_cloud.Runtime.Backups.State.{
  Kind, backup, restore, Status, queued, provisioning, running, succeeded, failed, expiring,
  expired, Backup, Database, World, find_backup, save_backup, backup_id, is_active, is_running,
}
use personal_cloud.Runtime.Backups.Requests.{Object}
use personal_cloud.Runtime.Backups.Passes.{
  Task, ClientStatus, complete, broken, unfinished, mark_target, target_of, fail_backup,
  clean_found, finish_cleaning, started, finished, failed_by, start_lost, start_with, observe_end,
  is_expiring, start_on, start_known, database_of, start_backup, agrees, finish_with, finish_object,
  observe_on, observe_known, observe_backup, abort_known, abort_backup, expire_known, expire_backup,
  may_start,
}
use personal_cloud.Runtime.Backups.Changes.{Change, saved, branch, nothing}

mark_target-backups :
    (kind : Kind) (db : Option Database) (success : Bool) (w : World)
    → (mark_target kind db success w).backups ≡ w.backups
mark_target-backups restore (some db) success w = refl
mark_target-backups restore none success w = refl
mark_target-backups backup db success w = refl

pub finish_cleaning-Change :
    (n k revision : ℕ) (w : World) → Change n w (finish_cleaning k revision w)
unfolding finish_cleaning
finish_cleaning-Change n k revision w = clean (find_backup k w) refl
  where
    clean : (b : Option Backup) → find_backup k w ≡ b → Change n w (clean_found b revision w)
    clean none g = nothing n w
    clean (some b) g =
        branch n w (b.updated_at == revision) _ _
          (λ _.
            saved n w w k b
              (record b { job_encrypted = none; token_hash = none; cleanup_pending = false }) refl g
              (refl, refl, refl, refl, (λ h. h), (λ h k. absurd (cc)), λ i. (refl, refl, refl)))
          λ _. nothing n w

-- One operation that is active.
module _ (n k : ℕ) (b : Backup) (w : World) (g : find_backup k w ≡ some b)
    (a : is_active b.status ≡ true) where
  found : find_backup b.id w ≡ some b
  found = ground (arith, get-key backup_id k b w.backups g, g)

  fail_backup-Change : (e : Error) → Change n w (fail_backup b.id e w)
  unfolding fail_backup
  fail_backup-Change e = rw found (
      saved n w (mark_target b.kind (target_of b w) false w) k b (failed_by e w b)
        (mark_target-backups b.kind (target_of b w) false w) g
        (
          refl,
          refl,
          refl,
          refl,
          (λ h. absurd (cc)),
          (λ h _. absurd (ground arith)),
          λ i. absurd (cc),
        ))

  start_lost-Change : (s : Status) → Change n w (start_lost s b w)
  start_lost-Change provisioning = nothing n w
  start_lost-Change queued = fail_backup-Change _
  start_lost-Change running = fail_backup-Change _
  start_lost-Change succeeded = fail_backup-Change _
  start_lost-Change failed = fail_backup-Change _
  start_lost-Change expiring = fail_backup-Change _
  start_lost-Change expired = fail_backup-Change _

  started-Change :
      (db : Database) (job key token sealed : ℕ)
      → Change n w (save_backup (started db job key token sealed b) w)
  started-Change db job key token sealed =
      saved n w w k b (started db job key token sealed b) refl g
        (refl, refl, refl, refl, (λ h. a), (λ h _. absurd (ground arith)), λ i. absurd (cc))

  start_with-Change :
      (s : Status) (db : Database) (c : Backup)
      → Change n w (save_backup c w)
      → Change n w (start_with s b db c w)
  start_with-Change provisioning db c h =
      branch n w db.is_failed _ _ (λ _. fail_backup-Change _)
        λ _. branch n w (not db.is_ready) _ _ (λ _. nothing n w) λ _. h
  start_with-Change queued db c h =
      branch n w (not db.is_ready) _ _ (λ _. fail_backup-Change _) λ _. h
  start_with-Change running db c h = nothing n w
  start_with-Change succeeded db c h = nothing n w
  start_with-Change failed db c h = nothing n w
  start_with-Change expiring db c h = nothing n w
  start_with-Change expired db c h = nothing n w

  start_on-Change :
      (db : Option Database) (job key token sealed : ℕ)
      → Change n w (start_on b db job key token sealed w)
  start_on-Change none job key token sealed = start_lost-Change b.status
  start_on-Change (some db) job key token sealed =
      start_with-Change b.status db (started db job key token sealed b)
        (started-Change db job key token sealed)

  finish_with-Change : (digest : Option ℕ) (size : ℕ) → Change n w (finish_with b digest size w)
  finish_with-Change none size = fail_backup-Change _
  finish_with-Change (some digest) size =
      branch n w (not (agrees b.checksum digest)) _ _ (λ _. fail_backup-Change _)
        λ _.
          saved n w (mark_target b.kind (target_of b w) true w) k b (finished digest size w b)
            (mark_target-backups b.kind (target_of b w) true w) g
            (
              refl,
              refl,
              refl,
              refl,
              (λ h. absurd (cc)),
              (λ h _. absurd (ground arith)),
              λ i. absurd (cc),
            )

  finish_object-Change : (o : Option Object) → Change n w (finish_object b o w)
  finish_object-Change none = fail_backup-Change _
  finish_object-Change (some o) = finish_with-Change o.sha o.size

  observe_end-Change :
      (c : ClientStatus) (done : Bool) (o : Option Object) → Change n w (observe_end c b done o w)
  observe_end-Change broken done o = fail_backup-Change _
  observe_end-Change unfinished done o = nothing n w
  observe_end-Change complete done o =
      branch n w (not done) _ _ (λ _. fail_backup-Change _) λ _. finish_object-Change o

  observe_on-Change :
      (db : Option Database) (t : Option Task) (o : Option Object)
      → Change n w (observe_on b db t o w)
  observe_on-Change none t o = fail_backup-Change _
  observe_on-Change (some db) none o = nothing n w
  observe_on-Change (some db) (some t) o =
      branch n w (not (t.node == db.node)) _ _ (λ _. fail_backup-Change _)
        λ _. observe_end-Change t.client_status t.both_done o

start_known-Change :
    (n k : ℕ) (b : Option Backup) (job key token sealed : ℕ) (w : World)
    → find_backup k w ≡ b
    → Change n w (start_known b job key token sealed w)
start_known-Change n k none job key token sealed w g = nothing n w
start_known-Change n k (some b) job key token sealed w g =
    branch n w (not (may_start b.status) || b.cleanup_pending) _ _ (λ _. nothing n w)
      λ h.
        let a : is_active b.status ≡ true = ground arith in
        branch n w (ltb b.deadline w.now) _ _ (λ _. fail_backup-Change n k b w g a _)
          λ _. start_on-Change n k b w g a (database_of b w) job key token sealed

pub start_backup-Change :
    (n k job key token sealed : ℕ) (w : World) → Change n w (start_backup k job key token sealed w)
unfolding start_backup
start_backup-Change n k job key token sealed w =
    start_known-Change n k (find_backup k w) job key token sealed w refl

observe_known-Change :
    (n k : ℕ) (b : Option Backup) (t : Option Task) (o : Option Object) (w : World)
    → find_backup k w ≡ b
    → Change n w (observe_known b t o w)
observe_known-Change n k none t o w g = nothing n w
observe_known-Change n k (some b) t o w g =
    branch n w (not (is_running b.status) || b.cleanup_pending) _ _ (λ _. nothing n w)
      λ h.
        let a : is_active b.status ≡ true = ground arith in
        branch n w (ltb b.deadline w.now) _ _ (λ _. fail_backup-Change n k b w g a _)
          λ _. observe_on-Change n k b w g a (database_of b w) t o

pub observe_backup-Change :
    (n k : ℕ) (t : Option Task) (o : Option Object) (w : World)
    → Change n w (observe_backup k t o w)
unfolding observe_backup
observe_backup-Change n k t o w = observe_known-Change n k (find_backup k w) t o w refl

abort_known-Change :
    (n k : ℕ) (b : Option Backup) (e : Error) (w : World)
    → find_backup k w ≡ b
    → Change n w (abort_known b e w)
abort_known-Change n k none e w g = nothing n w
abort_known-Change n k (some b) e w g =
    branch n w (is_active b.status && not b.cleanup_pending) _ _
      (λ h. fail_backup-Change n k b w g (ground arith) e) λ _. nothing n w

pub abort_backup-Change : (n k : ℕ) (e : Error) (w : World) → Change n w (abort_backup k e w)
unfolding abort_backup
abort_backup-Change n k e w = abort_known-Change n k (find_backup k w) e w refl

expire_known-Change :
    (n k : ℕ) (b : Option Backup) (w : World) → find_backup k w ≡ b → Change n w (expire_known b w)
expire_known-Change n k none w g = nothing n w
expire_known-Change n k (some b) w g =
    branch n w (is_expiring b.status) _ _
      (λ e.
        saved n w w k b (record b { status = expired }) refl g
          (
            refl,
            refl,
            refl,
            refl,
            (λ h. absurd (cc)),
            (λ h _. absurd (ground arith)),
            λ i. (refl, refl, refl),
          ))
      λ _. nothing n w

pub expire_backup-Change : (n k : ℕ) (w : World) → Change n w (expire_backup k w)
unfolding expire_backup
expire_backup-Change n k w = expire_known-Change n k (find_backup k w) w refl
