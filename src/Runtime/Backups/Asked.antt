-- ===== src/Runtime/Backups/Asked.antt =====
-- Requests as changes of the operations (apps/control-cloud/src/runtime/backups.ts).
use personal_cloud.Prelude.{
  ℕ, ◌≡◌, refl, Bool, true, not, Option, none, some, arith, ◌||◌, ◌&&◌, any, ◌==◌, is_id, leb,
}
use personal_cloud.Store.Laws.{get-key, get-put}
use personal_cloud.Runtime.Backups.State.{
  expiring, Backup, Database, World, find_backup, save_backup, backup_id, is_active, busy,
  is_succeeded, is_restoring, is_backup, is_running,
}
use personal_cloud.Runtime.Backups.Requests.{
  Object, matches, is_restored, new_backup, new_restore, queue_backup, put_policy, delete_backup,
  delete_found, restore_backup, restore_found, commit_transfer, commit_found,
}
use personal_cloud.Runtime.Backups.Changes.{Change, same, saved, made, answer_branch, nothing}

pub queue_backup-Change :
    (n : ℕ) (db : Database) (w : World)
    → find_backup n w ≡ none
    → Change n w (queue_backup n db w).1
unfolding queue_backup
queue_backup-Change n db w g =
    answer_branch n w (not (is_restored db.restore_id w)) _ _ (λ _. nothing n w)
      λ _.
        answer_branch n w (not db.is_ready) _ _ (λ _. nothing n w)
          λ _.
            answer_branch n w (busy w db.id) _ _ (λ _. nothing n w)
              λ idle. made n w (new_backup n db w.now) g (refl, idle, tt)

pub put_policy-Change :
    (n database : ℕ) (enabled : Bool) (keep : ℕ) (w : World)
    → Change n w (put_policy database enabled keep w).1
unfolding put_policy
put_policy-Change n database enabled keep w =
    answer_branch n w (leb 1 keep && leb keep 30) _ _ (λ _. same n w _ refl) λ _. nothing n w

delete_found-Change :
    (n database k : ℕ) (b : Option Backup) (w : World)
    → find_backup k w ≡ b
    → Change n w (delete_found database b w).1
delete_found-Change n database k none w g = nothing n w
delete_found-Change n database k (some b) w g =
    answer_branch n w
      (not (b.database_id == database) || not (is_backup b.kind) || is_active b.status) _ _
      (λ _. nothing n w)
      λ inactive.
        answer_branch n w (any (is_restoring b.id) w.backups) _ _ (λ _. nothing n w)
          λ unused.
            saved n w w k b (record b { status = expiring }) refl g
              (refl, refl, refl, refl, (λ h. absurd (cc)), (λ _ _. unused), λ h. (refl, refl, refl))

pub delete_backup-Change :
    (n database k : ℕ) (w : World) → Change n w (delete_backup database k w).1
unfolding delete_backup
delete_backup-Change n database k w = delete_found-Change n database k (find_backup k w) w refl

restore_found-Change :
    (n target machine database k : ℕ) (b : Option Backup) (w : World)
    → find_backup n w ≡ none
    → find_backup k w ≡ b
    → Change n w (restore_found n target machine database b w).1
restore_found-Change n target machine database k none w f g = nothing n w
restore_found-Change n target machine database k (some b) w f g =
    answer_branch n w
      (not (b.database_id == database) || not (is_backup b.kind) || not (is_succeeded b.status)) _ _
      (λ _. nothing n w)
      λ fit.
        answer_branch n w (busy w database) _ _ (λ _. nothing n w)
          λ idle.
            let key = get-key backup_id k b w.backups g in
            let own : database ≡ b.database_id = ground arith in
            let made_up : Backup = new_restore n target machine b w.now in
            let there : find_backup b.id (save_backup made_up w) ≡ some b = ground (
              arith,
              f,
              g,
              get-put backup_id b.id (record made_up { updated_at = w.now }) w.backups,
            ) in
            made n w made_up f
              (refl, rw own at idle, (b, refl, there, (ground arith, refl, ground arith)))

pub restore_backup-Change :
    (n target machine database k : ℕ) (w : World)
    → find_backup n w ≡ none
    → Change n w (restore_backup n target machine database k w).1
unfolding restore_backup
restore_backup-Change n target machine database k w f =
    restore_found-Change n target machine database k (find_backup k w) w f refl

commit_found-Change :
    (n k : ℕ) (b : Option Backup) (o : Option Object) (digest size : ℕ) (w : World)
    → find_backup k w ≡ b
    → Change n w (commit_found b o digest size w).1
commit_found-Change n k none o digest size w g = nothing n w
commit_found-Change n k (some b) o digest size w g =
    answer_branch n w (is_running b.status) _ _
      (λ h.
        saved n w w k b (record b { checksum = some digest; size = some size }) refl g
          (refl, refl, refl, refl, (λ h. h), (λ h k. absurd (cc)), λ i. absurd (ground arith)))
      λ _.
        answer_branch n w (is_succeeded b.status && is_id b.checksum digest) _ _ (λ _. nothing n w)
          λ _.
            saved n w w k b (record b { cleanup_pending = true }) refl g
              (refl, refl, refl, refl, (λ h. h), (λ h k. absurd (cc)), λ i. (refl, refl, refl))

pub commit_transfer-Change :
    (n k : ℕ) (o : Option Object) (digest size : ℕ) (w : World)
    → Change n w (commit_transfer k o digest size w).1
unfolding commit_transfer
commit_transfer-Change n k o digest size w =
    answer_branch n w (matches o digest size) _ _
      (λ _. commit_found-Change n k (find_backup k w) o digest size w refl) λ _. nothing n w
