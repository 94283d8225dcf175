-- ===== src/Registry/Upload/Lease.antt =====
-- The lease: who may change an upload, and what a change may be.
use personal_cloud.Prelude.{
  ℕ, refl, ◌+◌, ◌≤◌, ◌<◌, ◌≡◌, ◌≢◌, true, false, Option, none, some, List, arith, Option-cases, inl,
  inr, is_some,
}
use personal_cloud.Prelude.Outcome.{Result, ok, err}
use personal_cloud.Registry.Upload.{
  Upload, Operation, init, acquire, update_owned, release, expire, upload_ttl_ms, lease_end,
}
use personal_cloud.Registry.Upload.Request.{Request, check, Verdict, reply, proceed}
use personal_cloud.Registry.Upload.System.{
  System, Event, step, on_begin, on_checked, initialize, begin, renew, store_part, commit_part,
  cancel_upload, verify, publish, complete_upload, finish, alarm, clear,
}

-- The event belongs to another request than `op`, and its clock reads less than `t`.
abbrev pub IsOther : ℕ → ℕ → Event → Type 0
IsOther op t (initialize now w name id) = Unit
IsOther op t (begin now op' r) = now < t
IsOther op t (renew now op') = op' ≢ op
IsOther op t (store_part op' bytes) = Unit
IsOther op t (commit_part now op') = op' ≢ op
IsOther op t (cancel_upload now op') = op' ≢ op
IsOther op t (verify now op') = op' ≢ op
IsOther op t (publish op') = Unit
IsOther op t (complete_upload now op') = op' ≢ op
IsOther op t (finish now op') = op' ≢ op
IsOther op t (alarm now) = now < t
IsOther op t clear = Unit

on_checked_leased :
    (s : System) (u : Upload) (o : Operation) (now op : ℕ) (r : Request) (v : Result Verdict)
    → s.upload ≡ some u
    → u.operation ≡ some o
    → now < o.expires
    → (on_checked s now op r v).upload ≡ some u
unfolding acquire
on_checked_leased s u o now op r (err e) there lease live = there
on_checked_leased s u o now op r (ok (reply a)) there lease live = there
on_checked_leased s u o now op r (ok (proceed p)) there lease live = ground arith

-- While a request holds a lease that has not run out, nothing that any other request does changes
-- the upload, and neither does the alarm: no second lease, no commit, no completion, no removal.
pub lease_excludes :
    (sha256 : List ℕ → ℕ) (s : System) (e : Event) (u : Upload) (o : Operation)
    → s.upload ≡ some u
    → u.operation ≡ some o
    → s.expiring ≡ false
    → IsOther o.id o.expires e
    → (step sha256 s e).upload ≡ some u
unfolding step init update_owned release expire
lease_excludes sha256 s (initialize now w name id) u o there lease calm other = ground arith
lease_excludes sha256 s (begin now op r) u o there lease calm other =
    elim (Option-cases (s.requests op)) [
      | inr (p, used) ↦ rw (used, on_begin) there
      | inl fresh ↦
          rw (fresh, on_begin)
            (on_checked_leased s u o now op r (check r s.upload) there lease other)
    ]
lease_excludes sha256 s (renew now op) u o there lease calm other = ground arith
lease_excludes sha256 s (store_part op bytes) u o there lease calm other = ground arith
lease_excludes sha256 s (commit_part now op) u o there lease calm other = ground arith
lease_excludes sha256 s (cancel_upload now op) u o there lease calm other = ground arith
lease_excludes sha256 s (verify now op) u o there lease calm other = ground arith
lease_excludes sha256 s (publish op) u o there lease calm other = ground arith
lease_excludes sha256 s (complete_upload now op) u o there lease calm other = ground arith
lease_excludes sha256 s (finish now op) u o there lease calm other = ground arith
lease_excludes sha256 s (alarm now) u o there lease calm other = ground arith
lease_excludes sha256 s clear u o there lease calm other = ground arith

-- How an upload may differ after one event: its offset never falls back, it stays complete with the
-- same digest and the same chunks, and it stays cancelled. It goes only with the removal that an alarm
-- has begun.
abbrev pub Follows : System → Event → Upload → Option Upload → Type 0
Follows s e u none = (e ≡ clear) × (s.expiring ≡ true)
Follows s e u (some v) =
    (u.size ≤ v.size)
    × (u.cancelled ≡ true → v.cancelled ≡ true)
    × (is_some u.completed ≡ true → (v.completed ≡ u.completed) × (v.chunks ≡ u.chunks))

-- A removal begins only at an alarm that finds the upload unchanged for its whole lifetime and without
-- a lease that still runs.
abbrev pub Expires : System → Event → Upload → System → Type 0
Expires s e u t =
    s.expiring ≡ false
    → t.expiring ≡ true
    → (now : ℕ) × (e ≡ alarm now)
      × (u.updated + upload_ttl_ms ≤ now)
      × (lease_end u.operation ≤ now)

on_checked-Follows :
    (s : System) (e : Event) (u : Upload) (now op : ℕ) (r : Request) (v : Result Verdict)
    → s.upload ≡ some u
    → Follows s e u (on_checked s now op r v).upload
unfolding acquire
on_checked-Follows s e u now op r (err x) there = ground arith
on_checked-Follows s e u now op r (ok (reply a)) there = ground arith
on_checked-Follows s e u now op r (ok (proceed p)) there = ground arith

step-Kept :
    (sha256 : List ℕ → ℕ) (s : System) (e : Event) (u : Upload)
    → s.upload ≡ some u
    → Follows s e u (step sha256 s e).upload
unfolding step init update_owned release expire
step-Kept sha256 s (initialize now w name id) u there = ground arith
step-Kept sha256 s (begin now op r) u there = elim (Option-cases (s.requests op)) [
  | inr (p, used) ↦ rw (used, on_begin) (ground arith)
  | inl fresh ↦
      rw (fresh, on_begin)
        (on_checked-Follows s (begin now op r) u now op r (check r s.upload) there)
]
step-Kept sha256 s (renew now op) u there = ground arith
step-Kept sha256 s (store_part op bytes) u there = ground arith
step-Kept sha256 s (commit_part now op) u there = ground arith
step-Kept sha256 s (cancel_upload now op) u there = ground arith
step-Kept sha256 s (verify now op) u there = ground arith
step-Kept sha256 s (publish op) u there = ground arith
step-Kept sha256 s (complete_upload now op) u there = ground arith
step-Kept sha256 s (finish now op) u there = ground arith
step-Kept sha256 s (alarm now) u there = ground arith
step-Kept sha256 s clear u there = ground arith

on_checked-expiring :
    (s : System) (now op : ℕ) (r : Request) (v : Result Verdict)
    → (on_checked s now op r v).expiring ≡ s.expiring
on_checked-expiring s now op r (err e) = refl
on_checked-expiring s now op r (ok (reply a)) = refl
on_checked-expiring s now op r (ok (proceed p)) = ground arith

step-Expires :
    (sha256 : List ℕ → ℕ) (s : System) (e : Event) (u : Upload)
    → s.upload ≡ some u
    → Expires s e u (step sha256 s e)
unfolding step expire
step-Expires sha256 s (initialize now w name id) u there calm goes = ground arith
step-Expires sha256 s (begin now op r) u there calm goes = elim (Option-cases (s.requests op)) [
  | inr (p, used) ↦ absurd (cc)
  | inl fresh ↦ absurd (ground (arith, fresh, on_checked-expiring s now op r (check r s.upload)))
]
step-Expires sha256 s (renew now op) u there calm goes = ground arith
step-Expires sha256 s (store_part op bytes) u there calm goes = ground arith
step-Expires sha256 s (commit_part now op) u there calm goes = ground arith
step-Expires sha256 s (cancel_upload now op) u there calm goes = ground arith
step-Expires sha256 s (verify now op) u there calm goes = ground arith
step-Expires sha256 s (publish op) u there calm goes = ground arith
step-Expires sha256 s (complete_upload now op) u there calm goes = ground arith
step-Expires sha256 s (finish now op) u there calm goes = ground arith
step-Expires sha256 s (alarm now) u there calm goes = (now, refl, ground arith, ground arith)
step-Expires sha256 s clear u there calm goes = ground arith

-- After any event an upload that was there has not lost ground in its committed offset, a complete one
-- has kept its digest and its chunks, and a cancelled one is still cancelled; or the event is the removal that an alarm has begun, and an alarm begins that only when
-- nothing has changed the upload for its whole lifetime and no lease runs any more.
pub step-Follows :
    (sha256 : List ℕ → ℕ) (s : System) (e : Event) (u : Upload)
    → s.upload ≡ some u
    → Follows s e u (step sha256 s e).upload × Expires s e u (step sha256 s e)
step-Follows sha256 s e u there = (step-Kept sha256 s e u there, step-Expires sha256 s e u there)
