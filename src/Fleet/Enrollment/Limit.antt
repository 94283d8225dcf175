-- ===== src/Fleet/Enrollment/Limit.antt =====
-- How many machines a workspace has (apps/control-cloud/src/fleet.ts).
use personal_cloud.Prelude.{
  ℕ, suc, ◌≤◌, ◌≡◌, inl, inr, refl, Bool, true, false, not, Option, none, some, List, [], ◌∷◌, ◌==◌,
  is_some, arith, if◌then◌else◌, Option-cases, Bool-cases, length, update, all,
}
use personal_cloud.Prelude.Outcome.{Result-cases}
use personal_cloud.Store.{get, put}
use personal_cloud.Store.Laws.{get-put, get-key}
use personal_cloud.Fleet.Enrollment.{
  Metadata, Grant, Machine, Fleet, Applicant, grant_key, machine_key, revoke, enroll, new_machine,
  edit, beat, authenticate,
}
use personal_cloud.Fleet.Enrollment.System.{
  World, Event, issue, issued, revoked, knock, join, read_own, report_own, read_machine,
  edit_machine, remove_machine, step, run, empty_world, with_grant, with_applicant, after,
  with_report, with_edit, kept,
}
use personal_cloud.Fleet.Enrollment.Grants.{enroll-cases}

abbrev pub is_known : ℕ → List Machine → Bool
is_known id ms = is_some (get machine_key id ms)

length-put :
    (m : Machine) (ms : List Machine)
    → length (put machine_key m ms) ≡ (if is_known m.id ms then length ms else suc (length ms))
unfolding get put
length-put m [] = refl
length-put m (n ∷ ms) = ground (arith, length-put m ms)

put-is_known :
    (id : ℕ) (m : Machine) (ms : List Machine)
    → is_known id ms ≡ true
    → is_known id (put machine_key m ms) ≡ true
put-is_known id m ms h = ground (arith, h, get-put machine_key id m ms)

-- The limit is kept, and the machines that requests in flight have read are there.
abbrev AreKnown : (ℕ → Option Machine) → List Machine → Type 0
AreKnown reading ms = (op : ℕ) (m : Machine) → reading op ≡ some m → is_known m.id ms ≡ true

abbrev pub IsLimited : ℕ → World → Type 0
IsLimited limit w = (length w.fleet.machines ≤ limit) × AreKnown w.reading w.fleet.machines

update-AreKnown :
    (op : ℕ) (o : Option Machine) (reading : ℕ → Option Machine) (ms : List Machine)
    → AreKnown reading ms
    → ((m : Machine) → o ≡ some m → is_known m.id ms ≡ true)
    → AreKnown (update reading op o) ms
update-AreKnown op o reading ms h k j m e = elim (Bool-cases (j == op)) [
  | inl own ↦ k m (rw own at e)
  | inr another ↦ h j m (rw another at e)
]

put-IsLimited :
    (limit : ℕ) (w : World) (m : Machine)
    → is_known m.id w.fleet.machines ≡ true
    → IsLimited limit w
    → (length (put machine_key m w.fleet.machines) ≤ limit)
      × AreKnown w.reading (put machine_key m w.fleet.machines)
put-IsLimited limit w m known (h, k) = (
  rw (length-put m w.fleet.machines) (rw known h),
  λ op n e. put-is_known n.id m w.fleet.machines (k op n e),
)

get-is_known :
    (id : ℕ) (ms : List Machine) (m : Machine)
    → get machine_key id ms ≡ some m
    → is_known m.id ms ≡ true
get-is_known id ms m e = rw (get-key machine_key id m ms e) (rw e refl)

own-is_known :
    (id credential : ℕ) (f : Fleet) (m : Machine)
    → kept (authenticate id credential f) ≡ some m
    → is_known m.id f.machines ≡ true
unfolding authenticate
own-is_known id credential f m e = elim (Option-cases (get machine_key id f.machines)) [
  | inl absent ↦ absurd (ground (arith, absent))
  | inr (n, found) ↦ get-is_known id f.machines m (ground (arith, found))
]

join-IsLimited :
    (limit now : ℕ) (w : World) (o : Option Applicant)
    → IsLimited limit w
    → IsLimited limit (with_applicant limit now w o)
join-IsLimited limit now w none h = h
join-IsLimited limit now w (some a) (h, k) = elim (Result-cases (enroll limit now a w.fleet)) [
  | inl (e, refused) ↦ rw refused (h, k)
  | inr (f, done) ↦
      let (d, _, _, room, _, written) = enroll-cases limit now a w.fleet f done in
      rw done (
        rw written (
          ground (arith, room, length-put (new_machine now a d) w.fleet.machines),
          λ op n e. put-is_known n.id (new_machine now a d) w.fleet.machines (k op n e),
        ))
]

report-IsLimited :
    (limit now report op : ℕ) (w : World) (o : Option Machine)
    → w.reading op ≡ o
    → IsLimited limit w
    → IsLimited limit (with_report now report w o)
unfolding beat
report-IsLimited limit now report op w none e h = h
report-IsLimited limit now report op w (some m) e h =
    put-IsLimited limit w (record m { report = report; last_seen = now }) (h.1 op m e) h

edit-IsLimited :
    (limit op : ℕ) (owns : Bool) (input : Metadata) (w : World) (o : Option Machine)
    → w.reading op ≡ o
    → IsLimited limit w
    → IsLimited limit (with_edit owns input w o)
unfolding edit
edit-IsLimited limit op owns input w none e h = h
edit-IsLimited limit op owns input w (some m) e h =
    let written = put-IsLimited limit w (record m { metadata = input }) (h.1 op m e) h in
    ground (arith, written, h)

grant-IsLimited :
    (limit : ℕ) (w : World) (o : Option Grant)
    → IsLimited limit w
    → IsLimited limit (with_grant w o)
grant-IsLimited limit w none h = h
grant-IsLimited limit w (some g) h =
    elim (Bool-cases (is_some (get grant_key g.token_hash w.fleet.enrollments))) [
      | inl used ↦ rw used h
      | inr fresh ↦ rw fresh h
    ]

revoke-machines : (now id : ℕ) (f : Fleet) → (after f (revoke now id f)).machines ≡ f.machines
unfolding revoke
revoke-machines now id f = ground arith

abbrev pub is_removal : Event → Bool
is_removal (remove_machine id) = true
is_removal _ = false

step-IsLimited :
    (limit : ℕ) (w : World) (e : Event)
    → is_removal e ≡ false
    → IsLimited limit w
    → IsLimited limit (step limit w e)
unfolding step
step-IsLimited limit w (issue op now id hash input intent) _ h = h
step-IsLimited limit w (issued op) _ h = grant-IsLimited limit w (w.issuing op) h
step-IsLimited limit w (revoked now id) _ h = rw (revoke-machines now id w.fleet) h
step-IsLimited limit w (knock op now a) _ h = h
step-IsLimited limit w (join op now) _ h = join-IsLimited limit now w (w.applying op) h
step-IsLimited limit w (read_own op id credential) _ h = (
  h.0,
  update-AreKnown op (kept (authenticate id credential w.fleet)) w.reading w.fleet.machines h.1
      (own-is_known id credential w.fleet),
)
step-IsLimited limit w (report_own op now report) _ h =
    report-IsLimited limit now report op w (w.reading op) refl h
step-IsLimited limit w (read_machine op id) _ h = (
  h.0,
  update-AreKnown op (get machine_key id w.fleet.machines) w.reading w.fleet.machines h.1
      (get-is_known id w.fleet.machines),
)
step-IsLimited limit w (edit_machine op owns input) _ h =
    edit-IsLimited limit op owns input w (w.reading op) refl h
step-IsLimited limit w (remove_machine id) e h = absurd (cc)

run-IsLimited :
    (limit : ℕ) (w : World) (es : List Event)
    → all (λ e. not (is_removal e)) es ≡ true
    → IsLimited limit w
    → IsLimited limit (run limit w es)
unfolding run
run-IsLimited limit w [] n h = h
run-IsLimited limit w (e ∷ es) n h =
    run-IsLimited limit (step limit w e) es (ground (arith, n))
      (step-IsLimited limit w e (ground (arith, n)) h)

-- As long as no machine is removed, a workspace has at most as many machines as its limit allows,
-- whatever requests join, report and change machines at once.
pub machines_limit :
    (limit : ℕ) (es : List Event)
    → all (λ e. not (is_removal e)) es ≡ true
    → length (run limit empty_world es).fleet.machines ≤ limit
machines_limit limit es none_removed =
    (run-IsLimited limit empty_world es none_removed (omega arith, λ op m e. absurd (cc))).0
