-- ===== src/Fleet/Enrollment/Once.antt =====
-- Tokens over time (apps/control-cloud/src/fleet.ts): a token joins one machine at most, and none once it
-- is revoked, whatever the requests in flight.
use personal_cloud.Prelude.{
  ℕ, ◌≤◌, ◌≡◌, ◌⊎◌, inl, inr, refl, ap, ◌∙◌, Bool, true, Option, none, some, List, [], ◌∷◌, ◌==◌,
  arith, Bool-cases, find, ==→eq,
}
use personal_cloud.Prelude.Outcome.{ok, Result-cases}
use personal_cloud.Store.{get}
use personal_cloud.Store.Laws.{get-put}
use personal_cloud.Fleet.Enrollment.{
  Metadata, Grant, Machine, Fleet, Applicant, grant_key, revoke, enroll, edit, beat,
}
use personal_cloud.Fleet.Enrollment.System.{
  World, Event, issue, issued, revoked, knock, join, read_own, report_own, read_machine,
  edit_machine, remove_machine, step, run, joins, empty_world, with_grant, with_applicant, after,
  with_report, with_edit,
}
use personal_cloud.Fleet.Enrollment.Grants.{
  is_shut, shut, shut-refused, revoke-cases, enroll-shut, revoke-shut,
}

-- The token is out of use, and the log says the same of it.
abbrev StaysShut : ℕ → World → World → Type 0
StaysShut hash w v = (shut hash v.fleet ≡ true) × (joins hash v.joined ≡ joins hash w.joined)

grant-shut :
    (hash : ℕ) (w : World) (o : Option Grant)
    → shut hash w.fleet ≡ true
    → StaysShut hash w (with_grant w o)
grant-shut hash w none h = (h, refl)
grant-shut hash w (some g) h = ground (arith, h, get-put grant_key hash g w.fleet.enrollments)

join-shut :
    (limit now hash : ℕ) (w : World) (o : Option Applicant)
    → shut hash w.fleet ≡ true
    → StaysShut hash w (with_applicant limit now w o)
join-shut limit now hash w none h = (h, refl)
join-shut limit now hash w (some a) h = elim (Result-cases (enroll limit now a w.fleet)) [
  | inl (e, refused) ↦ rw refused (h, refl)
  | inr (f, done) ↦ elim (Bool-cases (a.token_hash == hash)) [
    | inl own ↦
        let same = ==→eq a.token_hash hash own in
        let (_, refused) = shut-refused limit now a w.fleet (rw same h) in absurd (cc)
    | inr another ↦
        rw done (enroll-shut limit now hash a w.fleet f done (inl h), ground (arith, another))
  ]
]

edit-enrollments :
    (owns : Bool) (input : Metadata) (m : Machine) (f : Fleet)
    → (after f (edit owns input m f)).enrollments ≡ f.enrollments
unfolding edit
edit-enrollments owns input m f = ground arith

report-shut :
    (hash now report : ℕ) (w : World) (o : Option Machine)
    → shut hash w.fleet ≡ true
    → StaysShut hash w (with_report now report w o)
unfolding beat
report-shut hash now report w none h = (h, refl)
report-shut hash now report w (some m) h = (h, refl)

edit-shut :
    (hash : ℕ) (owns : Bool) (input : Metadata) (w : World) (o : Option Machine)
    → shut hash w.fleet ≡ true
    → StaysShut hash w (with_edit owns input w o)
edit-shut hash owns input w none h = (h, refl)
edit-shut hash owns input w (some m) h =
    (ap (λ gs. is_shut (get grant_key hash gs)) (edit-enrollments owns input m w.fleet) ∙ h, refl)

pub step-shut :
    (limit hash : ℕ) (w : World) (e : Event)
    → shut hash w.fleet ≡ true
    → StaysShut hash w (step limit w e)
unfolding step
step-shut limit hash w (issue op now id h2 input intent) h = (h, refl)
step-shut limit hash w (issued op) h = grant-shut hash w (w.issuing op) h
step-shut limit hash w (revoked now id) h = (revoke-shut hash now id w.fleet h, refl)
step-shut limit hash w (knock op now a) h = (h, refl)
step-shut limit hash w (join op now) h = join-shut limit now hash w (w.applying op) h
step-shut limit hash w (read_own op id credential) h = (h, refl)
step-shut limit hash w (report_own op now report) h = report-shut hash now report w (w.reading op) h
step-shut limit hash w (read_machine op id) h = (h, refl)
step-shut limit hash w (edit_machine op owns input) h = edit-shut hash owns input w (w.reading op) h
step-shut limit hash w (remove_machine id) h = (h, refl)

pub run-shut :
    (limit hash : ℕ) (w : World) (es : List Event)
    → shut hash w.fleet ≡ true
    → joins hash (run limit w es).joined ≡ joins hash w.joined
unfolding run
run-shut limit hash w [] h = refl
run-shut limit hash w (e ∷ es) h =
    let (k, same) = step-shut limit hash w e h in run-shut limit hash (step limit w e) es k ∙ same

-- Nobody has joined with the token, or one machine has and the token is out of use.
abbrev IsOnce : ℕ → World → Type 0
IsOnce hash w = (joins hash w.joined ≡ 0) ⊎ ((joins hash w.joined ≡ 1) × (shut hash w.fleet ≡ true))

join-IsOnce :
    (limit now hash : ℕ) (w : World) (o : Option Applicant)
    → joins hash w.joined ≡ 0
    → IsOnce hash (with_applicant limit now w o)
join-IsOnce limit now hash w none h = inl h
join-IsOnce limit now hash w (some a) h = elim (Result-cases (enroll limit now a w.fleet)) [
  | inl (e, refused) ↦ rw refused (inl h)
  | inr (f, done) ↦ elim (Bool-cases (a.token_hash == hash)) [
    | inl own ↦
        rw done
          (inr (ground (arith, own, h), enroll-shut limit now hash a w.fleet f done (inr own)))
    | inr another ↦ rw done (inl (ground (arith, another, h)))
  ]
]

unused-IsOnce :
    (limit hash : ℕ) (w : World) (e : Event)
    → joins hash w.joined ≡ 0
    → IsOnce hash (step limit w e)
unfolding step
unused-IsOnce limit hash w (issue op now id h2 input intent) h = inl h
unused-IsOnce limit hash w (issued op) h = inl (ground (arith, h))
unused-IsOnce limit hash w (revoked now id) h = inl h
unused-IsOnce limit hash w (knock op now a) h = inl h
unused-IsOnce limit hash w (join op now) h = join-IsOnce limit now hash w (w.applying op) h
unused-IsOnce limit hash w (read_own op id credential) h = inl h
unused-IsOnce limit hash w (report_own op now report) h = inl (ground (arith, h))
unused-IsOnce limit hash w (read_machine op id) h = inl h
unused-IsOnce limit hash w (edit_machine op owns input) h = inl (ground (arith, h))
unused-IsOnce limit hash w (remove_machine id) h = inl h

step-IsOnce :
    (limit hash : ℕ) (w : World) (e : Event) → IsOnce hash w → IsOnce hash (step limit w e)
step-IsOnce limit hash w e (inl h) = unused-IsOnce limit hash w e h
step-IsOnce limit hash w e (inr (one, h)) =
    let (k, same) = step-shut limit hash w e h in inr (same ∙ one, k)

run-IsOnce :
    (limit hash : ℕ) (w : World) (es : List Event) → IsOnce hash w → IsOnce hash (run limit w es)
unfolding run
run-IsOnce limit hash w [] h = h
run-IsOnce limit hash w (e ∷ es) h =
    run-IsOnce limit hash (step limit w e) es (step-IsOnce limit hash w e h)

-- Whatever the requests of users and machines and their order, at most one machine joins with a token.
pub joins_once :
    (limit : ℕ) (es : List Event) (hash : ℕ) → joins hash (run limit empty_world es).joined ≤ 1
joins_once limit es hash =
    let h = run-IsOnce limit hash empty_world es (inl refl) in ground (arith, h)

-- Once a user has revoked a token, no machine joins with it any more, whatever happens
-- afterwards, machines whose request was let in before included.
pub revoke_ends :
    (limit now id : ℕ) (w : World) (f : Fleet) (g : Grant)
    → revoke now id w.fleet ≡ ok f
    → find (λ g. g.id == id) w.fleet.enrollments ≡ some g
    → (es : List Event)
    → joins g.token_hash (run limit (step limit w (revoked now id)) es).joined
      ≡ joins g.token_hash w.joined
unfolding step
revoke_ends limit now id w f g done found es =
    let (d, same, e) = revoke-cases now id w.fleet f done in
    run-shut limit g.token_hash (step limit w (revoked now id)) es (
      rw done (
        rw e (
          rw
            (get-put grant_key g.token_hash (record d { revoked_at = some now })
              w.fleet.enrollments)
            (ground (arith, same, found)))))
