-- ===== src/Fleet/Enrollment/Grants.antt =====
-- What becomes of a token (apps/control-cloud/src/fleet.ts): once it has been used or revoked it stays so,
-- and nobody joins with it.
use personal_cloud.Prelude.{
  ℕ, ◌≡◌, ◌≢◌, ◌⊎◌, inl, inr, refl, Bool, true, false, ◌||◌, Option, none, some, List, ◌==◌, leb,
  is_some, arith, Option-cases, Bool-cases, length, find,
}
use personal_cloud.Prelude.Outcome.{ok, err, http, Result-cases}
use personal_cloud.Store.{get, put}
use personal_cloud.Store.Laws.{get-put, get-key}
use personal_cloud.Fleet.Enrollment.{
  Grant, Machine, Fleet, Applicant, grant_key, machine_key, revoke, is_over, usable, apply, enroll,
  new_machine,
}
use personal_cloud.Fleet.Enrollment.System.{after}

-- The grant cannot be used any more.
abbrev pub is_shut : Option Grant → Bool
is_shut none = false
is_shut (some g) = is_some g.used_at || is_some g.revoked_at

abbrev pub shut : ℕ → Fleet → Bool
shut hash f = is_shut (get grant_key hash f.enrollments)

shut-usable :
    (now : ℕ) (o : Option Grant)
    → is_shut o ≡ true
    → usable now o ≡ err (http 401 "Enrollment token expired or already used")
shut-usable now none h = absurd (cc)
shut-usable now (some g) h = ground arith

-- A token that was used or revoked is refused, at the first check and in the transaction.
pub shut-refused :
    (limit now : ℕ) (a : Applicant) (f : Fleet)
    → shut a.token_hash f ≡ true
    → (apply now a f ≡ err (http 401 "Enrollment token expired or already used"))
      × (enroll limit now a f ≡ err (http 401 "Enrollment token expired or already used"))
unfolding apply enroll
shut-refused limit now a f h =
    let u = shut-usable now (get grant_key a.token_hash f.enrollments) h in (rw u refl, rw u refl)

put-shut :
    (hash : ℕ) (g : Grant) (gs : List Grant)
    → is_shut (some g) ≡ true
    → is_shut (get grant_key hash gs) ≡ true
    → is_shut (get grant_key hash (put grant_key g gs)) ≡ true
put-shut hash g gs h k = rw (get-put grant_key hash g gs) (ground arith)

pub revoke-cases :
    (now id : ℕ) (f g : Fleet)
    → revoke now id f ≡ ok g
    → (d : Grant) × (find (λ d. d.id == id) f.enrollments ≡ some d)
      × (g.enrollments ≡ put grant_key (record d { revoked_at = some now }) f.enrollments)
unfolding revoke
revoke-cases now id f g e = elim (Option-cases (find (λ d. d.id == id) f.enrollments)) [
  | inl absent ↦ absurd (ground (arith, absent))
  | inr (d, found) ↦ (d, found, ground (arith, found))
]

pub revoke-shut :
    (hash now id : ℕ) (f : Fleet)
    → shut hash f ≡ true
    → shut hash (after f (revoke now id f)) ≡ true
revoke-shut hash now id f h = elim (Result-cases (revoke now id f)) [
  | inl (e, refused) ↦ rw refused h
  | inr (g, done) ↦
      let (d, found, e) = revoke-cases now id f g done in
      rw done
        (rw e (put-shut hash (record d { revoked_at = some now }) f.enrollments (ground arith) h))
]

-- What a machine that joined has met, and what is written.
pub enroll-cases :
    (limit now : ℕ) (a : Applicant) (f g : Fleet)
    → enroll limit now a f ≡ ok g
    → (d : Grant) × (get grant_key a.token_hash f.enrollments ≡ some d)
      × (is_over now d ≡ false)
      × (leb limit (length f.machines) ≡ false)
      × (g.enrollments
          ≡ put grant_key
              (record d { used_at = some now; machine_id = some a.machine_id })
              f.enrollments)
      × (g.machines ≡ put machine_key (new_machine now a d) f.machines)
unfolding enroll
enroll-cases limit now a f g e = elim (Option-cases (get grant_key a.token_hash f.enrollments)) [
  | inl absent ↦ absurd (ground (arith, absent))
  | inr (d, found) ↦ elim (Bool-cases (is_over now d)) [
    | inl over ↦ absurd (ground (arith, found, over))
    | inr free ↦ elim (Bool-cases (leb limit (length f.machines))) [
      | inl full ↦ absurd (ground (arith, found, free, full))
      | inr room ↦
          let q = rw (found, free, room) at e in
          (d, found, free, room, ground (arith, q), ground (arith, q))
    ]
  ]
]

pub enroll-shut :
    (limit now hash : ℕ) (a : Applicant) (f g : Fleet)
    → enroll limit now a f ≡ ok g
    → (shut hash f ≡ true) ⊎ ((a.token_hash == hash) ≡ true)
    → shut hash g ≡ true
enroll-shut limit now hash a f g e h =
    let (d, found, free, room, written, _) = enroll-cases limit now a f g e in
    let own = get-key grant_key a.token_hash d f.enrollments found in
    rw written (
      rw
        (get-put grant_key hash (record d { used_at = some now; machine_id = some a.machine_id })
          f.enrollments)
        (ground (arith, own, h)))

-- The machine has what the applicant sent and what the grant gives it.
abbrev pub IsMade : Applicant → Grant → Option Machine → Type 0
IsMade a d none = ⊥
IsMade a d (some m) =
    (m.credential_hash ≡ a.credential_hash)
    × (m.report ≡ a.report)
    × (m.metadata.location ≡ d.metadata.location)
    × (m.metadata.roles ≡ d.metadata.roles)
    × (m.metadata.tags ≡ d.metadata.tags)
    × (m.setup_intent ≡ d.setup_intent)

-- A machine joins only with a token that is known, unexpired, unused and not revoked. It is stored with
-- its own credential and report and with the location, roles, tags and setup intent of the grant, and
-- the token is refused right after; other machines and grants stay as they were.
pub enroll_lem :
    (limit now : ℕ) (a : Applicant) (f g : Fleet)
    → enroll limit now a f ≡ ok g
    → (d : Grant) × (get grant_key a.token_hash f.enrollments ≡ some d)
      × (is_over now d ≡ false)
      × IsMade a d (get machine_key a.machine_id g.machines)
      × ((k : ℕ) → k ≢ a.machine_id → get machine_key k g.machines ≡ get machine_key k f.machines)
      × ((k : ℕ) → k ≢ a.token_hash → get grant_key k g.enrollments ≡ get grant_key k f.enrollments)
      × ((later : ℕ) (b : Applicant)
          → b.token_hash ≡ a.token_hash
          → enroll limit later b g ≡ err (http 401 "Enrollment token expired or already used"))
unfolding new_machine
enroll_lem limit now a f g e =
    let (d, found, free, room, used, written) = enroll-cases limit now a f g e in
    let q = record d { used_at = some now; machine_id = some a.machine_id } in
    let own = get-key grant_key a.token_hash d f.enrollments found in
    let k = enroll-shut limit now a.token_hash a f g e (inr (ground arith)) in
    (
      d,
      found,
      free,
      ground (arith, written, get-put machine_key a.machine_id (new_machine now a d) f.machines),
      (λ k n. ground (arith, written, n, get-put machine_key k (new_machine now a d) f.machines)),
      (λ k n. ground (arith, used, own, n, get-put grant_key k q f.enrollments)),
      λ later b same. (shut-refused limit later b g (rw same k)).1,
    )
