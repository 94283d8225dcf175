-- ===== src/Runtime/Databases/Ends.antt =====
-- How a pass of `reconcileDatabase` (apps/control-cloud/src/runtime/database.ts) ends.
use personal_cloud.Prelude.{
  ◌≡◌, refl, ap, subst, sym, ◌∙◌, ◌⊎◌, inl, inr, Bool, true, false, Option, none, some, arith,
  Bool-cases, Option-cases, not, ◌||◌, ◌&&◌, ◌-◌, ltb, leb, if◌then◌else◌,
}
use personal_cloud.Prelude.Outcome.{Error, Result, ok, err, http}
use personal_cloud.Runtime.Deploy.State.{code, is_pending, safe_error}
use personal_cloud.Runtime.Databases.State.{
  Phase, deletion, failure, Database, Event, World, find_database, save, emit, is_deletion, Run,
  is_waiting,
}
use personal_cloud.Runtime.Databases.Phases.{Platform}
use personal_cloud.Runtime.Databases.Reconcile.{
  removal, is_lost, is_deleted, keeps_phase, is_ready, failed_doc, settle_error, settle, attempt,
  reconcile_database,
}
use personal_cloud.Runtime.Databases.Kept.{
  IsSame, next_phase, Moved, Became, Moves, Stays, IsSafe, After, throw-Moves,
}
use personal_cloud.Runtime.Databases.Followed.{run_phase-Moves}

-- The phase that is written after a pass: the same, the next, or the end by a failure.
abbrev pub MayFollow : Phase → Phase → Type 0
MayFollow ph new = (new ≡ ph) ⊎ ((new ≡ next_phase ph) ⊎ (new ≡ failure))

-- What a pass may write over what is stored when it ends: the same database in the same place, and only
-- if it is still stored and its deletion was not asked for in the meantime.
pub record IsUpdate (d : Database) (v : World) (e : Database) : Type 0 where
  pub same : IsSame d e
  pub follows : MayFollow d.phase e.phase
  pub became : Became d.status d.phase e.status
  pub stored : Database
  pub is_stored : find_database d.id v ≡ some stored
  pub is_wanted : (is_deletion stored.phase && not (is_deletion d.phase)) ≡ false

-- `v` is the workspace that the pass finds after its last await, `P` what holds there.
pub data Ends (P : World → Type 0) (d : Database) (w : World) : Type 0 where
  quiet : P w → Ends P d w
  saved : (v : World) (e : Database) → P v → IsUpdate d v e → w ≡ save e v → Ends P d w
  removed :
      (v : World) (e : Database)
      → P v
      → IsSame d e
      → is_deletion d.phase ≡ true
      → w ≡ removal e v
      → Ends P d w

unmoved :
    (d e : Database)
    → e.id ≡ d.id
    → e.project_id ≡ d.project_id
    → e.machine_id ≡ d.machine_id
    → e.nomad_node_id ≡ d.nomad_node_id
    → e.volume_name ≡ d.volume_name
    → e.restore_id ≡ d.restore_id
    → IsSame d e
unmoved d e i p m n v r = record {
  same_id = i;
  same_project = p;
  same_machine = m;
  same_node = n;
  same_volume = v;
  same_restore = r;
}

pub IsSame-IsSame : {d e f : Database} → IsSame d e → IsSame e f → IsSame d f
IsSame-IsSame h k = ground arith

next-deletion : (ph : Phase) → is_deletion (next_phase ph) ≡ is_deletion ph
next-deletion deletion = refl
next-deletion ph = ground arith

choose :
    {P : World → Type 0} {d : Database} (b : Bool) (v w : World)
    → (b ≡ true → Ends P d v)
    → (b ≡ false → Ends P d w)
    → Ends P d (if b then v else w)
choose true v w h k = h refl
choose false v w h k = k refl

or_right : (a b : Bool) → (a || b) ≡ false → b ≡ false
or_right a b h = ground arith

-- A database that is not stored is lost.
found_not_lost : (e : Database) {c : Option Database} → c ≡ none → is_deleted c e.phase ≡ false → ⊥
found_not_lost e none_there h = ground arith

-- No phase but the deletion itself leads to the deletion.
Moved-deletion :
    (a : Result (Unit {0})) (ph new : Phase) → Moved a ph new → is_deletion new ≡ is_deletion ph
Moved-deletion (err e) ph new h = ap is_deletion h
Moved-deletion (ok _) ph new (inl h) = ap is_deletion h
Moved-deletion (ok _) ph new (inr h) = ap is_deletion h ∙ next-deletion ph

Moved-MayFollow : (a : Result (Unit {0})) (ph new : Phase) → Moved a ph new → MayFollow ph new
Moved-MayFollow (err e) ph new h = inl h
Moved-MayFollow (ok _) ph new (inl h) = inl h
Moved-MayFollow (ok _) ph new (inr h) = inr (inl h)

not_lost :
    (v : World) (e : Database)
    → is_lost e v ≡ false
    → (c : Database) × ((find_database e.id v ≡ some c)
        × ((is_deletion c.phase && not (is_deletion e.phase)) ≡ false))
unfolding is_lost
not_lost v e h = elim (Option-cases (find_database e.id v)) [
  | inl absent ↦ absurd (found_not_lost e absent h)
  | inr (c, there) ↦ (c, (there, rw there at h))
]

module _ (P : World → Type 0) (d : Database) where
  -- The copy at the end of a pass, under a change that keeps its place.
  update :
      (a : Result (Unit {0})) (r : Run) (e : Database)
      → Moves P d a r
      → is_lost r.doc r.world ≡ false
      → IsSame r.doc e
      → MayFollow d.phase e.phase
      → Became d.status d.phase e.status
      → IsUpdate d r.world e
  update a r e h here same follows became =
      let (c, (there, wanted)) = not_lost r.world r.doc here in
      record {
        same = IsSame-IsSame h.same same;
        follows = follows;
        became = became;
        stored = c;
        is_stored = subst (λ k. find_database k r.world ≡ some c) h.same.same_id there;
        is_wanted =
            subst (λ b. (is_deletion c.phase && not b) ≡ false)
              (Moved-deletion a d.phase r.doc.phase h.moved) wanted;
      }

  failed_doc-update :
      (e : Error) (r : Run)
      → Moves P d (err e) r
      → is_lost r.doc r.world ≡ false
      → IsUpdate d r.world (failed_doc e r.doc)
  failed_doc-update e r h here = elim (Bool-cases (is_ready r.doc.phase)) [
    | inl q ↦ rw q (
        update (err e) r _ h here (unmoved r.doc _ refl refl refl refl refl refl) (inl h.moved)
          (λ x. absurd (cc)))
    | inr q ↦ rw q (
        update (err e) r _ h here (unmoved r.doc _ refl refl refl refl refl refl) (inr (inr refl))
          (λ x. absurd (cc)))
  ]

  settle_error-Ends : (e : Error) (r : Run) → Moves P d (err e) r → Ends P d (settle_error e r)
  unfolding settle_error
  settle_error-Ends e r h =
      choose (is_pending e || is_lost r.doc r.world) _ _ (λ q. Ends.quiet h.holds)
        λ here.
          choose (keeps_phase r.doc.phase) _ _
            (λ q.
              Ends.saved r.world record r.doc { error = some (safe_error e) } h.holds
                (update (err e) r record r.doc { error = some (safe_error e) } h
                  (or_right (is_pending e) (is_lost r.doc r.world) here)
                  (unmoved r.doc _ refl refl refl refl refl refl) (inl h.moved) h.became)
                refl)
            λ q.
              choose (leb 500 (code e) && ltb (r.world.now - r.doc.operation_started_at) 300000) _ _
                (λ q. Ends.quiet h.holds)
                λ q.
                  Ends.saved r.world (failed_doc e r.doc) h.holds
                    (failed_doc-update e r h (or_right (is_pending e) (is_lost r.doc r.world) here))
                    refl

  settle-Ends : (x : Result (Unit {0}) × Run) → Moves P d x.0 x.1 → Ends P d (settle x)
  unfolding settle
  settle-Ends (err e, r) h = settle_error-Ends e r h
  settle-Ends (ok u, r) h =
      choose (is_deletion r.doc.phase) _ _
        (λ q.
          Ends.removed r.world r.doc h.holds h.same
            (sym (Moved-deletion (ok u) d.phase r.doc.phase h.moved) ∙ q) refl)
        λ q.
          choose (is_lost r.doc r.world) _ _ (λ q. Ends.quiet h.holds)
            λ here.
              Ends.saved r.world r.doc h.holds
                (update (ok u) r r.doc h here (unmoved r.doc _ refl refl refl refl refl refl)
                  (Moved-MayFollow (ok u) d.phase r.doc.phase h.moved) h.became)
                refl

module _ (P : World → Type 0) (p : Platform) (safe : IsSafe P p)
    (emitted : (e : Event) (w : World) → P w → P (emit e w)) (d : Database) (w : World)
    (holds : P w) where
  abbrev start : Run
  start = record { doc = d; world = w }

  start-Stays : Stays P d start
  start-Stays = record {
    same = unmoved d d refl refl refl refl refl refl;
    phase = refl;
    status = refl;
    holds = holds;
  }

  attempt-Moves : After P d (attempt p start)
  unfolding attempt
  attempt-Moves =
      elim (Bool-cases (is_waiting d.status && ltb 300000 (w.now - d.operation_started_at))) [
        | inl late ↦ rw late (
            throw-Moves P d
              (http 409 "Database health verification exceeded its deadline; volume preserved")
              start start-Stays)
        | inr timely ↦ rw timely (run_phase-Moves P p safe emitted d d.phase start refl start-Stays)
      ]

  pub reconcile_database-Ends : Ends P d (reconcile_database p d w)
  unfolding reconcile_database
  reconcile_database-Ends = settle-Ends P d (attempt p start) attempt-Moves
