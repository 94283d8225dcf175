-- ===== src/Runtime/Databases/Kept.antt =====
-- What the phases of a database (`reconcileDatabase` of apps/control-cloud/src/runtime/database.ts) leave
-- alone, and how they move its phase. `P` is a property of the workspace that every await keeps.
use personal_cloud.Prelude.{ℕ, ◌≡◌, sym, ◌∙◌, ◌⊎◌, inl, Option}
use personal_cloud.Prelude.Outcome.{Error, Result, ok, err}
use personal_cloud.Runtime.Databases.State.{
  Health, healthy, Phase, submit, retry, observe, probe_submit, probe_observe, probe_cleanup, ready,
  deletion, failure, Database, World, Run, M, Call, after, ◌>>=◌, await,
}
use personal_cloud.Runtime.Databases.Phases.{Platform}

-- Where the data of a database is, and whose it is.
pub record IsSame (d e : Database) : Type 0 where
  pub same_id : e.id ≡ d.id
  pub same_project : e.project_id ≡ d.project_id
  pub same_machine : e.machine_id ≡ d.machine_id
  pub same_node : e.nomad_node_id ≡ d.nomad_node_id
  pub same_volume : e.volume_name ≡ d.volume_name
  pub same_restore : e.restore_id ≡ d.restore_id

abbrev pub next_phase : Phase → Phase
next_phase submit = observe
next_phase retry = observe
next_phase observe = probe_submit
next_phase probe_submit = probe_observe
next_phase probe_observe = probe_cleanup
next_phase probe_cleanup = ready
next_phase ready = observe
next_phase deletion = deletion
next_phase failure = failure

-- A phase that threw is where it was; one that did not may have moved on by one.
abbrev pub Moved : Result (Unit {0}) → Phase → Phase → Type 0
Moved (ok _) ph new = (new ≡ ph) ⊎ (new ≡ next_phase ph)
Moved (err e) ph new = new ≡ ph

-- Only the answer of the probe makes a database healthy.
abbrev pub Became : Health → Phase → Health → Type 0
Became old ph new = new ≡ healthy → (old ≡ healthy) ⊎ (ph ≡ probe_observe)

module _ (P : World → Type 0) where
  pub record Stays (d : Database) (r : Run) : Type 0 where
    pub same : IsSame d r.doc
    pub phase : r.doc.phase ≡ d.phase
    pub status : r.doc.status ≡ d.status
    pub holds : P r.world

  pub record Moves (d : Database) (a : Result (Unit {0})) (r : Run) : Type 0 where
    pub same : IsSame d r.doc
    pub moved : Moved a d.phase r.doc.phase
    pub became : Became d.status d.phase r.doc.status
    pub holds : P r.world

  abbrev pub Keeps : {A : Type 0} → Call A → Type 0
  Keeps call = (w : World) → P w → P (call w).1

  -- Every await of the reconciliation keeps `P`.
  pub record IsSafe (p : Platform) : Type 0 where
    pub open_job : (job : Option ℕ) → Keeps (p.open_job job)
    pub ensure_job : (job : ℕ) → Keeps (p.ensure_job job)
    pub evaluate : (job : ℕ) → Keeps (p.evaluate job)
    pub stop_job : (job : Option ℕ) → Keeps (p.stop_job job)
    pub healthy : (job : ℕ) → Keeps (p.healthy job)
    pub endpoint : (job allocation : ℕ) → Keeps (p.endpoint job allocation)
    pub open_connection : (uri : ℕ) → Keeps (p.open_connection uri)
    pub seal_connection : (uri : ℕ) → Keeps (p.seal_connection uri)
    pub seal_job : (job : ℕ) → Keeps (p.seal_job job)
    pub allocations : (job : Option ℕ) → Keeps (p.allocations job)
    pub has_failed : (allocation : ℕ) → Keeps (p.has_failed allocation)
    pub has_answered : (allocation : ℕ) → Keeps (p.has_answered allocation)

  abbrev pub After : Database → Result (Unit {0}) × Run → Type 0
  After d (a, r) = Moves d a r

  module _ (d : Database) where
    pub Stays-Moves : (r : Run) → Stays d r → After d (ok tt, r)
    Stays-Moves r h = record {
      same = h.same;
      moved = inl h.phase;
      became = λ e. inl (sym h.status ∙ e);
      holds = h.holds;
    }

    pub throw-Moves : (e : Error) (r : Run) → Stays d r → After d (err e, r)
    throw-Moves e r h = record {
      same = h.same;
      moved = h.phase;
      became = λ e. inl (sym h.status ∙ e);
      holds = h.holds;
    }

    landed : (r : Run) (w : World) → Stays d r → P w → Stays d record r { world = w }
    landed r w h q = record { same = h.same; phase = h.phase; status = h.status; holds = q }

    abbrev pub StaysAfter : {A : Type 0} → Result A × Run → Type 0
    StaysAfter (a, r) = Stays d r

    after-Moves :
        {A : Type 0} (x : Result A × Run) (f : A → M (Unit {0}))
        → StaysAfter x
        → ((a : A) (s : Run) → Stays d s → After d (f a s))
        → After d (after x f)
    after-Moves (err e, r) f h k = throw-Moves e r h
    after-Moves (ok a, r) f h k = k a r h

    -- The rule for statements in sequence.
    pub >>=-Moves :
        {A : Type 0} (m : M A) (f : A → M (Unit {0})) (r : Run)
        → StaysAfter (m r)
        → ((a : A) (s : Run) → Stays d s → After d (f a s))
        → After d ((m >>= f) r)
    unfolding ◌>>=◌
    >>=-Moves m f r h k = after-Moves (m r) f h k

    after-StaysAfter :
        {A B : Type 0} (x : Result A × Run) (f : A → M B)
        → StaysAfter x
        → ((a : A) (s : Run) → Stays d s → StaysAfter (f a s))
        → StaysAfter (after x f)
    after-StaysAfter (err e, r) f h k = h
    after-StaysAfter (ok a, r) f h k = k a r h

    pub >>=-StaysAfter :
        {A B : Type 0} (m : M A) (f : A → M B) (r : Run)
        → StaysAfter (m r)
        → ((a : A) (s : Run) → Stays d s → StaysAfter (f a s))
        → StaysAfter ((m >>= f) r)
    unfolding ◌>>=◌
    >>=-StaysAfter m f r h k = after-StaysAfter (m r) f h k

    pub await-StaysAfter :
        {A : Type 0} (call : Call A) (r : Run) → Keeps call → Stays d r → StaysAfter (await call r)
    await-StaysAfter call r q h = landed r (call r.world).1 h (q r.world h.holds)

    -- A statement that leaves the result of an await to its caller.
    pub StaysAfter-Moves : (x : Result (Unit {0}) × Run) → StaysAfter x → After d x
    StaysAfter-Moves (err e, r) h = throw-Moves e r h
    StaysAfter-Moves (ok a, r) h = Stays-Moves r h
