-- ===== src/Runtime/Scheduler/Stopped.antt =====
-- When `stopJob` (apps/control-cloud/src/runtime/common.ts) returns, the job's tasks have ended.
use personal_cloud.Prelude.{
  ℕ, ◌≡◌, ◌⊎◌, refl, ap, subst, map, true, false, Option, none, some, List, [], ◌∷◌, arith, All,
  Bool-cases, inl, inr,
}
use personal_cloud.Prelude.Outcome.{Result, ok, err}
use personal_cloud.Store.{get, put}
use personal_cloud.Store.Laws.{get-key, get-put}
use personal_cloud.Runtime.Scheduler.{
  Phase, stop, observe, done, Operation, ClientStatus, Allocation, Stops, Scheduler, operation_id,
  is_missing, is_live, observe_all, seen, observe_stop, finish_stop, purged, resume, begin,
  new_operation, ids_of, stop_known, stop_job,
}

-- An answer that shows that an allocation has ended.
abbrev pub Shows : Result ClientStatus → Type 0
Shows (ok status) = is_live status ≡ false
Shows (err e) = is_missing e ≡ true

-- The scheduler was asked and said so.
abbrev pub HasEnded : Scheduler → ℕ → Type 0
HasEnded p a = (w : Stops) × Shows (p.client_status a w).0

-- The allocations that the job has when it is stopped: those of a stop under way, and otherwise those that
-- the scheduler lists; none of a job that it does not know.
abbrev pub captured : Option Operation → Result (List Allocation) → List ℕ
captured (some o) listed = o.allocations
captured none (ok l) = map (λ (a : Allocation). a.id) l
captured none (err e) = []

abbrev pub IsDone : Option Operation → Type 0
IsDone none = ⊥
IsDone (some o) = o.phase ≡ done

-- The stop of the job is recorded as done, and each allocation that the job had has ended, unless it was
-- recorded so before.
abbrev pub IsStopped : Scheduler → ℕ → Stops → Stops → Type 0
IsStopped p job before after =
    IsDone (get operation_id job after)
    × (IsDone (get operation_id job before)
        ⊎ All (HasEnded p) (captured (get operation_id job before) (p.allocations job before).0))

module _ (p : Scheduler) where
  seen-Shows :
      (x : Result ClientStatus × Stops) (next : Stops → Result (Unit {0}) × Stops)
      → (seen p x next).0 ≡ ok tt
      → Shows x.0 × ((next x.1).0 ≡ ok tt)
  seen-Shows (ok status, w) next h = ground arith
  seen-Shows (err e, w) next h = ground arith

  observe_all-HasEnded :
      (l : List ℕ) (w : Stops) → (observe_all p l w).0 ≡ ok tt → All (HasEnded p) l
  unfolding observe_all
  observe_all-HasEnded [] w h = tt
  observe_all-HasEnded (a ∷ l) w h =
      let s = seen-Shows (p.client_status a w) (observe_all p l) h in
      ((w, s.0), observe_all-HasEnded l (p.client_status a w).1 s.1)

  -- When the call returns, the stop is done and these allocations have ended.
  abbrev Ends : ℕ → List ℕ → Result (Unit {0}) × Stops → Type 0
  Ends job ids x = x.0 ≡ ok tt → IsDone (get operation_id job x.1) × All (HasEnded p) ids

  finish_stop-Ends :
      (job : ℕ) (o : Operation) (x : Result (Unit {0}) × Stops)
      → o.id ≡ job
      → (x.0 ≡ ok tt → All (HasEnded p) o.allocations)
      → Ends job o.allocations (finish_stop p o x)
  finish_stop-Ends job o (ok t, w) k a h =
      let q : Operation = record o { phase = done } in
      let own : get operation_id job (put operation_id q w) ≡ some q =
        ground (arith, get-put operation_id job q w, k) in
      (rw own refl, a refl)
  finish_stop-Ends job o (err e, w) k a h = absurd (cc)

  observe_stop-Ends :
      (job : ℕ) (o : Operation) (w : Stops)
      → o.id ≡ job
      → Ends job o.allocations (observe_stop p o w)
  unfolding observe_stop
  observe_stop-Ends job o w k =
      finish_stop-Ends job o (observe_all p o.allocations w) k
        (observe_all-HasEnded o.allocations w)

  purged-Ends :
      (job : ℕ) (o : Operation) (x : Result (Unit {0}) × Stops)
      → o.id ≡ job
      → Ends job o.allocations (purged p o x)
  purged-Ends job o (ok t, w) k = observe_stop-Ends job (record o { phase = observe }) _ k
  purged-Ends job o (err e, w) k = elim (Bool-cases (is_missing e)) [
    | inl m ↦ rw m (observe_stop-Ends job (record o { phase = observe }) _ k)
    | inr m ↦ rw m (λ h. absurd (cc))
  ]

  abbrev EndsFrom : ℕ → Stops → Result (Unit {0}) × Stops → Type 0
  EndsFrom job before x = x.0 ≡ ok tt → IsStopped p job before x.1

  resume-EndsFrom :
      (job : ℕ) (phase : Phase) (o : Operation) (w : Stops)
      → o.phase ≡ phase
      → get operation_id job w ≡ some o
      → EndsFrom job w (resume p phase o w)
  resume-EndsFrom job done o w e g h = rw g (e, inl e)
  resume-EndsFrom job observe o w e g h =
      let (over, all_ended) = observe_stop-Ends job o w (get-key operation_id job o w g) h in
      (over, inr (rw g all_ended))
  resume-EndsFrom job stop o w e g h =
      let (over, all_ended) =
        purged-Ends job o (p.purge o.id w) (get-key operation_id job o w g) h in
      (over, inr (rw g all_ended))

  ids_of-map : (l : List Allocation) → ids_of l ≡ map (λ (a : Allocation). a.id) l
  ids_of-map [] = refl
  ids_of-map (a ∷ l) = ap (λ ids. a.id ∷ ids) (ids_of-map l)

  begin-Ends :
      (job : ℕ) (x : Result (List Allocation) × Stops)
      → Ends job (captured none x.0) (begin p job x)
  begin-Ends job (ok l, w) =
      let o = new_operation p job l in
      subst (λ ids. Ends job ids (begin p job (ok l, w))) (ids_of-map l)
        (purged-Ends job o (p.purge job (put operation_id o w)) refl)
  begin-Ends job (err e, w) = elim (Bool-cases (is_missing e)) [
    | inl m ↦
        let o = new_operation p job [] in
        rw m (purged-Ends job o (p.purge job (put operation_id o w)) refl)
    | inr m ↦ rw m (λ h. absurd (cc))
  ]

  stop_known-EndsFrom :
      (job : ℕ) (o : Option Operation) (w : Stops)
      → get operation_id job w ≡ o
      → EndsFrom job w (stop_known p job o w)
  stop_known-EndsFrom job none w g h =
      let (over, all_ended) = begin-Ends job (p.allocations job w) h in (over, inr (rw g all_ended))
  stop_known-EndsFrom job (some o) w g h = resume-EndsFrom job o.phase o w refl g h

-- When `stopJob` returns, the stop of the job is recorded as done, and the scheduler has said of each
-- allocation of the job that it runs no longer or is unknown, however the records change meanwhile. The
-- allocations are those that the scheduler lists before the deletion, or those that a stop under way has
-- recorded; only a stop that was recorded as done before is not asked about again.
pub stop_job-IsStopped :
    (p : Scheduler) (job : ℕ) (w : Stops)
    → (stop_job p job w).0 ≡ ok tt
    → IsStopped p job w (stop_job p job w).1
unfolding stop_job
stop_job-IsStopped p job w h = stop_known-EndsFrom p job (get operation_id job w) w refl h
