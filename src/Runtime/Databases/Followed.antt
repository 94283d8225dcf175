-- ===== src/Runtime/Databases/Followed.antt =====
-- Each phase of a database, in the order of `reconcileDatabase` (apps/control-cloud/src/runtime/database.ts).
use personal_cloud.Prelude.{
  ℕ, ◌≡◌, refl, sym, ◌∙◌, inl, inr, Bool, true, false, Option, none, some, arith, not, ◌||◌, ltb,
  ◌==◌, List, [], ◌∷◌, is_id, if◌then◌else◌,
}
use personal_cloud.Prelude.Outcome.{Result, ok, http}
use personal_cloud.Runtime.Databases.State.{
  Phase, submit, retry, observe, probe_submit, probe_observe, probe_cleanup, ready, deletion,
  failure, Database, World, Run, edit, is_healthy, database_healthy, emit, Event,
}
use personal_cloud.Runtime.Databases.Phases.{
  Platform, Allocation, Endpoint, Probe, ClientStatus, complete, broken, unfinished, take_address,
  observe_on, observe_database, take_answer, take_probe, observe_end, observe_first, observe_probe,
  to_phase, submit_job, reschedule, stop_known, check_ready, check_health, stop_jobs, run_phase,
  unavailable_doc, observed_again,
}
use personal_cloud.Runtime.Databases.Kept.{
  IsSame, next_phase, Stays, IsSafe, After, StaysAfter, Stays-Moves, throw-Moves, >>=-Moves,
  >>=-StaysAfter, await-StaysAfter, StaysAfter-Moves,
}

module _ (P : World → Type 0) (p : Platform) (safe : IsSafe P p)
    (emitted : (e : Event) (w : World) → P w → P (emit e w)) (d : Database) where
  branch :
      (b : Bool) (m n : Result (Unit {0}) × Run)
      → (b ≡ true → After P d m)
      → (b ≡ false → After P d n)
      → After P d (if b then m else n)
  branch true m n h k = h refl
  branch false m n h k = k refl

  abbrev probed : Endpoint → Allocation → ℕ → World → Database → Database
  probed s a sealed w e = record e {
    connection_encrypted = sealed;
    port = some s.port;
    address = some s.address;
    allocation_id = some a.id;
  }

  advance :
      (e : Database) (r : Run)
      → Stays P d r
      → IsSame d e
      → e.status ≡ r.doc.status
      → e.phase ≡ next_phase d.phase
      → After P d (ok tt, record r { doc = e })
  advance e r h same status phase = record {
    same = same;
    moved = inr phase;
    became = λ q. inl (sym (status ∙ h.status) ∙ q);
    holds = h.holds;
  }

  next-Moves :
      (next : Phase) (r : Run)
      → next ≡ next_phase d.phase
      → Stays P d r
      → After P d (to_phase p next r)
  next-Moves next r e h = advance record r.doc { phase = next } r h (ground arith) refl e

  submit_job-StaysAfter : (r : Run) → Stays P d r → StaysAfter P d (submit_job p r)
  unfolding submit_job
  submit_job-StaysAfter r h =
      >>=-StaysAfter P d _ _ r
        (await-StaysAfter P d (p.open_job r.doc.job_encrypted) r (safe.open_job r.doc.job_encrypted)
          h)
        λ job r h. await-StaysAfter P d (p.ensure_job job) r (safe.ensure_job job) h

  reschedule-StaysAfter : (r : Run) → Stays P d r → StaysAfter P d (reschedule p r)
  unfolding reschedule
  reschedule-StaysAfter r h =
      await-StaysAfter P d (p.evaluate r.doc.job_id) r (safe.evaluate r.doc.job_id) h

  take_address-Moves :
      (a : Allocation) (s : Endpoint) (r : Run)
      → d.phase ≡ observe
      → Stays P d r
      → After P d (take_address p a s r)
  unfolding take_address
  take_address-Moves a s r e h =
      branch (not s.is_private || (ltb s.port 1 || ltb 65535 s.port)) _ _
        (λ bad.
          throw-Moves P d (http 409 "Database address must stay on the private fleet network") r h)
        (λ good.
          (>>=-Moves P d _ _ r
            (await-StaysAfter P d (p.open_connection r.doc.connection_encrypted) r
              (safe.open_connection r.doc.connection_encrypted) h)
            λ uri r h.
              >>=-Moves P d _ _ r
                (await-StaysAfter P d (p.seal_connection (p.connect uri s)) r
                  (safe.seal_connection (p.connect uri s)) h)
                λ sealed r h. >>=-Moves P d (edit (probed s a sealed)) _ r (ground arith) λ u r h.
                  >>=-Moves P d _ _ r
                    (await-StaysAfter P d (p.seal_job (p.database_probe r.doc (p.connect uri s))) r
                      (safe.seal_job (p.database_probe r.doc (p.connect uri s))) h)
                    λ job r h.
                      advance (record r.doc { job_encrypted = some job; phase = probe_submit }) r h
                        (ground arith) refl (rw e)))

  observe_on-Moves :
      (a : Option Allocation) (r : Run)
      → d.phase ≡ observe
      → Stays P d r
      → After P d (observe_on p a r)
  unfolding observe_on
  observe_on-Moves none r e h = Stays-Moves P d r h
  observe_on-Moves (some a) r e h =
      branch (a.node == r.doc.nomad_node_id) _ _
        (λ q.
          >>=-Moves P d _ (take_address p a) r
            (await-StaysAfter P d (p.endpoint r.doc.job_id a.id) r (safe.endpoint r.doc.job_id a.id)
              h)
            λ s r h. take_address-Moves a s r e h)
        (λ q.
          throw-Moves P d (http 409 "Database allocation moved away from its pinned volume owner") r
            h)

  observe_database-Moves :
      (r : Run) → d.phase ≡ observe → Stays P d r → After P d (observe_database p r)
  unfolding observe_database
  observe_database-Moves r e h =
      >>=-Moves P d _ (observe_on p) r
        (await-StaysAfter P d (p.healthy r.doc.job_id) r (safe.healthy r.doc.job_id) h)
        λ a r h. observe_on-Moves a r e h

  take_answer-Moves :
      (b : Bool) (r : Run) → d.phase ≡ probe_observe → Stays P d r → After P d (take_answer p b r)
  unfolding take_answer
  take_answer-Moves false r e h =
      throw-Moves P d (http 409 "PostgreSQL did not return the expected authenticated query result")
        r h
  take_answer-Moves true r e h = record {
    same = ground arith;
    moved = inr (rw e);
    became = λ q. inr e;
    holds = emitted (database_healthy r.doc.id) r.world h.holds;
  }

  take_probe-Moves :
      (id : ℕ) (b : Bool) (r : Run)
      → d.phase ≡ probe_observe
      → Stays P d r
      → After P d (take_probe p id b r)
  unfolding take_probe
  take_probe-Moves id true r e h =
      throw-Moves P d (http 409 "PostgreSQL authentication probe failed") r h
  take_probe-Moves id false r e h =
      >>=-Moves P d _ (take_answer p) r
        (await-StaysAfter P d (p.has_answered id) r (safe.has_answered id) h)
        λ b r h. take_answer-Moves b r e h

  observe_end-Moves :
      (c : ClientStatus) (id : ℕ) (r : Run)
      → d.phase ≡ probe_observe
      → Stays P d r
      → After P d (observe_end p c id r)
  unfolding observe_end
  observe_end-Moves broken id r e h =
      throw-Moves P d (http 409 "PostgreSQL did not accept an authenticated query") r h
  observe_end-Moves unfinished id r e h = Stays-Moves P d r h
  observe_end-Moves complete id r e h =
      >>=-Moves P d _ (take_probe p id) r
        (await-StaysAfter P d (p.has_failed id) r (safe.has_failed id) h)
        λ b r h. take_probe-Moves id b r e h

  observe_first-Moves :
      (l : List Probe) (r : Run)
      → d.phase ≡ probe_observe
      → Stays P d r
      → After P d (observe_first p l r)
  unfolding observe_first
  observe_first-Moves [] r e h = Stays-Moves P d r h
  observe_first-Moves (a ∷ rest) r e h = observe_end-Moves a.client_status a.id r e h

  observe_probe-Moves :
      (r : Run) → d.phase ≡ probe_observe → Stays P d r → After P d (observe_probe p r)
  unfolding observe_probe
  observe_probe-Moves r e h =
      >>=-Moves P d _ (observe_first p) r
        (await-StaysAfter P d (p.allocations r.doc.probe_job_id) r
          (safe.allocations r.doc.probe_job_id) h)
        λ l r h. observe_first-Moves l r e h

  -- The case `ready`.
  unavailable-Moves :
      (r : Run) → Stays P d r → After P d (ok tt, record r { doc = unavailable_doc p r.doc })
  unavailable-Moves r h = record {
    same = ground arith;
    moved = inl h.phase;
    became = λ q. absurd (cc);
    holds = h.holds;
  }

  observed_again-Moves :
      (r : Run)
      → d.phase ≡ ready
      → Stays P d r
      → After P d (ok tt, record r { doc = observed_again p r.world r.doc })
  observed_again-Moves r e h = record {
    same = ground arith;
    moved = inr (rw e);
    became = λ q. absurd (cc);
    holds = h.holds;
  }

  check_ready-Moves :
      (a : Option Allocation) (r : Run)
      → d.phase ≡ ready
      → Stays P d r
      → After P d (check_ready p a r)
  unfolding check_ready
  check_ready-Moves none r e h = unavailable-Moves r h
  check_ready-Moves (some a) r e h =
      branch (not (a.node == r.doc.nomad_node_id)) _ _ (λ q. unavailable-Moves r h)
        λ q.
          branch (not (is_healthy r.doc.status) || not (is_id r.doc.allocation_id a.id)) _ _
            (λ q. observed_again-Moves r e h) (λ q. Stays-Moves P d r h)

  check_health-Moves : (r : Run) → d.phase ≡ ready → Stays P d r → After P d (check_health p r)
  unfolding check_health
  check_health-Moves r e h =
      >>=-Moves P d _ (check_ready p) r
        (await-StaysAfter P d (p.healthy r.doc.job_id) r (safe.healthy r.doc.job_id) h)
        λ a r h. check_ready-Moves a r e h

  stop_known-Moves : (job : Option ℕ) (r : Run) → Stays P d r → After P d (stop_known p job r)
  unfolding stop_known
  stop_known-Moves none r h = Stays-Moves P d r h
  stop_known-Moves (some job) r h =
      StaysAfter-Moves P d _
        (await-StaysAfter P d (p.stop_job (some job)) r (safe.stop_job (some job)) h)

  stop_jobs-Moves : (r : Run) → Stays P d r → After P d (stop_jobs p r)
  unfolding stop_jobs
  stop_jobs-Moves r h =
      >>=-Moves P d _ _ r
        (await-StaysAfter P d (p.stop_job (some r.doc.job_id)) r (safe.stop_job (some r.doc.job_id))
          h)
        λ _ r h. stop_known-Moves r.doc.probe_job_id r h

  -- Whatever its awaits give, a phase keeps the place of the data and moves on by one phase at most.
  pub run_phase-Moves :
      (ph : Phase) (r : Run) → d.phase ≡ ph → Stays P d r → After P d (run_phase p ph r)
  unfolding run_phase
  run_phase-Moves submit r e h =
      >>=-Moves P d _ _ r (submit_job-StaysAfter r h) λ _ r h. next-Moves observe r (rw e) h
  run_phase-Moves retry r e h = >>=-Moves P d _ _ r (submit_job-StaysAfter r h) λ _ r h.
      >>=-Moves P d _ _ r (reschedule-StaysAfter r h) λ _ r h. next-Moves observe r (rw e) h
  run_phase-Moves observe r e h = observe_database-Moves r e h
  run_phase-Moves probe_submit r e h =
      >>=-Moves P d _ _ r (submit_job-StaysAfter r h) λ _ r h. next-Moves probe_observe r (rw e) h
  run_phase-Moves probe_observe r e h = observe_probe-Moves r e h
  run_phase-Moves probe_cleanup r e h =
      >>=-Moves P d _ _ r
        (await-StaysAfter P d (p.stop_job r.doc.probe_job_id) r (safe.stop_job r.doc.probe_job_id)
          h)
        λ _ r h.
          advance record r.doc { job_encrypted = none; phase = ready } r h (ground arith) refl
            (rw e)
  run_phase-Moves deletion r e h = stop_jobs-Moves r h
  run_phase-Moves ready r e h = check_health-Moves r e h
  run_phase-Moves failure r e h = Stays-Moves P d r h
