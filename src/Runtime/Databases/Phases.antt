-- ===== src/Runtime/Databases/Phases.antt =====
-- The phases of a database: `observeDatabase`, `observeProbe` and the cases of `reconcileDatabase` of
-- apps/control-cloud/src/runtime/database.ts. The scheduler and the encryption are parameters.
use personal_cloud.Prelude.{
  ℕ, Bool, true, false, not, ◌||◌, Option, none, some, List, [], ◌∷◌, ltb, ◌==◌, if◌then◌else◌,
  is_id,
}
use personal_cloud.Prelude.Outcome.{ok}
use personal_cloud.Runtime.Databases.State.{
  waiting, healthy, degraded, Phase, submit, retry, observe, probe_submit, probe_observe,
  probe_cleanup, ready, deletion, failure, Database, database_healthy, World, is_healthy, emit,
  Call, Run, M, ◌>>=◌, throw, await, edit,
}

pub record Allocation : Type 0 where
  pub id : ℕ
  pub node : ℕ

pub record Endpoint : Type 0 where
  pub address : ℕ
  pub is_private : Bool
  pub port : ℕ

pub data ClientStatus : Type 0 where
  complete broken unfinished : ClientStatus

pub record Probe : Type 0 where
  pub id : ℕ
  pub client_status : ClientStatus

pub record Platform : Type 0 where
  pub fresh_id : World → ℕ
  pub open_job : Option ℕ → Call ℕ
  pub ensure_job : ℕ → Call (Unit {0})
  pub evaluate : ℕ → Call (Unit {0})
  pub stop_job : Option ℕ → Call (Unit {0})
  pub healthy : ℕ → Call (Option Allocation)
  pub endpoint : ℕ → ℕ → Call Endpoint
  pub open_connection : ℕ → Call ℕ
  pub seal_connection : ℕ → Call ℕ
  pub seal_job : ℕ → Call ℕ
  -- the connection with another host and port, and the job that probes it
  pub connect : ℕ → Endpoint → ℕ
  pub database_probe : Database → ℕ → ℕ
  pub allocations : Option ℕ → Call (List Probe)
  -- whether the probe's task failed, and whether a line of its output is `1`
  pub has_failed : ℕ → Call Bool
  pub has_answered : ℕ → Call Bool

module _ (p : Platform) where
  -- `observeDatabase`
  unfoldable pub take_address : Allocation → Endpoint → M (Unit {0})
  take_address a s r =
      if not s.is_private || (ltb s.port 1 || ltb 65535 s.port)
      then throw 409 "Database address must stay on the private fleet network" r
      else (await (p.open_connection r.doc.connection_encrypted) >>= λ uri.
            let target = p.connect uri s in
            await (p.seal_connection target) >>= λ sealed.
            edit (λ w d. record d {
              connection_encrypted = sealed;
              port = some s.port;
              address = some s.address;
              allocation_id = some a.id;
            })
            >>= λ _. (λ (q : Run). await (p.seal_job (p.database_probe q.doc target)) q) >>= λ job.
                edit (λ w d. record d { job_encrypted = some job; phase = probe_submit }))
          r

  unfoldable pub observe_on : Option Allocation → M (Unit {0})
  observe_on none r = (ok tt, r)
  observe_on (some a) r =
      if a.node == r.doc.nomad_node_id
      then (await (p.endpoint r.doc.job_id a.id) >>= take_address a) r
      else throw 409 "Database allocation moved away from its pinned volume owner" r

  unfoldable pub observe_database : M (Unit {0})
  observe_database r = (await (p.healthy r.doc.job_id) >>= observe_on) r

  -- `observeProbe`
  unfoldable pub take_answer : Bool → M (Unit {0})
  take_answer false r =
      throw 409 "PostgreSQL did not return the expected authenticated query result" r
  take_answer true r = (
    ok tt,
    record r {
      doc = record r.doc {
        status = healthy;
        phase = probe_cleanup;
        error = none;
        last_verified_at = some r.world.now;
      };
      world = emit (database_healthy r.doc.id) r.world;
    },
  )

  unfoldable pub take_probe : ℕ → Bool → M (Unit {0})
  take_probe id true r = throw 409 "PostgreSQL authentication probe failed" r
  take_probe id false r = (await (p.has_answered id) >>= take_answer) r

  unfoldable pub observe_end : ClientStatus → ℕ → M (Unit {0})
  observe_end broken id r = throw 409 "PostgreSQL did not accept an authenticated query" r
  observe_end unfinished id r = (ok tt, r)
  observe_end complete id r = (await (p.has_failed id) >>= take_probe id) r

  unfoldable pub observe_first : List Probe → M (Unit {0})
  observe_first [] r = (ok tt, r)
  observe_first (a ∷ rest) r = observe_end a.client_status a.id r

  unfoldable pub observe_probe : M (Unit {0})
  observe_probe r = (await (p.allocations r.doc.probe_job_id) >>= observe_first) r

  abbrev pub to_phase : Phase → M (Unit {0})
  to_phase next = edit (λ w d. record d { phase = next })

  unfoldable pub submit_job : M (Unit {0})
  submit_job r = (await (p.open_job r.doc.job_encrypted) >>= λ job. await (p.ensure_job job)) r

  unfoldable pub reschedule : M (Unit {0})
  reschedule r = await (p.evaluate r.doc.job_id) r

  -- `if (db.probe_job_id) await stopJob(...)`
  unfoldable pub stop_known : Option ℕ → M (Unit {0})
  stop_known none r = (ok tt, r)
  stop_known (some job) r = await (p.stop_job (some job)) r

  -- The case `ready`.
  abbrev pub unavailable_doc : Database → Database
  unavailable_doc d = record d {
    status = degraded;
    error = some "Database is unavailable on its original machine; persistent volume preserved";
  }

  abbrev pub observed_again : World → Database → Database
  observed_again w d = record d {
    status = waiting;
    phase = observe;
    operation_started_at = w.now;
    probe_job_id = some (p.fresh_id w);
  }

  unfoldable pub check_ready : Option Allocation → M (Unit {0})
  check_ready none r = edit (λ w d. unavailable_doc d) r
  check_ready (some a) r =
      if not (a.node == r.doc.nomad_node_id)
      then edit (λ w d. unavailable_doc d) r
      else if not (is_healthy r.doc.status) || not (is_id r.doc.allocation_id a.id)
      then edit observed_again r
      else (ok tt, r)

  unfoldable pub check_health : M (Unit {0})
  check_health r = (await (p.healthy r.doc.job_id) >>= check_ready) r

  -- The jobs are stopped before anything is deleted.
  unfoldable pub stop_jobs : M (Unit {0})
  stop_jobs r =
      (await (p.stop_job (some r.doc.job_id)) >>= λ _. λ (q : Run). stop_known q.doc.probe_job_id q)
        r

  -- `switch (db.phase)`
  unfoldable pub run_phase : Phase → M (Unit {0})
  run_phase submit r = (submit_job >>= λ _. to_phase observe) r
  run_phase retry r = (submit_job >>= λ _. reschedule >>= λ _. to_phase observe) r
  run_phase observe r = observe_database r
  run_phase probe_submit r = (submit_job >>= λ _. to_phase probe_observe) r
  run_phase probe_observe r = observe_probe r
  run_phase probe_cleanup r =
      (await (p.stop_job r.doc.probe_job_id) >>= λ _.
      edit (λ w d. record d { job_encrypted = none; phase = ready }))
        r
  run_phase deletion r = stop_jobs r
  run_phase ready r = check_health r
  run_phase failure r = (ok tt, r)
