-- ===== src/Runtime/Deploy/Release.antt =====
-- The phases from the build to the switch of the service: `build`, `prepareApplication`,
-- `observeApplication` and `promote` of apps/control-cloud/src/runtime/deploy.ts.
use personal_cloud.Prelude.{
  ℕ, zero, suc, Bool, false, Option, none, some, ◌==◌, if◌then◌else◌, is_id, any,
}
use personal_cloud.Prelude.Outcome.{http, pending, other, ok, err}
use personal_cloud.Store.{get}
use personal_cloud.Runtime.Deploy.State.{
  Status, deploying, app_prepare, app_submit, routing, cleanup, upload_step, schedule_step,
  health_step, healthy_step, log_step, Deployment, Service, service_healthy, deployment_healthy,
  World, service_key, Call, Run, M, ◌>>=◌, finish, throw, await, edit, save_deployment,
  save_service, emit, step,
}
use personal_cloud.Runtime.Deploy.Phases.{
  Platform, Allocation, ClientStatus, complete, broken, running_or_pending, Output,
}

-- `n` new lines.
unfoldable pub log_lines : ℕ → World → Deployment → Deployment
log_lines zero w d = d
log_lines (suc n) w d = log_lines n w (step log_step w d)

abbrev pub blank : Output
blank = record { text = 0; image = none }

-- A call under `try`: every error but `pending` gives the default.
unfoldable pub tried : {A : Type 0} → A → Call A → M A
tried default call r =
    let (answer, w) = call r.world in
    let s : Run = record r { world = w } in
    elim answer [
      | ok a ↦ (ok a, s)
      | err pending ↦ (err pending, s)
      | err (http status message) ↦ (ok default, s)
      | err other ↦ (ok default, s)
    ]

module _ (p : Platform) where
  -- Where the first stream cannot be read, the second one is not asked for.
  unfoldable pub read_logs : ℕ → M (Output × Output)
  read_logs allocation r =
      let (answer, w) = p.stdout allocation r.world in
      let s : Run = record r { world = w } in
      elim answer [
        | ok out ↦ (tried blank (p.stderr allocation) >>= λ errors. finish (out, errors)) s
        | err pending ↦ (err pending, s)
        | err (http status message) ↦ (ok (blank, blank), s)
        | err other ↦ (ok (blank, blank), s)
      ]

  unfoldable pub take_image : Option ℕ → M (Unit {0})
  take_image none r = (err (http 400 "Deployments require an immutable sha256 image digest"), r)
  take_image (some image) r =
      if p.is_image image
      then (await (p.open_sealed r.doc.config_encrypted) >>= λ config. λ (s : Run).
            (if p.is_expected s.doc config image
                then (edit λ w d. step upload_step w record d {
                  image_digest = some image;
                  phase = app_prepare;
                  status = deploying;
                  phase_started_at = some w.now;
                })
                else throw 409 "Builder returned an unexpected image repository")
              s)
          r
      else throw 400 "Deployments require an immutable sha256 image digest" r

  unfoldable pub after_logs : ClientStatus → Option ℕ → M (Unit {0})
  after_logs broken image r = throw 409 "Application build failed; inspect deployment logs" r
  after_logs running_or_pending image r = finish tt r
  after_logs complete image r = take_image image r

  unfoldable pub build_on : Option Allocation → M (Unit {0})
  build_on none r = (ok tt, r)
  build_on (some a) r =
      (read_logs a.id >>= λ output.
      (λ (s : Run). await (p.redact_build_logs s.doc (output.0).text (output.1).text) s)
      >>= λ lines.
          edit (λ w d. log_lines lines w d) >>= λ _. after_logs a.client_status (output.0).image)
        r

  unfoldable pub build_run : M (Unit {0})
  build_run r = (await (p.build_allocation r.doc.build_job_id) >>= build_on) r

  abbrev pub has_image : Option ℕ → Bool
  has_image none = false
  has_image (some image) = p.is_image image

  -- `applicationJob` refuses an image that is not immutable.
  unfoldable pub seal_application : ℕ → ℕ → M (Unit {0})
  seal_application config env r =
      if has_image r.doc.image_digest
      then (let spec = p.application_spec r.doc env config in
            await (p.seal (p.secrets_with env config)) >>= λ secrets.
            edit (λ w d. record d { secrets_encrypted = some secrets }) >>= λ _.
            await (p.seal spec) >>= λ job.
            edit
              λ w d. step schedule_step w record d { job_encrypted = some job; phase = app_submit })
          r
      else throw 400 "Deployments require an immutable sha256 image digest" r

  unfoldable pub prepare_application : M (Unit {0})
  prepare_application r =
      (await (p.open_sealed r.doc.config_encrypted) >>= λ config. λ (s : Run).
          (await (p.environment s.doc.snapshot.project_id s.doc.snapshot.service_id) >>= λ env.
          seal_application config env)
            s)
        r

  unfoldable pub offer : Option Service → M (Unit {0})
  offer none r = throw 404 "service not found" r
  offer (some s) r = (
    ok tt,
    record r {
      world =
          save_service
            record s { promotion_deployment_id = some r.doc.id; promotion_address = r.doc.address }
            r.world;
    },
  )

  unfoldable pub adopt : Allocation → ℕ → Option ℕ → M (Unit {0})
  adopt a address none r = throw 409 "Scheduler allocation belongs to an unknown machine" r
  adopt a address (some machine) r =
      if any (λ k. k == machine) r.world.machines
      then (edit (λ w d. step health_step w record d {
        allocation_id = some a.id;
        machine_id = some machine;
        address = some address;
        phase = routing;
      })
            >>= λ _. λ (s : Run). offer (get service_key s.doc.service_id s.world.services) s)
          r
      else throw 409 "Scheduler allocation belongs to an unknown machine" r

  unfoldable pub observe_on : Option Allocation → M (Unit {0})
  observe_on none r = (ok tt, r)
  observe_on (some a) r =
      (await (p.endpoint r.doc.job_id a.id) >>= λ address.
      await (p.machine_of a) >>= λ machine. adopt a address machine)
        r

  unfoldable pub observe_application : M (Unit {0})
  observe_application r = (await (p.healthy r.doc.job_id) >>= observe_on) r

  abbrev pub promoted_service : Deployment → Service → Service
  promoted_service d s = record s {
    current_deployment_id = some d.id;
    address = d.address;
    machine_id = d.machine_id;
    image_digest = d.image_digest;
    status = service_healthy;
    promotion_deployment_id = none;
    promotion_address = none;
    unhealthy_since = none;
  }

  abbrev pub promoted_doc : World → Deployment → Deployment
  promoted_doc w d =
      step healthy_step w record d {
        status = Status.healthy;
        phase = cleanup;
        finished_at = some w.now;
        error = none;
      }

  -- What the transaction writes.
  abbrev pub switched : Service → Run → Run
  switched s r =
      let d = promoted_doc r.world r.doc in
      record r {
        doc = d;
        world =
            emit (deployment_healthy r.doc.service_id)
              (save_deployment d (save_service (promoted_service r.doc s) r.world));
      }

  -- The transaction.
  unfoldable pub switch : Option Service → M (Unit {0})
  switch none r = (err (http 404 "service not found"), r)
  switch (some s) r =
      if is_id s.promotion_deployment_id r.doc.id
      then (ok tt, switched s r)
      else throw 409 "Deployment no longer owns the service promotion" r

  unfoldable pub promote : M (Unit {0})
  promote r =
      (await (p.refresh_service_domains r.doc.service_id) >>= λ _.
      λ (s : Run). switch (get service_key s.doc.service_id s.world.services) s)
        r
