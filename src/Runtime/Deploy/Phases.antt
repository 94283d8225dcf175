-- ===== src/Runtime/Deploy/Phases.antt =====
-- What a deployment waits for, as a parameter, and its first phase: `prepare` of
-- apps/control-cloud/src/runtime/deploy.ts.
use personal_cloud.Prelude.{ℕ, Bool, not, Option, none, some, List, if◌then◌else◌, is_some}
use personal_cloud.Prelude.Outcome.{other, ok, err}
use personal_cloud.Store.{get}
use personal_cloud.Runtime.Placement.{
  Wanted, only, Node, Selection, is_supported, deployment_targets,
}
use personal_cloud.Runtime.Deploy.State.{
  Status, deploying, build_submit, app_prepare, clone_step, Deployment, deployment_id, Call, Run, M,
  ◌>>=◌, throw, await, edit, step,
}

-- What the scheduler says of one run of a job.
pub data ClientStatus : Type 0 where
  complete broken running_or_pending : ClientStatus

pub record Allocation : Type 0 where
  pub id : ℕ
  pub client_status : ClientStatus

-- The registry that images are pulled from and, for an imported image, the deployment it stems from.
pub record Registry : Type 0 where
  pub config : ℕ
  pub legacy_image_origin : Option ℕ

-- The last image that a build printed.
pub record Output : Type 0 where
  pub text : ℕ
  pub image : Option ℕ

-- Each of these waits for the scheduler, GitHub or the key store.
pub record Platform : Type 0 where
  pub nodes : Call (List Node)
  pub deployment_registry : Deployment → Call Registry
  pub seal : ℕ → Call ℕ
  pub open_sealed : Option ℕ → Call ℕ
  pub source_token : ℕ → Call ℕ
  pub branch_head : ℕ → ℕ → Call ℕ
  pub environment : ℕ → ℕ → Call ℕ
  pub ensure_job : ℕ → Call (Unit {0})
  -- the first allocation of a job that is not to be stopped
  pub build_allocation : Option ℕ → Call (Option Allocation)
  pub stdout : ℕ → Call Output
  pub stderr : ℕ → Call Output
  -- how many new lines the log gets
  pub redact_build_logs : Deployment → ℕ → ℕ → Call ℕ
  pub healthy : Option ℕ → Call (Option Allocation)
  pub endpoint : Option ℕ → ℕ → Call ℕ
  pub machine_of : Allocation → Call (Option ℕ)
  pub refresh_service_domains : ℕ → Call (Unit {0})
  pub stop_job : ℕ → Call (Unit {0})
  -- what needs no waiting: tests on texts, job names and job specifications
  pub is_repository : ℕ → Bool
  pub is_commit : ℕ → Bool
  pub is_image : ℕ → Bool
  -- the image lies where the configuration says that this service's images lie
  pub is_expected : Deployment → ℕ → ℕ → Bool
  pub deploy_job : ℕ → ℕ
  pub build_job : ℕ → ℕ
  pub build_spec : Deployment → ℕ → ℕ → ℕ
  pub application_spec : Deployment → ℕ → ℕ → ℕ
  pub secrets_of : ℕ → ℕ
  -- the environment and the registry's password
  pub secrets_with : ℕ → ℕ → ℕ

abbrev rollback_architecture : Option Deployment → Wanted → Wanted
rollback_architecture none own = own
rollback_architecture (some d) own = elim d.architecture [ none ↦ own | some a ↦ only a ]

-- `rollback?.architecture ?? s.architecture`
abbrev wanted_for : Option ℕ → Wanted → List Deployment → Wanted
wanted_for none own ds = own
wanted_for (some k) own ds = rollback_architecture (get deployment_id k ds) own

module _ (p : Platform) where
  unfoldable pub use_image : M (Unit {0})
  use_image =
      edit
        λ w d. record d { phase = app_prepare; status = deploying; phase_started_at = some w.now }

  unfoldable pub seal_build : ℕ → ℕ → M (Unit {0})
  seal_build config source r =
      let spec = p.build_spec r.doc config source in
      (await (p.seal (p.secrets_of spec)) >>= λ secrets.
      edit (λ w d. record d { secrets_encrypted = some secrets }) >>= λ _.
      await (p.seal spec) >>= λ job. edit λ w d. step clone_step w record d {
        job_encrypted = some job;
        phase = build_submit;
        status = Status.building;
        phase_started_at = some w.now;
      })
        r

  unfoldable pub check_commit : Option ℕ → M (Unit {0}) → M (Unit {0})
  check_commit none next = throw 400 "GitHub returned an invalid source commit"
  check_commit (some commit) next =
      if p.is_commit commit then next else throw 400 "GitHub returned an invalid source commit"

  -- `if (!d.commit_sha)`
  unfoldable pub find_commit : Option ℕ → ℕ → M (Unit {0})
  find_commit (some commit) source r = (ok tt, r)
  find_commit none source r =
      if p.is_repository r.doc.snapshot.repository
      then (await (p.branch_head r.doc.snapshot.repository source) >>= λ commit.
            edit λ w d. record d { commit_sha = some commit })
          r
      else throw 400 "Invalid GitHub repository" r

  unfoldable pub use_source : Option Node → ℕ → M (Unit {0})
  use_source none config r = (err other, r)
  use_source (some n) config r =
      (edit (λ w d. record d {
        builder_node_id = some n.id;
        build_job_id = some (p.build_job d.id);
      })
          >>= λ _. await (p.source_token r.doc.snapshot.repository) >>= λ source.
              (λ (s : Run). find_commit s.doc.commit_sha source s) >>= λ _.
              λ (s : Run). check_commit s.doc.commit_sha (seal_build config source) s)
        r

  unfoldable pub place_on : Node → Option Node → M (Unit {0})
  place_on target build_node =
      edit
        (λ w d. record d { architecture = target.architecture; job_id = some (p.deploy_job d.id) })
      >>= λ _.
          if is_supported target.architecture
          then ((λ (r : Run). await (p.deployment_registry r.doc) r) >>= λ registry.
              edit (λ w d. record d {
                legacy_image_origin = elim registry.legacy_image_origin [
                  | none ↦ d.legacy_image_origin
                  | some k ↦ some k
                ];
              })
              >>= λ _. await (p.seal registry.config) >>= λ sealed.
                  edit (λ w d. record d { config_encrypted = some sealed }) >>= λ _. λ (r : Run).
                    if is_some r.doc.image_digest
                    then use_image r
                    else use_source build_node registry.config r)
          else throw 409 "Unsupported machine architecture"

  unfoldable pub choose : Selection → M (Unit {0})
  choose s = elim s.target [
    | some target ↦ place_on target s.build_node
    | none ↦ throw 409 (
        if s.has_compute
        then "Enable a builder matching the application machine's architecture."
        else "No ready application machine matches this service's placement and architecture.")
  ]

  unfoldable pub prepare_run : M (Unit {0})
  prepare_run = await p.nodes >>= λ inventory. λ (r : Run).
      choose
        (deployment_targets inventory r.doc.snapshot.place
          (wanted_for r.doc.rollback_of r.doc.snapshot.wanted r.world.deployments)
          (not (is_some r.doc.image_digest)))
        r
