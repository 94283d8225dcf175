-- ===== src/Runtime/Deploy/State.antt =====
-- The documents that a deployment touches, and how a handler of
-- apps/control-cloud/src/runtime/deploy.ts runs: it holds its own copy of the deployment, which keeps
-- its changes when the handler throws; between two awaits it has the workspace for itself, and at an
-- await anything may happen to the workspace.
use personal_cloud.Prelude.{
  ℕ, ◌+◌, ◌-◌, String, Bool, true, false, ◌&&◌, Option, List, [], ◌∷◌, ◌++◌, length, ltb, leb,
  if◌then◌else◌, drop,
}
use personal_cloud.Prelude.Outcome.{Error, http, pending, other, Result, ok, err}
use personal_cloud.Store.{put}
use personal_cloud.Runtime.Placement.{Architecture, Wanted, Place}

pub data Status : Type 0 where
  queued building deploying healthy failed rolled_back : Status

pub data Phase : Type 0 where
  prepare build_submit building app_prepare app_submit observing routing : Phase
  cleanup failure_cleanup done : Phase

pub data StepName : Type 0 where
  queued_step clone_step upload_step schedule_step health_step healthy_step : StepName
  error_step rollback_step log_step : StepName

-- An entry of the build log that is shown to users; its text is left out.
pub record Step : Type 0 where
  pub id : ℕ
  pub name : StepName
  pub created_at : ℕ

-- `service_snapshot` and `project_snapshot`: what the deployment was queued with.
pub record Snapshot : Type 0 where
  pub service_id : ℕ
  pub project_id : ℕ
  pub place : Place
  pub wanted : Wanted
  pub repository : ℕ
  pub branch : ℕ

-- Texts that are sealed, jobs and images are only passed on or compared: they are numbers. Fields that
-- nothing tests are left out (`datacenter`, `log_seen`, the name of the last step).
pub record Deployment : Type 0 where
  pub id : ℕ
  pub service_id : ℕ
  pub status : Status
  pub phase : Phase
  pub created_at : ℕ
  pub phase_started_at : Option ℕ
  pub finished_at : Option ℕ
  pub commit_sha : Option ℕ
  pub image_digest : Option ℕ
  pub previous_deployment_id : Option ℕ
  pub rollback_of : Option ℕ
  pub snapshot : Snapshot
  pub architecture : Option Architecture
  pub job_id : Option ℕ
  pub build_job_id : Option ℕ
  pub builder_node_id : Option ℕ
  pub job_encrypted : Option ℕ
  pub secrets_encrypted : Option ℕ
  pub config_encrypted : Option ℕ
  pub legacy_image_origin : Option ℕ
  -- `imported_from === "self-hosted"`
  pub is_imported : Bool
  pub allocation_id : Option ℕ
  pub machine_id : Option ℕ
  pub address : Option ℕ
  pub error : Option String
  pub cleanup_error : Option String
  pub last_runtime_error : Option String
  pub steps : List Step

pub data ServiceStatus : Type 0 where
  not_deployed service_healthy degraded service_failed deleting : ServiceStatus

pub record Service : Type 0 where
  pub id : ℕ
  pub project_id : ℕ
  pub status : ServiceStatus
  pub current_deployment_id : Option ℕ
  pub promotion_deployment_id : Option ℕ
  pub promotion_address : Option ℕ
  pub address : Option ℕ
  pub machine_id : Option ℕ
  pub image_digest : Option ℕ
  pub unhealthy_since : Option ℕ

pub data Event : Type 0 where
  deployment_healthy deployment_failed : ℕ → Event

pub record World : Type 0 where
  pub now : ℕ
  pub deployments : List Deployment
  pub services : List Service
  pub machines : List ℕ
  -- the services that domains lead to
  pub domains : List ℕ
  pub events : List Event

abbrev pub deployment_id : Deployment → ℕ
deployment_id d = d.id

abbrev pub service_key : Service → ℕ
service_key s = s.id

-- `ACTIVE.includes(d.status)`
abbrev pub is_active : Status → Bool
is_active queued = true
is_active Status.building = true
is_active deploying = true
is_active _ = false

-- An await: the answer, and the workspace that the handler finds when it goes on.
abbrev pub Call : Type 0 → Type 0
Call A = World → Result A × World

-- A job that is stopped, the deployment it belongs to, and the workspace at that time.
pub data Kind : Type 0 where
  application build_job : Kind

pub record Stop : Type 0 where
  pub kind : Kind
  pub owner : ℕ
  pub job : ℕ
  pub before : World

-- A handler under way; `stops` records what it asked to be stopped.
pub record Run : Type 0 where
  pub doc : Deployment
  pub world : World
  pub stops : List Stop

abbrev pub M : Type 0 → Type 0
M A = Run → Result A × Run

module _ {A B : Type 0} where
  abbrev pub after : Result A × Run → (A → M B) → Result B × Run
  after (err e, r) f = (err e, r)
  after (ok a, r) f = f a r

  infixl 5 ◌>>=◌
  unfoldable pub ◌>>=◌ : M A → (A → M B) → M B
  (m >>= f) r = after (m r) f

abbrev pub finish : {A : Type 0} → A → M A
finish a r = (ok a, r)

abbrev pub throw : {A : Type 0} → ℕ → String → M A
throw status message r = (err (http status message), r)

abbrev pub await : {A : Type 0} → Call A → M A
await call r = let (a, w) = call r.world in (a, record r { world = w })

-- Statements on the handler's copy, which may read the clock.
abbrev pub edit : (World → Deployment → Deployment) → M (Unit {0})
edit f r = (ok tt, record r { doc = f r.world r.doc })

abbrev pub save_deployment : Deployment → World → World
save_deployment d w = record w { deployments = put deployment_id d w.deployments }

abbrev pub save_service : Service → World → World
save_service s w = record w { services = put service_key s w.services }

abbrev pub emit : Event → World → World
emit e w = record w { events = w.events ++ (e ∷ []) }

-- `values.slice(-250)`
abbrev pub last_250 : List Step → List Step
last_250 l = drop (length l - 250) l

unfoldable pub step : StepName → World → Deployment → Deployment
step name w d =
    let entry : Step = record { id = length d.steps + 1; name = name; created_at = w.now } in
    record d { steps = last_250 (d.steps ++ (entry ∷ [])) }

-- `code`
abbrev pub code : Error → ℕ
code (http status message) = status
code pending = 500
code other = 500

abbrev pub is_pending : Error → Bool
is_pending pending = true
is_pending _ = false

-- `safeError`, without the cut of a message at 400 characters.
abbrev pub safe_error : Error → String
safe_error (http status message) =
    if leb 400 status && ltb status 500
    then message
    else "Runtime request failed; verify the selected machine and scheduler connection"
safe_error pending = "Runtime request failed; verify the selected machine and scheduler connection"
safe_error other = "Runtime request failed; verify the selected machine and scheduler connection"
