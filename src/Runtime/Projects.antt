-- ===== src/Runtime/Projects.antt =====
-- Services and projects and their removal: `removeService`, `deleteServiceJobs`, `removeProject` and the
-- clearing of projects in `reconcileRuntime` (apps/control-cloud/src/runtime.ts), `releaseProjectResources`
-- (apps/control-cloud/src/project-organization.ts) and the creation of a service
-- (apps/control-cloud/src/workspace.ts). At an await anything may happen to the workspace.
pub mod Homes
pub mod Cleared
mod Examples
use personal_cloud.Prelude.{
  ℕ, String, Bool, true, false, not, ◌&&◌, ◌||◌, Option, none, some, List, [], ◌∷◌, ◌==◌, any,
  filter, is_id, if◌then◌else◌,
}
use personal_cloud.Prelude.Outcome.{Result, ok, err, http, fail_if, or_fail, ◌>>=◌, ◌>>◌}
use personal_cloud.Store.{get, put, delete}
use personal_cloud.Store.Loops.{delete_each, put_each}
use personal_cloud.Organize.{Row}
use personal_cloud.Runtime.Deploy.State.{Deployment, deployment_id, is_active}
use personal_cloud.Runtime.Databases.State.{Database, Binding, service_of}
use personal_cloud.Runtime.Environment.{Variable, delete_row}

pub record Project : Type 0 where
  pub id : ℕ
  pub has_repository : Bool
  pub is_deleting : Bool

pub record Service : Type 0 where
  pub id : ℕ
  pub project_id : ℕ
  pub name : ℕ
  pub is_deleting : Bool

pub record AppleJob : Type 0 where
  pub project_id : ℕ
  -- queued, running or cancelling
  pub is_active : Bool

pub record World : Type 0 where
  pub projects : List Project
  pub services : List Service
  pub deployments : List Deployment
  -- the services that domains lead to
  pub domains : List ℕ
  pub databases : List Database
  pub bindings : List Binding
  pub environment : List Variable
  pub resources : List Row
  pub apple_jobs : List AppleJob

abbrev pub project_key : Project → ℕ
project_key p = p.id

abbrev pub service_key : Service → ℕ
service_key s = s.id

abbrev pub row_key : Row → ℕ
row_key r = r.id

abbrev pub find_project : ℕ → World → Option Project
find_project k w = get project_key k w.projects

abbrev pub find_service : ℕ → World → Option Service
find_service k w = get service_key k w.services

abbrev pub save_service : Service → World → World
save_service s w = record w { services = put service_key s w.services }

abbrev pub commit : Result World → World → World
commit (ok v) w = v
commit (err e) w = w

-- `POST /api/projects/:id/services`; `valid` is what the checks of the request's fields say.
abbrev pub is_named : ℕ → ℕ → Service → Bool
is_named project name s = s.project_id == project && s.name == name

unfoldable pub create_service :
    (id project name : ℕ) → (valid : Result (Unit {0})) → World → Result World
create_service id project name valid w =
    or_fail (find_project project w) 404 "Project not found" >>= λ p.
    fail_if (not p.has_repository) 409 "Connect a GitHub repository before adding a machine service"
    >> (fail_if p.is_deleting 409 "Project is being removed"
        >> (fail_if (any (is_named project name) w.services) 409 "Service already exists"
            >> (valid
                >> ok (
                    save_service
                      record { id = id; project_id = project; name = name; is_deleting = false }
                      w))))

abbrev pub is_active_of : ℕ → Deployment → Bool
is_active_of service d = d.service_id == service && is_active d.status

abbrev pub has_domain : World → ℕ → Bool
has_domain w service = any (λ d. d == service) w.domains

abbrev pub marked : Service → Service
marked s = record s { is_deleting = true }

-- `removeService`
unfoldable pub remove_service : ℕ → World → Result World
remove_service service w = or_fail (find_service service w) 404 "service not found" >>= λ s.
    fail_if (has_domain w service) 409 "Remove this service domains first"
    >> (fail_if (any (is_active_of service) w.deployments) 409
          "Wait for the active deployment to finish"
        >> ok (save_service (marked s) w))

abbrev pub is_in : ℕ → Service → Bool
is_in project s = s.project_id == project

abbrev pub is_busy_in : World → Service → Bool
is_busy_in w s = any (is_active_of s.id) w.deployments

-- The transaction of `removeProject`.
unfoldable pub mark_project : Project → World → World
mark_project p w = record w {
  services = put_each service_key marked (filter (is_in p.id) w.services) w.services;
  projects = put project_key record p { is_deleting = true } w.projects;
}

-- `removeProject`
unfoldable pub remove_project : ℕ → World → Result World
remove_project project w = or_fail (find_project project w) 404 "project not found" >>= λ p.
    fail_if (any (λ (j : AppleJob). j.project_id == project && j.is_active) w.apple_jobs) 409
      "Stop active Apple jobs before removing this project"
    >> (fail_if (any (λ (d : Database). d.project_id == project) w.databases) 409
          "Remove project databases first; persistent volumes are preserved"
        >> (fail_if (any (λ (s : Service). is_in project s && has_domain w s.id) w.services) 409
              "Remove project domains first"
            >> (fail_if (any (λ (s : Service). is_in project s && is_busy_in w s) w.services) 409
                  "Wait for active deployments to finish"
                >> ok (mark_project p w))))

abbrev pub Call : Type 0
Call = World → Result (Unit {0}) × World

-- `deleteServiceJobs`: the jobs of every deployment are stopped first.
abbrev pub after : Result (Unit {0}) × World → Call → Result (Unit {0}) × World
after (ok _, w) next = next w
after (err e, w) next = (err e, w)

abbrev pub stop_if : (ℕ → Call) → Option ℕ → Call
stop_if stop none w = (ok tt, w)
stop_if stop (some job) w = stop job w

unfoldable pub stop_deployments : (ℕ → Call) → List Deployment → Call
stop_deployments stop [] w = (ok tt, w)
stop_deployments stop (d ∷ rest) w =
    after (stop_if stop d.job_id w)
      λ v. after (stop_if stop d.build_job_id v) (stop_deployments stop rest)

abbrev pub is_of : ℕ → Deployment → Bool
is_of service d = d.service_id == service

-- The transaction.
unfoldable pub drop_service : Service → World → World
drop_service s w = record w {
  deployments = delete_each deployment_id (filter (is_of s.id) w.deployments) w.deployments;
  bindings = delete service_of s.id w.bindings;
  services = delete service_key s.id w.services;
}

abbrev pub dropped : Service → Result (Unit {0}) × World → Result (Unit {0}) × World
dropped s (ok _, w) = (ok tt, drop_service s w)
dropped s (err e, w) = (err e, w)

unfoldable pub delete_service_jobs : (ℕ → Call) → Service → Call
delete_service_jobs stop s w =
    dropped s (stop_deployments stop (filter (is_of s.id) w.deployments) w)

-- `releaseProjectResources`
abbrev pub released : Row → Row
released r = record r { project_id = none }

abbrev pub is_assigned : ℕ → Row → Bool
is_assigned project r = is_id r.project_id project

unfoldable pub release_project_resources : ℕ → List Row → List Row
release_project_resources project rows =
    put_each row_key released (filter (is_assigned project) rows) rows

unfoldable pub delete_rows : List Variable → List Variable → List Variable
delete_rows [] rows = rows
delete_rows (v ∷ vs) rows = delete_rows vs (delete_row v.project_id v.key rows)

abbrev pub is_variable_of : ℕ → Variable → Bool
is_variable_of project v = v.project_id == project

-- The transaction that clears a project, where no service is left.
unfoldable pub clear_project : Project → World → World
clear_project p w = if any (is_in p.id) w.services then w else record w {
  environment = delete_rows (filter (is_variable_of p.id) w.environment) w.environment;
  resources = release_project_resources p.id w.resources;
  projects = delete project_key p.id w.projects;
}

unfoldable pub clear_projects : List Project → World → World
clear_projects [] w = w
clear_projects (p ∷ ps) w = clear_projects ps (clear_project p w)

-- The end of `reconcileRuntime`.
unfoldable pub clear_all : World → World
clear_all w = clear_projects (filter (λ (p : Project). p.is_deleting) w.projects) w

-- What requests and passes do.
pub data Act : Type 0 where
  create : (id project name : ℕ) → Result (Unit {0}) → Act
  ask_service ask_project : ℕ → Act
  delete_jobs : Service → Act
  clear : Act

unfoldable pub act : (ℕ → Call) → Act → World → World
act stop (create id project name valid) w = commit (create_service id project name valid w) w
act stop (ask_service service) w = commit (remove_service service w) w
act stop (ask_project project) w = commit (remove_project project w) w
act stop (delete_jobs s) w = (delete_service_jobs stop s w).1
act stop clear w = clear_all w
