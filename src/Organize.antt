-- ===== src/Organize.antt =====
-- Sorting discovered resources into projects: `organize` of
-- apps/control-cloud/src/project-organization.ts. Names and resource identities are texts that are only
-- compared, so they are numbers; that the request has the expected JSON types is not modelled.
pub mod Asked
pub mod Rows
pub mod Planned
mod Examples
use personal_cloud.Prelude.{
  ℕ, ◌+◌, Bool, true, false, not, ◌&&◌, ◌||◌, Option, none, some, List, [], ◌∷◌, ◌++◌, ◌==◌, ltb,
  if◌then◌else◌, length, any, find, filter, is_some,
}
use personal_cloud.Prelude.Outcome.{Result, ok, err, fail, fail_if, or_fail, ◌>>=◌, ◌>>◌}
use personal_cloud.Store.{get, put}

pub data Kind : Type 0 where
  worker pages other_kind : Kind

pub data Environment : Type 0 where
  production development staging preview other_environment : Environment

pub record Project : Type 0 where
  pub id : ℕ
  pub name : ℕ
  pub is_deleting : Bool

pub record Assignment : Type 0 where
  pub kind : Kind
  pub name : ℕ
  pub environment : Environment
  pub ignored : Bool
  pub project_id : Option ℕ
  pub project_name : Option ℕ

pub record Row : Type 0 where
  pub id : ℕ
  pub kind : Kind
  pub name : ℕ
  pub project_id : Option ℕ
  pub environment : Environment
  pub ignored : Bool

pub record Workspace : Type 0 where
  pub revision : ℕ
  pub projects : List Project
  pub resources : List Row

-- What the loop collects: nothing is written before it ends.
pub record Plan : Type 0 where
  pub created : List Project
  pub rows : List Row
  pub seen : List ℕ

-- What Cloudflare's inventory says, and the texts that the source makes: `JSON.stringify` of account, kind
-- and name; the lower case of a name; new identities.
pub record Inventory : Type 0 where
  pub has_account : Bool
  pub is_available : Kind → ℕ → Bool
  pub resource_id : Kind → ℕ → ℕ
  pub lower : ℕ → ℕ
  pub fresh : ℕ → ℕ
  pub max_projects : ℕ

abbrev pub project_key : Project → ℕ
project_key p = p.id

abbrev pub row_key : Row → ℕ
row_key r = r.id

abbrev pub is_other_kind : Kind → Bool
is_other_kind other_kind = true
is_other_kind _ = false

abbrev pub is_other_environment : Environment → Bool
is_other_environment other_environment = true
is_other_environment _ = false

module _ (v : Inventory) where
  abbrev pub has_id : ℕ → Row → Bool
  has_id k r = r.id == k

  abbrev pub has_name : ℕ → Project → Bool
  has_name name p = v.lower p.name == v.lower name

  -- The tests before the project is chosen.
  abbrev pub assignment_errors : Workspace → Plan → Assignment → Result (Unit {0})
  assignment_errors w plan a =
      let key = v.resource_id a.kind a.name in
      let chosen = is_some a.project_id || is_some a.project_name in
      fail_if (is_other_kind a.kind) 400 "Invalid resource type"
      >> fail_if (any (λ k. k == key) plan.seen) 400 "Resource appears more than once"
      >> fail_if (is_other_environment a.environment) 400 "Invalid environment"
      >> fail_if (is_some a.project_id && is_some a.project_name) 400
          "Choose an existing project or a new project name"
      >> fail_if (a.ignored && chosen) 400 "Ignored resources cannot belong to a project"
      >> fail_if
          (not (v.is_available a.kind a.name)
            && (not (is_some (get row_key key w.resources)) || chosen))
          409 "Resource was not discovered in this account. Refresh Cloudflare and try again."

  -- The project of an assignment, and the projects created so far.
  abbrev pub by_name : ℕ → List Project → List Project → Result (Option Project × List Project)
  by_name name created [] =
      let made : Project = record {
        id = v.fresh (length created);
        name = name;
        is_deleting = false;
      } in
      ok (some made, created ++ (made ∷ []))
  by_name name created (p ∷ []) = ok (some p, created)
  by_name name created (p ∷ q ∷ l) =
      fail 409 "Multiple projects have that name. Select the project instead."

  abbrev pub by_id : List Project → Option Project → Result (Option Project × List Project)
  by_id created none = fail 404 "Project not found in this workspace"
  by_id created (some p) = ok (some p, created)

  abbrev pub choose :
      Workspace → List Project → Option ℕ → Option ℕ → Result (Option Project × List Project)
  choose w created (some k) name = by_id created (find (λ (p : Project). p.id == k) w.projects)
  choose w created none (some name) =
      by_name name created (filter (has_name name) (w.projects ++ created))
  choose w created none none = ok (none, created)

  abbrev pub id_of : Option Project → Option ℕ
  id_of none = none
  id_of (some p) = some p.id

  abbrev pub is_removed : Option Project → Bool
  is_removed none = false
  is_removed (some p) = p.is_deleting

  abbrev pub row_of : Assignment → Option Project → Row
  row_of a p = record {
    id = v.resource_id a.kind a.name;
    kind = a.kind;
    name = a.name;
    project_id = id_of p;
    environment = a.environment;
    ignored = a.ignored;
  }

  abbrev pub added : Plan → Assignment → Option Project → List Project → Plan
  added plan a p created = record {
    created = created;
    rows = row_of a p ∷ plan.rows;
    seen = v.resource_id a.kind a.name ∷ plan.seen;
  }

  abbrev pub add_row : Plan → Assignment → Option Project → List Project → Result Plan
  add_row plan a p created =
      if is_removed p then fail 409 "Project is being removed" else ok (added plan a p created)

  abbrev pub add_chosen : Plan → Assignment → Result (Option Project × List Project) → Result Plan
  add_chosen plan a (ok (p, created)) = add_row plan a p created
  add_chosen plan a (err e) = err e

  abbrev pub plan_checked : Workspace → Plan → Assignment → Result (Unit {0}) → Result Plan
  plan_checked w plan a (ok _) =
      add_chosen plan a (choose w plan.created a.project_id a.project_name)
  plan_checked w plan a (err e) = err e

  unfoldable pub plan_one : Workspace → Plan → Assignment → Result Plan
  plan_one w plan a = plan_checked w plan a (assignment_errors w plan a)

  unfoldable pub plan_all : Workspace → Plan → List Assignment → Result Plan
  plan_all w plan [] = ok plan
  plan_all w plan (a ∷ l) = plan_one w plan a >>= λ next. plan_all w next l

  abbrev pub put_projects : List Project → List Project → List Project
  put_projects [] ps = ps
  put_projects (p ∷ l) ps = put_projects l (put project_key p ps)

  -- The plan has its last row first; the rows are put in the order of the request.
  abbrev pub put_rows : List Row → List Row → List Row
  put_rows [] rs = rs
  put_rows (r ∷ l) rs = put row_key r (put_rows l rs)

  -- The transaction.
  abbrev pub written : Workspace → ℕ → Plan → Workspace
  written w revision plan = record {
    revision = revision;
    projects = put_projects plan.created w.projects;
    resources = put_rows plan.rows w.resources;
  }

  unfoldable pub write : Workspace → ℕ → Plan → Result Workspace
  write w revision plan =
      if ltb v.max_projects (length w.projects + length plan.created)
      then fail 409 "Workspace project limit reached"
      else ok (written w revision plan)

  unfoldable pub organize : Workspace → ℕ → ℕ → List Assignment → Result Workspace
  organize w asked revision l =
      fail_if (not (asked == w.revision)) 409 "Project organization changed. Refresh and try again."
      >> fail_if (not v.has_account) 409 "Cloudflare account changed. Refresh and try again."
      >> fail_if (length l == 0 || ltb 1100 (length l)) 400 "Choose between 1 and 1,100 resources"
      >> plan_all w (record { created = []; rows = []; seen = [] }) l
      >>= λ plan. write w revision plan
