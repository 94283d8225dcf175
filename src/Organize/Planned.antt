-- ===== src/Organize/Planned.antt =====
-- What `organize` (apps/control-cloud/src/project-organization.ts) writes.
use personal_cloud.Prelude.{◌≤◌, ◌≡◌, true, List, length, All, is_some}
use personal_cloud.Store.{get}
use personal_cloud.Organize.{Project, Assignment, Workspace, Inventory, project_key}
use personal_cloud.Organize.Asked.{HasRow}

-- The project is stored.
abbrev pub IsStored : List Project → Project → Type 0
IsStored ps q = is_some (get project_key q.id ps) ≡ true

-- Every assignment has its row, and the number of projects is within the limit.
abbrev pub IsOrganized : Inventory → List Assignment → Workspace → Type 0
IsOrganized v l u =
    (length u.projects ≤ v.max_projects) × All (HasRow v (IsStored u.projects) u.resources) l
