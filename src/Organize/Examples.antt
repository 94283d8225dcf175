-- ===== src/Organize/Examples.antt =====
-- Two workers, one of a new project and one that is ignored.
use personal_cloud.Prelude.{true, false, none, some, [], ◌∷◌, ◌+◌}
use personal_cloud.Organize.{worker, production, staging, Assignment, Workspace, Inventory}

abbrev inventory : Inventory
inventory = record {
  has_account = true;
  is_available = λ kind name. true;
  resource_id = λ kind name. name;
  lower = λ name. name;
  fresh = λ n. n + 100;
  max_projects = 5;
}

abbrev empty : Workspace
empty = record { revision = 1; projects = []; resources = [] }

abbrev site : Assignment
site = record {
  kind = worker;
  name = 20;
  environment = production;
  ignored = false;
  project_id = none;
  project_name = some 30;
}

abbrev old_site : Assignment
old_site = record site { name = 21; environment = staging; ignored = true; project_name = none }

abbrev after : Workspace
after = record {
  revision = 2;
  projects = record { id = 100; name = 30; is_deleting = false } ∷ [];
  resources =
      record {
        id = 20;
        kind = worker;
        name = 20;
        project_id = some 100;
        environment = production;
        ignored = false;
      }
      ∷ record {
        id = 21;
        kind = worker;
        name = 21;
        project_id = none;
        environment = staging;
        ignored = true;
      }
      ∷ [];
}
