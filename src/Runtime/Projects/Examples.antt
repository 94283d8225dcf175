-- ===== src/Runtime/Projects/Examples.antt =====
-- A project with one service, and one that is being removed.
use personal_cloud.Prelude.{ℕ, ◌≡◌, refl, inl, inr, true, false, none, some, [], ◌∷◌, arith}
use personal_cloud.Prelude.Outcome.{ok}
use personal_cloud.Store.{get, put, delete}
use personal_cloud.Store.Loops.{delete_each, put_each}
use personal_cloud.Organize
use personal_cloud.Runtime.Environment.{Variable, delete_row, same_text}
use personal_cloud.Runtime.Projects.{
  Project, Service, World, Call, ask_project, delete_jobs, clear, act, clear_all, clear_project,
  clear_projects, release_project_resources, delete_rows, remove_project, mark_project,
  delete_service_jobs, drop_service, stop_deployments,
}
use personal_cloud.Runtime.Projects.Homes.{HasHomes, act-HasHomes}
use personal_cloud.Runtime.Projects.Cleared.{IsCleared, IsOrderly, clear_all-IsCleared}

abbrev shop : Project
shop = record { id = 7; has_repository = true; is_deleting = false }

abbrev old : Project
old = record { id = 8; has_repository = true; is_deleting = true }

abbrev web : Service
web = record { id = 5; project_id = 7; name = 30; is_deleting = false }

abbrev setting : ℕ → Variable
setting p = record {
  project_id = p;
  key = b'A' ∷ [];
  value_size = some 3;
  sealed_length = 40;
  value_encrypted = 1;
}

abbrev bucket : Organize.Row
bucket = record {
  id = 60;
  kind = Organize.Kind.worker;
  name = 61;
  project_id = some 8;
  environment = Organize.Environment.production;
  ignored = false;
}

abbrev cloud : World
cloud = record {
  projects = shop ∷ old ∷ [];
  services = web ∷ [];
  deployments = [];
  domains = [];
  databases = [];
  bindings = [];
  environment = setting 7 ∷ setting 8 ∷ [];
  resources = bucket ∷ [];
  apple_jobs = [];
}

abbrev stops : ℕ → Call
stops job w = (ok tt, w)

cloud-HasHomes : HasHomes cloud
unfolding get
cloud-HasHomes = record {
  one_project = (refl, (refl, tt));
  one_service = (refl, tt);
  homes = λ k s f. (shop, ground arith);
}

act-HasHomes_example : HasHomes (act stops (ask_project 7) cloud)
act-HasHomes_example = act-HasHomes stops (λ job w h. h) (ask_project 7) cloud cloud-HasHomes

cloud-IsOrderly : IsOrderly cloud
unfolding get
cloud-IsOrderly = record { one_project = (refl, (refl, tt)); one_row = (refl, tt) }

clear_all-IsCleared_example : IsCleared 8 (clear_all cloud)
clear_all-IsCleared_example =
    clear_all-IsCleared old cloud cloud-IsOrderly (inr (inl refl)) refl refl

-- The removed project goes, the other one keeps its variable.
cleared : clear_all cloud ≡ record cloud {
  projects = shop ∷ [];
  environment = setting 7 ∷ [];
  resources = record bucket { project_id = none } ∷ [];
}
unfolding clear_all clear_projects clear_project delete_rows delete_row release_project_resources
    put_each put delete same_text
cleared = refl

-- Removing a project marks it and its services; the service goes with its jobs, the project after it.
removed :
    act stops clear
      (act stops (delete_jobs record web { is_deleting = true }) (act stops (ask_project 7) cloud))
    ≡ record cloud {
      projects = [];
      services = [];
      environment = [];
      resources = record bucket { project_id = none } ∷ [];
    }
unfolding act remove_project mark_project delete_service_jobs drop_service stop_deployments
    delete_each get clear_all clear_projects clear_project delete_rows delete_row
    release_project_resources put_each put delete same_text
removed = refl
