-- ===== src/Runtime/Projects/Homes.antt =====
-- Every service has its project (apps/control-cloud/src/runtime.ts, workspace.ts).
use personal_cloud.Prelude.{
  ℕ, ◌≡◌, refl, sym, ap, subst, ◌∙◌, inl, inr, true, false, Option, none, some, List, [], ◌∷◌,
  arith, ◌==◌, any, if◌then◌else◌, Bool-cases, Option-cases,
}
use personal_cloud.Prelude.Outcome.{Result, ok, err, Result-cases}
use personal_cloud.Store.{get, put}
use personal_cloud.Store.Laws.{IsDistinct, get-put, put-IsDistinct, delete-IsDistinct, get-delete}
use personal_cloud.Store.Loops.{put_each-filter, get-map, map-IsDistinct, get-any, changed_by}
use personal_cloud.Runtime.Deploy.State.{Deployment}
use personal_cloud.Runtime.Projects.{
  Project, Service, World, project_key, service_key, find_project, find_service, save_service,
  commit, create_service, remove_service, marked, is_in, mark_project, remove_project, Call, after,
  stop_if, stop_deployments, drop_service, dropped, delete_service_jobs, clear_project,
  clear_projects, clear_all, Act, create, ask_service, ask_project, delete_jobs, clear, act,
}

-- No two projects or services have one identity, and the project of every service is stored.
pub record HasHomes (w : World) : Type 0 where
  pub one_project : IsDistinct project_key w.projects
  pub one_service : IsDistinct service_key w.services
  pub homes :
      (k : ℕ) (s : Service)
      → find_service k w ≡ some s
      → (p : Project) × (find_project s.project_id w ≡ some p)

save_service-HasHomes :
    (s : Service) (p : Project) (w : World)
    → find_project s.project_id w ≡ some p
    → HasHomes w
    → HasHomes (save_service s w)
save_service-HasHomes s p w e h = record {
  one_project = h.one_project;
  one_service = put-IsDistinct service_key s w.services h.one_service;
  homes = λ k t f. elim (Bool-cases (s.id == k)) [
    | inl same ↦ (p, ground (arith, get-put service_key k s w.services))
    | inr other ↦ h.homes k t (ground (arith, get-put service_key k s w.services))
  ];
}

abbrev fresh : (id project name : ℕ) → Service
fresh id project name = record { id = id; project_id = project; name = name; is_deleting = false }

create_service-ok :
    (id project name : ℕ) (valid : Result (Unit {0})) (w v : World)
    → create_service id project name valid w ≡ ok v
    → (p : Project) × ((find_project project w ≡ some p)
        × (save_service (fresh id project name) w ≡ v))
unfolding create_service
create_service-ok id project name valid w v h = elim (Option-cases (find_project project w)) [
  | inl e ↦ absurd (ground arith)
  | inr (p, e) ↦ (p, (e, ground arith))
]

remove_service-ok :
    (k : ℕ) (w v : World)
    → remove_service k w ≡ ok v
    → (s : Service) × ((find_service k w ≡ some s) × (save_service (marked s) w ≡ v))
unfolding remove_service
remove_service-ok k w v h = elim (Option-cases (find_service k w)) [
  | inl e ↦ absurd (ground arith)
  | inr (s, e) ↦ (s, (e, ground arith))
]

remove_project-ok :
    (k : ℕ) (w v : World) → remove_project k w ≡ ok v → (p : Project) × (mark_project p w ≡ v)
unfolding remove_project
remove_project-ok k w v h = elim (Option-cases (find_project k w)) [
  | inl e ↦ absurd (ground arith)
  | inr (p, e) ↦ (p, ground arith)
]

abbrev mark_in : ℕ → Service → Service
mark_in project s = if is_in project s then marked s else s

mark_in-key : (project : ℕ) (s : Service) → service_key (mark_in project s) ≡ service_key s
mark_in-key project s = ground arith

mark_in-project :
    (project : ℕ) (old : Option Service) (s : Service)
    → changed_by service_key (mark_in project) (mark_in-key project) old ≡ some s
    → (t : Service) × ((old ≡ some t) × (s.project_id ≡ t.project_id))
mark_in-project project none s h = absurd (cc)
mark_in-project project (some t) s h = (t, (refl, ground arith))

put-some :
    (k : ℕ) (e : Project) (ps : List Project) (p : Project)
    → get project_key k ps ≡ some p
    → (q : Project) × (get project_key k (put project_key e ps) ≡ some q)
put-some k e ps p h = elim (Bool-cases (e.id == k)) [
  | inl same ↦ (e, ground (arith, get-put project_key k e ps))
  | inr other ↦ (p, ground (arith, get-put project_key k e ps))
]

create_service-HasHomes :
    (id project name : ℕ) (valid : Result (Unit {0})) (w : World)
    → HasHomes w
    → HasHomes (commit (create_service id project name valid w) w)
create_service-HasHomes id project name valid w h =
    elim (Result-cases (create_service id project name valid w)) [
      | inl (e, f) ↦ rw f h
      | inr (v, f) ↦ rw f (
          let (p, (there, same)) = create_service-ok id project name valid w v f in
          subst HasHomes same (save_service-HasHomes (fresh id project name) p w there h))
    ]

remove_service-HasHomes :
    (k : ℕ) (w : World) → HasHomes w → HasHomes (commit (remove_service k w) w)
remove_service-HasHomes k w h = elim (Result-cases (remove_service k w)) [
  | inl (e, f) ↦ rw f h
  | inr (v, f) ↦ rw f (
      let (s, (there, same)) = remove_service-ok k w v f in
      let (p, home) = h.homes k s there in
      subst HasHomes same (save_service-HasHomes (marked s) p w home h))
]

mark_project-HasHomes : (p : Project) (w : World) → HasHomes w → HasHomes (mark_project p w)
unfolding mark_project
mark_project-HasHomes p w h =
    rw (put_each-filter service_key marked (λ s. refl) (is_in p.id) w.services h.one_service)
      record {
        one_project =
            put-IsDistinct project_key record p { is_deleting = true } w.projects h.one_project;
        one_service =
            map-IsDistinct service_key (mark_in p.id) (mark_in-key p.id) w.services h.one_service;
        homes = λ k s f.
            let (t, (old, same)) =
              mark_in-project p.id (get service_key k w.services) s
                (sym (get-map service_key (mark_in p.id) (mark_in-key p.id) k w.services) ∙ f) in
            let (q, home) = h.homes k t old in
            put-some s.project_id record p { is_deleting = true } w.projects q
              (ap (λ j. get project_key j w.projects) same ∙ home);
      }

remove_project-HasHomes :
    (k : ℕ) (w : World) → HasHomes w → HasHomes (commit (remove_project k w) w)
remove_project-HasHomes k w h = elim (Result-cases (remove_project k w)) [
  | inl (e, f) ↦ rw f h
  | inr (v, f) ↦ rw f (
      let (p, same) = remove_project-ok k w v f in
      subst HasHomes same (mark_project-HasHomes p w h))
]

drop_service-HasHomes : (s : Service) (w : World) → HasHomes w → HasHomes (drop_service s w)
unfolding drop_service
drop_service-HasHomes s w h = record {
  one_project = h.one_project;
  one_service = delete-IsDistinct service_key s.id w.services h.one_service;
  homes =
      λ k t f. h.homes k t (ground (arith, get-delete service_key k s.id w.services h.one_service));
}

clear_project-HasHomes : (p : Project) (w : World) → HasHomes w → HasHomes (clear_project p w)
unfolding clear_project
clear_project-HasHomes p w h = elim (Bool-cases (any (is_in p.id) w.services)) [
  | inl used ↦ rw used h
  | inr free ↦ rw free record {
    one_project = delete-IsDistinct project_key p.id w.projects h.one_project;
    one_service = h.one_service;
    homes = λ k s f.
        let (q, home) = h.homes k s f in
        (
          q,
          ground (
            arith,
            get-delete project_key s.project_id p.id w.projects h.one_project,
            get-any service_key (is_in p.id) k w.services s free f,
          ),
        );
  }
]

clear_projects-HasHomes :
    (ps : List Project) (w : World) → HasHomes w → HasHomes (clear_projects ps w)
unfolding clear_projects
clear_projects-HasHomes [] w h = h
clear_projects-HasHomes (p ∷ ps) w h =
    clear_projects-HasHomes ps (clear_project p w) (clear_project-HasHomes p w h)

module _ (stop : ℕ → Call)
    (quiet : (job : ℕ) (w : World) → HasHomes w → HasHomes (stop job w).1) where
  after-HasHomes :
      (x : Result (Unit {0}) × World) (next : Call)
      → HasHomes x.1
      → ((w : World) → HasHomes w → HasHomes (next w).1)
      → HasHomes (after x next).1
  after-HasHomes (ok _, w) next h k = k w h
  after-HasHomes (err e, w) next h k = h

  stop_if-HasHomes : (job : Option ℕ) (w : World) → HasHomes w → HasHomes (stop_if stop job w).1
  stop_if-HasHomes none w h = h
  stop_if-HasHomes (some job) w h = quiet job w h

  stop_deployments-HasHomes :
      (ds : List Deployment) (w : World) → HasHomes w → HasHomes (stop_deployments stop ds w).1
  unfolding stop_deployments
  stop_deployments-HasHomes [] w h = h
  stop_deployments-HasHomes (d ∷ ds) w h =
      after-HasHomes (stop_if stop d.job_id w)
        (λ v. after (stop_if stop d.build_job_id v) (stop_deployments stop ds))
        (stop_if-HasHomes d.job_id w h)
        λ v h.
          after-HasHomes (stop_if stop d.build_job_id v) (stop_deployments stop ds)
            (stop_if-HasHomes d.build_job_id v h) (stop_deployments-HasHomes ds)

  dropped-HasHomes :
      (s : Service) (x : Result (Unit {0}) × World) → HasHomes x.1 → HasHomes (dropped s x).1
  dropped-HasHomes s (ok _, w) h = drop_service-HasHomes s w h
  dropped-HasHomes s (err e, w) h = h

  delete_service_jobs-HasHomes :
      (s : Service) (w : World) → HasHomes w → HasHomes (delete_service_jobs stop s w).1
  unfolding delete_service_jobs
  delete_service_jobs-HasHomes s w h = dropped-HasHomes s _ (stop_deployments-HasHomes _ w h)

  -- Every service has its project, whatever is created, asked to be removed, stopped and cleared: a project
  -- goes only after its last service, and a service is created only in a stored project. What happens while
  -- jobs are stopped keeps this as well.
  pub act-HasHomes : (a : Act) (w : World) → HasHomes w → HasHomes (act stop a w)
  unfolding act clear_all
  act-HasHomes (create id project name valid) w h =
      create_service-HasHomes id project name valid w h
  act-HasHomes (ask_service k) w h = remove_service-HasHomes k w h
  act-HasHomes (ask_project k) w h = remove_project-HasHomes k w h
  act-HasHomes (delete_jobs s) w h = delete_service_jobs-HasHomes s w h
  act-HasHomes clear w h = clear_projects-HasHomes _ w h
