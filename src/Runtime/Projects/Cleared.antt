-- ===== src/Runtime/Projects/Cleared.antt =====
-- Clearing a project leaves nothing of it (the end of `reconcileRuntime`, apps/control-cloud/src/runtime.ts).
use personal_cloud.Prelude.{
  ℕ, ◌≡◌, refl, ap, subst, ◌∙◌, inl, inr, true, false, not, none, List, [], ◌∷◌, arith, any, filter,
  map, if◌then◌else◌, Bool-cases, All, IsIn, IsIn-filter,
}
use personal_cloud.Store.Laws.{IsDistinct, get-delete, delete-IsDistinct}
use personal_cloud.Store.Loops.{put_each-filter, map-IsDistinct}
use personal_cloud.Organize.{Row}
use personal_cloud.Runtime.Environment.{Variable, is_row, delete_row}
use personal_cloud.Runtime.Environment.Sums.{same_text_refl}
use personal_cloud.Runtime.Projects.{
  Project, World, project_key, row_key, find_project, is_in, released, is_assigned,
  release_project_resources, delete_rows, is_variable_of, clear_project, clear_projects, clear_all,
}

other_row :
    (p : ℕ) (v w : Variable)
    → is_variable_of p v ≡ false
    → is_variable_of p w ≡ true
    → is_row w.project_id w.key v ≡ false
other_row p v w e h = ground arith

delete_row-head :
    (v : Variable) (rows : List Variable) → delete_row v.project_id v.key (v ∷ rows) ≡ rows
unfolding delete_row
delete_row-head v rows = ground (arith, same_text_refl v.key)

-- The variables of the project are deleted, all others stay.
delete_rows-cons :
    (p : ℕ) (v : Variable) (gone rows : List Variable)
    → is_variable_of p v ≡ false
    → All (λ w. is_variable_of p w ≡ true) gone
    → delete_rows gone (v ∷ rows) ≡ v ∷ delete_rows gone rows
unfolding delete_rows delete_row
delete_rows-cons p v [] rows e h = refl
delete_rows-cons p v (w ∷ gone) rows e h =
    rw (other_row p v w e h.0)
      (delete_rows-cons p v gone (delete_row w.project_id w.key rows) e h.1)

filter-All :
    (p : ℕ) (rows : List Variable)
    → All (λ w. is_variable_of p w ≡ true) (filter (is_variable_of p) rows)
filter-All p [] = tt
filter-All p (v ∷ rows) = ground (arith, filter-All p rows)

delete_rows-filter :
    (p : ℕ) (rows : List Variable)
    → delete_rows (filter (is_variable_of p) rows) rows
      ≡ filter (λ v. not (is_variable_of p v)) rows
unfolding delete_rows
delete_rows-filter p [] = refl
delete_rows-filter p (v ∷ rows) = elim (Bool-cases (is_variable_of p v)) [
  | inl gone ↦ rw gone (
      ap (delete_rows (filter (is_variable_of p) rows)) (delete_row-head v rows)
      ∙ delete_rows-filter p rows)
  | inr kept ↦ rw kept (
      delete_rows-cons p v (filter (is_variable_of p) rows) rows kept (filter-All p rows)
      ∙ ap (λ rest. v ∷ rest) (delete_rows-filter p rows))
]

released-key : (p : ℕ) (r : Row) → row_key (if is_assigned p r then released r else r) ≡ row_key r
released-key p r = ground arith

release-lem :
    (p : ℕ) (rows : List Row)
    → IsDistinct row_key rows
    → release_project_resources p rows ≡ map (λ r. if is_assigned p r then released r else r) rows
unfolding release_project_resources
release-lem p rows h = put_each-filter row_key released (λ r. refl) (is_assigned p) rows h

-- Nothing of a project is left: neither itself, nor a variable, nor a resource that is assigned to it.
pub record IsCleared (k : ℕ) (w : World) : Type 0 where
  pub gone : find_project k w ≡ none
  pub no_variables : filter (is_variable_of k) w.environment ≡ []
  pub no_resources : filter (is_assigned k) w.resources ≡ []

pub record IsOrderly (w : World) : Type 0 where
  pub one_project : IsDistinct project_key w.projects
  pub one_row : IsDistinct row_key w.resources

filter-disjoint :
    (k : ℕ) (rows : List Variable)
    → filter (is_variable_of k) (filter (λ v. not (is_variable_of k v)) rows) ≡ []
filter-disjoint k [] = refl
filter-disjoint k (v ∷ rows) = ground (arith, filter-disjoint k rows)

filter-released :
    (k : ℕ) (rows : List Row)
    → filter (is_assigned k) (map (λ r. if is_assigned k r then released r else r) rows) ≡ []
filter-released k [] = refl
filter-released k (r ∷ rows) = ground (arith, filter-released k rows)

filter-kept :
    (k p : ℕ) (rows : List Variable)
    → filter (is_variable_of k) rows ≡ []
    → filter (is_variable_of k) (filter (λ v. not (is_variable_of p v)) rows) ≡ []
filter-kept k p [] h = refl
filter-kept k p (v ∷ rows) h = ground (arith, filter-kept k p rows)

filter-map :
    (k p : ℕ) (rows : List Row)
    → filter (is_assigned k) rows ≡ []
    → filter (is_assigned k) (map (λ r. if is_assigned p r then released r else r) rows) ≡ []
filter-map k p [] h = refl
filter-map k p (r ∷ rows) h = ground (arith, filter-map k p rows)

release-IsDistinct :
    (p : ℕ) (rows : List Row)
    → IsDistinct row_key rows
    → IsDistinct row_key (release_project_resources p rows)
release-IsDistinct p rows h = rw (release-lem p rows h) (
    map-IsDistinct row_key (λ r. if is_assigned p r then released r else r) (released-key p) rows h)

clear_project-IsOrderly : (p : Project) (w : World) → IsOrderly w → IsOrderly (clear_project p w)
unfolding clear_project
clear_project-IsOrderly p w h = elim (Bool-cases (any (is_in p.id) w.services)) [
  | inl used ↦ rw used h
  | inr free ↦ rw free record {
    one_project = delete-IsDistinct project_key p.id w.projects h.one_project;
    one_row = release-IsDistinct p.id w.resources h.one_row;
  }
]

clear_project-services : (p : Project) (w : World) → (clear_project p w).services ≡ w.services
unfolding clear_project
clear_project-services p w = ground arith

-- A project with no service is cleared.
clear_project-IsCleared :
    (p : Project) (w : World)
    → IsOrderly w
    → any (is_in p.id) w.services ≡ false
    → IsCleared p.id (clear_project p w)
unfolding clear_project
clear_project-IsCleared p w h free = rw free record {
  gone = ground (arith, get-delete project_key p.id p.id w.projects h.one_project);
  no_variables =
      ap (filter (is_variable_of p.id)) (delete_rows-filter p.id w.environment)
      ∙ filter-disjoint p.id w.environment;
  no_resources =
      ap (filter (is_assigned p.id)) (release-lem p.id w.resources h.one_row)
      ∙ filter-released p.id w.resources;
}

-- What is cleared stays so.
IsCleared-clear_project :
    (k : ℕ) (p : Project) (w : World)
    → IsOrderly w
    → IsCleared k w
    → IsCleared k (clear_project p w)
unfolding clear_project
IsCleared-clear_project k p w h c = elim (Bool-cases (any (is_in p.id) w.services)) [
  | inl used ↦ rw used c
  | inr free ↦ rw free record {
    gone = ground (arith, get-delete project_key k p.id w.projects h.one_project, c.gone);
    no_variables =
        ap (filter (is_variable_of k)) (delete_rows-filter p.id w.environment)
        ∙ filter-kept k p.id w.environment c.no_variables;
    no_resources =
        ap (filter (is_assigned k)) (release-lem p.id w.resources h.one_row)
        ∙ filter-map k p.id w.resources c.no_resources;
  }
]

IsCleared-clear_projects :
    (k : ℕ) (ps : List Project) (w : World)
    → IsOrderly w
    → IsCleared k w
    → IsCleared k (clear_projects ps w)
unfolding clear_projects
IsCleared-clear_projects k [] w h c = c
IsCleared-clear_projects k (p ∷ ps) w h c =
    IsCleared-clear_projects k ps (clear_project p w) (clear_project-IsOrderly p w h)
      (IsCleared-clear_project k p w h c)

clear_projects-IsCleared :
    (p : Project) (ps : List Project) (w : World)
    → IsOrderly w
    → IsIn p ps
    → any (is_in p.id) w.services ≡ false
    → IsCleared p.id (clear_projects ps w)
unfolding clear_projects
clear_projects-IsCleared p [] w h m free = absurd m
clear_projects-IsCleared p (q ∷ ps) w h (inl e) free =
    IsCleared-clear_projects p.id ps (clear_project q w) (clear_project-IsOrderly q w h) (
      subst (λ (q : Project). IsCleared p.id (clear_project q w)) e
        (clear_project-IsCleared p w h free))
clear_projects-IsCleared p (q ∷ ps) w h (inr m) free =
    clear_projects-IsCleared p ps (clear_project q w) (clear_project-IsOrderly q w h) m
      (ap (any (is_in p.id)) (clear_project-services q w) ∙ free)

-- Where no two projects and no two resource rows have one key: when the alarm has cleared the projects, a
-- project that was being removed and had no service left is gone, and so are its environment variables and the resources assigned to it. (Its databases and
-- Apple jobs are not looked at.)
pub clear_all-IsCleared :
    (p : Project) (w : World)
    → IsOrderly w
    → IsIn p w.projects
    → p.is_deleting ≡ true
    → any (is_in p.id) w.services ≡ false
    → IsCleared p.id (clear_all w)
unfolding clear_all
clear_all-IsCleared p w h m removing free =
    clear_projects-IsCleared p (filter (λ (p : Project). p.is_deleting) w.projects) w h
      (IsIn-filter (λ (p : Project). p.is_deleting) w.projects p m removing) free
