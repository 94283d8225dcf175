-- ===== src/Runtime/Databases/Served.antt =====
-- Every request on databases (apps/control-cloud/src/runtime/database.ts and runtime.ts) keeps the bindings
-- attached.
use personal_cloud.Prelude.{
  ℕ, ◌≡◌, refl, sym, ap, subst, ◌∙◌, inl, inr, Bool, Option, some, arith, Bool-cases, Option-cases,
}
use personal_cloud.Prelude.Outcome.{Result, ok, err, Result-cases}
use personal_cloud.Store.{get, delete}
use personal_cloud.Store.Laws.{get-key, get-delete, delete-IsDistinct}
use personal_cloud.Runtime.Placement.{Node}
use personal_cloud.Runtime.Databases.State.{
  Database, Binding, World, database_id, service_of, find_database, find_binding, save,
}
use personal_cloud.Runtime.Databases.Requests.{
  Platform, Input, bind, Answer, commit, answered, checked, is_bound_to, create_on, create_new,
  create_database, retry_known, retry_database, attach_database, detach_database, remove_database,
  new_database, retried, removing, Request, create, retry_of, attach_to, detach_from, remove_of,
  serve, is_reserved, create_checks, create_with, choose_target, retry_checks, retry_with,
  check_original, retry_opened, retry_sealed, remove_known,
}
use personal_cloud.Runtime.Databases.Kept.{Keeps}
use personal_cloud.Runtime.Databases.Attached.{IsAttached, save-IsAttached}
use personal_cloud.Runtime.Databases.Asked.{bind-ok, bound-IsInto, into, admit-IsAttached}

module _ (P : World → Type 0) where
  -- Every await of a request keeps `P`.
  pub record IsQuiet (p : Platform) : Type 0 where
    pub nodes : Keeps P p.nodes
    pub open_connection : (uri : ℕ) → Keeps P (p.open_connection uri)
    pub seal_connection : (uri : ℕ) → Keeps P (p.seal_connection uri)
    pub seal_job : (id uri : ℕ) → Keeps P (p.seal_job id uri)

  abbrev LeavesHold : Answer → Type 0
  LeavesHold a = P a.1

  answered-Holds :
      {A : Type 0} (x : Result A × World) (next : A → World → Answer)
      → P x.1
      → ((a : A) (w : World) → P w → P (next a w).1)
      → P (answered x next).1
  answered-Holds (ok a, w) next h k = k a w h
  answered-Holds (err e, w) next h k = h

  checked-Holds :
      {A : Type 0} (r : Result A) (w : World) (next : A → Answer)
      → P w
      → ((a : A) → r ≡ ok a → P (next a).1)
      → P (checked r w next).1
  checked-Holds (ok a) w next h k = k a refl
  checked-Holds (err e) w next h k = h

module _ (owner : ℕ → ℕ) (p : Platform) (quiet : IsQuiet (IsAttached owner) p) where
  create_on-IsAttached :
      (id : ℕ) (restore : Option ℕ) (input : Input) (target : Node) (w : World)
      → input.project_id ≡ owner id
      → IsAttached owner w
      → IsAttached owner (create_on p id restore input target w).1
  create_on-IsAttached id restore input target w placed h =
      answered-Holds (IsAttached owner) (p.seal_connection (p.pending_uri id) w) _
        (quiet.seal_connection (p.pending_uri id) w h)
        λ sealed v h.
          answered-Holds (IsAttached owner) (p.seal_job id (p.pending_uri id) v) _
            (quiet.seal_job id (p.pending_uri id) v h)
            λ job u h.
              admit-IsAttached owner p
                record (new_database p id restore input target sealed w) {
                  job_encrypted = some job;
                }
                input.service_ids u placed h

  create_new-IsAttached :
      (id : ℕ) (restore : Option ℕ) (input : Input) (w : World)
      → input.project_id ≡ owner id
      → IsAttached owner w
      → IsAttached owner (create_new p id restore input w).1
  create_new-IsAttached id restore input w placed h =
      checked-Holds (IsAttached owner) (create_checks p input w) w
        (λ _. answered (p.nodes w) (create_with p id restore input)) h
        λ _ _.
          answered-Holds (IsAttached owner) (p.nodes w) (create_with p id restore input)
            (quiet.nodes w h)
            λ inventory v h.
              checked-Holds (IsAttached owner) (choose_target p input inventory) v
                (λ target. create_on p id restore input target v) h
                λ target _. create_on-IsAttached id restore input target v placed h

  retry_known-IsAttached :
      (db : Database) (w : World)
      → db.project_id ≡ owner db.id
      → IsAttached owner w
      → IsAttached owner (retry_known p db w).1
  retry_known-IsAttached db w placed h =
      checked-Holds (IsAttached owner) (retry_checks p db) w
        (λ _. answered (p.nodes w) (retry_with p db)) h
        λ _ _.
          answered-Holds (IsAttached owner) (p.nodes w) (retry_with p db) (quiet.nodes w h)
            λ inventory v h.
              checked-Holds (IsAttached owner) (check_original p db inventory) v
                (λ _. answered (p.open_connection db.connection_encrypted v) (retry_opened p db)) h
                λ _ _.
                  answered-Holds (IsAttached owner) (p.open_connection db.connection_encrypted v)
                    (retry_opened p db) (quiet.open_connection db.connection_encrypted v h)
                    λ uri u h.
                      answered-Holds (IsAttached owner) (p.seal_job db.id uri u) (retry_sealed p db)
                        (quiet.seal_job db.id uri u h)
                        λ job t h. save-IsAttached owner (retried p db job t) t placed h

  create-IsAttached :
      (reserved : Bool) (id : ℕ) (restore : Option ℕ) (input : Input) (w : World)
      → input.project_id ≡ owner id
      → IsAttached owner w
      → IsAttached owner (create_database p reserved id restore input w).1
  unfolding create_database
  create-IsAttached reserved id restore input w placed h =
      elim (Bool-cases (is_reserved p reserved id w)) [
        | inl e ↦ rw e h
        | inr e ↦ rw e (create_new-IsAttached id restore input w placed h)
      ]

  -- The project of a stored database.
  placed_of :
      (id : ℕ) (db : Database) (w : World)
      → IsAttached owner w
      → find_database id w ≡ some db
      → db.project_id ≡ owner db.id
  placed_of id db w h e = h.owned id db e ∙ ap owner (sym (get-key database_id id db w.databases e))

  retry-IsAttached :
      (id : ℕ) (w : World) → IsAttached owner w → IsAttached owner (retry_database p id w).1
  unfolding retry_database
  retry-IsAttached id w h = elim (Option-cases (find_database id w)) [
    | inl e ↦ rw e h
    | inr (db, e) ↦ rw e (retry_known-IsAttached db w (placed_of id db w h e) h)
  ]

  bind-IsAttached :
      (db : Database) (service : ℕ) (w : World)
      → find_database db.id w ≡ some db
      → IsAttached owner w
      → IsAttached owner (commit (bind db service w) w).1
  bind-IsAttached db service w e h = elim (Result-cases (bind db service w)) [
    | inl (bad, f) ↦ rw f h
    | inr (v, f) ↦ rw f (
        let (q, g) = bind-ok db service w v f in
        let k =
          bound-IsInto owner w.databases db service w (db, e) (placed_of db.id db w h e) q
            (into owner w h) in
        subst (IsAttached owner) (sym g) record {
          one_database = h.one_database;
          one_binding = k.one_binding;
          owned = h.owned;
          stored = k.stored;
          serves = k.serves;
        })
  ]

  attach-IsAttached :
      (id service : ℕ) (w : World)
      → IsAttached owner w
      → IsAttached owner (attach_database id service w).1
  unfolding attach_database
  attach-IsAttached id service w h = elim (Option-cases (find_database id w)) [
    | inl e ↦ rw e h
    | inr (db, e) ↦ rw e (
        bind-IsAttached db service w
          (subst (λ k. find_database k w ≡ some db) (sym (get-key database_id id db w.databases e))
            e)
          h)
  ]

  remove_known-ok :
      (db : Database) (id : ℕ) (w v : World)
      → remove_known db id w ≡ ok v
      → save (removing db) w ≡ v
  remove_known-ok db id w v h = ground arith

  kept :
      (service : ℕ) (w : World)
      → IsAttached owner w
      → (k : ℕ) (b : Binding) → get service_of k (delete service_of service w.bindings) ≡ some b
      → find_binding k w ≡ some b
  kept service w h k b f = ground (arith, get-delete service_of k service w.bindings h.one_binding)

  unbound-IsAttached :
      (service : ℕ) (w : World)
      → IsAttached owner w
      → IsAttached owner record w { bindings = delete service_of service w.bindings }
  unbound-IsAttached service w h = record {
    one_database = h.one_database;
    one_binding = delete-IsDistinct service_of service w.bindings h.one_binding;
    owned = h.owned;
    stored = λ k b f. h.stored k b (kept service w h k b f);
    serves = λ k b f. h.serves k b (kept service w h k b f);
  }

  detach-IsAttached :
      (id service : ℕ) (w : World)
      → IsAttached owner w
      → IsAttached owner (detach_database id service w)
  unfolding detach_database
  detach-IsAttached id service w h = elim (Bool-cases (is_bound_to (find_binding service w) id)) [
    | inl e ↦ rw e (unbound-IsAttached service w h)
    | inr e ↦ rw e h
  ]

  remove-IsAttached :
      (id : ℕ) (w : World) → IsAttached owner w → IsAttached owner (remove_database id w).1
  unfolding remove_database
  remove-IsAttached id w h = elim (Option-cases (find_database id w)) [
    | inl e ↦ rw e h
    | inr (db, e) ↦ rw e (elim (Result-cases (remove_known db id w)) [
      | inl (bad, f) ↦ rw f h
      | inr (v, f) ↦ rw f (
          subst (IsAttached owner) (remove_known-ok db id w v f)
            (save-IsAttached owner (removing db) w (placed_of id db w h e) h))
    ])
  ]

  -- A new database comes with an identity of its own.
  abbrev pub IsPlaced : Request → Type 0
  IsPlaced (create reserved id restore input) = input.project_id ≡ owner id
  IsPlaced _ = Unit {0}

  -- Where every await of a request keeps bindings attached to databases of their service's project, as the
  -- other requests and passes do, every request keeps them attached, granted or refused: creating a
  -- database with services, attaching and detaching one, retrying and removing it.
  pub serve-IsAttached :
      (q : Request) (w : World) → IsPlaced q → IsAttached owner w → IsAttached owner (serve p q w)
  unfolding serve
  serve-IsAttached (create reserved id restore input) w placed h =
      create-IsAttached reserved id restore input w placed h
  serve-IsAttached (retry_of id) w placed h = retry-IsAttached id w h
  serve-IsAttached (attach_to id service) w placed h = attach-IsAttached id service w h
  serve-IsAttached (detach_from id service) w placed h = detach-IsAttached id service w h
  serve-IsAttached (remove_of id) w placed h = remove-IsAttached id w h
