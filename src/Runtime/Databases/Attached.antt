-- ===== src/Runtime/Databases/Attached.antt =====
-- Bindings lead to databases of their service's project: what the requests and passes of
-- apps/control-cloud/src/runtime/database.ts keep.
use personal_cloud.Prelude.{
  ℕ, ◌≡◌, ◌≢◌, sym, ap, subst, ◌∙◌, inl, inr, Option, none, some, List, arith, ◌==◌, Bool-cases,
}
use personal_cloud.Prelude.Outcome.{}
use personal_cloud.Store.{get, put}
use personal_cloud.Store.Laws.{
  IsDistinct, get-put, put-IsDistinct, delete-IsDistinct, get-delete_ne, get-delete,
}
use personal_cloud.Runtime.Databases.State.{
  Database, Binding, Service, World, Event, database_id, service_of, service_key, find_database,
  find_binding, save, emit,
}
use personal_cloud.Runtime.Databases.Requests.{}
use personal_cloud.Runtime.Databases.Phases.{Platform}
use personal_cloud.Runtime.Databases.Reconcile.{removal, reconcile_database}
use personal_cloud.Runtime.Databases.Kept.{IsSame, IsSafe}
use personal_cloud.Runtime.Databases.Ends.{Ends, reconcile_database-Ends}
use personal_cloud.Runtime.Databases.Removed.{
  unless_to, find_binding-removal, unbind_all-IsDistinct,
}

-- `owner k` is the project that database `k` was created in.
module _ (owner : ℕ → ℕ) where
  abbrev pub Stored : ℕ → List Database → Type 0
  Stored k dbs = (d : Database) × (get database_id k dbs ≡ some d)

  abbrev pub Serves : ℕ → ℕ → List Service → Type 0
  Serves k project services =
      (s : Service) × ((get service_key k services ≡ some s) × (s.project_id ≡ project))

  -- No two bindings have one service and no two databases one identity, every database stays in its
  -- project, and every binding leads from a service to a stored database of the service's project.
  pub record IsAttached (w : World) : Type 0 where
    pub one_database : IsDistinct database_id w.databases
    pub one_binding : IsDistinct service_of w.bindings
    pub owned : (k : ℕ) (d : Database) → find_database k w ≡ some d → d.project_id ≡ owner k
    pub stored :
        (k : ℕ) (b : Binding) → find_binding k w ≡ some b → Stored b.database_id w.databases
    pub serves :
        (k : ℕ) (b : Binding)
        → find_binding k w ≡ some b
        → Serves k (owner b.database_id) w.services

  pub Stored-put :
      (k : ℕ) (e : Database) (dbs : List Database) → Stored k dbs → Stored k (put database_id e dbs)
  Stored-put k e dbs (d, h) = elim (Bool-cases (e.id == k)) [
    | inl q ↦ (e, get-put database_id k e dbs ∙ (rw q))
    | inr q ↦ (d, get-put database_id k e dbs ∙ (rw q h))
  ]

  pub save-IsAttached :
      (e : Database) (w : World) → e.project_id ≡ owner e.id → IsAttached w → IsAttached (save e w)
  save-IsAttached e w q h = record {
    one_database = put-IsDistinct database_id e w.databases h.one_database;
    one_binding = h.one_binding;
    owned = λ k d f. ground (arith, get-put database_id k e w.databases, h.owned k d);
    stored = λ k b f. Stored-put b.database_id e w.databases (h.stored k b f);
    serves = h.serves;
  }

  pub emit-IsAttached : (e : Event) (w : World) → IsAttached w → IsAttached (emit e w)
  emit-IsAttached e w h = record {
    one_database = h.one_database;
    one_binding = h.one_binding;
    owned = h.owned;
    stored = h.stored;
    serves = h.serves;
  }

  placed : (d e : Database) → d.project_id ≡ owner d.id → IsSame d e → e.project_id ≡ owner e.id
  placed d e q h = h.same_project ∙ q ∙ ap owner (sym h.same_id)

  unless_to-some :
      (id : ℕ) (b : Option Binding) (c : Binding)
      → unless_to id b ≡ some c
      → (b ≡ some c) × (id ≢ c.database_id)
  unless_to-some id none c h = absurd (cc)
  unless_to-some id (some b) c h = ground arith

  removal-Stored :
      (e : Database) (w : World) (k : ℕ)
      → e.id ≢ k
      → Stored k w.databases
      → Stored k (removal e w).databases
  unfolding removal
  removal-Stored e w k h (d, f) =
      (d, get-delete_ne database_id k e.id w.databases (λ q. h (sym q)) ∙ f)

  removal-owned :
      (e : Database) (w : World)
      → IsAttached w
      → (k : ℕ) (d : Database) → find_database k (removal e w) ≡ some d
      → d.project_id ≡ owner k
  unfolding removal
  removal-owned e w h k d f =
      ground (arith, get-delete database_id k e.id w.databases h.one_database, h.owned k d)

  removal-databases :
      (e : Database) (w : World) → IsAttached w → IsDistinct database_id (removal e w).databases
  unfolding removal
  removal-databases e w h = delete-IsDistinct database_id e.id w.databases h.one_database

  removal-bindings :
      (e : Database) (w : World) → IsAttached w → IsDistinct service_of (removal e w).bindings
  unfolding removal
  removal-bindings e w h = unbind_all-IsDistinct _ w.bindings h.one_binding

  removal-was_bound :
      (e : Database) (w : World)
      → IsAttached w
      → (k : ℕ) (b : Binding) → find_binding k (removal e w) ≡ some b
      → (find_binding k w ≡ some b) × (e.id ≢ b.database_id)
  removal-was_bound e w h k b f =
      unless_to-some e.id (find_binding k w) b (sym (find_binding-removal k e w h.one_binding) ∙ f)

  removal-serves :
      (e : Database) (w : World) (k project : ℕ)
      → Serves k project w.services
      → Serves k project (removal e w).services
  unfolding removal
  removal-serves e w k project h = h

  pub removal-IsAttached : (e : Database) (w : World) → IsAttached w → IsAttached (removal e w)
  removal-IsAttached e w h = record {
    one_database = removal-databases e w h;
    one_binding = removal-bindings e w h;
    owned = removal-owned e w h;
    stored = λ k b f.
        let (old, other) = removal-was_bound e w h k b f in
        removal-Stored e w b.database_id other (h.stored k b old);
    serves = λ k b f.
        removal-serves e w k (owner b.database_id) (h.serves k b (removal-was_bound e w h k b f).0);
  }

  Ends-IsAttached :
      (d : Database) (w : World) → d.project_id ≡ owner d.id → Ends IsAttached d w → IsAttached w
  Ends-IsAttached d w q (Ends.quiet h) = h
  Ends-IsAttached d w q (Ends.saved v e h u f) =
      subst IsAttached (sym f) (save-IsAttached e v (placed d e q u.same) h)
  Ends-IsAttached d w q (Ends.removed v e h u g f) =
      subst IsAttached (sym f) (removal-IsAttached e v h)

  -- Where every await of a pass over a database keeps bindings attached to databases of their service's
  -- project, as the other requests and passes do, the pass keeps them attached, whatever it does.
  pub reconcile_database-IsAttached :
      (p : Platform) (d : Database) (w : World)
      → IsSafe IsAttached p
      → d.project_id ≡ owner d.id
      → IsAttached w
      → IsAttached (reconcile_database p d w)
  reconcile_database-IsAttached p d w safe q h =
      Ends-IsAttached d (reconcile_database p d w) q
        (reconcile_database-Ends IsAttached p safe emit-IsAttached d w h)
