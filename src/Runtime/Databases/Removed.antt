-- ===== src/Runtime/Databases/Removed.antt =====
-- The transaction of `remove` (apps/control-cloud/src/runtime/database.ts).
use personal_cloud.Prelude.{
  ℕ, ◌≡◌, ◌≢◌, refl, Bool, false, Option, none, some, List, [], ◌∷◌, arith, ◌==◌, any, filter,
  if◌then◌else◌,
}
use personal_cloud.Store.{get, delete}
use personal_cloud.Store.Laws.{
  IsDistinct, get-put, get-key, get-delete, get-delete_ne, get-delete_self, delete-IsDistinct,
}
use personal_cloud.Runtime.Databases.State.{
  Database, Binding, Volume, World, database_id, service_of, volume_id, this, find_database,
  find_binding,
}
use personal_cloud.Runtime.Databases.Reconcile.{volume_of, unbind_all, removal}

abbrev serves : ℕ → Binding → Bool
serves k b = b.service_id == k

abbrev is_to : ℕ → Binding → Bool
is_to id b = b.database_id == id

-- What is left of a binding after a database is removed.
abbrev pub unless_to : ℕ → Option Binding → Option Binding
unless_to id none = none
unless_to id (some b) = if b.database_id == id then none else some b

get-unbind_all :
    (k : ℕ) (gone l : List Binding)
    → IsDistinct service_of l
    → get service_of k (unbind_all gone l)
      ≡ (if any (serves k) gone then none else get service_of k l)
unfolding unbind_all
get-unbind_all k [] l h = refl
get-unbind_all k (b ∷ gone) l h = ground (
  arith,
  get-unbind_all k gone (delete service_of b.service_id l)
      (delete-IsDistinct service_of b.service_id l h),
  get-delete service_of k b.service_id l h,
)

pub unbind_all-IsDistinct :
    (gone l : List Binding) → IsDistinct service_of l → IsDistinct service_of (unbind_all gone l)
unfolding unbind_all
unbind_all-IsDistinct [] l h = h
unbind_all-IsDistinct (b ∷ gone) l h =
    unbind_all-IsDistinct gone (delete service_of b.service_id l)
      (delete-IsDistinct service_of b.service_id l h)

abbrev is_to_found : ℕ → Option Binding → Bool
is_to_found id none = false
is_to_found id (some b) = is_to id b

any-filter :
    (id k : ℕ) (l : List Binding)
    → IsDistinct service_of l
    → any (serves k) (filter (is_to id) l) ≡ is_to_found id (get service_of k l)
unfolding get
any-filter id k [] h = refl
any-filter id k (b ∷ l) h = ground (arith, any-filter id k l h.1, get-key service_of k)

unless_to_lem :
    (id : ℕ) (b : Option Binding) → (if is_to_found id b then none else b) ≡ unless_to id b
unless_to_lem id none = refl
unless_to_lem id (some b) = refl

pub find_binding-removal :
    (k : ℕ) (d : Database) (w : World)
    → IsDistinct service_of w.bindings
    → find_binding k (removal d w) ≡ unless_to d.id (find_binding k w)
unfolding removal
find_binding-removal k d w h =
    rw
      (
        get-unbind_all k (filter (is_to d.id) w.bindings) w.bindings h,
        any-filter d.id k w.bindings h,
      )
      (unless_to_lem d.id (get service_of k w.bindings))

-- What has to be known of the disk of a removed database.
abbrev pub Keeps : Database → Option Volume → Type 0
Keeps d none = ⊥
Keeps d (some v) =
    (v.project_id ≡ d.project_id)
    × (v.machine_id ≡ d.machine_id)
    × (v.nomad_node_id ≡ d.nomad_node_id)
    × (v.volume_name ≡ d.volume_name)
    × (v.connection_encrypted ≡ d.connection_encrypted)

-- A database that is gone, with nothing that leads to it, and its disk on record.
pub record IsRemoved (d : Database) (w v : World) : Type 0 where
  pub gone : find_database d.id v ≡ none
  pub others_kept : (k : ℕ) → k ≢ d.id → find_database k v ≡ find_database k w
  pub unbound : (k : ℕ) → find_binding k v ≡ unless_to d.id (find_binding k w)
  pub policy_gone : get this d.id v.policies ≡ none
  pub volume_kept : Keeps d (get volume_id d.id v.retained_volumes)
  pub volumes_kept :
      (k : ℕ) → k ≢ d.id → get volume_id k v.retained_volumes ≡ get volume_id k w.retained_volumes

module _ (d : Database) (w : World) (one_database : IsDistinct database_id w.databases)
    (one_binding : IsDistinct service_of w.bindings) (one_policy : IsDistinct this w.policies) where
  -- Where no two documents of a collection have one key, removing a database deletes it, its backup policy
  -- and exactly the bindings that lead to it, and puts on record where its volume is, on which machine and
  -- node, and the credentials for it; other databases, bindings and volumes on record stay as they were.
  pub removal-IsRemoved : IsRemoved d w (removal d w)
  unfolding removal
  removal-IsRemoved = record {
    gone = get-delete_self database_id d.id w.databases one_database;
    others_kept = λ k h. get-delete_ne database_id k d.id w.databases h;
    unbound = λ k. find_binding-removal k d w one_binding;
    policy_gone = get-delete_self this d.id w.policies one_policy;
    volume_kept = ground (arith, get-put volume_id d.id (volume_of w.now d) w.retained_volumes);
    volumes_kept =
        λ k h. ground (arith, get-put volume_id k (volume_of w.now d) w.retained_volumes);
  }
