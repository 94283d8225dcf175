-- ===== src/Runtime/Databases/Asked.antt =====
-- What the requests on databases (apps/control-cloud/src/runtime/database.ts) keep, and when they are
-- granted.
use personal_cloud.Prelude.{
  ℕ, ◌≡◌, sym, ap, subst, ◌∙◌, inl, inr, true, false, some, List, [], ◌∷◌, arith, ◌==◌, ==→eq,
  if◌then◌else◌, Bool-cases, Option-cases,
}
use personal_cloud.Prelude.Outcome.{ok, Result-cases}
use personal_cloud.Store.{get, put}
use personal_cloud.Store.Laws.{IsDistinct, get-put, put-IsDistinct}
use personal_cloud.Runtime.Databases.State.{
  Database, Binding, Service, World, database_id, service_of, find_database, find_binding,
  find_service, save, is_deleting, database_queued,
}
use personal_cloud.Runtime.Databases.Requests.{
  Platform, bind, bind_all, bound, is_restored, is_other, admit, attach_database,
}
use personal_cloud.Runtime.Databases.Attached.{
  Stored, Serves, Stored-put, IsAttached, save-IsAttached, emit-IsAttached,
}

-- What an accepted binding met.
pub record IsBindable (db : Database) (service : ℕ) (w : World) : Type 0 where
  pub restored : is_restored db.restore_id w ≡ true
  pub found : Service
  pub is_found : find_service service w ≡ some found
  pub project : found.project_id ≡ db.project_id
  pub free : is_other (find_binding service w) db.id ≡ false
  pub wanted : is_deleting db.status ≡ false

pub bind-ok :
    (db : Database) (service : ℕ) (w v : World)
    → bind db service w ≡ ok v
    → IsBindable db service w × (v ≡ bound db service w)
unfolding bind
bind-ok db service w v h = elim (Option-cases (find_service service w)) [
  | inl e ↦ absurd (ground arith)
  | inr (s, e) ↦ (
    record {
      restored = ground arith;
      found = s;
      is_found = e;
      project = ground arith;
      free = ground arith;
      wanted = ground arith;
    },
    ground arith,
  )
]

found_new :
    (k : ℕ) (new : Binding) (w : World) (b : Binding)
    → (new.service_id == k) ≡ true
    → get service_of k (put service_of new w.bindings) ≡ some b
    → new ≡ b
found_new k new w b e f = ground (arith, get-put service_of k new w.bindings)

found_old :
    (k : ℕ) (new : Binding) (w : World) (b : Binding)
    → (new.service_id == k) ≡ false
    → get service_of k (put service_of new w.bindings) ≡ some b
    → find_binding k w ≡ some b
found_old k new w b e f = sym (get-put service_of k new w.bindings ∙ rw e) ∙ f

module _ (owner : ℕ → ℕ) where
  -- Bindings that lead into `dbs`, which need not be what is stored yet.
  pub record IsInto (dbs : List Database) (w : World) : Type 0 where
    pub one_binding : IsDistinct service_of w.bindings
    pub stored : (k : ℕ) (b : Binding) → find_binding k w ≡ some b → Stored owner b.database_id dbs
    pub serves :
        (k : ℕ) (b : Binding)
        → find_binding k w ≡ some b
        → Serves owner k (owner b.database_id) w.services

  pub bound-IsInto :
      (dbs : List Database) (db : Database) (service : ℕ) (w : World)
      → Stored owner db.id dbs
      → db.project_id ≡ owner db.id
      → IsBindable db service w
      → IsInto dbs w
      → IsInto dbs (bound db service w)
  bound-IsInto dbs db service w there placed q h =
      let new : Binding = record { service_id = service; database_id = db.id } in
      record {
        one_binding = put-IsDistinct service_of new w.bindings h.one_binding;
        stored = λ k b f. elim (Bool-cases (service == k)) [
          | inl e ↦
              subst (λ (c : Binding). Stored owner c.database_id dbs) (found_new k new w b e f)
                there
          | inr e ↦ h.stored k b (found_old k new w b e f)
        ];
        serves = λ k b f. elim (Bool-cases (service == k)) [
          | inl e ↦
              subst (λ (c : Binding). Serves owner k (owner c.database_id) w.services)
                (found_new k new w b e f)
                (
                  q.found,
                  (
                    ap (λ j. find_service j w) (sym (==→eq service k e)) ∙ q.is_found,
                    q.project ∙ placed,
                  ),
                )
          | inr e ↦ h.serves k b (found_old k new w b e f)
        ];
      }

  bind_all-IsInto :
      (dbs : List Database) (db : Database) (services : List ℕ) (w v : World)
      → Stored owner db.id dbs
      → db.project_id ≡ owner db.id
      → IsInto dbs w
      → bind_all db services w ≡ ok v
      → IsInto dbs v × (v.databases ≡ w.databases)
  unfolding bind_all
  bind_all-IsInto dbs db [] w v there placed h e =
      let same : w ≡ v = cc in
      (subst (IsInto dbs) same h, ap (λ (t : World). t.databases) (sym same))
  bind_all-IsInto dbs db (service ∷ rest) w v there placed h e =
      elim (Result-cases (bind db service w)) [
        | inl (bad, f) ↦ absurd (ground arith)
        | inr (u, f) ↦
            let (q, g) = bind-ok db service w u f in
            let (k, s) =
              bind_all-IsInto dbs db rest u v there placed
                (subst (IsInto dbs) (sym g) (bound-IsInto dbs db service w there placed q h))
                (rw f at e) in
            (k, s ∙ ap (λ (t : World). t.databases) g)
      ]

  pub into : (w : World) → IsAttached owner w → IsInto w.databases w
  into w h = record { one_binding = h.one_binding; stored = h.stored; serves = h.serves }

  coming :
      (w : World) (db : Database) → IsAttached owner w → IsInto (put database_id db w.databases) w
  coming w db h = record {
    one_binding = h.one_binding;
    stored = λ k b f. Stored-put owner b.database_id db w.databases (h.stored k b f);
    serves = h.serves;
  }

  pub admit-IsAttached :
      (p : Platform) (db : Database) (services : List ℕ) (w : World)
      → db.project_id ≡ owner db.id
      → IsAttached owner w
      → IsAttached owner (admit p db services w).1
  admit-IsAttached p db services w placed h = elim (Result-cases (bind_all db services w)) [
    | inl (e, f) ↦ rw f h
    | inr (v, f) ↦ rw f (
        let (q, same) =
          bind_all-IsInto (put database_id db w.databases) db services w v
            (db, ground (arith, get-put database_id db.id db w.databases)) placed (coming w db h)
            f in
        emit-IsAttached owner (database_queued db.id) (save db v) record {
          one_database =
              subst (λ dbs. IsDistinct database_id (put database_id db dbs)) (sym same)
                (put-IsDistinct database_id db w.databases h.one_database);
          one_binding = q.one_binding;
          owned =
              subst
                (λ dbs.
                  (k : ℕ) (d : Database)
                  → get database_id k (put database_id db dbs) ≡ some d
                  → d.project_id ≡ owner k)
                (sym same) (save-IsAttached owner db w placed h).owned;
          stored =
              subst
                (λ dbs.
                  (k : ℕ) (b : Binding)
                  → find_binding k v ≡ some b
                  → Stored owner b.database_id (put database_id db dbs))
                (sym same) q.stored;
          serves = q.serves;
        })
  ]

-- An accepted request to attach a database binds the service to it, and nothing else; it met a database
-- that is not being removed and not being restored, in the project of the service, and a service that no
-- other database is bound to.
pub attach_database_ok :
    (id service : ℕ) (w v : World)
    → attach_database id service w ≡ (ok tt, v)
    → (db : Database) × ((find_database id w ≡ some db)
        × (IsBindable db service w
            × ((k : ℕ)
                → find_binding k v ≡ (
                    if service == k
                    then some record { service_id = service; database_id = db.id }
                    else find_binding k w))))
unfolding attach_database
attach_database_ok id service w v h = elim (Option-cases (find_database id w)) [
  | inl e ↦ absurd (ground arith)
  | inr (db, e) ↦ elim (Result-cases (bind db service w)) [
    | inl (bad, f) ↦ absurd (ground arith)
    | inr (u, f) ↦
        let (q, g) = bind-ok db service w u f in
        let same : v ≡ u = ground arith in
        (
          db,
          (
            e,
            (
              q,
              λ k.
                  ap (find_binding k) (same ∙ g)
                  ∙ get-put service_of k record { service_id = service; database_id = db.id }
                      w.bindings,
            ),
          ),
        )
  ]
]
