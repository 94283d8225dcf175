-- ===== src/Organize/Rows.antt =====
-- The rows of a plan (apps/control-cloud/src/project-organization.ts).
use personal_cloud.Prelude.{
  ℕ, ◌≡◌, refl, sym, ap, subst, true, false, Option, none, some, List, [], ◌∷◌, ◌==◌, any, find,
  is_some, All, arith, inl, inr, Option-cases, ◌⊎◌, ◌++◌, filter, length, IsIn, filter-IsIn, ==→eq,
}
use personal_cloud.Prelude.Outcome.{Result, ok, err, Result-cases}
use personal_cloud.Store.{get}
use personal_cloud.Store.Laws.{IsDistinct}
use personal_cloud.Organize.{
  Project, Assignment, Workspace, Plan, Inventory, row_key, assignment_errors, id_of, is_removed,
  row_of, added, has_name, by_name, choose, add_chosen, plan_checked, plan_one, plan_all,
}
use personal_cloud.Organize.Asked.{
  key_of, HasRow, Grows, HasRow-Grows, IsIn-append, append-IsIn, append-last,
}

module _ (v : Inventory) (w : Workspace) where
  -- A project of the workspace, or one of these that are created.
  abbrev pub IsAround : List Project → Project → Type 0
  IsAround created q = IsIn q w.projects ⊎ IsIn q created

  -- The plan after one more assignment.
  abbrev pub Extends : Plan → Assignment → Plan → Type 0
  Extends plan a next =
      (p : Option Project) × (created : List Project) × (next ≡ added v plan a p created)
      × (is_removed v p ≡ false)
      × (choose v w plan.created a.project_id a.project_name ≡ ok (p, created))
      × (assignment_errors v w plan a ≡ ok tt)

  add_chosen-Extends :
      (plan : Plan) (a : Assignment) (next : Plan) (x : Result (Option Project × List Project))
      → choose v w plan.created a.project_id a.project_name ≡ x
      → assignment_errors v w plan a ≡ ok tt
      → add_chosen v plan a x ≡ ok next
      → Extends plan a next
  add_chosen-Extends plan a next (err e) c q h = absurd (cc)
  add_chosen-Extends plan a next (ok (p, created)) c q h =
      (p, created, ground arith, ground arith, c, q)

  plan_checked-Extends :
      (plan : Plan) (a : Assignment) (next : Plan) (x : Result (Unit {0}))
      → assignment_errors v w plan a ≡ x
      → plan_checked v w plan a x ≡ ok next
      → Extends plan a next
  plan_checked-Extends plan a next (err e) q h = absurd (cc)
  plan_checked-Extends plan a next (ok t) q h = add_chosen-Extends plan a next _ refl q h

  plan_one-Extends :
      (plan : Plan) (a : Assignment) (next : Plan)
      → plan_one v w plan a ≡ ok next
      → Extends plan a next
  unfolding plan_one
  plan_one-Extends plan a next h = plan_checked-Extends plan a next _ refl h

  unseen :
      (plan : Plan) (a : Assignment)
      → assignment_errors v w plan a ≡ ok tt
      → any (λ k. k == key_of v a) plan.seen ≡ false
  unseen plan a h = ground arith

  find_id :
      (k : ℕ) (ps : List Project) (p : Project)
      → find (λ (q : Project). q.id == k) ps ≡ some p
      → p.id ≡ k
  find_id k [] p h = absurd (cc)
  find_id k (q ∷ ps) p h = ground (arith, find_id k ps p)

  chosen_id :
      (created after : List Project) (k : ℕ) (name : Option ℕ) (p : Option Project)
      → choose v w created (some k) name ≡ ok (p, after)
      → id_of v p ≡ some k
  chosen_id created after k name p h =
      elim (Option-cases (find (λ (q : Project). q.id == k) w.projects)) [
        | inl e ↦ ground arith
        | inr (q, e) ↦ ground (arith, find_id k w.projects q e)
      ]

  chosen_none :
      (created after : List Project) (p : Option Project)
      → choose v w created none none ≡ ok (p, after)
      → p ≡ none
  chosen_none created after p h = ground arith

  -- The projects of that name, as `by_name` finds or makes one.
  by_name-named :
      (n : ℕ) (created after found : List Project) (p : Option Project)
      → ((q : Project) → IsIn q found → IsAround created q × (v.lower q.name ≡ v.lower n))
      → by_name v n created found ≡ ok (p, after)
      → (q : Project) × (p ≡ some q) × IsAround after q × (v.lower q.name ≡ v.lower n)
  by_name-named n created after [] p h e =
      let made : Project = record {
        id = v.fresh (length created);
        name = n;
        is_deleting = false;
      } in
      let same : created ++ (made ∷ []) ≡ after = ground arith in
      (made, ground arith, subst (λ l. IsAround l made) same (inr (append-last created made)), refl)
  by_name-named n created after (q ∷ []) p h e =
      let same : created ≡ after = ground arith in
      let (around, named) = h q (inl refl) in
      (q, ground arith, subst (λ l. IsAround l q) same around, named)
  by_name-named n created after (q ∷ r ∷ l) p h e = absurd (cc)

  chosen_named :
      (created after : List Project) (n : ℕ) (p : Option Project)
      → choose v w created none (some n) ≡ ok (p, after)
      → (q : Project) × (p ≡ some q) × IsAround after q × (v.lower q.name ≡ v.lower n)
  chosen_named created after n p h =
      by_name-named n created after (filter (has_name v n) (w.projects ++ created)) p
        (λ q m.
          let (there, named) = filter-IsIn (has_name v n) (w.projects ++ created) q m in
          (IsIn-append w.projects created q there, ==→eq (v.lower q.name) (v.lower n) named))
        h

  -- Choosing a project forgets none of those created.
  by_name-keeps :
      (n : ℕ) (created after found : List Project) (p : Option Project)
      → by_name v n created found ≡ ok (p, after)
      → (q : Project) → IsIn q created
      → IsIn q after
  by_name-keeps n created after [] p e q m =
      let made : Project = record {
        id = v.fresh (length created);
        name = n;
        is_deleting = false;
      } in
      let same : created ++ (made ∷ []) ≡ after = ground arith in
      subst (λ l. IsIn q l) same (append-IsIn created (made ∷ []) q m)
  by_name-keeps n created after (r ∷ []) p e q m =
      let same : created ≡ after = ground arith in subst (λ l. IsIn q l) same m
  by_name-keeps n created after (r ∷ s ∷ l) p e q m = absurd (cc)

  choose-keeps :
      (created after : List Project) (k name : Option ℕ) (p : Option Project)
      → choose v w created k name ≡ ok (p, after)
      → (q : Project) → IsIn q created
      → IsIn q after
  choose-keeps created after (some k) name p e q m =
      elim (Option-cases (find (λ (q : Project). q.id == k) w.projects)) [
        | inl absent ↦ absurd (ground arith)
        | inr (r, found) ↦ let same : created ≡ after = ground arith in subst (λ l. IsIn q l) same m
      ]
  choose-keeps created after none (some n) p e q m =
      by_name-keeps n created after (filter (has_name v n) (w.projects ++ created)) p e q m
  choose-keeps created after none none p e q m =
      let same : created ≡ after = ground arith in subst (λ l. IsIn q l) same m

  named_only :
      (plan : Plan) (a : Assignment) (n : ℕ)
      → assignment_errors v w plan a ≡ ok tt
      → a.project_name ≡ some n
      → a.project_id ≡ none
  named_only plan a n q e = ground arith

  row_named :
      (plan : Plan) (a : Assignment) (p : Option Project) (created : List Project) (n : ℕ)
      → assignment_errors v w plan a ≡ ok tt
      → choose v w plan.created a.project_id a.project_name ≡ ok (p, created)
      → a.project_name ≡ some n
      → (q : Project) × IsAround created q × (v.lower q.name ≡ v.lower n) × (id_of v p ≡ some q.id)
  row_named plan a p created n q c e =
      let (made, is_it, around, named) = chosen_named plan.created created n p (
        subst (λ k. choose v w plan.created k (some n) ≡ ok (p, created)) (named_only plan a n q e)
          (subst (λ m. choose v w plan.created a.project_id m ≡ ok (p, created)) e c)) in
      (made, around, named, ap (id_of v) is_it)

  ignored_none :
      (plan : Plan) (a : Assignment) (p : Option Project) (after : List Project)
      → a.ignored ≡ true
      → assignment_errors v w plan a ≡ ok tt
      → choose v w plan.created a.project_id a.project_name ≡ ok (p, after)
      → id_of v p ≡ none
  ignored_none plan a p after i q c =
      let no_id : a.project_id ≡ none = ground arith in
      let no_name : a.project_name ≡ none = ground arith in
      ground (arith, chosen_none plan.created after p)

  -- `seen` holds the identities of the rows, which are different.
  abbrev IsTidy : Plan → Type 0
  IsTidy plan =
      ((k : ℕ) → any (λ j. j == k) plan.seen ≡ is_some (get row_key k plan.rows))
      × IsDistinct row_key plan.rows

  new_key :
      (plan : Plan) (a : Assignment)
      → IsTidy plan
      → assignment_errors v w plan a ≡ ok tt
      → get row_key (key_of v a) plan.rows ≡ none
  new_key plan a t q = elim (Option-cases (get row_key (key_of v a) plan.rows)) [
    | inl e ↦ e
    | inr (r, e) ↦ absurd (ground (arith, t.0 (key_of v a), unseen plan a q))
  ]

  added-IsTidy :
      (plan : Plan) (a : Assignment) (p : Option Project) (created : List Project)
      → IsTidy plan
      → assignment_errors v w plan a ≡ ok tt
      → IsTidy (added v plan a p created)
  unfolding get
  added-IsTidy plan a p created t q = ((λ k. ground (arith, t.0 k)), (new_key plan a t q, t.1))

  added-Grows :
      (plan : Plan) (a : Assignment) (p : Option Project) (created : List Project)
      → IsTidy plan
      → assignment_errors v w plan a ≡ ok tt
      → Grows plan.rows (added v plan a p created).rows
  unfolding get
  added-Grows plan a p created t q k r g = ground (arith, new_key plan a t q, g)

  added-HasRow :
      (plan : Plan) (a : Assignment) (p : Option Project) (created : List Project)
      → assignment_errors v w plan a ≡ ok tt
      → choose v w plan.created a.project_id a.project_name ≡ ok (p, created)
      → HasRow v (IsAround created) (added v plan a p created).rows a
  unfolding get
  added-HasRow plan a p created q c = (
    row_of v a p,
    ground arith,
    refl,
    refl,
    (λ i. ignored_none plan a p created i q c),
    (λ k e. chosen_id plan.created created k a.project_name p (rw e at c)),
    λ n e. row_named plan a p created n q c e,
  )

  abbrev Keeps : Plan → Plan → Type 0
  Keeps plan done =
      Grows plan.rows done.rows × ((q : Project) → IsIn q plan.created → IsIn q done.created)

  plan_one-HasRow :
      (plan next : Plan) (a : Assignment)
      → IsTidy plan
      → plan_one v w plan a ≡ ok next
      → IsTidy next × Keeps plan next × HasRow v (IsAround next.created) next.rows a
  plan_one-HasRow plan next a t h =
      let (p, created, e, open_project, c, checked) = plan_one-Extends plan a next h in
      subst (λ (d : Plan). IsTidy d × Keeps plan d × HasRow v (IsAround d.created) d.rows a) (sym e)
        (
          added-IsTidy plan a p created t checked,
          (
            added-Grows plan a p created t checked,
            choose-keeps plan.created created a.project_id a.project_name p c,
          ),
          added-HasRow plan a p created checked c,
        )

  pub plan_all-HasRow :
      (l : List Assignment) (plan done : Plan)
      → IsTidy plan
      → plan_all v w plan l ≡ ok done
      → IsTidy done × Keeps plan done × All (HasRow v (IsAround done.created) done.rows) l
  unfolding plan_all
  plan_all-HasRow [] plan done t h =
      let e : plan ≡ done = ground arith in
      subst (λ (d : Plan). IsTidy d × Keeps plan d × Unit) e (t, ((λ k r g. g), λ q m. m), tt)
  plan_all-HasRow (a ∷ l) plan done t h = elim (Result-cases (plan_one v w plan a)) [
    | inl (e, q) ↦ absurd (ground arith)
    | inr (next, q) ↦
        let (tidy, (grow, keep), row) = plan_one-HasRow plan next a t q in
        let (still, (grow', keep'), rest) = plan_all-HasRow l next done tidy (ground arith) in
        (
          still,
          ((λ k r g. grow' k r (grow k r g)), λ q m. keep' q (keep q m)),
          (
            HasRow-Grows v (IsAround next.created) (IsAround done.created) next.rows done.rows a
                (λ q. elim [ inl m ↦ inl m | inr m ↦ inr (keep' q m) ]) grow' row,
            rest,
          ),
        )
  ]
