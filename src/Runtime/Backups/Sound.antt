-- ===== src/Runtime/Backups/Sound.antt =====
-- One operation for a database at a time, and no restoration without its copy
-- (apps/control-cloud/src/runtime/backups.ts).
use personal_cloud.Prelude.{
  ℕ, ◌≡◌, ◌⊎◌, refl, sym, ap, subst, ◌∙◌, Bool, true, false, Option, none, some, List, [], ◌∷◌,
  arith, inl, inr, any, Bool-cases,
}
use personal_cloud.Store.{get}
use personal_cloud.Runtime.Backups.State.{
  Kind, backup, restore, Backup, World, find_backup, backup_id, is_active, is_active_on, busy,
  is_succeeded, is_restoring,
}
use personal_cloud.Runtime.Backups.Changes.{
  Change, Rel, Moves, Starts, HasSource, SourceFor, IsSource,
}

-- Two active operations on one database are one.
abbrev pub IsExclusive : World → Type 0
IsExclusive w =
    (i j : ℕ) (a b : Backup)
    → find_backup i w ≡ some a
    → find_backup j w ≡ some b
    → is_active a.status ≡ true
    → is_active b.status ≡ true
    → a.database_id ≡ b.database_id
    → i ≡ j

-- Each active restoration has its copy: a successful backup of the same database.
abbrev pub IsSourced : World → Type 0
IsSourced w =
    (i : ℕ) (a : Backup)
    → find_backup i w ≡ some a
    → is_active a.status ≡ true
    → HasSource w.backups a

pub any-get :
    (p : Backup → Bool) (j : ℕ) (b : Backup) (bs : List Backup)
    → any p bs ≡ false
    → get backup_id j bs ≡ some b
    → p b ≡ false
unfolding get
any-get p j b [] h g = absurd (cc)
any-get p j b (c ∷ bs) h g = ground (arith, any-get p j b bs)

module _ (n : ℕ) (w v : World) (change : Change n w v) where
  abbrev Before : ℕ → Backup → Type 0
  Before i c =
      ((b : Backup) × (find_backup i w ≡ some b) × Moves w b c) ⊎ ((i ≡ n) × Starts n w v.backups c)

  before-of :
      (i : ℕ) (c : Backup) (o : Option Backup)
      → find_backup i w ≡ o
      → Rel n w v.backups i o (some c)
      → Before i c
  before-of i c none g r = inr r
  before-of i c (some b) g r = inl (b, g, r)

  before : (i : ℕ) (c : Backup) → find_backup i v ≡ some c → Before i c
  unfolding Change
  before i c g =
      before-of i c (find_backup i w) refl
        (subst (λ o. Rel n w v.backups i (find_backup i w) o) g (change i))

  -- Nothing is active on the database of a new operation.
  alone :
      (i : ℕ) (c a : Backup)
      → busy w c.database_id ≡ false
      → find_backup i w ≡ some a
      → is_active a.status ≡ true
      → a.database_id ≡ c.database_id
      → {B : Type 0} → B
  unfolding busy
  alone i c a idle g h e =
      absurd (ground (arith, any-get (is_active_on c.database_id) i a w.backups idle g))

  pub change-IsExclusive : IsExclusive w → IsExclusive v
  change-IsExclusive h i j a b ga gb aa ab e = elim (before i a ga) [
    | inl (c, gc, mc) ↦ elim (before j b gb) [
      | inl (d, gd, md) ↦ h i j c d gc gd (mc.4 aa) (md.4 ab) (sym mc.2 ∙ e ∙ md.2)
      | inr (jn, s) ↦ alone i b c s.1 gc (mc.4 aa) (sym mc.2 ∙ e)
    ]
    | inr (ia, s) ↦ elim (before j b gb) [
      | inl (d, gd, md) ↦ alone j a d s.1 gd (md.4 ab) (sym md.2 ∙ sym e)
      | inr (jn, t) ↦ ia ∙ sym jn
    ]
  ]

  -- A copy that is being restored stays.
  IsSource-kept :
      (a : Backup) (i : ℕ) (s : Backup)
      → find_backup i w ≡ some a
      → is_active a.status ≡ true
      → a.source_backup_id ≡ some s.id
      → find_backup s.id w ≡ some s
      → IsSource a.database_id s
      → (o : Option Backup) → find_backup s.id v ≡ o
      → Rel n w v.backups s.id (some s) o
      → (t : Backup) × (t.id ≡ s.id) × (find_backup s.id v ≡ some t) × IsSource a.database_id t
  IsSource-kept a i s ga aa e gs h none go r = absurd (cc)
  IsSource-kept a i s ga aa e gs h (some t) go m = elim (Bool-cases (is_succeeded t.status)) [
    | inl ok ↦ (t, m.0, go, (m.1 ∙ h.0, m.2 ∙ h.1, ok))
    | inr bad ↦
        let used = any-get (is_restoring s.id) i a w.backups (m.5 h.2 bad) ga in
        absurd (ground (arith, used))
  ]

  kept-SourceFor :
      (i : ℕ) (b : Backup) (kind : Kind)
      → find_backup i w ≡ some b
      → is_active b.status ≡ true
      → SourceFor kind w.backups b.database_id b.source_backup_id
      → SourceFor kind v.backups b.database_id b.source_backup_id
  unfolding Change
  kept-SourceFor i b backup g a h = tt
  kept-SourceFor i b restore g a (s, e, gs, src) =
      let (t, same_id, gt, good) =
        IsSource-kept b i s g a e gs src (find_backup s.id v) refl
          (subst (λ o. Rel n w v.backups s.id o (find_backup s.id v)) gs (change s.id)) in
      (
        t,
        e ∙ ap (λ k. some k) (sym same_id),
        subst (λ k. find_backup k v ≡ some t) (sym same_id) gt,
        good,
      )

  pub change-IsSourced : IsSourced w → IsSourced v
  change-IsSourced h i c gc ac = elim (before i c gc) [
    | inl (b, g, m) ↦
        let kept = kept-SourceFor i b b.kind g (m.4 ac) (h i b g (m.4 ac)) in
        rw (m.1, m.2, m.3) kept
    | inr (k, s) ↦ s.2
  ]
