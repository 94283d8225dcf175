-- ===== src/Store/Laws.antt =====
-- Reading after writing, and what a write does to a property of every document.
use personal_cloud.Prelude.{
  ℕ, ◌≡◌, ◌≢◌, refl, Bool, not, none, some, List, [], ◌∷◌, arith, ltb, ◌==◌, if◌then◌else◌, All,
  filter, Bool-cases, inl, inr, ==→eq,
}
use personal_cloud.Store.{get, put, delete, prune}

module _ {A : Type 0} (key : A → ℕ) where
  pub get-put :
      (k : ℕ) (d : A) (ds : List A)
      → get key k (put key d ds) ≡ (if key d == k then some d else get key k ds)
  unfolding get put
  get-put k d [] = refl
  get-put k d (e ∷ ds) = ground (arith, get-put k d ds)

  pub get-key : (k : ℕ) (d : A) (ds : List A) → get key k ds ≡ some d → key d ≡ k
  unfolding get
  get-key k d [] h = absurd (cc)
  get-key k d (e ∷ ds) h = ground (arith, get-key k d ds)

  -- No two documents have one key.
  abbrev pub IsDistinct : List A → Type 0
  IsDistinct [] = Unit
  IsDistinct (d ∷ ds) = (get key (key d) ds ≡ none) × IsDistinct ds

  pub get-delete_ne : (j k : ℕ) (ds : List A) → j ≢ k → get key j (delete key k ds) ≡ get key j ds
  unfolding get delete
  get-delete_ne j k [] h = refl
  get-delete_ne j k (d ∷ ds) h = ground (arith, get-delete_ne j k ds h)

  pub get-delete_self : (k : ℕ) (ds : List A) → IsDistinct ds → get key k (delete key k ds) ≡ none
  unfolding get delete
  get-delete_self k [] h = refl
  get-delete_self k (d ∷ ds) h = ground (arith, get-delete_self k ds h.1)

  pub put-IsDistinct : (d : A) (ds : List A) → IsDistinct ds → IsDistinct (put key d ds)
  unfolding get put
  put-IsDistinct d [] h = ground arith
  put-IsDistinct d (e ∷ ds) h = ground (arith, put-IsDistinct d ds h.1, get-put (key e) d ds)

  get-delete-none :
      (j k : ℕ) (ds : List A) → get key j ds ≡ none → get key j (delete key k ds) ≡ none
  unfolding get delete
  get-delete-none j k [] h = refl
  get-delete-none j k (d ∷ ds) h = ground (arith, get-delete-none j k ds)

  pub delete-IsDistinct : (k : ℕ) (ds : List A) → IsDistinct ds → IsDistinct (delete key k ds)
  unfolding delete
  delete-IsDistinct k [] h = tt
  delete-IsDistinct k (d ∷ ds) h =
      ground (arith, get-delete-none (key d) k ds, delete-IsDistinct k ds h.1)

  pub get-delete :
      (j k : ℕ) (ds : List A)
      → IsDistinct ds
      → get key j (delete key k ds) ≡ (if k == j then none else get key j ds)
  get-delete j k ds h = elim (Bool-cases (k == j)) [
    | inl e ↦ rw e (rw (==→eq k j e) (get-delete_self j ds h))
    | inr e ↦ rw e (get-delete_ne j k ds (λ q. absurd (ground arith)))
  ]

  pub get-filter-none :
      (p : A → Bool) (k : ℕ) (ds : List A) → get key k ds ≡ none → get key k (filter p ds) ≡ none
  unfolding get
  get-filter-none p k [] h = refl
  get-filter-none p k (d ∷ ds) h = ground (arith, get-filter-none p k ds)

  filter-IsDistinct : (p : A → Bool) (ds : List A) → IsDistinct ds → IsDistinct (filter p ds)
  filter-IsDistinct p [] h = tt
  filter-IsDistinct p (d ∷ ds) h =
      ground (arith, get-filter-none p (key d) ds, filter-IsDistinct p ds h.1)

  pub prune-IsDistinct :
      (field : A → ℕ) (before : ℕ) (ds : List A)
      → IsDistinct ds
      → IsDistinct (prune field before ds)
  unfolding prune
  prune-IsDistinct field before ds h = filter-IsDistinct (λ d. not (ltb (field d) before)) ds h

  module _ (P : A → Type 0) where
    pub All-put : (d : A) (ds : List A) → All P ds → P d → All P (put key d ds)
    unfolding put
    All-put d [] h p = (p, tt)
    All-put d (e ∷ ds) h p = ground (arith, All-put d ds h.1 p)

    pub All-filter : (p : A → Bool) (ds : List A) → All P ds → All P (filter p ds)
    All-filter p [] h = tt
    All-filter p (d ∷ ds) h = ground (arith, All-filter p ds h.1)

    pub get-All : (k : ℕ) (d : A) (ds : List A) → All P ds → get key k ds ≡ some d → P d
    unfolding get
    get-All k d [] h e = absurd (cc)
    get-All k d (x ∷ ds) h e = ground (arith, get-All k d ds h.1)
