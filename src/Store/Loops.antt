-- ===== src/Store/Loops.antt =====
-- Loops that delete or write each document of a collection that meets a test, as the handlers of
-- apps/control-cloud/src write them: over a list that is read before.
use personal_cloud.Prelude.{
  ℕ, ◌≡◌, refl, sym, subst, ap, Option, some, any, ◌∙◌, Bool, true, false, not, none, List, [], ◌∷◌,
  arith, ◌==◌, All, filter, map, if◌then◌else◌, Bool-cases, inl, inr,
}
use personal_cloud.Store.{get, put, delete}
use personal_cloud.Store.Laws.{IsDistinct}

self_test : (k : ℕ) → (k == k) ≡ true
self_test k = ground arith

module _ {A : Type 0} (key : A → ℕ) where
  unfoldable pub delete_each : List A → List A → List A
  delete_each [] l = l
  delete_each (x ∷ xs) l = delete_each xs (delete key (key x) l)

  unfoldable pub put_each : (A → A) → List A → List A → List A
  put_each f [] l = l
  put_each f (x ∷ xs) l = put_each f xs (put key (f x) l)

  -- None of the documents has the key.
  abbrev Others : ℕ → List A → Type 0
  Others k xs = All (λ x. (k == key x) ≡ false) xs

  filter-Others : (t : A → Bool) (k : ℕ) (l : List A) → get key k l ≡ none → Others k (filter t l)
  unfolding get
  filter-Others t k [] h = tt
  filter-Others t k (d ∷ l) h = ground (arith, filter-Others t k l)

  delete_each-cons :
      (d : A) (gone l : List A)
      → Others (key d) gone
      → delete_each gone (d ∷ l) ≡ d ∷ delete_each gone l
  unfolding delete_each delete
  delete_each-cons d [] l h = refl
  delete_each-cons d (x ∷ gone) l h = rw h.0 (delete_each-cons d gone (delete key (key x) l) h.1)

  delete-head : (d : A) (l : List A) → delete key (key d) (d ∷ l) ≡ l
  unfolding delete
  delete-head d l = rw (self_test (key d))

  put-head : (e d : A) (l : List A) → key e ≡ key d → put key e (d ∷ l) ≡ e ∷ l
  unfolding put
  put-head e d l h = ground (arith, h)

  pub delete_each-filter :
      (t : A → Bool) (l : List A)
      → IsDistinct key l
      → delete_each (filter t l) l ≡ filter (λ d. not (t d)) l
  unfolding delete_each delete
  delete_each-filter t [] h = refl
  delete_each-filter t (d ∷ l) h = elim (Bool-cases (t d)) [
    | inl gone ↦
        rw gone (ap (delete_each (filter t l)) (delete-head d l) ∙ delete_each-filter t l h.1)
    | inr kept ↦ rw kept (
        delete_each-cons d (filter t l) l (filter-Others t (key d) l h.0)
        ∙ ap (λ rest. d ∷ rest) (delete_each-filter t l h.1))
  ]

  module _ (f : A → A) (keeps : (d : A) → key (f d) ≡ key d) where
    put_each-cons :
        (d : A) (changed l : List A)
        → Others (key d) changed
        → put_each f changed (d ∷ l) ≡ d ∷ put_each f changed l
    unfolding put_each put
    put_each-cons d [] l h = refl
    put_each-cons d (x ∷ changed) l h =
        rw (keeps x, h.0) (put_each-cons d changed (put key (f x) l) h.1)

    pub put_each-filter :
        (t : A → Bool) (l : List A)
        → IsDistinct key l
        → put_each f (filter t l) l ≡ map (λ d. if t d then f d else d) l
    unfolding put_each put
    put_each-filter t [] h = refl
    put_each-filter t (d ∷ l) h = elim (Bool-cases (t d)) [
      | inl changed ↦ rw changed (
          ap (put_each f (filter t l)) (put-head (f d) d l (keeps d))
          ∙ put_each-cons (f d) (filter t l) l
              (subst (λ k. Others k (filter t l)) (sym (keeps d)) (filter-Others t (key d) l h.0))
          ∙ ap (λ rest. f d ∷ rest) (put_each-filter t l h.1))
      | inr kept ↦ rw kept (
          put_each-cons d (filter t l) l (filter-Others t (key d) l h.0)
          ∙ ap (λ rest. d ∷ rest) (put_each-filter t l h.1))
    ]

-- Documents that are changed where they stand.
module _ {A : Type 0} (key : A → ℕ) (f : A → A) (keeps : (d : A) → key (f d) ≡ key d) where
  abbrev pub changed_by : Option A → Option A
  changed_by none = none
  changed_by (some d) = some (f d)

  pub get-map : (k : ℕ) (l : List A) → get key k (map f l) ≡ changed_by (get key k l)
  unfolding get
  get-map k [] = refl
  get-map k (d ∷ l) = ground (arith, keeps d, get-map k l)

  pub map-IsDistinct : (l : List A) → IsDistinct key l → IsDistinct key (map f l)
  map-IsDistinct [] h = tt
  map-IsDistinct (d ∷ l) h = (
    get-map (key (f d)) l ∙ ap changed_by (ap (λ k. get key k l) (keeps d) ∙ h.0),
    map-IsDistinct l h.1,
  )

pub get-any :
    {A : Type 0} (key : A → ℕ) (t : A → Bool) (k : ℕ) (l : List A) (d : A)
    → any t l ≡ false
    → get key k l ≡ some d
    → t d ≡ false
unfolding get
get-any key t k [] d h e = absurd (cc)
get-any key t k (x ∷ l) d h e = ground (arith, get-any key t k l d)
