-- ===== src/Store/Examples.antt =====
-- A collection of two documents.
use personal_cloud.Prelude.{ℕ, ◌≡◌, refl, List, [], ◌∷◌}
use personal_cloud.Store.{get, put, prune}
use personal_cloud.Store.Laws.{IsDistinct}
use personal_cloud.Store.Refinement.{
  Write, store, erase, erase_before, write_all, map_write_all, seen, write_all-refines,
}

abbrev first : ℕ × ℕ → ℕ
first (k, v) = k

abbrev second : ℕ × ℕ → ℕ
second (k, v) = v

abbrev two : List (ℕ × ℕ)
two = (1, 5) ∷ (2, 6) ∷ []

put_in_place : put first (1, 9) two ≡ (1, 9) ∷ (2, 6) ∷ []
unfolding put
put_in_place = refl

prune_old : prune first 2 two ≡ (2, 6) ∷ []
unfolding prune
prune_old = refl

abbrev writes : List (Write (ℕ × ℕ))
writes = store (3, 7) ∷ erase 1 ∷ store (2, 4) ∷ erase_before 5 ∷ []

two-IsDistinct : IsDistinct first two
unfolding get
two-IsDistinct = (refl, (refl, tt))

write_all-refines_example :
    (seen first second (write_all first second two writes)
      ≡ map_write_all first second (seen first second two) writes)
    × IsDistinct first (write_all first second two writes)
write_all-refines_example = write_all-refines first second two writes two-IsDistinct
