-- ===== src/Table.antt =====
-- `std::map`, `std::set` and `boost::unordered_map` with string keys, where only look-ups, insertions,
-- removals and the number of elements are used: a set is a map to `Unit`.
use cppmetrics.Prelude.{
  suc, ◌≡◌, refl, Bool, true, false, List, [], ◌∷◌, Option, none, some, length, String,
  if◌then◌else◌, arith,
}
use text.Mathlib.Text.{◌==◌}
use text.Mathlib.TextEquality.{eq_iff}

abbrev pub Table : Type 0 → Type 0
Table V = List (String × V)

module _ {V : Type 0} where
  -- `find(key)`.
  unfoldable pub find : String → Table V → Option V
  find k [] = none
  find k ((j, v) ∷ t) = if k == j then some v else find k t

  -- `insert({key, value})`, with whether the key was new.
  unfoldable pub insert : String → V → Table V → Table V × Bool
  unfolding find
  insert k v t = elim (find k t) [ none ↦ ((k, v) ∷ t, true) | some _ ↦ (t, false) ]

  -- `erase(key)`.
  unfoldable pub erase : String → Table V → Table V
  erase k [] = []
  erase k ((j, v) ∷ t) = let rest = erase k t in if k == j then rest else (j, v) ∷ rest

  -- No key twice.
  abbrev pub IsKeyed : Table V → Type 0
  IsKeyed [] = Unit
  IsKeyed ((k, v) ∷ t) = (find k t ≡ none) × IsKeyed t

  pub find-erase :
      (k j : String) (t : Table V) → find j (erase k t) ≡ (if k == j then none else find j t)
  unfolding find erase
  find-erase k j [] = ground arith
  find-erase k j ((i, v) ∷ t) = ground (arith, find-erase k j t, eq_iff k i, eq_iff j i, eq_iff k j)

  pub find-cons :
      (k j : String) (v : V) (t : Table V)
      → find j ((k, v) ∷ t) ≡ (if k == j then some v else find j t)
  unfolding find
  find-cons k j v t = ground (arith, eq_iff j k, eq_iff k j)

  pub insert_new :
      (k : String) (v : V) (t : Table V) → find k t ≡ none → insert k v t ≡ ((k, v) ∷ t, true)
  unfolding insert
  insert_new k v t h = rw (insert, h)

  pub erase-none : (k : String) (t : Table V) → find k t ≡ none → erase k t ≡ t
  unfolding find erase
  erase-none k [] h = refl
  erase-none k ((j, v) ∷ t) h = ground (arith, erase-none k t)

  pub length-erase :
      (k : String) (v : V) (t : Table V)
      → IsKeyed t
      → find k t ≡ some v
      → length t ≡ suc (length (erase k t))
  unfolding find erase
  length-erase k v [] d h = ground arith
  length-erase k v ((j, w) ∷ t) (new, d) h =
      ground (arith, length-erase k v t d, erase-none k t, eq_iff k j)

  pub erase-IsKeyed : (k : String) (t : Table V) → IsKeyed t → IsKeyed (erase k t)
  unfolding erase
  erase-IsKeyed k [] d = tt
  erase-IsKeyed k ((j, w) ∷ t) (new, d) = ground (arith, erase-IsKeyed k t d, find-erase k j t)
