-- ===== src/ExpDecaySample/Greatest.antt =====
-- What `update` keeps in exp_decay_sample.cpp, between two rescalings.
use cppmetrics.Prelude.{
  ℕ, suc, ◌+◌, ◌-◌, ◌<◌, ◌≡◌, refl, sym, inl, inr, List, [], ◌∷◌, ℤ, length, drop, leb, arith,
  Bool-cases,
}
use cppmetrics.Outcome.{returns}
use cppmetrics.Double.{Double, IsIeee}
use cppmetrics.ExpDecaySample.{PriorityMap, assign, store}
use cppmetrics.ExpDecaySample.Priorities.{
  IsOrdered, IsNew, AllNew, assign_all, greatest, store_all, assign-IsOrdered, length-assign_new,
  evict-drop,
}

drop_nothing {ℓ} : {A : Type ℓ} (xs : List A) → drop 0 xs ≡ xs
drop_nothing [] = refl
drop_nothing (x ∷ xs) = refl

drop_zero {ℓ} : {A : Type ℓ} (n : ℕ) (xs : List A) → n ≡ 0 → drop n xs ≡ xs
drop_zero n xs e = rw e (drop_nothing xs)

module _ {W : Type 0} ⦃d : Double W⦄ (laws : IsIeee W) where
  store-greatest :
      (size : ℕ) (p : W) (v : ℤ) (m : PriorityMap W)
      → 0 < size
      → IsNew p m
      → IsOrdered m
      → store size (length m + 1) p v (greatest size m) ≡ returns (greatest size (assign p v m))
  unfolding store
  store-greatest size p v m some_room n o =
      let longer = length-assign_new laws p v m n in
      elim (Bool-cases (leb (length m + 1) size)) [
        | inl fits ↦ rw (
          fits,
          drop_zero (length m - size) m (grind arith),
          drop_zero (length (assign p v m) - size) (assign p v m) (grind arith),
        )
        | inr full ↦
            let next : length (assign p v m) - size ≡ suc (length m - size) = grind arith in
            rw (full, next) (evict-drop laws p v (length m - size) m (grind arith) n o)
      ]

  -- A reservoir with room for at least one value is, between two rescalings, a map of all values
  -- cut to the greatest priorities. If it holds the `size` last elements of an ordered map with as
  -- many elements as it has counted, and further values come whose priorities differ from all that
  -- came before, then it returns, and holds the `size` last elements of the map in which each of
  -- these values, too, is assigned to its priority.
  pub store_all-greatest :
      (size : ℕ) (xs : List (W × ℤ)) (m : PriorityMap W)
      → 0 < size
      → IsOrdered m
      → AllNew xs m
      → store_all size (length m) xs (greatest size m) ≡ returns (greatest size (assign_all xs m))
  unfolding store_all
  store_all-greatest size [] m some_room o new = refl
  store_all-greatest size ((p, v) ∷ xs) m some_room o (n, new) =
      rw (store-greatest size p v m some_room n o, sym (length-assign_new laws p v m n))
        (store_all-greatest size xs (assign p v m) some_room (assign-IsOrdered laws p v m n o) new)
