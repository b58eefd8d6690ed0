-- ===== src/ExpDecaySample/Priorities.antt =====
-- The map of exp_decay_sample.cpp in the order of its priorities, and single updates of it.
use cppmetrics.Prelude.{
  ℕ, zero, suc, ◌+◌, ◌-◌, ◌<◌, ◌≡◌, refl, ◌⊎◌, inl, inr, false, List, [], ◌∷◌, some, ℤ, length,
  drop, All, arith, Bool-cases,
}
use cppmetrics.Outcome.{Outcome, returns, ◌>>=◌}
use cppmetrics.Double.{Double, IsIeee, ◌≺◌}
use cppmetrics.ExpDecaySample.{PriorityMap, assign, insert, evict, store}

module _ {W : Type 0} ⦃d : Double W⦄ where
  -- In ascending order of the keys, with no key twice.
  abbrev pub IsOrdered : PriorityMap W → Type 0
  IsOrdered [] = Unit
  IsOrdered ((k, v) ∷ m) = All (λ kv. k ≺ kv.0) m × IsOrdered m

  -- A key that is not in the map.
  abbrev pub IsNew : W → PriorityMap W → Type 0
  IsNew p m = All (λ kv. (p ≺ kv.0) ⊎ (kv.0 ≺ p)) m

  -- Every value with its priority, in a map of no bounded size.
  abbrev pub assign_all : List (W × ℤ) → PriorityMap W → PriorityMap W
  assign_all [] m = m
  assign_all ((p, v) ∷ xs) m = assign_all xs (assign p v m)

  -- No priority comes twice.
  abbrev pub AllNew : List (W × ℤ) → PriorityMap W → Type 0
  AllNew [] m = Unit
  AllNew ((p, v) ∷ xs) m = IsNew p m × AllNew xs (assign p v m)

  -- The `size` elements of the greatest keys.
  abbrev pub greatest : ℕ → PriorityMap W → PriorityMap W
  greatest size m = drop (length m - size) m

  -- A reservoir through a history of values with their priorities, `n` of them already counted.
  unfoldable pub store_all : ℕ → ℕ → List (W × ℤ) → PriorityMap W → Outcome (PriorityMap W)
  unfolding store
  store_all size n [] m = returns m
  store_all size n ((p, v) ∷ xs) m = store size (n + 1) p v m >>= store_all size (n + 1) xs

  module _ (laws : IsIeee W) where
    lt_asym : (x y : W) → x ≺ y → d.lt y x ≡ false
    lt_asym x y h = elim (Bool-cases (d.lt y x)) [
      | inr e ↦ e
      | inl e ↦ let contradiction = laws.not_le_of_lt x y h in let le = laws.le_of_lt y x e in cc
    ]

    lt_trans : (x y z : W) → x ≺ y → y ≺ z → x ≺ z
    lt_trans x y z h k = elim (Bool-cases (d.lt x z)) [
      | inl e ↦ e
      | inr e ↦
          let xy = laws.le_of_lt x y h in
          let yz = laws.le_of_lt y z k in
          let back =
            laws.le_of_not_lt x z (laws.refl_of_le x y xy).0 (laws.refl_of_le y z yz).1 e in
          let le = laws.le_trans y z x yz back in let contradiction = laws.not_le_of_lt x y h in cc
    ]

    All-below :
        (p k : W) (m : PriorityMap W) → p ≺ k → All (λ kv. k ≺ kv.0) m → All (λ kv. p ≺ kv.0) m
    All-below p k [] h a = tt
    All-below p k (kv ∷ m) h (b, bs) = (lt_trans p k kv.0 h b, All-below p k m h bs)

    All-assign :
        (k p : W) (v : ℤ) (m : PriorityMap W)
        → k ≺ p
        → All (λ kv. k ≺ kv.0) m
        → All (λ kv. k ≺ kv.0) (assign p v m)
    unfolding assign
    All-assign k p v [] h a = (h, tt)
    All-assign k p v ((j, w) ∷ m) h (b, bs) = ground (arith, All-assign k p v m h bs)

    pub assign-IsOrdered :
        (p : W) (v : ℤ) (m : PriorityMap W) → IsNew p m → IsOrdered m → IsOrdered (assign p v m)
    unfolding assign
    assign-IsOrdered p v [] n o = (tt, tt)
    assign-IsOrdered p v ((j, w) ∷ m) (inr after, n) (a, o) =
        rw after (All-assign j p v m after a, assign-IsOrdered p v m n o)
    assign-IsOrdered p v ((j, w) ∷ m) (inl before, n) (a, o) =
        rw (lt_asym p j before, before) ((before, All-below p j m before a), (a, o))

    pub length-assign_new :
        (p : W) (v : ℤ) (m : PriorityMap W) → IsNew p m → length (assign p v m) ≡ length m + 1
    unfolding assign
    length-assign_new p v [] n = omega arith
    length-assign_new p v ((j, w) ∷ m) (inr after, n) =
        rw after (omega (arith, length-assign_new p v m n))
    length-assign_new p v ((j, w) ∷ m) (inl before, n) =
        rw (lt_asym p j before, before) (omega arith)

    insert_new :
        (p : W) (v : ℤ) (m : PriorityMap W) → IsNew p m → insert p v m ≡ some (assign p v m)
    unfolding insert assign
    insert_new p v [] n = refl
    insert_new p v ((j, w) ∷ m) (inr after, n) = rw (after, insert_new p v m n)
    insert_new p v ((j, w) ∷ m) (inl before, n) = rw (lt_asym p j before, before)

    -- A priority below all that are kept changes nothing.
    evict_least :
        (p : W) (v : ℤ) (n : ℕ) (m : PriorityMap W)
        → n < length m
        → All (λ kv. p ≺ kv.0) m
        → evict p v (drop n m) ≡ returns (drop n m)
    unfolding evict
    evict_least p v n [] h a = elim h [ ]
    evict_least p v zero ((j, w) ∷ m) h (b, bs) = rw (lt_asym p j b)
    evict_least p v (suc n) ((j, w) ∷ m) h (b, bs) = evict_least p v n m (omega arith) bs

    pub evict-drop :
        (p : W) (v : ℤ) (n : ℕ) (m : PriorityMap W)
        → n < length m
        → IsNew p m
        → IsOrdered m
        → evict p v (drop n m) ≡ returns (drop (suc n) (assign p v m))
    unfolding evict assign
    evict-drop p v n [] h f o = elim h [ ]
    evict-drop p v zero ((j, w) ∷ m) h (inr after, f) o =
        rw (after, insert_new p v ((j, w) ∷ m) (inr after, f)) (rw (after, assign))
    evict-drop p v zero ((j, w) ∷ m) h (inl before, f) o = rw (lt_asym p j before, before)
    evict-drop p v (suc n) ((j, w) ∷ m) h (inr after, f) (a, o) =
        rw after (evict-drop p v n m (omega arith) f o)
    evict-drop p v (suc n) ((j, w) ∷ m) h (inl before, f) (a, o) =
        rw (lt_asym p j before, before)
          (evict_least p v n m (omega arith) (All-below p j m before a))
