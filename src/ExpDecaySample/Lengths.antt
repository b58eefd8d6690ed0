-- ===== src/ExpDecaySample/Lengths.antt =====
-- The number of elements of the map of an `ExpDecaySample`.
use cppmetrics.Prelude.{
  ℕ, suc, ◌+◌, ◌≤◌, ◌<◌, ◌≡◌, refl, [], ◌∷◌, Option, none, some, ℤ, length, leb, arith, Bool-cases,
  inl, inr, Option-cases,
}
use cppmetrics.Outcome.{Returns, Returns-mono}
use cppmetrics.Double.{Double}
use cppmetrics.ExpDecaySample.{PriorityMap, assign, insert, evict, erase_first, store, scale_all}

module _ {W : Type 0} ⦃d : Double W⦄ where
  length-assign :
      (k : W) (v : ℤ) (m : PriorityMap W)
      → (length m ≤ length (assign k v m))
        × (length (assign k v m) ≤ length m + 1)
        × (0 < length (assign k v m))
  unfolding assign
  length-assign k v [] = omega arith
  length-assign k v ((j, w) ∷ m) = ground (arith, length-assign k v m)

  -- One element more, if the key was new.
  abbrev IsLonger : ℕ → Option (PriorityMap W) → Type 0
  IsLonger n none = Unit
  IsLonger n (some m) = length m ≡ n + 1

  insert-IsLonger : (k : W) (v : ℤ) (m : PriorityMap W) → IsLonger (length m) (insert k v m)
  unfolding insert
  insert-IsLonger k v [] = omega arith
  insert-IsLonger k v ((j, w) ∷ m) =
      let ih = insert-IsLonger k v m in
      elim (Bool-cases (d.lt j k)) [
        | inl after ↦ elim (Option-cases (insert k v m)) [
          | inl e ↦ rw (after, e) tt
          | inr (m', e) ↦
              let longer : length m' ≡ length m + 1 = rw e at ih in rw (after, e) (omega arith)
        ]
        | inr before ↦ elim (Bool-cases (d.lt k j)) [
          | inl new ↦ rw (before, new) (omega arith)
          | inr old ↦ rw (before, old) tt
        ]
      ]

  pub length-scale_all :
      (f : W) (old m : PriorityMap W)
      → (length (scale_all f old m) ≤ length m + length old)
        × (length m ≤ length (scale_all f old m))
        × (0 < length old → 0 < length (scale_all f old m))
  unfolding scale_all
  length-scale_all f [] m = omega arith
  length-scale_all f ((k, v) ∷ old) m =
      let grown = length-assign (d.mul k f) v m in
      let (le, ge, more) = length-scale_all f old (assign (d.mul k f) v m) in
      (omega arith, omega arith, λ h. omega arith)

  -- The new map has as many elements, or one more while the count is within the reservoir.
  pub record IsStored (reservoir_size count : ℕ) (m m' : PriorityMap W) : Type 0 where
    pub grows : length m ≤ length m'
    pub by_one : length m' ≤ length m + 1
    pub bounded : reservoir_size < count → length m' ≤ length m
    pub occupied : 0 < length m'

  length-erase_first :
      (m : PriorityMap W) (n : ℕ) → length m ≡ suc n + 1 → length (erase_first m) ≡ suc n
  length-erase_first [] n e = absurd (omega arith)
  length-erase_first (kv ∷ m) n e = omega arith

  evict-length :
      (k : W) (v : ℤ) (m : PriorityMap W)
      → 0 < length m
      → Returns (λ (m' : PriorityMap W). length m' ≡ length m) (evict k v m)
  unfolding evict
  evict-length k v [] h = elim h [ ]
  evict-length k v ((j, w) ∷ m) h =
      let longer = insert-IsLonger k v ((j, w) ∷ m) in
      elim (Bool-cases (d.lt j k)) [
        | inl greater ↦ elim (Option-cases (insert k v ((j, w) ∷ m))) [
          | inl e ↦ rw (greater, e) refl
          | inr (m', e) ↦ rw (greater, e) (length-erase_first m' (length m) (rw e at longer))
        ]
        | inr less ↦ rw less refl
      ]

  pub store-IsStored :
      (reservoir_size count : ℕ) (k : W) (v : ℤ) (m : PriorityMap W)
      → (reservoir_size < count → 0 < length m)
      → Returns (IsStored reservoir_size count m) (store reservoir_size count k v m)
  unfolding store
  store-IsStored r n k v m h = elim (Bool-cases (leb n r)) [
    | inl room ↦
        let (le, ge, more) = length-assign k v m in
        rw room (record {
          grows = le;
          by_one = ge;
          bounded = λ full. absurd (ground arith);
          occupied = more;
        })
    | inr full ↦
        let over : r < n = ground arith in
        rw full (
          Returns-mono (evict k v m)
            (λ m' same. record {
              grows = omega arith;
              by_one = omega arith;
              bounded = λ _. omega arith;
              occupied = omega (arith, h over);
            })
            (evict-length k v m (h over)))
  ]
