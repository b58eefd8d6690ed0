-- ===== src/Snapshot/Moments.antt =====
-- `getMean` and `getStdDev`.
use cppmetrics.Prelude.{
  ℕ, ◌+◌, ◌-◌, ◌*◌, ◌^◌, ◌≤◌, ◌<◌, ◌≡◌, refl, ◌≢◌, true, List, [], ◌∷◌, ℤ, pos, pos_part, neg_part,
  ◌+ℤ◌, ◌≤ℤ◌, leb, length, All, arith, Bool-cases, inl, inr, +ℤ_parts, times_parts,
}
use cppmetrics.Outcome.{returns, Returns}
use cppmetrics.Double.{Double, IsIeee, Fits, ◌≼◌, nought}
use cppmetrics.Snapshot.{
  Snapshot, snapshot, sort, add_int64, sum_values, sum_squares, get_mean, get_std_dev,
}
use cppmetrics.Snapshot.Order.{All-sort, length-sort, sort-ne-nil}

-- The size of a value.
abbrev pub magnitude : ℤ → ℕ
magnitude v = pos_part v + neg_part v

-- Between two bounds, and of size at most `b`.
abbrev pub Within : ℕ → ℤ → ℤ → ℤ → Type 0
Within b lo hi v = (magnitude v ≤ b) × (lo ≤ℤ v) × (v ≤ℤ hi)

-- What the loop of `getMean` adds to `acc`.
record IsSum (acc lo hi : ℤ) (n b : ℕ) (m : ℤ) : Type 0 where
  above : pos_part acc + n * pos_part lo + neg_part m ≤ pos_part m + neg_part acc + n * neg_part lo
  below : pos_part m + neg_part acc + n * neg_part hi ≤ pos_part acc + n * pos_part hi + neg_part m
  small : magnitude m ≤ magnitude acc + n * b

add_int64_fits : (a b : ℤ) → magnitude a + magnitude b ≤ 2 ^ 53 → add_int64 a b ≡ returns (a +ℤ b)
unfolding add_int64
add_int64_fits a b h = ground (arith, +ℤ_parts a b)

magnitude-+ℤ : (a b : ℤ) → magnitude (a +ℤ b) ≤ magnitude a + magnitude b
unfolding ◌+ℤ◌
magnitude-+ℤ a b = ground arith

sum_values-IsSum :
    (acc lo hi : ℤ) (b : ℕ) (ds : List ℤ)
    → All (Within b lo hi) ds
    → magnitude acc + length ds * b ≤ 2 ^ 53
    → (m : ℤ) × (sum_values acc ds ≡ returns m) × IsSum acc lo hi (length ds) b m
unfolding sum_values
sum_values-IsSum acc lo hi b [] w small =
    (acc, refl, record { above = omega arith; below = omega arith; small = omega arith })
sum_values-IsSum acc lo hi b (x ∷ ds) ((size_x, ge, le), w) small =
    let grows = magnitude-+ℤ acc x in
    let (m, e, sum) = sum_values-IsSum (acc +ℤ x) lo hi b ds w (omega arith) in
    (
      m,
      rw (add_int64_fits acc x (omega arith)) e,
      record {
        above = omega (arith, sum.above, +ℤ_parts acc x);
        below = omega (arith, sum.below, +ℤ_parts acc x);
        small = omega (arith, sum.small);
      },
    )

module _ {W : Type 0} ⦃d : Double W⦄ (laws : IsIeee W) where
  open d use {of_int64, of_uint64}

  sorted_mean :
      (ys : List ℤ) (s : Snapshot) (lo hi : ℤ) (b : ℕ)
      → s.values ≡ ys
      → ys ≢ []
      → All (Within b lo hi) ys
      → length ys * b ≤ 2 ^ 53
      → length ys ≤ 2 ^ 53
      → (v : W) × (get_mean s ≡ returns v) × (of_int64 lo ≼ v) × (v ≼ of_int64 hi)
  unfolding get_mean
  sorted_mean [] s lo hi b e n w small few = absurd (n refl)
  sorted_mean (y ∷ ys) s lo hi b e n w small few =
      let count = length (y ∷ ys) in
      let (m, em, sum) = sum_values-IsSum (pos 0) lo hi b (y ∷ ys) w (omega arith) in
      let fits : Fits 53 m = record {
        above = omega (arith, sum.small);
        below = omega (arith, sum.small);
      } in
      (
        d.div (of_int64 m) (of_uint64 count),
        rw (e, get_mean) (rw em),
        laws.div_above m lo count fits (omega arith) few
            (omega (arith, sum.above, times_parts count lo)),
        laws.div_below m hi count fits (omega arith) few
            (omega (arith, sum.below, times_parts count hi)),
      )

  -- The mean of samples between `lo` and `hi`, whose sum cannot leave 53 bits, is returned and lies
  -- between `lo` and `hi`: the sum of 64-bit integers does not overflow.
  pub get_mean-bounds :
      (xs : List ℤ) (lo hi : ℤ) (b : ℕ)
      → xs ≢ []
      → All (Within b lo hi) xs
      → length xs * b ≤ 2 ^ 53
      → length xs ≤ 2 ^ 53
      → (v : W) × (get_mean (snapshot xs) ≡ returns v) × (of_int64 lo ≼ v) × (v ≼ of_int64 hi)
  unfolding snapshot
  get_mean-bounds xs lo hi b n w small few =
      let same = length-sort xs in
      sorted_mean (sort xs) (snapshot xs) lo hi b refl (sort-ne-nil xs n)
        (All-sort (Within b lo hi) xs w) (rw same small) (rw same few)

  sum_squares_nonneg :
      (mean sum : W) (ys : List ℤ)
      → laws.is_finite mean ≡ true
      → nought ≼ sum
      → nought ≼ sum_squares mean sum ys
  unfolding sum_squares
  sum_squares_nonneg mean sum [] f h = h
  sum_squares_nonneg mean sum (y ∷ ys) f h =
      let diff = d.sub (of_int64 y) mean in
      let square_ge =
        laws.square_nonneg diff (laws.sub-reflexive _ mean (laws.finite-of_int64 y) f) in
      sum_squares_nonneg mean (d.add sum (d.mul diff diff)) ys f
        (laws.add_nonneg sum (d.mul diff diff) h square_ge)

  -- Under the same bounds `getStdDev` returns a number that is not negative, so the square root is
  -- never taken of a negative number and the divisor `size - 1` is never zero.
  pub get_std_dev_nonneg :
      (xs : List ℤ) (lo hi : ℤ) (b : ℕ)
      → All (Within b lo hi) xs
      → length xs * b ≤ 2 ^ 53
      → length xs ≤ 2 ^ 53
      → Returns {A = W} (λ v. nought ≼ v) (get_std_dev (snapshot xs))
  unfolding get_std_dev snapshot
  get_std_dev_nonneg xs lo hi b w small few = elim (Bool-cases (leb (length (sort xs)) 1)) [
    | inl short ↦ rw short (laws.refl_of_finite nought (laws.finite-of_int64 (pos 0)))
    | inr long ↦
        let many : 1 < length (sort xs) = ground arith in
        let (v, e, ge, le) = get_mean-bounds xs lo hi b (not_nil xs many) w small few in
        let finite =
          laws.finite_between _ v _ (laws.finite-of_int64 lo) (laws.finite-of_int64 hi) ge le in
        let zero_ge = laws.refl_of_finite nought (laws.finite-of_int64 (pos 0)) in
        rw long (
          rw e (
            laws.sqrt_nonneg _ (
              laws.div_nonneg _ (length (sort xs) - 1)
                (sum_squares_nonneg v nought (sort xs) finite zero_ge) (omega arith))))
  ]
    where
      not_nil : (zs : List ℤ) → 1 < length (sort zs) → zs ≢ []
      not_nil [] h e = absurd (omega (arith, length-sort []))
      not_nil (z ∷ zs) h e = cc
