-- ===== src/Random.antt =====
-- Boost.Random, which the samples draw from: a generator with its seed, a uniform distribution on the
-- integers of a range, and a uniform distribution on the numbers from 0 up to 1.
use cppmetrics.Prelude.{
  ℕ, ◌+◌, ◌%◌, ◌≡◌, false, Option, none, some, ℤ, pos, ◌≤ℤ◌, leb_ℤ, arith, if◌then◌else◌,
}

-- `none`: the bounds are out of order, which the distribution forbids.
pub record Rng (R W : Type 0) : Type 0 where
  pub seed : ℕ → R
  pub uniform_int : R → ℤ → ℤ → Option (ℤ × R)
  pub uniform_real : R → W × R

-- What Boost documents of `uniform_int_distribution`.
pub record IsUniform {R W : Type 0} (g : Rng R W) : Type 0 where
  pub uniform_int_range :
      (r : R) (lo hi : ℤ)
      → lo ≤ℤ hi
      → (v : ℤ) × (r' : R) × (g.uniform_int r lo hi ≡ some (v, r')) × (lo ≤ℤ v) × (v ≤ℤ hi)
  pub uniform_int_order : (r : R) (lo hi : ℤ) → leb_ℤ lo hi ≡ false → g.uniform_int r lo hi ≡ none

-- A generator that counts up, to run the code on.
abbrev clamp : ℤ → ℤ → ℤ → ℤ
clamp lo hi v = if leb_ℤ v lo then lo else if leb_ℤ v hi then v else hi

abbrev counting_int : ℕ → ℤ → ℤ → Option (ℤ × ℕ)
counting_int r lo hi = if leb_ℤ lo hi then some (clamp lo hi (pos (r % 7)), r + 1) else none

abbrev pub counting : {W : Type 0} → (ℕ → W) → Rng ℕ W
counting real = record {
  seed = λ s. s;
  uniform_int = counting_int;
  uniform_real = λ r. (real r, r + 1);
}

counting_range :
    (r : ℕ) (lo hi : ℤ)
    → lo ≤ℤ hi
    → (v : ℤ) × (r' : ℕ) × (counting_int r lo hi ≡ some (v, r')) × (lo ≤ℤ v) × (v ≤ℤ hi)
counting_range r lo hi h =
    (clamp lo hi (pos (r % 7)), r + 1, ground arith, ground arith, ground arith)

pub counting-IsUniform : {W : Type 0} (real : ℕ → W) → IsUniform (counting real)
counting-IsUniform real = record {
  uniform_int_range = counting_range;
  uniform_int_order = ground arith;
}
