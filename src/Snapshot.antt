-- ===== src/Snapshot.antt =====
-- src/cppmetrics/core/snapshot.h and snapshot.cpp: the statistics of a sorted copy of a sample.
-- An access of `values_` out of range is undefined.
pub mod Order
pub mod Quantile
pub mod Moments
pub mod Statistics
use cppmetrics.Prelude.{
  ℕ, suc, ◌+◌, ◌-◌, ◌*◌, ◌≡◌, Bool, ◌||◌, ◌&&◌, List, [], ◌∷◌, Option, none, some, ℤ, pos, negsuc,
  ◌+ℤ◌, leb_ℤ, leb, length, get_elem?, is_empty, wrap_uint64, uint64_mod, if◌then◌else◌, String,
  ◌^◌,
}
use cppmetrics.Outcome.{Outcome, returns, throws, undefined, ◌>>=◌, defined, invalid_argument}
use cppmetrics.Double.{Double, nought, one}

-- `std::sort` on 64-bit integers.
unfoldable pub insert_sorted : ℤ → List ℤ → List ℤ
insert_sorted x [] = x ∷ []
insert_sorted x (y ∷ ys) = if leb_ℤ x y then x ∷ y ∷ ys else y ∷ insert_sorted x ys

unfoldable pub sort : List ℤ → List ℤ
unfolding insert_sorted
sort [] = []
sort (x ∷ xs) = insert_sorted x (sort xs)

pub record Snapshot : Type 0 where
  pub values : List ℤ

-- The constructor.
unfoldable pub snapshot : List ℤ → Snapshot
unfolding sort
snapshot values = record { values = sort values }

abbrev pub size : Snapshot → ℕ
size s = length s.values

abbrev pub get_values : Snapshot → List ℤ
get_values s = s.values

abbrev pub front : List ℤ → Outcome ℤ
front [] = undefined
front (x ∷ xs) = returns x

abbrev pub back : List ℤ → Outcome ℤ
back [] = undefined
back (x ∷ []) = returns x
back (x ∷ y ∷ ys) = back (y ∷ ys)

-- `mean += d` on `int64_t`: signed overflow is undefined.
unfoldable pub add_int64 : ℤ → ℤ → Outcome ℤ
add_int64 a b =
    if leb_ℤ (negsuc (2 ^ 63 - 1)) (a +ℤ b) && leb_ℤ (a +ℤ b) (pos (2 ^ 63 - 1))
    then returns (a +ℤ b)
    else undefined

-- The loop of `getMean`.
unfoldable pub sum_values : ℤ → List ℤ → Outcome ℤ
sum_values mean [] = returns mean
sum_values mean (d ∷ ds) = add_int64 mean d >>= λ m. sum_values m ds

module _ {W : Type 0} ⦃d : Double W⦄ where
  open d use {
    add, sub, mul, div, lt, le, of_int64, of_uint64, decimal, to_size, to_int64, floor, sqrt,
  }

  -- The end of `getValue`, where the position lies between two samples.
  unfoldable pub interpolate : List ℤ → W → Outcome W
  interpolate values position = defined (to_size position) >>= λ pos_index.
      defined (get_elem? values (wrap_uint64 (pos_index + uint64_mod - 1))) >>= λ lower.
      defined (get_elem? values pos_index) >>= λ upper. returns (
        add (of_int64 lower)
          (mul (sub position (floor position)) (sub (of_int64 upper) (of_int64 lower))))

  unfoldable pub get_value : Snapshot → W → Outcome W
  get_value s quantile =
      if lt quantile nought || lt one quantile
      then throws (invalid_argument "quantile is not in [0..1]")
      else if is_empty s.values
      then returns nought
      else let position = mul quantile (of_uint64 (wrap_uint64 (size s + 1))) in
        if lt position one
        then (front s.values >>= λ v. returns (of_int64 v))
        else if le (of_uint64 (size s)) position
        then (back s.values >>= λ v. returns (of_int64 v))
        else interpolate s.values position

  unfoldable pub get_median : Snapshot → Outcome W
  get_median s = get_value s (decimal 5 1)

  unfoldable pub get_75th_percentile : Snapshot → Outcome W
  get_75th_percentile s = get_value s (decimal 75 2)

  unfoldable pub get_95th_percentile : Snapshot → Outcome W
  get_95th_percentile s = get_value s (decimal 95 2)

  unfoldable pub get_98th_percentile : Snapshot → Outcome W
  get_98th_percentile s = get_value s (decimal 98 2)

  unfoldable pub get_99th_percentile : Snapshot → Outcome W
  get_99th_percentile s = get_value s (decimal 99 2)

  unfoldable pub get_999th_percentile : Snapshot → Outcome W
  get_999th_percentile s = get_value s (decimal 999 3)

  unfoldable pub get_mean : Snapshot → Outcome W
  get_mean s =
      if is_empty s.values
      then returns nought
      else sum_values (pos 0) s.values >>= λ mean.
          returns (div (of_int64 mean) (of_uint64 (size s)))

  -- The loop of `getStdDev`.
  unfoldable pub sum_squares : W → W → List ℤ → W
  sum_squares mean_value sum [] = sum
  sum_squares mean_value sum (value ∷ values) =
      let diff = sub (of_int64 value) mean_value in
      sum_squares mean_value (add sum (mul diff diff)) values

  unfoldable pub get_std_dev : Snapshot → Outcome W
  get_std_dev s =
      if leb (size s) 1
      then returns nought
      else get_mean s >>= λ mean_value.
          returns (sqrt (div (sum_squares mean_value nought s.values) (of_uint64 (size s - 1))))

-- `empty() ? 0.0 : front()` has type `double`, so the sample is converted to it and back.
module _ (W : Type 0) ⦃d : Double W⦄ where
  open d use {of_int64, to_int64}

  unfoldable pub get_min : Snapshot → Outcome ℤ
  get_min s =
      if is_empty s.values
      then defined (to_int64 nought)
      else front s.values >>= λ v. defined (to_int64 (of_int64 v))

  unfoldable pub get_max : Snapshot → Outcome ℤ
  get_max s =
      if is_empty s.values
      then defined (to_int64 nought)
      else back s.values >>= λ v. defined (to_int64 (of_int64 v))
