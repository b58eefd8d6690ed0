-- ===== src/Tests/Snapshots.antt =====
-- The five samples of test/cppmetrics/core/test_snapshot.cpp, and the theorems of `Snapshot` there.
use mathlib.Core.List.{Perm, Mem}
use cppmetrics.Prelude.{
  ◌+ℤ◌, ◌-ℤ◌, ◌*ℤ◌, ◌≡◌, refl, List, [], ◌∷◌, some, none, ℤ, pos, ◌≤ℤ◌, All, arith,
}
use cppmetrics.Outcome.{returns, undefined, Returns}
use cppmetrics.Double.{◌≼◌}
use cppmetrics.Double.Milli.{Milli, milli, Milli-IsIeee, root_from}
use cppmetrics.Snapshot.{
  snapshot, get_value, interpolate, get_median, get_75th_percentile, get_95th_percentile, get_min,
  get_max, get_mean, get_std_dev, sum_values, sum_squares, add_int64,
}
use cppmetrics.Snapshot.Order.{IsSorted, snapshot-IsSorted_perm, get_min-get_max-extremes}
use cppmetrics.Snapshot.Quantile.{get_value-Between, get_value_nan}
use cppmetrics.Snapshot.Moments.{get_mean-bounds}

abbrev five : List ℤ
five = pos 5 ∷ pos 1 ∷ pos 2 ∷ pos 3 ∷ pos 4 ∷ []

five_quantiles :
    (get_median (snapshot five) ≡ returns (some (pos 3000)))
    × (get_75th_percentile (snapshot five) ≡ returns (some (pos 4500)))
    × (get_95th_percentile (snapshot five) ≡ returns (some (pos 5000)))
unfolding snapshot get_value interpolate get_median get_75th_percentile get_95th_percentile ◌+ℤ◌
    ◌-ℤ◌ ◌*ℤ◌
five_quantiles = (refl, refl, refl)

five_moments :
    (get_min Milli (snapshot five) ≡ returns (pos 1))
    × (get_max Milli (snapshot five) ≡ returns (pos 5))
    × (get_mean (snapshot five) ≡ returns (some (pos 3000)))
    × (get_std_dev (snapshot five) ≡ returns (some (pos 1581)))
unfolding snapshot get_min get_max get_mean get_std_dev sum_values sum_squares add_int64 root_from
    ◌+ℤ◌ ◌-ℤ◌ ◌*ℤ◌
five_moments = (refl, refl, refl, refl)

snapshot-IsSorted_perm_example : IsSorted (snapshot five).values × Perm (snapshot five).values five
snapshot-IsSorted_perm_example = snapshot-IsSorted_perm five

get_value-Between_example :
    Returns
      (λ v. (milli.of_int64 (pos 1) ≼ v) × (v ≼ milli.of_int64 (pos 5)))
      (get_value (snapshot five) (some (pos 500)))
unfolding ◌*ℤ◌
get_value-Between_example =
    get_value-Between Milli-IsIeee five (pos 1) (pos 5) (some (pos 500)) (λ e. cc) (omega arith)
      (omega arith) (omega arith) (omega arith) refl refl

get_value_nan_example : get_value {W = Milli} (snapshot five) none ≡ undefined
unfolding snapshot
get_value_nan_example = get_value_nan Milli-IsIeee (snapshot five) none refl (λ e. cc)

get_min-get_max-extremes_example :
    (lo : ℤ) × (hi : ℤ) × (get_min Milli (snapshot five) ≡ returns lo)
    × (get_max Milli (snapshot five) ≡ returns hi)
    × (Mem lo five)
    × (Mem hi five)
    × All (λ v. (lo ≤ℤ v) × (v ≤ℤ hi)) five
get_min-get_max-extremes_example =
    get_min-get_max-extremes Milli-IsIeee five (λ e. cc) (omega arith)

get_mean-bounds_example :
    (v : Milli) × (get_mean (snapshot five) ≡ returns v)
    × (milli.of_int64 (pos 1) ≼ v)
    × (v ≼ milli.of_int64 (pos 5))
get_mean-bounds_example =
    get_mean-bounds Milli-IsIeee five (pos 1) (pos 5) 5 (λ e. cc) (omega arith) (omega arith)
      (omega arith)
