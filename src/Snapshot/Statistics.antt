-- ===== src/Snapshot/Statistics.antt =====
-- All statistics of a snapshot that a report prints.
use cppmetrics.Prelude.{
  ℕ, ◌-◌, ◌*◌, ◌^◌, ◌≤◌, ◌≡◌, refl, ◌≢◌, List, [], ◌∷◌, ℤ, pos, negsuc, ◌≤ℤ◌, length, All, All-mono,
  arith, some,
}
use cppmetrics.Outcome.{Outcome, returns, throws, undefined, unfinished, Returns, Returns-mono}
use cppmetrics.Double.{Double, IsIeee, Fits, nought}
use cppmetrics.Snapshot.{
  Snapshot, snapshot, sort, get_value, get_min, get_max, get_mean, get_std_dev, get_median,
  get_75th_percentile, get_95th_percentile, get_98th_percentile, get_99th_percentile,
  get_999th_percentile,
}
use cppmetrics.Snapshot.Order.{get_min-get_max-extremes}
use cppmetrics.Snapshot.Moments.{magnitude, Within, get_mean-bounds, get_std_dev_nonneg}
use cppmetrics.Snapshot.Quantile.{get_value-Between, get_value-empty}

-- A snapshot of samples so few and small that their sum cannot leave 53 bits.
pub record IsModest (s : Snapshot) : Type 0 where
  pub samples : List ℤ
  pub bound : ℕ
  pub made : s ≡ snapshot samples
  pub within : All (λ v. magnitude v ≤ bound) samples
  pub small : bound ≤ 2 ^ 52
  pub few : length samples ≤ 2 ^ 53
  pub total_small : length samples * bound ≤ 2 ^ 53

abbrev pub Ends {ℓ} : {A : Type ℓ} → Outcome A → Type 0
Ends o = Returns (λ a. Unit) o

pub Ends-returns {ℓ} : {A : Type ℓ} (o : Outcome A) → Ends o → (a : A) × (o ≡ returns a)
Ends-returns (returns a) h = (a, refl)
Ends-returns (throws e) h = absurd h
Ends-returns undefined h = absurd h
Ends-returns unfinished h = absurd h

-- All that a report asks of a snapshot.
pub record AllEnd (W : Type 0) ⦃d : Double W⦄ (s : Snapshot) : Type 0 where
  pub max_ends : Ends (get_max W s)
  pub mean_ends : Ends (get_mean {W = W} s)
  pub min_ends : Ends (get_min W s)
  pub std_dev_ends : Ends (get_std_dev {W = W} s)
  pub median_ends : Ends (get_median {W = W} s)
  pub p75_ends : Ends (get_75th_percentile {W = W} s)
  pub p95_ends : Ends (get_95th_percentile {W = W} s)
  pub p98_ends : Ends (get_98th_percentile {W = W} s)
  pub p99_ends : Ends (get_99th_percentile {W = W} s)
  pub p999_ends : Ends (get_999th_percentile {W = W} s)

returns-Ends {ℓ} : {A : Type ℓ} (o : Outcome A) (a : A) → o ≡ returns a → Ends o
returns-Ends o a e = rw e tt

spread :
    (b : ℕ) (xs : List ℤ)
    → All (λ v. magnitude v ≤ b) xs
    → All (Within b (negsuc (b - 1)) (pos b)) xs
spread b xs w =
    All-mono _ (Within b (negsuc (b - 1)) (pos b)) xs (λ v h. (h, omega arith, omega arith)) w

module _ {W : Type 0} ⦃d : Double W⦄ (laws : IsIeee W) where
  empty_ends : AllEnd W (snapshot [])
  unfolding snapshot sort get_max get_min get_mean get_std_dev get_median get_75th_percentile
      get_95th_percentile get_98th_percentile get_99th_percentile get_999th_percentile
  empty_ends =
      let quantile = λ (m k : ℕ) (h : m ≤ 10 ^ k).
        let (ge, le) = laws.decimal_within m k h in
        returns-Ends _ nought (get_value-empty laws (d.decimal m k) ge le) in
      let zero : d.to_int64 nought ≡ some (pos 0) =
        laws.to_int64-of_int64 (pos 0) (record { above = omega arith; below = omega arith }) in
      record {
        max_ends = rw zero tt;
        mean_ends = tt;
        min_ends = rw zero tt;
        std_dev_ends = tt;
        median_ends = quantile 5 1 (omega arith);
        p75_ends = quantile 75 2 (omega arith);
        p95_ends = quantile 95 2 (omega arith);
        p98_ends = quantile 98 2 (omega arith);
        p99_ends = quantile 99 2 (omega arith);
        p999_ends = quantile 999 3 (omega arith);
      }

  samples_end :
      (xs : List ℤ) (b : ℕ)
      → xs ≢ []
      → All (λ v. magnitude v ≤ b) xs
      → b ≤ 2 ^ 52
      → length xs ≤ 2 ^ 53
      → length xs * b ≤ 2 ^ 53
      → AllEnd W (snapshot xs)
  unfolding get_median get_75th_percentile get_95th_percentile get_98th_percentile
      get_99th_percentile get_999th_percentile
  samples_end xs b n w small few total =
      let apart = spread b xs w in
      let between =
        All-mono _ (λ v. (negsuc (b - 1) ≤ℤ v) × (v ≤ℤ pos b)) xs (λ v h. (h.1, h.2)) apart in
      let fits =
        All-mono _ (Fits 53) xs
          (λ v h. record { above = omega (arith, h); below = omega (arith, h) }) w in
      let (lo, hi, least, greatest, _, _, _) = get_min-get_max-extremes laws xs n fits in
      let (mean, returned, _, _) =
        get_mean-bounds laws xs (negsuc (b - 1)) (pos b) b n apart total few in
      let quantile = λ (m k : ℕ) (h : m ≤ 10 ^ k).
        let (ge, le) = laws.decimal_within m k h in
        Returns-mono (get_value (snapshot xs) (d.decimal m k)) (λ a z. tt)
          (get_value-Between laws xs (negsuc (b - 1)) (pos b) (d.decimal m k) n between
            (record { above = omega arith; below = omega arith })
            (record { above = omega arith; below = omega arith }) (omega arith) ge le) in
      record {
        max_ends = returns-Ends _ hi greatest;
        mean_ends = returns-Ends _ mean returned;
        min_ends = returns-Ends _ lo least;
        std_dev_ends =
            Returns-mono (get_std_dev (snapshot xs)) (λ a z. tt)
              (get_std_dev_nonneg laws xs (negsuc (b - 1)) (pos b) b apart total few);
        median_ends = quantile 5 1 (omega arith);
        p75_ends = quantile 75 2 (omega arith);
        p95_ends = quantile 95 2 (omega arith);
        p98_ends = quantile 98 2 (omega arith);
        p99_ends = quantile 99 2 (omega arith);
        p999_ends = quantile 999 3 (omega arith);
      }

  snapshot_ends :
      (xs : List ℤ) (b : ℕ)
      → All (λ v. magnitude v ≤ b) xs
      → b ≤ 2 ^ 52
      → length xs ≤ 2 ^ 53
      → length xs * b ≤ 2 ^ 53
      → AllEnd W (snapshot xs)
  snapshot_ends [] b w small few total = empty_ends
  snapshot_ends (x ∷ xs) b w small few total = samples_end (x ∷ xs) b (λ e. cc) w small few total

  -- Of such a snapshot, the empty one included, every statistic is returned: nothing overflows, no
  -- index or conversion is out of range, and nothing is thrown.
  pub IsModest-AllEnd : (s : Snapshot) → IsModest s → AllEnd W s
  IsModest-AllEnd s m =
      rw (m.made) (snapshot_ends m.samples m.bound m.within m.small m.few m.total_small)
