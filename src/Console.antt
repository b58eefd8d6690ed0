-- ===== src/Console.antt =====
-- src/cppmetrics/core/console_reporter.h and console_reporter.cpp: a report as text, line by line. What
-- the getters of the metrics return is an argument, and the text of numbers, in the stream's format
-- and in the default one, and of the time, are parameters.
pub mod Banner
pub mod Sections
pub mod Endings
use Prim.Native.String.{String, ◌++◌, len}
use cppmetrics.Prelude.{
  Bool, true, ℕ, zero, suc, ◌+◌, ◌*◌, ◌-◌, List, [], ◌∷◌, ℤ, wrap_uint64, uint64_mod, is_empty,
  if◌then◌else◌,
}
use cppmetrics.Prelude
use cppmetrics.Outcome.{Outcome, returns, ◌>>=◌}
use cppmetrics.Double.{Double}
use cppmetrics.Snapshot.{
  Snapshot, get_max, get_mean, get_min, get_std_dev, get_median, get_75th_percentile,
  get_95th_percentile, get_98th_percentile, get_99th_percentile, get_999th_percentile,
}
use cppmetrics.Graphite.{Metered, Format, Metrics, unit_factors}

pub record ConsoleReporter (W : Type 0) : Type 0 where
  pub rate_factor : W
  pub duration_factor : W

-- The format of an output stream.
pub record Stream : Type 0 where
  pub fixed_notation : Bool
  pub width : ℕ
  pub precision : ℕ

-- The constructor, which sets the format of the stream that it gets.
unfoldable pub console_reporter :
    {W : Type 0} → ⦃d : Double W⦄ → Stream → ℤ → Outcome (ConsoleReporter W × Stream)
unfolding unit_factors
console_reporter ostr rate_unit = unit_factors rate_unit >>= λ (rates, durations). returns (
  record { rate_factor = rates; duration_factor = durations },
  record { fixed_notation = true; width = 2; precision = 2 },
)

abbrev pub console_width : ℕ
console_width = 80

-- The loop of `printWithBanner`, with `n` rounds to go.
unfoldable pub repeat : ℕ → String → String
repeat zero sep = ""
repeat (suc n) sep = sep ++ repeat n sep

-- The bound of that loop, computed in `size_t`.
abbrev pub banner_bound : String → ℕ
banner_bound s = wrap_uint64 (console_width + 2 * uint64_mod - len s - 1)

unfoldable pub print_with_banner : String → String → String
unfolding repeat
print_with_banner s sep = (s ++ " ") ++ repeat (banner_bound s) sep

-- Lines of which some may not come.
abbrev pub Printed : Type 0
Printed = List (Outcome String)

abbrev pub print_all : Printed → Outcome (List String)
print_all [] = returns []
print_all (l ∷ ls) = l >>= λ text. print_all ls >>= λ texts. returns (text ∷ texts)

module _ {W : Type 0} ⦃d : Double W⦄ (f : Format W) (show_plainly : W → String) where
  -- `rateUnitInSec`, on a stream with the default format.
  abbrev pub rate_unit_in_sec : ConsoleReporter W → String
  rate_unit_in_sec r = show_plainly r.rate_factor ++ " Seconds"

  -- A rate with its unit.
  abbrev pub rate_line : ConsoleReporter W → String → W → String → Outcome String
  rate_line r label rate unit =
      returns (label ++ (f.of_double (d.mul rate r.rate_factor) ++ (unit ++ rate_unit_in_sec r)))

  unfoldable pub print_meter : ConsoleReporter W → Metered W → Printed
  print_meter r m =
      returns ("             count = " ++ f.of_uint64 m.count)
      ∷ rate_line r "         mean rate = " m.mean_rate " events per "
      ∷ rate_line r "     1-minute rate = " m.one_minute_rate " events per "
      ∷ rate_line r "     5-minute rate = " m.five_minute_rate " events per "
      ∷ rate_line r "    15-minute rate = " m.fifteen_minute_rate " events per "
      ∷ []

  unfoldable pub print_counter : ℤ → Printed
  print_counter count = returns ("             count = " ++ f.of_int64 count) ∷ []

  unfoldable pub print_gauge : ℤ → Printed
  print_gauge value = returns ("             value = " ++ f.of_int64 value) ∷ []

  -- The statistics of a snapshot.
  unfoldable pub print_snapshot : (W → String) → (ℤ → String) → Snapshot → Printed
  print_snapshot show show_int s =
      (get_min W s >>= λ v. returns ("               min = " ++ show_int v))
      ∷ (get_max W s >>= λ v. returns ("               max = " ++ show_int v))
      ∷ (get_mean s >>= λ v. returns ("              mean = " ++ show v))
      ∷ (get_std_dev s >>= λ v. returns ("            stddev = " ++ show v))
      ∷ (get_median s >>= λ v. returns ("            median = " ++ show v))
      ∷ (get_75th_percentile s >>= λ v. returns ("              75% <= " ++ show v))
      ∷ (get_95th_percentile s >>= λ v. returns ("              95% <= " ++ show v))
      ∷ (get_98th_percentile s >>= λ v. returns ("              98% <= " ++ show v))
      ∷ (get_99th_percentile s >>= λ v. returns ("              99% <= " ++ show v))
      ∷ (get_999th_percentile s >>= λ v. returns ("            99.9% <= " ++ show v))
      ∷ []

  unfoldable pub print_histogram : ℕ → Snapshot → Printed
  unfolding print_snapshot
  print_histogram count s =
      returns ("             count = " ++ f.of_uint64 count)
      ∷ print_snapshot f.of_double f.of_int64 s

  -- A duration in milliseconds.
  abbrev pub millis : ConsoleReporter W → W → String
  millis r v = f.of_double (d.mul v r.duration_factor) ++ " millis "

  unfoldable pub print_timer : ConsoleReporter W → Snapshot → Metered W → Printed
  unfolding print_snapshot
  print_timer r s m =
      returns ("             count = " ++ f.of_uint64 m.count)
      ∷ rate_line r "         mean rate = " m.mean_rate " calls per "
      ∷ rate_line r "     1-minute rate = " m.one_minute_rate " calls per "
      ∷ rate_line r "     5-minute rate = " m.five_minute_rate " calls per "
      ∷ rate_line r "    15-minute rate = " m.fifteen_minute_rate " calls per "
      ∷ print_snapshot (millis r) (λ v. millis r (d.of_int64 v)) s

  abbrev pub each_named : {A : Type 0} → (A → Printed) → List (String × A) → Printed
  each_named print [] = []
  each_named print ((name, a) ∷ rest) =
      returns name ∷ Prelude.◌++◌ (print a) (each_named print rest)

  -- Nothing for an empty map.
  abbrev pub print_section : {A : Type 0} → String → (A → Printed) → List (String × A) → Printed
  print_section title print entries =
      if is_empty entries
      then []
      else returns (print_with_banner title "-")
        ∷ Prelude.◌++◌ (each_named print entries) (returns "" ∷ [])

  unfoldable pub report : ConsoleReporter W → String → Metrics f → Outcome (List String)
  unfolding print_with_banner print_gauge print_counter print_histogram print_meter print_timer
  report r timestamp m = print_all (
      returns (print_with_banner timestamp "=")
      ∷ Prelude.◌++◌ (print_section "-- Gauges" print_gauge m.gauge_map) (
          Prelude.◌++◌ (print_section "-- Counters" print_counter m.counter_map) (
            Prelude.◌++◌
              (print_section "-- Histograms" (λ h. print_histogram h.0 h.1) m.histogram_map)
              (Prelude.◌++◌ (print_section "-- Meters" (print_meter r) m.meter_map) (
                Prelude.◌++◌ (print_section "-- Timers" (λ t. print_timer r t.0 t.1) m.timer_map)
                  (returns "" ∷ []))))))
