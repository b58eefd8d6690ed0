-- ===== src/Graphite.antt =====
-- src/cppmetrics/graphite/graphite_reporter.h, graphite_reporter.cpp and reporter.h: the metrics of a
-- registry as lines for a Graphite server. A metered object, a histogram, a timer and a gauge are
-- here what their virtual getters return when the reporter calls them.
pub mod Reports
pub mod Writes
pub mod Units
pub mod Names
pub mod Settled
use Prim.Native.String.{◌++◌}
use cppmetrics.Prelude.{
  zero, suc, ◌/◌, pos, negsuc, sub_ℕ, ℕ, ◌≡◌, Option, none, some, List, [], ◌∷◌, ℤ, String, map,
}
use cppmetrics.Prelude
use cppmetrics.Outcome.{Outcome, returns, throws, undefined, unfinished, ◌>>=◌, Exception}
use cppmetrics.Double.{Double, one}
use cppmetrics.Snapshot.{
  Snapshot, get_max, get_mean, get_min, get_std_dev, get_median, get_75th_percentile,
  get_95th_percentile, get_98th_percentile, get_99th_percentile, get_999th_percentile,
}
use cppmetrics.Sender.{GraphiteSender, Attempt, and_then}

-- What the getters of `Metered` return.
pub record Metered (W : Type 0) : Type 0 where
  pub count : ℕ
  pub one_minute_rate : W
  pub five_minute_rate : W
  pub fifteen_minute_rate : W
  pub mean_rate : W

-- `boost::lexical_cast<std::string>`.
pub record Format (W : Type 0) : Type 0 where
  pub of_double : W → String
  pub of_uint64 : ℕ → String
  pub of_int64 : ℤ → String

pub record GraphiteReporter (W : Type 0) : Type 0 where
  pub prefix_text : String
  pub rate_factor : W
  pub duration_factor : W

-- The name and the value of a call of `send`, the value computed just before it.
abbrev pub Line : Type 0
Line = String × Outcome String

unfoldable pub prefix : {W : Type 0} → GraphiteReporter W → String → Option String → String
prefix r name none = r.prefix_text ++ ("." ++ name)
prefix r name (some extra) = (r.prefix_text ++ ("." ++ name)) ++ ("." ++ extra)

module _ {W : Type 0} ⦃d : Double W⦄ where
  -- The factors of `ScheduledReporter`'s constructor: a quotient of integers, rounded towards zero, for
  -- the rates, and 1 / 10 ^ 6, from nanoseconds to milliseconds, for the durations.
  unfoldable pub unit_factors : ℤ → Outcome (W × W)
  unit_factors (pos zero) = undefined
  unit_factors (pos (suc n)) =
      returns (d.of_int64 (pos (1000 / suc n)), d.div one (d.of_int64 (pos 1_000_000)))
  unit_factors (negsuc n) =
      returns (d.of_int64 (sub_ℕ 0 (1000 / suc n)), d.div one (d.of_int64 (pos 1_000_000)))

  -- The constructor.
  unfoldable pub graphite_reporter : String → ℤ → Outcome (GraphiteReporter W)
  unfolding unit_factors
  graphite_reporter prefix_text rate_unit = unit_factors rate_unit >>= λ (rates, durations).
      returns
        (record { prefix_text = prefix_text; rate_factor = rates; duration_factor = durations })

module _ {W : Type 0} ⦃d : Double W⦄ (f : Format W) where
  -- ScheduledReporter::convertDurationUnit, and convertRateUnit.
  abbrev pub convert_duration_unit : GraphiteReporter W → W → W
  convert_duration_unit r duration = d.mul duration r.duration_factor

  abbrev pub convert_rate_unit : GraphiteReporter W → W → W
  convert_rate_unit r rate = d.mul rate r.rate_factor

  -- The value under an extra name.
  abbrev pub line : GraphiteReporter W → String → String → Outcome String → Line
  line r name extra value = (prefix r name (some extra), value)

  unfoldable pub report_meter : GraphiteReporter W → String → Metered W → List Line
  unfolding prefix
  report_meter r name m =
      line r name "count" (returns (f.of_uint64 m.count))
      ∷ line r name "m1_rate" (returns (f.of_double (convert_rate_unit r m.one_minute_rate)))
      ∷ line r name "m5_rate" (returns (f.of_double (convert_rate_unit r m.five_minute_rate)))
      ∷ line r name "m15_rate" (returns (f.of_double (convert_rate_unit r m.fifteen_minute_rate)))
      ∷ line r name "mean_rate" (returns (f.of_double (convert_rate_unit r m.mean_rate)))
      ∷ []

  -- The statistics of a snapshot, where `show` prints a double.
  unfoldable pub snapshot_lines :
      GraphiteReporter W → String → (W → String) → (ℤ → String) → Snapshot → List Line
  unfolding prefix
  snapshot_lines r name show show_int s =
      line r name "getMax" (get_max W s >>= λ v. returns (show_int v))
      ∷ line r name "mean" (get_mean s >>= λ v. returns (show v))
      ∷ line r name "min" (get_min W s >>= λ v. returns (show_int v))
      ∷ line r name "stddev" (get_std_dev s >>= λ v. returns (show v))
      ∷ line r name "p50" (get_median s >>= λ v. returns (show v))
      ∷ line r name "p75" (get_75th_percentile s >>= λ v. returns (show v))
      ∷ line r name "p95" (get_95th_percentile s >>= λ v. returns (show v))
      ∷ line r name "p98" (get_98th_percentile s >>= λ v. returns (show v))
      ∷ line r name "p99" (get_99th_percentile s >>= λ v. returns (show v))
      ∷ line r name "p999" (get_999th_percentile s >>= λ v. returns (show v))
      ∷ []

  unfoldable pub report_timer : GraphiteReporter W → String → Snapshot → Metered W → List Line
  unfolding snapshot_lines report_meter
  report_timer r name s m =
      Prelude.◌++◌
        (snapshot_lines r name (λ v. f.of_double (convert_duration_unit r v))
          (λ v. f.of_double (convert_duration_unit r (d.of_int64 v))) s)
        (report_meter r name m)

  unfoldable pub report_histogram : GraphiteReporter W → String → ℕ → Snapshot → List Line
  unfolding snapshot_lines
  report_histogram r name count s =
      line r name "count" (returns (f.of_uint64 count))
      ∷ snapshot_lines r name f.of_double f.of_int64 s

  unfoldable pub report_counter : GraphiteReporter W → String → ℤ → List Line
  unfolding prefix
  report_counter r name count = line r name "count" (returns (f.of_int64 count)) ∷ []

  unfoldable pub report_gauge : GraphiteReporter W → String → ℤ → List Line
  unfolding prefix
  report_gauge r name value = (prefix r name none, returns (f.of_int64 value)) ∷ []

  -- The metrics of a report, each map in the order of its names.
  pub record Metrics : Type 0 where
    pub counter_map : List (String × ℤ)
    pub histogram_map : List (String × (ℕ × Snapshot))
    pub meter_map : List (String × Metered W)
    pub timer_map : List (String × (Snapshot × Metered W))
    pub gauge_map : List (String × ℤ)

  abbrev pub each : {A : Type 0} → (String → A → List Line) → List (String × A) → List Line
  each report [] = []
  each report ((name, a) ∷ rest) = Prelude.◌++◌ (report name a) (each report rest)

  -- The calls of `send` that `report` makes if none of them throws.
  unfoldable pub lines : GraphiteReporter W → Metrics → List Line
  unfolding report_counter report_histogram report_meter report_timer report_gauge
  lines r m = Prelude.◌++◌ (each (report_counter r) m.counter_map) (
      Prelude.◌++◌ (each (λ name h. report_histogram r name h.0 h.1) m.histogram_map) (
        Prelude.◌++◌ (each (report_meter r) m.meter_map) (
          Prelude.◌++◌ (each (λ name t. report_timer r name t.0 t.1) m.timer_map)
            (each (report_gauge r) m.gauge_map))))

module _ {S : Type 0} (c : GraphiteSender S) where
  -- A value that throws leaves the sender as it was.
  unfoldable pub send_line : ℕ → Line → S → Attempt S
  send_line timestamp (name, value) s = elim value [
    | returns v ↦ c.send s name v timestamp
    | throws e ↦ returns (s, some e)
    | undefined ↦ undefined
    | unfinished ↦ unfinished
  ]

  unfoldable pub send_lines : ℕ → List Line → S → Attempt S
  unfolding send_line
  send_lines timestamp [] s = returns (s, none)
  send_lines timestamp (l ∷ ls) s = and_then (send_line timestamp l s) (send_lines timestamp ls)

  -- The `try` block and its handler: `close` follows in both, and no exception leaves the call.
  unfoldable pub report : ℕ → List Line → S → Outcome S
  unfolding send_lines
  report timestamp ls s =
      and_then (c.connect s) (send_lines timestamp ls) >>= λ (s', thrown). c.close s'
