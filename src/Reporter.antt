-- ===== src/Reporter.antt =====
-- `report` of src/cppmetrics/core/scheduled_reporter.cpp: it gets the five maps of a registry and hands
-- them to the reporter, which reads the objects behind their pointers. A rate that is read ticks its
-- meter first. Each reading of the clock is an argument; no other thread changes the metrics meanwhile.
pub mod Reading
pub mod Values
pub mod Told
pub mod Reported
pub mod Completes
use cppmetrics.Prelude.{ℕ, ◌≡◌, List, [], ◌∷◌, Option, none, some, String, ℤ, get_elem?, set}
use cppmetrics.Outcome.{Outcome, returns, undefined, ◌>>=◌}
use cppmetrics.Double.{Double}
use cppmetrics.Snapshot.{Snapshot}
use cppmetrics.Meter.{Meter}
use cppmetrics.Meter
use cppmetrics.Counter
use cppmetrics.Histogram
use cppmetrics.Timer.{Timer}
use cppmetrics.Timer
use cppmetrics.Table.{Table}
use cppmetrics.Registry.{Metric, a_gauge, a_counter, a_histogram, a_meter, a_timer, MetricRegistry}
use cppmetrics.Registry.Calls.{get_counters, get_histograms, get_meters, get_timers, get_gauges}
use cppmetrics.Metered.{MeteredClass, meter_class, timer_class}
use cppmetrics.Sender.{GraphiteSender}
use cppmetrics.Graphite.{Metered, Format, GraphiteReporter, Metrics, lines}
use cppmetrics.Graphite
use cppmetrics.Console.{ConsoleReporter}
use cppmetrics.Console

-- The clock's readings of the rates of one metric.
pub record Times : Type 0 where
  pub one : ℕ
  pub five : ℕ
  pub fifteen : ℕ
  pub mean : ℕ

-- How a reporter reads an object of a class: what it reads, and the object afterwards; none for an
-- object of another class.
abbrev pub Reader : Type 0 → Type 0 → Type 0 → Type 0
Reader R W A = String → Metric R W → Option (A × Metric R W)

module _ {R W : Type 0} where
  -- The object behind a pointer.
  unfoldable pub read_at :
      {A : Type 0}
      → Reader R W A
      → String
      → ℕ
      → MetricRegistry R W
      → Outcome (A × MetricRegistry R W)
  read_at read name p r = elim (get_elem? r.heap p) [
    | none ↦ undefined
    | some m ↦ elim (read name m) [
      | none ↦ undefined
      | some (a, m') ↦ returns (a, record r { heap = set r.heap p m' })
    ]
  ]

  -- The loop over one map.
  unfoldable pub read_all :
      {A : Type 0}
      → Reader R W A
      → Table ℕ
      → MetricRegistry R W
      → Outcome (List (String × A) × MetricRegistry R W)
  unfolding read_at
  read_all read [] r = returns ([], r)
  read_all read ((name, p) ∷ es) r = read_at read name p r >>= λ (a, r').
      read_all read es r' >>= λ (as_read, r''). returns ((name, a) ∷ as_read, r'')

-- What a reporter reads of a `Metered`.
unfoldable pub read_metered : {S W : Type 0} → MeteredClass S W → S → Times → Metered W × S
read_metered c s t =
    let (one_minute, s1) = c.get_one_minute_rate s t.one in
    let (five_minutes, s5) = c.get_five_minute_rate s1 t.five in
    let (fifteen_minutes, s15) = c.get_fifteen_minute_rate s5 t.fifteen in
    (
      record {
        count = c.get_count s;
        one_minute_rate = one_minute;
        five_minute_rate = five_minutes;
        fifteen_minute_rate = fifteen_minutes;
        mean_rate = c.get_mean_rate s15 t.mean;
      },
      s15,
    )

module _ {R W : Type 0} ⦃d : Double W⦄ where
  unfoldable pub read_counter : Reader R W ℤ
  unfolding Counter.get_count
  read_counter name (a_counter c) = some (Counter.get_count c, a_counter c)
  read_counter name m = none

  unfoldable pub read_histogram : Reader R W (ℕ × Snapshot)
  unfolding Histogram.get_count Histogram.get_snapshot
  read_histogram name (a_histogram h) =
      some ((Histogram.get_count h, Histogram.get_snapshot h), a_histogram h)
  read_histogram name m = none

  unfoldable pub read_meter : (String → Times) → Reader R W (Metered W)
  unfolding read_metered meter_class
  read_meter clock name (a_meter m) =
      let (read, m') = read_metered meter_class.metered m (clock name) in some (read, a_meter m')
  read_meter clock name m = none

  unfoldable pub read_timer : (String → Times) → Reader R W (Snapshot × Metered W)
  unfolding read_metered timer_class Timer.get_snapshot
  read_timer clock name (a_timer t) =
      let (read, t') = read_metered timer_class t (clock name) in
      some ((Timer.get_snapshot t, read), a_timer t')
  read_timer clock name m = none

  unfoldable pub read_gauge : Reader R W ℤ
  read_gauge name (a_gauge v) = some (v, a_gauge v)
  read_gauge name m = none

  module _ (f : Format W) (clock : String → Times) where
    unfoldable pub read_metrics : MetricRegistry R W → Outcome (Metrics f × MetricRegistry R W)
    unfolding get_counters get_histograms get_meters get_timers get_gauges read_all read_counter
        read_histogram read_meter read_timer read_gauge
    read_metrics r = get_counters r >>= λ counter_map. get_histograms r >>= λ histogram_map.
        get_meters r >>= λ meter_map. get_timers r >>= λ timer_map. get_gauges r >>= λ gauge_map.
        read_all read_counter counter_map r >>= λ (counters, r1).
        read_all read_histogram histogram_map r1 >>= λ (histograms, r2).
        read_all (read_meter clock) meter_map r2 >>= λ (meters, r3).
        read_all (read_timer clock) timer_map r3 >>= λ (timers, r4).
        read_all read_gauge gauge_map r4 >>= λ (gauges, r5). returns (
          record {
            counter_map = counters;
            histogram_map = histograms;
            meter_map = meters;
            timer_map = timers;
            gauge_map = gauges;
          },
          r5,
        )

    -- `report` of a `GraphiteReporter`: the sender afterwards. The metrics are read first here, where
    -- the code reads each value just before it is sent, and no more of them once a call has thrown.
    unfoldable pub report_to_graphite :
        {S : Type 0}
        → GraphiteSender S
        → GraphiteReporter W
        → ℕ
        → MetricRegistry R W
        → S
        → Outcome S
    unfolding read_metrics lines Graphite.report
    report_to_graphite c reporter timestamp r s =
        read_metrics r >>= λ (m, r'). Graphite.report c timestamp (lines f reporter m) s

    -- `report` of a `ConsoleReporter`.
    unfoldable pub report_to_console :
        (W → String)
        → ConsoleReporter W
        → String
        → MetricRegistry R W
        → Outcome (List String × MetricRegistry R W)
    unfolding read_metrics Console.report
    report_to_console show_plainly reporter timestamp r = read_metrics r >>= λ (m, r').
        Console.report f show_plainly reporter timestamp m >>= λ text. returns (text, r')
