-- ===== src/Reporter/Told.antt =====
-- What each of the readers of scheduled_reporter.cpp says of an object.
use cppmetrics.Prelude.{◌≡◌, refl, none, some, String, Option}
use cppmetrics.Double.{Double}
use cppmetrics.Registry.{
  gauge_type, counter_type, histogram_type, meter_type, timer_type, Metric, a_gauge, a_counter,
  a_histogram, a_meter, a_timer,
}
use cppmetrics.Reporter.{
  Times, Reader, read_counter, read_histogram, read_meter, read_timer, read_gauge,
}
use cppmetrics.Reporter.Values.{
  CounterValue, GaugeValue, HistogramValue, MeterValue, TimerValue, values_of,
}
use cppmetrics.Reporter.{read_metered}
use cppmetrics.Metered.{meter_class, timer_class}
use cppmetrics.Snapshot.{snapshot}
use cppmetrics.Counter
use cppmetrics.Ewma
use cppmetrics.Meter
use cppmetrics.Timer
use cppmetrics.UniformSample
use cppmetrics.ExpDecaySample
use cppmetrics.Histogram
use cppmetrics.Histogram.{Sample, uniform, biased, sample_snapshot}
use cppmetrics.Reporter.Reading.{Serves}

module _ {R W : Type 0} where
  -- What a reader gives, if anything, is the value of the object.
  abbrev pub Gives : {A : Type 0} → (A → Type 0) → Option (A × Metric R W) → Type 0
  Gives P none = Unit
  Gives P (some (a, m)) = P a

  abbrev pub TellsOf : {A : Type 0} → (String → Metric R W → A → Type 0) → Reader R W A → Type 0
  TellsOf Value read = (name : String) (m : Metric R W) → Gives (Value name m) (read name m)

module _ {R W : Type 0} ⦃d : Double W⦄ where
  pub counter-Serves : Serves {R = R} {W = W} counter_type read_counter
  unfolding read_counter
  counter-Serves name (a_counter c) h = (_, _, refl, refl)
  counter-Serves name (a_gauge v) h = cc
  counter-Serves name (a_histogram x) h = cc
  counter-Serves name (a_meter m) h = cc
  counter-Serves name (a_timer t) h = cc

  pub histogram-Serves : Serves {R = R} {W = W} histogram_type read_histogram
  unfolding read_histogram
  histogram-Serves name (a_histogram x) h = (_, _, refl, refl)
  histogram-Serves name (a_gauge v) h = cc
  histogram-Serves name (a_counter c) h = cc
  histogram-Serves name (a_meter m) h = cc
  histogram-Serves name (a_timer t) h = cc

  pub gauge-Serves : Serves {R = R} {W = W} gauge_type read_gauge
  unfolding read_gauge
  gauge-Serves name (a_gauge v) h = (_, _, refl, refl)
  gauge-Serves name (a_histogram x) h = cc
  gauge-Serves name (a_counter c) h = cc
  gauge-Serves name (a_meter m) h = cc
  gauge-Serves name (a_timer t) h = cc

  pub meter-Serves : (clock : String → Times) → Serves {R = R} {W = W} meter_type (read_meter clock)
  unfolding read_meter
  meter-Serves clock name (a_meter m) h = (_, _, refl, refl)
  meter-Serves clock name (a_gauge v) h = cc
  meter-Serves clock name (a_counter c) h = cc
  meter-Serves clock name (a_histogram x) h = cc
  meter-Serves clock name (a_timer t) h = cc

  pub timer-Serves : (clock : String → Times) → Serves {R = R} {W = W} timer_type (read_timer clock)
  unfolding read_timer
  timer-Serves clock name (a_timer t) h = (_, _, refl, refl)
  timer-Serves clock name (a_gauge v) h = cc
  timer-Serves clock name (a_counter c) h = cc
  timer-Serves clock name (a_histogram x) h = cc
  timer-Serves clock name (a_meter m) h = cc

  pub counter_told : TellsOf {R = R} {W = W} (CounterValue) (read_counter)
  unfolding read_counter Counter.get_count
  counter_told name (a_counter x) = refl
  counter_told name (a_gauge x) = tt
  counter_told name (a_histogram x) = tt
  counter_told name (a_meter x) = tt
  counter_told name (a_timer x) = tt

  pub gauge_told : TellsOf {R = R} {W = W} (GaugeValue) (read_gauge)
  unfolding read_gauge
  gauge_told name (a_counter x) = tt
  gauge_told name (a_gauge x) = refl
  gauge_told name (a_histogram x) = tt
  gauge_told name (a_meter x) = tt
  gauge_told name (a_timer x) = tt

  snapshot_told : (s : Sample R W) → sample_snapshot s ≡ snapshot (values_of s)
  unfolding sample_snapshot UniformSample.get_snapshot UniformSample.size
      ExpDecaySample.get_snapshot
  snapshot_told (uniform s) = refl
  snapshot_told (biased s) = refl

  pub histogram_told : TellsOf {R = R} {W = W} (HistogramValue) (read_histogram)
  unfolding read_histogram Histogram.get_count Histogram.get_snapshot
  histogram_told name (a_counter x) = tt
  histogram_told name (a_gauge x) = tt
  histogram_told name (a_histogram x) = (refl, snapshot_told x.sample)
  histogram_told name (a_meter x) = tt
  histogram_told name (a_timer x) = tt

  pub meter_told :
      (clock : String → Times) → TellsOf {R = R} {W = W} (MeterValue clock) (read_meter clock)
  unfolding read_meter read_metered meter_class Meter.get_one_minute_rate Meter.get_five_minute_rate
      Meter.get_fifteen_minute_rate Meter.get_count Ewma.get_rate
  meter_told clock name (a_counter x) = tt
  meter_told clock name (a_gauge x) = tt
  meter_told clock name (a_histogram x) = tt
  meter_told clock name (a_meter x) = record {
    counted = refl;
    one = refl;
    five = refl;
    fifteen = refl;
    mean = refl;
  }
  meter_told clock name (a_timer x) = tt

  pub timer_told :
      (clock : String → Times) → TellsOf {R = R} {W = W} (TimerValue clock) (read_timer clock)
  unfolding read_timer read_metered timer_class Timer.get_snapshot Histogram.get_snapshot
      Timer.get_one_minute_rate Timer.get_five_minute_rate Timer.get_fifteen_minute_rate
      Timer.get_mean_rate Timer.get_count Meter.get_one_minute_rate Meter.get_five_minute_rate
      Meter.get_fifteen_minute_rate Meter.get_count Ewma.get_rate
  timer_told clock name (a_counter x) = tt
  timer_told clock name (a_gauge x) = tt
  timer_told clock name (a_histogram x) = tt
  timer_told clock name (a_meter x) = tt
  timer_told clock name (a_timer x) = (
    snapshot_told x.histogram_of.sample,
    record { counted = refl; one = refl; five = refl; fifteen = refl; mean = refl },
  )
