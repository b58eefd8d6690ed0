-- ===== src/Reporter/Values.antt =====
-- What a report says of an object, by the object's fields.
use cppmetrics.Prelude.{ℕ, ◌≡◌, List, String, ℤ, pos, take, min, length, map}
use cppmetrics.Double.{Double}
use cppmetrics.Snapshot.{Snapshot, snapshot}
use cppmetrics.Ewma.{Ewma}
use cppmetrics.Meter.{Meter, tick_if_necessary, get_mean_rate}
use cppmetrics.Histogram.{Sample, uniform, biased}
use cppmetrics.Registry.{Metric, a_gauge, a_counter, a_histogram, a_meter, a_timer}
use cppmetrics.Graphite.{Metered}
use cppmetrics.Reporter.{Times}

module _ {R W : Type 0} where
  -- The values of the objects, by their fields. A counter's count, and a gauge's value.
  abbrev pub CounterValue : String → Metric R W → ℤ → Type 0
  CounterValue name (a_counter c) v = v ≡ c.count
  CounterValue name m v = ⊥

  abbrev pub GaugeValue : String → Metric R W → ℤ → Type 0
  GaugeValue name (a_gauge g) v = v ≡ g
  GaugeValue name m v = ⊥

  -- The values that a reservoir holds.
  abbrev pub values_of : Sample R W → List ℤ
  values_of (uniform s) = take (min s.count (length s.values)) s.values
  values_of (biased s) = map (λ kv. kv.1) s.values

  abbrev pub HistogramValue : String → Metric R W → ℕ × Snapshot → Type 0
  HistogramValue name (a_histogram h) v = (v.0 ≡ h.count) × (v.1 ≡ snapshot (values_of h.sample))
  HistogramValue name m v = ⊥

module _ {W : Type 0} ⦃d : Double W⦄ where
  -- The rate of an average for a second.
  abbrev pub per_second : Ewma W → W
  per_second e = d.mul e.ewma (d.of_int64 (pos 1_000_000_000))

  -- A meter has its ticks up to each reading before its rate is taken.
  pub record IsMetered (count : ℕ) (m : Meter W) (t : Times) (v : Metered W) : Type 0 where
    pub counted : v.count ≡ count
    pub one : v.one_minute_rate ≡ per_second (tick_if_necessary m t.one).m1_rate
    pub five :
        v.five_minute_rate
        ≡ per_second (tick_if_necessary (tick_if_necessary m t.one) t.five).m5_rate
    pub fifteen :
        v.fifteen_minute_rate
        ≡ per_second
            (tick_if_necessary
              (tick_if_necessary (tick_if_necessary m t.one) t.five)
              t.fifteen).m15_rate
    pub mean :
        v.mean_rate
        ≡ get_mean_rate
            (tick_if_necessary (tick_if_necessary (tick_if_necessary m t.one) t.five) t.fifteen)
            t.mean

module _ {R W : Type 0} ⦃d : Double W⦄ where
  abbrev pub MeterValue : (String → Times) → String → Metric R W → Metered W → Type 0
  MeterValue clock name (a_meter m) v = IsMetered m.count m (clock name) v
  MeterValue clock name m v = ⊥

  abbrev pub TimerValue : (String → Times) → String → Metric R W → Snapshot × Metered W → Type 0
  TimerValue clock name (a_timer t) v =
      (v.0 ≡ snapshot (values_of t.histogram_of.sample))
      × IsMetered t.histogram_of.count t.meter_of (clock name) (v.1)
  TimerValue clock name m v = ⊥
