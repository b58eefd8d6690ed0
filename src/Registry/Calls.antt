-- ===== src/Registry/Calls.antt =====
-- The public calls of metric_registry.h and metric_registry.cpp, with their casts. A cast of a
-- pointer to a class that its object is not of is undefined.
use cppmetrics.Prelude.{ℕ, Bool, [], ◌∷◌, none, some, String, ℤ, get_elem?, ◌||◌, if◌then◌else◌}
use cppmetrics.Outcome.{Outcome, returns, undefined, ◌>>=◌}
use cppmetrics.Double.{Double}
use cppmetrics.Random.{Rng}
use cppmetrics.Table.{Table}
use cppmetrics.OrderedMap.{put}
use cppmetrics.Registry.{
  MetricType, gauge_type, counter_type, histogram_type, meter_type, timer_type, same_type, Metric,
  type_of, MetricRegistry, get_or_add, get_metrics,
}

module _ {R W : Type 0} where
  -- The class that a pointer is cast to: `Metered` is the base of meters and timers.
  abbrev pub is_instance_of : MetricType → Metric R W → Bool
  is_instance_of meter_type m = same_type (type_of m) meter_type || same_type (type_of m) timer_type
  is_instance_of t m = same_type (type_of m) t

  -- `boost::static_pointer_cast`.
  unfoldable pub static_pointer_cast : MetricRegistry R W → MetricType → ℕ → Outcome ℕ
  static_pointer_cast r t p = elim (get_elem? r.heap p) [
    | none ↦ undefined
    | some m ↦ if is_instance_of t m then returns p else undefined
  ]

  -- The loop of `getMetrics`, over the elements that are left.
  unfoldable pub gather : MetricRegistry R W → MetricType → Table ℕ → Table ℕ → Outcome (Table ℕ)
  unfolding static_pointer_cast put
  gather r t [] ret_set = returns ret_set
  gather r t ((name, p) ∷ rest) ret_set =
      static_pointer_cast r t p >>= λ q. gather r t rest (put name q ret_set)

  -- The `std::map` that `getMetrics` returns.
  unfoldable pub get_map : MetricRegistry R W → MetricType → Outcome (Table ℕ)
  unfolding gather get_metrics
  get_map r t = gather r t (get_metrics r t) []

  unfoldable pub get_counters : MetricRegistry R W → Outcome (Table ℕ)
  unfolding get_map
  get_counters r = get_map r counter_type

  unfoldable pub get_histograms : MetricRegistry R W → Outcome (Table ℕ)
  unfolding get_map
  get_histograms r = get_map r histogram_type

  unfoldable pub get_meters : MetricRegistry R W → Outcome (Table ℕ)
  unfolding get_map
  get_meters r = get_map r meter_type

  unfoldable pub get_timers : MetricRegistry R W → Outcome (Table ℕ)
  unfolding get_map
  get_timers r = get_map r timer_type

  unfoldable pub get_gauges : MetricRegistry R W → Outcome (Table ℕ)
  unfolding get_map
  get_gauges r = get_map r gauge_type

module _ {R W : Type 0} ⦃d : Double W⦄ (g : Rng R W) where
  -- The pointer of `getOrAdd`, cast.
  unfoldable pub get_or_add_cast :
      MetricRegistry R W → MetricType → String → ℤ → ℕ → Outcome (ℕ × MetricRegistry R W)
  unfolding get_or_add static_pointer_cast
  get_or_add_cast r t name now millis = get_or_add g r t name now millis >>= λ (metric_ptr, r').
      static_pointer_cast r' t metric_ptr >>= λ p. returns (p, r')

  unfoldable pub counter : MetricRegistry R W → String → ℤ → ℕ → Outcome (ℕ × MetricRegistry R W)
  unfolding get_or_add_cast
  counter r name now millis = get_or_add_cast r counter_type name now millis

  unfoldable pub histogram : MetricRegistry R W → String → ℤ → ℕ → Outcome (ℕ × MetricRegistry R W)
  unfolding get_or_add_cast
  histogram r name now millis = get_or_add_cast r histogram_type name now millis

  unfoldable pub meter : MetricRegistry R W → String → ℤ → ℕ → Outcome (ℕ × MetricRegistry R W)
  unfolding get_or_add_cast
  meter r name now millis = get_or_add_cast r meter_type name now millis

  unfoldable pub timer : MetricRegistry R W → String → ℤ → ℕ → Outcome (ℕ × MetricRegistry R W)
  unfolding get_or_add_cast
  timer r name now millis = get_or_add_cast r timer_type name now millis
