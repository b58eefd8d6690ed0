-- ===== src/Registry.antt =====
-- src/cppmetrics/core/metric_registry.h and metric_registry.cpp: the metrics of a program by name. The
-- metrics are shared objects: they stand on a heap, and a `MetricPtr` is an index of it. The calls
-- that build a metric take the clock's reading and the seed. Each call holds the lock from its
-- start to its end; one that throws leaves the registry as it was.
pub mod Calls
pub mod Maps
pub mod Interface
pub mod Catalog
pub mod Simulation
pub mod Restores
pub mod Removal
pub mod Refinement
pub mod Histories
pub mod Sharing
pub mod Directory
use Prim.Native.String.{◌++◌}
use cppmetrics.Prelude.{
  ℕ, zero, suc, ◌+◌, ◌≡◌, Bool, true, false, List, [], ◌∷◌, Option, none, some, ℤ, pos, length,
  String, if◌then◌else◌, ◌==◌, int64_to_uint64,
}
use cppmetrics.Prelude
use cppmetrics.Outcome.{Outcome, returns, throws, ◌>>=◌, invalid_argument}
use cppmetrics.Double.{Double}
use cppmetrics.Random.{Rng}
use cppmetrics.Counter.{Counter, counter}
use cppmetrics.Histogram.{Histogram, histogram, k_biased}
use cppmetrics.Meter.{Meter, meter}
use cppmetrics.Timer.{Timer, timer, default_rate_unit}
use cppmetrics.Table.{Table, find, insert, erase}

pub data MetricType : Type 0 where
  gauge_type : MetricType
  counter_type : MetricType
  histogram_type : MetricType
  meter_type : MetricType
  timer_type : MetricType

-- The number of a type in the enum.
abbrev pub index : MetricType → ℕ
index gauge_type = 0
index counter_type = 1
index histogram_type = 2
index meter_type = 3
index timer_type = 4

abbrev pub same_type : MetricType → MetricType → Bool
same_type t u = index t == index u

-- A metric of each class. A gauge is the program's own object, here the value that it reads.
pub data Metric (R W : Type 0) : Type 0 where
  a_gauge : ℤ → Metric R W
  a_counter : Counter → Metric R W
  a_histogram : Histogram R W → Metric R W
  a_meter : Meter W → Metric R W
  a_timer : Timer R W → Metric R W

abbrev pub type_of : {R W : Type 0} → Metric R W → MetricType
type_of (a_gauge v) = gauge_type
type_of (a_counter c) = counter_type
type_of (a_histogram h) = histogram_type
type_of (a_meter m) = meter_type
type_of (a_timer t) = timer_type

abbrev pub MetricSets : Type 0
MetricSets = MetricType → Table ℕ

pub record MetricRegistry (R W : Type 0) : Type 0 where
  pub metric_sets : MetricSets
  pub metric_names : Table Unit
  pub heap : List (Metric R W)

-- `metric_set_[t] = set`.
abbrev pub put_set : MetricType → Table ℕ → MetricSets → MetricSets
put_set t set sets u = if same_type t u then set else sets u

-- The loop of `removeMetric`, over the types that are left.
unfoldable pub erase_from : List MetricType → String → MetricSets → MetricSets
unfolding find erase
erase_from [] name sets = sets
erase_from (t ∷ ts) name sets =
    let rest = erase_from ts name sets in
    elim (find name (sets t)) [ none ↦ rest | some _ ↦ put_set t (erase name (sets t)) sets ]

-- From 0 up to `TotalTypes`.
abbrev pub all_types : List MetricType
all_types = gauge_type ∷ counter_type ∷ histogram_type ∷ meter_type ∷ timer_type ∷ []

module _ {R W : Type 0} where
  -- The constructor.
  unfoldable pub metric_registry : MetricRegistry R W
  metric_registry = record { metric_sets = λ t. []; metric_names = []; heap = [] }

  unfoldable pub count : MetricRegistry R W → ℕ
  count r = length r.metric_names

  unfoldable pub add_metric :
      MetricRegistry R W → MetricType → String → ℕ → Outcome (Bool × MetricRegistry R W)
  unfolding find insert
  add_metric r t name new_metric = elim (find name r.metric_names) [
    | none ↦
        let (metric_set, added) = insert name new_metric (r.metric_sets t) in
        returns (
          added,
          record r {
            metric_names = (insert name tt r.metric_names).0;
            metric_sets = put_set t metric_set r.metric_sets;
          },
        )
    | some _ ↦ throws (invalid_argument (name ++ " already exists as a different metric."))
  ]

  -- A new object, and the pointer to it.
  abbrev pub allocate : Metric R W → MetricRegistry R W → ℕ × MetricRegistry R W
  allocate m r = (length r.heap, record r { heap = Prelude.◌++◌ r.heap (m ∷ []) })

  unfoldable pub add_gauge : MetricRegistry R W → String → ℤ → Outcome (Bool × MetricRegistry R W)
  unfolding add_metric
  add_gauge r name value =
      let (gauge, r') = allocate (a_gauge value) r in add_metric r' gauge_type name gauge

  -- `getMetrics`, which each of the public functions calls with its type.
  unfoldable pub get_metrics : MetricRegistry R W → MetricType → Table ℕ
  get_metrics r t = r.metric_sets t

  unfoldable pub remove_metric : MetricRegistry R W → String → Bool × MetricRegistry R W
  unfolding find erase erase_from
  remove_metric r name = elim (find name r.metric_names) [
    | none ↦ (false, r)
    | some _ ↦ (
      true,
      record r {
        metric_sets = erase_from all_types name r.metric_sets;
        metric_names = erase name r.metric_names;
      },
    )
  ]

module _ {R W : Type 0} ⦃d : Double W⦄ (g : Rng R W) where
  unfoldable pub build_metric : MetricType → ℤ → ℕ → Outcome (Metric R W)
  unfolding counter histogram meter timer
  build_metric counter_type now millis = returns (a_counter (counter (pos 0)))
  build_metric histogram_type now millis =
      histogram g k_biased now millis >>= λ h. returns (a_histogram h)
  build_metric meter_type now millis =
      returns (a_meter (meter default_rate_unit (int64_to_uint64 now)))
  build_metric timer_type now millis = timer g now millis >>= λ t. returns (a_timer t)
  build_metric gauge_type now millis = throws (invalid_argument "Unknown or invalid metric type.")

  -- `counter`, `histogram`, `meter` and `timer` call it with their types.
  unfoldable pub get_or_add :
      MetricRegistry R W → MetricType → String → ℤ → ℕ → Outcome (ℕ × MetricRegistry R W)
  unfolding build_metric find add_metric
  get_or_add r t name now millis = elim (find name (r.metric_sets t)) [
    | some metric ↦ returns (metric, r)
    | none ↦ build_metric t now millis >>= λ m.
        let (new_metric, r') = allocate m r in
        add_metric r' t name new_metric >>= λ (added, r''). returns (new_metric, r'')
  ]
