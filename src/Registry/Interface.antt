-- ===== src/Registry/Interface.antt =====
-- The class `MetricRegistry` of metric_registry.h as an interface, its implementation in
-- metric_registry.cpp, and programs that call it.
use cppmetrics.Prelude.{ℕ, Bool, List, [], ◌∷◌, String, ℤ}
use cppmetrics.Outcome.{Outcome, returns, throws, undefined, unfinished, Exception}
use cppmetrics.Double.{Double}
use cppmetrics.Random.{Rng}
use cppmetrics.Table.{Table}
use cppmetrics.Registry.{MetricRegistry, metric_registry, add_gauge, remove_metric, count}
use cppmetrics.Registry
use cppmetrics.Registry.Calls.{get_counters, get_histograms, get_meters, get_timers, get_gauges}
use cppmetrics.Registry.Calls

-- The calls on an object of the class, whose state is in `S`. A pointer is a number.
pub record RegistryClass (S : Type 0) : Type 0 where
  pub create : S
  pub add_gauge : S → String → ℤ → Outcome (Bool × S)
  pub remove_metric : S → String → Bool × S
  pub counter : S → String → ℤ → ℕ → Outcome (ℕ × S)
  pub histogram : S → String → ℤ → ℕ → Outcome (ℕ × S)
  pub meter : S → String → ℤ → ℕ → Outcome (ℕ × S)
  pub timer : S → String → ℤ → ℕ → Outcome (ℕ × S)
  pub get_counters : S → Outcome (Table ℕ)
  pub get_histograms : S → Outcome (Table ℕ)
  pub get_meters : S → Outcome (Table ℕ)
  pub get_timers : S → Outcome (Table ℕ)
  pub get_gauges : S → Outcome (Table ℕ)
  pub count : S → ℕ

-- A call, with the clock's reading and the seed where it may build a metric.
pub data Call : Type 0 where
  adds_gauge : String → ℤ → Call
  removes : String → Call
  asks_counter : String → ℤ → ℕ → Call
  asks_histogram : String → ℤ → ℕ → Call
  asks_meter : String → ℤ → ℕ → Call
  asks_timer : String → ℤ → ℕ → Call
  lists_counters : Call
  lists_histograms : Call
  lists_meters : Call
  lists_timers : Call
  lists_gauges : Call
  counts : Call

-- What the caller sees of a call.
pub data Reply : Type 0 where
  a_truth : Bool → Reply
  a_pointer : ℕ → Reply
  a_map : Table ℕ → Reply
  a_number : ℕ → Reply
  an_exception : Exception → Reply
  a_crash : Reply

-- The reply and the state after a call that may throw, which leaves the state as it was.
abbrev pub settled : {A S : Type 0} → (A → Reply) → S → Outcome (A × S) → Reply × S
settled show s (returns (a, s')) = (show a, s')
settled show s (throws e) = (an_exception e, s)
settled show s undefined = (a_crash, s)
settled show s unfinished = (a_crash, s)

abbrev pub shown : Outcome (Table ℕ) → Reply
shown (returns m) = a_map m
shown (throws e) = an_exception e
shown undefined = a_crash
shown unfinished = a_crash

module _ {S : Type 0} (c : RegistryClass S) where
  unfoldable pub call : S → Call → Reply × S
  call s (adds_gauge name value) = settled a_truth s (c.add_gauge s name value)
  call s (removes name) = let (found, s') = c.remove_metric s name in (a_truth found, s')
  call s (asks_counter name now millis) = settled a_pointer s (c.counter s name now millis)
  call s (asks_histogram name now millis) = settled a_pointer s (c.histogram s name now millis)
  call s (asks_meter name now millis) = settled a_pointer s (c.meter s name now millis)
  call s (asks_timer name now millis) = settled a_pointer s (c.timer s name now millis)
  call s lists_counters = (shown (c.get_counters s), s)
  call s lists_histograms = (shown (c.get_histograms s), s)
  call s lists_meters = (shown (c.get_meters s), s)
  call s lists_timers = (shown (c.get_timers s), s)
  call s lists_gauges = (shown (c.get_gauges s), s)
  call s counts = (a_number (c.count s), s)

  -- What a program sees that makes the calls one after the other.
  unfoldable pub replies : S → List Call → List Reply
  unfolding call
  replies s [] = []
  replies s (q ∷ qs) = let (reply, s') = call s q in reply ∷ replies s' qs

-- The class of metric_registry.cpp: each call is that of `impl_`.
unfoldable pub metric_registry_class :
    {R W : Type 0} → ⦃d : Double W⦄ → (g : Rng R W) → RegistryClass (MetricRegistry R W)
unfolding metric_registry add_gauge remove_metric count Calls.counter Calls.histogram Calls.meter
    Calls.timer get_counters get_histograms get_meters get_timers get_gauges
metric_registry_class g = record {
  create = metric_registry;
  add_gauge = Registry.add_gauge;
  remove_metric = Registry.remove_metric;
  counter = Calls.counter g;
  histogram = Calls.histogram g;
  meter = Calls.meter g;
  timer = Calls.timer g;
  get_counters = Calls.get_counters;
  get_histograms = Calls.get_histograms;
  get_meters = Calls.get_meters;
  get_timers = Calls.get_timers;
  get_gauges = Calls.get_gauges;
  count = Registry.count;
}
