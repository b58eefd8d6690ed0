-- ===== src/Registry/Catalog.antt =====
-- What metric_registry.h promises, as a second implementation of its class: one map from the names
-- to their types and pointers, and the next pointer.
use text.Mathlib.TextEquality.{eq_iff}
use cppmetrics.Prelude.{
  ℕ, suc, ◌+◌, ◌≡◌, refl, Bool, true, false, [], ◌∷◌, none, some, length, String, ℤ, arith,
  if◌then◌else◌,
}
use cppmetrics.Outcome.{Outcome, returns, throws, invalid_argument}
use cppmetrics.Table.{Table, find, erase}
use cppmetrics.OrderedMap.{put, IsAscending, IsBelow, find-below}
use cppmetrics.Registry.{
  MetricType, gauge_type, counter_type, histogram_type, meter_type, timer_type, same_type,
}
use cppmetrics.Registry.Directory.{entry}
use cppmetrics.Registry.Refinement.{taken_message}
use cppmetrics.Registry.Interface.{RegistryClass}

pub record Catalog : Type 0 where
  pub entries : Table (MetricType × ℕ)
  pub next_pointer : ℕ

-- A new metric under a free name.
abbrev pub entered : Catalog → MetricType → String → Catalog
entered c t name = record {
  entries = put name (t, c.next_pointer) c.entries;
  next_pointer = suc c.next_pointer;
}

abbrev pub enter_gauge : Catalog → String → ℤ → Outcome (Bool × Catalog)
enter_gauge c name value = elim (find name c.entries) [
  | none ↦ returns (true, entered c gauge_type name)
  | some _ ↦ throws (invalid_argument (taken_message name))
]

-- The metric of a type and a name, made if the name is free.
abbrev pub look_up : MetricType → Catalog → String → ℤ → ℕ → Outcome (ℕ × Catalog)
look_up t c name now millis = elim (find name c.entries) [
  | none ↦ returns (c.next_pointer, entered c t name)
  | some (u, p) ↦
      if same_type u t then returns (p, c) else throws (invalid_argument (taken_message name))
]

abbrev pub strike : Catalog → String → Bool × Catalog
strike c name = elim (find name c.entries) [
  | none ↦ (false, c)
  | some _ ↦ (true, record c { entries = erase name c.entries })
]

-- The metrics of one type.
abbrev pub only : MetricType → Table (MetricType × ℕ) → Table ℕ
only t [] = []
only t ((name, (u, p)) ∷ es) =
    let rest = only t es in if same_type u t then (name, p) ∷ rest else rest

unfoldable pub catalog : RegistryClass Catalog
unfolding find erase put
catalog = record {
  create = record { entries = []; next_pointer = 0 };
  add_gauge = enter_gauge;
  remove_metric = strike;
  counter = look_up counter_type;
  histogram = look_up histogram_type;
  meter = look_up meter_type;
  timer = look_up timer_type;
  get_counters = λ c. returns (only counter_type c.entries);
  get_histograms = λ c. returns (only histogram_type c.entries);
  get_meters = λ c. returns (only meter_type c.entries);
  get_timers = λ c. returns (only timer_type c.entries);
  get_gauges = λ c. returns (only gauge_type c.entries);
  count = λ c. length c.entries;
}

IsBelow-only :
    (t : MetricType) (name : String) (es : Table (MetricType × ℕ))
    → IsBelow name es
    → IsBelow name (only t es)
IsBelow-only t name [] h = tt
IsBelow-only t name ((j, (u, p)) ∷ es) (h, hs) = ground (arith, h, IsBelow-only t name es hs)

pub only-IsAscending :
    (t : MetricType) (es : Table (MetricType × ℕ)) → IsAscending es → IsAscending (only t es)
only-IsAscending t [] a = tt
only-IsAscending t ((j, (u, p)) ∷ es) (h, a) =
    ground (arith, IsBelow-only t j es h, only-IsAscending t es a)

pub find-only :
    (t : MetricType) (name : String) (es : Table (MetricType × ℕ))
    → IsAscending es
    → find name (only t es) ≡ entry t (find name es)
unfolding find
find-only t name [] a = refl
find-only t name ((j, (u, p)) ∷ es) (h, a) = ground (
  arith,
  find-only t name es a,
  find-below j (only t es) (IsBelow-only t j es h),
  find-below j es h,
  eq_iff name j,
)

-- Each entry is in the list of its type.
pub length-only :
    (es : Table (MetricType × ℕ))
    → length es
      ≡ length (only gauge_type es)
        + length (only counter_type es)
        + length (only histogram_type es)
        + length (only meter_type es)
        + length (only timer_type es)
length-only [] = refl
length-only ((j, (gauge_type, p)) ∷ es) = omega (arith, length-only es)
length-only ((j, (counter_type, p)) ∷ es) = omega (arith, length-only es)
length-only ((j, (histogram_type, p)) ∷ es) = omega (arith, length-only es)
length-only ((j, (meter_type, p)) ∷ es) = omega (arith, length-only es)
length-only ((j, (timer_type, p)) ∷ es) = omega (arith, length-only es)
