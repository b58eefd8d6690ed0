-- ===== src/Tests/Registries.antt =====
-- The registry: runs, and the theorems at concrete inputs.
use cppmetrics.Prelude.{
  ℕ, ◌*◌, ◌≡◌, ◌∙◌, refl, false, inl, inr, String, subst, sym, Bool-cases, List, [], ◌∷◌, none,
  some, pos, length,
}
use text.Mathlib.Text.{◌==◌}
use text.Mathlib.TextEquality.{eq_iff}
use cppmetrics.Outcome.{returns, throws, invalid_argument}
use cppmetrics.Double.Milli.{Milli, milli}
use cppmetrics.Random.{Rng, counting}
use cppmetrics.Counter.{counter}
use cppmetrics.OrderedMap.{IsAscending}
use cppmetrics.Table.{Table, find, IsKeyed}
use cppmetrics.Registry.{
  MetricType, gauge_type, counter_type, histogram_type, meter_type, timer_type, a_counter, put_set,
  same_type, MetricRegistry, metric_registry, add_gauge, remove_metric, get_or_add, count,
}
use cppmetrics.Registry.Directory.{Directory, Shows, added, entry, extended, extended-Shows}
use cppmetrics.Registry.Refinement.{taken_message, get_or_add-refines}
use cppmetrics.Registry.Calls.{get_map}
use cppmetrics.Registry.Maps.{get_map-canonical}
use cppmetrics.Registry.Histories.{Request, counters, meters, gauges, removes, run, new-Shows}

abbrev pub drawn : Rng ℕ Milli
drawn = counting (λ r. some (pos (100 * r)))

abbrev pub nobody : Directory
nobody name = none

abbrev pub empty : MetricRegistry ℕ Milli
empty = metric_registry

get_or_add-refines_example :
    (nobody "hits" ≡ none
      → (r' : MetricRegistry ℕ Milli) × (get_or_add drawn empty counter_type "hits" (pos 0) 0
          ≡ returns (length empty.heap, r'))
        × Shows r' (added nobody "hits" counter_type (length empty.heap)))
    × ((p : ℕ)
        → nobody "hits" ≡ some (counter_type, p)
        → get_or_add drawn empty counter_type "hits" (pos 0) 0 ≡ returns (p, empty))
    × ((u : MetricType) (p : ℕ)
        → nobody "hits" ≡ some (u, p)
        → same_type u counter_type ≡ false
        → get_or_add drawn empty counter_type "hits" (pos 0) 0
          ≡ throws (invalid_argument (taken_message "hits")))
get_or_add-refines_example =
    get_or_add-refines drawn empty nobody counter_type "hits" (pos 0) 0 refl new-Shows

-- Two metrics, a clash of types, and a removal.
abbrev calls : List (Request ℕ Milli)
calls =
    counters "hits" (pos 0) 0
    ∷ gauges "queue" (pos 3)
    ∷ meters "hits" (pos 5) 0
    ∷ removes "queue"
    ∷ []

calls_leave_one : count (run drawn metric_registry calls) ≡ 1
unfolding run count get_or_add metric_registry add_gauge remove_metric
calls_leave_one = refl

-- Two counters, and the same ones in a hash map that lists them in the other order.
abbrev one_order : MetricRegistry ℕ Milli
one_order =
    extended (extended empty "hits" counter_type (a_counter (counter (pos 7)))) "misses"
      counter_type (a_counter (counter (pos 2)))

abbrev both : Directory
both = added (added nobody "hits" counter_type 0) "misses" counter_type 1

abbrev reversed : Table ℕ
reversed = ("hits", 0) ∷ ("misses", 1) ∷ []

abbrev other_order : MetricRegistry ℕ Milli
other_order = record one_order { metric_sets = put_set counter_type reversed one_order.metric_sets }

one_order-Shows : Shows one_order both
unfolding metric_registry
one_order-Shows =
    extended-Shows (extended empty "hits" counter_type (a_counter (counter (pos 7))))
      (added nobody "hits" counter_type 0) "misses" counter_type (a_counter (counter (pos 2)))
      (extended-Shows empty nobody "hits" counter_type (a_counter (counter (pos 7))) new-Shows refl
        refl)
      refl refl

find-reversed :
    (name : String) → find name reversed ≡ find name (one_order.metric_sets counter_type)
unfolding find metric_registry
find-reversed name = elim (Bool-cases (name == "hits")) [
  | inl same ↦
      let at_hits : name ≡ "hits" = (eq_iff name "hits").0 same in
      subst (λ n. find n reversed ≡ find n (one_order.metric_sets counter_type)) (sym at_hits) refl
  | inr apart ↦ rw apart refl
]

other_order-find :
    (t : MetricType) (name : String)
    → find name (other_order.metric_sets t) ≡ find name (one_order.metric_sets t)
other_order-find gauge_type name = refl
other_order-find counter_type name = find-reversed name
other_order-find histogram_type name = refl
other_order-find meter_type name = refl
other_order-find timer_type name = refl

other_order-IsKeyed : (t : MetricType) → IsKeyed (other_order.metric_sets t)
unfolding metric_registry find
other_order-IsKeyed gauge_type = tt
other_order-IsKeyed counter_type = (refl, (refl, tt))
other_order-IsKeyed histogram_type = tt
other_order-IsKeyed meter_type = tt
other_order-IsKeyed timer_type = tt

other_order-Shows : Shows other_order both
unfolding metric_registry
other_order-Shows =
    let s = one_order-Shows in
    record {
      sets = λ t name. other_order-find t name ∙ s.sets t name;
      names = s.names;
      sets_keyed = other_order-IsKeyed;
      names_keyed = s.names_keyed;
      counted = refl;
      typed = s.typed;
    }

get_map-canonical_example :
    (m : Table ℕ) × (get_map one_order counter_type ≡ returns m)
    × (get_map other_order counter_type ≡ returns m)
    × IsAscending m
    × ((name : String) → find name m ≡ entry counter_type (both name))
get_map-canonical_example =
    get_map-canonical one_order other_order both counter_type one_order-Shows other_order-Shows
