-- ===== src/Registry/Refinement.antt =====
-- The calls of metric_registry.cpp against the directory that the registry stands for.
use Prim.Native.String.{◌++◌}
use cppmetrics.Prelude.{ℕ, ◌≡◌, refl, ap, ◌∙◌, true, false, none, some, length, String, ℤ}
use cppmetrics.Outcome.{returns, throws, invalid_argument}
use cppmetrics.Double.{Double}
use cppmetrics.Random.{Rng}
use cppmetrics.Table.{find, insert_new}
use cppmetrics.Histogram.{histogram}
use cppmetrics.Timer.{timer}
use cppmetrics.Registry.{
  MetricType, gauge_type, counter_type, histogram_type, meter_type, timer_type, same_type, Metric,
  type_of, MetricRegistry, add_metric, add_gauge, a_gauge, remove_metric, build_metric, get_or_add,
  allocate,
}
use cppmetrics.Registry.Directory.{
  Directory, entry, present, index_refl, Shows, removed, added, extended, extended-Shows,
}
use cppmetrics.Registry.Removal.{reduced-Shows}

-- What `addMetric` says of a name that is taken.
abbrev pub taken_message : String → String
taken_message name = name ++ " already exists as a different metric."

module _ {R W : Type 0} where
  add_metric_free :
      (r : MetricRegistry R W) (dir : Directory) (name : String) (t : MetricType) (m : Metric R W)
      → Shows r dir
      → dir name ≡ none
      → add_metric (allocate m r).1 t name (length r.heap) ≡ returns (true, extended r name t m)
  unfolding add_metric
  add_metric_free r dir name t m s free =
      let unnamed : find name r.metric_names ≡ none = s.names name ∙ ap present free in
      let absent : find name (r.metric_sets t) ≡ none = s.sets t name ∙ ap (entry t) free in
      rw
        (
          unnamed,
          insert_new name tt r.metric_names unnamed,
          insert_new name (length r.heap) (r.metric_sets t) absent,
        )
        refl

  add_metric_taken :
      (r : MetricRegistry R W) (dir : Directory) (name : String) (t : MetricType) (m : Metric R W)
      (e : MetricType × ℕ)
      → Shows r dir
      → dir name ≡ some e
      → add_metric (allocate m r).1 t name (length r.heap)
        ≡ throws (invalid_argument (taken_message name))
  unfolding add_metric
  add_metric_taken r dir name t m e s taken =
      let named : find name r.metric_names ≡ some tt = s.names name ∙ ap present taken in
      rw named refl

  pub add_gauge_free :
      (r : MetricRegistry R W) (dir : Directory) (name : String) (value : ℤ)
      → Shows r dir
      → dir name ≡ none
      → add_gauge r name value ≡ returns (true, extended r name gauge_type (a_gauge value))
  unfolding add_gauge
  add_gauge_free r dir name value s free =
      add_metric_free r dir name gauge_type (a_gauge value) s free

  -- `addGauge` of a registry that stands for a directory: a free name gets the gauge, and the call
  -- returns true; for a name that is taken, by a gauge too, it throws `std::invalid_argument`.
  pub add_gauge-refines :
      (r : MetricRegistry R W) (dir : Directory) (name : String) (value : ℤ)
      → Shows r dir
      → (dir name ≡ none
          → (r' : MetricRegistry R W) × (add_gauge r name value ≡ returns (true, r'))
            × Shows r' (added dir name gauge_type (length r.heap)))
        × ((e : MetricType × ℕ)
            → dir name ≡ some e
            → add_gauge r name value ≡ throws (invalid_argument (taken_message name)))
  unfolding add_gauge
  add_gauge-refines r dir name value s = (
    λ free. (
      extended r name gauge_type (a_gauge value),
      add_gauge_free r dir name value s free,
      extended-Shows r dir name gauge_type (a_gauge value) s free refl,
    ),
    λ e taken. add_metric_taken r dir name gauge_type (a_gauge value) e s taken,
  )

  -- `removeMetric` of a registry that stands for a directory: a name that is not there leaves the
  -- registry as it was, and the call returns false; any other name is free afterwards, all other
  -- names are as before, and the call returns true.
  pub remove_metric-refines :
      (r : MetricRegistry R W) (dir : Directory) (name : String)
      → Shows r dir
      → (dir name ≡ none → remove_metric r name ≡ (false, r))
        × ((t : MetricType) (p : ℕ)
            → dir name ≡ some (t, p)
            → (r' : MetricRegistry R W) × (remove_metric r name ≡ (true, r'))
              × Shows r' (removed dir name))
  unfolding remove_metric
  remove_metric-refines r dir name s = (
    λ free.
        let unnamed : find name r.metric_names ≡ none = s.names name ∙ ap present free in
        rw (remove_metric, unnamed) refl,
    λ t p taken.
        let named : find name r.metric_names ≡ some tt = s.names name ∙ ap present taken in
        (_, rw (remove_metric, named) refl, reduced-Shows r dir name t p s taken),
  )

module _ {R W : Type 0} ⦃d : Double W⦄ (g : Rng R W) where
  -- What the constructor makes of each class has the type.
  build_metric-type_of :
      (t : MetricType) (now : ℤ) (millis : ℕ)
      → same_type gauge_type t ≡ false
      → (m : Metric R W) × (build_metric g t now millis ≡ returns m) × (type_of m ≡ t)
  unfolding build_metric histogram timer
  build_metric-type_of gauge_type now millis h = cc
  build_metric-type_of counter_type now millis h = (_, refl, refl)
  build_metric-type_of histogram_type now millis h = (_, refl, refl)
  build_metric-type_of meter_type now millis h = (_, refl, refl)
  build_metric-type_of timer_type now millis h = (_, refl, refl)

  pub get_or_add_free :
      (r : MetricRegistry R W) (dir : Directory) (t : MetricType) (name : String) (now : ℤ)
      (millis : ℕ)
      → same_type gauge_type t ≡ false
      → Shows r dir
      → dir name ≡ none
      → (m : Metric R W) × (type_of m ≡ t)
        × (get_or_add g r t name now millis ≡ returns (length r.heap, extended r name t m))
  unfolding get_or_add
  get_or_add_free r dir t name now millis h s free =
      let (m, built, of_type) = build_metric-type_of t now millis h in
      let absent : find name (r.metric_sets t) ≡ none = s.sets t name ∙ ap (entry t) free in
      (m, of_type, rw (get_or_add, absent, built) (rw (add_metric_free r dir name t m s free) refl))

  -- `counter`, `histogram`, `meter` and `timer` of a registry that stands for a directory: a free name
  -- gets a new metric of the class, whose pointer is returned; a name that has a metric of the class
  -- gives the pointer of that one, and the registry is as it was; a name that has a metric of another
  -- class makes the call throw `std::invalid_argument`.
  pub get_or_add-refines :
      (r : MetricRegistry R W) (dir : Directory) (t : MetricType) (name : String) (now : ℤ)
      (millis : ℕ)
      → same_type gauge_type t ≡ false
      → Shows r dir
      → (dir name ≡ none
          → (r' : MetricRegistry R W) × (get_or_add g r t name now millis
              ≡ returns (length r.heap, r'))
            × Shows r' (added dir name t (length r.heap)))
        × ((p : ℕ) → dir name ≡ some (t, p) → get_or_add g r t name now millis ≡ returns (p, r))
        × ((u : MetricType) (p : ℕ)
            → dir name ≡ some (u, p)
            → same_type u t ≡ false
            → get_or_add g r t name now millis ≡ throws (invalid_argument (taken_message name)))
  unfolding get_or_add
  get_or_add-refines r dir t name now millis h s =
      let (m, built, of_type) = build_metric-type_of t now millis h in
      (
        λ free.
            let (m, of_type, made) = get_or_add_free r dir t name now millis h s free in
            (extended r name t m, made, extended-Shows r dir name t m s free of_type),
        λ p taken.
            let found : find name (r.metric_sets t) ≡ some p =
              s.sets t name ∙ ap (entry t) taken ∙ rw (index_refl t) refl in
            rw (get_or_add, found) refl,
        λ u p taken other.
            let absent : find name (r.metric_sets t) ≡ none =
              s.sets t name ∙ ap (entry t) taken ∙ rw other refl in
            rw (get_or_add, absent, built)
              (rw (add_metric_taken r dir name t m (u, p) s taken) refl),
      )
