-- ===== src/Registry/Simulation.antt =====
-- The registry of metric_registry.cpp against the catalog, call by call and for whole programs.
use cppmetrics.Prelude.{
  ℕ, ◌≡◌, refl, ap, sym, ◌∙◌, subst, fun_ext, Bool, false, List, [], ◌∷◌, none, some, length,
  String, ℤ, arith, Option-cases, inl, inr, length-append, get_elem?-append_end, ap₂,
}
use cppmetrics.Outcome.{returns}
use cppmetrics.Double.{Double}
use cppmetrics.Random.{Rng}
use cppmetrics.Table.{find, erase, find-erase}
use cppmetrics.OrderedMap.{find-put, find-ext, IsAscending, put-IsAscending, erase-IsAscending}
use cppmetrics.Registry.{
  MetricType, gauge_type, counter_type, histogram_type, meter_type, timer_type, same_type, Metric,
  type_of, a_gauge, MetricRegistry, metric_registry, add_gauge, remove_metric, count,
}
use cppmetrics.Registry.Directory.{
  Directory, type_cases, index_refl, Shows, added, removed, extended, extended-Shows,
}
use cppmetrics.Registry.Refinement.{
  add_gauge_free, add_gauge-refines, remove_metric-refines, get_or_add_free, get_or_add-refines,
}
use cppmetrics.Registry.Histories.{new-Shows}
use cppmetrics.Registry.Calls.{
  get_map, get_or_add_cast, counter, histogram, meter, timer, get_counters, get_histograms,
  get_meters, get_timers, get_gauges,
}
use cppmetrics.Registry.Maps.{cast_lem, get_map-Lists}
use cppmetrics.Registry.Interface.{
  metric_registry_class, Call, Reply, settled, a_pointer, a_truth, a_number, call, replies,
  adds_gauge, removes, asks_counter, asks_histogram, asks_meter, asks_timer, lists_counters,
  lists_histograms, lists_meters, lists_timers, lists_gauges, counts,
}
use cppmetrics.Registry.Catalog.{
  Catalog, catalog, entered, enter_gauge, look_up, strike, only, only-IsAscending, find-only,
  length-only,
}

abbrev directory_of : Catalog → Directory
directory_of c name = find name c.entries

module _ {R W : Type 0} where
  -- The registry and the catalog hold the same metrics under the same pointers.
  record Stands (r : MetricRegistry R W) (c : Catalog) : Type 0 where
    shows : Shows r (directory_of c)
    ascending : IsAscending c.entries
    next : c.next_pointer ≡ length r.heap

  get_map-only :
      (r : MetricRegistry R W) (c : Catalog) (t : MetricType)
      → Stands r c
      → (get_map r t ≡ returns (only t c.entries))
        × (length (r.metric_sets t) ≡ length (only t c.entries))
  get_map-only r c t s =
      let (m, e, l) = get_map-Lists r (directory_of c) t s.shows in
      let same : m ≡ only t c.entries =
        find-ext m (only t c.entries) l.ascending (only-IsAscending t c.entries s.ascending)
          (λ name. l.found name ∙ sym (find-only t name c.entries s.ascending)) in
      (e ∙ ap returns same, sym l.sized ∙ ap length same)

  count_lem : (r : MetricRegistry R W) (c : Catalog) → Stands r c → count r ≡ length c.entries
  unfolding count
  count_lem r c s = omega (
    arith,
    s.shows.counted,
    length-only c.entries,
    (get_map-only r c gauge_type s).1,
    (get_map-only r c counter_type s).1,
    (get_map-only r c histogram_type s).1,
    (get_map-only r c meter_type s).1,
    (get_map-only r c timer_type s).1,
  )

  entered-Stands :
      (r : MetricRegistry R W) (c : Catalog) (t : MetricType) (name : String) (m : Metric R W)
      → Stands r c
      → find name c.entries ≡ none
      → type_of m ≡ t
      → Stands (extended r name t m) (entered c t name)
  entered-Stands r c t name m s free of_type =
      let same : added (directory_of c) name t (length r.heap) ≡ directory_of (entered c t name) =
        fun_ext (λ j. sym (rw (find-put name j (t, c.next_pointer) c.entries, s.next) refl)) in
      record {
        shows =
            subst (Shows (extended r name t m)) same
              (extended-Shows r (directory_of c) name t m s.shows free of_type);
        ascending = put-IsAscending name (t, c.next_pointer) c.entries s.ascending;
        next = omega (arith, s.next, length-append r.heap (m ∷ []));
      }

  -- The same reply, and states that stand for each other.
  abbrev Agrees : Reply × MetricRegistry R W → Reply × Catalog → Type 0
  Agrees (x, r) (y, c) = (x ≡ y) × Stands r c

  adds_gauge-Agrees :
      (r : MetricRegistry R W) (c : Catalog) (name : String) (value : ℤ)
      → Stands r c
      → Agrees
          (settled a_truth r (add_gauge r name value))
          (settled a_truth c (enter_gauge c name value))
  adds_gauge-Agrees r c name value s = elim (Option-cases (find name c.entries)) [
    | inl free ↦
        rw (add_gauge_free r (directory_of c) name value s.shows free, enter_gauge, free)
          (refl, entered-Stands r c gauge_type name (a_gauge value) s free refl)
    | inr (e, taken) ↦
        rw ((add_gauge-refines r (directory_of c) name value s.shows).1 e taken, enter_gauge, taken)
          (refl, s)
  ]

  remove_metric-heap :
      (r : MetricRegistry R W) (name : String) → (remove_metric r name).1.heap ≡ r.heap
  unfolding remove_metric
  remove_metric-heap r name = elim (Option-cases (find name r.metric_names)) [
    | inl free ↦ rw (remove_metric, free) refl
    | inr (e, taken) ↦ rw (remove_metric, taken) refl
  ]

  removes-Agrees :
      (r : MetricRegistry R W) (c : Catalog) (name : String)
      → Stands r c
      → Agrees
          (a_truth (remove_metric r name).0, (remove_metric r name).1)
          (a_truth (strike c name).0, (strike c name).1)
  removes-Agrees r c name s =
      let (free_case, taken_case) = remove_metric-refines r (directory_of c) name s.shows in
      elim (Option-cases (find name c.entries)) [
        | inl free ↦ rw (free_case free, strike, free) (refl, s)
        | inr ((t, p), taken) ↦
            let (r', e, s') = taken_case t p taken in
            let same : removed (directory_of c) name ≡ (λ j. find j (erase name c.entries)) =
              fun_ext (λ j. sym (find-erase name j c.entries)) in
            rw (e, strike, taken)
              (
                refl,
                record {
                  shows = subst (Shows r') same s';
                  ascending = erase-IsAscending name c.entries s.ascending;
                  next =
                      s.next
                      ∙ ap length (
                          sym (remove_metric-heap r name)
                          ∙ ap (λ (x : Bool × MetricRegistry R W). x.1.heap) e);
                },
              )
      ]

module _ {R W : Type 0} ⦃d : Double W⦄ (g : Rng R W) where
  asks-Agrees :
      (r : MetricRegistry R W) (c : Catalog) (t : MetricType) (name : String) (now : ℤ) (millis : ℕ)
      → same_type gauge_type t ≡ false
      → Stands r c
      → Agrees
          (settled a_pointer r (get_or_add_cast g r t name now millis))
          (settled a_pointer c (look_up t c name now millis))
  unfolding get_or_add_cast
  asks-Agrees r c t name now millis h s =
      let dir = directory_of c in
      let (free_case, same_case, other_case) =
        get_or_add-refines g r dir t name now millis h s.shows in
      elim (Option-cases (find name c.entries)) [
        | inl free ↦
            let (m, of_type, made) = get_or_add_free g r dir t name now millis h s.shows free in
            let cast =
              cast_lem (extended r name t m) t (length r.heap) m (get_elem?-append_end r.heap m)
                of_type in
            rw (get_or_add_cast, made)
              (rw (cast, look_up, free)
                (ap a_pointer (sym s.next), entered-Stands r c t name m s free of_type))
        | inr ((u, p), taken) ↦ elim (type_cases u t) [
          | inl same ↦
              let here : find name c.entries ≡ some (t, p) = taken ∙ ap (λ u. some (u, p)) same in
              let (m, at, of_type) = s.shows.typed name t p here in
              rw (get_or_add_cast, same_case p here)
                (rw (cast_lem r t p m at of_type, look_up, here, index_refl t) (refl, s))
          | inr other ↦
              rw (get_or_add_cast, other_case u p taken other, look_up, taken, other) (refl, s)
        ]
      ]

  start-Stands : Stands (metric_registry_class {R = R} {W = W} g).create catalog.create
  unfolding metric_registry_class catalog metric_registry find
  start-Stands = record { shows = new-Shows; ascending = tt; next = refl }

  call-Agrees :
      (r : MetricRegistry R W) (c : Catalog) (q : Call)
      → Stands r c
      → Agrees (call (metric_registry_class g) r q) (call catalog c q)
  unfolding call metric_registry_class catalog counter histogram meter timer get_counters
      get_histograms get_meters get_timers get_gauges
  call-Agrees r c (adds_gauge name value) s = adds_gauge-Agrees r c name value s
  call-Agrees r c (removes name) s = removes-Agrees r c name s
  call-Agrees r c (asks_counter name now millis) s =
      asks-Agrees r c counter_type name now millis refl s
  call-Agrees r c (asks_histogram name now millis) s =
      asks-Agrees r c histogram_type name now millis refl s
  call-Agrees r c (asks_meter name now millis) s = asks-Agrees r c meter_type name now millis refl s
  call-Agrees r c (asks_timer name now millis) s = asks-Agrees r c timer_type name now millis refl s
  call-Agrees r c lists_counters s = rw (get_map-only r c counter_type s).0 (refl, s)
  call-Agrees r c lists_histograms s = rw (get_map-only r c histogram_type s).0 (refl, s)
  call-Agrees r c lists_meters s = rw (get_map-only r c meter_type s).0 (refl, s)
  call-Agrees r c lists_timers s = rw (get_map-only r c timer_type s).0 (refl, s)
  call-Agrees r c lists_gauges s = rw (get_map-only r c gauge_type s).0 (refl, s)
  call-Agrees r c counts s = (ap a_number (count_lem r c s), s)

  replies-same :
      (r : MetricRegistry R W) (c : Catalog) (qs : List Call)
      → Stands r c
      → replies (metric_registry_class g) r qs ≡ replies catalog c qs
  unfolding replies
  replies-same r c [] s = refl
  replies-same r c (q ∷ qs) s =
      let (same, s') = call-Agrees r c q s in
      ap₂ (λ x xs. x ∷ xs) same
        (replies-same (call (metric_registry_class g) r q).1 (call catalog c q).1 qs s')

  -- A program that makes any calls of the class on a new registry, queries and calls that throw
  -- included, sees exactly the replies that the catalog gives: one map from names to metrics, whose
  -- count is its length and whose metrics of one type are listed by name. No call crashes, so no
  -- pointer is cast to a class that its object is not of.
  pub replies-refine :
      (qs : List Call)
      → let c = metric_registry_class {R = R} {W = W} g in
        replies c c.create qs ≡ replies catalog catalog.create qs
  replies-refine qs = replies-same (metric_registry_class g).create catalog.create qs start-Stands
