-- ===== src/Registry/Restores.antt =====
-- A metric of metric_registry.cpp that is added and removed again.
use text.Mathlib.Text.{◌==◌}
use text.Mathlib.TextEquality.{eq_iff}
use cppmetrics.Prelude.{
  ℕ, ◌≡◌, refl, ap, sym, ◌∙◌, subst, fun_ext, true, false, none, length, String, ℤ, arith,
  Bool-cases, inl, inr,
}
use cppmetrics.Outcome.{returns}
use cppmetrics.Double.{Double}
use cppmetrics.Random.{Rng}
use cppmetrics.OrderedMap.{find-ext}
use cppmetrics.Registry.{
  MetricType, gauge_type, counter_type, histogram_type, meter_type, timer_type, same_type, Metric,
  type_of, a_gauge, MetricRegistry, add_gauge, remove_metric, get_or_add, count,
}
use cppmetrics.Registry.Directory.{Directory, Shows, added, removed, extended, extended-Shows}
use cppmetrics.Registry.Refinement.{add_gauge_free, remove_metric-refines, get_or_add_free}
use cppmetrics.Registry.Calls.{get_map}
use cppmetrics.Registry.Maps.{get_map-Lists}

removed-added :
    (dir : Directory) (name : String) (t : MetricType) (p : ℕ)
    → dir name ≡ none
    → removed (added dir name t p) name ≡ dir
removed-added dir name t p free = fun_ext (λ j. elim (Bool-cases (name == j)) [
  | inl here ↦ rw here (sym free ∙ ap dir ((eq_iff name j).0 here))
  | inr apart ↦ rw apart refl
])

module _ {R W : Type 0} where
  -- All that the getters and `count` tell of two registries is the same.
  pub record LooksAs (r r' : MetricRegistry R W) : Type 0 where
    pub maps : (t : MetricType) → get_map r t ≡ get_map r' t
    pub counts : count r ≡ count r'

  same_map :
      (r r' : MetricRegistry R W) (dir : Directory) (t : MetricType)
      → Shows r dir
      → Shows r' dir
      → (get_map r t ≡ get_map r' t) × (length (r.metric_sets t) ≡ length (r'.metric_sets t))
  same_map r r' dir t s s' =
      let (m, e, l) = get_map-Lists r dir t s in
      let (m', e', l') = get_map-Lists r' dir t s' in
      let same : m ≡ m' =
        find-ext m m' l.ascending l'.ascending (λ name. l.found name ∙ sym (l'.found name)) in
      (e ∙ ap returns same ∙ sym e', sym l.sized ∙ ap length same ∙ l'.sized)

  Shows-LooksAs :
      (r r' : MetricRegistry R W) (dir : Directory) → Shows r dir → Shows r' dir → LooksAs r r'
  unfolding count
  Shows-LooksAs r r' dir s s' =
      let sized : (t : MetricType) → length (r.metric_sets t) ≡ length (r'.metric_sets t) =
        λ t. (same_map r r' dir t s s').1 in
      record {
        maps = λ t. (same_map r r' dir t s s').0;
        counts = omega (
          arith,
          s.counted,
          s'.counted,
          sized gauge_type,
          sized counter_type,
          sized histogram_type,
          sized meter_type,
          sized timer_type,
        );
      }

  restored :
      (r : MetricRegistry R W) (dir : Directory) (name : String) (t : MetricType) (m : Metric R W)
      → Shows r dir
      → dir name ≡ none
      → type_of m ≡ t
      → (r' : MetricRegistry R W) × (remove_metric (extended r name t m) name ≡ (true, r'))
        × LooksAs r' r
  restored r dir name t m s free of_type =
      let s' = extended-Shows r dir name t m s free of_type in
      let p = length r.heap in
      let (r', e, s'') =
        (remove_metric-refines (extended r name t m) (added dir name t p) name s').1 t p
          (rw ((eq_iff name name).1 refl) refl) in
      let back = subst (Shows r') (removed-added dir name t p free) s'' in
      (r', e, Shows-LooksAs r' r dir back s)

  -- A gauge added under a free name and removed: both calls return true, and the five getters and
  -- `count` tell what they told before.
  pub add_gauge-remove_metric :
      (r : MetricRegistry R W) (dir : Directory) (name : String) (value : ℤ)
      → Shows r dir
      → dir name ≡ none
      → (r' r'' : MetricRegistry R W) × (add_gauge r name value ≡ returns (true, r'))
        × (remove_metric r' name ≡ (true, r''))
        × LooksAs r'' r
  add_gauge-remove_metric r dir name value s free =
      let (r'', e, same) = restored r dir name gauge_type (a_gauge value) s free refl in
      (_, r'', add_gauge_free r dir name value s free, e, same)

module _ {R W : Type 0} ⦃d : Double W⦄ (g : Rng R W) where
  -- A counter, a histogram, a meter or a timer made under a free name and removed: the getters and
  -- `count` tell what they told before.
  pub get_or_add-remove_metric :
      (r : MetricRegistry R W) (dir : Directory) (t : MetricType) (name : String) (now : ℤ)
      (millis : ℕ)
      → same_type gauge_type t ≡ false
      → Shows r dir
      → dir name ≡ none
      → (p : ℕ) × (r' r'' : MetricRegistry R W) × (get_or_add g r t name now millis
          ≡ returns (p, r'))
        × (remove_metric r' name ≡ (true, r''))
        × LooksAs r'' r
  get_or_add-remove_metric r dir t name now millis h s free =
      let (m, of_type, made) = get_or_add_free g r dir t name now millis h s free in
      let (r'', e, same) = restored r dir name t m s free of_type in
      (length r.heap, _, r'', made, e, same)
