-- ===== src/Registry/Histories.antt =====
-- Any history of calls on a registry of metric_registry.cpp.
use cppmetrics.Prelude.{
  ℕ, ◌≡◌, refl, ap, sym, ◌∙◌, false, List, [], ◌∷◌, none, some, String, ℤ, Option-cases, inl, inr,
  subst, get_elem?, if◌then◌else◌, true,
}
use cppmetrics.Outcome.{Outcome, returns, throws, undefined, unfinished}
use cppmetrics.Double.{Double}
use cppmetrics.Random.{Rng}
use cppmetrics.Table.{find}
use cppmetrics.Registry.{
  MetricType, gauge_type, counter_type, histogram_type, meter_type, timer_type, same_type, Metric,
  type_of, MetricRegistry, metric_registry, add_gauge, remove_metric, get_or_add, count,
  get_metrics,
}
use cppmetrics.Registry.Directory.{Directory, entry, total, type_cases, index_refl, Shows}
use cppmetrics.Registry.Sharing.{
  IsInjective, none-IsInjective, added-IsInjective, removed-IsInjective, at_pointer,
  at_pointer-Shows,
}
use cppmetrics.Registry.Refinement.{add_gauge-refines, remove_metric-refines, get_or_add-refines}

-- A call that changes the registry, or calls on one of its metrics that leave another object of its
-- class behind the pointer.
pub data Request (R W : Type 0) : Type 0 where
  counters : String → ℤ → ℕ → Request R W
  histograms : String → ℤ → ℕ → Request R W
  meters : String → ℤ → ℕ → Request R W
  timers : String → ℤ → ℕ → Request R W
  gauges : String → ℤ → Request R W
  removes : String → Request R W
  changes : ℕ → Metric R W → Request R W

-- The registry after a call, whose caller catches what it throws.
abbrev pub settle {ℓ} : {A B : Type ℓ} → B → Outcome (A × B) → B
settle r (returns (a, r')) = r'
settle r (throws e) = r
settle r undefined = r
settle r unfinished = r

module _ {R W : Type 0} where
  -- It stands for a directory in which no two names share an object.
  abbrev pub IsShown : MetricRegistry R W → Type 0
  IsShown r = (dir : Directory) × Shows r dir × IsInjective dir

  pub new-Shows : Shows (metric_registry {R = R} {W = W}) (λ name. none)
  unfolding metric_registry find
  new-Shows = record {
    sets = λ t name. refl;
    names = λ name. refl;
    sets_keyed = λ t. tt;
    names_keyed = tt;
    counted = refl;
    typed = λ name t p e. cc;
  }

  gauges-IsShown :
      (r : MetricRegistry R W) (name : String) (value : ℤ)
      → IsShown r
      → IsShown (settle r (add_gauge r name value))
  gauges-IsShown r name value (dir, s, i) =
      let (free_case, taken_case) = add_gauge-refines r dir name value s in
      elim (Option-cases (dir name)) [
        | inl free ↦
            let (r', e, s') = free_case free in
            rw e (_, s', added-IsInjective r dir name gauge_type s i)
        | inr (x, taken) ↦ rw (taken_case x taken) (dir, s, i)
      ]

  removes-IsShown :
      (r : MetricRegistry R W) (name : String) → IsShown r → IsShown (remove_metric r name).1
  removes-IsShown r name (dir, s, i) =
      let (free_case, taken_case) = remove_metric-refines r dir name s in
      elim (Option-cases (dir name)) [
        | inl free ↦ rw (free_case free) (dir, s, i)
        | inr ((t, p), taken) ↦
            let (r', e, s') = taken_case t p taken in rw e (_, s', removed-IsInjective dir name i)
      ]

  -- Where a pointer has an object of the class.
  unfoldable pub change : MetricRegistry R W → ℕ → Metric R W → MetricRegistry R W
  change r p m' = elim (get_elem? r.heap p) [
    | none ↦ r
    | some m ↦ if same_type (type_of m') (type_of m) then at_pointer r p m' else r
  ]

  changes-IsShown :
      (r : MetricRegistry R W) (p : ℕ) (m : Metric R W) → IsShown r → IsShown (change r p m)
  unfolding change
  changes-IsShown r p m' (dir, s, i) = elim (Option-cases (get_elem? r.heap p)) [
    | inl gone ↦ rw (change, gone) (dir, s, i)
    | inr (m, at) ↦ elim (type_cases (type_of m') (type_of m)) [
      | inl same ↦
          let tested : same_type (type_of m') (type_of m) ≡ true =
            subst (λ t. same_type t (type_of m) ≡ true) (sym same) (index_refl (type_of m)) in
          rw (change, at) (rw tested (dir, at_pointer-Shows r dir p m m' s at same, i))
      | inr other ↦ rw (change, at) (rw other (dir, s, i))
    ]
  ]

  -- What a map shows is in the directory.
  pub shown_in :
      (r : MetricRegistry R W) (dir : Directory) (t : MetricType) (name : String) (p : ℕ)
      → Shows r dir
      → find name (r.metric_sets t) ≡ some p
      → dir name ≡ some (t, p)
  shown_in r dir t name p s found = elim (Option-cases (dir name)) [
    | inl free ↦ let gone : none ≡ some p = sym (s.sets t name ∙ ap (entry t) free) ∙ found in cc
    | inr ((u, q), taken) ↦
        let shown : entry t (some (u, q)) ≡ some p =
          sym (s.sets t name ∙ ap (entry t) taken) ∙ found in
        elim (type_cases u t) [
          | inl same ↦
              let self : entry t (some (t, q)) ≡ some q = rw (index_refl t) refl in
              let moved = subst (λ x. entry t (some (x, q)) ≡ some p) same shown in cc
          | inr other ↦ let gone : none ≡ some p = rw other at shown in cc
        ]
  ]

module _ {R W : Type 0} ⦃d : Double W⦄ (g : Rng R W) where
  asks-IsShown :
      (r : MetricRegistry R W) (t : MetricType) (name : String) (now : ℤ) (millis : ℕ)
      → same_type gauge_type t ≡ false
      → IsShown r
      → IsShown (settle r (get_or_add g r t name now millis))
  asks-IsShown r t name now millis h (dir, s, i) =
      let (free_case, same_case, other_case) = get_or_add-refines g r dir t name now millis h s in
      elim (Option-cases (dir name)) [
        | inl free ↦
            let (r', e, s') = free_case free in rw e (_, s', added-IsInjective r dir name t s i)
        | inr ((u, p), taken) ↦ elim (type_cases u t) [
          | inl same ↦ rw (same_case p (taken ∙ ap (λ u. some (u, p)) same)) (dir, s, i)
          | inr other ↦ rw (other_case u p taken other) (dir, s, i)
        ]
      ]

  unfoldable pub step : MetricRegistry R W → Request R W → MetricRegistry R W
  unfolding change
  step r (counters name now millis) = settle r (get_or_add g r counter_type name now millis)
  step r (histograms name now millis) = settle r (get_or_add g r histogram_type name now millis)
  step r (meters name now millis) = settle r (get_or_add g r meter_type name now millis)
  step r (timers name now millis) = settle r (get_or_add g r timer_type name now millis)
  step r (gauges name value) = settle r (add_gauge r name value)
  step r (removes name) = (remove_metric r name).1
  step r (changes p m) = change r p m

  step-IsShown : (r : MetricRegistry R W) (q : Request R W) → IsShown r → IsShown (step r q)
  unfolding step
  step-IsShown r (counters name now millis) = asks-IsShown r counter_type name now millis refl
  step-IsShown r (histograms name now millis) = asks-IsShown r histogram_type name now millis refl
  step-IsShown r (meters name now millis) = asks-IsShown r meter_type name now millis refl
  step-IsShown r (timers name now millis) = asks-IsShown r timer_type name now millis refl
  step-IsShown r (gauges name value) = gauges-IsShown r name value
  step-IsShown r (removes name) = removes-IsShown r name
  step-IsShown r (changes p m) = changes-IsShown r p m

  unfoldable pub run : MetricRegistry R W → List (Request R W) → MetricRegistry R W
  unfolding step
  run r [] = r
  run r (q ∷ qs) = run (step r q) qs

  run-IsShown : (r : MetricRegistry R W) (qs : List (Request R W)) → IsShown r → IsShown (run r qs)
  unfolding run
  run-IsShown r [] s = s
  run-IsShown r (q ∷ qs) s = run-IsShown (step r q) qs (step-IsShown r q s)

  pub run_new-IsShown : (qs : List (Request R W)) → IsShown (run metric_registry qs)
  run_new-IsShown qs = run-IsShown metric_registry qs ((λ name. none), new-Shows, none-IsInjective)

  -- After any calls on a new registry, those that throw included: `count` is the number of metrics
  -- in the five maps together; no name is in two of them; and the object behind each pointer is of
  -- the class that the static cast of its map takes it for.
  pub run-IsSafe :
      (qs : List (Request R W))
      → let r = run metric_registry qs in
        (count r ≡ total r.metric_sets)
        × ((t u : MetricType) (name : String) (p q : ℕ)
            → find name (get_metrics r t) ≡ some p
            → find name (get_metrics r u) ≡ some q
            → t ≡ u)
        × ((t : MetricType) (name : String) (p : ℕ)
            → find name (get_metrics r t) ≡ some p
            → (m : Metric R W) × (get_elem? r.heap p ≡ some m) × (type_of m ≡ t))
  unfolding count get_metrics
  run-IsSafe qs =
      let r = run metric_registry qs in
      let (dir, s, i) = run_new-IsShown qs in
      (
        s.counted,
        λ t u name p q one other.
            let pair = sym (shown_in r dir t name p s one) ∙ shown_in r dir u name q s other in cc,
        λ t name p found. s.typed name t p (shown_in r dir t name p s found),
      )
