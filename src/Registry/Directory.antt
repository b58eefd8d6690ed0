-- ===== src/Registry/Directory.antt =====
-- The contract of the registry: a directory with at most one metric for each name, of one type.
use text.Mathlib.Text.{◌==◌}
use text.Mathlib.TextEquality.{eq_iff}
use cppmetrics.Prelude.{
  ℕ, zero, suc, ◌+◌, ◌≡◌, refl, ap, sym, ◌∙◌, Bool, true, false, List, [], ◌∷◌, ◌++◌, Option, none,
  some, length, String, if◌then◌else◌, arith, Bool-cases, inl, inr, get_elem?, get_elem?-append,
  get_elem?-append_end, ◌⊎◌, subst,
}
use cppmetrics.Prelude
use cppmetrics.Table.{find, IsKeyed, find-cons}
use cppmetrics.Registry.{
  MetricType, gauge_type, counter_type, histogram_type, meter_type, timer_type, index, same_type,
  Metric, type_of, MetricSets, MetricRegistry, put_set,
}

abbrev pub Directory : Type 0
Directory = String → Option (MetricType × ℕ)

-- The entry of a name, if it is of the type.
abbrev pub entry : MetricType → Option (MetricType × ℕ) → Option ℕ
entry t none = none
entry t (some (u, p)) = if same_type u t then some p else none

abbrev pub present : Option (MetricType × ℕ) → Option (Unit {0})
present none = none
present (some e) = some tt

abbrev pub total : MetricSets → ℕ
total sets =
    length (sets gauge_type)
    + length (sets counter_type)
    + length (sets histogram_type)
    + length (sets meter_type)
    + length (sets timer_type)

of_index : ℕ → MetricType
of_index zero = gauge_type
of_index (suc zero) = counter_type
of_index (suc (suc zero)) = histogram_type
of_index (suc (suc (suc zero))) = meter_type
of_index (suc (suc (suc (suc n)))) = timer_type

of_index-index : (t : MetricType) → of_index (index t) ≡ t
unfolding of_index
of_index-index gauge_type = refl
of_index-index counter_type = refl
of_index-index histogram_type = refl
of_index-index meter_type = refl
of_index-index timer_type = refl

same_index : (m n : ℕ) → Prelude.◌==◌ m n ≡ true → m ≡ n
same_index m n h = ground arith

-- Either the same type, or one that the test tells apart.
pub type_cases : (t u : MetricType) → (t ≡ u) ⊎ (same_type t u ≡ false)
type_cases t u = elim (Bool-cases (same_type t u)) [
  | inl same ↦ inl (
      sym (of_index-index t) ∙ ap of_index (same_index (index t) (index u) same) ∙ of_index-index u)
  | inr other ↦ inr other
]

pub index_refl : (t : MetricType) → same_type t t ≡ true
index_refl gauge_type = refl
index_refl counter_type = refl
index_refl histogram_type = refl
index_refl meter_type = refl
index_refl timer_type = refl

abbrev pub added : Directory → String → MetricType → ℕ → Directory
added dir name t p j = if name == j then some (t, p) else dir j

abbrev pub removed : Directory → String → Directory
removed dir name j = if name == j then none else dir j

total_extended :
    (sets : MetricSets) (t : MetricType) (e : String × ℕ)
    → total (put_set t (e ∷ sets t) sets) ≡ total sets + 1
total_extended sets gauge_type e = omega arith
total_extended sets counter_type e = omega arith
total_extended sets histogram_type e = omega arith
total_extended sets meter_type e = omega arith
total_extended sets timer_type e = omega arith

entry_other :
    (dir : Directory) (name : String) (t u : MetricType) (p : ℕ) (j : String)
    → same_type t u ≡ false
    → dir name ≡ none
    → entry u (dir j) ≡ entry u (added dir name t p j)
entry_other dir name t u p j other new = elim (Bool-cases (name == j)) [
  | inl same ↦
      let moved : dir j ≡ none = ap dir (sym ((eq_iff name j).0 same)) ∙ new in
      rw (same, moved, other) refl
  | inr apart ↦ rw apart refl
]

module _ {R W : Type 0} where
  -- The registry implements the directory: its maps and its names hold the directory's entries, each
  -- once, and the object behind a pointer is of the type that the pointer is cast to.
  pub record Shows (r : MetricRegistry R W) (dir : Directory) : Type 0 where
    pub sets : (t : MetricType) (name : String) → find name (r.metric_sets t) ≡ entry t (dir name)
    pub names : (name : String) → find name r.metric_names ≡ present (dir name)
    pub sets_keyed : (t : MetricType) → IsKeyed (r.metric_sets t)
    pub names_keyed : IsKeyed r.metric_names
    pub counted : length r.metric_names ≡ total r.metric_sets
    pub typed :
        (name : String) (t : MetricType) (p : ℕ)
        → dir name ≡ some (t, p)
        → (m : Metric R W) × (get_elem? r.heap p ≡ some m) × (type_of m ≡ t)

  -- The registry with a new object under a name.
  abbrev pub extended : MetricRegistry R W → String → MetricType → Metric R W → MetricRegistry R W
  extended r name t m = record {
    metric_sets = put_set t ((name, length r.heap) ∷ r.metric_sets t) r.metric_sets;
    metric_names = (name, tt) ∷ r.metric_names;
    heap = r.heap ++ m ∷ [];
  }

  extended_sets :
      (r : MetricRegistry R W) (dir : Directory) (name : String) (t : MetricType) (m : Metric R W)
      → Shows r dir
      → dir name ≡ none
      → (u : MetricType) (j : String)
      → find j ((extended r name t m).metric_sets u) ≡ entry u (added dir name t (length r.heap) j)
  extended_sets r dir name t m s new u j =
      let here = find-cons name j (length r.heap) (r.metric_sets t) in
      let there = s.sets u j in
      elim (type_cases t u) [
        | inl same ↦
            subst
              (λ u.
                find j ((extended r name t m).metric_sets u)
                ≡ entry u (added dir name t (length r.heap) j))
              same (rw (index_refl t, here, s.sets t j) (ground (arith, index_refl t)))
        | inr other ↦ rw (other, s.sets u j) (entry_other dir name t u (length r.heap) j other new)
      ]

  extended_typed :
      (r : MetricRegistry R W) (dir : Directory) (name : String) (t : MetricType) (m : Metric R W)
      → Shows r dir
      → type_of m ≡ t
      → (j : String) (u : MetricType) (p : ℕ) → added dir name t (length r.heap) j ≡ some (u, p)
      → (x : Metric R W) × (get_elem? (r.heap ++ m ∷ []) p ≡ some x) × (type_of x ≡ u)
  extended_typed r dir name t m s of_type j u p e = elim (Bool-cases (name == j)) [
    | inl same ↦
        let pair : some (t, length r.heap) ≡ some (u, p) = rw same at e in
        let end = get_elem?-append_end r.heap m in
        (m, ground (arith, end, pair), ground (arith, of_type, pair))
    | inr apart ↦
        let old : dir j ≡ some (u, p) = rw apart at e in
        let (x, at, of_x) = s.typed j u p old in (x, get_elem?-append r.heap (m ∷ []) p x at, of_x)
  ]

  -- A new metric of a type under a name that is free.
  pub extended-Shows :
      (r : MetricRegistry R W) (dir : Directory) (name : String) (t : MetricType) (m : Metric R W)
      → Shows r dir
      → dir name ≡ none
      → type_of m ≡ t
      → Shows (extended r name t m) (added dir name t (length r.heap))
  extended-Shows r dir name t m s new of_type = record {
    sets = extended_sets r dir name t m s new;
    names = λ j. rw (find-cons name j tt r.metric_names, s.names j) (ground arith);
    sets_keyed = λ u. elim (type_cases t u) [
      | inl same ↦
          subst (λ u. IsKeyed ((extended r name t m).metric_sets u)) same
            (rw (index_refl t) (s.sets t name ∙ ap (entry t) new, s.sets_keyed t))
      | inr other ↦ rw other (s.sets_keyed u)
    ];
    names_keyed = (s.names name ∙ ap present new, s.names_keyed);
    counted = omega (arith, s.counted, total_extended r.metric_sets t (name, length r.heap));
    typed = extended_typed r dir name t m s of_type;
  }
