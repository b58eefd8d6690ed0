-- ===== src/Registry/Removal.antt =====
-- `removeMetric` of metric_registry.cpp.
use text.Mathlib.Text.{◌==◌}
use cppmetrics.Prelude.{
  ℕ, ◌+◌, ◌≡◌, refl, ap, sym, ◌∙◌, fun_ext, false, List, [], ◌∷◌, none, some, length, String,
  if◌then◌else◌, arith, Bool-cases, Option-cases, inl, inr, ◌⊎◌, subst,
}
use cppmetrics.Table.{find, erase, find-erase, erase-none, length-erase, erase-IsKeyed}
use cppmetrics.Registry.{
  MetricType, gauge_type, counter_type, histogram_type, meter_type, timer_type, same_type,
  MetricSets, MetricRegistry, erase_from, all_types,
}
use cppmetrics.Registry.Directory.{
  Directory, entry, present, total, type_cases, index_refl, Shows, removed,
}

abbrev Among : MetricType → List MetricType → Type 0
Among u [] = ⊥
Among u (t ∷ ts) = (t ≡ u) ⊎ Among u ts

Among-all_types : (u : MetricType) → Among u all_types
Among-all_types gauge_type = inl refl
Among-all_types counter_type = inr (inl refl)
Among-all_types histogram_type = inr (inr (inl refl))
Among-all_types meter_type = inr (inr (inr (inl refl)))
Among-all_types timer_type = inr (inr (inr (inr (inl refl))))

-- The name is in at most one of the maps.
abbrev IsApart : String → MetricSets → Type 0
IsApart name sets =
    (t u : MetricType) (p : ℕ)
    → find name (sets t) ≡ some p
    → same_type t u ≡ false
    → find name (sets u) ≡ none

still_among :
    (t u : MetricType) (ts : List MetricType) (name : String) (sets : MetricSets)
    → find name (sets t) ≡ none
    → Among u (t ∷ ts) ⊎ (find name (sets u) ≡ none)
    → Among u ts ⊎ (find name (sets u) ≡ none)
still_among t u ts name sets missing (inl (inl same)) =
    inr (subst (λ u. find name (sets u) ≡ none) same missing)
still_among t u ts name sets missing (inl (inr later)) = inl later
still_among t u ts name sets missing (inr none_there) = inr none_there

-- The loop takes the name out of each map, since it stops where the only one that has it is done.
erase_from_lem :
    (ts : List MetricType) (name : String) (sets : MetricSets) (u : MetricType)
    → IsApart name sets
    → Among u ts ⊎ (find name (sets u) ≡ none)
    → erase_from ts name sets u ≡ erase name (sets u)
unfolding erase_from
erase_from_lem [] name sets u apart (inl h) = absurd h
erase_from_lem [] name sets u apart (inr none_there) = sym (erase-none name (sets u) none_there)
erase_from_lem (t ∷ ts) name sets u apart h = elim (Option-cases (find name (sets t))) [
  | inl missing ↦
      rw (erase_from, missing)
        (erase_from_lem ts name sets u apart (still_among t u ts name sets missing h))
  | inr (p, found) ↦ elim (type_cases t u) [
    | inl same ↦
        subst (λ u. erase_from (t ∷ ts) name sets u ≡ erase name (sets u)) same
          (rw (erase_from, found, index_refl t) refl)
    | inr other ↦
        rw (erase_from, found, other) (sym (erase-none name (sets u) (apart t u p found other)))
  ]
]

abbrev erased : MetricSets → String → MetricSets
erased sets name u = erase name (sets u)

entry-removed :
    (dir : Directory) (name : String) (u : MetricType) (j : String)
    → (if name == j then none else entry u (dir j)) ≡ entry u (removed dir name j)
entry-removed dir name u j = elim (Bool-cases (name == j)) [
  | inl same ↦ rw same refl
  | inr apart ↦ rw apart refl
]

present_removed :
    (dir : Directory) (name j : String) (e : MetricType × ℕ)
    → removed dir name j ≡ some e
    → dir j ≡ some e
present_removed dir name j e h = elim (Bool-cases (name == j)) [
  | inl same ↦ let gone : none ≡ some e = rw same at h in cc
  | inr apart ↦ rw apart at h
]

module _ {R W : Type 0} where
  IsApart-of_Shows :
      (r : MetricRegistry R W) (dir : Directory) (name : String)
      → Shows r dir
      → IsApart name r.metric_sets
  IsApart-of_Shows r dir name s t u p found other = elim (Option-cases (dir name)) [
    | inl free ↦ s.sets u name ∙ ap (entry u) free
    | inr ((v, q), taken) ↦
        let shown : entry t (some (v, q)) ≡ some p =
          sym (s.sets t name ∙ ap (entry t) taken) ∙ found in
        elim (type_cases v t) [
          | inl same ↦
              s.sets u name
              ∙ ap (entry u) taken
              ∙ subst (λ x. entry u (some (x, q)) ≡ none) (sym same) (rw other refl)
          | inr wrong ↦ let gone : none ≡ some p = rw wrong at shown in cc
        ]
  ]

  -- One map has one element less.
  length-erased :
      (r : MetricRegistry R W) (dir : Directory) (name : String) (t : MetricType) (p : ℕ)
      (u : MetricType)
      → Shows r dir
      → dir name ≡ some (t, p)
      → length (r.metric_sets u)
        ≡ length (erase name (r.metric_sets u)) + (if same_type t u then 1 else 0)
  length-erased r dir name t p u s taken =
      let shown = s.sets u name ∙ ap (entry u) taken in
      elim (Bool-cases (same_type t u)) [
        | inl same ↦
            let found : find name (r.metric_sets u) ≡ some p = rw same at shown in
            rw same (omega (arith, length-erase name p (r.metric_sets u) (s.sets_keyed u) found))
        | inr other ↦
            let missing : find name (r.metric_sets u) ≡ none = rw other at shown in
            rw (other, erase-none name (r.metric_sets u) missing) (omega arith)
      ]

  total-erased :
      (r : MetricRegistry R W) (dir : Directory) (name : String) (t : MetricType) (p : ℕ)
      → Shows r dir
      → dir name ≡ some (t, p)
      → total r.metric_sets ≡ total (erased r.metric_sets name) + 1
  total-erased r dir name gauge_type p s taken = omega (
    arith,
    length-erased r dir name gauge_type p gauge_type s taken,
    length-erased r dir name gauge_type p counter_type s taken,
    length-erased r dir name gauge_type p histogram_type s taken,
    length-erased r dir name gauge_type p meter_type s taken,
    length-erased r dir name gauge_type p timer_type s taken,
  )
  total-erased r dir name counter_type p s taken = omega (
    arith,
    length-erased r dir name counter_type p gauge_type s taken,
    length-erased r dir name counter_type p counter_type s taken,
    length-erased r dir name counter_type p histogram_type s taken,
    length-erased r dir name counter_type p meter_type s taken,
    length-erased r dir name counter_type p timer_type s taken,
  )
  total-erased r dir name histogram_type p s taken = omega (
    arith,
    length-erased r dir name histogram_type p gauge_type s taken,
    length-erased r dir name histogram_type p counter_type s taken,
    length-erased r dir name histogram_type p histogram_type s taken,
    length-erased r dir name histogram_type p meter_type s taken,
    length-erased r dir name histogram_type p timer_type s taken,
  )
  total-erased r dir name meter_type p s taken = omega (
    arith,
    length-erased r dir name meter_type p gauge_type s taken,
    length-erased r dir name meter_type p counter_type s taken,
    length-erased r dir name meter_type p histogram_type s taken,
    length-erased r dir name meter_type p meter_type s taken,
    length-erased r dir name meter_type p timer_type s taken,
  )
  total-erased r dir name timer_type p s taken = omega (
    arith,
    length-erased r dir name timer_type p gauge_type s taken,
    length-erased r dir name timer_type p counter_type s taken,
    length-erased r dir name timer_type p histogram_type s taken,
    length-erased r dir name timer_type p meter_type s taken,
    length-erased r dir name timer_type p timer_type s taken,
  )

  pub reduced-Shows :
      (r : MetricRegistry R W) (dir : Directory) (name : String) (t : MetricType) (p : ℕ)
      → Shows r dir
      → dir name ≡ some (t, p)
      → Shows
          (record r {
            metric_sets = erase_from all_types name r.metric_sets;
            metric_names = erase name r.metric_names;
          })
          (removed dir name)
  reduced-Shows r dir name t p s taken =
      let apart = IsApart-of_Shows r dir name s in
      let each : erase_from all_types name r.metric_sets ≡ erased r.metric_sets name =
        fun_ext
          (λ u. erase_from_lem all_types name r.metric_sets u apart (inl (Among-all_types u))) in
      rw each (record {
        sets = λ u j.
            rw (find-erase name j (r.metric_sets u), s.sets u j) (entry-removed dir name u j);
        names = λ j. rw (find-erase name j r.metric_names, s.names j) (ground arith);
        sets_keyed = λ u. erase-IsKeyed name (r.metric_sets u) (s.sets_keyed u);
        names_keyed = erase-IsKeyed name r.metric_names s.names_keyed;
        counted = omega (
          arith,
          s.counted,
          total-erased r dir name t p s taken,
          length-erase name tt r.metric_names s.names_keyed (s.names name ∙ ap present taken),
        );
        typed = λ j u q e. s.typed j u q (present_removed dir name j (u, q) e);
      })
