-- ===== src/Registry/Maps.antt =====
-- The maps that `getCounters` to `getGauges` of metric_registry.cpp return.
use text.Mathlib.Text.{◌==◌}
use text.Mathlib.TextEquality.{eq_iff}
use cppmetrics.Prelude.{
  ℕ, ◌+◌, ◌≡◌, refl, ap, sym, ◌∙◌, subst, true, [], ◌∷◌, Option, none, some, length, String, arith,
  Bool-cases, inl, inr, get_elem?, ◌⊎◌, All,
}
use cppmetrics.Outcome.{returns}
use cppmetrics.Table.{Table, find, IsKeyed}
use cppmetrics.OrderedMap.{put, find-put, IsAscending, put-IsAscending, length-put, find-ext}
use cppmetrics.Registry.{
  MetricType, Metric, type_of, a_gauge, a_counter, a_histogram, a_meter, a_timer, MetricRegistry,
  get_metrics,
}
use cppmetrics.Registry.Directory.{Directory, entry, Shows}
use cppmetrics.Registry.Histories.{shown_in}
use cppmetrics.Registry.Calls.{is_instance_of, static_pointer_cast, gather, get_map}

module _ {V : Type 0} where
  -- Every element is found under its key.
  keyed_elements :
      (P : String → V → Type 0) (t : Table V)
      → IsKeyed t
      → ((k : String) (v : V) → find k t ≡ some v → P k v)
      → All (λ e. P e.0 e.1) t
  unfolding find
  keyed_elements P [] d h = tt
  keyed_elements P ((k, v) ∷ t) (new, d) h = (
    h k v (ground (arith, eq_iff k k)),
    keyed_elements P t d (λ j w e. h j w (ground (arith, e, new, eq_iff j k))),
  )

  -- The elements put into a map one after the other.
  abbrev put_all : Table V → Table V → Table V
  put_all [] m = m
  put_all ((k, v) ∷ t) m = put_all t (put k v m)

  -- The first of two answers that there is.
  abbrev first : Option V → Option V → Option V
  first none o = o
  first (some v) o = some v

  first-none : (o : Option V) → first o none ≡ o
  first-none none = refl
  first-none (some v) = refl

  find-put_all :
      (j : String) (t m : Table V) → IsKeyed t → find j (put_all t m) ≡ first (find j t) (find j m)
  unfolding find
  find-put_all j [] m d = refl
  find-put_all j ((k, v) ∷ t) m (new, d) =
      rw (find-put_all j t (put k v m) d, find-put k j v m)
        (elim (Bool-cases (j == k)) [
          | inl here ↦ ground (arith, new, (eq_iff j k).0 here, eq_iff k j)
          | inr apart ↦ ground (arith, apart, eq_iff k j, eq_iff j k)
        ])

  put_all-IsAscending : (t m : Table V) → IsAscending m → IsAscending (put_all t m)
  put_all-IsAscending [] m a = a
  put_all-IsAscending ((k, v) ∷ t) m a = put_all-IsAscending t (put k v m) (put-IsAscending k v m a)

  length-put_all :
      (t m : Table V)
      → IsKeyed t
      → ((j : String) → (find j t ≡ none) ⊎ (find j m ≡ none))
      → length (put_all t m) ≡ length t + length m
  unfolding find
  length-put_all [] m d h = omega arith
  length-put_all ((k, v) ∷ t) m (new, d) h = omega (
    arith,
    length-put k v m (ground (arith, h k, eq_iff k k)),
    length-put_all t (put k v m) d
        (λ j. ground (arith, h j, find-put k j v m, eq_iff j k, eq_iff k j, new)),
  )

module _ {R W : Type 0} where
  is_instance_self : (m : Metric R W) → is_instance_of (type_of m) m ≡ true
  is_instance_self (a_gauge v) = refl
  is_instance_self (a_counter c) = refl
  is_instance_self (a_histogram h) = refl
  is_instance_self (a_meter m) = refl
  is_instance_self (a_timer t) = refl

  pub cast_lem :
      (r : MetricRegistry R W) (t : MetricType) (p : ℕ) (m : Metric R W)
      → get_elem? r.heap p ≡ some m
      → type_of m ≡ t
      → static_pointer_cast r t p ≡ returns p
  unfolding static_pointer_cast
  cast_lem r t p m at of_type =
      let instance_of = subst (λ t. is_instance_of t m ≡ true) of_type (is_instance_self m) in
      rw (static_pointer_cast, at, instance_of) refl

  gather_lem :
      (r : MetricRegistry R W) (t : MetricType) (es m : Table ℕ)
      → All (λ e. static_pointer_cast r t e.1 ≡ returns e.1) es
      → gather r t es m ≡ returns (put_all es m)
  unfolding gather
  gather_lem r t [] m h = refl
  gather_lem r t ((k, p) ∷ es) m (h, hs) = rw (gather, h) (gather_lem r t es (put k p m) hs)

  -- What one of the getters returns.
  pub record Lists (r : MetricRegistry R W) (dir : Directory) (t : MetricType) (m : Table ℕ)
      : Type 0 where
    pub ascending : IsAscending m
    pub found : (name : String) → find name m ≡ entry t (dir name)
    pub sized : length m ≡ length (r.metric_sets t)

  pub get_map-Lists :
      (r : MetricRegistry R W) (dir : Directory) (t : MetricType)
      → Shows r dir
      → (m : Table ℕ) × (get_map r t ≡ returns m) × Lists r dir t m
  unfolding get_map get_metrics find
  get_map-Lists r dir t s =
      let casts =
        keyed_elements (λ k p. static_pointer_cast r t p ≡ returns p) (r.metric_sets t)
          (s.sets_keyed t)
          (λ name p found.
            let (m, at, of_type) = s.typed name t p (shown_in r dir t name p s found) in
            cast_lem r t p m at of_type) in
      (
        put_all (r.metric_sets t) [],
        gather_lem r t (r.metric_sets t) [] casts,
        record {
          ascending = put_all-IsAscending (r.metric_sets t) [] tt;
          found = λ name.
              find-put_all name (r.metric_sets t) [] (s.sets_keyed t)
              ∙ first-none (find name (r.metric_sets t))
              ∙ s.sets t name;
          sized =
              omega (arith, length-put_all (r.metric_sets t) [] (s.sets_keyed t) (λ j. inr refl));
        },
      )

  -- The order of the hash map does not show: two registries that hold the same metrics, in maps of any
  -- order, give the same `std::map` of each type, in which every name of the type has its pointer and
  -- no other name is.
  pub get_map-canonical :
      (r r' : MetricRegistry R W) (dir : Directory) (t : MetricType)
      → Shows r dir
      → Shows r' dir
      → (m : Table ℕ) × (get_map r t ≡ returns m)
        × (get_map r' t ≡ returns m)
        × IsAscending m
        × ((name : String) → find name m ≡ entry t (dir name))
  get_map-canonical r r' dir t s s' =
      let (m, e, l) = get_map-Lists r dir t s in
      let (m', e', l') = get_map-Lists r' dir t s' in
      let same : m' ≡ m =
        find-ext m' m l'.ascending l.ascending (λ name. l'.found name ∙ sym (l.found name)) in
      (m, e, e' ∙ ap returns same, l.ascending, l.found)
