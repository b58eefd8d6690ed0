-- ===== src/Registry/Sharing.antt =====
-- The objects behind the pointers of metric_registry.cpp: no two names share one.
use text.Mathlib.TextEquality.{eq_iff}
use cppmetrics.Prelude.{
  ℕ, ◌≡◌, sym, ◌∙◌, List, [], ◌∷◌, none, some, length, String, arith, get_elem?, get_elem?-set, ◌≢◌,
  set, ap, ℕ_discrete,
}
use cppmetrics.Registry.{MetricType, Metric, type_of, MetricRegistry}
use cppmetrics.Registry.Directory.{Directory, Shows, added, removed}

abbrev pub IsInjective : Directory → Type 0
IsInjective dir =
    (j k : String) (t u : MetricType) (p : ℕ) → dir j ≡ some (t, p) → dir k ≡ some (u, p) → j ≡ k

pub none-IsInjective : IsInjective (λ name. none)
none-IsInjective j k t u p h e = cc

get_elem?-length : {A : Type 0} (xs : List A) (x : A) → get_elem? xs (length xs) ≢ some x
get_elem?-length [] x h = cc
get_elem?-length (y ∷ xs) x h = get_elem?-length xs x h

module _ {R W : Type 0} where
  -- A new object is that of no name.
  pub added-IsInjective :
      (r : MetricRegistry R W) (dir : Directory) (name : String) (t : MetricType)
      → Shows r dir
      → IsInjective dir
      → IsInjective (added dir name t (length r.heap))
  added-IsInjective r dir name t s i j k u v p h e =
      let fresh : (n : String) (w : MetricType) → dir n ≢ some (w, length r.heap) = λ n w there.
        let (m, at, of_type) = s.typed n w (length r.heap) there in get_elem?-length r.heap m at in
      ground (arith, h, e, fresh j u, fresh k v, i j k u v p, eq_iff name j, eq_iff name k)

pub removed-IsInjective :
    (dir : Directory) (name : String) → IsInjective dir → IsInjective (removed dir name)
removed-IsInjective dir name i j k u v p h e = ground (arith, h, e, i j k u v p)

module _ {R W : Type 0} where
  -- Another object behind a pointer.
  abbrev pub at_pointer : MetricRegistry R W → ℕ → Metric R W → MetricRegistry R W
  at_pointer r p m = record r { heap = set r.heap p m }

  -- The object behind a pointer changes to another one of its class.
  pub at_pointer-Shows :
      (r : MetricRegistry R W) (dir : Directory) (p : ℕ) (m m' : Metric R W)
      → Shows r dir
      → get_elem? r.heap p ≡ some m
      → type_of m' ≡ type_of m
      → Shows (at_pointer r p m') dir
  at_pointer-Shows r dir p m m' s at kept = record {
    sets = s.sets;
    names = s.names;
    sets_keyed = s.sets_keyed;
    names_keyed = s.names_keyed;
    counted = s.counted;
    typed = λ name t q e.
        let (x, there, of_type) = s.typed name t q e in
        let (same, other) = get_elem?-set r.heap p q m m' at in
        elim (ℕ_discrete p q) [
          | yes h ↦
              let again : some m ≡ some x = sym at ∙ ap (get_elem? r.heap) h ∙ there in
              let one : m ≡ x = cc in (m', same h, kept ∙ ap type_of one ∙ of_type)
          | no h ↦ (x, other h ∙ there, of_type)
        ];
  }
