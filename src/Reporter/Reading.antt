-- ===== src/Reporter/Reading.antt =====
-- The loop of a reporter over one map.
use text.Mathlib.Text.{◌==◌}
use text.Mathlib.TextEquality.{eq_iff}
use cppmetrics.Prelude.{
  ℕ, ◌≡◌, refl, sym, ap, ◌∙◌, [], ◌∷◌, none, some, String, get_elem?, get_elem?-set, map, arith,
  ◌≢◌, Bool-cases, inl, inr, subst,
}
use cppmetrics.Outcome.{returns}
use cppmetrics.Table.{Table, find, IsKeyed}
use cppmetrics.Registry.{MetricType, Metric, type_of, MetricRegistry}
use cppmetrics.Registry.Directory.{Directory, Shows}
use cppmetrics.Registry.Sharing.{IsInjective, at_pointer, at_pointer-Shows}
use cppmetrics.Reporter.{Reader, read_at, read_all}

module _ {R W : Type 0} where
  -- A reader for the objects of a class.
  abbrev pub Serves : {A : Type 0} → MetricType → Reader R W A → Type 0
  Serves {A} t read =
      (name : String) (m : Metric R W)
      → type_of m ≡ t
      → (a : A) × (m' : Metric R W) × (read name m ≡ some (a, m')) × (type_of m' ≡ t)

  -- What a reporter has read from a map: a value for each name, in the order of the names, each from
  -- the object that was there before. Objects that are not in the map are as they were.
  pub record ReadFrom {A : Type 0} (r r' : MetricRegistry R W) (dir : Directory)
      (read : Reader R W A) (es : Table ℕ) (vs : Table A) : Type 0 where
    pub still : Shows r' dir
    pub keys : map (λ e. e.0) vs ≡ map (λ e. e.0) es
    pub elsewhere :
        (q : ℕ)
        → ((name : String) → find name es ≢ some q)
        → get_elem? r'.heap q ≡ get_elem? r.heap q
    pub exact :
        (name : String) (p : ℕ)
        → find name es ≡ some p
        → (m : Metric R W) × (a : A) × (m' : Metric R W) × (get_elem? r.heap p ≡ some m)
          × (read name m ≡ some (a, m'))
          × (find name vs ≡ some a)

  module _ {A : Type 0} (dir : Directory) (t : MetricType) (read : Reader R W A)
      (injective : IsInjective dir) where
    -- One element read before the rest.
    step-ReadFrom :
        (k : String) (p : ℕ) (es : Table ℕ) (a : A) (vs : Table A) (r r' : MetricRegistry R W)
        (m m' : Metric R W)
        → find k es ≡ none
        → dir k ≡ some (t, p)
        → ((name : String) (q : ℕ) → find name es ≡ some q → dir name ≡ some (t, q))
        → get_elem? r.heap p ≡ some m
        → read k m ≡ some (a, m')
        → ReadFrom (at_pointer r p m') r' dir read es vs
        → ReadFrom r r' dir read ((k, p) ∷ es) ((k, a) ∷ vs)
    unfolding find
    step-ReadFrom k p es a vs r r' m m' new here within at e rest = record {
      still = rest.still;
      keys = ap (λ ks. k ∷ ks) rest.keys;
      elsewhere = λ q h.
          let apart : p ≢ q = λ same. h k (rw ((eq_iff k k).1 refl) (ap some same)) in
          rest.elsewhere q (λ name f. h name (ground (arith, f, new, eq_iff name k)))
          ∙ (get_elem?-set r.heap p q m m' at).1 apart;
      exact = λ name q h. elim (Bool-cases (name == k)) [
        | inl self ↦
            let pointer : some p ≡ some q = rw self at h in
            let same : p ≡ q = cc in
            let is_k : name ≡ k = (eq_iff name k).0 self in
            (
              m,
              a,
              m',
              ap (get_elem? r.heap) (sym same) ∙ at,
              subst (λ j. read j m ≡ some (a, m')) (sym is_k) e,
              rw self refl,
            )
        | inr other ↦
            let found : find name es ≡ some q = rw other at h in
            let apart : p ≢ q = λ same.
              let is_k =
                injective name k t t p (within name q found ∙ ap (λ x. some (t, x)) (sym same))
                  here in
              let yes_and_no = sym ((eq_iff name k).1 is_k) ∙ other in cc in
            let (x, v, x', there, read_x, found_v) = rest.exact name q found in
            (
              x,
              v,
              x',
              sym ((get_elem?-set r.heap p q m m' at).1 apart) ∙ there,
              read_x,
              rw other found_v,
            )
      ];
    }

    pub read_all-ReadFrom :
        (es : Table ℕ) (r : MetricRegistry R W)
        → Serves t read
        → Shows r dir
        → IsKeyed es
        → ((name : String) (p : ℕ) → find name es ≡ some p → dir name ≡ some (t, p))
        → (vs : Table A) × (r' : MetricRegistry R W) × (read_all read es r ≡ returns (vs, r'))
          × ReadFrom r r' dir read es vs
    unfolding read_all read_at find
    read_all-ReadFrom [] r serves s d within = (
      [],
      r,
      refl,
      record { still = s; keys = refl; elsewhere = λ q h. refl; exact = λ name p h. cc },
    )
    read_all-ReadFrom ((k, p) ∷ es) r serves s (new, d) within =
        let here = within k p (rw ((eq_iff k k).1 refl) refl) in
        let (m, at, of_type) = s.typed k t p here in
        let (a, m', e, kept) = serves k m of_type in
        let later : (name : String) (q : ℕ) → find name es ≡ some q → dir name ≡ some (t, q) =
          λ name q h. within name q (ground (arith, h, new, eq_iff name k)) in
        let (vs, r', f, rest) =
          read_all-ReadFrom es (at_pointer r p m') serves
            (at_pointer-Shows r dir p m m' s at (kept ∙ sym of_type)) d later in
        (
          (k, a) ∷ vs,
          r',
          rw (read_at, at, e) (rw f refl),
          step-ReadFrom k p es a vs r r' m m' new here later at e rest,
        )
