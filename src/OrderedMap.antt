-- ===== src/OrderedMap.antt =====
-- `std::map` with string keys, as the list of its elements in the order of their keys. Look-ups and
-- removals are those of a `Table`.
use Prim.Native.Nat.{Ordering}
use Prim.Native.String.{compare}
use text.Mathlib.Text.{◌==◌}
use text.Mathlib.TextEquality.{eq_iff}
use cppmetrics.Prelude.{
  ◌≡◌, refl, sym, ap, ap₂, ◌∙◌, false, suc, [], ◌∷◌, none, some, String, length, map, All,
  if◌then◌else◌, arith, Before, below, same, above, compare-Ordered, subst, ◌≢◌, Before-irrefl,
  Before-trans, Bool-cases, inl, inr,
}
use cppmetrics.Table.{Table, find, erase, find-cons, IsKeyed}

Before-apart : (k j : String) → Before k j → k ≢ j
Before-apart k j b e = Before-irrefl k (subst (λ x. Before k x) (sym e) b)

module _ {V : Type 0} where
  -- `map[key] = value`.
  unfoldable pub put : String → V → Table V → Table V
  put k v [] = (k, v) ∷ []
  put k v ((j, w) ∷ m) =
      let rest = put k v m in
      elim (compare k j) [
        | Ordering.lt ↦ (k, v) ∷ (j, w) ∷ m
        | Ordering.eq ↦ (j, v) ∷ m
        | Ordering.gt ↦ (j, w) ∷ rest
      ]

  -- The key comes before all keys.
  abbrev pub IsBelow : String → Table V → Type 0
  IsBelow k m = All (λ e. Before k e.0) m

  -- The keys ascend, so none is there twice.
  abbrev pub IsAscending : Table V → Type 0
  IsAscending [] = Unit
  IsAscending ((k, v) ∷ m) = IsBelow k m × IsAscending m

  find_here : (k : String) (v : V) (m : Table V) → find k ((k, v) ∷ m) ≡ some v
  unfolding find
  find_here k v m = rw ((eq_iff k k).1 refl) refl

  find_past :
      (k j : String) (v : V) (m : Table V) → (j == k) ≡ false → find j ((k, v) ∷ m) ≡ find j m
  unfolding find
  find_past k j v m apart = rw apart refl

  -- Where `x` is the key of the first element, a new value in its place.
  abbrev Passes : String → String → String → V → V → Table V → Type 0
  Passes x i j v w m =
      (if i == j then some v else find j m) ≡ (if x == j then some v else find j ((i, w) ∷ m))

  Passes-self : (i j : String) (v w : V) (m : Table V) → Passes i i j v w m
  Passes-self i j v w m = rw (find-cons i j w m) (ground arith)

  pub find-put :
      (k j : String) (v : V) (m : Table V)
      → find j (put k v m) ≡ (if k == j then some v else find j m)
  unfolding put
  find-put k j v [] = find-cons k j v []
  find-put k j v ((i, w) ∷ m) = elim (compare-Ordered k i) [
    | below e b ↦ rw (put, e) (find-cons k j v ((i, w) ∷ m))
    | same e b ↦
        rw (put, e)
          (find-cons i j v m ∙ subst (λ x. Passes x i j v w m) (sym b) (Passes-self i j v w m))
    | above e b ↦
        rw (put, e, find-cons i j w (put k v m), find-cons i j w m, find-put k j v m)
          (let apart = Before-apart i k b in ground (arith, eq_iff i j, eq_iff k j, apart))
  ]

  IsBelow-trans : (k j : String) (m : Table V) → Before k j → IsBelow j m → IsBelow k m
  IsBelow-trans k j [] b h = tt
  IsBelow-trans k j ((i, w) ∷ m) b (h, hs) = (Before-trans k j i b h, IsBelow-trans k j m b hs)

  IsBelow-put :
      (k j : String) (v : V) (m : Table V) → Before j k → IsBelow j m → IsBelow j (put k v m)
  unfolding put
  IsBelow-put k j v [] b h = (b, tt)
  IsBelow-put k j v ((i, w) ∷ m) b (h, hs) = elim (compare-Ordered k i) [
    | below e c ↦ rw (put, e) (b, (h, hs))
    | same e c ↦ rw (put, e) (h, hs)
    | above e c ↦ rw (put, e) (h, IsBelow-put k j v m b hs)
  ]

  pub put-IsAscending : (k : String) (v : V) (m : Table V) → IsAscending m → IsAscending (put k v m)
  unfolding put
  put-IsAscending k v [] a = (tt, tt)
  put-IsAscending k v ((i, w) ∷ m) (h, a) = elim (compare-Ordered k i) [
    | below e c ↦ rw (put, e) ((c, IsBelow-trans k i m c h), (h, a))
    | same e c ↦ rw (put, e) (h, a)
    | above e c ↦ rw (put, e) (IsBelow-put k i v m c h, put-IsAscending k v m a)
  ]

  pub length-put :
      (k : String) (v : V) (m : Table V) → find k m ≡ none → length (put k v m) ≡ suc (length m)
  unfolding find put
  length-put k v [] h = refl
  length-put k v ((i, w) ∷ m) h = elim (compare-Ordered k i) [
    | below e c ↦ rw (put, e) refl
    | same e c ↦
        let gone : some w ≡ none =
          sym (find_here i w m) ∙ subst (λ x. find x ((i, w) ∷ m) ≡ none) c h in
        cc
    | above e c ↦
        let apart = Before-apart i k c in
        let later : find k m ≡ none = ground (arith, h, eq_iff k i, apart) in
        rw (put, e) (ap suc (length-put k v m later))
  ]

  -- A key below all keys is not there.
  pub find-below : (k : String) (m : Table V) → IsBelow k m → find k m ≡ none
  unfolding find
  find-below k [] h = refl
  find-below k ((i, w) ∷ m) (h, hs) = elim (Bool-cases (k == i)) [
    | inl here ↦ absurd (Before-irrefl k (subst (λ j. Before k j) (sym ((eq_iff k i).0 here)) h))
    | inr apart ↦ rw apart (find-below k m hs)
  ]

  -- The first key of one map, below all of the other, is not in the other.
  first_missing :
      (k : String) (v : V) (m n : Table V) → IsBelow k n → find k ((k, v) ∷ m) ≡ find k n → ⊥
  first_missing k v m n under h =
      let gone : some v ≡ none = sym (find_here k v m) ∙ h ∙ find-below k n under in cc

  tail_finds :
      (k : String) (v w : V) (m n : Table V) (j : String)
      → IsBelow k m
      → IsBelow k n
      → find j ((k, v) ∷ m) ≡ find j ((k, w) ∷ n)
      → find j m ≡ find j n
  unfolding find
  tail_finds k v w m n j a b h = elim (Bool-cases (j == k)) [
    | inl here ↦
        let same = (eq_iff j k).0 here in
        subst (λ j. find j m ≡ find j n) (sym same) (find-below k m a ∙ sym (find-below k n b))
    | inr apart ↦ sym (find_past k j v m apart) ∙ h ∙ find_past k j w n apart
  ]

  -- Two maps with the same look-ups are equal.
  pub find-ext :
      (m n : Table V) → IsAscending m → IsAscending n → ((k : String) → find k m ≡ find k n) → m ≡ n
  find-ext [] [] a b h = refl
  find-ext [] ((j, w) ∷ n) a b h = absurd (first_missing j w n [] tt (sym (h j)))
  find-ext ((k, v) ∷ m) [] a b h = absurd (first_missing k v m [] tt (h k))
  find-ext ((k, v) ∷ m) ((j, w) ∷ n) (a, up) (b, rise) h = elim (compare-Ordered k j) [
    | below e c ↦ absurd (first_missing k v m ((j, w) ∷ n) (c, IsBelow-trans k j n c b) (h k))
    | above e c ↦ absurd (first_missing j w n ((k, v) ∷ m) (c, IsBelow-trans j k m c a) (sym (h j)))
    | same e c ↦
        let both = subst (λ x. find k ((k, v) ∷ m) ≡ find k ((x, w) ∷ n)) (sym c) (h k) in
        let shown : some v ≡ some w = sym (find_here k v m) ∙ both ∙ find_here k w n in
        let values : v ≡ w = cc in
        let tails =
          subst (λ x. (y : String) → find y ((k, v) ∷ m) ≡ find y ((x, w) ∷ n)) (sym c) h in
        ap₂ (λ e t. e ∷ t) (λ i. (c i, values i))
          (find-ext m n up rise
            (λ y. tail_finds k v w m n y a (subst (λ x. IsBelow x n) (sym c) b) (tails y)))
  ]

  IsBelow-erase : (j k : String) (m : Table V) → IsBelow j m → IsBelow j (erase k m)
  unfolding erase
  IsBelow-erase j k [] h = tt
  IsBelow-erase j k ((i, w) ∷ m) (h, hs) = ground (arith, h, IsBelow-erase j k m hs)

  pub erase-IsAscending : (k : String) (m : Table V) → IsAscending m → IsAscending (erase k m)
  unfolding erase
  erase-IsAscending k [] a = tt
  erase-IsAscending k ((i, w) ∷ m) (h, a) =
      ground (arith, IsBelow-erase i k m h, erase-IsAscending k m a)

  pub IsAscending-IsKeyed : (m : Table V) → IsAscending m → IsKeyed m
  IsAscending-IsKeyed [] a = tt
  IsAscending-IsKeyed ((k, v) ∷ m) (h, a) = (find-below k m h, IsAscending-IsKeyed m a)

-- Two maps with the same keys.
module _ {V W : Type 0} where
  abbrev pub SameKeys : Table V → Table W → Type 0
  SameKeys m n = map (λ e. e.0) m ≡ map (λ e. e.0) n

  IsBelow-SameKeys :
      (k : String) (m : Table V) (n : Table W) → SameKeys m n → IsBelow k n → IsBelow k m
  IsBelow-SameKeys k [] n e h = tt
  IsBelow-SameKeys k ((j, v) ∷ m) [] e h = cc
  IsBelow-SameKeys k ((j, v) ∷ m) ((i, w) ∷ n) e (h, hs) =
      let first : j ≡ i = cc in
      let rest : SameKeys m n = cc in
      (subst (Before k) (sym first) h, IsBelow-SameKeys k m n rest hs)

  pub IsAscending-SameKeys :
      (m : Table V) (n : Table W) → SameKeys m n → IsAscending n → IsAscending m
  IsAscending-SameKeys [] n e a = tt
  IsAscending-SameKeys ((j, v) ∷ m) [] e a = cc
  IsAscending-SameKeys ((j, v) ∷ m) ((i, w) ∷ n) e (h, a) =
      let first : j ≡ i = cc in
      let rest : SameKeys m n = cc in
      (
        IsBelow-SameKeys j m n rest (subst (λ x. IsBelow x n) (sym first) h),
        IsAscending-SameKeys m n rest a,
      )

  pub find-SameKeys :
      (k : String) (m : Table V) (n : Table W) → SameKeys m n → find k n ≡ none → find k m ≡ none
  unfolding find
  find-SameKeys k [] n e h = refl
  find-SameKeys k ((j, v) ∷ m) [] e h = cc
  find-SameKeys k ((j, v) ∷ m) ((i, w) ∷ n) e h =
      let first : j ≡ i = cc in
      let rest : SameKeys m n = cc in
      ground (arith, h, first, find-SameKeys k m n rest, eq_iff k j, eq_iff k i)
