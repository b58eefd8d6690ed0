-- ===== src/Prelude/Texts.antt =====
-- The order of strings, by their characters' numbers, which is the order of their bytes.
use Prim.Native.Nat.{ℕ, ◌<◌, Ordering, compare as compare_ℕ, zero, suc}
use Prim.Native.Nat.compare as compare_ℕ
use Prim.Native.Char.{code}
use Prim.Native.String.{String, [], ◌∷◌, compare, then}
use Prim.Native.String.compare
use mathlib.Core.Path.{◌≡◌, refl, sym, ap, ◌∙◌}
use mathlib.Core.Logic.{◌⊎◌, inl, inr}
use native.Mathlib.Omega.{arith}
use text.Mathlib.TextEquality.{codes_equal}

-- What an answer of the comparison says.
pub data Ordered (A B C : Type 0) (o : Ordering) : Type 0 where
  below : o ≡ Ordering.lt → A → Ordered A B C o
  same : o ≡ Ordering.eq → B → Ordered A B C o
  above : o ≡ Ordering.gt → C → Ordered A B C o

compare_numbers : (m n : ℕ) → Ordered (m < n) (m ≡ n) (n < m) (compare_ℕ m n)
compare_numbers zero zero = same compare_ℕ.zero-zero refl
compare_numbers zero (suc n) = below (compare_ℕ.zero-suc n) (omega arith)
compare_numbers (suc m) zero = above (compare_ℕ.suc-zero m) (omega arith)
compare_numbers (suc m) (suc n) = elim (compare_numbers m n) [
  | below e h ↦ below (compare_ℕ.suc-suc m n ∙ e) (omega arith)
  | same e h ↦ same (compare_ℕ.suc-suc m n ∙ e) (ap suc h)
  | above e h ↦ above (compare_ℕ.suc-suc m n ∙ e) (omega arith)
]

-- The first string comes before the second.
abbrev pub Before : String → String → Type 0
Before [] [] = ⊥
Before [] (d ∷ t) = Unit
Before (c ∷ s) [] = ⊥
Before (c ∷ s) (d ∷ t) = (code c < code d) ⊎ ((code c ≡ code d) × Before s t)

pub compare-Ordered : (s t : String) → Ordered (Before s t) (s ≡ t) (Before t s) (compare s t)
compare-Ordered [] [] = same compare.nil-nil refl
compare-Ordered [] (d ∷ t) = below (compare.nil-cons d t) tt
compare-Ordered (c ∷ s) [] = above (compare.cons-nil c s) tt
compare-Ordered (c ∷ s) (d ∷ t) =
    let step = compare.cons-cons c d s t in
    elim (compare_numbers (code c) (code d)) [
      | below e h ↦ below (step ∙ ap (λ o. then o (compare s t)) e) (inl h)
      | above e h ↦ above (step ∙ ap (λ o. then o (compare s t)) e) (inl h)
      | same e h ↦
          let rest = step ∙ ap (λ o. then o (compare s t)) e in
          elim (compare-Ordered s t) [
            | below f b ↦ below (rest ∙ f) (inr (h, b))
            | above f b ↦ above (rest ∙ f) (inr (sym h, b))
            | same f b ↦ same (rest ∙ f) (λ i. codes_equal c d e i ∷ b i)
          ]
    ]

pub Before-irrefl : (s : String) → Before s s → ⊥
Before-irrefl [] b = b
Before-irrefl (c ∷ s) (inl h) = omega arith
Before-irrefl (c ∷ s) (inr (h, b)) = Before-irrefl s b

pub Before-trans : (s t u : String) → Before s t → Before t u → Before s u
Before-trans [] [] u b e = absurd b
Before-trans [] (d ∷ t) [] b e = e
Before-trans [] (d ∷ t) (x ∷ u) b e = tt
Before-trans (c ∷ s) [] u b e = absurd b
Before-trans (c ∷ s) (d ∷ t) [] b e = e
Before-trans (c ∷ s) (d ∷ t) (x ∷ u) (inl h) (inl k) = inl (omega arith)
Before-trans (c ∷ s) (d ∷ t) (x ∷ u) (inl h) (inr (k, e)) = inl (omega (arith, k))
Before-trans (c ∷ s) (d ∷ t) (x ∷ u) (inr (h, b)) (inl k) = inl (omega (arith, h))
Before-trans (c ∷ s) (d ∷ t) (x ∷ u) (inr (h, b)) (inr (k, e)) = inr (h ∙ k, Before-trans s t u b e)
