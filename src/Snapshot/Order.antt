-- ===== src/Snapshot/Order.antt =====
-- The sorted copy, and the extreme values.
use mathlib.Core.List.{Perm, Mem, mem-cons_self, mem-cons_of_mem, mem-cons, not-mem-nil}
use mathlib.Core.List.Perm
use mathlib.Core.Logic.Or
use native.Mathlib.Bridge.{le_prop}
use cppmetrics.Prelude.{
  ℕ, zero, suc, ◌≡◌, refl, sym, subst, ap, ◌∙◌, List, [], ◌∷◌, ◌≢◌, ℤ, ◌≤ℤ◌, leb_ℤ, length, All,
  arith, Bool-cases, inl, inr, get_elem?, some, All-get_elem?,
}
use cppmetrics.Outcome.{returns}
use cppmetrics.Double.{Double, IsIeee, Fits}
use cppmetrics.Snapshot.{insert_sorted, sort, Snapshot, snapshot, back, get_min, get_max}

-- In ascending order.
abbrev pub IsSorted : List ℤ → Type 0
IsSorted [] = Unit
IsSorted (x ∷ xs) = All (λ y. x ≤ℤ y) xs × IsSorted xs

pub All-mono_le : (x y : ℤ) (zs : List ℤ) → x ≤ℤ y → All (λ z. y ≤ℤ z) zs → All (λ z. x ≤ℤ z) zs
All-mono_le x y [] h a = tt
All-mono_le x y (z ∷ zs) h (b, bs) = (omega arith, All-mono_le x y zs h bs)

insert_sorted-perm : (x : ℤ) (ys : List ℤ) → Perm (insert_sorted x ys) (x ∷ ys)
unfolding insert_sorted
insert_sorted-perm x [] = Perm.refl _
insert_sorted-perm x (y ∷ ys) = elim (Bool-cases (leb_ℤ x y)) [
  | inl e ↦ rw e (Perm.refl _)
  | inr e ↦ rw e (Perm.trans (Perm.cons y (insert_sorted-perm x ys)) (Perm.swap x y ys))
]

sort-perm : (xs : List ℤ) → Perm (sort xs) xs
unfolding sort
sort-perm [] = Perm.refl _
sort-perm (x ∷ xs) = Perm.trans (insert_sorted-perm x (sort xs)) (Perm.cons x (sort-perm xs))

pub All-insert_sorted {ℓ} :
    (P : ℤ → Type ℓ) (x : ℤ) (ys : List ℤ) → P x → All P ys → All P (insert_sorted x ys)
unfolding insert_sorted
All-insert_sorted P x [] p ps = (p, ps)
All-insert_sorted P x (y ∷ ys) p ps = elim (Bool-cases (leb_ℤ x y)) [
  | inl e ↦ rw e (p, ps)
  | inr e ↦ rw e (ps.0, All-insert_sorted P x ys p ps.1)
]

pub All-sort {ℓ} : (P : ℤ → Type ℓ) (xs : List ℤ) → All P xs → All P (sort xs)
unfolding sort
All-sort P [] ps = ps
All-sort P (x ∷ xs) ps = All-insert_sorted P x (sort xs) ps.0 (All-sort P xs ps.1)

insert_sorted-IsSorted : (x : ℤ) (ys : List ℤ) → IsSorted ys → IsSorted (insert_sorted x ys)
unfolding insert_sorted
insert_sorted-IsSorted x [] s = (tt, tt)
insert_sorted-IsSorted x (y ∷ ys) s = elim (Bool-cases (leb_ℤ x y)) [
  | inl e ↦ let le : x ≤ℤ y = ground arith in rw e ((le, All-mono_le x y ys le s.0), s)
  | inr e ↦
      rw e
        (All-insert_sorted (λ z. y ≤ℤ z) x ys (ground arith) s.0, insert_sorted-IsSorted x ys s.1)
]

pub sort-IsSorted : (xs : List ℤ) → IsSorted (sort xs)
unfolding sort
sort-IsSorted [] = tt
sort-IsSorted (x ∷ xs) = insert_sorted-IsSorted x (sort xs) (sort-IsSorted xs)

-- The values of a new snapshot are the given ones, as often, in ascending order.
pub snapshot-IsSorted_perm :
    (xs : List ℤ) → IsSorted (snapshot xs).values × Perm (snapshot xs).values xs
unfolding snapshot
snapshot-IsSorted_perm xs = (sort-IsSorted xs, sort-perm xs)

All-insert_sorted_inv {ℓ} :
    (P : ℤ → Type ℓ) (x : ℤ) (ys : List ℤ) → All P (insert_sorted x ys) → P x × All P ys
unfolding insert_sorted
All-insert_sorted_inv P x [] (p, ps) = (p, ps)
All-insert_sorted_inv P x (y ∷ ys) ps = elim (Bool-cases (leb_ℤ x y)) [
  | inl e ↦ rw e at ps
  | inr e ↦
      let (q, qs) : P y × All P (insert_sorted x ys) = rw e at ps in
      let (r, rs) = All-insert_sorted_inv P x ys qs in (r, (q, rs))
]

pub All-sort_inv {ℓ} : (P : ℤ → Type ℓ) (xs : List ℤ) → All P (sort xs) → All P xs
unfolding sort
All-sort_inv P [] ps = ps
All-sort_inv P (x ∷ xs) ps =
    let (q, qs) = All-insert_sorted_inv P x (sort xs) ps in (q, All-sort_inv P xs qs)

length-insert_sorted : (x : ℤ) (ys : List ℤ) → length (insert_sorted x ys) ≡ suc (length ys)
unfolding insert_sorted
length-insert_sorted x [] = refl
length-insert_sorted x (y ∷ ys) = ground (arith, length-insert_sorted x ys)

pub length-sort : (xs : List ℤ) → length (sort xs) ≡ length xs
unfolding sort
length-sort [] = refl
length-sort (x ∷ xs) = length-insert_sorted x (sort xs) ∙ ap suc (length-sort xs)

pub sort-ne-nil : (xs : List ℤ) → xs ≢ [] → sort xs ≢ []
sort-ne-nil [] n e = absurd (n refl)
sort-ne-nil (x ∷ xs) n e = absurd (omega (arith, ap length e, length-sort (x ∷ xs)))

-- Neighbours in a sorted list are in order.
pub IsSorted-adjacent :
    (xs : List ℤ) (i : ℕ) {a b : ℤ}
    → IsSorted xs
    → get_elem? xs i ≡ some a
    → get_elem? xs (suc i) ≡ some b
    → a ≤ℤ b
IsSorted-adjacent [] i s p q = cc
IsSorted-adjacent (x ∷ xs) zero {a} {b} s p q =
    let h : x ≤ℤ b = All-get_elem? (λ y. x ≤ℤ y) xs 0 s.0 q in ground arith
IsSorted-adjacent (x ∷ xs) (suc i) s p q = IsSorted-adjacent xs i s.1 p q

-- The last value of a sorted list is its greatest.
abbrev IsGreatest : List ℤ → ℤ → Type 0
IsGreatest xs hi = (back xs ≡ returns hi) × Mem hi xs × All (λ v. v ≤ℤ hi) xs

back-IsGreatest : (x : ℤ) (xs : List ℤ) → IsSorted (x ∷ xs) → (hi : ℤ) × IsGreatest (x ∷ xs) hi
back-IsGreatest x [] s = (x, (refl, mem-cons_self, (omega arith, tt)))
back-IsGreatest x (y ∷ ys) (above, s) =
    let (hi, (e, m, below)) = back-IsGreatest y ys s in
    (hi, (e, mem-cons_of_mem x m, (omega arith, below)))

pub All-both {ℓ κ} :
    (P : ℤ → Type ℓ) (Q : ℤ → Type κ) (xs : List ℤ) → All P xs → All Q xs → All (λ v. P v × Q v) xs
All-both P Q [] ps qs = tt
All-both P Q (x ∷ xs) (p, ps) (q, qs) = ((p, q), All-both P Q xs ps qs)

pub All-mem {ℓ} :
    {P : ℤ → Type ℓ} (cP : (v : ℤ) → IsProp (P v)) (xs : List ℤ) {v : ℤ} → All P xs → Mem v xs → P v
All-mem cP [] ps m = absurd (not-mem-nil m)
All-mem {P} cP (x ∷ xs) {v} (p, ps) m =
    Or.elim (cP v) (mem-cons.0 m) (λ e. subst P (sym e) p) (All-mem cP xs ps)

Fits-prop : (k : ℕ) (v : ℤ) → IsProp (Fits k v)
Fits-prop k v = hlevel le_prop

module _ {W : Type 0} ⦃d : Double W⦄ (laws : IsIeee W) where
  open laws use {to_int64-of_int64}

  -- The sorted list behind the extreme values.
  extremes_of_sorted :
      (ys : List ℤ) (s : Snapshot)
      → s.values ≡ ys
      → ys ≢ []
      → IsSorted ys
      → All (Fits 53) ys
      → (lo : ℤ) × (hi : ℤ) × (get_min W s ≡ returns lo)
        × (get_max W s ≡ returns hi)
        × (Mem lo ys)
        × (Mem hi ys)
        × All (λ v. (lo ≤ℤ v) × (v ≤ℤ hi)) ys
  unfolding get_min get_max
  extremes_of_sorted [] s e n o f = absurd (n refl)
  extremes_of_sorted (x ∷ xs) s e n o f =
      let (hi, (b, m, below)) = back-IsGreatest x xs o in
      let above : All (λ v. x ≤ℤ v) (x ∷ xs) = (omega arith, o.0) in
      let fits : Fits 53 hi = All-mem (Fits-prop 53) (x ∷ xs) f m in
      (
        x,
        hi,
        ground (arith, to_int64-of_int64 x f.0),
        rw (e, get_max) (rw b (rw (to_int64-of_int64 hi fits))),
        mem-cons_self,
        m,
        All-both (λ v. x ≤ℤ v) (λ v. v ≤ℤ hi) (x ∷ xs) above below,
      )

  -- For samples that are not empty and whose values have at most 53 bits, `getMin` and `getMax`
  -- return two of the values, and every value lies between them.
  pub get_min-get_max-extremes :
      (xs : List ℤ)
      → xs ≢ []
      → All (Fits 53) xs
      → (lo : ℤ) × (hi : ℤ) × (get_min W (snapshot xs) ≡ returns lo)
        × (get_max W (snapshot xs) ≡ returns hi)
        × (Mem lo xs)
        × (Mem hi xs)
        × All (λ v. (lo ≤ℤ v) × (v ≤ℤ hi)) xs
  unfolding snapshot
  get_min-get_max-extremes xs n f =
      let (lo, hi, p, q, m, k, all) =
        extremes_of_sorted (sort xs) (snapshot xs) refl (sort-ne-nil xs n) (sort-IsSorted xs)
          (All-sort (Fits 53) xs f) in
      (
        lo,
        hi,
        p,
        q,
        (Perm.mem_iff (sort-perm xs)).0 m,
        (Perm.mem_iff (sort-perm xs)).0 k,
        All-sort_inv (λ v. (lo ≤ℤ v) × (v ≤ℤ hi)) xs all,
      )
