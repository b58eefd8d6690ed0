-- ===== src/Snapshot/Quantile.antt =====
-- `getValue`: the quantiles of a snapshot.
use cppmetrics.Prelude.{
  ℕ, suc, ◌+◌, ◌-◌, ◌<◌, ◌≡◌, refl, subst, ◌≢◌, true, false, List, [], ◌∷◌, some, ℤ, pos, ◌≤ℤ◌,
  length, All, All-get_elem?, get_elem?, get_elem?-total, arith, Bool-cases, ◌⊎◌, inl, inr,
  wrap_uint64, uint64_mod, if◌then◌else◌, is_empty,
}
use cppmetrics.Outcome.{returns, throws, undefined, Returns, defined, ◌>>=◌, invalid_argument}
use cppmetrics.Double.{Double, IsIeee, Fits, ◌≼◌, ◌≺◌, nought, one, is_nan}
use cppmetrics.Snapshot.{Snapshot, snapshot, sort, size, front, back, interpolate, get_value}
use cppmetrics.Snapshot.Order.{
  IsSorted, IsSorted-adjacent, sort-IsSorted, All-sort, length-sort, sort-ne-nil,
}

not_empty : (ys : List ℤ) → ys ≢ [] → is_empty ys ≡ false
not_empty [] n = absurd (n refl)
not_empty (y ∷ ys) n = refl

module _ {W : Type 0} ⦃d : Double W⦄ (laws : IsIeee W) where
  open d use {of_int64, of_uint64, sub, add, mul, floor, to_size}
  open laws use {
    le_trans, refl_of_le, le_of_not_lt, lt_of_not_le, to_size_within, finite_of_size, finite-frac,
    frac_bounds, finite-of_int64, of_int64-mono, finite-sub_of_int64, sub_nonneg, mul_nonneg,
    mul_le, le_add, add_mono, add_sub_exact,
  }

  abbrev Between : ℤ → ℤ → W → Type 0
  Between lo hi v = (of_int64 lo ≼ v) × (v ≼ of_int64 hi)

  -- Between two samples, the interpolated value lies between them.
  blend_Between :
      (a b : ℤ) (x : W)
      → Fits 52 a
      → Fits 52 b
      → a ≤ℤ b
      → laws.is_finite x ≡ true
      → Between a b (add (of_int64 a) (mul (sub x (floor x)) (sub (of_int64 b) (of_int64 a))))
  blend_Between a b x fa fb h fx =
      let low = of_int64 a in
      let gap = sub (of_int64 b) low in
      let part = sub x (floor x) in
      let (part_ge, part_le) = frac_bounds x fx in
      let gap_ge : nought ≼ gap =
        sub_nonneg low (of_int64 b) (finite-of_int64 a) (of_int64-mono a b h) in
      (
        le_add low (mul part gap) (finite-of_int64 a)
            (mul_nonneg part gap (finite-frac x fx) (finite-sub_of_int64 b a) part_ge gap_ge),
        le_trans _ (add low gap) _
            (add_mono low (mul part gap) gap (finite-of_int64 a)
              (mul_le part gap (finite-sub_of_int64 b a) part_ge part_le gap_ge))
            (add_sub_exact a b fa fb),
      )

  -- A value with its bounds, as `double`.
  of_int64-Between : (lo hi v : ℤ) → lo ≤ℤ v → v ≤ℤ hi → Between lo hi (of_int64 v)
  of_int64-Between lo hi v h k = (of_int64-mono lo v h, of_int64-mono v hi k)

  interpolate-Between :
      (lo hi : ℤ) (ys : List ℤ) (x : W)
      → Fits 52 lo
      → Fits 52 hi
      → IsSorted ys
      → All (λ v. (lo ≤ℤ v) × (v ≤ℤ hi)) ys
      → length ys < uint64_mod
      → one ≼ x
      → x ≺ of_uint64 (length ys)
      → Returns (Between lo hi) (interpolate ys x)
  unfolding interpolate
  interpolate-Between lo hi ys x flo fhi s all small ge lt =
      let (k, ek, k_ge, k_lt) = to_size_within x (length ys) ge lt in
      let j : ℕ = k - 1 in
      let wraps : wrap_uint64 (k + uint64_mod - 1) ≡ j = omega arith in
      let next : suc j ≡ k = omega arith in
      let (a, ea) = get_elem?-total ys j (omega arith) in
      let (b, eb) = get_elem?-total ys (suc j) (omega arith) in
      let a_in = All-get_elem? (λ v. (lo ≤ℤ v) × (v ≤ℤ hi)) ys j all ea in
      let b_in = All-get_elem? (λ v. (lo ≤ℤ v) × (v ≤ℤ hi)) ys (suc j) all eb in
      let up : a ≤ℤ b = IsSorted-adjacent ys j s ea eb in
      let (low, high) =
        blend_Between a b x (record { above = omega arith; below = omega arith })
          (record { above = omega arith; below = omega arith }) up
          (finite_of_size x (length ys) ge lt) in
      let eb' = subst (λ i. get_elem? ys i ≡ some b) next eb in
      rw (ek, defined)
        (rw (wraps) (
          rw (ea, eb')
            (
              le_trans _ (of_int64 a) _ (of_int64-mono lo a a_in.0) low,
              le_trans _ (of_int64 b) _ high (of_int64-mono b hi b_in.1),
            )))

  front-Between :
      (lo hi : ℤ) (ys : List ℤ)
      → ys ≢ []
      → All (λ v. (lo ≤ℤ v) × (v ≤ℤ hi)) ys
      → Returns (Between lo hi) (front ys >>= λ v. returns (of_int64 v))
  front-Between lo hi [] n all = absurd (n refl)
  front-Between lo hi (y ∷ ys) n (h, all) = of_int64-Between lo hi y h.0 h.1

  back-Between :
      (lo hi : ℤ) (ys : List ℤ)
      → ys ≢ []
      → All (λ v. (lo ≤ℤ v) × (v ≤ℤ hi)) ys
      → Returns (Between lo hi) (back ys >>= λ v. returns (of_int64 v))
  back-Between lo hi [] n all = absurd (n refl)
  back-Between lo hi (y ∷ []) n (h, all) = of_int64-Between lo hi y h.0 h.1
  back-Between lo hi (y ∷ z ∷ ys) n (h, all) = back-Between lo hi (z ∷ ys) (λ e. cc) all

  not_lt_of_le : (x y : W) → x ≼ y → d.lt y x ≡ false
  not_lt_of_le x y h = ground (arith, laws.not_le_of_lt y x)

  -- `getValue` past its check of the argument, on a sorted list.
  value_at-Between :
      (lo hi : ℤ) (ys : List ℤ) (x : W)
      → Fits 52 lo
      → Fits 52 hi
      → ys ≢ []
      → IsSorted ys
      → All (λ v. (lo ≤ℤ v) × (v ≤ℤ hi)) ys
      → length ys < uint64_mod
      → x ≼ x
      → Returns (Between lo hi) (
          if d.lt x one
          then (front ys >>= λ v. returns (of_int64 v))
          else if d.le (of_uint64 (length ys)) x
          then (back ys >>= λ v. returns (of_int64 v))
          else interpolate ys x)
  value_at-Between lo hi ys x flo fhi n s all small num = elim (Bool-cases (d.lt x one)) [
    | inl below ↦ rw below (front-Between lo hi ys n all)
    | inr above ↦
        let ge = le_of_not_lt x one num (laws.refl_of_finite one (finite-of_int64 (pos 1))) above in
        rw above (elim (Bool-cases (d.le (of_uint64 (length ys)) x)) [
          | inl last ↦ rw last (back-Between lo hi ys n all)
          | inr between ↦ rw between (
              interpolate-Between lo hi ys x flo fhi s all small ge (
                lt_of_not_le _ x (laws.refl_of_finite _ (laws.finite-of_uint64 (length ys))) num
                  between))
        ])
  ]

  -- If all samples lie between `lo` and `hi`, of at most 52 bits, then `getValue` returns a value
  -- between them at every quantile from 0 to 1: no index is out of range and no exception is
  -- thrown.
  pub get_value-Between :
      (xs : List ℤ) (lo hi : ℤ) (q : W)
      → xs ≢ []
      → All (λ v. (lo ≤ℤ v) × (v ≤ℤ hi)) xs
      → Fits 52 lo
      → Fits 52 hi
      → length xs < uint64_mod
      → nought ≼ q
      → q ≼ one
      → Returns (λ v. (of_int64 lo ≼ v) × (v ≼ of_int64 hi)) (get_value (snapshot xs) q)
  unfolding get_value snapshot
  get_value-Between xs lo hi q n all flo fhi small ge le =
      let some_left = sort-ne-nil xs n in
      rw (not_lt_of_le nought q ge, not_lt_of_le q one le, not_empty (sort xs) some_left)
        (value_at-Between lo hi (sort xs) _ flo fhi some_left (sort-IsSorted xs) (All-sort _ xs all)
          (rw (length-sort xs) small)
          (laws.mul-reflexive q (wrap_uint64 (length (sort xs) + 1)) ge le))

  -- Of no samples every quantile is 0.
  pub get_value-empty : (q : W) → nought ≼ q → q ≼ one → get_value (snapshot []) q ≡ returns nought
  unfolding get_value snapshot sort
  get_value-empty q ge le = rw (not_lt_of_le nought q ge, not_lt_of_le q one le)

  -- A quantile below 0 or above 1 is refused, whatever the snapshot holds.
  pub get_value-refuses :
      (s : Snapshot) (q : W)
      → (q ≺ nought) ⊎ (one ≺ q)
      → get_value s q ≡ throws (invalid_argument "quantile is not in [0..1]")
  unfolding get_value
  get_value-refuses s q h = ground arith

  -- A NaN passes the check of `getValue`, and on a snapshot that is not empty the call runs into
  -- the conversion of a NaN to an index, which is undefined.
  pub get_value_nan :
      (s : Snapshot) (q : W) → is_nan q ≡ true → s.values ≢ [] → get_value s q ≡ undefined
  unfolding get_value interpolate
  get_value_nan s q nan n =
      let odd : d.le q q ≡ false = ground arith in
      let pos_nan = laws.nan-mul q (of_uint64 (wrap_uint64 (size s + 1))) odd in
      rw (
        (laws.nan_not_lt q nought odd).0,
        (laws.nan_not_lt q one odd).1,
        not_empty s.values n,
        (laws.nan_not_lt _ one pos_nan).0,
        laws.nan_not_le _ (of_uint64 (size s)) pos_nan,
        laws.nan-to_size _ pos_nan,
      )
