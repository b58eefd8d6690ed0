-- ===== src/Double/Milli.antt =====
-- A number format in which the laws hold and the code runs: thousandths, with `none` for NaN.
-- Products and quotients are rounded down to a thousandth; it has no infinities.
use cppmetrics.Prelude.{
  ℕ, zero, suc, ◌+◌, ◌-◌, ◌*◌, ◌/◌, ◌^◌, ◌≤◌, ◌<◌, ◌≡◌, refl, Bool, true, false, Option, none, some,
  ℤ, pos, negsuc, sub_ℕ, ◌+ℤ◌, ◌-ℤ◌, ◌*ℤ◌, ◌≤ℤ◌, ltb_ℤ, leb_ℤ, leb, arith, if◌then◌else◌,
  times_parts,
}
use cppmetrics.Double.Laws.{Double, IsIeee, ◌≼◌, ◌≺◌, nought, one, Fits}

abbrev pub Milli : Type 0
Milli = Option ℤ

abbrev lift₂ : (ℤ → ℤ → Milli) → Milli → Milli → Milli
lift₂ f (some a) (some b) = f a b
lift₂ f _ _ = none

abbrev compare_by : (ℤ → ℤ → Bool) → Milli → Milli → Bool
compare_by f (some a) (some b) = f a b
compare_by f _ _ = false

-- Rounds a quotient by a positive number down.
abbrev div_floor : ℤ → ℕ → ℤ
div_floor (pos n) k = pos (n / k)
div_floor (negsuc n) k = negsuc (n / k)

abbrev quotient : ℤ → ℤ → Milli
quotient a (pos zero) = none
quotient a (pos (suc n)) = some (div_floor (a *ℤ pos 1000) (suc n))
quotient a (negsuc n) = some (div_floor (a *ℤ negsuc 999) (suc n))

-- The greatest number whose square is at most `n`, by bisection on the bits.
unfoldable pub root_from : ℕ → ℕ → ℕ → ℕ
root_from zero acc n = acc
root_from (suc k) acc n =
    root_from k (if leb ((acc + 2 ^ k) * (acc + 2 ^ k)) n then acc + 2 ^ k else acc) n

abbrev pub milli_sqrt : Milli → Milli
milli_sqrt (some (pos n)) = some (pos (root_from 40 0 (n * 1000)))
milli_sqrt _ = none

-- A stand-in for the exponential: 1 + x above zero, 1 / (1 - x) below.
abbrev milli_exp : Milli → Milli
milli_exp (some (pos n)) = some (pos (1000 + n))
milli_exp (some (negsuc n)) = some (pos (1_000_000 / (1001 + n)))
milli_exp none = none

abbrev milli_to_size : Milli → Option ℕ
milli_to_size (some (pos n)) = some (n / 1000)
milli_to_size _ = none

abbrev milli_to_int64 : Milli → Option ℤ
milli_to_int64 (some (pos n)) = some (pos (n / 1000))
milli_to_int64 (some (negsuc n)) = some (sub_ℕ 0 ((n + 1) / 1000))
milli_to_int64 none = none

abbrev milli_floor : Milli → Milli
milli_floor (some a) = some (div_floor a 1000 *ℤ pos 1000)
milli_floor none = none

abbrev milli_neg : Milli → Milli
milli_neg (some a) = some (pos 0 -ℤ a)
milli_neg none = none

instance abbrev pub milli : Double Milli
milli = record {
  add = lift₂ (λ a b. some (a +ℤ b));
  sub = lift₂ (λ a b. some (a -ℤ b));
  mul = lift₂ (λ a b. some (div_floor (a *ℤ b) 1000));
  div = lift₂ quotient;
  neg = milli_neg;
  lt = compare_by ltb_ℤ;
  le = compare_by leb_ℤ;
  of_int64 = λ a. some (a *ℤ pos 1000);
  of_uint64 = λ n. some (pos (n * 1000));
  decimal = λ m k. some (pos (m * 1000 / 10 ^ k));
  to_size = milli_to_size;
  to_int64 = milli_to_int64;
  floor = milli_floor;
  sqrt = milli_sqrt;
  exp = milli_exp;
}

abbrev milli_finite : Milli → Bool
milli_finite none = false
milli_finite (some a) = true

le_div : (x y k : ℕ) → 0 < k → x * k ≤ y → x ≤ y / k
le_div x y k p h = grind arith

div_lt : (x y k : ℕ) → y < x * k → y / k < x
div_lt x y k h = grind arith

mul_div_le : (a b : ℕ) → a ≤ 1000 → a * b / 1000 ≤ b
mul_div_le a b h = grind arith

milli_to_size_within :
    (x : Milli) (n : ℕ)
    → one ≼ x
    → x ≺ milli.of_uint64 n
    → (k : ℕ) × (milli.to_size x ≡ some k) × (1 ≤ k) × (k < n)
unfolding ◌*ℤ◌
milli_to_size_within none n h l = cc
milli_to_size_within (some (pos x)) n h l = (x / 1000, refl, ground arith, ground arith)
milli_to_size_within (some (negsuc x)) n h l = absurd (ground arith)

milli_mul_le :
    (x y : Milli) → milli_finite y ≡ true → nought ≼ x → x ≼ one → nought ≼ y → milli.mul x y ≼ y
unfolding ◌*ℤ◌
milli_mul_le none y f a b c = cc
milli_mul_le (some x) none f a b c = cc
milli_mul_le (some (negsuc x)) (some y) f a b c = absurd (ground arith)
milli_mul_le (some (pos x)) (some (negsuc y)) f a b c = absurd (ground arith)
milli_mul_le (some (pos x)) (some (pos y)) f a b c = ground (arith, mul_div_le x y)

-- A quotient of thousandths by a positive number of units.
quotient_units :
    (a : ℤ) (n : ℕ)
    → 0 < n
    → quotient (a *ℤ pos 1000) (pos (n * 1000))
      ≡ some (div_floor (a *ℤ pos 1000 *ℤ pos 1000) (n * 1000))
quotient_units a n h = let e : n * 1000 ≡ suc (n * 1000 - 1) = omega arith in rw e refl

scale_pos : (x : ℕ) → pos x *ℤ pos 1000 ≡ pos (x * 1000)
unfolding ◌*ℤ◌
scale_pos x = ground arith

scale_negsuc : (x : ℕ) → negsuc x *ℤ pos 1000 ≡ negsuc (x * 1000 + 999)
unfolding ◌*ℤ◌
scale_negsuc x = ground arith

ruleset scaling = (scale_pos, scale_negsuc)

div_units_above :
    (a lo : ℤ) (n : ℕ)
    → 0 < n
    → pos n *ℤ lo ≤ℤ a
    → lo *ℤ pos 1000 ≤ℤ div_floor (a *ℤ pos 1000 *ℤ pos 1000) (n * 1000)
div_units_above (pos x) (pos l) n p h = simp scaling (
    omega (
      arith,
      times_parts n (pos l),
      le_div (l * 1000) (x * 1000 * 1000) (n * 1000) (omega arith)
          (omega (arith, times_parts n (pos l))),
    ))
div_units_above (negsuc x) (pos l) n p h = absurd (omega (arith, times_parts n (pos l)))
div_units_above (pos x) (negsuc l) n p h = simp scaling (omega arith)
div_units_above (negsuc x) (negsuc l) n p h = simp scaling (
    omega (
      arith,
      div_lt ((l + 1) * 1000) ((x * 1000 + 999) * 1000 + 999) (n * 1000)
          (omega (arith, times_parts n (negsuc l))),
    ))

div_units_below :
    (a hi : ℤ) (n : ℕ)
    → 0 < n
    → a ≤ℤ pos n *ℤ hi
    → div_floor (a *ℤ pos 1000 *ℤ pos 1000) (n * 1000) ≤ℤ hi *ℤ pos 1000
div_units_below (pos x) (pos l) n p h = simp scaling (
    omega (
      arith,
      div_lt (l * 1000 + 1) (x * 1000 * 1000) (n * 1000) (omega (arith, times_parts n (pos l))),
    ))
div_units_below (pos x) (negsuc l) n p h = absurd (grind (arith, times_parts n (negsuc l)))
div_units_below (negsuc x) (pos l) n p h = simp scaling (omega arith)
div_units_below (negsuc x) (negsuc l) n p h = simp scaling (
    omega (
      arith,
      le_div (l * 1000 + 999) ((x * 1000 + 999) * 1000 + 999) (n * 1000) (omega arith)
          (omega (arith, times_parts n (negsuc l))),
    ))

milli_div_above :
    (a lo : ℤ) (n : ℕ)
    → Fits 53 a
    → 0 < n
    → n ≤ 2 ^ 53
    → pos n *ℤ lo ≤ℤ a
    → milli.of_int64 lo ≼ milli.div (milli.of_int64 a) (milli.of_uint64 n)
milli_div_above a lo n f p q h =
    rw (quotient_units a n p) (ground (arith, div_units_above a lo n p h))

milli_div_below :
    (a hi : ℤ) (n : ℕ)
    → Fits 53 a
    → 0 < n
    → n ≤ 2 ^ 53
    → a ≤ℤ pos n *ℤ hi
    → milli.div (milli.of_int64 a) (milli.of_uint64 n) ≼ milli.of_int64 hi
milli_div_below a hi n f p q h =
    rw (quotient_units a n p) (ground (arith, div_units_below a hi n p h))

milli_square_nonneg : (x : Milli) → x ≼ x → nought ≼ milli.mul x x
unfolding ◌*ℤ◌
milli_square_nonneg none h = cc
milli_square_nonneg (some (pos n)) h = ground arith
milli_square_nonneg (some (negsuc n)) h = ground arith

milli_div_nonneg :
    (x : Milli) (n : ℕ) → nought ≼ x → 0 < n → nought ≼ milli.div x (milli.of_uint64 n)
unfolding ◌*ℤ◌
milli_div_nonneg none n h p = cc
milli_div_nonneg (some (pos x)) n h p =
    let e : n * 1000 ≡ suc (n * 1000 - 1) = omega arith in rw e (ground arith)
milli_div_nonneg (some (negsuc x)) n h p = absurd (ground arith)

milli_zero-div : (n : ℕ) → 0 < n → milli.div (milli.of_uint64 0) (milli.of_uint64 n) ≡ nought
unfolding ◌*ℤ◌
milli_zero-div n h = let e : n * 1000 ≡ suc (n * 1000 - 1) = omega arith in rw e (ground arith)

mul_neg_div_lt : (x y : ℕ) → x ≤ 1000 → (x * suc y - 1) / 1000 < suc y
mul_neg_div_lt x y h = let room : x * suc y ≤ 1000 * suc y = grind arith in omega arith

milli_mul_nonpos :
    (x y : Milli)
    → milli_finite x ≡ true
    → y ≼ y
    → nought ≺ x
    → x ≼ one
    → y ≼ nought
    → (milli.mul x y ≼ nought) × (y ≼ milli.mul x y)
unfolding ◌*ℤ◌
milli_mul_nonpos none y f g a b c = cc
milli_mul_nonpos (some x) none f g a b c = cc
milli_mul_nonpos (some (negsuc x)) (some y) f g a b c = absurd (ground arith)
milli_mul_nonpos (some (pos x)) (some (pos y)) f g a b c = ground (arith, mul_div_le x y)
milli_mul_nonpos (some (pos x)) (some (negsuc y)) f g a b c = ground (arith, mul_neg_div_lt x y)

milli_mul_between :
    (x y : Milli)
    → milli_finite x ≡ true
    → y ≼ y
    → nought ≺ x
    → x ≼ one
    → nought ≼ y
    → (nought ≼ milli.mul x y) × (milli.mul x y ≼ y)
unfolding ◌*ℤ◌
milli_mul_between none y f g a b c = cc
milli_mul_between (some x) none f g a b c = cc
milli_mul_between (some (negsuc x)) (some y) f g a b c = absurd (ground arith)
milli_mul_between (some (pos x)) (some (negsuc y)) f g a b c = absurd (ground arith)
milli_mul_between (some (pos x)) (some (pos y)) f g a b c = ground (arith, mul_div_le x y)

mul_div_mono : (a b c : ℕ) → a ≤ b → a * c / 1000 ≤ b * c / 1000
mul_div_mono a b c h = let more : a * c ≤ b * c = grind arith in omega arith

mul_pred_div_mono : (a b c : ℕ) → a ≤ b → (a * suc c - 1) / 1000 ≤ (b * suc c - 1) / 1000
mul_pred_div_mono a b c h = let more : a * suc c ≤ b * suc c = grind arith in omega arith

milli_mul_mono :
    (x y z : Milli)
    → milli_finite y ≡ true
    → nought ≺ x
    → x ≼ y
    → nought ≼ z
    → milli.mul x z ≼ milli.mul y z
unfolding ◌*ℤ◌
milli_mul_mono none y z f p h k = cc
milli_mul_mono (some x) none z f p h k = cc
milli_mul_mono (some x) (some y) none f p h k = cc
milli_mul_mono (some (negsuc x)) (some y) (some z) f p h k = absurd (ground arith)
milli_mul_mono (some (pos x)) (some (negsuc y)) (some z) f p h k = absurd (ground arith)
milli_mul_mono (some (pos x)) (some (pos y)) (some (negsuc z)) f p h k = absurd (ground arith)
milli_mul_mono (some (pos x)) (some (pos y)) (some (pos z)) f p h k =
    ground (arith, mul_div_mono x y z)

milli_mul_anti :
    (x y z : Milli)
    → milli_finite y ≡ true
    → nought ≺ x
    → x ≼ y
    → z ≼ nought
    → milli.mul y z ≼ milli.mul x z
unfolding ◌*ℤ◌
milli_mul_anti none y z f p h k = cc
milli_mul_anti (some x) none z f p h k = cc
milli_mul_anti (some x) (some y) none f p h k = cc
milli_mul_anti (some (negsuc x)) (some y) (some z) f p h k = absurd (ground arith)
milli_mul_anti (some (pos x)) (some (negsuc y)) (some z) f p h k = absurd (ground arith)
milli_mul_anti (some (pos x)) (some (pos y)) (some (pos z)) f p h k =
    let z0 : z ≡ 0 = ground arith in rw z0 (ground arith)
milli_mul_anti (some (pos x)) (some (pos y)) (some (negsuc z)) f p h k =
    ground (arith, mul_pred_div_mono x y z)

power_pos : (k : ℕ) → 0 < 10 ^ k
power_pos zero = omega arith
power_pos (suc k) = omega (arith, power_pos k)

milli_decimal_within :
    (m k : ℕ) → m ≤ 10 ^ k → (nought ≼ milli.decimal m k) × (milli.decimal m k ≼ one)
unfolding ◌*ℤ◌
milli_decimal_within m k h =
    let part = div_lt 1001 (m * 1000) (10 ^ k) (omega (arith, power_pos k)) in
    (ground arith, ground (arith, part))

pub Milli-IsIeee : IsIeee Milli
unfolding ◌+ℤ◌ ◌-ℤ◌ ◌*ℤ◌
Milli-IsIeee = record {
  is_finite = milli_finite;
  refl_of_finite = ground arith;
  le_trans = ground arith;
  refl_of_le = ground arith;
  le_of_not_lt = ground arith;
  le_of_lt = ground arith;
  lt_of_not_le = ground arith;
  not_le_of_lt = ground arith;
  nan_not_lt = ground arith;
  nan_not_le = ground arith;
  nan-mul = ground arith;
  nan-to_size = ground arith;
  finite-of_int64 = ground arith;
  of_int64-mono = ground arith;
  finite-of_uint64 = ground arith;
  to_int64-of_int64 = ground arith;
  to_size_within = milli_to_size_within;
  finite_of_size = ground arith;
  decimal_within = milli_decimal_within;
  mul-reflexive = ground arith;
  finite-frac = ground arith;
  frac_bounds = ground arith;
  finite-sub_of_int64 = ground arith;
  sub_nonneg = ground arith;
  mul_nonneg = ground arith;
  mul_le = milli_mul_le;
  le_add = ground arith;
  add_mono = ground arith;
  add_sub_exact = ground arith;
  div_above = milli_div_above;
  div_below = milli_div_below;
  finite_between = ground arith;
  sub-reflexive = ground arith;
  square_nonneg = milli_square_nonneg;
  add_nonneg = ground arith;
  div_nonneg = milli_div_nonneg;
  sqrt_nonneg = ground arith;
  zero-div = milli_zero-div;
  sub_nonpos = ground arith;
  mul_nonpos = milli_mul_nonpos;
  mul_between = milli_mul_between;
  mul_mono = milli_mul_mono;
  mul_anti = milli_mul_anti;
  add_le = ground arith;
  add_zero_sub = ground arith;
}

pub Milli-finite : (a : ℤ) → Milli-IsIeee.is_finite (some a) ≡ true
unfolding Milli-IsIeee
Milli-finite a = refl
