-- ===== src/Double/Laws.antt =====
-- The operations of `double` and their laws. Each law is one of rounding to nearest: rounding is
-- monotone, keeps a value that is representable, and integers up to 2 ^ 53 are representable. A value
-- that is not finite is an infinity or a NaN; a law that takes any other value covers the infinities.
-- `of_int64` and `of_uint64` are asked only about numbers of 64 bits by the code; any other number
-- counts as the nearest of those.
use cppmetrics.Prelude.{
  ℕ, ◌^◌, ◌≤◌, ◌<◌, ◌≡◌, Bool, true, false, Option, none, some, ℤ, pos, negsuc, ◌≤ℤ◌, ◌*ℤ◌, ◌-◌,
}

pub record Double (W : Type 0) : Type 0 where
  pub add : W → W → W
  pub sub : W → W → W
  pub mul : W → W → W
  pub div : W → W → W
  pub neg : W → W
  pub lt : W → W → Bool
  pub le : W → W → Bool
  pub of_int64 : ℤ → W
  pub of_uint64 : ℕ → W
  -- `decimal m k` is the literal m / 10 ^ k.
  pub decimal : ℕ → ℕ → W
  -- Conversions to an integer are undefined on a NaN and out of range.
  pub to_size : W → Option ℕ
  pub to_int64 : W → Option ℤ
  pub floor : W → W
  pub sqrt : W → W
  pub exp : W → W

infix 4 ◌≼◌ ◌≺◌
abbrev pub ◌≼◌ : {W : Type 0} ⦃d : Double W⦄ → W → W → Type 0
◌≼◌ ⦃d⦄ x y = d.le x y ≡ true

abbrev pub ◌≺◌ : {W : Type 0} ⦃d : Double W⦄ → W → W → Type 0
◌≺◌ ⦃d⦄ x y = d.lt x y ≡ true

-- `std::isnan`.
abbrev pub is_nan : {W : Type 0} ⦃d : Double W⦄ → W → Bool
is_nan ⦃d⦄ x = elim (d.le x x) [ true ↦ false | false ↦ true ]

abbrev pub nought : {W : Type 0} ⦃d : Double W⦄ → W
nought ⦃d⦄ = d.of_int64 (pos 0)

abbrev pub one : {W : Type 0} ⦃d : Double W⦄ → W
one ⦃d⦄ = d.of_int64 (pos 1)

-- An integer from -(2 ^ k) to 2 ^ k.
pub record Fits (k : ℕ) (z : ℤ) : Type 0 where
  pub above : negsuc (2 ^ k - 1) ≤ℤ z
  pub below : z ≤ℤ pos (2 ^ k)

pub record IsIeee (W : Type 0) ⦃d : Double W⦄ : Type 0 where
  pub is_finite : W → Bool
  pub refl_of_finite : (x : W) → is_finite x ≡ true → x ≼ x
  pub le_trans : (x y z : W) → x ≼ y → y ≼ z → x ≼ z
  pub refl_of_le : (x y : W) → x ≼ y → (x ≼ x) × (y ≼ y)
  pub le_of_not_lt : (x y : W) → x ≼ x → y ≼ y → d.lt x y ≡ false → y ≼ x
  pub le_of_lt : (x y : W) → x ≺ y → x ≼ y
  pub lt_of_not_le : (x y : W) → x ≼ x → y ≼ y → d.le x y ≡ false → y ≺ x
  pub not_le_of_lt : (x y : W) → x ≺ y → d.le y x ≡ false
  -- comparisons and conversions of a NaN
  pub nan_not_lt : (x y : W) → d.le x x ≡ false → (d.lt x y ≡ false) × (d.lt y x ≡ false)
  pub nan_not_le : (x y : W) → d.le x x ≡ false → d.le y x ≡ false
  pub nan-mul : (x y : W) → d.le x x ≡ false → d.le (d.mul x y) (d.mul x y) ≡ false
  pub nan-to_size : (x : W) → d.le x x ≡ false → d.to_size x ≡ none
  -- integers
  pub finite-of_int64 : (a : ℤ) → is_finite (d.of_int64 a) ≡ true
  pub of_int64-mono : (a b : ℤ) → a ≤ℤ b → d.of_int64 a ≼ d.of_int64 b
  pub finite-of_uint64 : (n : ℕ) → is_finite (d.of_uint64 n) ≡ true
  pub to_int64-of_int64 : (a : ℤ) → Fits 53 a → d.to_int64 (d.of_int64 a) ≡ some a
  pub to_size_within :
      (x : W) (n : ℕ)
      → one ≼ x
      → x ≺ d.of_uint64 n
      → (k : ℕ) × (d.to_size x ≡ some k) × (1 ≤ k) × (k < n)
  pub finite_of_size : (x : W) (n : ℕ) → one ≼ x → x ≺ d.of_uint64 n → is_finite x ≡ true
  -- literals
  pub decimal_within : (m k : ℕ) → m ≤ 10 ^ k → (nought ≼ d.decimal m k) × (d.decimal m k ≼ one)
  -- arithmetic
  pub mul-reflexive :
      (x : W) (n : ℕ) → nought ≼ x → x ≼ one → d.mul x (d.of_uint64 n) ≼ d.mul x (d.of_uint64 n)
  pub finite-frac : (x : W) → is_finite x ≡ true → is_finite (d.sub x (d.floor x)) ≡ true
  pub frac_bounds :
      (x : W) → is_finite x ≡ true → (nought ≼ d.sub x (d.floor x)) × (d.sub x (d.floor x) ≼ one)
  pub finite-sub_of_int64 : (a b : ℤ) → is_finite (d.sub (d.of_int64 a) (d.of_int64 b)) ≡ true
  pub sub_nonneg : (x y : W) → is_finite x ≡ true → x ≼ y → nought ≼ d.sub y x
  pub mul_nonneg :
      (x y : W)
      → is_finite x ≡ true
      → is_finite y ≡ true
      → nought ≼ x
      → nought ≼ y
      → nought ≼ d.mul x y
  pub mul_le : (x y : W) → is_finite y ≡ true → nought ≼ x → x ≼ one → nought ≼ y → d.mul x y ≼ y
  pub le_add : (x y : W) → is_finite x ≡ true → nought ≼ y → x ≼ d.add x y
  pub add_mono : (x y z : W) → is_finite x ≡ true → y ≼ z → d.add x y ≼ d.add x z
  pub add_sub_exact :
      (a b : ℤ)
      → Fits 52 a
      → Fits 52 b
      → d.add (d.of_int64 a) (d.sub (d.of_int64 b) (d.of_int64 a)) ≼ d.of_int64 b
  pub div_above :
      (a lo : ℤ) (n : ℕ)
      → Fits 53 a
      → 0 < n
      → n ≤ 2 ^ 53
      → pos n *ℤ lo ≤ℤ a
      → d.of_int64 lo ≼ d.div (d.of_int64 a) (d.of_uint64 n)
  pub div_below :
      (a hi : ℤ) (n : ℕ)
      → Fits 53 a
      → 0 < n
      → n ≤ 2 ^ 53
      → a ≤ℤ pos n *ℤ hi
      → d.div (d.of_int64 a) (d.of_uint64 n) ≼ d.of_int64 hi
  pub finite_between :
      (x y z : W) → is_finite x ≡ true → is_finite z ≡ true → x ≼ y → y ≼ z → is_finite y ≡ true
  pub sub-reflexive : (x y : W) → is_finite x ≡ true → is_finite y ≡ true → d.sub x y ≼ d.sub x y
  pub square_nonneg : (x : W) → x ≼ x → nought ≼ d.mul x x
  pub add_nonneg : (x y : W) → nought ≼ x → nought ≼ y → nought ≼ d.add x y
  pub div_nonneg : (x : W) (n : ℕ) → nought ≼ x → 0 < n → nought ≼ d.div x (d.of_uint64 n)
  pub sqrt_nonneg : (x : W) → nought ≼ x → nought ≼ d.sqrt x
  pub zero-div : (n : ℕ) → 0 < n → d.div (d.of_uint64 0) (d.of_uint64 n) ≡ nought
  pub sub_nonpos : (x y : W) → is_finite y ≡ true → x ≼ y → d.sub x y ≼ nought
  pub mul_nonpos :
      (x y : W)
      → is_finite x ≡ true
      → y ≼ y
      → nought ≺ x
      → x ≼ one
      → y ≼ nought
      → (d.mul x y ≼ nought) × (y ≼ d.mul x y)
  pub mul_between :
      (x y : W)
      → is_finite x ≡ true
      → y ≼ y
      → nought ≺ x
      → x ≼ one
      → nought ≼ y
      → (nought ≼ d.mul x y) × (d.mul x y ≼ y)
  pub mul_mono :
      (x y z : W) → is_finite y ≡ true → nought ≺ x → x ≼ y → nought ≼ z → d.mul x z ≼ d.mul y z
  pub mul_anti :
      (x y z : W) → is_finite y ≡ true → nought ≺ x → x ≼ y → z ≼ nought → d.mul y z ≼ d.mul x z
  pub add_le : (x y : W) → is_finite x ≡ true → y ≼ nought → d.add x y ≼ x
  pub add_zero_sub : (x : W) → is_finite x ≡ true → nought ≼ d.add x (d.sub nought x)
