-- ===== src/Prelude/Word.antt =====
-- Fixed-width integers: the unsigned ones are natural numbers below 2 ^ w, `int64_t` is an integer
-- in its range, and every conversion and wrap-around is written out.
use Prim.Native.Nat.{ℕ, ◌+◌, ◌-◌, ◌%◌, ◌^◌, ◌<◌}
use mathlib.Core.Path.{◌≡◌}
use native.Mathlib.Omega.{arith}
use cppmetrics.Prelude.Tests.{ltb, if◌then◌else◌}
use cppmetrics.Prelude.Int.{ℤ, pos, negsuc, pos_part, neg_part, ◌+ℤ◌, ◌≤ℤ◌, +ℤ_parts}

abbrev pub uint64_mod : ℕ
uint64_mod = 2 ^ 64

abbrev pub wrap_uint64 : ℕ → ℕ
wrap_uint64 n = n % uint64_mod

abbrev pub wrap_uint32 : ℕ → ℕ
wrap_uint32 n = n % 2 ^ 32

-- The bit pattern of an integer in 64 bits.
unfoldable pub residue64 : ℤ → ℕ
residue64 z = (pos_part z + (uint64_mod - neg_part z % uint64_mod)) % uint64_mod

-- The integer that a pattern of 64 bits stands for in two's complement.
abbrev pub uint64_to_int64 : ℕ → ℤ
uint64_to_int64 w = if ltb w (2 ^ 63) then pos w else negsuc (uint64_mod - w - 1)

abbrev pub int64_to_uint64 : ℤ → ℕ
int64_to_uint64 = residue64

abbrev pub wrap_int64 : ℤ → ℤ
wrap_int64 z = uint64_to_int64 (residue64 z)

pub record IsInt64 (z : ℤ) : Type 0 where
  pub above : negsuc (2 ^ 63 - 1) ≤ℤ z
  pub below : z ≤ℤ pos (2 ^ 63 - 1)

-- An integer in the range of `int64_t` is not changed.
pub wrap_int64_of : (z : ℤ) → IsInt64 z → wrap_int64 z ≡ z
unfolding residue64
wrap_int64_of z h = ground arith

residue64-of_uint64 : (w : ℕ) → w < uint64_mod → residue64 (uint64_to_int64 w) ≡ w
unfolding residue64
residue64-of_uint64 w h = ground arith

residue64-lt : (z : ℤ) → residue64 z < uint64_mod
unfolding residue64
residue64-lt z = omega arith

pub residue64-wrap_int64 : (z : ℤ) → residue64 (wrap_int64 z) ≡ residue64 z
residue64-wrap_int64 z = residue64-of_uint64 (residue64 z) (residue64-lt z)

pub wrap_int64-residue64 : (y z : ℤ) → residue64 y ≡ residue64 z → wrap_int64 y ≡ wrap_int64 z
wrap_int64-residue64 y z e = rw e

pub residue64_of_pos : (n : ℕ) → n < uint64_mod → residue64 (pos n) ≡ n
unfolding residue64
residue64_of_pos n h = omega arith

pub residue64-+ℤ : (a b : ℤ) → residue64 (a +ℤ b) ≡ (residue64 a + residue64 b) % uint64_mod
unfolding residue64
residue64-+ℤ a b = omega (arith, +ℤ_parts a b)

-- A wrap inside a sum does not show in the wrapped sum.
pub wrap_int64-+ℤ : (a b : ℤ) → wrap_int64 (wrap_int64 a +ℤ b) ≡ wrap_int64 (a +ℤ b)
wrap_int64-+ℤ a b =
    wrap_int64-residue64 (wrap_int64 a +ℤ b) (a +ℤ b)
      (rw (residue64-+ℤ (wrap_int64 a) b, residue64-+ℤ a b, residue64-wrap_int64 a))
