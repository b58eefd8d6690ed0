-- ===== src/Console/Banner.antt =====
-- The width of a banner of console_reporter.cpp.
use Prim.Native.String.{String, ◌++◌, len}
use text.Mathlib.TextPositions.{len-append}
use cppmetrics.Prelude.{ℕ, zero, suc, ◌≤◌, ◌<◌, ◌^◌, ◌≡◌, refl, arith}
use cppmetrics.Console.{console_width, repeat, banner_bound, print_with_banner}

len-repeat : (n : ℕ) (sep : String) → len sep ≡ 1 → len (repeat n sep) ≡ n
unfolding repeat
len-repeat zero sep h = refl
len-repeat (suc n) sep h = omega (arith, len-append sep (repeat n sep), len-repeat n sep h, h)

-- With a separator of one byte: a text of at most 79 bytes is filled up to the width of the console,
-- while a text of 80 bytes or more, up to 2 ^ 63, is followed by more than 2 ^ 63 separators, since
-- the bound of the loop wraps.
pub len-print_with_banner :
    (s sep : String)
    → len sep ≡ 1
    → (len s ≤ 79 → len (print_with_banner s sep) ≡ console_width)
      × (80 ≤ len s → len s ≤ 2 ^ 63 → 2 ^ 63 < len (print_with_banner s sep))
unfolding print_with_banner
len-print_with_banner s sep h =
    let all = len-append (s ++ " ") (repeat (banner_bound s) sep) in
    let start = len-append s " " in
    let rest = len-repeat (banner_bound s) sep h in
    let space : len " " ≡ 1 = refl in
    (
      (λ short. omega (arith, all, start, rest, space)),
      (λ long bounded. omega (arith, all, start, rest, space)),
    )
