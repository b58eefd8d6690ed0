-- ===== src/Counter.antt =====
-- src/cppmetrics/core/counter.h: a counter is one `boost::atomic<int64_t>`, so each operation is one
-- indivisible step, and its arithmetic wraps around.
pub mod Interleaving
use cppmetrics.Prelude.{List, [], ◌∷◌, ℤ, pos, ◌+ℤ◌, ◌-ℤ◌, wrap_int64}

pub record Counter : Type 0 where
  pub count : ℤ

-- The constructor.
unfoldable pub counter : ℤ → Counter
counter n = record { count = n }

unfoldable pub get_count : Counter → ℤ
get_count c = c.count

unfoldable pub set_count : Counter → ℤ → Counter
set_count c n = record c { count = n }

unfoldable pub increment : Counter → ℤ → Counter
increment c n = record c { count = wrap_int64 (c.count +ℤ n) }

unfoldable pub decrement : Counter → ℤ → Counter
decrement c n = record c { count = wrap_int64 (c.count -ℤ n) }

unfoldable pub clear : Counter → Counter
unfolding set_count
clear c = set_count c (pos 0)

-- A call that some thread makes on a shared counter.
pub data Call : Type 0 where
  sets increments decrements : ℤ → Call
  clears : Call

unfoldable pub step : Counter → Call → Counter
unfolding set_count increment decrement clear
step c (sets n) = set_count c n
step c (increments n) = increment c n
step c (decrements n) = decrement c n
step c clears = clear c

unfoldable pub run : Counter → List Call → Counter
unfolding step
run c [] = c
run c (x ∷ xs) = run (step c x) xs
