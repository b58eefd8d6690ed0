-- ===== src/Graphite/Units.antt =====
-- The unit of the rates in the constructor of scheduled_reporter.cpp.
use native.Mathlib.Nat.{div-mul-le_self, div-lt_iff_lt-mul, div-eq_of_lt}
use cppmetrics.Prelude.{ℕ, zero, suc, ◌+◌, ◌*◌, ◌/◌, ◌≤◌, ◌<◌, ◌≡◌, refl, String, pos, arith}
use cppmetrics.Outcome.{returns}
use cppmetrics.Double.{Double}
use cppmetrics.Graphite.{GraphiteReporter, graphite_reporter}

module _ {W : Type 0} ⦃d : Double W⦄ where
  -- A reporter with a rate unit of `n` milliseconds, at least one, multiplies its rates by the
  -- conversion of an integer `k`, the quotient of a second by the unit rounded down. Where the unit
  -- does not divide a second the factor is not the ratio, and for units longer than a second it is 0.
  pub graphite_reporter_lem :
      (prefix_text : String) (n : ℕ)
      → 0 < n
      → (r : GraphiteReporter W) × (k : ℕ) × (graphite_reporter prefix_text (pos n) ≡ returns r)
        × (r.rate_factor ≡ d.of_int64 (pos k))
        × (k * n ≤ 1000)
        × (1000 < (k + 1) * n)
        × (1000 < n → k ≡ 0)
  unfolding graphite_reporter
  graphite_reporter_lem prefix_text zero h = elim h [ ]
  graphite_reporter_lem prefix_text (suc n) h = (
    _,
    1000 / suc n,
    refl,
    refl,
    div-mul-le_self 1000 (suc n),
    (div-lt_iff_lt-mul h).0 (omega arith),
    λ long. div-eq_of_lt long,
  )
