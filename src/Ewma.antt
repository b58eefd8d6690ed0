-- ===== src/Ewma.antt =====
-- src/cppmetrics/core/ewma.h and ewma.cpp: an exponentially weighted moving average of a rate.
-- Each call is one step here, so the compare-and-swap in `tick` finds the value that it has just read;
-- `Threads` has the calls of several threads.
pub mod Decay
pub mod Threads
pub mod Taken
pub mod Alone
pub mod Linear
use cppmetrics.Prelude.{ℕ, ◌+◌, ◌*◌, Bool, true, false, ℤ, pos, negsuc, wrap_uint64, if◌then◌else◌}
use cppmetrics.Double.{Double, nought, one}

pub record Ewma (W : Type 0) : Type 0 where
  pub initialized : Bool
  pub ewma : W
  pub uncounted : ℕ
  pub alpha : W
  pub interval_nanos : ℕ

abbrev pub interval_in_sec : ℕ
interval_in_sec = 5

abbrev pub nanos_per_sec : ℕ
nanos_per_sec = 1_000_000_000

module _ {W : Type 0} ⦃d : Double W⦄ where
  open d use {add, sub, mul, div, of_int64, of_uint64, exp}

  -- The constructor; the interval is a count of nanoseconds.
  unfoldable pub ewma_of : W → ℕ → Ewma W
  ewma_of alpha interval = record {
    initialized = false;
    ewma = nought;
    uncounted = 0;
    alpha = alpha;
    interval_nanos = interval;
  }

  -- The copy constructor, field by field.
  unfoldable pub copy : Ewma W → Ewma W
  copy other = record {
    initialized = other.initialized;
    ewma = other.ewma;
    uncounted = other.uncounted;
    alpha = other.alpha;
    interval_nanos = other.interval_nanos;
  }

  -- 1 - exp(-5 / (60 * minutes)): `M1_ALPHA`, `M5_ALPHA` and `M15_ALPHA`.
  abbrev pub alpha_of_minutes : ℕ → W
  alpha_of_minutes minutes =
      sub (of_int64 (pos 1)) (exp (div (of_int64 (negsuc 4)) (of_int64 (pos (60 * minutes)))))

  unfoldable pub one_minute_ewma : Ewma W
  unfolding ewma_of
  one_minute_ewma = ewma_of (alpha_of_minutes 1) (interval_in_sec * nanos_per_sec)

  unfoldable pub five_minute_ewma : Ewma W
  unfolding ewma_of
  five_minute_ewma = ewma_of (alpha_of_minutes 5) (interval_in_sec * nanos_per_sec)

  unfoldable pub fifteen_minute_ewma : Ewma W
  unfolding ewma_of
  fifteen_minute_ewma = ewma_of (alpha_of_minutes 15) (interval_in_sec * nanos_per_sec)

  unfoldable pub update : Ewma W → ℕ → Ewma W
  update e n = record e { uncounted = wrap_uint64 (e.uncounted + n) }

  -- The rate, per nanosecond, of the events since the last tick.
  abbrev pub instant_rate : Ewma W → W
  instant_rate e = div (of_uint64 e.uncounted) (of_uint64 e.interval_nanos)

  unfoldable pub tick : Ewma W → Ewma W
  tick e =
      if e.initialized
      then record e { ewma = add e.ewma (mul e.alpha (sub (instant_rate e) e.ewma)); uncounted = 0 }
      else record e { ewma = instant_rate e; initialized = true; uncounted = 0 }

  -- The duration is a count of nanoseconds.
  unfoldable pub get_rate : Ewma W → ℤ → W
  get_rate e duration = mul e.ewma (of_int64 duration)
