-- ===== src/Timer.antt =====
-- src/cppmetrics/core/timer.h, timer.cpp, timer_context.h and timer_context.cpp: durations in a
-- histogram, their rate in a meter, and the context that measures one. The samples read the clock
-- as a signed count of nanoseconds and the meter the same one as an unsigned count.
pub mod Durations
pub mod Contexts
use cppmetrics.Prelude.{
  ℕ, zero, suc, ◌≡◌, ℤ, pos, negsuc, ◌-ℤ◌, Bool, true, false, Option, int64_to_uint64,
  if◌then◌else◌,
}
use cppmetrics.Outcome.{Outcome, returns, ◌>>=◌, Exception}
use cppmetrics.Double.{Double}
use cppmetrics.Random.{Rng}
use cppmetrics.Snapshot.{Snapshot}
use cppmetrics.Histogram.{Histogram, histogram, k_biased}
use cppmetrics.Histogram
use cppmetrics.Meter.{Meter, meter}
use cppmetrics.Meter

pub record Timer (R W : Type 0) : Type 0 where
  pub meter_of : Meter W
  pub histogram_of : Histogram R W

-- `Meter`'s default rate unit, one second in nanoseconds.
abbrev pub default_rate_unit : ℤ
default_rate_unit = pos 1_000_000_000

module _ {R W : Type 0} ⦃d : Double W⦄ where
  unfoldable pub get_count : Timer R W → ℕ
  unfolding Histogram.get_count
  get_count t = Histogram.get_count t.histogram_of

  -- A rate, and the timer after the meter's ticks.
  abbrev pub reading : (Meter W → ℕ → W × Meter W) → Timer R W → ℕ → W × Timer R W
  reading rate t now = let (r, m) = rate t.meter_of now in (r, record t { meter_of = m })

  unfoldable pub get_fifteen_minute_rate : Timer R W → ℕ → W × Timer R W
  unfolding Meter.get_fifteen_minute_rate
  get_fifteen_minute_rate t now = reading Meter.get_fifteen_minute_rate t now

  unfoldable pub get_five_minute_rate : Timer R W → ℕ → W × Timer R W
  unfolding Meter.get_five_minute_rate
  get_five_minute_rate t now = reading Meter.get_five_minute_rate t now

  unfoldable pub get_one_minute_rate : Timer R W → ℕ → W × Timer R W
  unfolding Meter.get_one_minute_rate
  get_one_minute_rate t now = reading Meter.get_one_minute_rate t now

  unfoldable pub get_mean_rate : Timer R W → ℕ → W
  unfolding Meter.get_mean_rate
  get_mean_rate t now = Meter.get_mean_rate t.meter_of now

  unfoldable pub clear : Timer R W → ℤ → Outcome (Timer R W)
  unfolding Histogram.clear
  clear t now = Histogram.clear t.histogram_of now >>= λ h. returns (record t { histogram_of = h })

  unfoldable pub get_snapshot : Timer R W → Snapshot
  unfolding Histogram.get_snapshot
  get_snapshot t = Histogram.get_snapshot t.histogram_of

  module _ (g : Rng R W) where
    -- The constructor.
    unfoldable pub timer : ℤ → ℕ → Outcome (Timer R W)
    unfolding histogram meter
    timer now millis = histogram g k_biased now millis >>= λ h.
        returns
          (record { meter_of = meter default_rate_unit (int64_to_uint64 now); histogram_of = h })

    -- A negative duration is ignored.
    unfoldable pub update : ℕ → Timer R W → ℤ → ℤ → Outcome (Timer R W)
    unfolding Histogram.update Meter.mark
    update fuel t (negsuc duration) now = returns t
    update fuel t (pos count) now = Histogram.update g fuel t.histogram_of (pos count) now >>= λ h.
        returns
          (record { meter_of = Meter.mark t.meter_of (int64_to_uint64 now) 1; histogram_of = h })

-- A context, beside the timer that it refers to.
pub record TimerContext : Type 0 where
  pub start_time : ℤ
  pub active : Bool

unfoldable pub reset : TimerContext → ℤ → TimerContext
reset c now = record { start_time = now; active = true }

-- The constructor.
unfoldable pub timer_context : ℤ → TimerContext
unfolding reset
timer_context now = reset (record { start_time = pos 0; active = false }) now

module _ {R W : Type 0} ⦃d : Double W⦄ (g : Rng R W) where
  -- `stop`, with the duration returned.
  unfoldable pub stop : ℕ → TimerContext → Timer R W → ℤ → Outcome (ℤ × TimerContext × Timer R W)
  unfolding update
  stop fuel c t now =
      let dur = now -ℤ c.start_time in
      if c.active
      then (update g fuel t dur now >>= λ t'. returns (dur, record c { active = false }, t'))
      else returns (pos 0, c, t)

  -- The destructor.
  unfoldable pub destroy : ℕ → TimerContext → Timer R W → ℤ → Outcome (Timer R W)
  unfolding stop
  destroy fuel c t now = stop fuel c t now >>= λ (dur, c', t'). returns t'

  -- `Timer::time`. What `func` makes of the timer, the exception that it throws if it does, and the
  -- clock after it are arguments; the context is destroyed in either case.
  unfoldable pub time :
      ℕ
      → Timer R W
      → ℤ
      → (Timer R W → Timer R W × Option Exception)
      → ℤ
      → Outcome (Timer R W × Option Exception)
  unfolding destroy timer_context
  time fuel t start func end =
      let (t', thrown) = func t in
      destroy fuel (timer_context start) t' end >>= λ t''. returns (t'', thrown)
