-- ===== src/Meter.antt =====
-- src/cppmetrics/core/meter.h, meter.cpp and metered.h: a count of events with the mean rate and
-- three moving averages. The clock's reading, in nanoseconds since its epoch, is an argument of each
-- call that reads it. The calls here run alone, so the compare-and-swap on `last_tick_` finds the
-- value that was read; `Threads` has it under contention.
pub mod Ticks
pub mod Counting
pub mod Alignment
pub mod Threads
pub mod Marks
use cppmetrics.Prelude.{
  ℕ, zero, suc, ◌+◌, ◌-◌, ◌*◌, ◌/◌, ◌%◌, ℤ, pos, wrap_uint64, uint64_mod, int64_to_uint64,
  uint64_to_int64, ltb, if◌then◌else◌,
}
use cppmetrics.Double.{Double, nought}
use cppmetrics.Ewma.{
  Ewma, one_minute_ewma, five_minute_ewma, fifteen_minute_ewma, copy, nanos_per_sec,
}
use cppmetrics.Ewma

abbrev pub tick_interval : ℕ
tick_interval = 5 * nanos_per_sec

pub record Meter (W : Type 0) : Type 0 where
  -- a signed count of nanoseconds
  pub rate_unit : ℤ
  pub count : ℕ
  pub start_time : ℕ
  pub last_tick : ℕ
  pub m1_rate : Ewma W
  pub m5_rate : Ewma W
  pub m15_rate : Ewma W

-- The unsigned difference of two readings.
abbrev pub sub_uint64 : ℕ → ℕ → ℕ
sub_uint64 a b = wrap_uint64 (a + uint64_mod - b)

module _ {W : Type 0} ⦃d : Double W⦄ where
  open d use {mul, div, of_int64, of_uint64}

  -- The constructor.
  unfoldable pub meter : ℤ → ℕ → Meter W
  unfolding one_minute_ewma five_minute_ewma fifteen_minute_ewma copy
  meter rate_unit now = record {
    rate_unit = rate_unit;
    count = 0;
    start_time = now;
    last_tick = now;
    m1_rate = copy one_minute_ewma;
    m5_rate = copy five_minute_ewma;
    m15_rate = copy fifteen_minute_ewma;
  }

  unfoldable pub get_count : Meter W → ℕ
  get_count m = m.count

  unfoldable pub tick : Meter W → Meter W
  tick m = record m {
    m1_rate = Ewma.tick m.m1_rate;
    m5_rate = Ewma.tick m.m5_rate;
    m15_rate = Ewma.tick m.m15_rate;
  }

  -- The loop over `required_ticks`.
  unfoldable pub tick_times : ℕ → Meter W → Meter W
  unfolding tick
  tick_times zero m = m
  tick_times (suc n) m = tick_times n (tick m)

  unfoldable pub tick_if_necessary : Meter W → ℕ → Meter W
  unfolding tick_times
  tick_if_necessary m cur_tick =
      let age = sub_uint64 cur_tick m.last_tick in
      if ltb tick_interval age
      then tick_times (age / tick_interval)
          (record m { last_tick = sub_uint64 cur_tick (age % tick_interval) })
      else m

  unfoldable pub mark : Meter W → ℕ → ℕ → Meter W
  unfolding tick_if_necessary
  mark m now n =
      let m' = tick_if_necessary m now in
      record m' {
        count = wrap_uint64 (m'.count + n);
        m1_rate = Ewma.update m'.m1_rate n;
        m5_rate = Ewma.update m'.m5_rate n;
        m15_rate = Ewma.update m'.m15_rate n;
      }

  -- The rates tick first, and are per second.
  unfoldable pub get_one_minute_rate : Meter W → ℕ → W × Meter W
  unfolding tick_if_necessary
  get_one_minute_rate m now =
      let m' = tick_if_necessary m now in (Ewma.get_rate m'.m1_rate (pos nanos_per_sec), m')

  unfoldable pub get_five_minute_rate : Meter W → ℕ → W × Meter W
  unfolding tick_if_necessary
  get_five_minute_rate m now =
      let m' = tick_if_necessary m now in (Ewma.get_rate m'.m5_rate (pos nanos_per_sec), m')

  unfoldable pub get_fifteen_minute_rate : Meter W → ℕ → W × Meter W
  unfolding tick_if_necessary
  get_fifteen_minute_rate m now =
      let m' = tick_if_necessary m now in (Ewma.get_rate m'.m15_rate (pos nanos_per_sec), m')

  -- `c * rate_unit_.count()` is computed in `uint64_t`; the elapsed time is a signed count.
  unfoldable pub get_mean_rate : Meter W → ℕ → W
  get_mean_rate m now =
      if ltb 0 m.count
      then div (of_uint64 (wrap_uint64 (m.count * int64_to_uint64 m.rate_unit)))
          (of_int64 (uint64_to_int64 (sub_uint64 now m.start_time)))
      else nought
