-- ===== src/Metered.antt =====
-- src/cppmetrics/core/metered.h, the interface of what counts events and their rates, and the classes
-- that implement it: that of core/meter.h, which forwards to `impl_`, and that of core/timer.h.
use cppmetrics.Prelude.{ℕ, ℤ}
use cppmetrics.Double.{Double}
use cppmetrics.Meter.{Meter, meter, mark}
use cppmetrics.Meter
use cppmetrics.Timer.{Timer}
use cppmetrics.Timer

-- The getters of an object whose state is in `S`, at a reading of the clock. A rate may tick.
pub record MeteredClass (S W : Type 0) : Type 0 where
  pub get_count : S → ℕ
  pub get_fifteen_minute_rate : S → ℕ → W × S
  pub get_five_minute_rate : S → ℕ → W × S
  pub get_one_minute_rate : S → ℕ → W × S
  pub get_mean_rate : S → ℕ → W

-- `Meter`, which is a `Metered` that events are marked on.
pub record MeterClass (S W : Type 0) : Type 0 where
  pub create : ℤ → ℕ → S
  pub metered : MeteredClass S W
  pub mark : S → ℕ → ℕ → S

module _ {W : Type 0} ⦃d : Double W⦄ where
  unfoldable pub meter_class : MeterClass (Meter W) W
  unfolding meter mark Meter.get_count Meter.get_fifteen_minute_rate Meter.get_five_minute_rate
      Meter.get_one_minute_rate Meter.get_mean_rate
  meter_class = record {
    create = meter;
    metered = record {
      get_count = Meter.get_count;
      get_fifteen_minute_rate = Meter.get_fifteen_minute_rate;
      get_five_minute_rate = Meter.get_five_minute_rate;
      get_one_minute_rate = Meter.get_one_minute_rate;
      get_mean_rate = Meter.get_mean_rate;
    };
    mark = Meter.mark;
  }

module _ {R W : Type 0} ⦃d : Double W⦄ where
  unfoldable pub timer_class : MeteredClass (Timer R W) W
  unfolding Timer.get_count Timer.get_fifteen_minute_rate Timer.get_five_minute_rate
      Timer.get_one_minute_rate Timer.get_mean_rate
  timer_class = record {
    get_count = Timer.get_count;
    get_fifteen_minute_rate = Timer.get_fifteen_minute_rate;
    get_five_minute_rate = Timer.get_five_minute_rate;
    get_one_minute_rate = Timer.get_one_minute_rate;
    get_mean_rate = Timer.get_mean_rate;
  }
