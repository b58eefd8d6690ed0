-- ===== src/Histogram.antt =====
-- src/cppmetrics/core/histogram.h, histogram.cpp, sample.h and sampling.h: a count and one of the two
-- reservoirs, chosen when the histogram is made. The clock's reading, in nanoseconds, and the seed
-- of the generator are arguments of the calls that read them; `count_` is an atomic.
pub mod Recording
pub mod Kept
use cppmetrics.Prelude.{ℕ, zero, suc, ◌+◌, ◌≡◌, List, [], ◌∷◌, ℤ, pos, wrap_uint64, String}
use cppmetrics.Outcome.{Outcome, returns, throws, ◌>>=◌, invalid_argument}
use cppmetrics.Double.{Double}
use cppmetrics.Random.{Rng}
use cppmetrics.Snapshot.{Snapshot}
use cppmetrics.UniformSample.{UniformSample, uniform_sample, default_sample_size}
use cppmetrics.UniformSample
use cppmetrics.ExpDecaySample.{
  ExpDecaySample, exp_decay_sample, default_reservoir_size, default_alpha,
}
use cppmetrics.ExpDecaySample

-- `SampleType`, an enum that the constructor does not trust.
pub data SampleType : Type 0 where
  k_uniform : SampleType
  k_biased : SampleType
  other_sample_type : ℕ → SampleType

-- `Sample`, the interface of the reservoirs, by its two implementations.
pub data Sample (R W : Type 0) : Type 0 where
  uniform : UniformSample R → Sample R W
  biased : ExpDecaySample R W → Sample R W

pub record Histogram (R W : Type 0) : Type 0 where
  pub sample : Sample R W
  pub count : ℕ

module _ {R W : Type 0} ⦃d : Double W⦄ where
  -- `sample_->clear()`.
  unfoldable pub clear_sample : Sample R W → ℤ → Outcome (Sample R W)
  unfolding UniformSample.clear ExpDecaySample.clear
  clear_sample (uniform s) now = UniformSample.clear s >>= λ t. returns (uniform t)
  clear_sample (biased s) now = returns (biased (ExpDecaySample.clear s now))

  unfoldable pub clear : Histogram R W → ℤ → Outcome (Histogram R W)
  unfolding clear_sample
  clear h now = clear_sample h.sample now >>= λ s. returns (record { sample = s; count = 0 })

  unfoldable pub get_count : Histogram R W → ℕ
  get_count h = h.count

  -- `sample_->getSnapshot()`.
  unfoldable pub sample_snapshot : Sample R W → Snapshot
  sample_snapshot (uniform s) = UniformSample.get_snapshot s
  sample_snapshot (biased s) = ExpDecaySample.get_snapshot s

  unfoldable pub get_snapshot : Histogram R W → Snapshot
  unfolding sample_snapshot
  get_snapshot h = sample_snapshot h.sample

  -- `sample_->size()`.
  unfoldable pub sample_size : Sample R W → ℕ
  sample_size (uniform s) = UniformSample.size s
  sample_size (biased s) = ExpDecaySample.size s

  module _ (g : Rng R W) where
    -- The reservoirs at their default sizes.
    unfoldable pub new_sample : SampleType → ℤ → ℕ → Outcome (Sample R W)
    unfolding uniform_sample exp_decay_sample
    new_sample k_uniform now millis =
        returns (uniform (uniform_sample g default_sample_size millis))
    new_sample k_biased now millis =
        returns (biased (exp_decay_sample g default_reservoir_size default_alpha now millis))
    new_sample (other_sample_type n) now millis = throws (invalid_argument "invalid sample_type.")

    -- The constructor.
    unfoldable pub histogram : SampleType → ℤ → ℕ → Outcome (Histogram R W)
    unfolding new_sample clear
    histogram sample_type now millis =
        new_sample sample_type now millis >>= λ s. clear (record { sample = s; count = 0 }) now

    -- `sample_->update(value)`.
    unfoldable pub update_sample : ℕ → Sample R W → ℤ → ℤ → Outcome (Sample R W)
    unfolding UniformSample.update ExpDecaySample.update
    update_sample fuel (uniform s) value now =
        UniformSample.update g s value >>= λ t. returns (uniform t)
    update_sample fuel (biased s) value now =
        ExpDecaySample.update g fuel s value now >>= λ t. returns (biased t)

    unfoldable pub update : ℕ → Histogram R W → ℤ → ℤ → Outcome (Histogram R W)
    unfolding update_sample
    update fuel h value now = update_sample fuel h.sample value now >>= λ s.
        returns (record { sample = s; count = wrap_uint64 (h.count + 1) })
