-- ===== src/Timer/Durations.antt =====
-- The count of a timer and the count of its meter, in timer.cpp.
use cppmetrics.Prelude.{
  ℕ, ◌+◌, ◌≡◌, refl, ap, sym, ◌∙◌, ℤ, pos, negsuc, ◌≤ℤ◌, wrap_uint64, int64_to_uint64, arith,
}
use cppmetrics.Outcome.{Returns, Returns->>=}
use cppmetrics.Double.{Double}
use cppmetrics.Random.{Rng, IsUniform}
use cppmetrics.Histogram.{Histogram}
use cppmetrics.Histogram
use cppmetrics.Histogram.Recording.{IsSound, Takes, update-IsSound, clear-IsCleared}
use cppmetrics.Meter.{Meter}
use cppmetrics.Meter
use cppmetrics.Meter.Counting.{count-tick_if_necessary}
use cppmetrics.Timer.{Timer, update, clear, get_count, get_mean_rate}

module _ {R W : Type 0} ⦃d : Double W⦄ where
  -- The two counts of a timer agree, and its reservoir is sound.
  pub record IsPaired (t : Timer R W) : Type 0 where
    pub sound : IsSound t.histogram_of.sample
    pub paired : get_count t ≡ Meter.get_count t.meter_of

  -- `clear` returns a timer that counts nothing, but its meter is the one before: the count of the
  -- meter and its rates are kept, the mean rate among them at every later time.
  pub clear_keeps_meter :
      (t : Timer R W) (now : ℤ)
      → IsSound t.histogram_of.sample
      → Returns
          (λ t'.
            (get_count t' ≡ 0)
            × (t'.meter_of ≡ t.meter_of)
            × ((later : ℕ) → get_mean_rate t' later ≡ get_mean_rate t later))
          (clear t now)
  unfolding clear get_count get_mean_rate
  clear_keeps_meter t now sound =
      Returns->>= _ (Histogram.clear t.histogram_of now) _
        (clear-IsCleared t.histogram_of now sound) (λ h c. (c.no_count, refl, λ later. refl))

  module _ (g : Rng R W) (u : IsUniform g) where
    -- An update returns, for every duration: a negative one leaves the timer as it was, any other is
    -- counted once by the histogram and once by the meter, modulo 2 ^ 64, so two counts that agree
    -- stay so. The reservoir takes the value by hypothesis where the duration is not negative.
    pub update-IsPaired :
        (fuel : ℕ) (t : Timer R W) (duration now : ℤ)
        → IsPaired t
        → (pos 0 ≤ℤ duration → Takes g fuel t.histogram_of.sample now)
        → Returns
            (λ t'.
              IsPaired t'
              × (duration ≤ℤ negsuc 0 → t' ≡ t)
              × (pos 0 ≤ℤ duration → get_count t' ≡ wrap_uint64 (get_count t + 1)))
            (update g fuel t duration now)
    unfolding update get_count Histogram.get_count Meter.get_count Meter.mark
    update-IsPaired fuel t (negsuc n) now p takes = (p, λ _. refl, λ h. absurd (omega arith))
    update-IsPaired fuel t (pos n) now p takes =
        Returns->>= _ (Histogram.update g fuel t.histogram_of (pos n) now) _
          (update-IsSound g u fuel t.histogram_of (pos n) now p.sound (takes (omega arith)))
          (λ h (counts, sound, some_kept). (
            record {
              sound = sound;
              paired =
                  counts
                  ∙ ap (λ k. wrap_uint64 (k + 1))
                      (p.paired ∙ sym (count-tick_if_necessary t.meter_of (int64_to_uint64 now)));
            },
            (λ neg. absurd (omega arith)),
            λ _. counts,
          ))
