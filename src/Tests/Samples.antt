-- ===== src/Tests/Samples.antt =====
-- Reservoirs, histograms and timers: runs, and the theorems at concrete inputs.
use cppmetrics.Prelude.{
  ℕ, ◌+◌, ◌^◌, ◌*◌, ◌≤◌, ◌<◌, ◌≡◌, refl, List, [], ◌∷◌, some, inl, inr, ℤ, pos, negsuc, ◌≤ℤ◌,
  length, All, wrap_uint64, arith, ◌+ℤ◌, ◌-ℤ◌, ◌*ℤ◌,
}
use cppmetrics.Outcome.{returns, undefined, Returns}
use cppmetrics.Double.Milli.{Milli, milli, Milli-IsIeee}
use cppmetrics.Random.{Rng, counting, counting-IsUniform}
use cppmetrics.Snapshot.{snapshot}
use cppmetrics.UniformSample.{UniformSample, uniform_sample}
use cppmetrics.UniformSample
use cppmetrics.UniformSample.Updates.{update_overflow}
use cppmetrics.UniformSample.Reservoir.{run, run-sampled}
use cppmetrics.ExpDecaySample.{ExpDecaySample, exp_decay_sample, PriorityMap, rescale_if_needed}
use cppmetrics.ExpDecaySample
use cppmetrics.ExpDecaySample.Validity.{IsValid, IsNear, IsUpdated, update-IsUpdated}
use cppmetrics.ExpDecaySample.Priorities.{store_all}
use cppmetrics.ExpDecaySample.Greatest.{store_all-greatest}
use cppmetrics.Histogram.{
  Histogram, Sample, uniform, biased, k_biased, other_sample_type, sample_size, histogram,
}
use cppmetrics.Histogram
use cppmetrics.Histogram.Recording.{IsSound}
use cppmetrics.Histogram.Kept.{held, update-IsKept}
use cppmetrics.Timer.{Timer, get_count, get_mean_rate, timer_context}
use cppmetrics.Timer
use cppmetrics.Timer.Durations.{IsPaired, update-IsPaired}
use cppmetrics.Timer.Contexts.{stops, resets, live, update_all, live-update_all}
use cppmetrics.Meter.{meter}
use cppmetrics.Meter

-- A tenth for each number drawn so far: the first gives no number as a priority.
abbrev tenths : ℕ → Milli
tenths r = some (pos (100 * r))

abbrev drawn : Rng ℕ Milli
drawn = counting tenths

abbrev seen : List ℤ
seen = pos 5 ∷ pos 7 ∷ negsuc 2 ∷ pos 4 ∷ []

run-sampled_example :
    (s : UniformSample ℕ) × (run drawn (counting-IsUniform tenths) (uniform_sample drawn 3 2) seen
      ≡ returns s)
    × (s.count ≡ length seen)
    × All (λ v. negsuc 5 ≤ℤ v) (UniformSample.get_snapshot s).values
    × (length seen ≤ 3 → UniformSample.get_snapshot s ≡ snapshot seen)
run-sampled_example =
    run-sampled drawn (counting-IsUniform tenths) (λ v. negsuc 5 ≤ℤ v) 3 2 seen (omega arith)
      (omega arith, (omega arith, (omega arith, (omega arith, tt))))

abbrev one_seen : UniformSample ℕ
one_seen = record { reservoir_size = 2; count = 1; values = pos 9 ∷ pos 0 ∷ []; rng = 0 }

abbrev many_seen : UniformSample ℕ
many_seen = record one_seen { count = 2 ^ 31 }

update_overflow_example : UniformSample.update drawn many_seen (pos 4) ≡ undefined
update_overflow_example =
    update_overflow drawn (counting-IsUniform tenths) many_seen (pos 4) (omega arith) (omega arith)
      (omega arith)

abbrev favoured : ExpDecaySample ℕ Milli
favoured = exp_decay_sample drawn 2 (some (pos 15)) (pos 1000) 0

favoured-IsValid : IsValid favoured
unfolding exp_decay_sample
favoured-IsValid = record {
  within_reservoir = omega arith;
  within_count = omega arith;
  occupied = λ h. h;
  counted = omega arith;
  window = refl;
}

epoch-IsNear : IsNear (pos 1000) × IsNear (pos 2000)
epoch-IsNear = (
  record { after = omega arith; before = omega arith },
  record { after = omega arith; before = omega arith },
)

update-IsUpdated_example :
    Returns (IsUpdated drawn (pos 2000)) (ExpDecaySample.update drawn 3 favoured (pos 6) (pos 2000))
unfolding exp_decay_sample rescale_if_needed ◌+ℤ◌ ◌-ℤ◌ ◌*ℤ◌
update-IsUpdated_example =
    update-IsUpdated drawn 3 1 favoured (pos 6) (pos 2000) favoured-IsValid (omega arith)
      (omega arith) (epoch-IsNear.0) (epoch-IsNear.1) (omega arith) refl

-- Priorities with their values.
abbrev weighed : List (Milli × ℤ)
weighed = (some (pos 30), pos 1) ∷ (some (pos 10), pos 2) ∷ (some (pos 20), pos 3) ∷ []

store_all-greatest_example :
    store_all 2 0 weighed [] ≡ returns ((some (pos 20), pos 3) ∷ (some (pos 30), pos 1) ∷ [])
unfolding ExpDecaySample.assign
store_all-greatest_example =
    store_all-greatest Milli-IsIeee 2 weighed [] (omega arith) tt
      (tt, ((inl refl, tt), ((inr refl, (inl refl, tt)), tt)))

abbrev recorded : Histogram ℕ Milli
recorded = record { sample = uniform one_seen; count = 1 }

update-IsKept_example :
    Returns
      (λ h'.
        (h'.count ≡ wrap_uint64 2)
        × IsSound h'.sample
        × (0 < sample_size h'.sample)
        × All (λ v. pos 5 ≤ℤ v) (held h'.sample)
        × All (λ v. pos 5 ≤ℤ v) (Histogram.get_snapshot h').values)
      (Histogram.update drawn 3 recorded (pos 8) (pos 3000))
update-IsKept_example =
    update-IsKept drawn (counting-IsUniform tenths) (λ v. pos 5 ≤ℤ v) 3 recorded (pos 8) (pos 3000)
      (refl, omega arith) (omega arith) (omega arith) (omega arith, tt)

abbrev timed : Timer ℕ Milli
timed = record {
  meter_of = record (meter (pos 1_000_000_000) 1000) { count = 1 };
  histogram_of = recorded;
}

update-IsPaired_example :
    Returns
      (λ t'.
        IsPaired t'
        × (pos 250 ≤ℤ negsuc 0 → t' ≡ timed)
        × (pos 0 ≤ℤ pos 250 → get_count t' ≡ wrap_uint64 (get_count timed + 1)))
      (Timer.update drawn 3 timed (pos 250) (pos 3000))
unfolding get_count meter Meter.get_count
update-IsPaired_example =
    update-IsPaired drawn (counting-IsUniform tenths) 3 timed (pos 250) (pos 3000)
      (record { sound = (refl, omega arith); paired = refl }) (λ h. omega arith)

live-update_all_example :
    live drawn 3
      (timer_context (pos 100))
      timed
      (stops (pos 130) ∷ stops (pos 140) ∷ resets (pos 200) ∷ [])
      (pos 260)
    ≡ update_all drawn 3 timed ((pos 130 -ℤ pos 100, pos 130) ∷ (pos 260 -ℤ pos 200, pos 260) ∷ [])
live-update_all_example =
    live-update_all drawn 3 timed (pos 100)
      (stops (pos 130) ∷ stops (pos 140) ∷ resets (pos 200) ∷ []) (pos 260)
