-- ===== src/Meter/Counting.antt =====
-- Histories of calls on one meter: the count and the mean rate.
use cppmetrics.Prelude.{
  residue64_of_pos, ℕ, zero, suc, ◌+◌, ◌-◌, ◌*◌, ◌/◌, ◌^◌, ◌≤◌, ◌<◌, ◌≡◌, refl, true, List, [], ◌∷◌,
  ltb, wrap_uint64, uint64_mod, Bool-cases, arith, pos, residue64, lt→ltb, inl, inr,
}
use cppmetrics.Double.{Double, nought}
use cppmetrics.Meter.{
  Meter, sub_uint64, tick_interval, tick_if_necessary, mark, get_one_minute_rate,
  get_five_minute_rate, get_fifteen_minute_rate, get_mean_rate, tick_times, tick,
}

-- The calls that change a meter.
pub data Call : Type 0 where
  marks : ℕ → Call
  reads_m1 reads_m5 reads_m15 : Call

abbrev pub events : Call → ℕ
events (marks n) = n
events _ = 0

abbrev pub total_events : List (ℕ × Call) → ℕ
total_events [] = 0
total_events ((now, c) ∷ cs) = events c + total_events cs

-- The readings of the clock do not go back, and fit 64 bits.
abbrev pub Forward : ℕ → List (ℕ × Call) → Type 0
Forward before [] = Unit
Forward before ((now, c) ∷ cs) = (before ≤ now) × (now < uint64_mod) × Forward now cs

abbrev pub last_reading : ℕ → List (ℕ × Call) → ℕ
last_reading before [] = before
last_reading before ((now, c) ∷ cs) = last_reading now cs

module _ {W : Type 0} ⦃d : Double W⦄ where
  unfoldable pub step : Meter W → ℕ × Call → Meter W
  unfolding mark get_one_minute_rate get_five_minute_rate get_fifteen_minute_rate
  step m (now, marks n) = mark m now n
  step m (now, reads_m1) = (get_one_minute_rate m now).1
  step m (now, reads_m5) = (get_five_minute_rate m now).1
  step m (now, reads_m15) = (get_fifteen_minute_rate m now).1

  unfoldable pub run : Meter W → List (ℕ × Call) → Meter W
  unfolding step
  run m [] = m
  run m (c ∷ cs) = run (step m c) cs

  count-tick_times : (n : ℕ) (m : Meter W) → (tick_times n m).count ≡ m.count
  unfolding tick_times tick
  count-tick_times zero m = refl
  count-tick_times (suc n) m = count-tick_times n (tick m)

  pub count-tick_if_necessary : (m : Meter W) (now : ℕ) → (tick_if_necessary m now).count ≡ m.count
  unfolding tick_if_necessary
  count-tick_if_necessary m now =
      let age = sub_uint64 now m.last_tick in
      elim (Bool-cases (ltb tick_interval age)) [
        | inl late ↦ rw late (count-tick_times (age / tick_interval) _)
        | inr early ↦ rw early
      ]

  count-step :
      (m : Meter W) (now : ℕ) (c : Call)
      → m.count < uint64_mod
      → (step m (now, c)).count ≡ wrap_uint64 (m.count + events c)
  unfolding step mark get_one_minute_rate get_five_minute_rate get_fifteen_minute_rate
  count-step m now (marks n) h = rw (count-tick_if_necessary m now)
  count-step m now reads_m1 h = rw (count-tick_if_necessary m now) (omega arith)
  count-step m now reads_m5 h = rw (count-tick_if_necessary m now) (omega arith)
  count-step m now reads_m15 h = rw (count-tick_if_necessary m now) (omega arith)

  -- Whatever the clock reads, and however the ticks fall between the calls, the count grows by the
  -- number of events marked, modulo 2 ^ 64.
  pub run-count :
      (m : Meter W) (cs : List (ℕ × Call))
      → m.count < uint64_mod
      → (run m cs).count ≡ wrap_uint64 (m.count + total_events cs)
  unfolding run
  run-count m [] h = omega arith
  run-count m ((now, c) ∷ cs) h =
      let here = count-step m now c h in
      omega (arith, here, run-count (step m (now, c)) cs (omega (arith, here)))

  -- As long as the product of the count and the rate unit fits 64 bits, `getMeanRate` is that
  -- product over the time since the start, and 0 while nothing has been marked.
  pub get_mean_rate_lem :
      (m : Meter W) (now unit : ℕ)
      → m.rate_unit ≡ pos unit
      → m.count * unit < uint64_mod
      → m.start_time ≤ now
      → now < 2 ^ 63
      → (m.count ≡ 0 → get_mean_rate m now ≡ nought)
        × (0 < m.count
            → get_mean_rate m now
              ≡ d.div (d.of_uint64 (m.count * unit)) (d.of_int64 (pos (now - m.start_time))))
  unfolding get_mean_rate
  get_mean_rate_lem m now unit e fits past small = (
    λ none_marked. rw none_marked,
    λ marked.
        let short : unit ≤ m.count * unit = grind arith in
        let unit_word : residue64 m.rate_unit ≡ unit = rw e (residue64_of_pos unit (omega arith)) in
        let product : wrap_uint64 (m.count * unit) ≡ m.count * unit = omega arith in
        let elapsed : sub_uint64 now m.start_time ≡ now - m.start_time = omega arith in
        let early : ltb (now - m.start_time) (2 ^ 63) ≡ true = lt→ltb _ _ (omega arith) in
        rw (lt→ltb 0 m.count marked, unit_word, product, elapsed, early),
  )
