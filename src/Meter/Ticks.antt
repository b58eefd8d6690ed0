-- ===== src/Meter/Ticks.antt =====
-- When the moving averages tick: when an interval is over.
use cppmetrics.Prelude.{
  ℕ, zero, suc, ◌+◌, ◌-◌, ◌*◌, ◌/◌, ◌%◌, ◌≤◌, ◌<◌, ◌≡◌, refl, inl, inr, ltb, uint64_mod, Bool-cases,
  arith, if◌then◌else◌,
}
use cppmetrics.Double.{Double}
use cppmetrics.Ewma.{Ewma}
use cppmetrics.Ewma
use cppmetrics.Meter.{Meter, sub_uint64, tick_interval, tick, tick_times, tick_if_necessary}

module _ {W : Type 0} ⦃d : Double W⦄ where
  -- `n` ticks of one average.
  unfoldable pub ewma_ticks : ℕ → Ewma W → Ewma W
  ewma_ticks zero e = e
  ewma_ticks (suc n) e = ewma_ticks n (Ewma.tick e)

  tick_times_lem :
      (n : ℕ) (m : Meter W)
      → tick_times n m ≡ record m {
        m1_rate = ewma_ticks n m.m1_rate;
        m5_rate = ewma_ticks n m.m5_rate;
        m15_rate = ewma_ticks n m.m15_rate;
      }
  unfolding tick_times ewma_ticks tick
  tick_times_lem zero m = refl
  tick_times_lem (suc n) m = tick_times_lem n (tick m)

  -- The intervals that a call at `now` accounts for.
  abbrev pub due : Meter W → ℕ → ℕ
  due m now =
      let age = now - m.last_tick in if ltb tick_interval age then age / tick_interval else 0

  -- The meter after `n` more intervals.
  unfoldable pub advance : ℕ → Meter W → Meter W
  advance n m = record m {
    last_tick = m.last_tick + n * tick_interval;
    m1_rate = ewma_ticks n m.m1_rate;
    m5_rate = ewma_ticks n m.m5_rate;
    m15_rate = ewma_ticks n m.m15_rate;
  }

  advance_zero : (m : Meter W) → m ≡ advance 0 m
  unfolding advance ewma_ticks
  advance_zero m = let e : m.last_tick + 0 * tick_interval ≡ m.last_tick = omega arith in rw e

  due_bounds :
      (m : Meter W) (now : ℕ)
      → m.last_tick ≤ now
      → (m.last_tick + due m now * tick_interval ≤ now)
        × (now ≤ m.last_tick + (due m now + 1) * tick_interval)
        × (0 < due m now → now < m.last_tick + (due m now + 1) * tick_interval)
  due_bounds m now h = ground arith

  tick_if_necessary_lem :
      (m : Meter W) (now : ℕ)
      → m.last_tick ≤ now
      → now < uint64_mod
      → tick_if_necessary m now ≡ advance (due m now) m
  unfolding tick_if_necessary advance
  tick_if_necessary_lem m now h small =
      let age : sub_uint64 now m.last_tick ≡ now - m.last_tick = omega arith in
      elim (Bool-cases (ltb tick_interval (now - m.last_tick))) [
        | inl due_now ↦
            let moved : sub_uint64 now ((now - m.last_tick) % tick_interval)
                ≡ m.last_tick + (now - m.last_tick) / tick_interval * tick_interval =
              omega arith in
            rw (age, due_now, tick_times_lem, moved)
        | inr fresh ↦ rw (age, fresh) (advance_zero m)
      ]

  pub tick_if_necessary-advance :
      (m : Meter W) (now : ℕ)
      → m.last_tick ≤ now
      → now < uint64_mod
      → (n : ℕ) × (tick_if_necessary m now ≡ advance n m)
        × (m.last_tick + n * tick_interval ≤ now)
        × (now ≤ m.last_tick + (n + 1) * tick_interval)
        × (0 < n → now < m.last_tick + (n + 1) * tick_interval)
  tick_if_necessary-advance m now h small =
      let (le, ge, gt) = due_bounds m now h in
      (due m now, tick_if_necessary_lem m now h small, le, ge, gt)
