-- ===== src/Tests/Rates.antt =====
-- Counters, moving averages and meters: runs, and the theorems at concrete inputs.
use cppmetrics.Prelude.{
  ℕ, ◌+◌, ◌*◌, ◌≤◌, ◌≡◌, refl, true, List, [], ◌∷◌, some, pos, negsuc, ◌+ℤ◌, ◌-ℤ◌, ◌*ℤ◌, residue64,
  arith,
}
use cppmetrics.Double.{◌≼◌}
use cppmetrics.Double.Milli.{Milli, milli, Milli-IsIeee, Milli-finite}
use cppmetrics.Counter
use cppmetrics.Counter.{Counter, counter, sets, increments, decrements, clears}
use cppmetrics.Counter.Interleaving.{run-ideal}
use cppmetrics.Ewma
use cppmetrics.Ewma.{Ewma, instant_rate}
use cppmetrics.Ewma.Decay.{tick_towards, gap_of}
use cppmetrics.Meter.{Meter, meter, tick_interval}
use cppmetrics.Meter.Counting.{Call, marks, reads_m5, run}
use cppmetrics.Meter.Alignment.{run-IsAligned, IsAligned}
use cppmetrics.Meter.Threads.{
  System, Reach, here, next, start_system, Reach-exact, total_owed, waits, ticks, loads, reads_late,
  wins, loses, idle, ticking,
}

-- A run with every kind of call, past the top of the range.
counter_calls :
    Counter.get_count (
      Counter.run
        (counter (pos 9_223_372_036_854_775_807))
        (increments (pos 2) ∷ decrements (pos 1) ∷ []))
    ≡ negsuc 9_223_372_036_854_775_807
unfolding Counter.get_count Counter.run counter ◌+ℤ◌ ◌-ℤ◌ residue64
counter_calls = refl

-- Calls of every kind.
abbrev counter_history : List Counter.Call
counter_history =
    increments (pos 3) ∷ sets (pos 9) ∷ decrements (pos 10) ∷ clears ∷ decrements (pos 2) ∷ []

run-ideal_example : (Counter.run (counter (pos 5)) counter_history).count ≡ negsuc 1
unfolding counter ◌+ℤ◌ ◌-ℤ◌ residue64
run-ideal_example =
    run-ideal (counter (pos 5)) counter_history (omega arith)
      (tt, (omega arith, (tt, (tt, (tt, tt)))))

-- An average of 8 events per nanosecond, half of which a tick takes over.
abbrev busy : Ewma Milli
busy = record {
  initialized = true;
  ewma = some (pos 8000);
  uncounted = 20;
  alpha = some (pos 500);
  interval_nanos = 5;
}

busy-tick : (Ewma.tick busy).ewma ≡ some (pos 6000)
unfolding Ewma.tick ◌+ℤ◌ ◌-ℤ◌ ◌*ℤ◌
busy-tick = refl

-- Its factor of a half lies between a quarter and three quarters.
tick_towards_example :
    let low = milli.mul (some (pos 250)) (gap_of Milli-IsIeee busy) in
    let high = milli.mul (some (pos 750)) (gap_of Milli-IsIeee busy) in
    let after = (Ewma.tick busy).ewma in
    (instant_rate busy ≼ busy.ewma
      → (after ≼ busy.ewma)
        × (milli.add busy.ewma (gap_of Milli-IsIeee busy) ≼ after)
        × (milli.add busy.ewma high ≼ after)
        × (after ≼ milli.add busy.ewma low))
    × (busy.ewma ≼ instant_rate busy
        → (busy.ewma ≼ after)
          × (after ≼ milli.add busy.ewma (gap_of Milli-IsIeee busy))
          × (milli.add busy.ewma low ≼ after)
          × (after ≼ milli.add busy.ewma high))
    × ((Ewma.tick busy).uncounted ≡ 0)
unfolding ◌*ℤ◌
tick_towards_example =
    tick_towards Milli-IsIeee busy (some (pos 250)) (some (pos 750))
      (record {
        started = refl;
        rate_finite = Milli-finite _;
        alpha_finite = Milli-finite _;
        alpha_gt = refl;
        alpha_le = refl;
        interval_pos = omega arith;
      })
      (Milli-finite _) refl refl refl (Milli-finite _)

abbrev quiet : Ewma Milli
quiet = record busy { uncounted = 0 }

abbrev second : ℕ
second = 1_000_000_000

abbrev fresh : Meter Milli
fresh = meter (pos second) (100 * second)

-- Marks and readings up to 23 seconds after the start.
abbrev history : List (ℕ × Call)
history =
    (101 * second, marks 3)
    ∷ (106 * second, marks 4)
    ∷ (117 * second, reads_m5)
    ∷ (123 * second, marks 1)
    ∷ []

history_last_tick : (run fresh history).last_tick ≡ 120 * second
unfolding run meter residue64
history_last_tick = refl

run-IsAligned_example :
    IsAligned fresh (run fresh history) 8 (123 * second)
    × (123 * second ≤ (run fresh history).last_tick + tick_interval)
run-IsAligned_example =
    run-IsAligned {W = Milli} (pos second) (100 * second) history (omega arith) (omega arith)

-- Eight events in four seconds.
abbrev eight : Meter Milli
eight = record fresh { count = 8 }

-- Two threads see the same late tick; one wins and ticks, the other gives up.
abbrev raced : System
raced = record {
  last_tick = 110 * second;
  clock = 112 * second;
  rounds = 1;
  threads = ticking 1 ∷ idle ∷ [];
}

race : Reach (start_system (100 * second) 2) raced
race =
    next
      (next
        (next
          (next
            (next
              (next (next (next here (loads 0 refl)) (loads 1 refl))
                (waits (112 * second) (omega arith) (omega arith)))
              (reads_late 0 (100 * second) refl (omega arith)))
            (reads_late 1 (100 * second) refl (omega arith)))
          (wins 0 (100 * second) (112 * second) refl refl))
        (loses 1 (100 * second) (112 * second) refl (λ e. absurd (omega arith))))
      (ticks 0 1 refl)

Reach-exact_example :
    (raced.last_tick ≤ raced.clock)
    × (raced.last_tick ≡ 100 * second + (raced.rounds + total_owed raced.threads) * tick_interval)
Reach-exact_example = Reach-exact (100 * second) 2 (omega arith) race
