-- ===== src/Tests/Averages.antt =====
-- Threads on one moving average: runs, and the theorems at them.
use cppmetrics.Prelude.{
  ◌+◌, ◌≡◌, refl, true, List, [], ◌∷◌, some, pos, ◌+ℤ◌, ◌-ℤ◌, ◌*ℤ◌, wrap_uint64, All, arith,
}
use cppmetrics.Double.Milli.{Milli, milli}
use cppmetrics.Ewma.{Ewma, update, tick}
use cppmetrics.Ewma.Threads.{
  System, start_system, Pc, idle, Idle, updates, ticks, Reach, here, next, adds, takes,
  finds_running, loads, swaps, misses, run,
}
use cppmetrics.Ewma.Taken.{added, total, Reach-conserved}
use cppmetrics.Ewma.Linear.{Reach-linear}
use cppmetrics.Meter.Marks
use cppmetrics.Meter.Marks.{Average, m1, m5, m15, adding, at_average, Reach-counted}

-- An average of 8 events per nanosecond, half of which a tick takes over, with 20 events in 5 ns.
abbrev shared : Ewma Milli
shared = record {
  initialized = true;
  ewma = some (pos 8000);
  uncounted = 20;
  alpha = some (pos 500);
  interval_nanos = 5;
}

-- The second thread has updated the average while the first was in `tick`.
abbrev ticked : System Milli
ticked = record {
  average = record {
    initialized = true;
    ewma = some (pos 6000);
    uncounted = 10;
    alpha = some (pos 500);
    interval_nanos = 5;
  };
  threads = idle ∷ idle ∷ [];
  calls = ticks ∷ updates 10 ∷ [];
  taken = 20 ∷ [];
}

ticked-Reach :
    (Free : List (Pc Milli) → Type 0)
    → Free (idle ∷ idle ∷ [])
    → Reach Free (start_system shared 2) ticked
unfolding update ◌+ℤ◌ ◌-ℤ◌ ◌*ℤ◌
ticked-Reach Free free =
    next
      (next
        (next (next (next here (takes 0 refl free)) (finds_running 0 (some (pos 4000)) refl refl))
          (adds 10))
        (loads 0 (some (pos 4000)) refl))
      (swaps 0 (some (pos 8000)) (some (pos 4000)) refl refl)

Reach-linear_example : ticked.average ≡ run shared (ticks ∷ updates 10 ∷ [])
Reach-linear_example = Reach-linear shared 2 (ticked-Reach (All Idle) (tt, (tt, tt))) (tt, (tt, tt))

Reach-conserved_example :
    wrap_uint64 (20 + added (ticks ∷ updates 10 ∷ [])) ≡ wrap_uint64 (10 + total (20 ∷ []))
Reach-conserved_example =
    Reach-conserved (All Idle) shared 2 (omega arith) (ticked-Reach (All Idle) (tt, (tt, tt)))

-- Two threads in `tick` at once: the first takes the 20 events, and its compare-and-swap fails.
abbrev missed : System Milli
missed = record {
  average = record {
    initialized = true;
    ewma = some (pos 4000);
    uncounted = 0;
    alpha = some (pos 500);
    interval_nanos = 5;
  };
  threads = idle ∷ idle ∷ [];
  calls = ticks ∷ ticks ∷ [];
  taken = 0 ∷ 20 ∷ [];
}

missed-Reach : Reach (λ _. Unit) (start_system shared 2) missed
unfolding ◌+ℤ◌ ◌-ℤ◌ ◌*ℤ◌
missed-Reach =
    next
      (next
        (next
          (next
            (next
              (next
                (next (next here (takes 0 refl tt)) (finds_running 0 (some (pos 4000)) refl refl))
                (loads 0 (some (pos 4000)) refl))
              (takes 1 refl tt))
            (finds_running 1 (some (pos 0)) refl refl))
          (loads 1 (some (pos 0)) refl))
        (swaps 1 (some (pos 8000)) (some (pos 0)) refl refl))
      (misses 0 (some (pos 8000)) (some (pos 4000)) refl (λ e. cc))

-- One after the other the two ticks give another average: the 20 events are lost to the rate.
missed-run : (run shared missed.calls).ewma ≡ some (pos 3000)
unfolding run tick ◌+ℤ◌ ◌-ℤ◌ ◌*ℤ◌
missed-run = refl

-- The first thread is in `mark` of 5 events, which a tick has taken from the first average; the second
-- thread has added 3 to the count.
abbrev marking : Marks.System
marking = record {
  count = 8;
  uncounted = at_average (at_average (λ a. 0) m1 5) m1 0;
  taken = at_average (λ a. 0) m1 5;
  threads = adding m5 5 ∷ adding m1 3 ∷ [];
  marked = 8;
}

marking-Reach : Marks.Reach (Marks.start_system 2) marking
marking-Reach =
    Marks.next
      (Marks.next
        (Marks.next (Marks.next Marks.here (Marks.counts 0 5 refl)) (Marks.adds 0 5 m1 refl))
        (Marks.takes m1))
      (Marks.counts 1 3 refl)

Reach-counted_example :
    (marking.count ≡ wrap_uint64 8)
    × ((a : Average)
        → wrap_uint64 (marking.uncounted a + marking.taken a + Marks.owed a marking.threads)
          ≡ wrap_uint64 8)
Reach-counted_example = Reach-counted 2 marking-Reach
