-- ===== src/Meter/Alignment.antt =====
-- Histories of calls on one meter: when its averages tick, and what they are told.
use cppmetrics.Prelude.{
  ℕ, zero, suc, ◌+◌, ◌*◌, ◌≤◌, ◌<◌, ◌≡◌, refl, sym, ◌∙◌, subst, ap, List, ◌++◌, replicate, [], ◌∷◌,
  uint64_mod, arith, ℤ,
}
use cppmetrics.Double.{Double}
use cppmetrics.Meter.{
  Meter, meter, tick_interval, tick_if_necessary, mark, get_one_minute_rate, get_five_minute_rate,
  get_fifteen_minute_rate,
}
use cppmetrics.Meter.Ticks.{ewma_ticks, advance, tick_if_necessary-advance}
use cppmetrics.Ewma
use cppmetrics.Ewma.{Ewma}
use cppmetrics.Ewma.Threads
use cppmetrics.Ewma.Threads.{updates, ticks}
use cppmetrics.Ewma.Linear.{run-append}
use cppmetrics.Ewma.Taken.{added, added-append}
use cppmetrics.Meter.Counting.{
  Call, marks, reads_m1, reads_m5, reads_m15, events, total_events, Forward, last_reading, step,
  run,
}

abbrev pub ticks_in : List Threads.Call → ℕ
ticks_in [] = 0
ticks_in (updates n ∷ cs) = ticks_in cs
ticks_in (ticks ∷ cs) = 1 + ticks_in cs

ticks_in-append : (cs ds : List Threads.Call) → ticks_in (cs ++ ds) ≡ ticks_in cs + ticks_in ds
ticks_in-append [] ds = omega arith
ticks_in-append (updates n ∷ cs) ds = ticks_in-append cs ds
ticks_in-append (ticks ∷ cs) ds = omega (arith, ticks_in-append cs ds)

ticks_in-replicate : (n : ℕ) → ticks_in (replicate n ticks) ≡ n
ticks_in-replicate zero = refl
ticks_in-replicate (suc n) = omega (arith, ticks_in-replicate n)

added-replicate : (n : ℕ) → added (replicate n ticks) ≡ 0
added-replicate zero = refl
added-replicate (suc n) = added-replicate n

module _ {W : Type 0} ⦃d : Double W⦄ where
  -- The ticks of a meter lie on whole intervals after its start, and its averages have ticked once for
  -- each, in between the updates with the events: they are what one sequence of calls makes of those of
  -- the meter `m0`.
  pub record IsAligned (m0 m : Meter W) (total now : ℕ) : Type 0 where
    pub intervals : ℕ
    pub whole : m.last_tick ≡ m.start_time + intervals * tick_interval
    pub past : m.last_tick ≤ now
    pub calls : List Threads.Call
    pub ticked : ticks_in calls ≡ intervals
    pub updated : added calls ≡ total
    pub m1 : m.m1_rate ≡ Threads.run m0.m1_rate calls
    pub m5 : m.m5_rate ≡ Threads.run m0.m5_rate calls
    pub m15 : m.m15_rate ≡ Threads.run m0.m15_rate calls

  -- An average after further calls.
  further :
      (e0 e : Ewma W) (cs ds : List Threads.Call)
      → e ≡ Threads.run e0 cs
      → Threads.run e ds ≡ Threads.run e0 (cs ++ ds)
  further e0 e cs ds h = ap (λ x. Threads.run x ds) h ∙ sym (run-append e0 cs ds)

  ewma_ticks-run : (n : ℕ) (e : Ewma W) → ewma_ticks n e ≡ Threads.run e (replicate n ticks)
  unfolding ewma_ticks Threads.run
  ewma_ticks-run zero e = refl
  ewma_ticks-run (suc n) e = ewma_ticks-run n (Ewma.tick e)

  tick-IsAligned :
      (m0 m : Meter W) (total before now : ℕ)
      → before ≤ now
      → now < uint64_mod
      → IsAligned m0 m total before
      → IsAligned m0 (tick_if_necessary m now) total now
        × (now ≤ (tick_if_necessary m now).last_tick + tick_interval)
  unfolding advance
  tick-IsAligned m0 m total before now h small a =
      let past = a.past in
      let (n, e, le, ge, _) = tick_if_necessary-advance m now (omega arith) small in
      let moved = ap (λ (x : Meter W). x.last_tick) e in
      let kept = ap (λ (x : Meter W). x.start_time) e in
      let more = replicate n ticks in
      (
        record {
          intervals = a.intervals + n;
          whole = omega (arith, a.whole, moved, kept);
          past = omega (arith, moved, le);
          calls = a.calls ++ more;
          ticked = omega (arith, a.ticked, ticks_in-append a.calls more, ticks_in-replicate n);
          updated = omega (arith, a.updated, added-append a.calls more, added-replicate n);
          m1 =
              ap (λ (x : Meter W). x.m1_rate) e
              ∙ ewma_ticks-run n m.m1_rate
              ∙ further m0.m1_rate m.m1_rate a.calls more a.m1;
          m5 =
              ap (λ (x : Meter W). x.m5_rate) e
              ∙ ewma_ticks-run n m.m5_rate
              ∙ further m0.m5_rate m.m5_rate a.calls more a.m5;
          m15 =
              ap (λ (x : Meter W). x.m15_rate) e
              ∙ ewma_ticks-run n m.m15_rate
              ∙ further m0.m15_rate m.m15_rate a.calls more a.m15;
        },
        omega (arith, moved, ge),
      )

  new-IsAligned :
      (rate_unit : ℤ) (start : ℕ)
      → IsAligned (meter {W = W} rate_unit start) (meter rate_unit start) 0 start
  unfolding meter Threads.run
  new-IsAligned rate_unit start = record {
    intervals = 0;
    whole = omega arith;
    past = omega arith;
    calls = [];
    ticked = refl;
    updated = refl;
    m1 = refl;
    m5 = refl;
    m15 = refl;
  }

  reads-IsAligned :
      (m0 m : Meter W) (total before now : ℕ)
      → before ≤ now
      → now < uint64_mod
      → IsAligned m0 m total before
      → IsAligned m0 (tick_if_necessary m now) (total + 0) now
        × (now ≤ (tick_if_necessary m now).last_tick + tick_interval)
  reads-IsAligned m0 m total before now h small a =
      let same : total ≡ total + 0 = omega arith in
      tick-IsAligned m0 m (total + 0) before now h small
        (subst (λ n. IsAligned m0 m n before) same a)

  step-IsAligned :
      (m0 m : Meter W) (total before now : ℕ) (c : Call)
      → before ≤ now
      → now < uint64_mod
      → IsAligned m0 m total before
      → IsAligned m0 (step m (now, c)) (total + events c) now
        × (now ≤ (step m (now, c)).last_tick + tick_interval)
  unfolding step mark get_one_minute_rate get_five_minute_rate get_fifteen_minute_rate Threads.run
  step-IsAligned m0 m total before now (marks n) h small a =
      let (b, ge) = tick-IsAligned m0 m total before now h small a in
      let m' = tick_if_necessary m now in
      let one_more = updates n ∷ [] in
      (
        record {
          intervals = b.intervals;
          whole = b.whole;
          past = b.past;
          calls = b.calls ++ one_more;
          ticked = omega (arith, b.ticked, ticks_in-append b.calls one_more);
          updated = omega (arith, b.updated, added-append b.calls one_more);
          m1 = further m0.m1_rate m'.m1_rate b.calls one_more b.m1;
          m5 = further m0.m5_rate m'.m5_rate b.calls one_more b.m5;
          m15 = further m0.m15_rate m'.m15_rate b.calls one_more b.m15;
        },
        ge,
      )
  step-IsAligned m0 m total before now reads_m1 h small a =
      reads-IsAligned m0 m total before now h small a
  step-IsAligned m0 m total before now reads_m5 h small a =
      reads-IsAligned m0 m total before now h small a
  step-IsAligned m0 m total before now reads_m15 h small a =
      reads-IsAligned m0 m total before now h small a

  run-IsAligned_from :
      (m0 m : Meter W) (total before : ℕ) (cs : List (ℕ × Call))
      → Forward before cs
      → IsAligned m0 m total before
      → before ≤ m.last_tick + tick_interval
      → IsAligned m0 (run m cs) (total + total_events cs) (last_reading before cs)
        × (last_reading before cs ≤ (run m cs).last_tick + tick_interval)
  unfolding run
  run-IsAligned_from m0 m total before [] f a ge =
      let same : total ≡ total + 0 = omega arith in
      (subst (λ n. IsAligned m0 m n before) same a, ge)
  run-IsAligned_from m0 m total before ((now, c) ∷ cs) (h, small, f) a ge =
      let (b, ge') = step-IsAligned m0 m total before now c h small a in
      let (done, near) =
        run-IsAligned_from m0 (step m (now, c)) (total + events c) now cs f b ge' in
      let sum : total + events c + total_events cs ≡ total + (events c + total_events cs) =
        omega arith in
      (subst (λ n. IsAligned m0 (run (step m (now, c)) cs) n (last_reading now cs)) sum done, near)

  -- For a new meter and any history in which the clock does not go back, `last_tick_` always lies a
  -- whole number of intervals after the start, never in the future, and never more than one
  -- interval behind the last reading. Each of the three averages has ticked exactly once for each of
  -- those intervals, and was updated with exactly the events marked: no interval is skipped and none
  -- is counted twice.
  pub run-IsAligned :
      (rate_unit : ℤ) (start : ℕ) (cs : List (ℕ × Call))
      → start < uint64_mod
      → Forward start cs
      → let m0 = meter {W = W} rate_unit start in
        IsAligned m0 (run m0 cs) (total_events cs) (last_reading start cs)
        × (last_reading start cs ≤ (run m0 cs).last_tick + tick_interval)
  unfolding meter
  run-IsAligned rate_unit start cs small f =
      let m0 = meter {W = W} rate_unit start in
      let none_before : 0 + total_events cs ≡ total_events cs = omega arith in
      subst
        (λ n.
          IsAligned m0 (run m0 cs) n (last_reading start cs)
          × (last_reading start cs ≤ (run m0 cs).last_tick + tick_interval))
        none_before
        (run-IsAligned_from m0 m0 0 start cs f (new-IsAligned rate_unit start) (omega arith))
