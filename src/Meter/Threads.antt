-- ===== src/Meter/Threads.antt =====
-- `tickIfNecessary` by several threads at once on one meter. A thread loads `last_tick_`, reads the
-- clock, tries its compare-and-swap, and ticks round by round if it won; the clock goes on between
-- any two steps. Numbers stay below 2 ^ 64, as the clock does.
use cppmetrics.Prelude.{
  ℕ, zero, suc, ◌+◌, ◌*◌, ◌/◌, ◌%◌, ◌≤◌, ◌<◌, ◌≡◌, refl, ◌≢◌, List, [], ◌∷◌, some, get_elem?, set,
  replicate, All, uint64_mod, arith, All-get_elem?, All-set,
}
use cppmetrics.Meter.{sub_uint64, tick_interval}

-- Where a thread is.
pub data Pc : Type 0 where
  -- outside
  idle : Pc
  -- `old_tick` is loaded
  loaded : ℕ → Pc
  -- `old_tick` and `cur_tick` are known, and the age is over the interval
  late : ℕ → ℕ → Pc
  -- won, with so many rounds of `tick` left
  ticking : ℕ → Pc

pub record System : Type 0 where
  pub last_tick : ℕ
  pub clock : ℕ
  -- the rounds of `tick` that the averages have had
  pub rounds : ℕ
  pub threads : List Pc

abbrev pub start_system : ℕ → ℕ → System
start_system start n = record {
  last_tick = start;
  clock = start;
  rounds = 0;
  threads = replicate n idle;
}

abbrev pub age_of : ℕ → ℕ → ℕ
age_of old cur = sub_uint64 cur old

pub data Step (s : System) : System → Type 0 where
  -- time passes
  waits : (now : ℕ) → s.clock ≤ now → now < uint64_mod → Step s (record s { clock = now })
  loads :
      (i : ℕ)
      → get_elem? s.threads i ≡ some idle
      → Step s (record s { threads = set s.threads i (loaded s.last_tick) })
  -- reads the clock, and is done if the age is not over the interval
  reads_early :
      (i old : ℕ)
      → get_elem? s.threads i ≡ some (loaded old)
      → age_of old s.clock ≤ tick_interval
      → Step s (record s { threads = set s.threads i idle })
  reads_late :
      (i old : ℕ)
      → get_elem? s.threads i ≡ some (loaded old)
      → tick_interval < age_of old s.clock
      → Step s (record s { threads = set s.threads i (late old s.clock) })
  -- the compare-and-swap
  wins :
      (i old cur : ℕ)
      → get_elem? s.threads i ≡ some (late old cur)
      → s.last_tick ≡ old
      → Step s (record s {
        last_tick = sub_uint64 cur (age_of old cur % tick_interval);
        threads = set s.threads i (ticking (age_of old cur / tick_interval));
      })
  loses :
      (i old cur : ℕ)
      → get_elem? s.threads i ≡ some (late old cur)
      → s.last_tick ≢ old
      → Step s (record s { threads = set s.threads i idle })
  -- one round of the loop, or its end
  ticks :
      (i n : ℕ)
      → get_elem? s.threads i ≡ some (ticking (suc n))
      → Step s (record s { rounds = s.rounds + 1; threads = set s.threads i (ticking n) })
  leaves :
      (i : ℕ)
      → get_elem? s.threads i ≡ some (ticking 0)
      → Step s (record s { threads = set s.threads i idle })

pub data Reach (s : System) : System → Type 0 where
  here : Reach s s
  next : {t u : System} → Reach s t → Step t u → Reach s u

-- The rounds that a thread still has to do.
abbrev pub owed : Pc → ℕ
owed (ticking n) = n
owed _ = 0

abbrev pub total_owed : List Pc → ℕ
total_owed [] = 0
total_owed (p ∷ ps) = owed p + total_owed ps

-- What a thread knows was read no later than now.
abbrev IsPast : ℕ → Pc → Type 0
IsPast clock idle = Unit
IsPast clock (loaded old) = old ≤ clock
IsPast clock (late old cur) = (old ≤ cur) × (cur ≤ clock)
IsPast clock (ticking n) = Unit

record Inv (start : ℕ) (s : System) : Type 0 where
  small : s.clock < uint64_mod
  past : s.last_tick ≤ s.clock
  threads_past : All (IsPast s.clock) s.threads
  whole : s.last_tick ≡ start + (s.rounds + total_owed s.threads) * tick_interval

total_owed-set :
    (ps : List Pc) (i : ℕ) (p q : Pc)
    → get_elem? ps i ≡ some p
    → total_owed (set ps i q) + owed p ≡ total_owed ps + owed q
total_owed-set [] i p q e = cc
total_owed-set (x ∷ ps) zero p q e = let same : x ≡ p = cc in rw same (omega arith)
total_owed-set (x ∷ ps) (suc i) p q e = omega (arith, total_owed-set ps i p q e)

IsPast-mono : (m n : ℕ) (p : Pc) → m ≤ n → IsPast m p → IsPast n p
IsPast-mono m n idle h a = tt
IsPast-mono m n (loaded old) h a = omega arith
IsPast-mono m n (late old cur) h a = omega arith
IsPast-mono m n (ticking k) h a = tt

All-IsPast-mono : (m n : ℕ) (ps : List Pc) → m ≤ n → All (IsPast m) ps → All (IsPast n) ps
All-IsPast-mono m n [] h a = tt
All-IsPast-mono m n (p ∷ ps) h (a, b) = (IsPast-mono m n p h a, All-IsPast-mono m n ps h b)

-- A step of thread `i` that leaves the clock and the sum of rounds done and owed alone.
moved :
    (start : ℕ) (s : System) (i : ℕ) (p q : Pc)
    → Inv start s
    → get_elem? s.threads i ≡ some p
    → owed p ≡ owed q
    → IsPast s.clock q
    → Inv start (record s { threads = set s.threads i q })
moved start s i p q v e same past = record {
  small = v.small;
  past = v.past;
  threads_past = All-set (IsPast s.clock) s.threads i q v.threads_past past;
  whole = omega (arith, v.whole, total_owed-set s.threads i p q e);
}

Step-Inv : (start : ℕ) {s t : System} → Step s t → Inv start s → Inv start t
Step-Inv start {s} (waits now h small) v = record {
  small = small;
  past = omega (arith, v.past);
  threads_past = All-IsPast-mono s.clock now s.threads h v.threads_past;
  whole = v.whole;
}
Step-Inv start {s} (loads i e) v = moved start s i idle (loaded s.last_tick) v e refl v.past
Step-Inv start {s} (reads_early i old e h) v = moved start s i (loaded old) idle v e refl tt
Step-Inv start {s} (reads_late i old e h) v =
    let known = All-get_elem? (IsPast s.clock) s.threads i v.threads_past e in
    moved start s i (loaded old) (late old s.clock) v e refl (known, omega arith)
Step-Inv start {s} (wins i old cur e same) v =
    let known = All-get_elem? (IsPast s.clock) s.threads i v.threads_past e in
    record {
      small = v.small;
      past = omega (arith, known, v.small);
      threads_past = All-set (IsPast s.clock) s.threads i _ v.threads_past tt;
      whole = omega (
        arith,
        known,
        v.small,
        v.whole,
        total_owed-set s.threads i (late old cur) (ticking (age_of old cur / tick_interval)) e,
      );
    }
Step-Inv start {s} (loses i old cur e differs) v = moved start s i (late old cur) idle v e refl tt
Step-Inv start {s} (ticks i n e) v = record {
  small = v.small;
  past = v.past;
  threads_past = All-set (IsPast s.clock) s.threads i _ v.threads_past tt;
  whole = omega (arith, v.whole, total_owed-set s.threads i (ticking (suc n)) (ticking n) e);
}
Step-Inv start {s} (leaves i e) v = moved start s i (ticking 0) idle v e refl tt

idle_threads :
    (start n : ℕ) → (total_owed (replicate n idle) ≡ 0) × All (IsPast start) (replicate n idle)
idle_threads start zero = (refl, tt)
idle_threads start (suc n) =
    let (none_owed, past) = idle_threads start n in (omega (arith, none_owed), (tt, past))

start-Inv : (start n : ℕ) → start < uint64_mod → Inv start (start_system start n)
start-Inv start n h = record {
  small = h;
  past = omega arith;
  threads_past = (idle_threads start n).1;
  whole = omega (arith, (idle_threads start n).0);
}

Reach-Inv :
    (start n : ℕ) {s : System} → start < uint64_mod → Reach (start_system start n) s → Inv start s
Reach-Inv start n h here = start-Inv start n h
Reach-Inv start n h (next r st) = Step-Inv start st (Reach-Inv start n h r)

-- Any number of threads, in any interleaving: `last_tick_` never passes the clock, and the rounds of
-- `tick` done, with those that threads in their loop still owe, are exactly the whole intervals
-- from the start to `last_tick_`. No interval is ticked by two threads, and none is lost.
pub Reach-exact :
    (start n : ℕ) {s : System}
    → start < uint64_mod
    → Reach (start_system start n) s
    → (s.last_tick ≤ s.clock)
      × (s.last_tick ≡ start + (s.rounds + total_owed s.threads) * tick_interval)
Reach-exact start n h r = let v = Reach-Inv start n h r in (v.past, v.whole)
