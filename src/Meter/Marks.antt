-- ===== src/Meter/Marks.antt =====
-- `mark` of meter.cpp by several threads at once on one meter, past its `tickIfNecessary`: it adds to
-- `count_` and to the uncounted events of the three averages, one atomic operation after the other,
-- while rounds of `tick` of any thread may take those of an average at any time.
use cppmetrics.Prelude.{
  ℕ, zero, suc, ◌+◌, ◌≡◌, refl, List, [], ◌∷◌, some, get_elem?, set, replicate, wrap_uint64, arith,
}

-- The averages, in the order in which `mark` and `tick` come to them.
pub data Average : Type 0 where
  m1 m5 m15 : Average

-- Where a thread is in `mark`: outside, or about to add `n` to an average.
pub data Pc : Type 0 where
  idle : Pc
  adding : Average → ℕ → Pc

pub record System : Type 0 where
  pub count : ℕ
  pub uncounted : Average → ℕ
  -- what ticks have taken of each average
  pub taken : Average → ℕ
  pub threads : List Pc
  -- the events of the calls of `mark` so far
  pub marked : ℕ

abbrev pub start_system : ℕ → System
start_system n = record {
  count = 0;
  uncounted = λ a. 0;
  taken = λ a. 0;
  threads = replicate n idle;
  marked = 0;
}

-- After an average the next one, or the end of the call.
abbrev pub after : Average → ℕ → Pc
after m1 n = adding m5 n
after m5 n = adding m15 n
after m15 n = idle

abbrev pub at_average : (Average → ℕ) → Average → ℕ → Average → ℕ
at_average f m1 n m1 = n
at_average f m5 n m5 = n
at_average f m15 n m15 = n
at_average f a n b = f b

pub data Step (s : System) : System → Type 0 where
  -- `count_ += n`
  counts :
      (i n : ℕ)
      → get_elem? s.threads i ≡ some idle
      → Step s (record s {
        count = wrap_uint64 (s.count + n);
        threads = set s.threads i (adding m1 n);
        marked = s.marked + n;
      })
  -- `update` of the average
  adds :
      (i n : ℕ) (a : Average)
      → get_elem? s.threads i ≡ some (adding a n)
      → Step s (record s {
        uncounted = at_average s.uncounted a (wrap_uint64 (s.uncounted a + n));
        threads = set s.threads i (after a n);
      })
  -- the exchange in `tick` of the average
  takes :
      (a : Average)
      → Step s (record s {
        uncounted = at_average s.uncounted a 0;
        taken = at_average s.taken a (s.taken a + s.uncounted a);
      })

pub data Reach (s : System) : System → Type 0 where
  here : Reach s s
  next : {t u : System} → Reach s t → Step t u → Reach s u

-- What a thread still has to add to an average.
abbrev pub owes : Average → Pc → ℕ
owes a idle = 0
owes a (adding m1 n) = n
owes m1 (adding m5 n) = 0
owes m5 (adding m5 n) = n
owes m15 (adding m5 n) = n
owes m15 (adding m15 n) = n
owes m1 (adding m15 n) = 0
owes m5 (adding m15 n) = 0

abbrev pub owed : Average → List Pc → ℕ
owed a [] = 0
owed a (p ∷ ps) = owes a p + owed a ps

owed-set :
    (a : Average) (ps : List Pc) (i : ℕ) (p q : Pc)
    → get_elem? ps i ≡ some p
    → owed a (set ps i q) + owes a p ≡ owed a ps + owes a q
owed-set a [] i p q e = cc
owed-set a (x ∷ xs) zero p q e = let same : x ≡ p = cc in rw same (omega arith)
owed-set a (x ∷ xs) (suc i) p q e = omega (arith, owed-set a xs i p q e)

owed_start : (a : Average) (n : ℕ) → owed a (replicate n idle) ≡ 0
owed_start a zero = refl
owed_start a (suc n) = omega (arith, owed_start a n)

record Inv (s : System) : Type 0 where
  counted : s.count ≡ wrap_uint64 s.marked
  offered :
      (a : Average)
      → wrap_uint64 (s.uncounted a + s.taken a + owed a s.threads) ≡ wrap_uint64 s.marked

-- An average that is offered what a thread owes it, or gives up what a tick takes.
adds-offered :
    (s : System) (i n : ℕ) (a b : Average)
    → get_elem? s.threads i ≡ some (adding a n)
    → wrap_uint64 (s.uncounted b + s.taken b + owed b s.threads) ≡ wrap_uint64 s.marked
    → wrap_uint64 (
        at_average s.uncounted a (wrap_uint64 (s.uncounted a + n)) b
        + s.taken b
        + owed b (set s.threads i (after a n)))
      ≡ wrap_uint64 s.marked
adds-offered s i n a b e h = ground (arith, owed-set b s.threads i (adding a n) (after a n) e)

takes-offered :
    (s : System) (a b : Average)
    → at_average s.uncounted a 0 b + at_average s.taken a (s.taken a + s.uncounted a) b
      ≡ s.uncounted b + s.taken b
takes-offered s a b = ground arith

Step-Inv : {s t : System} → Step s t → Inv s → Inv t
Step-Inv {s} (counts i n e) v = record {
  counted = omega (arith, v.counted);
  offered = λ a. omega (arith, v.offered a, owed-set a s.threads i idle (adding m1 n) e);
}
Step-Inv {s} (adds i n a e) v = record {
  counted = v.counted;
  offered = λ b. adds-offered s i n a b e (v.offered b);
}
Step-Inv {s} (takes a) v = record {
  counted = v.counted;
  offered = λ b. omega (arith, v.offered b, takes-offered s a b);
}

start-Inv : (n : ℕ) → Inv (start_system n)
start-Inv n = record { counted = refl; offered = λ a. omega (arith, owed_start a n) }

Reach-Inv : (n : ℕ) {s : System} → Reach (start_system n) s → Inv s
Reach-Inv n here = start-Inv n
Reach-Inv n (next r st) = Step-Inv st (Reach-Inv n r)

-- Any number of threads, however their calls of `mark` and the ticks interleave: the count is the sum
-- of the events marked, modulo 2 ^ 64, and each of the three averages has had the same events: those
-- that its ticks have taken, those that are uncounted, and those that threads are about to add.
pub Reach-counted :
    (n : ℕ) {s : System}
    → Reach (start_system n) s
    → (s.count ≡ wrap_uint64 s.marked)
      × ((a : Average)
          → wrap_uint64 (s.uncounted a + s.taken a + owed a s.threads) ≡ wrap_uint64 s.marked)
Reach-counted n r = let v = Reach-Inv n r in (v.counted, v.offered)
