-- ===== src/Ewma/Threads.antt =====
-- `update` and `tick` of ewma.cpp by several threads on one average, one atomic operation at a time:
-- the meter calls them without a lock. `Free` says of the threads when one may start a `tick`.
use cppmetrics.Prelude.{
  ℕ, ◌≡◌, ◌≢◌, true, false, List, [], ◌∷◌, ◌++◌, some, get_elem?, set, replicate,
}
use cppmetrics.Double.{Double}
use cppmetrics.Ewma.{Ewma, update, tick, instant_rate}

-- Where a thread is in `tick`, with the `instant_rate` that it has computed.
pub data Pc (W : Type 0) : Type 0 where
  -- outside
  idle : Pc W
  -- `uncounted_` is exchanged
  took : W → Pc W
  -- `initialized_` was false
  first : W → Pc W
  -- `ewma_` is stored, `initialized_` is not
  stored : Pc W
  -- `initialized_` was true
  running : W → Pc W
  -- `cur_ewma` is loaded
  swapping : W → W → Pc W

abbrev pub Idle : {W : Type 0} → Pc W → Type 0
Idle idle = Unit
Idle _ = ⊥

pub data Call : Type 0 where
  updates : ℕ → Call
  ticks : Call

pub record System (W : Type 0) : Type 0 where
  pub average : Ewma W
  pub threads : List (Pc W)
  -- the calls, in the order of their operations on `uncounted_`
  pub calls : List Call
  -- what the exchanges in `tick` returned
  pub taken : List ℕ

abbrev pub start_system : {W : Type 0} → Ewma W → ℕ → System W
start_system e n = record { average = e; threads = replicate n idle; calls = []; taken = [] }

module _ {W : Type 0} ⦃d : Double W⦄ where
  open d use {add, sub, mul}

  -- `new_rate`, from `cur_ewma` and `instant_rate`.
  abbrev pub new_rate : Ewma W → W → W → W
  new_rate e cur rate = add cur (mul e.alpha (sub rate cur))

  -- The calls one after the other.
  unfoldable pub run : Ewma W → List Call → Ewma W
  unfolding update tick
  run e [] = e
  run e (updates n ∷ cs) = run (update e n) cs
  run e (ticks ∷ cs) = run (tick e) cs

module _ {W : Type 0} ⦃d : Double W⦄ (Free : List (Pc W) → Type 0) where
  pub data Step (s : System W) : System W → Type 0 where
    -- `uncounted_ += n`
    adds :
        (n : ℕ)
        → Step s (record s { average = update s.average n; calls = s.calls ++ updates n ∷ [] })
    -- `uncounted_.exchange(0)`
    takes :
        (i : ℕ)
        → get_elem? s.threads i ≡ some idle
        → Free s.threads
        → Step s (record s {
          average = record (s.average) { uncounted = 0 };
          threads = set s.threads i (took (instant_rate s.average));
          calls = s.calls ++ ticks ∷ [];
          taken = s.average.uncounted ∷ s.taken;
        })
    finds_first :
        (i : ℕ) (rate : W)
        → get_elem? s.threads i ≡ some (took rate)
        → s.average.initialized ≡ false
        → Step s (record s { threads = set s.threads i (first rate) })
    stores :
        (i : ℕ) (rate : W)
        → get_elem? s.threads i ≡ some (first rate)
        → Step s (record s {
          average = record (s.average) { ewma = rate };
          threads = set s.threads i stored;
        })
    starts :
        (i : ℕ)
        → get_elem? s.threads i ≡ some stored
        → Step s (record s {
          average = record (s.average) { initialized = true };
          threads = set s.threads i idle;
        })
    finds_running :
        (i : ℕ) (rate : W)
        → get_elem? s.threads i ≡ some (took rate)
        → s.average.initialized ≡ true
        → Step s (record s { threads = set s.threads i (running rate) })
    loads :
        (i : ℕ) (rate : W)
        → get_elem? s.threads i ≡ some (running rate)
        → Step s (record s { threads = set s.threads i (swapping s.average.ewma rate) })
    -- the compare-and-swap, which is not tried again
    swaps :
        (i : ℕ) (cur rate : W)
        → get_elem? s.threads i ≡ some (swapping cur rate)
        → s.average.ewma ≡ cur
        → Step s (record s {
          average = record (s.average) { ewma = new_rate s.average cur rate };
          threads = set s.threads i idle;
        })
    misses :
        (i : ℕ) (cur rate : W)
        → get_elem? s.threads i ≡ some (swapping cur rate)
        → s.average.ewma ≢ cur
        → Step s (record s { threads = set s.threads i idle })

  pub data Reach (s : System W) : System W → Type 0 where
    here : Reach s s
    next : {t u : System W} → Reach s t → Step t u → Reach s u
