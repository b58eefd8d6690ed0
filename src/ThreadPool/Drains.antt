-- ===== src/ThreadPool/Drains.antt =====
-- The threads of simple_thread_pool_executor.cpp come to their end, so that `join_all` returns.
use cppmetrics.Prelude.{
  ℕ, zero, suc, ◌+◌, ◌*◌, ◌≤◌, ◌<◌, ◌≡◌, refl, sym, ap, ◌∙◌, Bool, true, false, List, [], ◌∷◌,
  length-append, some, get_elem?, length, length-set, arith, Bool-cases, inl, inr, ◌⊎◌,
  length-replicate,
}
use cppmetrics.ThreadPool.{
  Thread, waiting, busy, ended, ThreadPool, thread_pool, execute, shutdown, shutdown_now, total,
  is_busy, is_ended, Work, takes, finishes, runs_out, returns_from_run, works, executes, shuts_down,
  shuts_down_now, Reach, here, next,
}
use cppmetrics.ThreadPool.Orders.{IsSound, Reach-IsSound, Work-IsSound, Step-IsSound, total-set}

-- All threads have returned from `run`.
abbrev pub IsJoined : ThreadPool → Type 0
IsJoined e = total is_ended e.threads ≡ length e.threads

-- What goes on in a pool to which at most `n` more tasks are given: a step of the threads, or `execute`
-- from any thread, with fewer left.
pub data Moves : ℕ → ThreadPool → ℕ → ThreadPool → Type 0 where
  goes_on : {n : ℕ} {e e' : ThreadPool} → Work e e' → Moves n e n e'
  gives : {n : ℕ} {e : ThreadPool} (command : ℕ) → Moves (suc n) e n (execute e command)

-- However it goes on, the threads all come to their end: there is a next step of theirs or they have,
-- and the same holds after each step; a proof of it is finite.
pub data Joins : ℕ → ThreadPool → Type 0 where
  joins :
      {n : ℕ} {e : ThreadPool}
      → ((e' : ThreadPool) × Work e e') ⊎ IsJoined e
      → ((n' : ℕ) (e' : ThreadPool) → Moves n e n' e' → Joins n' e')
      → Joins n e

-- The steps that a thread has left to do for what it has.
abbrev weight : Thread → ℕ
weight waiting = 1
weight (busy task) = 2
weight ended = 0

abbrev to_stop : Bool → ℕ
to_stop true = 0
to_stop false = 1

abbrev left : ThreadPool → ℕ
left e = 3 * length e.queue + total weight e.threads + to_stop e.stopped

Work-left : {e e' : ThreadPool} → Work e e' → left e' < left e
Work-left {e} (takes i task rest at off queued) =
    let size : length e.queue ≡ suc (length rest) = ap length queued in
    omega (arith, size, total-set weight e.threads i waiting (busy task) at)
Work-left {e} (finishes i task at) =
    omega (arith, total-set weight e.threads i (busy task) waiting at)
Work-left {e} (runs_out off no_work empty idle) = rw off (omega arith)
Work-left {e} (returns_from_run i at stop) =
    omega (arith, total-set weight e.threads i waiting ended at)

-- Some thread is of the kind.
busy_thread :
    (ts : List Thread)
    → ((i : ℕ) × (task : ℕ) × (get_elem? ts i ≡ some (busy task))) ⊎ (total is_busy ts ≡ 0)
busy_thread [] = inr refl
busy_thread (busy task ∷ ts) = inl (0, task, refl)
busy_thread (waiting ∷ ts) = elim (busy_thread ts) [
  | inl (i, task, at) ↦ inl (suc i, task, at)
  | inr idle ↦ inr (omega (arith, idle))
]
busy_thread (ended ∷ ts) = elim (busy_thread ts) [
  | inl (i, task, at) ↦ inl (suc i, task, at)
  | inr idle ↦ inr (omega (arith, idle))
]

waiting_thread :
    (ts : List Thread)
    → total is_busy ts ≡ 0
    → ((i : ℕ) × (get_elem? ts i ≡ some waiting)) ⊎ (total is_ended ts ≡ length ts)
waiting_thread [] h = inr refl
waiting_thread (waiting ∷ ts) h = inl (0, refl)
waiting_thread (busy task ∷ ts) h = absurd (omega arith)
waiting_thread (ended ∷ ts) h = elim (waiting_thread ts (omega arith)) [
  | inl (i, at) ↦ inl (suc i, at)
  | inr all ↦ inr (omega (arith, all))
]

-- A pool that is shut down: it has threads, and the service stops or has stopped.
record IsEnding (e : ThreadPool) : Type 0 where
  sound : IsSound e
  some_threads : 0 < length e.threads
  ending : (e.has_work ≡ false) ⊎ (e.stopped ≡ true)

Work-IsEnding : {e e' : ThreadPool} → Work e e' → IsEnding e → IsEnding e'
Work-IsEnding {e} (takes i task rest at off queued) p = record {
  sound = Work-IsSound (takes i task rest at off queued) p.sound;
  some_threads = omega (arith, p.some_threads, length-set e.threads i (busy task));
  ending = p.ending;
}
Work-IsEnding {e} (finishes i task at) p = record {
  sound = Work-IsSound (finishes i task at) p.sound;
  some_threads = omega (arith, p.some_threads, length-set e.threads i waiting);
  ending = p.ending;
}
Work-IsEnding {e} (runs_out off no_work empty idle) p = record {
  sound = Work-IsSound (runs_out off no_work empty idle) p.sound;
  some_threads = p.some_threads;
  ending = inr refl;
}
Work-IsEnding {e} (returns_from_run i at stop) p = record {
  sound = Work-IsSound (returns_from_run i at stop) p.sound;
  some_threads = omega (arith, p.some_threads, length-set e.threads i ended);
  ending = p.ending;
}

-- The service is on, and no thread is busy.
on_progress :
    (e : ThreadPool) (queue : List ℕ)
    → IsEnding e
    → total is_busy e.threads ≡ 0
    → e.stopped ≡ false
    → e.queue ≡ queue
    → (e' : ThreadPool) × Work e e'
on_progress e [] p idle off empty = elim p.ending [
  | inl no_work ↦ (_, runs_out off no_work empty idle)
  | inr stop ↦ let yes_and_no = sym stop ∙ off in cc
]
on_progress e (task ∷ rest) p idle off queued = elim (waiting_thread e.threads idle) [
  | inl (i, at) ↦ (_, takes i task rest at off queued)
  | inr all ↦ absurd (omega (arith, all, p.some_threads, p.sound.none_ended off))
]

progress : (e : ThreadPool) → IsEnding e → ((e' : ThreadPool) × Work e e') ⊎ IsJoined e
progress e p = elim (busy_thread e.threads) [
  | inl (i, task, at) ↦ inl (_, finishes i task at)
  | inr idle ↦ elim (Bool-cases e.stopped) [
    | inl stop ↦ elim (waiting_thread e.threads idle) [
      | inl (i, at) ↦ inl (_, returns_from_run i at stop)
      | inr all ↦ inr all
    ]
    | inr off ↦ inl (on_progress e e.queue p idle off refl)
  ]
]

execute-IsEnding : (e : ThreadPool) (command : ℕ) → IsEnding e → IsEnding (execute e command)
unfolding execute
execute-IsEnding e command p = record {
  sound = Step-IsSound (executes command) p.sound;
  some_threads = p.some_threads;
  ending = p.ending;
}

left-execute : (e : ThreadPool) (command : ℕ) → left (execute e command) ≡ left e + 3
unfolding execute
left-execute e command = omega (arith, length-append e.queue (command ∷ []))

-- A move leaves less, where each task still to be given counts for four.
after_move :
    (k : ℕ) {n n' : ℕ} {e e' : ThreadPool}
    → Moves n e n' e'
    → 4 * n + left e ≤ k
    → IsEnding e
    → (4 * n' + left e' < k) × IsEnding e'
after_move k {e} (goes_on w) h p = (omega (arith, Work-left w, h), Work-IsEnding w p)
after_move k {e} (gives command) h p =
    (omega (arith, left-execute e command, h), execute-IsEnding e command p)

ending-Joins : (k n : ℕ) (e : ThreadPool) → 4 * n + left e < k → IsEnding e → Joins n e
ending-Joins zero n e h p = absurd (omega arith)
ending-Joins (suc k) n e h p = joins (progress e p) (λ n' e' m.
    let (less, ending) = after_move k m (omega arith) p in ending-Joins k n' e' less ending)

Work-length : {e e' : ThreadPool} → Work e e' → length e'.threads ≡ length e.threads
Work-length {e} (takes i task rest at off queued) = length-set e.threads i (busy task)
Work-length {e} (finishes i task at) = length-set e.threads i waiting
Work-length {e} (runs_out off no_work empty idle) = refl
Work-length {e} (returns_from_run i at stop) = length-set e.threads i ended

length-shutdown : (e : ThreadPool) → length (shutdown e).threads ≡ length e.threads
unfolding shutdown
length-shutdown e = elim (Bool-cases e.running) [
  | inl on ↦ simp (shutdown, on) refl
  | inr off ↦ simp (shutdown, off) refl
]

length-shutdown_now : (e : ThreadPool) → length (shutdown_now e).threads ≡ length e.threads
unfolding shutdown_now
length-shutdown_now e = elim (Bool-cases e.running) [
  | inl on ↦ simp (shutdown_now, on) refl
  | inr off ↦ simp (shutdown_now, off) refl
]

Reach-length : (n : ℕ) {e : ThreadPool} → Reach (thread_pool n) e → length e.threads ≡ n
unfolding thread_pool execute
Reach-length n here = length-replicate n waiting
Reach-length n (next r (works w)) = Work-length w ∙ Reach-length n r
Reach-length n (next r (executes command)) = Reach-length n r
Reach-length n (next {e} r shuts_down) = length-shutdown e ∙ Reach-length n r
Reach-length n (next {e} r shuts_down_now) = length-shutdown_now e ∙ Reach-length n r

-- A pool with a thread that runs, whatever was posted and done before: after `shutdown` and after
-- `shutdownNow`, with any number of further tasks given to it, but finitely many, and however the
-- threads go on, they all return from `io_service::run` after finitely many steps, and no thread waits
-- for ever, so `join_all` returns.
pub shutdown-Joins :
    (n k : ℕ) {e : ThreadPool}
    → 0 < n
    → Reach (thread_pool n) e
    → e.running ≡ true
    → Joins k (shutdown e) × Joins k (shutdown_now e)
unfolding shutdown shutdown_now
shutdown-Joins n k {e} some_threads r on =
    let r1 = next r shuts_down in
    let r2 = next r shuts_down_now in
    (
      ending-Joins (4 * k + left (shutdown e) + 1) k (shutdown e) (omega arith) (record {
        sound = Reach-IsSound n r1;
        some_threads = omega (arith, some_threads, Reach-length n r1);
        ending = inl (simp (shutdown, on) refl);
      }),
      ending-Joins (4 * k + left (shutdown_now e) + 1) k (shutdown_now e) (omega arith) (record {
        sound = Reach-IsSound n r2;
        some_threads = omega (arith, some_threads, Reach-length n r2);
        ending = inr (simp (shutdown_now, on) refl);
      }),
    )
