-- ===== src/ThreadPool/Done.antt =====
-- Which tasks of simple_thread_pool_executor.cpp are done.
use cppmetrics.Prelude.{
  ℕ, zero, suc, ◌+◌, ◌≡◌, refl, ◌&&◌, List, [], ◌∷◌, ◌++◌, replicate, arith, leb, Bool-cases, inl,
  inr, if◌then◌else◌,
}
use cppmetrics.ThreadPool.{
  Thread, waiting, busy, ended, ThreadPool, thread_pool, execute, shutdown, shutdown_now, total,
  is_busy, Work, takes, finishes, runs_out, returns_from_run, Step, works, executes, shuts_down,
  shuts_down_now, Reach, here, next,
}
use cppmetrics.ThreadPool.Orders.{total-set}

abbrev is_task : ℕ → ℕ → ℕ
is_task task x = if leb task x && leb x task then 1 else 0

-- How often a task comes in a list.
abbrev pub times : ℕ → List ℕ → ℕ
times task [] = 0
times task (x ∷ xs) = is_task task x + times task xs

-- The threads that run it.
abbrev runs : ℕ → Thread → ℕ
runs task waiting = 0
runs task (busy x) = is_task task x
runs task ended = 0

times-append : (task : ℕ) (xs ys : List ℕ) → times task (xs ++ ys) ≡ times task xs + times task ys
times-append task [] ys = omega arith
times-append task (x ∷ xs) ys = omega (arith, times-append task xs ys)

runs_none : (task : ℕ) (ts : List Thread) → total is_busy ts ≡ 0 → total (runs task) ts ≡ 0
runs_none task [] h = refl
runs_none task (waiting ∷ ts) h = omega (arith, runs_none task ts (omega arith))
runs_none task (busy x ∷ ts) h = absurd (omega arith)
runs_none task (ended ∷ ts) h = omega (arith, runs_none task ts (omega arith))

-- Each time that the task was taken it is done or being run.
abbrev Accounts : ℕ → ThreadPool → Type 0
Accounts task e = times task e.done + total (runs task) e.threads ≡ times task e.started

Work-Accounts : (task : ℕ) {e e' : ThreadPool} → Work e e' → Accounts task e → Accounts task e'
Work-Accounts task {e} (takes i x rest at off queued) a = omega (
  arith,
  a,
  times-append task e.started (x ∷ []),
  total-set (runs task) e.threads i waiting (busy x) at,
)
Work-Accounts task {e} (finishes i x at) a = omega (
  arith,
  a,
  times-append task e.done (x ∷ []),
  total-set (runs task) e.threads i (busy x) waiting at,
)
Work-Accounts task (runs_out off no_work empty rest) a = a
Work-Accounts task {e} (returns_from_run i at stop) a =
    omega (arith, a, total-set (runs task) e.threads i waiting ended at)

Step-Accounts : (task : ℕ) {e e' : ThreadPool} → Step e e' → Accounts task e → Accounts task e'
unfolding execute shutdown shutdown_now
Step-Accounts task (works w) a = Work-Accounts task w a
Step-Accounts task (executes command) a = a
Step-Accounts task {e} shuts_down a = elim (Bool-cases e.running) [
  | inl on ↦ simp (shutdown, on) a
  | inr off ↦ simp (shutdown, off) a
]
Step-Accounts task {e} shuts_down_now a = elim (Bool-cases e.running) [
  | inl on ↦ simp (shutdown_now, on) a
  | inr off ↦ simp (shutdown_now, off) a
]

start_accounts : (task n : ℕ) → total (runs task) (replicate n waiting) ≡ 0
start_accounts task zero = refl
start_accounts task (suc n) = omega (arith, start_accounts task n)

Reach-Accounts : (task : ℕ) {e e' : ThreadPool} → Accounts task e → Reach e e' → Accounts task e'
Reach-Accounts task a here = a
Reach-Accounts task a (next r s) = Step-Accounts task s (Reach-Accounts task a r)

thread_pool-Accounts : (task n : ℕ) → Accounts task (thread_pool n)
unfolding thread_pool
thread_pool-Accounts task n = omega (arith, start_accounts task n)

-- At rest every task that was taken is done, as often as it was taken.
pub times-done :
    (n task : ℕ) {e e' e'' : ThreadPool}
    → Reach (thread_pool n) e
    → Step e e'
    → Reach e' e''
    → total is_busy e''.threads ≡ 0
    → times task e''.done ≡ times task e''.started
times-done n task {e'' = e} r s later quiet =
    let a =
      Reach-Accounts task
        (Step-Accounts task s (Reach-Accounts task (thread_pool-Accounts task n) r)) later in
    omega (arith, a, runs_none task e.threads quiet)
