-- ===== src/Tests/Pools.antt =====
-- The thread pool: a run of one task on one thread, and the theorems at it.
use cppmetrics.Prelude.{ℕ, ◌≡◌, refl, true, false, List, [], ◌∷◌, ◌++◌, length, arith}
use cppmetrics.ThreadPool.{
  ThreadPool, waiting, thread_pool, execute, shutdown, shutdown_now, takes, finishes, runs_out,
  works, executes, Reach, here, next,
}
use cppmetrics.ThreadPool.Done.{times}
use cppmetrics.ThreadPool.Completion.{shutdown-completes, Reach-over}
use cppmetrics.ThreadPool.Drains.{Joins, shutdown-Joins}

-- One thread, and the task 7 posted.
abbrev loaded : ThreadPool
loaded = execute (thread_pool 1) 7

abbrev loaded-Reach : Reach (thread_pool 1) loaded
loaded-Reach = next here (executes 7)

shutdown-Joins_example : Joins 2 (shutdown loaded) × Joins 2 (shutdown_now loaded)
unfolding thread_pool execute
shutdown-Joins_example = shutdown-Joins 1 2 (omega arith) loaded-Reach refl

-- The pool after `shutdown`, when the task has run and the thread has returned.
abbrev drained : ThreadPool
drained = record {
  running = false;
  has_work = false;
  stopped = true;
  queue = [];
  threads = waiting ∷ [];
  posted = 7 ∷ [];
  started = 7 ∷ [];
  done = 7 ∷ [];
}

drained-Reach : Reach (shutdown loaded) drained
unfolding thread_pool execute shutdown
drained-Reach =
    next (next (next here (works (takes 0 7 [] refl refl refl))) (works (finishes 0 7 refl)))
      (works (runs_out refl refl refl refl))

shutdown-completes_example :
    ((rest : List ℕ) × (drained.started ≡ loaded.posted ++ rest))
    × (length drained.done ≡ length drained.started)
    × ((task : ℕ) → times task drained.done ≡ times task drained.started)
unfolding thread_pool execute
shutdown-completes_example = shutdown-completes 1 loaded-Reach refl drained-Reach refl

-- A task posted after that.
Reach-over_example :
    ((execute drained 8).stopped ≡ true) × ((execute drained 8).started ≡ drained.started)
Reach-over_example = Reach-over (next here (executes 8)) refl
