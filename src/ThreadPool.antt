-- ===== src/ThreadPool.antt =====
-- src/cppmetrics/concurrent/simple_thread_pool_executor.h and its .cpp: tasks that threads take from a
-- queue. Boost.Asio keeps the queue, and stops by itself when its work is gone, no task is queued and
-- none is being run. A task is a number here, and one that is run returns.
pub mod Orders
pub mod Done
pub mod Completion
pub mod Drains
use cppmetrics.Prelude.{
  ℕ, zero, suc, ◌+◌, ◌≡◌, Bool, true, false, List, [], ◌∷◌, ◌++◌, some, get_elem?, set, replicate,
  if◌then◌else◌,
}

-- A thread in `io_service::run`, which waits for a task or runs one, or that has returned from it.
pub data Thread : Type 0 where
  waiting : Thread
  busy : ℕ → Thread
  ended : Thread

pub record ThreadPool : Type 0 where
  pub running : Bool
  -- `work_ptr_` is set
  pub has_work : Bool
  -- the state of `io_service_`
  pub stopped : Bool
  pub queue : List ℕ
  pub threads : List Thread
  -- all tasks that were posted, those that a thread took, and those that are done, in order
  pub posted : List ℕ
  pub started : List ℕ
  pub done : List ℕ

-- The constructor.
unfoldable pub thread_pool : ℕ → ThreadPool
thread_pool thread_count = record {
  running = true;
  has_work = true;
  stopped = false;
  queue = [];
  threads = replicate thread_count waiting;
  posted = [];
  started = [];
  done = [];
}

unfoldable pub execute : ThreadPool → ℕ → ThreadPool
execute e command = record e { queue = e.queue ++ command ∷ []; posted = e.posted ++ command ∷ [] }

-- `shutdown` up to `join_all`, which waits until all threads have ended.
unfoldable pub shutdown : ThreadPool → ThreadPool
shutdown e = if e.running then record e { running = false; has_work = false } else e

-- `shutdownNow`, which the destructor calls, up to `join_all`.
unfoldable pub shutdown_now : ThreadPool → ThreadPool
shutdown_now e = if e.running then record e { running = false; stopped = true } else e

unfoldable pub is_shutdown : ThreadPool → Bool
is_shutdown e = if e.running then false else true

-- The sum of a number for each thread.
abbrev pub total : (Thread → ℕ) → List Thread → ℕ
total w [] = 0
total w (t ∷ ts) = w t + total w ts

abbrev pub is_busy : Thread → ℕ
is_busy waiting = 0
is_busy (busy task) = 1
is_busy ended = 0

abbrev pub is_ended : Thread → ℕ
is_ended waiting = 0
is_ended (busy task) = 0
is_ended ended = 1

-- What the threads and the service do by themselves.
pub data Work (e : ThreadPool) : ThreadPool → Type 0 where
  takes :
      (i task : ℕ) (rest : List ℕ)
      → get_elem? e.threads i ≡ some waiting
      → e.stopped ≡ false
      → e.queue ≡ task ∷ rest
      → Work e (record e {
        queue = rest;
        threads = set e.threads i (busy task);
        started = e.started ++ task ∷ [];
      })
  finishes :
      (i task : ℕ)
      → get_elem? e.threads i ≡ some (busy task)
      → Work e (record e { threads = set e.threads i waiting; done = e.done ++ task ∷ [] })
  runs_out :
      e.stopped ≡ false
      → e.has_work ≡ false
      → e.queue ≡ []
      → total is_busy e.threads ≡ 0
      → Work e (record e { stopped = true })
  returns_from_run :
      (i : ℕ)
      → get_elem? e.threads i ≡ some waiting
      → e.stopped ≡ true
      → Work e (record e { threads = set e.threads i ended })

pub data Step (e : ThreadPool) : ThreadPool → Type 0 where
  works : {e' : ThreadPool} → Work e e' → Step e e'
  executes : (command : ℕ) → Step e (execute e command)
  shuts_down : Step e (shutdown e)
  shuts_down_now : Step e (shutdown_now e)

pub data Reach (start : ThreadPool) : ThreadPool → Type 0 where
  here : Reach start start
  next : {e e' : ThreadPool} → Reach start e → Step e e' → Reach start e'
