-- ===== src/Executor.antt =====
-- src/cppmetrics/concurrent/simple_scheduled_thread_pool_executor.h and its .cpp, and the start and
-- stop of core/scheduled_reporter.cpp: timers that run a task again and again on a pool of threads.
-- Boost.Asio keeps the waits that `async_wait` starts; a wait ends once, when its time has come or
-- when its timer is cancelled, and its handler then runs. Times are counts of milliseconds.
pub mod Waits
pub mod Life
use cppmetrics.Prelude.{
  ℕ, zero, suc, ◌≡◌, Bool, true, false, List, [], ◌∷◌, ◌++◌, Option, none, some, ℤ, ◌+ℤ◌, length,
  get_elem?, set, map, if◌then◌else◌,
}

-- A timer is never null here, since only `scheduleTimer` makes a `TimerTask` that is stored.
pub record TimerTask : Type 0 where
  pub period : ℤ
  pub fixed_rate : Bool
  pub expires_at : ℤ

-- A wait of `async_wait`: the index that its handler gets, and whether it was cancelled.
abbrev pub Wait : Type 0
Wait = ℕ × Bool

pub record ScheduledExecutor : Type 0 where
  pub running : Bool
  pub has_work : Bool
  pub stopped : Bool
  pub threads : ℕ
  pub timer_tasks : List TimerTask
  pub waits : List Wait
  -- The indices of the timers whose handlers are at their task: past the checks, and not yet waiting
  -- again.
  pub handlers : List ℕ
  -- The indices of the timers whose tasks were begun, the last one first.
  pub ran : List ℕ

-- The constructor.
unfoldable pub scheduled_executor : ℕ → ScheduledExecutor
scheduled_executor thread_count = record {
  running = true;
  has_work = true;
  stopped = false;
  threads = thread_count;
  timer_tasks = [];
  waits = [];
  handlers = [];
  ran = [];
}

abbrev pub async_wait : ℕ → ScheduledExecutor → ScheduledExecutor
async_wait timer_index e = record e { waits = e.waits ++ (timer_index, false) ∷ [] }

unfoldable pub schedule_timer : ScheduledExecutor → ℤ → Bool → ℤ → ScheduledExecutor
schedule_timer e period fixed_rate now =
    let task : TimerTask = record {
      period = period;
      fixed_rate = fixed_rate;
      expires_at = now +ℤ period;
    } in
    async_wait (length e.timer_tasks) (record e { timer_tasks = e.timer_tasks ++ task ∷ [] })

unfoldable pub schedule_at_fixed_delay : ScheduledExecutor → ℤ → ℤ → ScheduledExecutor
unfolding schedule_timer
schedule_at_fixed_delay e period now = schedule_timer e period false now

unfoldable pub schedule_at_fixed_rate : ScheduledExecutor → ℤ → ℤ → ScheduledExecutor
unfolding schedule_timer
schedule_at_fixed_rate e period now = schedule_timer e period true now

-- When a timer whose task has just run expires next.
abbrev pub next_expiry : TimerTask → ℤ → ℤ
next_expiry t now = if t.fixed_rate then t.expires_at +ℤ t.period else now +ℤ t.period

-- `timerHandler` up to its task, which it begins. `ec` is set for a wait that was cancelled. The
-- returns before the task only log.
unfoldable pub timer_handler : ScheduledExecutor → Bool → ℕ → ScheduledExecutor
timer_handler e ec timer_index =
    if e.running
    then if ec then e else elim (get_elem? e.timer_tasks timer_index) [
      | none ↦ e
      | some t ↦ record e { handlers = timer_index ∷ e.handlers; ran = timer_index ∷ e.ran }
    ]
    else e

-- `timerHandler` after its task, however long that took and whatever was called meanwhile: the timer
-- waits again. It is the one that was found before the task, and a timer that is there stays there.
unfoldable pub rearm : ScheduledExecutor → ℕ → ℤ → ScheduledExecutor
rearm e timer_index now = elim (get_elem? e.timer_tasks timer_index) [
  | none ↦ e
  | some t ↦ async_wait timer_index (record e {
    timer_tasks = set e.timer_tasks timer_index (record t { expires_at = next_expiry t now });
  })
]

unfoldable pub cancel_timers : ScheduledExecutor → ScheduledExecutor
cancel_timers e = record e { waits = map (λ w. (w.0, true)) e.waits }

-- `shutdown` and `shutdownNow`, up to the threads' end, which they wait for.
unfoldable pub shutdown : ScheduledExecutor → ScheduledExecutor
shutdown e = if e.running then record e { running = false; has_work = false } else e

unfoldable pub shutdown_now : ScheduledExecutor → ScheduledExecutor
unfolding cancel_timers
shutdown_now e =
    if e.running
    then record (cancel_timers (record e { running = false })) { stopped = true }
    else e

abbrev pub is_shutdown : ScheduledExecutor → Bool
is_shutdown e = if e.running then false else true

-- One wait, or one handler, taken out of those outstanding.
abbrev pub without : {A : Type 0} → ℕ → List A → List A
without i [] = []
without zero (w ∷ ws) = ws
without (suc i) (w ∷ ws) = w ∷ without i ws

-- What may happen, in any order: a call, the end of a wait while a thread runs the service, or the end
-- of a task.
pub data Step : ScheduledExecutor → ScheduledExecutor → Type 0 where
  schedules :
      {e : ScheduledExecutor} (period : ℤ) (fixed_rate : Bool) (now : ℤ)
      → Step e (schedule_timer e period fixed_rate now)
  ends :
      {e : ScheduledExecutor} (i : ℕ) (timer_index : ℕ) (ec : Bool)
      → e.stopped ≡ false
      → get_elem? e.waits i ≡ some (timer_index, ec)
      → Step e (timer_handler (record e { waits = without i e.waits }) ec timer_index)
  task_ends :
      {e : ScheduledExecutor} (i : ℕ) (timer_index : ℕ) (now : ℤ)
      → get_elem? e.handlers i ≡ some timer_index
      → Step e (rearm (record e { handlers = without i e.handlers }) timer_index now)
  shuts_down : {e : ScheduledExecutor} → Step e (shutdown e)
  shuts_down_now : {e : ScheduledExecutor} → Step e (shutdown_now e)

pub data Reach (start : ScheduledExecutor) : ScheduledExecutor → Type 0 where
  here : Reach start start
  next : {e e' : ScheduledExecutor} → Reach start e → Step e e' → Reach start e'

-- A reporter with its executor.
pub record ScheduledReporter : Type 0 where
  pub running : Bool
  pub executor : ScheduledExecutor

-- The constructor: one thread.
unfoldable pub scheduled_reporter : ScheduledReporter
unfolding scheduled_executor
scheduled_reporter = record { running = false; executor = scheduled_executor 1 }

unfoldable pub start : ScheduledReporter → ℤ → ℤ → ScheduledReporter
unfolding schedule_at_fixed_delay
start r period now =
    if r.running
    then r
    else record { running = true; executor = schedule_at_fixed_delay r.executor period now }

-- The destructor too.
unfoldable pub stop : ScheduledReporter → ScheduledReporter
unfolding shutdown
stop r = if r.running then record { running = false; executor = shutdown r.executor } else r
