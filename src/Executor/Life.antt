-- ===== src/Executor/Life.antt =====
-- An executor of simple_scheduled_thread_pool_executor.cpp, and the reporter of
-- scheduled_reporter.cpp that owns one, from their start to their end.
use cppmetrics.Prelude.{
  ℕ, ◌≡◌, refl, ap, true, false, List, ℤ, Option-cases, get_elem?, inl, inr, subst,
}
use cppmetrics.Executor.{
  ScheduledExecutor, schedule_timer, schedule_at_fixed_delay, shutdown, shutdown_now, without, Step,
  schedules, ends, task_ends, rearm, shuts_down, shuts_down_now, Reach, here, next,
  ScheduledReporter, start, stop,
}
use cppmetrics.Executor.Waits.{timer_handler_off}

-- Not running, and the same tasks have run.
IsQuiet : List ℕ → ScheduledExecutor → Type 0
IsQuiet ran e = (e.running ≡ false) × (e.ran ≡ ran)

shutdown_off : (e : ScheduledExecutor) → e.running ≡ false → shutdown e ≡ e
unfolding shutdown
shutdown_off e off = simp (shutdown, off) refl

shutdown_now_off : (e : ScheduledExecutor) → e.running ≡ false → shutdown_now e ≡ e
unfolding shutdown_now
shutdown_now_off e off = simp (shutdown_now, off) refl

rearm-IsQuiet :
    (ran : List ℕ) (e : ScheduledExecutor) (k : ℕ) (now : ℤ)
    → IsQuiet ran e
    → IsQuiet ran (rearm e k now)
unfolding rearm IsQuiet
rearm-IsQuiet ran e k now q = elim (Option-cases (get_elem? e.timer_tasks k)) [
  | inl gone ↦ simp (rearm, gone) q
  | inr (t, found) ↦ simp (rearm, found) q
]

step-IsQuiet :
    {e e' : ScheduledExecutor} (ran : List ℕ) → Step e e' → IsQuiet ran e → IsQuiet ran e'
unfolding schedule_timer IsQuiet
step-IsQuiet ran (schedules period fixed_rate now) q = q
step-IsQuiet {e} ran (ends i k ec served h) (off, same) =
    rw (timer_handler_off (record e { waits = without i e.waits }) ec k off) (off, same)
step-IsQuiet {e} ran (task_ends i k now h) q =
    rearm-IsQuiet ran (record e { handlers = without i e.handlers }) k now q
step-IsQuiet {e} ran shuts_down (off, same) = rw (shutdown_off e off) (off, same)
step-IsQuiet {e} ran shuts_down_now (off, same) = rw (shutdown_now_off e off) (off, same)

-- From an executor that was shut down, whatever calls are made and waits and tasks end: it stays so, and
-- no further task is begun.
pub Reach-quiet :
    {e e' : ScheduledExecutor}
    → Reach e e'
    → e.running ≡ false
    → (e'.running ≡ false) × (e'.ran ≡ e.ran)
unfolding IsQuiet
Reach-quiet here off = (off, refl)
Reach-quiet {e} (next before step) off = step-IsQuiet e.ran step (Reach-quiet before off)

restarted :
    (r : ScheduledReporter) (period now : ℤ)
    → r.running ≡ true
    → r.executor.running ≡ true
    → start (stop r) period now ≡ record {
      running = true;
      executor =
          schedule_at_fixed_delay
            (record r.executor { running = false; has_work = false })
            period
            now;
    }
unfolding start stop shutdown
restarted r period now on running = simp (start, stop, shutdown, on, running) refl

-- A reporter that was stopped and is started again says that it runs, but its executor was shut down
-- by `stop`: whatever happens then, it never reports again.
pub restart-quiet :
    (r : ScheduledReporter) (period now : ℤ) {e' : ScheduledExecutor}
    → r.running ≡ true
    → r.executor.running ≡ true
    → Reach (start (stop r) period now).executor e'
    → ((start (stop r) period now).running ≡ true) × (e'.ran ≡ r.executor.ran)
unfolding schedule_at_fixed_delay schedule_timer
restart-quiet r period now {e'} on running later =
    let same = restarted r period now on running in
    let later' = subst (λ (s : ScheduledReporter). Reach s.executor e') same later in
    (ap (λ (s : ScheduledReporter). s.running) same, (Reach-quiet later' refl).1)
