-- ===== src/Tests/Executors.antt =====
-- The scheduled executor and its reporter: runs, and the theorems at concrete inputs.
use cppmetrics.Prelude.{◌≡◌, refl, true, false, [], ◌∷◌, pos}
use cppmetrics.Executor.{
  ScheduledExecutor, scheduled_executor, schedule_timer, timer_handler, shutdown, ends, rearm,
  Reach, here, next, ScheduledReporter, scheduled_reporter, start, stop, without,
}
use cppmetrics.Executor.Life.{restart-quiet}

-- A timer that fires once.
abbrev scheduled : ScheduledExecutor
scheduled = schedule_timer (scheduled_executor 1) (pos 50) true (pos 1000)

abbrev fired : ScheduledExecutor
fired = timer_handler (record scheduled { waits = without 0 scheduled.waits }) false 0

-- Its task has ended after 20 milliseconds, and it waits again.
abbrev waiting_again : ScheduledExecutor
waiting_again = rearm (record fired { handlers = without 0 fired.handlers }) 0 (pos 1070)

fired_ran :
    (fired.ran ≡ 0 ∷ [])
    × (fired.handlers ≡ 0 ∷ [])
    × (fired.waits ≡ [])
    × (waiting_again.waits ≡ (0, false) ∷ [])
unfolding scheduled_executor schedule_timer timer_handler rearm
fired_ran = (refl, refl, refl, refl)

abbrev closed : ScheduledExecutor
closed = shutdown waiting_again

abbrev late : ScheduledExecutor
late = timer_handler (record closed { waits = without 0 closed.waits }) false 0

late_end : Reach closed late
unfolding scheduled_executor schedule_timer timer_handler rearm shutdown
late_end = next here (ends 0 0 false refl refl)

abbrev reporter : ScheduledReporter
reporter = start scheduled_reporter (pos 50) (pos 1000)

abbrev again : ScheduledReporter
again = start (stop reporter) (pos 50) (pos 2000)

restart-quiet_example : (again.running ≡ true) × (again.executor.ran ≡ reporter.executor.ran)
unfolding start scheduled_reporter scheduled_executor
restart-quiet_example = restart-quiet reporter (pos 50) (pos 2000) refl refl here
