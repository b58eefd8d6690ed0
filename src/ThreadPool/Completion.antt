-- ===== src/ThreadPool/Completion.antt =====
-- What `shutdown` of simple_thread_pool_executor.cpp waits for.
use cppmetrics.Prelude.{
  ℕ, ◌≡◌, refl, sym, ap, ◌∙◌, true, false, List, [], ◌∷◌, ◌++◌, length, arith, Bool-cases, inl, inr,
}
use mathlib.Core.List.{append_assoc, append-nil}
use cppmetrics.ThreadPool.{
  ThreadPool, thread_pool, execute, shutdown, shutdown_now, takes, finishes, runs_out,
  returns_from_run, Step, works, executes, shuts_down, shuts_down_now, Reach, here, next,
}
use cppmetrics.ThreadPool.Done.{times, times-done}
use cppmetrics.ThreadPool.Orders.{IsSound, Work-IsSound, Step-IsSound, Reach-IsSound}

-- After a `shutdown`: the tasks of before it are the first ones.
record Kept (before : List ℕ) (e : ThreadPool) : Type 0 where
  sound : IsSound e
  off : e.running ≡ false
  no_work : e.has_work ≡ false
  all_posted : (rest : List ℕ) × (e.posted ≡ before ++ rest)
  all_started : e.stopped ≡ true → (rest : List ℕ) × (e.started ≡ before ++ rest)

Step-Kept : (before : List ℕ) {e e' : ThreadPool} → Step e e' → Kept before e → Kept before e'
unfolding execute shutdown shutdown_now
Step-Kept before {e} (works (takes i task rest at off queued)) k = record {
  sound = Work-IsSound (takes i task rest at off queued) k.sound;
  off = k.off;
  no_work = k.no_work;
  all_posted = k.all_posted;
  all_started = λ h. let yes_and_no = sym h ∙ off in cc;
}
Step-Kept before {e} (works (finishes i task at)) k = record {
  sound = Work-IsSound (finishes i task at) k.sound;
  off = k.off;
  no_work = k.no_work;
  all_posted = k.all_posted;
  all_started = k.all_started;
}
Step-Kept before {e} (works (runs_out off no_work empty idle)) k = record {
  sound = Work-IsSound (runs_out off no_work empty idle) k.sound;
  off = k.off;
  no_work = k.no_work;
  all_posted = k.all_posted;
  all_started = λ h.
      let (rest, same) = k.all_posted in
      let ran_all : e.started ≡ e.posted =
        sym (append-nil e.started) ∙ ap (λ q. e.started ++ q) (sym empty) ∙ k.sound.in_order in
      (rest, ran_all ∙ same);
}
Step-Kept before {e} (works (returns_from_run i at stop)) k = record {
  sound = Work-IsSound (returns_from_run i at stop) k.sound;
  off = k.off;
  no_work = k.no_work;
  all_posted = k.all_posted;
  all_started = k.all_started;
}
Step-Kept before {e} (executes command) k = record {
  sound = Step-IsSound (executes command) k.sound;
  off = k.off;
  no_work = k.no_work;
  all_posted =
      let (rest, same) = k.all_posted in
      (
        rest ++ command ∷ [],
        ap (λ q. q ++ command ∷ []) same ∙ append_assoc before rest (command ∷ []),
      );
  all_started = k.all_started;
}
Step-Kept before {e} shuts_down k = simp (shutdown, k.off) k
Step-Kept before {e} shuts_down_now k = simp (shutdown_now, k.off) k

Reach-Kept : (before : List ℕ) {e e' : ThreadPool} → Kept before e → Reach e e' → Kept before e'
Reach-Kept before k here = k
Reach-Kept before k (next r step) = Step-Kept before step (Reach-Kept before k r)

shutdown-Kept : (e : ThreadPool) → IsSound e → e.running ≡ true → Kept e.posted (shutdown e)
unfolding shutdown
shutdown-Kept e s on =
    let sound : IsSound (shutdown e) = Step-IsSound shuts_down s in
    simp (shutdown, on)
      (record {
        sound = simp (shutdown, on) at sound;
        off = refl;
        no_work = refl;
        all_posted = ([], sym (append-nil e.posted));
        all_started = λ h. let yes_and_no = sym h ∙ (s.on on).1 in cc;
      })

-- After `shutdown` of a pool that runs, whatever is called and done then, `shutdownNow` and further
-- tasks included: once the service has stopped, which `join_all` waits for, every task that was
-- posted before `shutdown` has been taken, before any later one, and every task that was taken is done,
-- as often as it was taken.
pub shutdown-completes :
    (n : ℕ) {e e' : ThreadPool}
    → Reach (thread_pool n) e
    → e.running ≡ true
    → Reach (shutdown e) e'
    → e'.stopped ≡ true
    → ((rest : List ℕ) × (e'.started ≡ e.posted ++ rest))
      × (length e'.done ≡ length e'.started)
      × ((task : ℕ) → times task e'.done ≡ times task e'.started)
shutdown-completes n {e} r on later stop =
    let k = Reach-Kept e.posted (shutdown-Kept e (Reach-IsSound n r) on) later in
    let quiet = k.sound.at_rest stop k.no_work in
    (
      k.all_started stop,
      omega (arith, k.sound.counted, quiet),
      λ task. times-done n task r shuts_down later quiet,
    )

-- Stopped, and the same tasks were taken.
abbrev IsOver : List ℕ → ThreadPool → Type 0
IsOver started e = (e.stopped ≡ true) × (e.started ≡ started)

shutdown_now-IsOver :
    (started : List ℕ) (e : ThreadPool) → IsOver started e → IsOver started (shutdown_now e)
unfolding shutdown_now
shutdown_now-IsOver started e (stop, same) = elim (Bool-cases e.running) [
  | inl on ↦ simp (shutdown_now, on) (refl, same)
  | inr off ↦ simp (shutdown_now, off) (stop, same)
]

shutdown-IsOver :
    (started : List ℕ) (e : ThreadPool) → IsOver started e → IsOver started (shutdown e)
unfolding shutdown
shutdown-IsOver started e (stop, same) = elim (Bool-cases e.running) [
  | inl on ↦ simp (shutdown, on) (stop, same)
  | inr off ↦ simp (shutdown, off) (stop, same)
]

Step-IsOver :
    (started : List ℕ) {e e' : ThreadPool} → Step e e' → IsOver started e → IsOver started e'
unfolding execute
Step-IsOver started (works (takes i task rest at off queued)) (stop, same) =
    let yes_and_no = sym stop ∙ off in cc
Step-IsOver started (works (finishes i task at)) o = o
Step-IsOver started (works (runs_out off no_work empty idle)) (stop, same) = (refl, same)
Step-IsOver started (works (returns_from_run i at stop)) o = o
Step-IsOver started (executes command) o = o
Step-IsOver started {e} shuts_down o = shutdown-IsOver started e o
Step-IsOver started {e} shuts_down_now o = shutdown_now-IsOver started e o

-- From the moment that the service has stopped, whatever is called: no task is taken any more. A task
-- that is then given to `execute` is posted, and never runs.
pub Reach-over :
    {e e' : ThreadPool}
    → Reach e e'
    → e.stopped ≡ true
    → (e'.stopped ≡ true) × (e'.started ≡ e.started)
Reach-over here stop = (stop, refl)
Reach-over {e} (next r step) stop = Step-IsOver e.started step (Reach-over r stop)
