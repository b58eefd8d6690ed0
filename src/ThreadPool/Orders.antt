-- ===== src/ThreadPool/Orders.antt =====
-- The order in which simple_thread_pool_executor.cpp runs tasks, and which of them.
use cppmetrics.Prelude.{
  ℕ, zero, suc, ◌+◌, ◌≡◌, refl, sym, ap, ◌∙◌, true, false, List, [], ◌∷◌, ◌++◌, some, get_elem?,
  set, replicate, length, length-append, arith, Bool-cases, inl, inr,
}
use mathlib.Core.List.{append_assoc}
use cppmetrics.ThreadPool.{
  Thread, waiting, busy, ended, ThreadPool, thread_pool, execute, shutdown, shutdown_now, total,
  is_busy, is_ended, Work, takes, finishes, runs_out, returns_from_run, Step, works, executes,
  shuts_down, shuts_down_now, Reach, here, next,
}

pub total-set :
    (w : Thread → ℕ) (ts : List Thread) (i : ℕ) (p q : Thread)
    → get_elem? ts i ≡ some p
    → total w (set ts i q) + w p ≡ total w ts + w q
total-set w [] i p q e = cc
total-set w (x ∷ ts) zero p q e = let same : x ≡ p = cc in rw same (omega arith)
total-set w (x ∷ ts) (suc i) p q e = omega (arith, total-set w ts i p q e)

-- What holds of every pool.
pub record IsSound (e : ThreadPool) : Type 0 where
  pub in_order : e.started ++ e.queue ≡ e.posted
  pub none_ended : e.stopped ≡ false → total is_ended e.threads ≡ 0
  pub counted : length e.done + total is_busy e.threads ≡ length e.started
  pub at_rest : e.stopped ≡ true → e.has_work ≡ false → total is_busy e.threads ≡ 0
  pub on : e.running ≡ true → (e.has_work ≡ true) × (e.stopped ≡ false)

new_threads :
    (n : ℕ) → (total is_ended (replicate n waiting) ≡ 0) × (total is_busy (replicate n waiting) ≡ 0)
new_threads zero = (refl, refl)
new_threads (suc n) = (omega (arith, (new_threads n).0), omega (arith, (new_threads n).1))

thread_pool-IsSound : (n : ℕ) → IsSound (thread_pool n)
unfolding thread_pool
thread_pool-IsSound n = record {
  in_order = refl;
  none_ended = λ h. (new_threads n).0;
  counted = omega (arith, (new_threads n).1);
  at_rest = λ h. cc;
  on = λ h. (refl, refl);
}

pub Work-IsSound : {e e' : ThreadPool} → Work e e' → IsSound e → IsSound e'
Work-IsSound {e} (takes i task rest at off queued) s = record {
  in_order =
      append_assoc e.started (task ∷ []) rest ∙ ap (λ q. e.started ++ q) (sym queued) ∙ s.in_order;
  none_ended =
      λ h. omega (arith, s.none_ended h, total-set is_ended e.threads i waiting (busy task) at);
  counted = omega (
    arith,
    s.counted,
    length-append e.started (task ∷ []),
    total-set is_busy e.threads i waiting (busy task) at,
  );
  at_rest = λ h. cc;
  on = s.on;
}
Work-IsSound {e} (finishes i task at) s = record {
  in_order = s.in_order;
  none_ended =
      λ h. omega (arith, s.none_ended h, total-set is_ended e.threads i (busy task) waiting at);
  counted = omega (
    arith,
    s.counted,
    length-append e.done (task ∷ []),
    total-set is_busy e.threads i (busy task) waiting at,
  );
  at_rest =
      λ h k. omega (arith, s.at_rest h k, total-set is_busy e.threads i (busy task) waiting at);
  on = s.on;
}
Work-IsSound {e} (runs_out off no_work empty idle) s = record {
  in_order = s.in_order;
  none_ended = λ h. cc;
  counted = s.counted;
  at_rest = λ h k. idle;
  on = λ h. let yes_and_no = sym (s.on h).0 ∙ no_work in cc;
}
Work-IsSound {e} (returns_from_run i at stop) s = record {
  in_order = s.in_order;
  none_ended = λ h. let yes_and_no = sym stop ∙ h in cc;
  counted = omega (arith, s.counted, total-set is_busy e.threads i waiting ended at);
  at_rest = λ h k. omega (arith, s.at_rest h k, total-set is_busy e.threads i waiting ended at);
  on = s.on;
}

pub Step-IsSound : {e e' : ThreadPool} → Step e e' → IsSound e → IsSound e'
unfolding execute shutdown shutdown_now
Step-IsSound {e} (works w) s = Work-IsSound w s
Step-IsSound {e} (executes command) s = record {
  in_order =
      sym (append_assoc e.started e.queue (command ∷ [])) ∙ ap (λ q. q ++ command ∷ []) s.in_order;
  none_ended = s.none_ended;
  counted = s.counted;
  at_rest = s.at_rest;
  on = s.on;
}
Step-IsSound {e} shuts_down s = elim (Bool-cases e.running) [
  | inl on ↦
      simp (shutdown, on)
        (record {
          in_order = s.in_order;
          none_ended = s.none_ended;
          counted = s.counted;
          at_rest = λ h k. let yes_and_no = sym h ∙ (s.on on).1 in cc;
          on = λ h. cc;
        })
  | inr off ↦ simp (shutdown, off) s
]
Step-IsSound {e} shuts_down_now s = elim (Bool-cases e.running) [
  | inl on ↦
      simp (shutdown_now, on)
        (record {
          in_order = s.in_order;
          none_ended = λ h. cc;
          counted = s.counted;
          at_rest = λ h k. let yes_and_no = sym (s.on on).0 ∙ k in cc;
          on = λ h. cc;
        })
  | inr off ↦ simp (shutdown_now, off) s
]

pub Reach-IsSound : (n : ℕ) {e : ThreadPool} → Reach (thread_pool n) e → IsSound e
Reach-IsSound n here = thread_pool-IsSound n
Reach-IsSound n (next before step) = Step-IsSound step (Reach-IsSound n before)
