-- ===== src/Executor/Waits.antt =====
-- The waits of the timers of simple_scheduled_thread_pool_executor.cpp.
use cppmetrics.Prelude.{
  ℕ, zero, suc, ◌+◌, ◌≤◌, ◌<◌, ◌≡◌, ◌==◌, refl, ap, Bool, true, false, List, [], ◌∷◌, ◌++◌, some, ℤ,
  length, get_elem?, set, map, All, if◌then◌else◌, arith, Bool-cases, inl, inr, ltb, length-set,
  length-append, All-append, get_elem?-total, All-get_elem?,
}
use cppmetrics.Executor.{
  ScheduledExecutor, TimerTask, Wait, scheduled_executor, schedule_timer, timer_handler, rearm,
  next_expiry, without,
}

-- How many waits a timer has.
abbrev pub waits_of : ℕ → List Wait → ℕ
waits_of j [] = 0
waits_of j ((i, ec) ∷ ws) = (if j == i then 1 else 0) + waits_of j ws

-- One for an index of a timer.
abbrev pub one_below : ℕ → ℕ → ℕ
one_below n j = if ltb j n then 1 else 0

waits_of-append :
    (j : ℕ) (xs ys : List Wait) → waits_of j (xs ++ ys) ≡ waits_of j xs + waits_of j ys
waits_of-append j [] ys = omega arith
waits_of-append j ((i, ec) ∷ xs) ys = omega (arith, waits_of-append j xs ys)

waits_of-without :
    (j i k : ℕ) (ec : Bool) (ws : List Wait)
    → get_elem? ws i ≡ some (k, ec)
    → waits_of j ws ≡ (if j == k then 1 else 0) + waits_of j (without i ws)
waits_of-without j i k ec [] h = cc
waits_of-without j zero k ec ((l, b) ∷ ws) h = let same : l ≡ k = cc in rw same refl
waits_of-without j (suc i) k ec (w ∷ ws) h = omega (arith, waits_of-without j i k ec ws h)

pub waits_of-cancelled :
    (j : ℕ) (ws : List Wait) → waits_of j (map (λ w. (w.0, true)) ws) ≡ waits_of j ws
waits_of-cancelled j [] = refl
waits_of-cancelled j (w ∷ ws) = ap (λ n. (if j == w.0 then 1 else 0) + n) (waits_of-cancelled j ws)

-- How many handlers of a timer are at their task.
abbrev pub handlers_of : ℕ → List ℕ → ℕ
handlers_of j [] = 0
handlers_of j (i ∷ hs) = (if j == i then 1 else 0) + handlers_of j hs

handlers_of-without :
    (j i k : ℕ) (hs : List ℕ)
    → get_elem? hs i ≡ some k
    → handlers_of j hs ≡ (if j == k then 1 else 0) + handlers_of j (without i hs)
handlers_of-without j i k [] h = cc
handlers_of-without j zero k (l ∷ hs) h = let same : l ≡ k = cc in rw same refl
handlers_of-without j (suc i) k (w ∷ hs) h = omega (arith, handlers_of-without j i k hs h)

All-without : (P : Wait → Type 0) (i : ℕ) (ws : List Wait) → All P ws → All P (without i ws)
All-without P i [] a = tt
All-without P zero (w ∷ ws) (b, bs) = bs
All-without P (suc i) (w ∷ ws) (b, bs) = (b, All-without P i ws bs)

-- The waits of a timer, with its handlers that are at their task.
abbrev pub uses_of : ℕ → ScheduledExecutor → ℕ
uses_of j e = waits_of j e.waits + handlers_of j e.handlers

-- A wait or a handler belongs to a timer that is there, and no timer has two; while the executor runs
-- each timer has exactly one: it waits, and is not cancelled, or its handler is at its task.
pub record IsArmed (e : ScheduledExecutor) : Type 0 where
  pub at_most : (j : ℕ) → uses_of j e ≤ one_below (length e.timer_tasks) j
  pub exactly : e.running ≡ true → (j : ℕ) → uses_of j e ≡ one_below (length e.timer_tasks) j
  pub uncancelled : e.running ≡ true → All (λ w. w.1 ≡ false) e.waits

pub start-IsArmed : (n : ℕ) → IsArmed (scheduled_executor n)
unfolding scheduled_executor
start-IsArmed n = record {
  at_most = λ j. omega arith;
  exactly = λ _ j. ground arith;
  uncancelled = λ _. tt;
}

one_below_suc : (n j : ℕ) → one_below (n + 1) j ≡ one_below n j + (if j == n then 1 else 0)
one_below_suc n j = ground arith

pub true_and_false : (b : Bool) → b ≡ true → b ≡ false → ⊥
true_and_false b on off = cc

pub schedule-IsArmed :
    (e : ScheduledExecutor) (period : ℤ) (fixed_rate : Bool) (now : ℤ)
    → IsArmed e
    → IsArmed (schedule_timer e period fixed_rate now)
unfolding schedule_timer
schedule-IsArmed e period fixed_rate now a =
    let n = length e.timer_tasks in
    record {
      at_most = λ j.
          rw (length-append e.timer_tasks _, one_below_suc n j)
            (omega (arith, waits_of-append j e.waits ((n, false) ∷ []), a.at_most j));
      exactly = λ on j.
          rw (length-append e.timer_tasks _, one_below_suc n j)
            (omega (arith, waits_of-append j e.waits ((n, false) ∷ []), a.exactly on j));
      uncancelled = λ on.
          All-append (λ w. w.1 ≡ false) e.waits ((n, false) ∷ []) (a.uncancelled on) (refl, tt);
    }

-- The index of a wait or a handler is in range.
use_in_range :
    (e : ScheduledExecutor) (k : ℕ) → IsArmed e → 0 < uses_of k e → k < length e.timer_tasks
use_in_range e k a h = let bound = a.at_most k in ground (arith, bound)

timer_handler_runs :
    (e : ScheduledExecutor) (ec : Bool) (k : ℕ) (t : TimerTask)
    → e.running ≡ true
    → ec ≡ false
    → get_elem? e.timer_tasks k ≡ some t
    → timer_handler e ec k ≡ record e { handlers = k ∷ e.handlers; ran = k ∷ e.ran }
unfolding timer_handler
timer_handler_runs e ec k t on fired found = simp (timer_handler, on, fired, found) refl

pub timer_handler_off :
    (e : ScheduledExecutor) (ec : Bool) (k : ℕ) → e.running ≡ false → timer_handler e ec k ≡ e
unfolding timer_handler
timer_handler_off e ec k off = simp (timer_handler, off) refl

pub handler-IsArmed :
    (e : ScheduledExecutor) (i k : ℕ) (ec : Bool)
    → IsArmed e
    → get_elem? e.waits i ≡ some (k, ec)
    → IsArmed (timer_handler (record e { waits = without i e.waits }) ec k)
handler-IsArmed e i k ec a h = elim (Bool-cases e.running) [
  | inl on ↦
      let fired : ec ≡ false =
        All-get_elem? (λ (w : Wait). w.1 ≡ false) e.waits i (a.uncancelled on) h in
      let used = waits_of-without k i k ec e.waits h in
      let some_use : 0 < uses_of k e = ground (arith, used) in
      let (t, found) = get_elem?-total e.timer_tasks k (use_in_range e k a some_use) in
      rw (timer_handler_runs (record e { waits = without i e.waits }) ec k t on fired found)
        (record {
          at_most = λ j. omega (arith, waits_of-without j i k ec e.waits h, a.at_most j);
          exactly = λ on j. omega (arith, waits_of-without j i k ec e.waits h, a.exactly on j);
          uncancelled = λ on. All-without (λ w. w.1 ≡ false) i e.waits (a.uncancelled on);
        })
  | inr off ↦ rw (timer_handler_off (record e { waits = without i e.waits }) ec k off) (record {
    at_most = λ j. omega (arith, waits_of-without j i k ec e.waits h, a.at_most j);
    exactly = λ on. absurd (true_and_false e.running on off);
    uncancelled = λ on. absurd (true_and_false e.running on off);
  })
]

-- The timer that a handler has found is there.
rearm_found :
    (e : ScheduledExecutor) (k : ℕ) (now : ℤ) (t : TimerTask)
    → get_elem? e.timer_tasks k ≡ some t
    → rearm e k now ≡ record e {
      timer_tasks = set e.timer_tasks k (record t { expires_at = next_expiry t now });
      waits = e.waits ++ (k, false) ∷ [];
    }
unfolding rearm
rearm_found e k now t found = simp (rearm, found) refl

pub rearm-IsArmed :
    (e : ScheduledExecutor) (i k : ℕ) (now : ℤ)
    → IsArmed e
    → get_elem? e.handlers i ≡ some k
    → IsArmed (rearm (record e { handlers = without i e.handlers }) k now)
rearm-IsArmed e i k now a h =
    let used = handlers_of-without k i k e.handlers h in
    let some_use : 0 < uses_of k e = ground (arith, used) in
    let (t, found) = get_elem?-total e.timer_tasks k (use_in_range e k a some_use) in
    rw (rearm_found (record e { handlers = without i e.handlers }) k now t found) (record {
      at_most = λ j.
          let less = handlers_of-without j i k e.handlers h in
          let more = waits_of-append j e.waits ((k, false) ∷ []) in
          rw (length-set e.timer_tasks k _) (omega (arith, less, more, a.at_most j));
      exactly = λ on j.
          let less = handlers_of-without j i k e.handlers h in
          let more = waits_of-append j e.waits ((k, false) ∷ []) in
          rw (length-set e.timer_tasks k _) (omega (arith, less, more, a.exactly on j));
      uncancelled = λ on.
          All-append (λ w. w.1 ≡ false) e.waits ((k, false) ∷ []) (a.uncancelled on) (refl, tt);
    })
