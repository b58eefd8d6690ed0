-- ===== src/Ewma/Linear.antt =====
-- Threads in `update` and `tick` of one average, of which one at a time is in `tick`.
use cppmetrics.Prelude.{
  ℕ, ◌≡◌, refl, sym, ◌∙◌, ap, List, [], ◌∷◌, ◌++◌, some, get_elem?, set, replicate, All,
  All-replicate, All-get_elem?, get_elem?-set,
}
use cppmetrics.Double.{Double}
use cppmetrics.Ewma.{Ewma, update, tick, instant_rate}
use cppmetrics.Ewma.Threads.{
  Pc, idle, took, first, stored, running, swapping, Idle, Call, updates, ticks, System,
  start_system, run, Step, adds, takes, finds_first, stores, starts, finds_running, loads, swaps,
  misses, Reach, here, next,
}
use cppmetrics.Ewma.Alone.{
  Lone, Others-Idle, All-Idle-Lone, Lone-Others, Others-set, Others-Lone, All-Others, complete,
  complete_all, complete_all-Idle, complete_all-Others, complete_all-update, complete-took,
}

module _ {W : Type 0} ⦃d : Double W⦄ where
  pub run-append : (e : Ewma W) (cs ds : List Call) → run e (cs ++ ds) ≡ run (run e cs) ds
  unfolding run
  run-append e [] ds = refl
  run-append e (updates n ∷ cs) ds = run-append (update e n) cs ds
  run-append e (ticks ∷ cs) ds = run-append (tick e) cs ds

  -- What a thread has loaded is still there.
  abbrev Fresh : W → Pc W → Type 0
  Fresh ewma (swapping cur rate) = ewma ≡ cur
  Fresh ewma _ = Unit

  record Inv (e : Ewma W) (s : System W) : Type 0 where
    lone : Lone s.threads
    fresh : All (Fresh s.average.ewma) s.threads
    linear : complete_all s.threads s.average ≡ run e s.calls

  -- The thread in `tick` goes from `p` to `q`, and leaves to `q` what `p` had to do.
  moved :
      (e : Ewma W) (s : System W) (i : ℕ) (p q : Pc W) (x : Ewma W)
      → Inv e s
      → get_elem? s.threads i ≡ some p
      → (Idle p → ⊥)
      → Fresh x.ewma q
      → complete q x ≡ complete p s.average
      → Inv e (record s { average = x; threads = set s.threads i q })
  moved e s i p q x v h busy f same =
      let others = Lone-Others s.threads i p v.lone h busy in
      record {
        lone = Others-Lone (set s.threads i q) i (Others-set s.threads i q others);
        fresh = All-Others (Fresh x.ewma) s.threads i q others tt f;
        linear =
            complete_all-Others (set s.threads i q) i q x (Others-set s.threads i q others)
              ((get_elem?-set s.threads i i p q h).0 refl)
            ∙ same
            ∙ sym (complete_all-Others s.threads i p s.average others h)
            ∙ v.linear;
      }

  Step-Inv : (e : Ewma W) {s t : System W} → Step (All Idle) s t → Inv e s → Inv e t
  unfolding update run
  Step-Inv e {s} (adds n) v = record {
    lone = v.lone;
    fresh = v.fresh;
    linear =
        complete_all-update s.threads s.average n
        ∙ ap (λ x. update x n) v.linear
        ∙ sym (run-append e s.calls (updates n ∷ []));
  }
  Step-Inv e {s} (takes i h free) v =
      let q = took (instant_rate s.average) in
      let others = Others-Idle s.threads i free in
      record {
        lone = Others-Lone (set s.threads i q) i (Others-set s.threads i q others);
        fresh = All-Others (Fresh s.average.ewma) s.threads i q others tt tt;
        linear =
            complete_all-Others (set s.threads i q) i q _ (Others-set s.threads i q others)
              ((get_elem?-set s.threads i i idle q h).0 refl)
            ∙ complete-took s.average
            ∙ ap tick (sym (complete_all-Idle s.threads s.average free) ∙ v.linear)
            ∙ sym (run-append e s.calls (ticks ∷ []));
      }
  Step-Inv e {s} (finds_first i rate h b) v =
      moved e s i (took rate) (first rate) s.average v h (λ x. x) tt (simp b)
  Step-Inv e {s} (stores i rate h) v = moved e s i (first rate) stored _ v h (λ x. x) tt refl
  Step-Inv e {s} (starts i h) v = moved e s i stored idle _ v h (λ x. x) tt refl
  Step-Inv e {s} (finds_running i rate h b) v =
      moved e s i (took rate) (running rate) s.average v h (λ x. x) tt (simp b)
  Step-Inv e {s} (loads i rate h) v =
      moved e s i (running rate) (swapping s.average.ewma rate) s.average v h (λ x. x) refl refl
  Step-Inv e {s} (swaps i cur rate h same) v =
      moved e s i (swapping cur rate) idle _ v h (λ x. x) tt refl
  Step-Inv e {s} (misses i cur rate h differs) v =
      absurd (differs (All-get_elem? (Fresh s.average.ewma) s.threads i v.fresh h))

  Reach-Inv : (e : Ewma W) (n : ℕ) {s : System W} → Reach (All Idle) (start_system e n) s → Inv e s
  unfolding run
  Reach-Inv e n here = record {
    lone = All-Idle-Lone (replicate n idle) (All-replicate Idle n idle tt);
    fresh = All-replicate (Fresh e.ewma) n idle tt;
    linear = complete_all-Idle (replicate n idle) e (All-replicate Idle n idle tt);
  }
  Reach-Inv e n (next r st) = Step-Inv e st (Reach-Inv e n r)

  -- Where a `tick` starts only while no other runs, but `update` comes from any thread at any time:
  -- once no thread is inside, the average is the one that the
  -- calls give one after the other, in the order in which they came to `uncounted_`.
  pub Reach-linear :
      (e : Ewma W) (n : ℕ) {s : System W}
      → Reach (All Idle) (start_system e n) s
      → All Idle s.threads
      → s.average ≡ run e s.calls
  Reach-linear e n {s} r quiet =
      sym (complete_all-Idle s.threads s.average quiet) ∙ (Reach-Inv e n r).linear
