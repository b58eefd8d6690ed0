-- ===== src/Ewma/Taken.antt =====
-- Threads in `update` and `tick` of one average: where the events go.
use cppmetrics.Prelude.{ℕ, ◌+◌, ◌<◌, ◌≡◌, refl, List, [], ◌∷◌, ◌++◌, wrap_uint64, uint64_mod, arith}
use cppmetrics.Double.{Double}
use cppmetrics.Ewma.{Ewma, update}
use cppmetrics.Ewma.Threads.{
  Pc, Call, updates, ticks, System, start_system, Step, adds, takes, finds_first, stores, starts,
  finds_running, loads, swaps, misses, Reach, here, next,
}

-- The events of the updates.
abbrev pub added : List Call → ℕ
added [] = 0
added (updates n ∷ cs) = n + added cs
added (ticks ∷ cs) = added cs

abbrev pub total : List ℕ → ℕ
total [] = 0
total (n ∷ ns) = n + total ns

pub added-append : (cs ds : List Call) → added (cs ++ ds) ≡ added cs + added ds
added-append [] ds = omega arith
added-append (updates n ∷ cs) ds = omega (arith, added-append cs ds)
added-append (ticks ∷ cs) ds = added-append cs ds

module _ {W : Type 0} ⦃d : Double W⦄ (Free : List (Pc W) → Type 0) where
  record Inv (e : Ewma W) (s : System W) : Type 0 where
    small : s.average.uncounted < uint64_mod
    kept :
        wrap_uint64 (e.uncounted + added s.calls)
        ≡ wrap_uint64 (s.average.uncounted + total s.taken)

  Step-Inv : (e : Ewma W) {s t : System W} → Step Free s t → Inv e s → Inv e t
  unfolding update
  Step-Inv e {s} (adds n) v = record {
    small = omega arith;
    kept = omega (arith, v.kept, added-append s.calls (updates n ∷ []));
  }
  Step-Inv e {s} (takes i h free) v = record {
    small = omega arith;
    kept = omega (arith, v.kept, added-append s.calls (ticks ∷ []));
  }
  Step-Inv e (finds_first i rate h b) v = record { small = v.small; kept = v.kept }
  Step-Inv e (stores i rate h) v = record { small = v.small; kept = v.kept }
  Step-Inv e (starts i h) v = record { small = v.small; kept = v.kept }
  Step-Inv e (finds_running i rate h b) v = record { small = v.small; kept = v.kept }
  Step-Inv e (loads i rate h) v = record { small = v.small; kept = v.kept }
  Step-Inv e (swaps i cur rate h same) v = record { small = v.small; kept = v.kept }
  Step-Inv e (misses i cur rate h differs) v = record { small = v.small; kept = v.kept }

  Reach-Inv :
      (e : Ewma W) (n : ℕ) {s : System W}
      → e.uncounted < uint64_mod
      → Reach Free (start_system e n) s
      → Inv e s
  Reach-Inv e n h here = record { small = h; kept = refl }
  Reach-Inv e n h (next r st) = Step-Inv e st (Reach-Inv e n h r)

  -- Any number of threads, however their calls of `update` and `tick` interleave: the events that the
  -- ticks have taken for their rates, with those still uncounted, are the events of the updates and
  -- those uncounted at the start, modulo 2 ^ 64. So no event is in two rates, and none is lost on the
  -- way to one.
  pub Reach-conserved :
      (e : Ewma W) (n : ℕ) {s : System W}
      → e.uncounted < uint64_mod
      → Reach Free (start_system e n) s
      → wrap_uint64 (e.uncounted + added s.calls)
        ≡ wrap_uint64 (s.average.uncounted + total s.taken)
  Reach-conserved e n h r = (Reach-Inv e n h r).kept
