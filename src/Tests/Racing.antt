-- ===== src/Tests/Racing.antt =====
-- Threads in `update` of one uniform sample: a run, and the theorem at it.
use cppmetrics.Prelude.{ℕ, ◌≤◌, ◌<◌, ◌≡◌, refl, [], ◌∷◌, pos, get_elem?, min, length, arith}
use cppmetrics.Snapshot.{snapshot}
use cppmetrics.UniformSample.Threads.{
  System, start_system, idle, counted, counts, fills, Reach, here, next, snapshot_of,
}
use cppmetrics.UniformSample.Recorded.{Reach-recorded}

-- Two threads have incremented the count, for 7 and for 8, and the second has written.
abbrev between : System
between = record {
  count = 2;
  values = pos 0 ∷ pos 8 ∷ pos 0 ∷ [];
  threads = counted 1 (pos 7) ∷ idle ∷ [];
  given = pos 7 ∷ pos 8 ∷ [];
}

between-Reach : Reach (start_system 3 2) between
between-Reach =
    next
      (next (next here (counts 0 (pos 7) refl (omega arith))) (counts 1 (pos 8) refl (omega arith)))
      (fills 1 2 (pos 8) refl (omega arith))

-- A snapshot then has a 0 that nobody has recorded.
snapshot_of-between : snapshot_of between ≡ snapshot (pos 0 ∷ pos 8 ∷ [])
snapshot_of-between = refl

-- Then the first writes too.
abbrev settled : System
settled = record {
  count = 2;
  values = pos 7 ∷ pos 8 ∷ pos 0 ∷ [];
  threads = idle ∷ idle ∷ [];
  given = pos 7 ∷ pos 8 ∷ [];
}

settled-Reach : Reach (start_system 3 2) settled
settled-Reach = next between-Reach (fills 0 1 (pos 7) refl (omega arith))

Reach-recorded_example :
    (length settled.given ≡ settled.count)
    × ((k : ℕ)
        → k < min settled.count 3
        → (j : ℕ) × (j < settled.count) × (get_elem? settled.values k ≡ get_elem? settled.given j))
    × (settled.count ≤ 3
        → (k : ℕ) → k < settled.count
        → get_elem? settled.values k ≡ get_elem? settled.given k)
Reach-recorded_example = Reach-recorded 3 2 settled-Reach (tt, (tt, tt))
