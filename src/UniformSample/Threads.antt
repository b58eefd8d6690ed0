-- ===== src/UniformSample/Threads.antt =====
-- `update` of uniform_sample.cpp by several threads at once on one sample. A thread increments `count_`
-- outside of the mutex, and then writes under it; between the two, others may do both, or take a
-- snapshot. Counts stay below 2 ^ 64.
use cppmetrics.Prelude.{
  ℕ, ◌+◌, ◌-◌, ◌≤◌, ◌<◌, ◌≡◌, List, [], ◌∷◌, ◌++◌, some, ℤ, pos, get_elem?, set, take, min, length,
  replicate, uint64_mod, wrap_uint64, negsuc, ◌≤ℤ◌,
}
use cppmetrics.UniformSample.{to_int32}
use cppmetrics.Snapshot.{Snapshot, snapshot}

-- Where a thread is: outside; with its count and its value, before the lock; or in undefined behaviour,
-- which it never leaves.
pub data Pc : Type 0 where
  idle : Pc
  counted : ℕ → ℤ → Pc
  broken : Pc

pub record System : Type 0 where
  pub count : ℕ
  pub values : List ℤ
  pub threads : List Pc
  -- the values of the calls, in the order of their counts
  pub given : List ℤ

abbrev pub start_system : ℕ → ℕ → System
start_system reservoir_size n = record {
  count = 0;
  values = replicate reservoir_size (pos 0);
  threads = replicate n idle;
  given = [];
}

-- The upper bound of the random number, as an `int`.
abbrev pub last_random : ℕ → ℤ
last_random count = to_int32 (wrap_uint64 (count + uint64_mod - 1))

pub data Step (s : System) : System → Type 0 where
  -- `++count_`
  counts :
      (i : ℕ) (value : ℤ)
      → get_elem? s.threads i ≡ some idle
      → s.count + 1 < uint64_mod
      → Step s (record s {
        count = s.count + 1;
        threads = set s.threads i (counted (s.count + 1) value);
        given = s.given ++ value ∷ [];
      })
  -- the block under the lock, while the reservoir has room
  fills :
      (i count : ℕ) (value : ℤ)
      → get_elem? s.threads i ≡ some (counted count value)
      → count ≤ length s.values
      → Step s
          (record s { values = set s.values (count - 1) value; threads = set s.threads i idle })
  -- the same when it is full, with a random index inside
  replaces :
      (i count rand : ℕ) (value : ℤ)
      → get_elem? s.threads i ≡ some (counted count value)
      → length s.values < count
      → pos rand ≤ℤ last_random count
      → rand < length s.values
      → Step s (record s { values = set s.values rand value; threads = set s.threads i idle })
  -- or beyond it
  drops :
      (i count rand : ℕ) (value : ℤ)
      → get_elem? s.threads i ≡ some (counted count value)
      → length s.values < count
      → pos rand ≤ℤ last_random count
      → length s.values ≤ rand
      → Step s (record s { threads = set s.threads i idle })
  -- the bounds of the random number are out of order, which they must not be
  breaks :
      (i count : ℕ) (value : ℤ)
      → get_elem? s.threads i ≡ some (counted count value)
      → length s.values < count
      → last_random count ≤ℤ negsuc 0
      → Step s (record s { threads = set s.threads i broken })

pub data Reach (s : System) : System → Type 0 where
  here : Reach s s
  next : {t u : System} → Reach s t → Step t u → Reach s u

-- `getSnapshot`, which reads `count_` in `size`.
abbrev pub snapshot_of : System → Snapshot
snapshot_of s = snapshot (take (min s.count (length s.values)) s.values)

abbrev pub IsIdle : Pc → Type 0
IsIdle idle = Unit
IsIdle (counted count value) = ⊥
IsIdle broken = ⊥
