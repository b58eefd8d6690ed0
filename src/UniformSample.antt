-- ===== src/UniformSample.antt =====
-- src/cppmetrics/core/uniform_sample.h and uniform_sample.cpp: Vitter's reservoir, in which each of the
-- values seen has the same chance to stay. Each call runs under the sample's mutex.
pub mod Updates
pub mod Reservoir
pub mod Threads
pub mod Recorded
use cppmetrics.Prelude.{
  ℕ, zero, suc, ◌+◌, ◌-◌, ◌%◌, ◌^◌, ◌≡◌, List, [], ◌∷◌, ℤ, pos, negsuc, length, set, take,
  replicate, leb, ltb, wrap_uint64, uint64_mod, int64_to_uint64, min, if◌then◌else◌,
}
use cppmetrics.Outcome.{Outcome, returns, undefined, ◌>>=◌, defined}
use cppmetrics.Random.{Rng}
use cppmetrics.Snapshot.{Snapshot, snapshot}

abbrev pub default_sample_size : ℕ
default_sample_size = 1028

pub record UniformSample (R : Type 0) : Type 0 where
  pub reservoir_size : ℕ
  pub count : ℕ
  pub values : List ℤ
  pub rng : R

-- A 64-bit number as an `int`, as `uniform_int_distribution<>` takes its bounds.
abbrev pub to_int32 : ℕ → ℤ
to_int32 n =
    if ltb (n % 2 ^ 32) (2 ^ 31) then pos (n % 2 ^ 32) else negsuc (2 ^ 32 - n % 2 ^ 32 - 1)

-- `values_[i] = v`, undefined out of range.
abbrev pub write : List ℤ → ℕ → ℤ → Outcome (List ℤ)
write values i v = if ltb i (length values) then returns (set values i v) else undefined

-- The loop of `clear`, from index `i` with `n` rounds to go.
unfoldable pub zero_from : ℕ → ℕ → List ℤ → Outcome (List ℤ)
zero_from zero i values = returns values
zero_from (suc n) i values = write values i (pos 0) >>= zero_from n (i + 1)

module _ {R W : Type 0} (g : Rng R W) where
  -- The constructor.
  unfoldable pub uniform_sample : ℕ → ℕ → UniformSample R
  uniform_sample reservoir_size millis = record {
    reservoir_size = reservoir_size;
    count = 0;
    values = replicate reservoir_size (pos 0);
    rng = g.seed millis;
  }

  unfoldable pub get_random : UniformSample R → ℕ → Outcome (ℕ × R)
  get_random s count =
      defined (g.uniform_int s.rng (pos 0) (to_int32 (wrap_uint64 (count + uint64_mod - 1))))
      >>= λ (v, r). returns (int64_to_uint64 v, r)

  -- `update` while the reservoir has room.
  unfoldable pub fill : UniformSample R → ℕ → ℤ → Outcome (UniformSample R)
  fill s count value = write s.values (wrap_uint64 (count + uint64_mod - 1)) value >>= λ values.
      returns (record s { count = count; values = values })

  -- `update` when the reservoir is full.
  unfoldable pub replace : UniformSample R → ℕ → ℤ → ℕ → R → Outcome (UniformSample R)
  replace s count value rand rng =
      if ltb rand (length s.values)
      then (write s.values rand value >>= λ values.
          returns (record s { count = count; values = values; rng = rng }))
      else returns (record s { count = count; rng = rng })

  unfoldable pub update : UniformSample R → ℤ → Outcome (UniformSample R)
  unfolding get_random fill replace
  update s value =
      let count = wrap_uint64 (s.count + 1) in
      if leb count (length s.values)
      then fill s count value
      else (get_random s count >>= λ (rand, rng). replace s count value rand rng)

module _ {R : Type 0} where
  unfoldable pub clear : UniformSample R → Outcome (UniformSample R)
  unfolding zero_from
  clear s = zero_from s.reservoir_size 0 s.values >>= λ values.
      returns (record s { values = values; count = 0 })

  unfoldable pub size : UniformSample R → ℕ
  size s = min s.count (length s.values)

  unfoldable pub get_snapshot : UniformSample R → Snapshot
  unfolding size
  get_snapshot s = snapshot (take (size s) s.values)
