-- ===== src/UniformSample/Updates.antt =====
-- One update of a `UniformSample`.
use cppmetrics.Prelude.{
  ℕ, ◌+◌, ◌-◌, ◌^◌, ◌≤◌, ◌<◌, ◌≡◌, refl, inl, inr, false, List, ℤ, pos, negsuc, ◌≤ℤ◌, length, set,
  leb, ltb, wrap_uint64, uint64_mod, Bool-cases, residue64_of_pos, set_beyond, arith, lt→ltb,
}
use cppmetrics.Outcome.{returns, undefined}
use cppmetrics.Random.{Rng, IsUniform}
use cppmetrics.UniformSample.{UniformSample, to_int32, write, get_random, fill, replace, update}

as_index : (v : ℤ) (count : ℕ) → pos 0 ≤ℤ v → v ≤ℤ pos count → (i : ℕ) × (v ≡ pos i) × (i ≤ count)
as_index (pos i) count h k = (i, refl, omega arith)
as_index (negsuc i) count h k = absurd (omega arith)

module _ {R : Type 0} where
  -- What one update does: it writes the value at one index, which is the next free one while the
  -- reservoir has room.
  pub record IsUpdate (s : UniformSample R) (v : ℤ) (s' : UniformSample R) : Type 0 where
    pub index : ℕ
    pub next_free : s.count < length s.values → index ≡ s.count
    pub within : index ≤ s.count
    pub written : s'.values ≡ set s.values index v
    pub counts : s'.count ≡ s.count + 1
    pub same_size : s'.reservoir_size ≡ s.reservoir_size

  -- The new state, where the value goes to index `i`.
  abbrev updated : UniformSample R → ℤ → ℕ → R → UniformSample R
  updated s v i r = record s { count = s.count + 1; values = set s.values i v; rng = r }

  updated-IsUpdate :
      (s : UniformSample R) (v : ℤ) (i : ℕ) (r : R)
      → (s.count < length s.values → i ≡ s.count)
      → i ≤ s.count
      → IsUpdate s v (updated s v i r)
  updated-IsUpdate s v i r n h = record {
    index = i;
    next_free = n;
    within = h;
    written = refl;
    counts = refl;
    same_size = refl;
  }

module _ {R W : Type 0} (g : Rng R W) (u : IsUniform g) where
  write_within : (xs : List ℤ) (i : ℕ) (v : ℤ) → i < length xs → write xs i v ≡ returns (set xs i v)
  write_within xs i v h = rw (lt→ltb i (length xs) h)

  get_random_within :
      (s : UniformSample R) (count : ℕ)
      → count < 2 ^ 31
      → (i : ℕ) × (r : R) × (get_random g s (count + 1) ≡ returns (i, r)) × (i ≤ count)
  unfolding get_random
  get_random_within s count h =
      let bound : to_int32 (wrap_uint64 (count + 1 + uint64_mod - 1)) ≡ pos count = ground arith in
      let (v, r, e, ge, le) = u.uniform_int_range s.rng (pos 0) (pos count) (omega arith) in
      let (i, same, fits) = as_index v count ge le in
      (i, r, rw (bound, e, same) (rw (residue64_of_pos i (omega arith))), fits)

  fill_lem :
      (s : UniformSample R) (v : ℤ)
      → s.count < 2 ^ 31
      → s.count < length s.values
      → fill g s (s.count + 1) v ≡ returns (updated s v s.count s.rng)
  unfolding fill
  fill_lem s v small room =
      let last : wrap_uint64 (s.count + 1 + uint64_mod - 1) ≡ s.count = omega arith in
      rw (last, write_within s.values s.count v room)

  replace_lem :
      (s : UniformSample R) (v : ℤ) (i : ℕ) (r : R)
      → replace g s (s.count + 1) v i r ≡ returns (updated s v i r)
  unfolding replace
  replace_lem s v i r = elim (Bool-cases (ltb i (length s.values))) [
    | inl inside ↦ rw inside
    | inr outside ↦ rw outside (rw (set_beyond s.values i v (ground arith)))
  ]

  -- Below 2 ^ 31 values, an update returns: no index is out of range, and the bounds of the random
  -- number are in order. It counts the value and puts it in at most one place.
  pub update-IsUpdate :
      (s : UniformSample R) (v : ℤ)
      → s.count < 2 ^ 31
      → (s' : UniformSample R) × (update g s v ≡ returns s') × IsUpdate s v s'
  unfolding update
  update-IsUpdate s v small =
      let next : wrap_uint64 (s.count + 1) ≡ s.count + 1 = omega arith in
      elim (Bool-cases (leb (s.count + 1) (length s.values))) [
        | inl room ↦ (
          updated s v s.count s.rng,
          rw (next, room) (fill_lem s v small (ground arith)),
          updated-IsUpdate s v s.count s.rng (λ h. refl) (omega arith),
        )
        | inr full ↦
            let (i, r, e, h) = get_random_within s s.count small in
            (
              updated s v i r,
              rw (next, full) (rw e (replace_lem s v i r)),
              updated-IsUpdate s v i r (λ room. absurd (ground arith)) h,
            )
      ]

  -- The upper bound of the random number is converted to `int`. Once the reservoir is full and has
  -- seen 2 ^ 31 values, up to 2 ^ 32, that bound is negative, and an update is undefined.
  pub update_overflow :
      (s : UniformSample R) (v : ℤ)
      → length s.values ≤ s.count
      → 2 ^ 31 ≤ s.count
      → s.count < 2 ^ 32
      → update g s v ≡ undefined
  unfolding update get_random
  update_overflow s v full many few =
      let next : wrap_uint64 (s.count + 1) ≡ s.count + 1 = omega arith in
      let no_room : leb (s.count + 1) (length s.values) ≡ false = ground arith in
      let bound : to_int32 (wrap_uint64 (s.count + 1 + uint64_mod - 1))
          ≡ negsuc (2 ^ 32 - s.count - 1) =
        ground arith in
      rw (
        next,
        no_room,
        bound,
        u.uniform_int_order s.rng (pos 0) (negsuc (2 ^ 32 - s.count - 1)) (ground arith),
      )
