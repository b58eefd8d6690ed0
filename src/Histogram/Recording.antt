-- ===== src/Histogram/Recording.antt =====
-- What the constructor, `clear` and `update` of histogram.cpp leave.
use cppmetrics.Prelude.{
  ℕ, ◌+ℤ◌, ◌-ℤ◌, zero, suc, ◌+◌, ◌<◌, ◌^◌, ◌≡◌, refl, ap, sym, ◌∙◌, true, false, List, [], ◌∷◌, ℤ,
  pos, length, set, take, wrap_uint64, uint64_mod, min, arith, length-set, length-replicate, lt→ltb,
  ltb,
}
use cppmetrics.Outcome.{throws, Returns, Returns->>=, Returns-mono, invalid_argument}
use cppmetrics.Double.{Double, is_nan}
use cppmetrics.Random.{Rng, IsUniform}
use cppmetrics.Snapshot.{snapshot}
use cppmetrics.UniformSample.{UniformSample, write, zero_from, uniform_sample, default_sample_size}
use cppmetrics.UniformSample
use cppmetrics.UniformSample.Updates.{update-IsUpdate}
use cppmetrics.ExpDecaySample.{
  ExpDecaySample, default_reservoir_size, default_alpha, weight, exp_decay_sample,
  rescale_threshold,
}
use cppmetrics.ExpDecaySample
use cppmetrics.ExpDecaySample.Validity.{IsValid, IsNear, in_window, update-IsUpdated, nth_drawn}
use cppmetrics.Histogram.{
  Histogram, Sample, uniform, biased, SampleType, k_uniform, k_biased, other_sample_type,
  clear_sample, clear, sample_snapshot, get_snapshot, sample_size, new_sample, histogram,
  update_sample, update, get_count,
}

zero_from_total :
    (n i : ℕ) (values : List ℤ)
    → i + n ≡ length values
    → Returns (λ (out : List ℤ). length out ≡ length values) (zero_from n i values)
unfolding zero_from
zero_from_total zero i values h = refl
zero_from_total (suc n) i values h =
    let inside : ltb i (length values) ≡ true = lt→ltb i (length values) (omega arith) in
    let kept = length-set values i (pos 0) in
    rw inside (
      Returns-mono (zero_from n (i + 1) (set values i (pos 0))) (λ out same. same ∙ kept)
        (zero_from_total n (i + 1) (set values i (pos 0)) (omega arith)))

clear_uniform :
    {R : Type 0} (s : UniformSample R)
    → length s.values ≡ s.reservoir_size
    → Returns
        (λ (t : UniformSample R).
          (length t.values ≡ s.reservoir_size)
          × (t.reservoir_size ≡ s.reservoir_size)
          × (t.count ≡ 0))
        (UniformSample.clear s)
unfolding UniformSample.clear
clear_uniform s h =
    Returns->>= _ (zero_from s.reservoir_size 0 s.values) _
      (zero_from_total s.reservoir_size 0 s.values (omega arith))
      (λ out same. (same ∙ h, refl, refl))

take_zero : (n : ℕ) (xs : List ℤ) → n ≡ 0 → take n xs ≡ []
take_zero n [] e = rw e
take_zero n (x ∷ xs) e = rw e

module _ {R W : Type 0} ⦃d : Double W⦄ where
  -- The reservoir is as the sample's own operations leave it, and has room for a value.
  abbrev pub IsSound : Sample R W → Type 0
  IsSound (uniform s) = (length s.values ≡ s.reservoir_size) × (0 < s.reservoir_size)
  IsSound (biased s) = IsValid s × (0 < s.reservoir_size)

  -- Nothing recorded yet.
  pub record IsCleared (h : Histogram R W) : Type 0 where
    pub sound : IsSound h.sample
    pub no_count : get_count h ≡ 0
    pub no_size : sample_size h.sample ≡ 0
    pub no_values : get_snapshot h ≡ snapshot []

  uniform-IsCleared :
      (s : UniformSample R)
      → length s.values ≡ s.reservoir_size
      → 0 < s.reservoir_size
      → s.count ≡ 0
      → IsCleared (record { sample = uniform s; count = 0 })
  unfolding get_count get_snapshot sample_size sample_snapshot UniformSample.size
      UniformSample.get_snapshot
  uniform-IsCleared s h room e = record {
    sound = (h, room);
    no_count = refl;
    no_size = omega arith;
    no_values = ap snapshot (take_zero (min s.count (length s.values)) s.values (omega arith));
  }

  empty-IsValid :
      (s : ExpDecaySample R W)
      → s.values ≡ []
      → s.count ≡ 0
      → s.next_scale_time ≡ s.start_time +ℤ rescale_threshold
      → IsValid s
  empty-IsValid s e n w =
      let none_kept : length s.values ≡ 0 = ap length e in
      record {
        within_reservoir = omega arith;
        within_count = omega arith;
        occupied = λ h. absurd (omega arith);
        counted = omega arith;
        window = w;
      }

  clear_sample-IsCleared :
      (s : Sample R W) (now : ℤ)
      → IsSound s
      → Returns (λ u. IsCleared (record { sample = u; count = 0 })) (clear_sample s now)
  unfolding clear_sample get_count get_snapshot sample_size sample_snapshot ExpDecaySample.clear
      ExpDecaySample.size ExpDecaySample.get_snapshot
  clear_sample-IsCleared (uniform s) now (h, room) =
      Returns->>= (λ u. IsCleared (record { sample = u; count = 0 })) (UniformSample.clear s) _
        (clear_uniform s h)
        (λ t (same, size, none). uniform-IsCleared t (same ∙ sym size) (omega arith) none)
  clear_sample-IsCleared (biased s) now (v, room) = record {
    sound = (empty-IsValid (ExpDecaySample.clear s now) refl refl refl, room);
    no_count = refl;
    no_size = omega arith;
    no_values = refl;
  }

  -- `clear` of a histogram with a sound reservoir returns, in whichever reservoir: the histogram
  -- then counts nothing, its reservoir is sound and of size 0, and its snapshot is empty.
  pub clear-IsCleared :
      (h : Histogram R W) (now : ℤ) → IsSound h.sample → Returns IsCleared (clear h now)
  unfolding clear
  clear-IsCleared h now sound =
      Returns->>= IsCleared (clear_sample h.sample now) _
        (clear_sample-IsCleared h.sample now sound) (λ u cleared. cleared)

  module _ (g : Rng R W) where
    -- The sample types that the constructor takes.
    abbrev pub IsKnown : SampleType → Type 0
    IsKnown k_uniform = Unit
    IsKnown k_biased = Unit
    IsKnown (other_sample_type n) = ⊥

    -- The constructor returns a cleared histogram for either of the sample types, and throws
    -- `std::invalid_argument` for any other value of the enum.
    pub histogram-IsCleared :
        (t : SampleType) (now : ℤ) (millis : ℕ)
        → (IsKnown t → Returns IsCleared (histogram g t now millis))
          × (¬ IsKnown t
              → histogram g t now millis ≡ throws (invalid_argument "invalid sample_type."))
    unfolding histogram new_sample uniform_sample exp_decay_sample
    histogram-IsCleared k_uniform now millis =
        let made : Sample R W = uniform (uniform_sample g default_sample_size millis) in
        let sound : IsSound made = (length-replicate default_sample_size (pos 0), omega arith) in
        (λ _. clear-IsCleared (record { sample = made; count = 0 }) now sound, λ h. absurd (h tt))
    histogram-IsCleared k_biased now millis =
        let made : Sample R W =
          biased (exp_decay_sample g default_reservoir_size default_alpha now millis) in
        let sound : IsSound made = (empty-IsValid _ refl refl refl, omega arith) in
        (λ _. clear-IsCleared (record { sample = made; count = 0 }) now sound, λ h. absurd (h tt))
    histogram-IsCleared (other_sample_type n) now millis = (λ h. absurd h, λ _. refl)

    -- The sample takes the next value: a uniform one while the bounds it draws from fit an `int`, a
    -- biased one if a number drawn within the fuel gives a priority that is not NaN, and the times
    -- lie within 73 years of the epoch.
    abbrev pub Takes : ℕ → Sample R W → ℤ → Type 0
    Takes fuel (uniform s) now = s.count < 2 ^ 31
    Takes fuel (biased s) now =
        let t = in_window s now in
        (s.count + 1 < uint64_mod)
        × IsNear s.start_time
        × IsNear now
        × (n : ℕ) × (n < fuel)
        × (is_nan (d.div (weight t (now -ℤ t.start_time)) (nth_drawn g n t.rng)) ≡ false)

    module _ (u : IsUniform g) where
      pub update_sample-IsSound :
          (fuel : ℕ) (s : Sample R W) (value now : ℤ)
          → IsSound s
          → Takes fuel s now
          → Returns (λ s'. IsSound s' × (0 < sample_size s')) (update_sample g fuel s value now)
      unfolding update_sample sample_size UniformSample.size ExpDecaySample.size
      update_sample-IsSound fuel (uniform s) value now (h, room) few =
          let (s', e, w) = update-IsUpdate g u s value few in
          let size : length s'.values ≡ length s.values =
            ap length w.written ∙ length-set s.values w.index value in
          rw e ((omega (arith, w.same_size), omega (arith, w.same_size)), omega (arith, w.counts))
      update_sample-IsSound fuel (biased s) value now (v, room) (few, near_start, near, n, h, e) =
          Returns->>= (λ s'. IsSound s' × (0 < sample_size s'))
            (ExpDecaySample.update g fuel s value now) _
            (update-IsUpdated g fuel n s value now v room few near_start near h e)
            (λ s' w. (
              (w.valid, omega (arith, w.valid.within_reservoir, w.taken)),
              omega (arith, w.valid.within_reservoir, w.valid.within_count, w.taken),
            ))

      -- An update of a histogram with a sound reservoir that takes the value returns: the count is
      -- one more, modulo 2 ^ 64, and the reservoir is sound and not empty.
      pub update-IsSound :
          (fuel : ℕ) (h : Histogram R W) (value now : ℤ)
          → IsSound h.sample
          → Takes fuel h.sample now
          → Returns
              (λ h'.
                (h'.count ≡ wrap_uint64 (h.count + 1))
                × IsSound h'.sample
                × (0 < sample_size h'.sample))
              (update g fuel h value now)
      unfolding update
      update-IsSound fuel h value now sound takes =
          Returns->>= _ (update_sample g fuel h.sample value now) _
            (update_sample-IsSound fuel h.sample value now sound takes)
            (λ s' (sound', some_kept). (refl, sound', some_kept))
