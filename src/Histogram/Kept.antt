-- ===== src/Histogram/Kept.antt =====
-- Which values a histogram of histogram.cpp holds after an update.
use cppmetrics.Prelude.{ℕ, ◌+◌, ◌<◌, ◌≡◌, refl, List, [], ◌∷◌, ℤ, map, All, wrap_uint64}
use cppmetrics.Outcome.{
  Outcome, Whenever, Whenever->>=, returns, throws, undefined, unfinished, Returns, Returns->>=,
}
use cppmetrics.Double.{Double}
use cppmetrics.Random.{Rng, IsUniform}
use cppmetrics.Snapshot.{snapshot}
use cppmetrics.Snapshot.Order.{All-sort}
use cppmetrics.UniformSample.{UniformSample}
use cppmetrics.UniformSample
use cppmetrics.UniformSample.Reservoir.{sampled, kept_by_update, sampled_written}
use cppmetrics.UniformSample.Updates.{update-IsUpdate}
use cppmetrics.ExpDecaySample.{ExpDecaySample}
use cppmetrics.ExpDecaySample
use cppmetrics.ExpDecaySample.Kept.{update-AllHeld}
use cppmetrics.Histogram.{
  Histogram, Sample, uniform, biased, sample_snapshot, get_snapshot, sample_size, update_sample,
  update,
}
use cppmetrics.Histogram.Recording.{IsSound, Takes, update_sample-IsSound}

Returns-and :
    {A : Type 0} (P Q : A → Type 0) (o : Outcome A)
    → Returns P o
    → Whenever Q o
    → Returns (λ a. P a × Q a) o
Returns-and P Q (returns a) p q = (p, q)
Returns-and P Q (throws e) p q = absurd p
Returns-and P Q undefined p q = absurd p
Returns-and P Q unfinished p q = absurd p

All-map :
    {A B : Type 0} (P : B → Type 0) (f : A → B) (xs : List A)
    → All (λ x. P (f x)) xs
    → All P (map f xs)
All-map P f [] h = tt
All-map P f (x ∷ xs) (p, h) = (p, All-map P f xs h)

All-unmap :
    {A B : Type 0} (P : B → Type 0) (f : A → B) (xs : List A)
    → All P (map f xs)
    → All (λ x. P (f x)) xs
All-unmap P f [] h = tt
All-unmap P f (x ∷ xs) (p, h) = (p, All-unmap P f xs h)

module _ {R W : Type 0} ⦃d : Double W⦄ where
  -- The values that a snapshot is taken of.
  abbrev pub held : Sample R W → List ℤ
  held (uniform s) = sampled s
  held (biased s) = map (λ kv. kv.1) s.values

  snapshot-All :
      (P : ℤ → Type 0) (s : Sample R W) (n : ℕ)
      → All P (held s)
      → All P (get_snapshot (record { sample = s; count = n })).values
  unfolding get_snapshot sample_snapshot UniformSample.get_snapshot ExpDecaySample.get_snapshot
      snapshot
  snapshot-All P (uniform s) n h = All-sort P (sampled s) h
  snapshot-All P (biased s) n h = All-sort P (map (λ kv. kv.1) s.values) h

  module _ (g : Rng R W) (u : IsUniform g) where
    update_sample-AllHeld :
        (P : ℤ → Type 0) (fuel : ℕ) (s : Sample R W) (value now : ℤ)
        → Takes g fuel s now
        → P value
        → All P (held s)
        → Whenever (λ s'. All P (held s')) (update_sample g fuel s value now)
    unfolding update_sample
    update_sample-AllHeld P fuel (uniform s) value now few p h =
        let (s', e, w) = update-IsUpdate g u s value few in
        rw e (rw (sampled_written s s' value w) (kept_by_update P s value w.index w.next_free p h))
    update_sample-AllHeld P fuel (biased s) value now takes p h =
        Whenever->>= (λ (t : ExpDecaySample R W). All (λ kv. P kv.1) t.values) _
          (ExpDecaySample.update g fuel s value now) _
          (update-AllHeld P g fuel s value now p (All-unmap P (λ kv. kv.1) s.values h))
          (λ t k. All-map P (λ kv. kv.1) t.values k)

    -- An update of a histogram with a sound reservoir that takes the value returns: the count is
    -- one more, modulo 2 ^ 64, the reservoir is sound and not empty, and each property that the value
    -- and all values held before have, all values held after it and all values of the snapshot
    -- have: nothing else is recorded. A value is taken by a uniform reservoir below 2 ^ 31 values, and
    -- by a biased one if a number drawn within the fuel gives a priority that is not NaN and the
    -- times lie within 73 years of the epoch.
    pub update-IsKept :
        (P : ℤ → Type 0) (fuel : ℕ) (h : Histogram R W) (value now : ℤ)
        → IsSound h.sample
        → Takes g fuel h.sample now
        → P value
        → All P (held h.sample)
        → Returns
            (λ h'.
              (h'.count ≡ wrap_uint64 (h.count + 1))
              × IsSound h'.sample
              × (0 < sample_size h'.sample)
              × All P (held h'.sample)
              × All P (get_snapshot h').values)
            (update g fuel h value now)
    unfolding update
    update-IsKept P fuel h value now sound takes p ps =
        Returns->>= _ (update_sample g fuel h.sample value now) _
          (Returns-and _ _ (update_sample g fuel h.sample value now)
            (update_sample-IsSound g u fuel h.sample value now sound takes)
            (update_sample-AllHeld P fuel h.sample value now takes p ps))
          (λ s' ((sound', some_kept), kept).
            (refl, sound', some_kept, kept, snapshot-All P s' (wrap_uint64 (h.count + 1)) kept))
