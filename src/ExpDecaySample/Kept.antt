-- ===== src/ExpDecaySample/Kept.antt =====
-- Which values the map of an `ExpDecaySample` holds after a call.
use cppmetrics.Prelude.{
  ℕ, ◌+◌, [], ◌∷◌, Option, none, some, ℤ, ◌-ℤ◌, ◌+ℤ◌, ltb_ℤ, leb, Bool-cases, inl, inr,
  Option-cases, All, wrap_uint64,
}
use cppmetrics.Outcome.{Whenever, Whenever->>=, Whenever-any}
use cppmetrics.Double.{Double}
use cppmetrics.Random.{Rng}
use cppmetrics.ExpDecaySample.{
  ExpDecaySample, PriorityMap, assign, insert, evict, erase_first, store, scale_all, rescale,
  rescale_if_needed, draw_priority, record_value, update, int64, weight, rescale_threshold,
  to_seconds,
}

module _ {W : Type 0} ⦃d : Double W⦄ (P : ℤ → Type 0) where
  -- Every value of the map has the property.
  abbrev pub AllHeld : PriorityMap W → Type 0
  AllHeld m = All (λ kv. P kv.1) m

  assign-AllHeld : (k : W) (v : ℤ) (m : PriorityMap W) → P v → AllHeld m → AllHeld (assign k v m)
  unfolding assign
  assign-AllHeld k v [] p h = (p, tt)
  assign-AllHeld k v ((j, w) ∷ m) p (q, h) = elim (Bool-cases (d.lt j k)) [
    | inl after ↦ rw after (q, assign-AllHeld k v m p h)
    | inr before ↦ elim (Bool-cases (d.lt k j)) [
      | inl new ↦ rw (before, new) (p, (q, h))
      | inr old ↦ rw (before, old) (p, h)
    ]
  ]

  abbrev OptionHeld : Option (PriorityMap W) → Type 0
  OptionHeld none = Unit
  OptionHeld (some m) = AllHeld m

  insert-OptionHeld :
      (k : W) (v : ℤ) (m : PriorityMap W) → P v → AllHeld m → OptionHeld (insert k v m)
  unfolding insert
  insert-OptionHeld k v [] p h = (p, tt)
  insert-OptionHeld k v ((j, w) ∷ m) p (q, h) =
      let ih = insert-OptionHeld k v m p h in
      elim (Bool-cases (d.lt j k)) [
        | inl after ↦ elim (Option-cases (insert k v m)) [
          | inl e ↦ rw (after, e) tt
          | inr (m', e) ↦ let held : AllHeld m' = rw e at ih in rw (after, e) (q, held)
        ]
        | inr before ↦ elim (Bool-cases (d.lt k j)) [
          | inl new ↦ rw (before, new) (p, (q, h))
          | inr old ↦ rw (before, old) tt
        ]
      ]

  erase_first-AllHeld : (m : PriorityMap W) → AllHeld m → AllHeld (erase_first m)
  erase_first-AllHeld [] h = tt
  erase_first-AllHeld (kv ∷ m) h = h.1

  evict-AllHeld :
      (k : W) (v : ℤ) (m : PriorityMap W) → P v → AllHeld m → Whenever AllHeld (evict k v m)
  unfolding evict
  evict-AllHeld k v [] p h = tt
  evict-AllHeld k v ((j, w) ∷ m) p h =
      let put = insert-OptionHeld k v ((j, w) ∷ m) p h in
      elim (Bool-cases (d.lt j k)) [
        | inl greater ↦ elim (Option-cases (insert k v ((j, w) ∷ m))) [
          | inl e ↦ rw (greater, e) h
          | inr (m', e) ↦
              let held : AllHeld m' = rw e at put in rw (greater, e) (erase_first-AllHeld m' held)
        ]
        | inr less ↦ rw less h
      ]

  store-AllHeld :
      (size count : ℕ) (k : W) (v : ℤ) (m : PriorityMap W)
      → P v
      → AllHeld m
      → Whenever AllHeld (store size count k v m)
  unfolding store
  store-AllHeld size count k v m p h = elim (Bool-cases (leb count size)) [
    | inl room ↦ rw room (assign-AllHeld k v m p h)
    | inr full ↦ rw full (evict-AllHeld k v m p h)
  ]

  scale_all-AllHeld :
      (f : W) (old m : PriorityMap W) → AllHeld old → AllHeld m → AllHeld (scale_all f old m)
  unfolding scale_all
  scale_all-AllHeld f [] m o h = h
  scale_all-AllHeld f ((k, v) ∷ old) m (p, o) h =
      scale_all-AllHeld f old (assign (d.mul k f) v m) o (assign-AllHeld (d.mul k f) v m p h)

  module _ {R : Type 0} where
    rescale_if_needed-AllHeld :
        (s : ExpDecaySample R W) (now : ℤ)
        → AllHeld s.values
        → Whenever (λ (t : ExpDecaySample R W). AllHeld t.values) (rescale_if_needed s now)
    unfolding rescale_if_needed rescale
    rescale_if_needed-AllHeld s now h = elim (Bool-cases (ltb_ℤ s.next_scale_time now)) [
      | inl passed ↦ rw passed (
          Whenever->>= (λ next. Unit) _ (int64 (now +ℤ rescale_threshold)) _ (Whenever-any _)
            (λ next u.
              Whenever->>= (λ elapsed. Unit) _ (int64 (now -ℤ s.start_time)) _ (Whenever-any _)
                (λ elapsed u'.
                  scale_all-AllHeld
                    (d.exp (d.mul (d.neg s.alpha) (d.of_int64 (to_seconds elapsed)))) s.values [] h
                    tt)))
      | inr open_window ↦ rw open_window h
    ]

    -- Where an update returns, the map holds nothing but the new value and values that it held.
    pub update-AllHeld :
        (g : Rng R W) (fuel : ℕ) (s : ExpDecaySample R W) (value timestamp : ℤ)
        → P value
        → AllHeld s.values
        → Whenever (λ (t : ExpDecaySample R W). AllHeld t.values) (update g fuel s value timestamp)
    unfolding update record_value
    update-AllHeld g fuel s value timestamp p h =
        Whenever->>= (λ (t : ExpDecaySample R W). AllHeld t.values) _
          (rescale_if_needed s timestamp) _ (rescale_if_needed-AllHeld s timestamp h)
          (λ t held.
            Whenever->>= (λ elapsed. Unit) _ (int64 (timestamp -ℤ t.start_time)) _ (Whenever-any _)
              (λ elapsed u.
                Whenever->>= (λ drawn. Unit) _ (draw_priority g fuel (weight t elapsed) t.rng) _
                  (Whenever-any _)
                  (λ drawn u'.
                    Whenever->>= AllHeld _
                      (store t.reservoir_size (wrap_uint64 (t.count + 1)) drawn.0 value t.values) _
                      (store-AllHeld t.reservoir_size (wrap_uint64 (t.count + 1)) drawn.0 value
                        t.values p held)
                      (λ m' k. k))))
