-- ===== src/ExpDecaySample.antt =====
-- src/cppmetrics/core/exp_decay_sample.h and exp_decay_sample.cpp: a reservoir that favours recent
-- values. Each value gets a random priority that grows with time, and the values of the greatest
-- priorities are kept, in a `std::map` from priority to value. A call runs under the sample's mutex;
-- time points are signed counts of nanoseconds. `update` may be given any of them, and its arithmetic on
-- them is undefined where it leaves `int64_t`; the readings of the system clock that `clear` and the
-- constructor take are an hour short of the end, in 2262.
pub mod Lengths
pub mod Validity
pub mod Priorities
pub mod Greatest
pub mod Kept
use cppmetrics.Prelude.{
  ℕ, zero, suc, ◌+◌, ◌*◌, ◌/◌, ◌≡◌, Bool, true, false, List, [], ◌∷◌, Option, none, some, ℤ, pos,
  negsuc, sub_ℕ, ◌+ℤ◌, ◌-ℤ◌, ltb_ℤ, leb_ℤ, ◌&&◌, ◌^◌, ◌-◌, length, map, leb, wrap_uint64, min,
  if◌then◌else◌,
}
use cppmetrics.Outcome.{Outcome, returns, undefined, unfinished, ◌>>=◌}
use cppmetrics.Double.{Double, is_nan}
use cppmetrics.Random.{Rng}
use cppmetrics.Snapshot.{Snapshot, snapshot}

-- One hour, in nanoseconds.
abbrev pub rescale_threshold : ℤ
rescale_threshold = pos 3_600_000_000_000

-- The default of the constructor's first argument.
abbrev pub default_reservoir_size : ℕ
default_reservoir_size = 1024

-- `duration_cast<seconds>`, which rounds towards zero.
abbrev pub to_seconds : ℤ → ℤ
to_seconds (pos n) = pos (n / 1_000_000_000)
to_seconds (negsuc n) = sub_ℕ 0 (suc n / 1_000_000_000)

-- The result of signed arithmetic in 64 bits.
abbrev pub int64 : ℤ → Outcome ℤ
int64 z =
    if leb_ℤ (negsuc (2 ^ 63 - 1)) z && leb_ℤ z (pos (2 ^ 63 - 1)) then returns z else undefined

-- A `std::map` in the order of its keys.
abbrev pub PriorityMap : Type 0 → Type 0
PriorityMap W = List (W × ℤ)

pub record ExpDecaySample (R W : Type 0) : Type 0 where
  pub alpha : W
  pub reservoir_size : ℕ
  pub count : ℕ
  pub start_time : ℤ
  pub next_scale_time : ℤ
  pub values : PriorityMap W
  pub rng : R

module _ {W : Type 0} ⦃d : Double W⦄ where
  abbrev pub default_alpha : W
  default_alpha = d.decimal 15 3

  -- `values[key] = value`. Keys of which neither is less are the same to the map.
  unfoldable pub assign : W → ℤ → PriorityMap W → PriorityMap W
  assign key value [] = (key, value) ∷ []
  assign key value ((k, v) ∷ m) =
      if d.lt k key
      then (k, v) ∷ assign key value m
      else if d.lt key k
      then (key, value) ∷ (k, v) ∷ m
      else (k, value) ∷ m

  -- `values.insert({key, value})`: `none` if the key was there.
  unfoldable pub insert : W → ℤ → PriorityMap W → Option (PriorityMap W)
  insert key value [] = some ((key, value) ∷ [])
  insert key value ((k, v) ∷ m) =
      let rest = insert key value m in
      if d.lt k key
      then elim rest [ none ↦ none | some m' ↦ some ((k, v) ∷ m') ]
      else if d.lt key k
      then some ((key, value) ∷ (k, v) ∷ m)
      else none

  -- `values.erase(first)`, where the first element is still the first one.
  abbrev pub erase_first : PriorityMap W → PriorityMap W
  erase_first [] = []
  erase_first (kv ∷ m) = m

  -- Where the map is full: the new value replaces the one of the least priority, if its own is
  -- greater and new.
  unfoldable pub evict : W → ℤ → PriorityMap W → Outcome (PriorityMap W)
  evict priority value [] = undefined
  evict priority value ((first, v) ∷ m) =
      if d.lt first priority
      then elim (insert priority value ((first, v) ∷ m)) [
        | none ↦ returns ((first, v) ∷ m)
        | some m' ↦ returns (erase_first m')
      ]
      else returns ((first, v) ∷ m)

  -- The end of `update`, with the count already increased.
  unfoldable pub store : ℕ → ℕ → W → ℤ → PriorityMap W → Outcome (PriorityMap W)
  unfolding assign evict
  store reservoir_size count priority value values =
      if leb count reservoir_size
      then returns (assign priority value values)
      else evict priority value values

  -- The loop of `rescale` over the old values.
  unfoldable pub scale_all : W → PriorityMap W → PriorityMap W → PriorityMap W
  unfolding assign
  scale_all factor [] values = values
  scale_all factor ((k, v) ∷ old) values = scale_all factor old (assign (d.mul k factor) v values)

  module _ {R : Type 0} where
    unfoldable pub rescale : ExpDecaySample R W → ℤ → Outcome (ExpDecaySample R W)
    unfolding scale_all
    rescale s prev_start_time = int64 (s.start_time -ℤ prev_start_time) >>= λ elapsed.
        let factor = d.exp (d.mul (d.neg s.alpha) (d.of_int64 (to_seconds elapsed))) in
        let values = scale_all factor s.values [] in
        returns (record s { values = values; count = length values })

    unfoldable pub rescale_if_needed : ExpDecaySample R W → ℤ → Outcome (ExpDecaySample R W)
    unfolding rescale
    rescale_if_needed s now =
        if ltb_ℤ s.next_scale_time now
        then (int64 (now +ℤ rescale_threshold) >>= λ next.
            rescale (record s { next_scale_time = next; start_time = now }) s.start_time)
        else returns s

    -- exp(alpha * seconds since the start).
    abbrev pub weight : ExpDecaySample R W → ℤ → W
    weight s elapsed = d.exp (d.mul s.alpha (d.of_int64 (to_seconds elapsed)))

    unfoldable pub clear : ExpDecaySample R W → ℤ → ExpDecaySample R W
    clear s now = record s {
      values = [];
      count = 0;
      start_time = now;
      next_scale_time = now +ℤ rescale_threshold;
    }

    unfoldable pub size : ExpDecaySample R W → ℕ
    size s = min s.reservoir_size s.count

    unfoldable pub get_snapshot : ExpDecaySample R W → Snapshot
    get_snapshot s = snapshot (map (λ kv. kv.1) s.values)

  module _ {R : Type 0} (g : Rng R W) where
    -- The constructor, at a reading of the clock, with the seed of the generator.
    unfoldable pub exp_decay_sample : ℕ → W → ℤ → ℕ → ExpDecaySample R W
    exp_decay_sample reservoir_size alpha now millis = record {
      alpha = alpha;
      reservoir_size = reservoir_size;
      count = 0;
      start_time = now;
      next_scale_time = now +ℤ rescale_threshold;
      values = [];
      rng = g.seed millis;
    }

    -- `do … while (std::isnan(priority))`, on fuel.
    unfoldable pub draw_priority : ℕ → W → R → Outcome (W × R)
    draw_priority zero weight rng = unfinished
    draw_priority (suc fuel) weight rng =
        let (drawn, rng') = g.uniform_real rng in
        let priority = d.div weight drawn in
        let again = draw_priority fuel weight rng' in
        if is_nan priority then again else returns (priority, rng')

    -- `update` after the rescaling.
    unfoldable pub record_value : ℕ → ExpDecaySample R W → ℤ → ℤ → Outcome (ExpDecaySample R W)
    record_value fuel s value timestamp =
        let count = wrap_uint64 (s.count + 1) in
        int64 (timestamp -ℤ s.start_time) >>= λ elapsed.
        draw_priority fuel (weight s elapsed) s.rng >>= λ (priority, rng).
        store s.reservoir_size count priority value s.values >>= λ values.
        returns (record s { count = count; values = values; rng = rng })

    unfoldable pub update : ℕ → ExpDecaySample R W → ℤ → ℤ → Outcome (ExpDecaySample R W)
    unfolding rescale_if_needed record_value
    update fuel s value timestamp =
        rescale_if_needed s timestamp >>= λ t. record_value fuel t value timestamp
