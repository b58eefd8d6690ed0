-- ===== src/ExpDecaySample/Validity.antt =====
-- What every call of an `ExpDecaySample` keeps.
use cppmetrics.Prelude.{
  ℕ, zero, suc, ◌+◌, ◌≤◌, ◌<◌, ◌≡◌, refl, false, [], ℤ, ◌+ℤ◌, ◌-ℤ◌, ◌≤ℤ◌, ltb_ℤ, length,
  wrap_uint64, uint64_mod, arith, Bool-cases, inl, inr, +ℤ_parts, -ℤ_parts, pos, negsuc, ◌^◌, ◌-◌,
  if◌then◌else◌,
}
use cppmetrics.Outcome.{returns, Returns, Returns->>=, ◌>>=◌}
use cppmetrics.Double.{Double, is_nan}
use cppmetrics.Random.{Rng}
use cppmetrics.ExpDecaySample.{
  ExpDecaySample, int64, scale_all, store, rescale, to_seconds, weight, rescale_if_needed,
  draw_priority, record_value, update, rescale_threshold,
}
use cppmetrics.ExpDecaySample.Lengths.{length-scale_all, store-IsStored}

-- Within 73 years of the epoch.
pub record IsNear (time : ℤ) : Type 0 where
  pub after : negsuc (2 ^ 61) ≤ℤ time
  pub before : time ≤ℤ pos (2 ^ 61)

int64_fits : (z : ℤ) → negsuc (2 ^ 63 - 1) ≤ℤ z → z ≤ℤ pos (2 ^ 63 - 1) → int64 z ≡ returns z
int64_fits z h k = ground arith

int64_age :
    (start now : ℤ) → IsNear start → IsNear now → int64 (now -ℤ start) ≡ returns (now -ℤ start)
unfolding ◌-ℤ◌
int64_age start now near_start near =
    int64_fits (now -ℤ start)
      (omega
        (arith, near.after, near.before, near_start.after, near_start.before, -ℤ_parts now start))
      (omega
        (arith, near.after, near.before, near_start.after, near_start.before, -ℤ_parts now start))

module _ {W : Type 0} ⦃d : Double W⦄ where
  module _ {R : Type 0} where
    pub record IsValid (s : ExpDecaySample R W) : Type 0 where
      pub within_reservoir : length s.values ≤ s.reservoir_size
      pub within_count : length s.values ≤ s.count
      pub occupied : 0 < s.count → 0 < length s.values
      pub counted : s.count < uint64_mod
      pub window : s.next_scale_time ≡ s.start_time +ℤ rescale_threshold

    -- What `rescale` returns where it does.
    abbrev rescaled : ExpDecaySample R W → ℤ → ExpDecaySample R W
    rescaled s start =
        let factor =
          d.exp (d.mul (d.neg s.alpha) (d.of_int64 (to_seconds (s.start_time -ℤ start)))) in
        let values = scale_all factor s.values [] in
        record s { values = values; count = length values }

    -- The sample in the window of a time stamp: the one it has, or one that starts there.
    abbrev pub in_window : ExpDecaySample R W → ℤ → ExpDecaySample R W
    in_window s now =
        if ltb_ℤ s.next_scale_time now
        then rescaled (record s { next_scale_time = now +ℤ rescale_threshold; start_time = now })
            s.start_time
        else s

    rescale_if_needed_lem :
        (s : ExpDecaySample R W) (now : ℤ)
        → IsNear s.start_time
        → IsNear now
        → rescale_if_needed s now ≡ returns (in_window s now)
    unfolding rescale_if_needed rescale
    rescale_if_needed_lem s now near_start near = elim (Bool-cases (ltb_ℤ s.next_scale_time now)) [
      | inl passed ↦
          let next =
            int64_fits (now +ℤ rescale_threshold)
              (omega (arith, near.after, near.before, +ℤ_parts now rescale_threshold))
              (omega (arith, near.after, near.before, +ℤ_parts now rescale_threshold)) in
          rw (passed) (rw (next) (rw (int64_age s.start_time now near_start near) refl))
      | inr open_window ↦ rw open_window refl
    ]

    in_window-IsNear :
        (s : ExpDecaySample R W) (now : ℤ)
        → IsNear s.start_time
        → IsNear now
        → IsNear (in_window s now).start_time
    in_window-IsNear s now near_start near = elim (Bool-cases (ltb_ℤ s.next_scale_time now)) [
      | inl passed ↦ rw passed near
      | inr open_window ↦ rw open_window near_start
    ]

    rescale-IsValid : (s : ExpDecaySample R W) (start : ℤ) → IsValid s → IsValid (rescaled s start)
    rescale-IsValid s start v =
        let factor =
          d.exp (d.mul (d.neg s.alpha) (d.of_int64 (to_seconds (s.start_time -ℤ start)))) in
        let shrunk = length-scale_all factor s.values [] in
        record {
          within_reservoir = omega (arith, shrunk, v.within_reservoir);
          within_count = omega arith;
          occupied = λ h. h;
          counted = omega (arith, shrunk, v.within_count, v.counted);
          window = v.window;
        }

    count-rescale :
        (s : ExpDecaySample R W) (start : ℤ)
        → length s.values ≤ s.count
        → (rescaled s start).count ≤ s.count
    count-rescale s start h =
        let factor =
          d.exp (d.mul (d.neg s.alpha) (d.of_int64 (to_seconds (s.start_time -ℤ start)))) in
        omega (arith, length-scale_all factor s.values [])

    -- No time stamp is later than one hour after the start of the window that it falls into.
    in_window-IsValid :
        (s : ExpDecaySample R W) (now : ℤ)
        → IsValid s
        → IsValid (in_window s now)
          × (now ≤ℤ (in_window s now).start_time +ℤ rescale_threshold)
          × ((in_window s now).count ≤ s.count)
          × ((in_window s now).reservoir_size ≡ s.reservoir_size)
    in_window-IsValid s now v = elim (Bool-cases (ltb_ℤ s.next_scale_time now)) [
      | inl passed ↦
          let moved : ExpDecaySample R W = record s {
            next_scale_time = now +ℤ rescale_threshold;
            start_time = now;
          } in
          let w = rescale-IsValid moved s.start_time (record {
            within_reservoir = v.within_reservoir;
            within_count = v.within_count;
            occupied = v.occupied;
            counted = v.counted;
            window = refl;
          }) in
          rw passed (
            w,
            omega (arith, +ℤ_parts now rescale_threshold),
            count-rescale moved s.start_time v.within_count,
            refl,
          )
      | inr open_window ↦ rw open_window (v, rw (← v.window) (ground arith), omega arith, refl)
    ]

  module _ {R : Type 0} (g : Rng R W) where
    -- The `n`-th number that the generator gives from here.
    abbrev pub nth_drawn : ℕ → R → W
    nth_drawn zero rng = (g.uniform_real rng).0
    nth_drawn (suc n) rng = nth_drawn n (g.uniform_real rng).1

    draw_priority_ends :
        (fuel n : ℕ) (w : W) (rng : R)
        → n < fuel
        → is_nan (d.div w (nth_drawn n rng)) ≡ false
        → Returns (λ (p : W × R). is_nan p.0 ≡ false) (draw_priority g fuel w rng)
    unfolding draw_priority
    draw_priority_ends zero n w rng h e = elim h [ ]
    draw_priority_ends (suc fuel) zero w rng h e = rw e e
    draw_priority_ends (suc fuel) (suc n) w rng h e =
        let (drawn, rng') = g.uniform_real rng in
        elim (Bool-cases (is_nan (d.div w (g.uniform_real rng).0))) [
          | inl again ↦
              rw again (draw_priority_ends fuel n w (g.uniform_real rng).1 (omega arith) e)
          | inr done ↦ rw done done
        ]

    -- What an update with a time stamp leaves.
    pub record IsUpdated (timestamp : ℤ) (s' : ExpDecaySample R W) : Type 0 where
      pub valid : IsValid s'
      pub recent : timestamp ≤ℤ s'.start_time +ℤ rescale_threshold
      pub taken : 0 < length s'.values
      pub near : IsNear s'.start_time

    store-IsUpdated :
        (s : ExpDecaySample R W) (value timestamp : ℤ) (priority : W) (rng : R)
        → IsValid s
        → 0 < s.reservoir_size
        → s.count + 1 < uint64_mod
        → timestamp ≤ℤ s.start_time +ℤ rescale_threshold
        → IsNear s.start_time
        → Returns (IsUpdated timestamp) (
            store s.reservoir_size (s.count + 1) priority value s.values >>= λ values.
            returns (record s { count = s.count + 1; values = values; rng = rng }))
    store-IsUpdated s value timestamp priority rng v pos_size room recent near_start =
        Returns->>= (IsUpdated timestamp)
          (store s.reservoir_size (s.count + 1) priority value s.values) _
          (store-IsStored s.reservoir_size (s.count + 1) priority value s.values
            (λ full. v.occupied (omega arith)))
          (λ m' stored. record {
            valid = record {
              within_reservoir = ground (arith, stored.bounded, v.within_count, v.within_reservoir);
              within_count = omega (arith, stored.by_one, v.within_count);
              occupied = λ _. stored.occupied;
              counted = room;
              window = v.window;
            };
            recent = recent;
            taken = stored.occupied;
            near = near_start;
          })

    record_value-IsUpdated :
        (fuel n : ℕ) (s : ExpDecaySample R W) (value timestamp : ℤ)
        → IsValid s
        → 0 < s.reservoir_size
        → s.count + 1 < uint64_mod
        → timestamp ≤ℤ s.start_time +ℤ rescale_threshold
        → IsNear s.start_time
        → IsNear timestamp
        → n < fuel
        → is_nan (d.div (weight s (timestamp -ℤ s.start_time)) (nth_drawn n s.rng)) ≡ false
        → Returns (IsUpdated timestamp) (record_value g fuel s value timestamp)
    unfolding record_value
    record_value-IsUpdated fuel n s value timestamp v pos_size room recent near_start near h e =
        let next : wrap_uint64 (s.count + 1) ≡ s.count + 1 = omega arith in
        let w = weight s (timestamp -ℤ s.start_time) in
        rw (next, int64_age s.start_time timestamp near_start near)
          (Returns->>= (IsUpdated timestamp) (draw_priority g fuel w s.rng) _
            (draw_priority_ends fuel n w s.rng h e)
            (λ drawn num.
              store-IsUpdated s value timestamp drawn.0 drawn.1 v pos_size room recent near_start))

    -- An update of a valid sample whose reservoir is not empty returns a valid sample, as soon as
    -- one of the numbers drawn gives a priority that is not NaN and the fuel reaches it: the loop
    -- ends there, and the map is never empty where its first element is read. The time stamp and the
    -- start of the window lie within 73 years of the epoch, so that no arithmetic on them overflows. The
    -- weight is never taken more than an hour after the start of the window.
    pub update-IsUpdated :
        (fuel n : ℕ) (s : ExpDecaySample R W) (value timestamp : ℤ)
        → IsValid s
        → 0 < s.reservoir_size
        → s.count + 1 < uint64_mod
        → IsNear s.start_time
        → IsNear timestamp
        → n < fuel
        → let t = in_window s timestamp in
          is_nan (d.div (weight t (timestamp -ℤ t.start_time)) (nth_drawn n t.rng)) ≡ false
          → Returns (IsUpdated timestamp) (update g fuel s value timestamp)
    unfolding update
    update-IsUpdated fuel n s value timestamp v pos_size room near_start near h e =
        let (w, recent, fewer, same) = in_window-IsValid s timestamp v in
        rw (rescale_if_needed_lem s timestamp near_start near) (
          record_value-IsUpdated fuel n (in_window s timestamp) value timestamp w (omega arith)
            (omega arith) recent (in_window-IsNear s timestamp near_start near) near h e)
