-- ===== src/Ewma/Decay.antt =====
-- How ticks move the average.
use cppmetrics.Prelude.{ℕ, zero, suc, ◌<◌, ◌≡◌, refl, true, pos, arith}
use cppmetrics.Double.{Double, IsIeee, ◌≼◌, ◌≺◌, nought, one}
use cppmetrics.Ewma.{Ewma, tick, instant_rate}

-- `n` ticks with no event between them.
pub ticks : {W : Type 0} ⦃d : Double W⦄ → ℕ → Ewma W → Ewma W
ticks zero e = e
ticks (suc n) e = ticks n (tick e)

module _ {W : Type 0} ⦃d : Double W⦄ (laws : IsIeee W) where
  open laws use {is_finite, finite-of_int64, finite_between}

  pub record IsSmoothing (e : Ewma W) : Type 0 where
    pub started : e.initialized ≡ true
    pub rate_finite : is_finite e.ewma ≡ true
    pub alpha_finite : is_finite e.alpha ≡ true
    pub alpha_gt : nought ≺ e.alpha
    pub alpha_le : e.alpha ≼ one
    pub interval_pos : 0 < e.interval_nanos

  -- What is missing from the average to the rate of the last interval.
  abbrev pub gap_of : Ewma W → W
  gap_of e = d.sub (instant_rate e) e.ewma

  -- A tick of an average that has begun takes it towards the rate of the last interval: down to it from
  -- above, up to it from below. It goes no further than the whole way, `ewma + gap`, and by the smoothing
  -- factor's share of it: at least `low` and at most `high` times the gap for any factors below and
  -- above `alpha`. It counts the events of the interval once.
  pub tick_towards :
      (e : Ewma W) (low high : W)
      → IsSmoothing e
      → is_finite (instant_rate e) ≡ true
      → nought ≺ low
      → low ≼ e.alpha
      → e.alpha ≼ high
      → is_finite high ≡ true
      → (instant_rate e ≼ e.ewma
          → ((tick e).ewma ≼ e.ewma)
            × (d.add e.ewma (gap_of e) ≼ (tick e).ewma)
            × (d.add e.ewma (d.mul high (gap_of e)) ≼ (tick e).ewma)
            × ((tick e).ewma ≼ d.add e.ewma (d.mul low (gap_of e))))
        × (e.ewma ≼ instant_rate e
            → (e.ewma ≼ (tick e).ewma)
              × ((tick e).ewma ≼ d.add e.ewma (gap_of e))
              × (d.add e.ewma (d.mul low (gap_of e)) ≼ (tick e).ewma)
              × ((tick e).ewma ≼ d.add e.ewma (d.mul high (gap_of e))))
        × ((tick e).uncounted ≡ 0)
  unfolding tick
  tick_towards e low high s fin low_gt low_le high_ge high_fin = (
    λ down.
        let gap = gap_of e in
        let gap_le = laws.sub_nonpos (instant_rate e) e.ewma s.rate_finite down in
        let (part_le, part_ge) =
          laws.mul_nonpos e.alpha gap s.alpha_finite (laws.refl_of_le gap nought gap_le).0
            s.alpha_gt s.alpha_le gap_le in
        let more = laws.mul_anti e.alpha high gap high_fin s.alpha_gt high_ge gap_le in
        let less = laws.mul_anti low e.alpha gap s.alpha_finite low_gt low_le gap_le in
        rw (s.started) (
          laws.add_le e.ewma (d.mul e.alpha gap) s.rate_finite part_le,
          laws.add_mono e.ewma gap (d.mul e.alpha gap) s.rate_finite part_ge,
          laws.add_mono e.ewma (d.mul high gap) (d.mul e.alpha gap) s.rate_finite more,
          laws.add_mono e.ewma (d.mul e.alpha gap) (d.mul low gap) s.rate_finite less,
        ),
    λ up.
        let gap = gap_of e in
        let gap_ge = laws.sub_nonneg e.ewma (instant_rate e) s.rate_finite up in
        let (part_ge, part_le) =
          laws.mul_between e.alpha gap s.alpha_finite (laws.refl_of_le nought gap gap_ge).1
            s.alpha_gt s.alpha_le gap_ge in
        let more = laws.mul_mono e.alpha high gap high_fin s.alpha_gt high_ge gap_ge in
        let less = laws.mul_mono low e.alpha gap s.alpha_finite low_gt low_le gap_ge in
        rw (s.started) (
          laws.le_add e.ewma (d.mul e.alpha gap) s.rate_finite part_ge,
          laws.add_mono e.ewma (d.mul e.alpha gap) gap s.rate_finite part_le,
          laws.add_mono e.ewma (d.mul low gap) (d.mul e.alpha gap) s.rate_finite less,
          laws.add_mono e.ewma (d.mul e.alpha gap) (d.mul high gap) s.rate_finite more,
        ),
    ground arith,
  )

  -- An idle average: nothing counted, and a rate that is not negative.
  pub record IsIdle (e : Ewma W) : Type 0 where
    pub smoothing : IsSmoothing e
    pub nothing : e.uncounted ≡ 0
    pub rate_ge : nought ≼ e.ewma

  abbrev idle_rate : Ewma W → W
  idle_rate e = d.add e.ewma (d.mul e.alpha (d.sub nought e.ewma))

  tick_of_idle : (e : Ewma W) → IsIdle e → tick e ≡ record e { ewma = idle_rate e; uncounted = 0 }
  unfolding tick
  tick_of_idle e i =
      let none_counted = laws.zero-div e.interval_nanos i.smoothing.interval_pos in
      rw (i.smoothing.started, i.nothing, none_counted)

  idle_rate_bounds : (e : Ewma W) → IsIdle e → (nought ≼ idle_rate e) × (idle_rate e ≼ e.ewma)
  idle_rate_bounds e i =
      let s = i.smoothing in
      let gap = d.sub nought e.ewma in
      let gap_le = laws.sub_nonpos nought e.ewma s.rate_finite i.rate_ge in
      let (part_le, part_ge) =
        laws.mul_nonpos e.alpha gap s.alpha_finite (laws.refl_of_le gap nought gap_le).0 s.alpha_gt
          s.alpha_le gap_le in
      (
        laws.le_trans nought (d.add e.ewma gap) (idle_rate e)
            (laws.add_zero_sub e.ewma s.rate_finite)
            (laws.add_mono e.ewma gap (d.mul e.alpha gap) s.rate_finite part_ge),
        laws.add_le e.ewma (d.mul e.alpha gap) s.rate_finite part_le,
      )

  tick-IsIdle : (e : Ewma W) → IsIdle e → IsIdle (tick e) × ((tick e).ewma ≼ e.ewma)
  tick-IsIdle e i =
      let s = i.smoothing in
      let (ge, le) = idle_rate_bounds e i in
      let finite =
        finite_between nought (idle_rate e) e.ewma (finite-of_int64 (pos 0)) s.rate_finite ge le in
      rw (tick_of_idle e i) (
        record {
          smoothing = record {
            started = s.started;
            rate_finite = finite;
            alpha_finite = s.alpha_finite;
            alpha_gt = s.alpha_gt;
            alpha_le = s.alpha_le;
            interval_pos = s.interval_pos;
          };
          nothing = refl;
          rate_ge = ge;
        },
        le,
      )

  -- While no event comes in, the average never rises and never falls below zero, however many
  -- intervals pass.
  pub ticks_decay :
      (n : ℕ) (e : Ewma W) → IsIdle e → (nought ≼ (ticks n e).ewma) × ((ticks n e).ewma ≼ e.ewma)
  unfolding ticks
  ticks_decay zero e i = (i.rate_ge, laws.refl_of_finite e.ewma i.smoothing.rate_finite)
  ticks_decay (suc n) e i =
      let (idle, fell) = tick-IsIdle e i in
      let (ge, le) = ticks_decay n (tick e) idle in
      (ge, laws.le_trans (ticks n (tick e)).ewma (tick e).ewma e.ewma le fell)
