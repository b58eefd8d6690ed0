-- ===== src/Reporter/Reported.antt =====
-- What a report of scheduled_reporter.cpp holds of a registry.
use cppmetrics.Prelude.{
  ℕ, ◌≡◌, refl, sym, ap, ◌∙◌, true, false, none, some, String, get_elem?, subst, List,
}
use cppmetrics.Outcome.{returns}
use cppmetrics.Double.{Double}
use cppmetrics.Table.{Table, find}
use cppmetrics.OrderedMap.{IsAscending, IsAscending-IsKeyed, IsAscending-SameKeys, find-SameKeys}
use cppmetrics.Registry.{
  MetricType, gauge_type, counter_type, histogram_type, meter_type, timer_type, same_type, Metric,
  MetricRegistry, metric_registry,
}
use cppmetrics.Registry.Directory.{Directory, entry, Shows, index_refl}
use cppmetrics.Random.{Rng}
use cppmetrics.Registry.Histories.{shown_in, Request, run, run_new-IsShown}
use cppmetrics.Registry.Calls.{get_counters, get_histograms, get_meters, get_timers, get_gauges}
use cppmetrics.Registry.Maps.{Lists, get_map-Lists}
use cppmetrics.Graphite.{Format, Metrics}
use cppmetrics.Reporter.{
  Times, Reader, read_counter, read_histogram, read_meter, read_timer, read_gauge, read_all,
  read_metrics,
}
use cppmetrics.Registry.Sharing.{IsInjective}
use cppmetrics.Reporter.Values.{CounterValue, GaugeValue, HistogramValue, MeterValue, TimerValue}
use cppmetrics.Reporter.Told.{
  Gives, TellsOf, counter-Serves, histogram-Serves, gauge-Serves, meter-Serves, timer-Serves,
  counter_told, histogram_told, gauge_told, meter_told, timer_told,
}
use cppmetrics.Reporter.Reading.{Serves, read_all-ReadFrom}

module _ {R W : Type 0} where
  -- The values of a report for the metrics of one type: one for each name that has a metric of the type,
  -- in the order of the names, which is the object's, as it was before the report.
  pub record Tells {A : Type 0} (r : MetricRegistry R W) (dir : Directory) (t : MetricType)
      (Value : String → Metric R W → A → Type 0) (vs : Table A) : Type 0 where
    pub ascending : IsAscending vs
    pub absent : (name : String) → entry t (dir name) ≡ none → find name vs ≡ none
    pub exact :
        (name : String) (p : ℕ)
        → dir name ≡ some (t, p)
        → (m : Metric R W) × (a : A) × (get_elem? r.heap p ≡ some m)
          × Value name m a
          × (find name vs ≡ some a)

  -- The objects of a type are as they were.
  abbrev Agree : Directory → MetricRegistry R W → MetricRegistry R W → MetricType → Type 0
  Agree dir r r' t =
      (name : String) (p : ℕ) → dir name ≡ some (t, p) → get_elem? r'.heap p ≡ get_elem? r.heap p

  record Stage {A : Type 0} (r r1 r2 : MetricRegistry R W) (dir : Directory) (t : MetricType)
      (read : Reader R W A) (Value : String → Metric R W → A → Type 0) (es : Table ℕ) (vs : Table A)
      : Type 0 where
    done : read_all read es r1 ≡ returns (vs, r2)
    still : Shows r2 dir
    tells : Tells r dir t Value vs
    agree : (u : MetricType) → same_type t u ≡ false → Agree dir r r1 u → Agree dir r r2 u

  stage :
      {A : Type 0} (r r1 : MetricRegistry R W) (dir : Directory) (t : MetricType)
      (read : Reader R W A) (Value : String → Metric R W → A → Type 0) (es : Table ℕ)
      → TellsOf Value read
      → IsInjective dir
      → Serves t read
      → Shows r dir
      → Lists r dir t es
      → Shows r1 dir
      → Agree dir r r1 t
      → (vs : Table A) × (r2 : MetricRegistry R W) × Stage r r1 r2 dir t read Value es vs
  stage r r1 dir t read Value es values injective serves s l s1 agree =
      let within : (name : String) (p : ℕ) → find name es ≡ some p → dir name ≡ some (t, p) =
        λ name p h. shown_in r dir t name p s (s.sets t name ∙ sym (l.found name) ∙ h) in
      let (vs, r2, done, f) =
        read_all-ReadFrom dir t read injective es r1 serves s1 (IsAscending-IsKeyed es l.ascending)
          within in
      (
        vs,
        r2,
        record {
          done = done;
          still = f.still;
          tells = record {
            ascending = IsAscending-SameKeys vs es f.keys l.ascending;
            absent = λ name h. find-SameKeys name vs es f.keys (l.found name ∙ h);
            exact = λ name p h.
                let here : find name es ≡ some p =
                  l.found name ∙ ap (entry t) h ∙ rw (index_refl t) refl in
                let (m, a, m', at, e, found) = f.exact name p here in
                (
                  m,
                  a,
                  sym (agree name p h) ∙ at,
                  subst (Gives (Value name m)) e (values name m),
                  found,
                );
          };
          agree = λ u other old name p h.
              f.elsewhere p (λ j e.
                let pair : some (t, p) ≡ some (u, p) =
                  sym (within j p e) ∙ ap dir (injective j name t u p (within j p e) h) ∙ h in
                let same : t ≡ u = cc in
                let tested = subst (λ u. same_type t u ≡ true) same (index_refl t) in
                let yes_and_no = sym tested ∙ other in cc)
              ∙ old name p h;
        },
      )

module _ {R W : Type 0} ⦃d : Double W⦄ where
  module _ (f : Format W) (clock : String → Times) where
    -- All that a report holds.
    pub record TellsAll (r : MetricRegistry R W) (dir : Directory) (m : Metrics f) : Type 0 where
      pub counters : Tells r dir counter_type CounterValue m.counter_map
      pub histograms : Tells r dir histogram_type HistogramValue m.histogram_map
      pub meters : Tells r dir meter_type (MeterValue clock) m.meter_map
      pub timers : Tells r dir timer_type (TimerValue clock) m.timer_map
      pub gauges : Tells r dir gauge_type GaugeValue m.gauge_map

    -- On a registry that stands for a directory.
    pub read_metrics-TellsAll :
        (r : MetricRegistry R W) (dir : Directory)
        → Shows r dir
        → IsInjective dir
        → (m : Metrics f) × (r' : MetricRegistry R W) × (read_metrics f clock r ≡ returns (m, r'))
          × Shows r' dir
          × TellsAll r dir m
    unfolding read_metrics get_counters get_histograms get_meters get_timers get_gauges
    read_metrics-TellsAll r dir s injective =
        let (cs, c, lc) = get_map-Lists r dir counter_type s in
        let (hs, h, lh) = get_map-Lists r dir histogram_type s in
        let (ms, m, lm) = get_map-Lists r dir meter_type s in
        let (ts, t, lt) = get_map-Lists r dir timer_type s in
        let (gs, g, lg) = get_map-Lists r dir gauge_type s in
        let (vc, r1, s1) =
          stage r r dir counter_type read_counter CounterValue cs counter_told injective
            counter-Serves s lc s (λ name p e. refl) in
        let a1 = λ (u : MetricType) (o : same_type counter_type u ≡ false).
          s1.agree u o (λ name p e. refl) in
        let (vh, r2, s2) =
          stage r r1 dir histogram_type read_histogram HistogramValue hs histogram_told injective
            histogram-Serves s lh s1.still (a1 histogram_type refl) in
        let (vm, r3, s3) =
          stage r r2 dir meter_type (read_meter clock) (MeterValue clock) ms (meter_told clock)
            injective (meter-Serves clock) s lm s2.still
            (s2.agree meter_type refl (a1 meter_type refl)) in
        let (vt, r4, s4) =
          stage r r3 dir timer_type (read_timer clock) (TimerValue clock) ts (timer_told clock)
            injective (timer-Serves clock) s lt s3.still
            (s3.agree timer_type refl (s2.agree timer_type refl (a1 timer_type refl))) in
        let (vg, r5, s5) =
          stage r r4 dir gauge_type read_gauge GaugeValue gs gauge_told injective gauge-Serves s lg
            s4.still
            (s4.agree gauge_type refl
              (s3.agree gauge_type refl (s2.agree gauge_type refl (a1 gauge_type refl)))) in
        (
          record {
            counter_map = vc;
            histogram_map = vh;
            meter_map = vm;
            timer_map = vt;
            gauge_map = vg;
          },
          r5,
          rw (c, h, m, t, g) (rw s1.done (rw s2.done (rw s3.done (rw s4.done (rw s5.done refl))))),
          s5.still,
          record {
            counters = s1.tells;
            histograms = s2.tells;
            meters = s3.tells;
            timers = s4.tells;
            gauges = s5.tells;
          },
        )

    -- After any calls on a new registry and on its metrics, a report can be made: no cast and no pointer fails. There is a
    -- directory that the registry stands for, before the report and after it, and the report holds its
    -- metrics and no others, each under its type, in the order of the names, with its value by the fields
    -- of its object: the count, the value, the values in the reservoir, and the rates after the ticks up
    -- to the readings of the clock; it does not matter what was read before it.
    pub run-read_metrics :
        (g : Rng R W) (qs : List (Request R W))
        → let r = run g metric_registry qs in
          (dir : Directory) × (m : Metrics f) × (r' : MetricRegistry R W) × Shows r dir
          × (read_metrics f clock r ≡ returns (m, r'))
          × Shows r' dir
          × TellsAll r dir m
    run-read_metrics g qs =
        let (dir, s, injective) = run_new-IsShown g qs in
        let (m, r', e, s', all) =
          read_metrics-TellsAll (run g metric_registry qs) dir s injective in
        (dir, m, r', s, e, s', all)
