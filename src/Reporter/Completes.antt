-- ===== src/Reporter/Completes.antt =====
-- `report` of scheduled_reporter.cpp, on a `GraphiteReporter`, from the registry to the sender.
use cppmetrics.Prelude.{
  ℕ, ◌+◌, length, ◌≡◌, refl, Option, none, some, Option-cases, inl, inr, String, List, [], ◌∷◌, All,
  All-get_elem?, All-set, get_elem?, subst,
}
use cppmetrics.Outcome.{Outcome, returns, Returns, Whenever, Whenever->>=, Whenever-any, ◌>>=◌}
use cppmetrics.Double.{Double, IsIeee}
use cppmetrics.Snapshot.Statistics.{IsModest, AllEnd, IsModest-AllEnd, Ends-returns}
use cppmetrics.Histogram
use cppmetrics.Timer
use cppmetrics.Table.{Table}
use cppmetrics.Random.{Rng}
use cppmetrics.Registry.{
  Metric, a_gauge, a_counter, a_histogram, a_meter, a_timer, MetricRegistry, metric_registry,
}
use cppmetrics.Registry.Calls.{get_counters, get_histograms, get_meters, get_timers, get_gauges}
use cppmetrics.Metered.{timer_class}
use cppmetrics.Registry.Histories.{Request, run}
use cppmetrics.Sender.{GraphiteSender}
use cppmetrics.Graphite.{Format, GraphiteReporter, Metrics, lines}
use cppmetrics.Graphite.Reports.{SenderLaws, report_lem}
use cppmetrics.Graphite.Settled.{IsCalm, AllComputed, AllComputed-IsSettled, lines_computed}
use cppmetrics.Reporter.{
  Times, Reader, read_counter, read_histogram, read_meter, read_timer, read_gauge, read_at,
  read_all, read_metrics, report_to_graphite, report_to_console, read_metered,
}
use cppmetrics.Reporter.Reported.{TellsAll, run-read_metrics}
use cppmetrics.Registry.Directory.{Directory, Shows}
use cppmetrics.Console.{ConsoleReporter}
use cppmetrics.Console.Sections.{section_length, length-report}
use cppmetrics.Console.Endings.{report-Ends}

module _ {R W : Type 0} ⦃d : Double W⦄ where
  -- The samples that a metric would show are few and small.
  abbrev pub HasModest : Metric R W → Type 0
  HasModest (a_histogram h) = IsModest (Histogram.get_snapshot h)
  HasModest (a_timer t) = IsModest (Timer.get_snapshot t)
  HasModest _ = Unit

  -- What is read, if anything, has the property, and the object keeps its samples.
  abbrev Given : {A : Type 0} → (A → Type 0) → Option (A × Metric R W) → Type 0
  Given P none = Unit
  Given P (some (a, m)) = P a × HasModest m

  abbrev Keeps : {A : Type 0} → (A → Type 0) → Reader R W A → Type 0
  Keeps P read = (name : String) (m : Metric R W) → HasModest m → Given P (read name m)

  module _ {A : Type 0} (P : A → Type 0) (read : Reader R W A) (k : Keeps P read) where
    read_at-Whenever :
        (name : String) (p : ℕ) (r : MetricRegistry R W)
        → All HasModest r.heap
        → Whenever (λ x. P x.0 × All HasModest (x.1.heap)) (read_at read name p r)
    unfolding read_at
    read_at-Whenever name p r h = elim (Option-cases (get_elem? r.heap p)) [
      | inl gone ↦ rw (read_at, gone) tt
      | inr (m, at) ↦ elim (Option-cases (read name m)) [
        | inl other ↦ rw (read_at, at, other) tt
        | inr ((a, m'), e) ↦
            let kept = subst (Given P) e (k name m (All-get_elem? HasModest r.heap p h at)) in
            rw (read_at, at, e) (kept.0, All-set HasModest r.heap p m' h (kept.1))
      ]
    ]

    read_all-Whenever :
        (es : Table ℕ) (r : MetricRegistry R W)
        → All HasModest r.heap
        → Whenever (λ x. All (λ v. P v.1) x.0 × All HasModest (x.1.heap)) (read_all read es r)
    unfolding read_all
    read_all-Whenever [] r h = (tt, h)
    read_all-Whenever ((name, p) ∷ es) r h =
        Whenever->>= _ _ (read_at read name p r) _ (read_at-Whenever name p r h) (λ (a, r') x.
          Whenever->>= _ _ (read_all read es r') _ (read_all-Whenever es r' (x.1))
            (λ (vs, r'') y. ((x.0, y.0), y.1)))

    -- One loop, and what follows it.
    through :
        {B : Type 0} (Q : B → Type 0) (es : Table ℕ) (r : MetricRegistry R W)
        (rest : List (String × A) × MetricRegistry R W → Outcome B)
        → All HasModest r.heap
        → ((vs : List (String × A)) (r' : MetricRegistry R W)
            → All (λ v. P v.1) vs
            → All HasModest r'.heap
            → Whenever Q (rest (vs, r')))
        → Whenever Q (read_all read es r >>= rest)
    through Q es r rest h next =
        Whenever->>= _ Q (read_all read es r) rest (read_all-Whenever es r h)
          (λ (vs, r') x. next vs r' (x.0) (x.1))

  counter-Keeps : Keeps (λ v. Unit) read_counter
  unfolding read_counter
  counter-Keeps name (a_gauge x) h = tt
  counter-Keeps name (a_counter x) h = (tt, tt)
  counter-Keeps name (a_histogram x) h = tt
  counter-Keeps name (a_meter x) h = tt
  counter-Keeps name (a_timer x) h = tt

  gauge-Keeps : Keeps (λ v. Unit) read_gauge
  unfolding read_gauge
  gauge-Keeps name (a_gauge x) h = (tt, tt)
  gauge-Keeps name (a_counter x) h = tt
  gauge-Keeps name (a_histogram x) h = tt
  gauge-Keeps name (a_meter x) h = tt
  gauge-Keeps name (a_timer x) h = tt

  meter-Keeps : (clock : String → Times) → Keeps (λ v. Unit) (read_meter clock)
  unfolding read_meter
  meter-Keeps clock name (a_gauge x) h = tt
  meter-Keeps clock name (a_counter x) h = tt
  meter-Keeps clock name (a_histogram x) h = tt
  meter-Keeps clock name (a_meter x) h = (tt, tt)
  meter-Keeps clock name (a_timer x) h = tt

  module _ (laws : IsIeee W) where
    histogram-Keeps : Keeps (λ v. AllEnd W (v.1)) read_histogram
    unfolding read_histogram
    histogram-Keeps name (a_gauge x) h = tt
    histogram-Keeps name (a_counter x) h = tt
    histogram-Keeps name (a_histogram x) h = (IsModest-AllEnd laws _ h, h)
    histogram-Keeps name (a_meter x) h = tt
    histogram-Keeps name (a_timer x) h = tt

    timer-Keeps : (clock : String → Times) → Keeps (λ v. AllEnd W (v.0)) (read_timer clock)
    unfolding read_timer read_metered timer_class Timer.get_snapshot Timer.get_one_minute_rate
        Timer.get_five_minute_rate Timer.get_fifteen_minute_rate
    timer-Keeps clock name (a_gauge x) h = tt
    timer-Keeps clock name (a_counter x) h = tt
    timer-Keeps clock name (a_histogram x) h = tt
    timer-Keeps clock name (a_meter x) h = tt
    timer-Keeps clock name (a_timer x) h = (IsModest-AllEnd laws _ h, h)

    module _ (f : Format W) (clock : String → Times) where
      read_metrics-Whenever :
          (r : MetricRegistry R W)
          → All HasModest r.heap
          → Whenever (λ x. IsCalm f x.0) (read_metrics f clock r)
      unfolding read_metrics
      read_metrics-Whenever r h =
          Whenever->>= (λ v. Unit) _ (get_counters r) _ (Whenever-any _)
            (λ cs u1.
              Whenever->>= (λ v. Unit) _ (get_histograms r) _ (Whenever-any _)
                (λ hs u2.
                  Whenever->>= (λ v. Unit) _ (get_meters r) _ (Whenever-any _)
                    (λ ms u3.
                      Whenever->>= (λ v. Unit) _ (get_timers r) _ (Whenever-any _)
                        (λ ts u4.
                          Whenever->>= (λ v. Unit) _ (get_gauges r) _ (Whenever-any _)
                            (λ gs u5.
                              through _ read_counter counter-Keeps _ cs r _ h (λ vc r1 c1 h1.
                                through _ read_histogram histogram-Keeps _ hs r1 _ h1
                                  (λ vh r2 c2 h2.
                                    through _ (read_meter clock) (meter-Keeps clock) _ ms r2 _ h2
                                      (λ vm r3 c3 h3.
                                        through _ (read_timer clock) (timer-Keeps clock) _ ts r3 _
                                          h3
                                          (λ vt r4 c4 h4.
                                            through _ read_gauge gauge-Keeps _ gs r4 _ h4
                                              (λ vg r5 c5 h5. record {
                                                histograms_end = c2;
                                                timers_end = c4;
                                              }))))))))))

      -- From the registry to the sender: after any calls on a new registry and on its metrics, if the
      -- samples that each histogram and each timer holds are few and small, the loops of `report` read
      -- metrics that are the directory's, the value of every line that is sent for them is computed,
      -- without an exception and without undefined behaviour, and `report` returns with the sender closed,
      -- on any sender that keeps the laws and is closed at the start, whatever fails on the network.
      pub report_to_graphite-Closed :
          {S : Type 0} (c : GraphiteSender S) (l : SenderLaws c) (g : Rng R W)
          (qs : List (Request R W)) (reporter : GraphiteReporter W) (timestamp : ℕ) (s : S)
          → All HasModest (run g metric_registry qs).heap
          → l.Closed s
          → let r = run g metric_registry qs in
            (dir : Directory) × (m : Metrics f) × (r' : MetricRegistry R W) × Shows r dir
            × TellsAll f clock r dir m
            × (read_metrics f clock r ≡ returns (m, r'))
            × AllComputed (lines f reporter m)
            × Returns l.Closed (report_to_graphite f clock c reporter timestamp r s)
      unfolding report_to_graphite
      report_to_graphite-Closed c l g qs reporter timestamp s modest closed =
          let r = run g metric_registry qs in
          let (dir, m, r', shows, e, _, tells) = run-read_metrics f clock g qs in
          let calm = subst (Whenever (λ x. IsCalm f x.0)) e (read_metrics-Whenever r modest) in
          let computed = lines_computed f reporter m calm in
          let settled = AllComputed-IsSettled (lines f reporter m) computed in
          (
            dir,
            m,
            r',
            shows,
            tells,
            e,
            computed,
            rw (e) (report_lem c l timestamp (lines f reporter m) s settled closed),
          )

      -- The console report of the same registry is printed to its end. There are a directory that the
      -- registry stands for and metrics that are the directory's, and the text has two lines more than
      -- their sections: none for a map that is empty, and for any other two more than its metrics, of
      -- two lines for each gauge and counter, twelve for each histogram, six for each meter and sixteen
      -- for each timer.
      pub report_to_console_lem :
          (show_plainly : W → String) (g : Rng R W) (qs : List (Request R W))
          (reporter : ConsoleReporter W) (timestamp : String)
          → All HasModest (run g metric_registry qs).heap
          → let r = run g metric_registry qs in
            (dir : Directory) × (m : Metrics f) × (texts : List String) × (r' : MetricRegistry R W)
            × Shows r dir
            × TellsAll f clock r dir m
            × (report_to_console f clock show_plainly reporter timestamp r ≡ returns (texts, r'))
            × (length texts
                ≡ 2
                  + section_length (length m.gauge_map) 1
                  + section_length (length m.counter_map) 1
                  + section_length (length m.histogram_map) 11
                  + section_length (length m.meter_map) 5
                  + section_length (length m.timer_map) 15)
      unfolding report_to_console
      report_to_console_lem show_plainly g qs reporter timestamp modest =
          let r = run g metric_registry qs in
          let (dir, m, r', shows, e, _, tells) = run-read_metrics f clock g qs in
          let calm = subst (Whenever (λ x. IsCalm f x.0)) e (read_metrics-Whenever r modest) in
          let (texts, printed) =
            Ends-returns _ (report-Ends f show_plainly reporter timestamp m calm) in
          (
            dir,
            m,
            texts,
            r',
            shows,
            tells,
            rw (e) (rw printed refl),
            length-report f show_plainly reporter timestamp m texts printed,
          )
