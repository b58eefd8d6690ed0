-- ===== src/Graphite/Settled.antt =====
-- The lines of a report of graphite_reporter.cpp whose values the code can compute.
use cppmetrics.Prelude.{ℕ, List, [], ◌∷◌, String, ℤ, All, All-append}
use cppmetrics.Outcome.{Outcome, returns, throws, undefined, unfinished, ◌>>=◌}
use cppmetrics.Double.{Double}
use cppmetrics.Snapshot.{Snapshot}
use cppmetrics.Snapshot.Statistics.{Ends, AllEnd}
use cppmetrics.Graphite.{
  Metered, Format, GraphiteReporter, Line, Metrics, snapshot_lines, report_meter, report_timer,
  report_histogram, report_counter, report_gauge, each, lines, convert_duration_unit,
}
use cppmetrics.Graphite.Reports.{IsSettled}

-- The code computes the value of each line.
abbrev pub AllComputed : List Line → Type 0
AllComputed ls = All (λ l. Ends l.1) ls

Ends-IsSettled : (o : Outcome String) → Ends o → IsSettled o
Ends-IsSettled (returns a) h = tt
Ends-IsSettled (throws e) h = absurd h
Ends-IsSettled undefined h = absurd h
Ends-IsSettled unfinished h = absurd h

pub AllComputed-IsSettled : (ls : List Line) → AllComputed ls → All (λ l. IsSettled l.1) ls
AllComputed-IsSettled [] h = tt
AllComputed-IsSettled (l ∷ ls) (e, h) = (Ends-IsSettled l.1 e, AllComputed-IsSettled ls h)

shown-Ends :
    {A : Type 0} (o : Outcome A) (show : A → String) → Ends o → Ends (o >>= λ a. returns (show a))
shown-Ends (returns a) show h = tt
shown-Ends (throws e) show h = absurd h
shown-Ends undefined show h = absurd h
shown-Ends unfinished show h = absurd h

-- All statistics of the snapshots in a report end.
pub record IsCalm {W : Type 0} ⦃d : Double W⦄ (f : Format W) (m : Metrics f) : Type 0 where
  pub histograms_end : All (λ h. AllEnd W (h.1.1)) m.histogram_map
  pub timers_end : All (λ t. AllEnd W (t.1.0)) m.timer_map

module _ {W : Type 0} ⦃d : Double W⦄ (f : Format W) (r : GraphiteReporter W) where
  each_computed :
      {A : Type 0} (P : A → Type 0) (report : String → A → List Line)
      → ((name : String) (a : A) → P a → AllComputed (report name a))
      → (vs : List (String × A)) → All (λ v. P v.1) vs
      → AllComputed (each f report vs)
  each_computed P report h [] ps = tt
  each_computed P report h ((name, a) ∷ vs) ps =
      All-append _ (report name a) (each f report vs) (h name a (ps.0))
        (each_computed P report h vs (ps.1))

  snapshot_computed :
      (name : String) (show : W → String) (show_int : ℤ → String) (s : Snapshot)
      → AllEnd W s
      → AllComputed (snapshot_lines f r name show show_int s)
  unfolding snapshot_lines
  snapshot_computed name show show_int s e = (
    shown-Ends _ show_int e.max_ends,
    (
      shown-Ends _ show e.mean_ends,
      (
        shown-Ends _ show_int e.min_ends,
        (
          shown-Ends _ show e.std_dev_ends,
          (
            shown-Ends _ show e.median_ends,
            (
              shown-Ends _ show e.p75_ends,
              (
                shown-Ends _ show e.p95_ends,
                (
                  shown-Ends _ show e.p98_ends,
                  (shown-Ends _ show e.p99_ends, (shown-Ends _ show e.p999_ends, tt)),
                ),
              ),
            ),
          ),
        ),
      ),
    ),
  )

  meter_computed : (name : String) (m : Metered W) → AllComputed (report_meter f r name m)
  unfolding report_meter
  meter_computed name m = (tt, (tt, (tt, (tt, (tt, tt)))))

  timer_computed :
      (name : String) (s : Snapshot) (m : Metered W)
      → AllEnd W s
      → AllComputed (report_timer f r name s m)
  unfolding report_timer
  timer_computed name s m e =
      let show = λ (v : W). f.of_double (convert_duration_unit f r v) in
      let show_int = λ (v : ℤ). f.of_double (convert_duration_unit f r (d.of_int64 v)) in
      All-append (λ l. Ends l.1) (snapshot_lines f r name show show_int s) (report_meter f r name m)
        (snapshot_computed name show show_int s e) (meter_computed name m)

  -- all of a map, where nothing is asked of its values
  nothing_asked : {A : Type 0} (vs : List (String × A)) → All {0, 0} (λ v. Unit) vs
  nothing_asked [] = tt
  nothing_asked (v ∷ vs) = (tt, nothing_asked vs)

  pub lines_computed : (m : Metrics f) → IsCalm f m → AllComputed (lines f r m)
  unfolding lines report_counter report_gauge report_histogram
  lines_computed m c =
      let of_histogram =
        λ (name : String) (h : ℕ × Snapshot). report_histogram f r name (h.0) (h.1) in
      let of_timer =
        λ (name : String) (t : Snapshot × Metered W). report_timer f r name (t.0) (t.1) in
      let counters : AllComputed (each f (report_counter f r) m.counter_map) =
        each_computed (λ a. Unit) (report_counter f r) (λ name a u. (tt, tt)) m.counter_map
          (nothing_asked m.counter_map) in
      let histograms : AllComputed (each f of_histogram m.histogram_map) =
        each_computed (λ h. AllEnd W (h.1)) of_histogram
          (λ name h e. (tt, snapshot_computed name f.of_double f.of_int64 (h.1) e)) m.histogram_map
          c.histograms_end in
      let meters : AllComputed (each f (report_meter f r) m.meter_map) =
        each_computed (λ a. Unit) (report_meter f r) (λ name a u. meter_computed name a) m.meter_map
          (nothing_asked m.meter_map) in
      let timers : AllComputed (each f of_timer m.timer_map) =
        each_computed (λ t. AllEnd W (t.0)) of_timer (λ name t e. timer_computed name (t.0) (t.1) e)
          m.timer_map c.timers_end in
      let gauges : AllComputed (each f (report_gauge f r) m.gauge_map) =
        each_computed (λ a. Unit) (report_gauge f r) (λ name a u. (tt, tt)) m.gauge_map
          (nothing_asked m.gauge_map) in
      All-append (λ l. Ends l.1) (each f (report_counter f r) m.counter_map) _ counters
        (All-append (λ l. Ends l.1) (each f of_histogram m.histogram_map) _ histograms
          (All-append (λ l. Ends l.1) (each f (report_meter f r) m.meter_map) _ meters
            (All-append (λ l. Ends l.1) (each f of_timer m.timer_map) _ timers gauges)))
