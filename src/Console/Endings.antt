-- ===== src/Console/Endings.antt =====
-- The reports of console_reporter.cpp that can be printed to their end.
use Prim.Native.String.{String}
use cppmetrics.Prelude.{ℕ, List, [], ◌∷◌, ℤ, All, All-append}
use cppmetrics.Outcome.{Outcome, returns, Returns->>=, ◌>>=◌}
use cppmetrics.Double.{Double}
use cppmetrics.Snapshot.{Snapshot}
use cppmetrics.Snapshot.Statistics.{Ends, AllEnd}
use cppmetrics.Graphite.{Metered, Format, Metrics}
use cppmetrics.Graphite.Settled.{IsCalm}
use cppmetrics.Console.{
  ConsoleReporter, Printed, print_all, print_meter, print_counter, print_gauge, print_snapshot,
  print_histogram, print_timer, each_named, print_section, print_with_banner, report, millis,
}

abbrev AllPrint : Printed → Type 0
AllPrint ls = All (λ l. Ends l) ls

print_all-Ends : (ls : Printed) → AllPrint ls → Ends (print_all ls)
print_all-Ends [] h = tt
print_all-Ends (l ∷ ls) h =
    Returns->>= {P = λ a. Unit} (λ a. Unit) l _ (h.0)
      (λ text u.
        Returns->>= {P = λ a. Unit} (λ a. Unit) (print_all ls) _ (print_all-Ends ls (h.1))
          (λ texts v. tt))

banner-Ends : (text : String) (ls : Printed) → AllPrint ls → Ends (print_all (returns text ∷ ls))
banner-Ends text ls h = print_all-Ends (returns text ∷ ls) (tt, h)

shown-Ends :
    {A : Type 0} (o : Outcome A) (show : A → String) → Ends o → Ends (o >>= λ a. returns (show a))
shown-Ends o show h = Returns->>= {P = λ a. Unit} (λ a. Unit) o _ h (λ a u. tt)

module _ {W : Type 0} ⦃d : Double W⦄ (f : Format W) (show_plainly : W → String) where
  module _ {A : Type 0} (P : A → Type 0) (print : A → Printed)
      (h : (a : A) → P a → AllPrint (print a)) where
    each_named-AllPrint :
        (vs : List (String × A))
        → All (λ v. P v.1) vs
        → AllPrint (each_named f show_plainly print vs)
    each_named-AllPrint [] ps = tt
    each_named-AllPrint ((name, a) ∷ vs) ps = (
      tt,
      All-append (λ l. Ends l) (print a) (each_named f show_plainly print vs) (h a (ps.0))
          (each_named-AllPrint vs (ps.1)),
    )

    print_section-AllPrint :
        (title : String) (vs : List (String × A))
        → All (λ v. P v.1) vs
        → AllPrint (print_section f show_plainly title print vs)
    print_section-AllPrint title [] ps = tt
    print_section-AllPrint title (v ∷ vs) ps = (
      tt,
      All-append (λ l. Ends l) (each_named f show_plainly print (v ∷ vs)) (returns "" ∷ [])
          (each_named-AllPrint (v ∷ vs) ps) (tt, tt),
    )

  print_snapshot-AllPrint :
      (show : W → String) (show_int : ℤ → String) (s : Snapshot)
      → AllEnd W s
      → AllPrint (print_snapshot f show_plainly show show_int s)
  unfolding print_snapshot
  print_snapshot-AllPrint show show_int s e = (
    shown-Ends _ _ e.min_ends,
    (
      shown-Ends _ _ e.max_ends,
      (
        shown-Ends _ _ e.mean_ends,
        (
          shown-Ends _ _ e.std_dev_ends,
          (
            shown-Ends _ _ e.median_ends,
            (
              shown-Ends _ _ e.p75_ends,
              (
                shown-Ends _ _ e.p95_ends,
                (
                  shown-Ends _ _ e.p98_ends,
                  (shown-Ends _ _ e.p99_ends, (shown-Ends _ _ e.p999_ends, tt)),
                ),
              ),
            ),
          ),
        ),
      ),
    ),
  )

  print_timer-AllPrint :
      (r : ConsoleReporter W) (t : Snapshot × Metered W)
      → AllEnd W (t.0)
      → AllPrint (print_timer f show_plainly r (t.0) (t.1))
  unfolding print_timer
  print_timer-AllPrint r t e = (
    tt,
    (
      tt,
      (
        tt,
        (
          tt,
          (
            tt,
            print_snapshot-AllPrint (millis f show_plainly r)
                (λ v. millis f show_plainly r (d.of_int64 v)) (t.0) e,
          ),
        ),
      ),
    ),
  )

  -- every metric, where nothing is asked of it
  unasked : {A : Type 0} (vs : List (String × A)) → All {0, 0} (λ v. Unit) vs
  unasked [] = tt
  unasked (v ∷ vs) = (tt, unasked vs)

  pub report-Ends :
      (r : ConsoleReporter W) (timestamp : String) (m : Metrics f)
      → IsCalm f m
      → Ends (report f show_plainly r timestamp m)
  unfolding report print_gauge print_counter print_meter print_histogram
  report-Ends r timestamp m c =
      let of_histogram = λ (h : ℕ × Snapshot). print_histogram f show_plainly (h.0) (h.1) in
      let of_timer = λ (t : Snapshot × Metered W). print_timer f show_plainly r (t.0) (t.1) in
      let gauges =
        print_section-AllPrint (λ v. Unit) (print_gauge f show_plainly) (λ a u. (tt, tt))
          "-- Gauges" m.gauge_map (unasked m.gauge_map) in
      let counters =
        print_section-AllPrint (λ v. Unit) (print_counter f show_plainly) (λ a u. (tt, tt))
          "-- Counters" m.counter_map (unasked m.counter_map) in
      let histograms =
        print_section-AllPrint (λ h. AllEnd W (h.1)) of_histogram
          (λ h e. (tt, print_snapshot-AllPrint f.of_double f.of_int64 (h.1) e)) "-- Histograms"
          m.histogram_map c.histograms_end in
      let meters =
        print_section-AllPrint (λ v. Unit) (print_meter f show_plainly r)
          (λ a u. (tt, (tt, (tt, (tt, (tt, tt)))))) "-- Meters" m.meter_map (unasked m.meter_map) in
      let timers =
        print_section-AllPrint (λ t. AllEnd W (t.0)) of_timer (print_timer-AllPrint r) "-- Timers"
          m.timer_map c.timers_end in
      banner-Ends (print_with_banner timestamp "=") _ (
        All-append (λ l. Ends l) _ _ gauges
          (All-append (λ l. Ends l) _ _ counters
            (All-append (λ l. Ends l) _ _ histograms
              (All-append (λ l. Ends l) _ _ meters
                (All-append (λ l. Ends l) _ _ timers (tt, tt))))))
