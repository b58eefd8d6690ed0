-- ===== src/Console/Sections.antt =====
-- The sections of a report in console_reporter.cpp.
use Prim.Native.String.{String}
use cppmetrics.Prelude.{
  ℕ, zero, suc, ◌+◌, ◌*◌, ◌≡◌, refl, ap, sym, ◌∙◌, List, [], ◌∷◌, ◌++◌, length, length-append,
  arith,
}
use cppmetrics.Outcome.{Outcome, returns, throws, undefined, unfinished, ◌>>=◌}
use cppmetrics.Double.{Double}
use cppmetrics.Graphite.{Format, Metrics}
use cppmetrics.Console.{
  ConsoleReporter, Printed, print_all, print_meter, print_counter, print_gauge, print_snapshot,
  print_histogram, print_timer, each_named, print_section, print_with_banner, report,
}

length_after :
    (o : Outcome (List String)) (l : String) (n : ℕ) (texts : List String)
    → ((ts : List String) → o ≡ returns ts → length ts ≡ n)
    → (o >>= λ ts. returns (l ∷ ts)) ≡ returns texts
    → length texts ≡ suc n
length_after (returns ts) l n texts h e =
    let same : l ∷ ts ≡ texts = cc in ap length (sym same) ∙ ap suc (h ts refl)
length_after (throws x) l n texts h e = cc
length_after undefined l n texts h e = cc
length_after unfinished l n texts h e = cc

length-print_all :
    (ls : Printed) (texts : List String) → print_all ls ≡ returns texts → length texts ≡ length ls
length-print_all [] texts h = let same : [] ≡ texts = cc in ap length (sym same)
length-print_all (returns l ∷ ls) texts h =
    length_after (print_all ls) l (length ls) texts (length-print_all ls) h
length-print_all (throws e ∷ ls) texts h = cc
length-print_all (undefined ∷ ls) texts h = cc
length-print_all (unfinished ∷ ls) texts h = cc

-- The lines of a section with `n` metrics of `k` lines each.
abbrev pub section_length : ℕ → ℕ → ℕ
section_length zero k = 0
section_length (suc n) k = 2 + suc n * (k + 1)

module _ {W : Type 0} ⦃d : Double W⦄ (f : Format W) (show_plainly : W → String) where
  module _ {A : Type 0} (k : ℕ) (print : A → Printed) (sized : (a : A) → length (print a) ≡ k) where
    length-each_named :
        (es : List (String × A)) → length (each_named f show_plainly print es) ≡ length es * (k + 1)
    length-each_named [] = omega arith
    length-each_named ((name, a) ∷ es) = grind (
      arith,
      length-append (print a) (each_named f show_plainly print es),
      sized a,
      length-each_named es,
    )

    length-print_section :
        (title : String) (es : List (String × A))
        → length (print_section f show_plainly title print es) ≡ section_length (length es) k
    length-print_section title [] = refl
    length-print_section title (e ∷ es) = grind (
      arith,
      length-append (each_named f show_plainly print (e ∷ es)) (returns "" ∷ []),
      length-each_named (e ∷ es),
    )

  -- A report that returns has two lines more than its sections have. A map that is empty has no section;
  -- that of any other has two lines more than its metrics: two for each gauge and counter, twelve for
  -- each histogram, six for each meter and sixteen for each timer.
  pub length-report :
      (r : ConsoleReporter W) (timestamp : String) (m : Metrics f) (texts : List String)
      → report f show_plainly r timestamp m ≡ returns texts
      → length texts
        ≡ 2
          + section_length (length m.gauge_map) 1
          + section_length (length m.counter_map) 1
          + section_length (length m.histogram_map) 11
          + section_length (length m.meter_map) 5
          + section_length (length m.timer_map) 15
  unfolding report print_gauge print_counter print_histogram print_meter print_timer print_snapshot
  length-report r timestamp m texts h =
      let gauges =
        print_section f show_plainly "-- Gauges" (print_gauge f show_plainly) m.gauge_map in
      let counters =
        print_section f show_plainly "-- Counters" (print_counter f show_plainly) m.counter_map in
      let histograms =
        print_section f show_plainly "-- Histograms" (λ h. print_histogram f show_plainly h.0 h.1)
          m.histogram_map in
      let meters =
        print_section f show_plainly "-- Meters" (print_meter f show_plainly r) m.meter_map in
      let timers =
        print_section f show_plainly "-- Timers" (λ t. print_timer f show_plainly r t.0 t.1)
          m.timer_map in
      let sections : Printed =
        gauges ++ (counters ++ (histograms ++ (meters ++ (timers ++ (returns "" ∷ []))))) in
      omega (
        arith,
        length-print_all (returns (print_with_banner timestamp "=") ∷ sections) texts h,
        length-append gauges
            (counters ++ (histograms ++ (meters ++ (timers ++ (returns "" ∷ []))))),
        length-append counters (histograms ++ (meters ++ (timers ++ (returns "" ∷ [])))),
        length-append histograms (meters ++ (timers ++ (returns "" ∷ []))),
        length-append meters (timers ++ (returns "" ∷ [])),
        length-append timers (returns "" ∷ []),
        length-print_section 1 (print_gauge f show_plainly) (λ a. refl) "-- Gauges" m.gauge_map,
        length-print_section 1 (print_counter f show_plainly) (λ a. refl) "-- Counters"
            m.counter_map,
        length-print_section 11 (λ h. print_histogram f show_plainly h.0 h.1) (λ a. refl)
            "-- Histograms" m.histogram_map,
        length-print_section 5 (print_meter f show_plainly r) (λ a. refl) "-- Meters" m.meter_map,
        length-print_section 15 (λ t. print_timer f show_plainly r t.0 t.1) (λ a. refl) "-- Timers"
            m.timer_map,
      )
