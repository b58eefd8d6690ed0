-- ===== src/Graphite/Names.antt =====
-- The names of a report in graphite_reporter.cpp.
use Prim.Native.String.{◌++◌}
use text.Mathlib.TextLemmas.{append_assoc}
use cppmetrics.Prelude.{
  ℕ, suc, ◌+◌, ◌*◌, ◌≡◌, refl, ap, ◌∙◌, List, [], ◌∷◌, Option, none, some, String, ℤ, All,
  All-append, length, length-append, arith,
}
use cppmetrics.Prelude
use cppmetrics.Double.{Double}
use cppmetrics.Snapshot.{Snapshot}
use cppmetrics.Graphite.{
  GraphiteReporter, Metered, Format, Line, Metrics, prefix, each, lines, report_meter,
  snapshot_lines, report_timer, report_histogram, report_counter, report_gauge,
}

module _ {W : Type 0} ⦃d : Double W⦄ (f : Format W) (r : GraphiteReporter W) where
  -- The name is in the reporter's part of the server.
  abbrev pub IsPrefixed : Line → Type 0
  IsPrefixed l = (rest : String) × (l.0 ≡ r.prefix_text ++ ("." ++ rest))

  named :
      (name extra : String)
      → (rest : String) × (prefix r name (some extra) ≡ r.prefix_text ++ ("." ++ rest))
  unfolding prefix
  named name extra = (
    name ++ ("." ++ extra),
    append_assoc r.prefix_text ("." ++ name) ("." ++ extra)
        ∙ ap (λ s. r.prefix_text ++ s) (append_assoc "." name ("." ++ extra)),
  )

  -- A number of lines, all of them with the prefix.
  record IsBlock (k : ℕ) (ls : List Line) : Type 0 where
    prefixed : All IsPrefixed ls
    counted : length ls ≡ k

  append-IsBlock :
      {k m : ℕ} {xs ys : List Line}
      → IsBlock k xs
      → IsBlock m ys
      → IsBlock (k + m) (Prelude.◌++◌ xs ys)
  append-IsBlock {xs = xs} {ys = ys} a b = record {
    prefixed = All-append IsPrefixed xs ys a.prefixed b.prefixed;
    counted = omega (arith, length-append xs ys, a.counted, b.counted);
  }

  each-IsBlock :
      {A : Type 0} (k : ℕ) (report : String → A → List Line) (xs : List (String × A))
      → ((name : String) (a : A) → IsBlock k (report name a))
      → IsBlock (length xs * k) (each f report xs)
  each-IsBlock k report [] h = record { prefixed = tt; counted = omega arith }
  each-IsBlock k report ((name, a) ∷ xs) h =
      let all = append-IsBlock (h name a) (each-IsBlock k report xs h) in
      record { prefixed = all.prefixed; counted = grind (arith, all.counted) }

  meter-IsBlock : (name : String) (m : Metered W) → IsBlock 5 (report_meter f r name m)
  unfolding report_meter
  meter-IsBlock name m = record {
    prefixed = (
      named name "count",
      (
        named name "m1_rate",
        (named name "m5_rate", (named name "m15_rate", (named name "mean_rate", tt))),
      ),
    );
    counted = refl;
  }

  snapshot-IsBlock :
      (name : String) (show : W → String) (show_int : ℤ → String) (s : Snapshot)
      → IsBlock 10 (snapshot_lines f r name show show_int s)
  unfolding snapshot_lines
  snapshot-IsBlock name show show_int s = record {
    prefixed = (
      named name "getMax",
      (
        named name "mean",
        (
          named name "min",
          (
            named name "stddev",
            (
              named name "p50",
              (
                named name "p75",
                (named name "p95", (named name "p98", (named name "p99", (named name "p999", tt)))),
              ),
            ),
          ),
        ),
      ),
    );
    counted = refl;
  }

  histogram-IsBlock :
      (name : String) (h : ℕ × Snapshot) → IsBlock 11 (report_histogram f r name h.0 h.1)
  unfolding report_histogram
  histogram-IsBlock name h =
      let rest = snapshot-IsBlock name f.of_double f.of_int64 h.1 in
      record { prefixed = (named name "count", rest.prefixed); counted = ap suc rest.counted }

  timer-IsBlock :
      (name : String) (t : Snapshot × Metered W) → IsBlock 15 (report_timer f r name t.0 t.1)
  unfolding report_timer
  timer-IsBlock name t = append-IsBlock (snapshot-IsBlock name _ _ t.0) (meter-IsBlock name t.1)

  counter-IsBlock : (name : String) (v : ℤ) → IsBlock 1 (report_counter f r name v)
  unfolding report_counter
  counter-IsBlock name v = record { prefixed = (named name "count", tt); counted = refl }

  gauge-IsBlock : (name : String) (v : ℤ) → IsBlock 1 (report_gauge f r name v)
  unfolding report_gauge prefix
  gauge-IsBlock name v = record { prefixed = ((name, refl), tt); counted = refl }

  -- A report has one line for each counter and gauge, five for each meter, eleven for each histogram
  -- and fifteen for each timer, and the name of every line begins with the reporter's prefix and a
  -- dot.
  pub lines-IsPrefixed :
      (m : Metrics f)
      → All IsPrefixed (lines f r m)
        × (length (lines f r m)
            ≡ length m.counter_map * 1
              + (length m.histogram_map * 11
                  + (length m.meter_map * 5 + (length m.timer_map * 15 + length m.gauge_map * 1))))
  unfolding lines
  lines-IsPrefixed m =
      let all = append-IsBlock (each-IsBlock 1 (report_counter f r) m.counter_map counter-IsBlock) (
        append-IsBlock
          (each-IsBlock 11 (λ name h. report_histogram f r name h.0 h.1) m.histogram_map
            histogram-IsBlock)
          (append-IsBlock (each-IsBlock 5 (report_meter f r) m.meter_map meter-IsBlock) (
            append-IsBlock
              (each-IsBlock 15 (λ name t. report_timer f r name t.0 t.1) m.timer_map timer-IsBlock)
              (each-IsBlock 1 (report_gauge f r) m.gauge_map gauge-IsBlock)))) in
      (all.prefixed, all.counted)
