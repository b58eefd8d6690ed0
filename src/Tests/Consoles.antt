-- ===== src/Tests/Consoles.antt =====
-- The console reporter: runs, and the theorems at concrete inputs.
use Prim.Native.String.{String, len}
use cppmetrics.Prelude.{◌≤◌, ◌<◌, ◌^◌, ◌≡◌, refl, List, [], ◌∷◌, some, pos}
use cppmetrics.Outcome.{returns}
use cppmetrics.Double.Milli.{Milli, milli}
use cppmetrics.Graphite.{Format, Metrics}
use cppmetrics.Console.{
  ConsoleReporter, console_width, print_with_banner, repeat, report, print_counter,
}
use cppmetrics.Console.Banner.{len-print_with_banner}

banner :
    print_with_banner "-- Gauges" "-"
    ≡ "-- Gauges ----------------------------------------------------------------------"
unfolding print_with_banner repeat
banner = refl

len-print_with_banner_example :
    (len "-- Gauges" ≤ 79 → len (print_with_banner "-- Gauges" "-") ≡ console_width)
    × (80 ≤ len "-- Gauges"
        → len "-- Gauges" ≤ 2 ^ 63
        → 2 ^ 63 < len (print_with_banner "-- Gauges" "-"))
len-print_with_banner_example = len-print_with_banner "-- Gauges" "-" refl

-- A stand-in for the text of numbers.
abbrev text : Format Milli
text = record { of_double = λ v. "1.50"; of_uint64 = λ n. "3"; of_int64 = λ v. "4" }

abbrev metrics : Metrics text
metrics = record {
  counter_map = ("hits", pos 4) ∷ [];
  histogram_map = [];
  meter_map = [];
  timer_map = [];
  gauge_map = [];
}

abbrev pub reporter : ConsoleReporter Milli
reporter = record { rate_factor = some (pos 1000); duration_factor = some (pos 1) }

abbrev printed : List String
printed =
    print_with_banner "now" "="
    ∷ print_with_banner "-- Counters" "-"
    ∷ "hits"
    ∷ "             count = 4"
    ∷ ""
    ∷ ""
    ∷ []

-- One counter, and no section for the metrics that are not there.
one_counter : report text (λ v. "1") reporter "now" metrics ≡ returns printed
unfolding report print_counter
one_counter = refl
