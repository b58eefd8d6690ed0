-- ===== src/Tests/Reporters.antt =====
-- The registry's class and the reports of a registry: runs, and the theorems at concrete inputs.
use cppmetrics.Prelude.{ℕ, ◌+◌, length, All, arith, ◌≡◌, refl, true, List, [], ◌∷◌, pos, String}
use cppmetrics.Outcome.{returns, Returns, invalid_argument}
use cppmetrics.Double.Milli.{Milli, milli, Milli-IsIeee}
use cppmetrics.Registry.{
  counter_type, a_counter, a_histogram, MetricRegistry, metric_registry, add_gauge, remove_metric,
  get_or_add,
}
use cppmetrics.Registry.Directory.{Directory, Shows}
use cppmetrics.Registry.Histories.{
  Request, histograms, counters, gauges, meters, changes, run, new-Shows,
}
use cppmetrics.Registry.Interface.{
  metric_registry_class, Call, replies, adds_gauge, asks_counter, removes, lists_counters, counts,
  a_truth, a_pointer, a_map, a_number, an_exception,
}
use cppmetrics.Registry.Refinement.{taken_message}
use cppmetrics.Registry.Catalog.{catalog}
use cppmetrics.Registry.Simulation.{replies-refine}
use cppmetrics.Registry.Restores.{LooksAs, add_gauge-remove_metric, get_or_add-remove_metric}
use cppmetrics.Reporter.{Times, read_metrics, report_to_graphite, report_to_console}
use cppmetrics.Reporter.Reported.{TellsAll, run-read_metrics}
use cppmetrics.Graphite.{Metrics, lines}
use cppmetrics.Graphite.Settled.{AllComputed}
use cppmetrics.Counter.{counter}
use cppmetrics.Tests.Registries.{drawn, nobody, empty}
use cppmetrics.Tests.Graphites.{text, log, sender, sender-IsClosed, app}
use cppmetrics.Histogram.{Histogram, uniform, get_snapshot}
use cppmetrics.Sender.{tcp_sender}
use cppmetrics.Snapshot.{snapshot}
use cppmetrics.UniformSample
use cppmetrics.Graphite.Reports.{IsClosed-Closed, tcp_sender-SenderLaws}
use cppmetrics.Snapshot.Statistics.{IsModest}
use cppmetrics.Reporter.Completes.{HasModest, report_to_graphite-Closed, report_to_console_lem}
use cppmetrics.Console.Sections.{section_length}
use cppmetrics.Tests.Consoles.{reporter}

-- Two counters out of order, a clash, a removal and some queries.
abbrev program : List Call
program =
    asks_counter "misses" (pos 0) 0
    ∷ asks_counter "hits" (pos 0) 0
    ∷ adds_gauge "hits" (pos 3)
    ∷ lists_counters
    ∷ removes "misses"
    ∷ counts
    ∷ []

replies-program :
    replies catalog catalog.create program
    ≡ a_pointer 0
      ∷ a_pointer 1
      ∷ an_exception (invalid_argument (taken_message "hits"))
      ∷ a_map (("hits", 1) ∷ ("misses", 0) ∷ [])
      ∷ a_truth true
      ∷ a_number 1
      ∷ []
unfolding replies catalog
replies-program = refl

replies-refine_example :
    let c = metric_registry_class drawn in
    replies c c.create program ≡ replies catalog catalog.create program
replies-refine_example = replies-refine drawn program

add_gauge-remove_metric_example :
    (r' r'' : MetricRegistry ℕ Milli) × (add_gauge empty "queue" (pos 3) ≡ returns (true, r'))
    × (remove_metric r' "queue" ≡ (true, r''))
    × LooksAs r'' empty
add_gauge-remove_metric_example =
    add_gauge-remove_metric empty nobody "queue" (pos 3) new-Shows refl

get_or_add-remove_metric_example :
    (p : ℕ) × (r' r'' : MetricRegistry ℕ Milli) × (get_or_add drawn empty counter_type "hits"
        (pos 0)
        0
      ≡ returns (p, r'))
    × (remove_metric r' "hits" ≡ (true, r''))
    × LooksAs r'' empty
get_or_add-remove_metric_example =
    get_or_add-remove_metric drawn empty nobody counter_type "hits" (pos 0) 0 refl new-Shows refl

abbrev at_five : String → Times
at_five name = record { one = 5; five = 5; fifteen = 5; mean = 5 }

abbrev session : List (Request ℕ Milli)
session =
    counters "hits" (pos 0) 0
    ∷ meters "requests" (pos 0) 0
    ∷ changes 0 (a_counter (counter (pos 7)))
    ∷ gauges "queue" (pos 3)
    ∷ []

run-read_metrics_example :
    let r = run drawn metric_registry session in
    (dir : Directory) × (m : Metrics text) × (r' : MetricRegistry ℕ Milli) × Shows r dir
    × (read_metrics text at_five r ≡ returns (m, r'))
    × Shows r' dir
    × TellsAll text at_five r dir m
run-read_metrics_example = run-read_metrics text at_five drawn session

-- Two samples in a reservoir of three.
abbrev sizes : Histogram ℕ Milli
sizes = record {
  sample =
      uniform
        (record { reservoir_size = 3; count = 2; values = pos 3 ∷ pos 9 ∷ pos 0 ∷ []; rng = 0 });
  count = 2;
}

abbrev sized : List (Request ℕ Milli)
sized =
    counters "hits" (pos 0) 0
    ∷ histograms "sizes" (pos 0) 0
    ∷ changes 1 (a_histogram sizes)
    ∷ gauges "queue" (pos 3)
    ∷ []

sizes-IsModest : IsModest (get_snapshot sizes)
unfolding get_snapshot snapshot UniformSample.get_snapshot
sizes-IsModest = record {
  samples = pos 3 ∷ pos 9 ∷ [];
  bound = 9;
  made = refl;
  within = (omega arith, (omega arith, tt));
  small = omega arith;
  few = omega arith;
  total_small = omega arith;
}

sized_modest : All HasModest (run drawn metric_registry sized).heap
unfolding run add_gauge get_or_add metric_registry
sized_modest = (tt, (sizes-IsModest, (tt, tt)))

report_to_graphite-Closed_example :
    let r = run drawn metric_registry sized in
    (dir : Directory) × (m : Metrics text) × (r' : MetricRegistry ℕ Milli) × Shows r dir
    × TellsAll text at_five r dir m
    × (read_metrics text at_five r ≡ returns (m, r'))
    × AllComputed (lines text app m)
    × Returns
        (tcp_sender-SenderLaws log).Closed
        (report_to_graphite text at_five (tcp_sender log) app 8 r sender)
report_to_graphite-Closed_example =
    report_to_graphite-Closed Milli-IsIeee text at_five (tcp_sender log) (tcp_sender-SenderLaws log)
      drawn sized app 8 sender sized_modest (IsClosed-Closed log sender sender-IsClosed)

report_to_console_lem_example :
    let r = run drawn metric_registry sized in
    (dir : Directory) × (m : Metrics text) × (texts : List String) × (r' : MetricRegistry ℕ Milli)
    × Shows r dir
    × TellsAll text at_five r dir m
    × (report_to_console text at_five (λ v. "1") reporter "now" r ≡ returns (texts, r'))
    × (length texts
        ≡ 2
          + section_length (length m.gauge_map) 1
          + section_length (length m.counter_map) 1
          + section_length (length m.histogram_map) 11
          + section_length (length m.meter_map) 5
          + section_length (length m.timer_map) 15)
report_to_console_lem_example =
    report_to_console_lem Milli-IsIeee text at_five (λ v. "1") drawn sized reporter "now"
      sized_modest
