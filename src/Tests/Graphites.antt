-- ===== src/Tests/Graphites.antt =====
-- The Graphite reporter: runs on a network that logs, and the theorems at concrete inputs.
use cppmetrics.Prelude.{
  ℕ, pos, arith, ◌*◌, ◌+◌, ◌≤◌, ◌<◌, ◌≡◌, refl, List, [], ◌∷◌, none, some, String, All, length,
}
use cppmetrics.Outcome.{returns, throws, Returns, runtime_error}
use cppmetrics.Sender.{Network, GraphiteSenderTcp, graphite_sender_tcp, tcp_sender}
use cppmetrics.Double.Milli.{Milli, milli}
use cppmetrics.Graphite.Units.{graphite_reporter_lem}
use cppmetrics.Graphite.Names.{IsPrefixed, lines-IsPrefixed}
use cppmetrics.Graphite.{
  Metered, Format, Metrics, lines, report_gauge, prefix, GraphiteReporter, graphite_reporter,
  report,
}
use cppmetrics.Graphite.Reports.{IsClosed, report-IsClosed}
use cppmetrics.Graphite.Writes.{report-write_all, lines_of}

-- A network that accepts everything and keeps the texts, the last one first.
abbrev pub log : Network (List String)
log = record {
  resolve = λ n host port. (n, none);
  connect = λ n. (n, none);
  write = λ n text. (text ∷ n, none);
  decimal = λ k. "8";
}

abbrev pub sender : GraphiteSenderTcp (List String)
sender = graphite_sender_tcp log "localhost" 2003 []

pub sender-IsClosed : IsClosed sender
unfolding graphite_sender_tcp
sender-IsClosed = record { unconnected = refl; no_socket = refl }

report-IsClosed_example : Returns IsClosed (
    report
      (tcp_sender log)
      8
      (("hits.count", returns "3") ∷ ("queue", throws (runtime_error "gone")) ∷ [])
      sender)
report-IsClosed_example =
    report-IsClosed log 8
      (("hits.count", returns "3") ∷ ("queue", throws (runtime_error "gone")) ∷ []) sender
      (tt, (tt, tt)) sender-IsClosed

report-write_all_example :
    report (tcp_sender log) 8 (lines_of log (("hits.count", "3") ∷ ("queue", "5") ∷ [])) sender
    ≡ returns (record sender { network = "queue 5 8\n" ∷ "hits.count 3 8\n" ∷ [] })
unfolding graphite_sender_tcp
report-write_all_example =
    report-write_all log 8 (("hits.count", "3") ∷ ("queue", "5") ∷ []) sender sender-IsClosed refl
      refl

-- A rate unit of one minute.
graphite_reporter_lem_example :
    (r : GraphiteReporter Milli) × (k : ℕ) × (graphite_reporter "app" (pos 60_000) ≡ returns r)
    × (r.rate_factor ≡ milli.of_int64 (pos k))
    × (k * 60_000 ≤ 1000)
    × (1000 < (k + 1) * 60_000)
    × (1000 < 60_000 → k ≡ 0)
graphite_reporter_lem_example = graphite_reporter_lem "app" 60_000 (omega arith)

-- A stand-in for the text of numbers.
abbrev pub text : Format Milli
text = record { of_double = λ v. "1.5"; of_uint64 = λ n. "3"; of_int64 = λ v. "4" }

abbrev pub app : GraphiteReporter Milli
app = record { prefix_text = "app"; rate_factor = some (pos 1000); duration_factor = some (pos 1) }

abbrev metered : Metered Milli
metered = record {
  count = 3;
  one_minute_rate = some (pos 500);
  five_minute_rate = some (pos 400);
  fifteen_minute_rate = some (pos 300);
  mean_rate = some (pos 200);
}

abbrev metrics : Metrics text
metrics = record {
  counter_map = ("hits", pos 4) ∷ [];
  histogram_map = [];
  meter_map = ("requests", metered) ∷ [];
  timer_map = [];
  gauge_map = ("queue", pos 4) ∷ [];
}

gauge_line : report_gauge text app "queue" (pos 4) ≡ ("app.queue", returns "4") ∷ []
unfolding report_gauge prefix
gauge_line = refl

lines-IsPrefixed_example :
    All (IsPrefixed text app) (lines text app metrics)
    × (length (lines text app metrics) ≡ 1 * 1 + (0 * 11 + (1 * 5 + (0 * 15 + 1 * 1))))
lines-IsPrefixed_example = lines-IsPrefixed text app metrics
