-- ===== src/Graphite/Writes.antt =====
-- What `report` of graphite_reporter.cpp writes to the server.
use cppmetrics.Prelude.{
  ℕ, ◌≡◌, refl, true, Option, none, some, List, [], ◌∷◌, String, inl, inr, Option-cases,
}
use cppmetrics.Outcome.{returns, Exception, runtime_error}
use cppmetrics.Sender.{
  Network, live, GraphiteSenderTcp, connect, connect_socket, close, send, write, graphite_line,
  tcp_sender,
}
use cppmetrics.Graphite.{Line, send_line, send_lines, report}
use cppmetrics.Graphite.Reports.{IsClosed}

module _ {N : Type 0} (net : Network N) where
  -- The writes of some texts, up to the first that fails.
  abbrev pub write_all : N → List String → N × Option String
  write_all n [] = (n, none)
  write_all n (text ∷ texts) =
      let (n', failure) = net.write n text in
      let rest = write_all n' texts in
      elim failure [ none ↦ rest | some message ↦ (n', some message) ]

  abbrev pub texts_of : ℕ → List (String × String) → List String
  texts_of timestamp [] = []
  texts_of timestamp ((name, value) ∷ vs) =
      graphite_line name value (net.decimal timestamp) ∷ texts_of timestamp vs

  abbrev pub lines_of : List (String × String) → List Line
  lines_of [] = []
  lines_of ((name, value) ∷ vs) = (name, returns value) ∷ lines_of vs

  abbrev pub thrown_by : Option String → Option Exception
  thrown_by none = none
  thrown_by (some message) = some (runtime_error message)

  -- A connected sender on a state of the network.
  abbrev online : GraphiteSenderTcp N → N → GraphiteSenderTcp N
  online s n = record s { connected = true; socket = live; network = n }

  send_lines-write_all :
      (timestamp : ℕ) (vs : List (String × String)) (s : GraphiteSenderTcp N) (n : N)
      → send_lines (tcp_sender net) timestamp (lines_of vs) (online s n)
        ≡ returns (
          online s (write_all n (texts_of timestamp vs)).0,
          thrown_by (write_all n (texts_of timestamp vs)).1,
        )
  unfolding send_lines send_line send write tcp_sender
  send_lines-write_all timestamp [] s n = refl
  send_lines-write_all timestamp ((name, v) ∷ vs) s n =
      let text = graphite_line name v (net.decimal timestamp) in
      elim (Option-cases (net.write n text).1) [
        | inl ok ↦ rw (write, ok) (send_lines-write_all timestamp vs s (net.write n text).0)
        | inr (message, e) ↦ rw (write, e) refl
      ]

  -- On a closed sender whose host resolves and whose connection is accepted, with values that are all
  -- computed, `report` writes one line for each of them, the name, the value and the time stamp, in
  -- their order, up to the first write that fails, and nothing else; then the sender is closed.
  pub report-write_all :
      (timestamp : ℕ) (vs : List (String × String)) (s : GraphiteSenderTcp N)
      → IsClosed s
      → (net.resolve s.network s.host s.port).1 ≡ none
      → (net.connect (net.resolve s.network s.host s.port).0).1 ≡ none
      → report (tcp_sender net) timestamp (lines_of vs) s
        ≡ returns (record s {
          network =
              (write_all
                (net.connect (net.resolve s.network s.host s.port).0).0
                (texts_of timestamp vs)).0;
        })
  unfolding report connect connect_socket close tcp_sender
  report-write_all timestamp vs s c found accepted =
      let n = (net.connect (net.resolve s.network s.host s.port).0).0 in
      rw (connect, found, c.no_socket)
        (rw (connect_socket, accepted)
          (rw (send_lines-write_all timestamp vs s n) (rw (close, c.unconnected) refl)))
