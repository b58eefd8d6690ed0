-- ===== src/Graphite/Reports.antt =====
-- `report` of graphite_reporter.cpp on any sender of graphite_sender.h, and on that of
-- graphite_sender_tcp.cpp.
use cppmetrics.Prelude.{
  ℕ, ◌≡◌, refl, true, false, none, some, List, [], ◌∷◌, String, All, inl, inr, Option-cases,
  Bool-cases,
}
use cppmetrics.Outcome.{Outcome, returns, throws, undefined, unfinished, Returns, Returns->>=}
use cppmetrics.Sender.{
  Network, Socket, null, live, dangling, GraphiteSender, GraphiteSenderTcp, Attempt, and_then,
  connect, connect_socket, close, send, write, release, graphite_line, tcp_sender,
}
use cppmetrics.Graphite.{Line, send_line, send_lines, report}

-- A value that the code computes or that throws.
abbrev pub IsSettled : Outcome String → Type 0
IsSettled (returns v) = Unit
IsSettled (throws e) = Unit
IsSettled undefined = ⊥
IsSettled unfinished = ⊥

-- What a reporter relies on: a closed sender can be asked to connect, a sender that was may be asked
-- to send, whether it connected or not, and `close` closes it. None of these is ever undefined.
pub record SenderLaws {S : Type 0} (c : GraphiteSender S) : Type 1 where
  pub Closed : S → Type 0
  pub Asked : S → Type 0
  pub connects : (s : S) → Closed s → Returns (λ a. Asked a.0) (c.connect s)
  pub sends :
      (s : S) (name value : String) (timestamp : ℕ)
      → Asked s
      → Returns (λ a. Asked a.0) (c.send s name value timestamp)
  pub closes : (s : S) → Asked s → Returns Closed (c.close s)

module _ {S : Type 0} (c : GraphiteSender S) (l : SenderLaws c) where
  send_line-Asked :
      (timestamp : ℕ) (x : Line) (s : S)
      → IsSettled x.1
      → l.Asked s
      → Returns (λ a. l.Asked a.0) (send_line c timestamp x s)
  unfolding send_line
  send_line-Asked timestamp (name, returns v) s settled h = l.sends s name v timestamp h
  send_line-Asked timestamp (name, throws e) s settled h = h
  send_line-Asked timestamp (name, undefined) s settled h = absurd settled
  send_line-Asked timestamp (name, unfinished) s settled h = absurd settled

  and_then-Asked :
      (o : Attempt S) (f : S → Attempt S)
      → Returns (λ a. l.Asked a.0) o
      → ((s : S) → l.Asked s → Returns (λ a. l.Asked a.0) (f s))
      → Returns (λ a. l.Asked a.0) (and_then o f)
  and_then-Asked (returns (s, none)) f h k = k s h
  and_then-Asked (returns (s, some e)) f h k = h
  and_then-Asked (throws e) f h k = absurd h
  and_then-Asked undefined f h k = absurd h
  and_then-Asked unfinished f h k = absurd h

  send_lines-Asked :
      (timestamp : ℕ) (ls : List Line) (s : S)
      → All (λ x. IsSettled x.1) ls
      → l.Asked s
      → Returns (λ a. l.Asked a.0) (send_lines c timestamp ls s)
  unfolding send_lines
  send_lines-Asked timestamp [] s settled h = h
  send_lines-Asked timestamp (x ∷ ls) s (settled, rest) h =
      and_then-Asked (send_line c timestamp x s) (send_lines c timestamp ls)
        (send_line-Asked timestamp x s settled h)
        (λ s' h'. send_lines-Asked timestamp ls s' rest h')

  -- On any sender that keeps the laws.
  pub report_lem :
      (timestamp : ℕ) (ls : List Line) (s : S)
      → All (λ x. IsSettled x.1) ls
      → l.Closed s
      → Returns l.Closed (report c timestamp ls s)
  unfolding report
  report_lem timestamp ls s settled closed =
      Returns->>= l.Closed (and_then (c.connect s) (send_lines c timestamp ls)) _
        (and_then-Asked (c.connect s) (send_lines c timestamp ls) (l.connects s closed)
          (λ s' h. send_lines-Asked timestamp ls s' settled h))
        (λ a h. l.closes a.0 h)

abbrev IsFresh : Socket → Type 0
IsFresh null = Unit
IsFresh live = Unit
IsFresh dangling = ⊥

release_fresh : (k : Socket) → IsFresh k → release k ≡ returns null
release_fresh null h = refl
release_fresh live h = refl
release_fresh dangling h = absurd h

module _ {N : Type 0} where
  pub record IsClosed (s : GraphiteSenderTcp N) : Type 0 where
    pub unconnected : s.connected ≡ false
    pub no_socket : s.socket ≡ null

  -- The socket belongs to the `io_service`, and is there while the sender is connected.
  record IsSound (s : GraphiteSenderTcp N) : Type 0 where
    fresh : IsFresh s.socket
    opened : s.connected ≡ true → s.socket ≡ live

  close-IsClosed : (s : GraphiteSenderTcp N) → IsSound s → Returns IsClosed (close s)
  unfolding close
  close-IsClosed s h =
      rw (release_fresh s.socket h.fresh) (record { unconnected = refl; no_socket = refl })

  module _ (net : Network N) where
    connect_socket-IsSound :
        (s : GraphiteSenderTcp N) → Returns (λ a. IsSound a.0) (connect_socket net s)
    unfolding connect_socket
    connect_socket-IsSound s = elim (Option-cases (net.connect s.network).1) [
      | inl ok ↦ rw (connect_socket, ok) (record { fresh = tt; opened = λ h. refl })
      | inr (message, e) ↦ rw (connect_socket, e) (record { fresh = tt; opened = λ h. cc })
    ]

    write-IsSound :
        (s : GraphiteSenderTcp N) (text : String)
        → s.socket ≡ live
        → Returns (λ a. IsSound a.0) (write net s text)
    unfolding write
    write-IsSound s text open_socket =
        let n = (net.write s.network text).0 in
        let sound : IsSound (record s { network = n }) = record {
          fresh = rw open_socket tt;
          opened = λ h. open_socket;
        } in
        elim (Option-cases (net.write s.network text).1) [
          | inl ok ↦ rw (write, open_socket, ok) sound
          | inr (message, e) ↦ rw (write, open_socket, e) sound
        ]

    connect-IsSound :
        (s : GraphiteSenderTcp N) → IsClosed s → Returns (λ a. IsSound a.0) (connect net s)
    unfolding connect connect_socket
    connect-IsSound s c = elim (Option-cases (net.resolve s.network s.host s.port).1) [
      | inl found ↦
          rw (connect, found, c.no_socket)
            (connect_socket-IsSound
              (record s { socket = null; network = (net.resolve s.network s.host s.port).0 }))
      | inr (message, e) ↦
          rw (connect, e, c.no_socket, c.unconnected) (record { fresh = tt; opened = λ h. cc })
    ]

    send-IsSound :
        (s : GraphiteSenderTcp N) (name value : String) (timestamp : ℕ)
        → IsSound s
        → Returns (λ a. IsSound a.0) (send net s name value timestamp)
    unfolding send write
    send-IsSound s name value timestamp h = elim (Bool-cases s.connected) [
      | inl on ↦
          rw (send, on)
            (write-IsSound _ (graphite_line name value (net.decimal timestamp)) (h.opened on))
      | inr off ↦ rw (send, off) (record { fresh = h.fresh; opened = λ e. cc })
    ]

    pub tcp_sender-SenderLaws : SenderLaws (tcp_sender net)
    unfolding tcp_sender
    tcp_sender-SenderLaws = record {
      Closed = IsClosed;
      Asked = IsSound;
      connects = connect-IsSound;
      sends = send-IsSound;
      closes = close-IsClosed;
    }

    pub IsClosed-Closed : (s : GraphiteSenderTcp N) → IsClosed s → tcp_sender-SenderLaws.Closed s
    unfolding tcp_sender-SenderLaws
    IsClosed-Closed s c = c

    -- On a closed TCP sender, and where no value computed is undefined, `report` returns and leaves the
    -- sender closed, whatever the network does: a name that does not resolve, a refused connection, a
    -- failed write and a value that throws all end in `close`, and no exception leaves the call.
    pub report-IsClosed :
        (timestamp : ℕ) (ls : List Line) (s : GraphiteSenderTcp N)
        → All (λ l. IsSettled l.1) ls
        → IsClosed s
        → Returns IsClosed (report (tcp_sender net) timestamp ls s)
    unfolding tcp_sender-SenderLaws
    report-IsClosed timestamp ls s settled c =
        report_lem (tcp_sender net) tcp_sender-SenderLaws timestamp ls s settled c
