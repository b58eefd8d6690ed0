-- ===== src/Sender.antt =====
-- src/cppmetrics/graphite/graphite_sender.h, graphite_sender_tcp.h and graphite_sender_tcp.cpp: the
-- connection to a Graphite server. Boost.Asio's resolver, connection and writes are a parameter;
-- the socket belongs to the `io_service` that it was made with, and may not outlive it.
use Prim.Native.String.{◌++◌}
use cppmetrics.Prelude.{ℕ, Bool, true, false, Option, none, some, String, if◌then◌else◌}
use cppmetrics.Outcome.{Outcome, returns, undefined, ◌>>=◌, Exception, runtime_error}

-- Boost.Asio, on the state `N` of the network: the message of an error, or none.
pub record Network (N : Type 0) : Type 0 where
  pub resolve : N → String → String → N × Option String
  pub connect : N → N × Option String
  pub write : N → String → N × Option String
  -- `boost::lexical_cast<std::string>` and `<<` on an unsigned number.
  pub decimal : ℕ → String

-- `socket_`: null, made with the `io_service_` that is there, or made with one destroyed since.
pub data Socket : Type 0 where
  null : Socket
  live : Socket
  dangling : Socket

pub record GraphiteSenderTcp (N : Type 0) : Type 0 where
  pub connected : Bool
  pub host : String
  pub port : String
  pub socket : Socket
  pub network : N

-- A call that may throw: the state that it leaves, and the exception.
abbrev pub Attempt : Type 0 → Type 0
Attempt S = Outcome (S × Option Exception)

-- What follows a call, unless it threw.
abbrev pub and_then : {S : Type 0} → Attempt S → (S → Attempt S) → Attempt S
and_then o f = o >>= λ (s, thrown). elim thrown [ none ↦ f s | some e ↦ returns (s, some e) ]

-- The class `GraphiteSender`, on the state `S` of its object.
pub record GraphiteSender (S : Type 0) : Type 0 where
  pub connect : S → Attempt S
  pub send : S → String → String → ℕ → Attempt S
  pub close : S → Outcome S

-- Destroying a socket after its `io_service` is undefined.
abbrev pub release : Socket → Outcome Socket
release null = returns null
release live = returns null
release dangling = undefined

-- A new `io_service_` destroys the old one.
abbrev pub orphan : Socket → Socket
orphan null = null
orphan live = dangling
orphan dangling = dangling

-- The text of one metric.
abbrev pub graphite_line : String → String → String → String
graphite_line name value timestamp = name ++ (" " ++ (value ++ (" " ++ (timestamp ++ "\n"))))

module _ {N : Type 0} (net : Network N) where
  -- The constructor.
  unfoldable pub graphite_sender_tcp : String → ℕ → N → GraphiteSenderTcp N
  graphite_sender_tcp host port network = record {
    connected = false;
    host = host;
    port = net.decimal port;
    socket = null;
    network = network;
  }

  -- The end of `connect`, with a new socket.
  unfoldable pub connect_socket : GraphiteSenderTcp N → Attempt (GraphiteSenderTcp N)
  connect_socket s =
      let (n, ec) = net.connect s.network in
      elim ec [
        | none ↦ returns (record s { connected = true; socket = live; network = n }, none)
        | some message ↦ returns (
          record s { connected = false; socket = live; network = n },
          some (runtime_error ("Connect() error, reason: " ++ message)),
        )
      ]

  unfoldable pub connect : GraphiteSenderTcp N → Attempt (GraphiteSenderTcp N)
  unfolding connect_socket
  connect s =
      let (n, failure) = net.resolve s.network s.host s.port in
      let resolved : GraphiteSenderTcp N = record s { socket = orphan s.socket; network = n } in
      elim failure [
        | none ↦ release resolved.socket >>= λ socket.
            connect_socket (record resolved { socket = socket })
        | some message ↦ returns (resolved, some (runtime_error message))
      ]

  -- `boost::asio::write`, on the socket that is there.
  unfoldable pub write : GraphiteSenderTcp N → String → Attempt (GraphiteSenderTcp N)
  write s text = elim s.socket [
    | live ↦
        let (n, failure) = net.write s.network text in
        elim failure [
          | none ↦ returns (record s { network = n }, none)
          | some message ↦ returns (record s { network = n }, some (runtime_error message))
        ]
    | _ ↦ undefined
  ]

  unfoldable pub send : GraphiteSenderTcp N → String → String → ℕ → Attempt (GraphiteSenderTcp N)
  unfolding write
  send s name value timestamp =
      if s.connected
      then write s (graphite_line name value (net.decimal timestamp))
      else returns (s, some (runtime_error "Graphite server connection not established."))

module _ {N : Type 0} where
  unfoldable pub close : GraphiteSenderTcp N → Outcome (GraphiteSenderTcp N)
  close s = release s.socket >>= λ socket. returns (record s { connected = false; socket = socket })

-- `GraphiteSenderTCP` as a `GraphiteSender`.
unfoldable pub tcp_sender : {N : Type 0} → Network N → GraphiteSender (GraphiteSenderTcp N)
unfolding connect send close
tcp_sender net = record { connect = connect net; send = send net; close = close }
