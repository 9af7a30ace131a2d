-- ===== src/Quic/Client.antt =====
-- crates/quic/src/client.rs: the connector's configuration and the handshake of a client. The two tasks
-- that a client starts once it is connected are in Tasks.
pub mod Await
pub mod Handshake
pub mod Tasks
pub mod Ends
pub mod Rounds
pub mod Progress
mod Tests
use zorya_rs.Base.{
  ℕ, Bool, true, false, List, [], ◌∷◌, Option, none, some, if◌then◌else◌, Outcome, done, panic,
  ◌>>=◌,
}
use zorya_rs.Io.{ErrorKind, timed_out, other, IoResult, ok, err, Poll, ready, pending}
use zorya_rs.Io.Reactor.{ReactorImpl}
use zorya_rs.Io.Await.{Turn, Awaited}
use zorya_rs.Io.Net.Udp
use zorya_rs.Io.Timeout.{timeout_with, drop_timeout}
use zorya_rs.Quic.Quiche.{Quiche, Packet}
use zorya_rs.Quic.Conn.{QuicConnState, new}
use zorya_rs.Quic.Conn.Calls.{poll_recv}
use zorya_rs.Quic.Conn.Await.{SendPoll, await_send, Loop}
use Await.{RecvPoll, await_recv}

-- `QuicConnectConfig`; addresses are numbers, `C` is `quiche::Config`.
pub record QuicConnectConfig (C : Type 0) : Type 0 where
  pub quiche_config : C
  pub server_name : Option (List ℕ)
  pub raddrs : List ℕ

-- `config.raddrs[0]`
unfoldable pub first_raddr : List ℕ → Outcome (IoResult ℕ)
first_raddr [] = panic
first_raddr (raddr ∷ rest) = done (ok raddr)

module _ {C : Type 0} where
  -- `new_with_config`, on the answer of `to_socket_addrs`.
  unfoldable pub new_with_config : IoResult (List ℕ) → C → IoResult (QuicConnectConfig C)
  new_with_config (err kind) config = err kind
  new_with_config (ok addrs) config =
      ok (record { quiche_config = config; server_name = none; raddrs = addrs })

  -- `QuicConnector::new`, with the answer of `quiche::Config::new`.
  unfoldable pub new_connector : IoResult (List ℕ) → IoResult C → IoResult (QuicConnectConfig C)
  unfolding new_with_config
  new_connector (err kind) config = err kind
  new_connector (ok addrs) (err kind) = err other
  new_connector (ok addrs) (ok config) = new_with_config (ok addrs) config

  -- `server_name`
  unfoldable pub server_name :
      List ℕ → IoResult (QuicConnectConfig C) → IoResult (QuicConnectConfig C)
  server_name name (err kind) = err kind
  server_name name (ok config) = ok (record config { server_name = some name })

  unfoldable pub configured : QuicConnectConfig C → IoResult C → IoResult (QuicConnectConfig C)
  configured config (err kind) = err kind
  configured config (ok c) = ok (record config { quiche_config = c })

  -- `quiche_config`, for a function that changes the configuration or fails.
  unfoldable pub quiche_config :
      (C → IoResult C) → IoResult (QuicConnectConfig C) → IoResult (QuicConnectConfig C)
  unfolding configured
  quiche_config f (err kind) = err kind
  quiche_config f (ok config) = configured config (f config.quiche_config)

  -- `quiche_config`, for a function that may panic too.
  unfoldable pub quiche_config_by :
      (C → Outcome (IoResult C))
      → IoResult (QuicConnectConfig C)
      → Outcome (IoResult (QuicConnectConfig C))
  unfolding configured
  quiche_config_by f (err kind) = done (err kind)
  quiche_config_by f (ok config) = f config.quiche_config >>= (λ c. done (configured config c))

  -- The address that `QuicConnector::connect_with` tries, after the shuffle.
  unfoldable pub chosen : (List ℕ → List ℕ) → IoResult (QuicConnectConfig C) → Outcome (IoResult ℕ)
  unfolding first_raddr
  chosen shuffle (err kind) = done (err other)
  chosen shuffle (ok config) = first_raddr (shuffle config.raddrs)

-- What the attempt at the address answers, if there is one.
unfoldable pub tried : {A : Type 0} → (ℕ → Option (IoResult A)) → IoResult ℕ → Option (IoResult A)
tried attempt (err kind) = some (err kind)
tried attempt (ok raddr) = attempt raddr

-- `QuicConnector::connect_with`, where `attempt` is `QuicConn::connect_with` at an address.
unfoldable pub connector_connects :
    {C A : Type 0}
    → (List ℕ → List ℕ)
    → (ℕ → Option (IoResult A))
    → IoResult (QuicConnectConfig C)
    → Outcome (Option (IoResult A))
unfolding chosen tried
connector_connects shuffle attempt connector =
    chosen shuffle connector >>= (λ raddr. done (tried attempt raddr))

-- A turn of the loop of the handshake: the polls of its three awaits, and what `Instant::now` says.
pub record Round : Type 0 where
  pub sends : List SendPoll
  pub writes : List (Turn ℕ)
  pub now : ℕ
  pub timed_recvs : List RecvPoll
  pub recvs : List (Turn (List ℕ × ℕ))

module _ {Q : Quiche} where
  -- The answer of `poll_recv`, which never waits; then the handshake may be over.
  unfoldable pub taken_in :
      (QuicConnState Q → ReactorImpl → Outcome (Loop Q))
      → Poll (IoResult ℕ)
      → QuicConnState Q
      → ReactorImpl
      → Outcome (Loop Q)
  taken_in again pending s r = done (none, s, r)
  taken_in again (ready (err kind)) s r = done (some (err kind), s, r)
  taken_in again (ready (ok n)) s r =
      if Q.is_established s.quiche_conn then done (some (ok tt), s, r) else again s r

  unfoldable pub datagram :
      (QuicConnState Q → ReactorImpl → Outcome (Loop Q))
      → QuicConnState Q
      → Awaited (List ℕ × ℕ)
      → Outcome (Loop Q)
  unfolding taken_in poll_recv
  datagram again s (none, r) = done (none, s, r)
  datagram again s (some (err kind), r) = done (some (err kind), s, r)
  datagram again s (some (ok (buf, from)), r) =
      let reply = poll_recv buf s in taken_in again reply.answer reply.state r

  -- The same for a receive that had a deadline: `TimedOut` goes round the loop.
  unfoldable pub datagram_in_time :
      (QuicConnState Q → ReactorImpl → Outcome (Loop Q))
      → QuicConnState Q
      → Awaited (List ℕ × ℕ)
      → Outcome (Loop Q)
  unfolding datagram
  datagram_in_time again s (some (err timed_out), r) =
      again (record s { quiche_conn = Q.on_timeout s.quiche_conn }) r
  datagram_in_time again s answer = datagram again s answer

  unfoldable pub with_timer :
      (QuicConnState Q → ReactorImpl → Outcome (Loop Q))
      → ℕ
      → List RecvPoll
      → QuicConnState Q
      → Option (ℕ × ReactorImpl)
      → Outcome (Loop Q)
  unfolding await_recv datagram_in_time
  with_timer again socket polls s none = panic
  with_timer again socket polls s (some (timer, r)) = await_recv socket timer polls r >>= λ a.
      datagram_in_time again s (a.0, drop_timeout timer a.1)

  unfoldable pub receive :
      (QuicConnState Q → ReactorImpl → Outcome (Loop Q))
      → ℕ
      → Round
      → Option ℕ
      → QuicConnState Q
      → ReactorImpl
      → Outcome (Loop Q)
  unfolding with_timer datagram
  receive again socket t (some duration) s r =
      with_timer again socket t.timed_recvs s (timeout_with t.now duration r)
  receive again socket t none s r = Udp.recv_from socket t.recvs r >>= datagram again s

  -- What the two calls of `spawn` answer decides whether the connection is returned.
  unfoldable pub tasks_started :
      IoResult (Unit {0}) → IoResult (Unit {0}) → QuicConnState Q → IoResult (QuicConnState Q)
  tasks_started (err kind) spawn_send s = err kind
  tasks_started (ok _) (err kind) s = err kind
  tasks_started (ok _) (ok _) s = ok s

  -- The connection that the handshake leaves.
  unfoldable pub connected :
      IoResult (Unit {0}) → IoResult (Unit {0}) → Loop Q → Awaited (QuicConnState Q)
  unfolding tasks_started
  connected spawn_recv spawn_send (none, s, r) = (none, r)
  connected spawn_recv spawn_send (some (err kind), s, r) = (some (err kind), r)
  connected spawn_recv spawn_send (some (ok _), s, r) =
      (some (tasks_started spawn_recv spawn_send s), r)

-- `timeout` is `quiche::Connection::timeout`.
module _ {Q : Quiche} (timeout : Q.Connection → Option ℕ) where
  unfoldable pub packet_sent :
      (QuicConnState Q → ReactorImpl → Outcome (Loop Q))
      → ℕ
      → Round
      → QuicConnState Q
      → Awaited ℕ
      → Outcome (Loop Q)
  unfolding receive
  packet_sent again socket t s (none, r) = done (none, s, r)
  packet_sent again socket t s (some (err kind), r) = done (some (err kind), s, r)
  packet_sent again socket t s (some (ok n), r) = receive again socket t (timeout s.quiche_conn) s r

  unfoldable pub packet :
      (QuicConnState Q → ReactorImpl → Outcome (Loop Q))
      → ℕ
      → Round
      → Option (IoResult Packet) × QuicConnState Q × ReactorImpl
      → Outcome (Loop Q)
  unfolding packet_sent
  packet again socket t (none, s, r) = done (none, s, r)
  packet again socket t (some (err kind), s, r) = done (some (err kind), s, r)
  packet again socket t (some (ok p), s, r) =
      Udp.send_to socket t.writes r >>= packet_sent again socket t s

  -- The loop of `QuicConn::connect_with`.
  unfoldable pub handshake : ℕ → List Round → QuicConnState Q → ReactorImpl → Outcome (Loop Q)
  unfolding await_send packet
  handshake socket [] s r = done (none, s, r)
  handshake socket (t ∷ rounds) s r =
      await_send t.sends s r >>= packet (λ s' r'. handshake socket rounds s' r') socket t

  -- The part after the socket is bound, with its address and what `quiche::connect` returns.
  unfoldable pub connect_on :
      IoResult ℕ
      → IoResult Q.Connection
      → List Round
      → IoResult (Unit {0})
      → IoResult (Unit {0})
      → Option (IoResult ℕ × ReactorImpl)
      → Outcome (Awaited (QuicConnState Q))
  unfolding handshake connected new
  connect_on laddr conn rounds spawn_recv spawn_send none = panic
  connect_on laddr conn rounds spawn_recv spawn_send (some (err kind, r)) =
      done (some (err kind), r)
  connect_on (err kind) conn rounds spawn_recv spawn_send (some (ok socket, r)) =
      done (some (err kind), r)
  connect_on (ok _) (err kind) rounds spawn_recv spawn_send (some (ok socket, r)) =
      done (some (err other), r)
  connect_on (ok _) (ok c) rounds spawn_recv spawn_send (some (ok socket, r)) =
      handshake socket rounds (new Q c) r >>= λ l. done (connected spawn_recv spawn_send l)

  -- `QuicConn::connect_with`, with what mio, the registry, quiche and `spawn` answer.
  unfoldable pub connect_with :
      IoResult (Unit {0})
      → IoResult (Unit {0})
      → IoResult ℕ
      → IoResult Q.Connection
      → List Round
      → IoResult (Unit {0})
      → IoResult (Unit {0})
      → ReactorImpl
      → Outcome (Awaited (QuicConnState Q))
  unfolding connect_on
  connect_with mio registry laddr conn rounds spawn_recv spawn_send r =
      connect_on laddr conn rounds spawn_recv spawn_send (Udp.bind_with mio registry r)
