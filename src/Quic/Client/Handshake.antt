-- ===== src/Quic/Client/Handshake.antt =====
-- crates/quic/src/client.rs: what the connector and the handshake answer.
use mathlib.Core.List.{Perm}
use mathlib.Core.List.Perm
use zorya_rs.Base.{
  ℕ, ◌≡◌, ap, refl, inl, inr, true, List, [], ◌∷◌, Option, none, some, Outcome, done, panic, OnDone,
  OnDone-bind, OnDone-then, OnDone-at, Bool-cases,
}
use zorya_rs.Io.{timed_out, IoResult, ok, err, Poll, ready, pending}
use zorya_rs.Io.Reactor.{ReactorImpl}
use zorya_rs.Io.Await.{Awaited}
use zorya_rs.Io.Net.Udp
use zorya_rs.Io.Timeout.{timeout_with, drop_timeout}
use zorya_rs.Quic.Quiche.{Quiche, Packet}
use zorya_rs.Quic.Conn.{QuicConnState, new}
use zorya_rs.Quic.Conn.Await.{await_send}
use zorya_rs.Quic.Client.Await.{await_recv}
use zorya_rs.Quic.Client.{
  Round, Loop, taken_in, datagram, datagram_in_time, with_timer, receive, packet_sent, packet,
  handshake, connected, connect_on, tasks_started, connect_with, QuicConnectConfig, new_with_config,
  new_connector, server_name, quiche_config, configured, chosen, first_raddr,
}

-- A loop that has ended well has an established connection.
abbrev Established : (Q : Quiche) → Loop Q → Type 0
Established Q (none, s, r) = Unit
Established Q (some (err kind), s, r) = Unit
Established Q (some (ok _), s, r) = Q.is_established s.quiche_conn ≡ true

abbrev IsEstablished : (Q : Quiche) → Awaited (QuicConnState Q) → Type 0
IsEstablished Q (none, r) = Unit
IsEstablished Q (some (err kind), r) = Unit
IsEstablished Q (some (ok s), r) = Q.is_established s.quiche_conn ≡ true

-- The rest of the loop ends well with an established connection only.
abbrev Again : (Q : Quiche) → (QuicConnState Q → ReactorImpl → Outcome (Loop Q)) → Type 0
Again Q again = (s : QuicConnState Q) (r : ReactorImpl) → OnDone (Established Q) (again s r)

module _ {Q : Quiche} where
  connected-IsEstablished :
      (a b : IoResult (Unit {0})) (l : Loop Q) → Established Q l → IsEstablished Q (connected a b l)
  unfolding connected tasks_started
  connected-IsEstablished a b (none, s, r) h = tt
  connected-IsEstablished a b (some (err kind), s, r) h = tt
  connected-IsEstablished (err kind) b (some (ok _), s, r) h = tt
  connected-IsEstablished (ok _) (err kind) (some (ok _), s, r) h = tt
  connected-IsEstablished (ok _) (ok _) (some (ok _), s, r) h = h

  module _ (again : QuicConnState Q → ReactorImpl → Outcome (Loop Q)) (h : Again Q again) where
    taken_in-Established :
        (answer : Poll (IoResult ℕ)) (s : QuicConnState Q) (r : ReactorImpl)
        → OnDone (Established Q) (taken_in again answer s r)
    unfolding taken_in
    taken_in-Established pending s r = tt
    taken_in-Established (ready (err kind)) s r = tt
    taken_in-Established (ready (ok n)) s r = elim (Bool-cases (Q.is_established s.quiche_conn)) [
      | inl e ↦ rw e e
      | inr e ↦ rw e (h s r)
    ]

    datagram-Established :
        (s : QuicConnState Q) (a : Awaited (List ℕ × ℕ))
        → OnDone (Established Q) (datagram again s a)
    unfolding datagram
    datagram-Established s (none, r) = tt
    datagram-Established s (some (err kind), r) = tt
    datagram-Established s (some (ok p), r) = taken_in-Established _ _ r

    datagram_in_time-Established :
        (s : QuicConnState Q) (a : Awaited (List ℕ × ℕ))
        → OnDone (Established Q) (datagram_in_time again s a)
    unfolding datagram_in_time
    datagram_in_time-Established s (some (err timed_out), r) = h _ r
    datagram_in_time-Established s answer = datagram-Established s answer

    with_timer-Established :
        (socket : ℕ) (t : Round) (s : QuicConnState Q) (o : Option (ℕ × ReactorImpl))
        → OnDone (Established Q) (with_timer again socket t.timed_recvs s o)
    unfolding with_timer
    with_timer-Established socket t s none = tt
    with_timer-Established socket t s (some (timer, r)) =
        OnDone-bind (Established Q) (await_recv socket timer t.timed_recvs r) _
          (λ a. datagram_in_time-Established s (a.0, drop_timeout timer a.1))

    receive-Established :
        (socket : ℕ) (t : Round) (deadline : Option ℕ) (s : QuicConnState Q) (r : ReactorImpl)
        → OnDone (Established Q) (receive again socket t deadline s r)
    unfolding receive
    receive-Established socket t none s r =
        OnDone-bind (Established Q) (Udp.recv_from socket t.recvs r) _ (datagram-Established s)
    receive-Established socket t (some duration) s r =
        with_timer-Established socket t s (timeout_with t.now duration r)

module _ {Q : Quiche} (timeout : Q.Connection → Option ℕ) where
  module _ (again : QuicConnState Q → ReactorImpl → Outcome (Loop Q)) (h : Again Q again) where
    packet_sent-Established :
        (socket : ℕ) (t : Round) (s : QuicConnState Q) (a : Awaited ℕ)
        → OnDone (Established Q) (packet_sent timeout again socket t s a)
    unfolding packet_sent
    packet_sent-Established socket t s (none, r) = tt
    packet_sent-Established socket t s (some (err kind), r) = tt
    packet_sent-Established socket t s (some (ok n), r) =
        receive-Established again h socket t (timeout s.quiche_conn) s r

    packet-Established :
        (socket : ℕ) (t : Round) (x : Option (IoResult Packet) × QuicConnState Q × ReactorImpl)
        → OnDone (Established Q) (packet timeout again socket t x)
    unfolding packet
    packet-Established socket t (none, s, r) = tt
    packet-Established socket t (some (err kind), s, r) = tt
    packet-Established socket t (some (ok p), s, r) =
        OnDone-bind (Established Q) (Udp.send_to socket t.writes r) _
          (packet_sent-Established socket t s)

  handshake-Established :
      (socket : ℕ) (rounds : List Round) (s : QuicConnState Q) (r : ReactorImpl)
      → OnDone (Established Q) (handshake timeout socket rounds s r)
  unfolding handshake
  handshake-Established socket [] s r = tt
  handshake-Established socket (t ∷ rounds) s r =
      OnDone-bind (Established Q) (await_send t.sends s r) _
        (packet-Established _ (λ s' r'. handshake-Established socket rounds s' r') socket t)

module _ (Q : Quiche) (timeout : Q.Connection → Option ℕ) where
  connect_on-IsEstablished :
      (laddr : IoResult ℕ) (conn : IoResult Q.Connection) (rounds : List Round)
      (spawn_recv spawn_send : IoResult (Unit {0})) (o : Option (IoResult ℕ × ReactorImpl))
      → OnDone (IsEstablished Q) (connect_on timeout laddr conn rounds spawn_recv spawn_send o)
  unfolding connect_on
  connect_on-IsEstablished laddr conn rounds a b none = tt
  connect_on-IsEstablished laddr conn rounds a b (some (err kind, r)) = tt
  connect_on-IsEstablished (err kind) conn rounds a b (some (ok socket, r)) = tt
  connect_on-IsEstablished (ok _) (err kind) rounds a b (some (ok socket, r)) = tt
  connect_on-IsEstablished (ok _) (ok c) rounds a b (some (ok socket, r)) =
      OnDone-then (Established Q) (IsEstablished Q) (handshake timeout socket rounds (new Q c) r) _
        (handshake-Established timeout socket rounds (new Q c) r) (connected-IsEstablished a b)

  -- A connection that `QuicConn::connect_with` answers is established: neither a datagram received, nor
  -- a deadline that passes, ends the handshake before that.
  pub connect_with-IsEstablished :
      (mio registry : IoResult (Unit {0})) (laddr : IoResult ℕ) (conn : IoResult Q.Connection)
      (rounds : List Round) (spawn_recv spawn_send : IoResult (Unit {0})) (r r' : ReactorImpl)
      (s : QuicConnState Q)
      → connect_with timeout mio registry laddr conn rounds spawn_recv spawn_send r
        ≡ done (some (ok s), r')
      → Q.is_established s.quiche_conn ≡ true
  unfolding connect_with
  connect_with-IsEstablished mio registry laddr conn rounds a b r r' s e =
      OnDone-at (IsEstablished Q) _ (some (ok s), r')
        (connect_on-IsEstablished laddr conn rounds a b (Udp.bind_with mio registry r)) e

-- What the connector does with the addresses that it was given: it panics where there are none, and
-- else tries one of them.
abbrev pub Tries : IoResult (List ℕ) → Outcome (IoResult ℕ) → Type 0
Tries addrs panic = addrs ≡ ok []
Tries addrs (done (err kind)) = Unit
Tries addrs (done (ok raddr)) =
    (given : List ℕ) × (rest : List ℕ) × (addrs ≡ ok given) × Perm given (raddr ∷ rest)

first_raddr-Tries : (given l : List ℕ) → Perm given l → Tries (ok given) (first_raddr l)
unfolding first_raddr
first_raddr-Tries given [] p = ap ok (Perm.eq-nil p)
first_raddr-Tries given (raddr ∷ rest) p = (given, rest, refl, p)

module _ {C : Type 0} (shuffle : List ℕ → List ℕ) (h : (l : List ℕ) → Perm l (shuffle l)) where
  configured-Tries :
      (config : QuicConnectConfig C) (c : IoResult C)
      → Tries (ok config.raddrs) (chosen shuffle (configured config c))
  unfolding chosen configured
  configured-Tries config (err kind) = tt
  configured-Tries config (ok c) =
      first_raddr-Tries config.raddrs (shuffle config.raddrs) (h config.raddrs)

  -- A connector that is built from addresses, with a server name and a change of the configuration of
  -- quiche, panics as it connects where there are no addresses, and else tries one of them; the shuffle
  -- is any permutation, and each step may fail.
  pub connector-Tries :
      (addrs : IoResult (List ℕ)) (config : IoResult C) (name : List ℕ) (f : C → IoResult C)
      → Tries addrs
          (chosen shuffle (quiche_config f (server_name name (new_connector addrs config))))
  unfolding chosen quiche_config server_name new_connector new_with_config
  connector-Tries (err kind) config name f = tt
  connector-Tries (ok given) (err kind) name f = tt
  connector-Tries (ok given) (ok c) name f =
      configured-Tries (record { quiche_config = c; server_name = some name; raddrs = given }) (f c)
