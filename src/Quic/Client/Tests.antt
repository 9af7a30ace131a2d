-- ===== src/Quic/Client/Tests.antt =====
-- A client at concrete inputs.
use zorya_rs.Base.{
  elem, ℕ, ◌≡◌, refl, Bool, true, false, List, [], ◌∷◌, none, some, length, done, panic, ℕ_discrete,
}
use zorya_rs.Base.Maps.{insert, remove, lookup}
use zorya_rs.Io.{ok, err, other, broken_pipe}
use zorya_rs.Io.Reactor.{IoState, ReactorImpl, impl_new}
use zorya_rs.Io.Reactor.Calls.{shutdown, acts, register, register_with}
use zorya_rs.Io.Reactor.PollIo.{poll_io}
use zorya_rs.Io.Reactor.Shutdown.{both}
use zorya_rs.Io.Await.{Turn, await_io, polled}
use zorya_rs.Io.Net.Udp
use zorya_rs.Quic.Quiche.{Quiche, QResult}
use zorya_rs.Quic.Conn.{
  QuicConnState, new, poll_conn_stat_events, gather, path_events, readable_ids, readables, announce,
  gather_writable, writable_ids, writables, make_room,
}
use zorya_rs.Quic.Conn.Calls.{poll_recv}
use zorya_rs.Quic.Conn.Accepts.{run}
use zorya_rs.Quic.Conn.Send.{Gaps, poll_send, take_timer, send_loop, sent}
use zorya_rs.Quic.Client.{
  new_with_config, new_connector, server_name, quiche_config, configured, chosen, first_raddr,
  Round, taken_in, datagram, receive, packet_sent, packet, handshake, connected, connect_on,
  connect_with,
}
use zorya_rs.Quic.Conn.Await.{await_send, sent_or_waits, send_turns, to_send, SendTurn}
use zorya_rs.Quic.Client.Tasks.{client_send_loop_prv, client_send_loop, client_recv_loop}
use zorya_rs.Quic.Client.Ends.{next_poll, sending_ends_receiving}
use zorya_rs.Quic.Client.Handshake.{connect_with-IsEstablished}

connector_panics :
    chosen {C = ℕ}
      (λ l. l)
      (quiche_config (λ c. ok c) (server_name [] (new_connector (ok []) (ok 1))))
    ≡ panic
unfolding chosen quiche_config server_name new_connector new_with_config configured first_raddr
connector_panics = refl

-- A client's connection, which is established by the first packet.
unfoldable one_trip : Quiche
one_trip = record {
  Connection = Bool;
  is_server = λ c. false;
  is_closed = λ c. false;
  is_draining = λ c. false;
  is_established = λ c. c;
  peer_streams_left_bidi = λ c. 0;
  timeout_instant = λ c. none;
  on_timeout = λ c. c;
  send = λ c. (QResult.ok (record { size = 1200; from = 5; to = 7 }), c);
  recv = λ buf c. (QResult.ok (length buf), true);
  close = λ code c. (QResult.ok tt, c);
  stream_priority = λ id c. (QResult.ok tt, c);
  stream_send = λ id buf fin c. (QResult.ok (length buf), c);
  stream_recv = λ id c. (QResult.error_done, c);
  stream_finished = λ id c. false;
  path_event_next = λ c. none;
  stream_readable_next = λ c. none;
  stream_writable_next = λ c. none;
  path_events_left = λ c. 0;
  readable_left = λ c. 0;
  writable_left = λ c. 0;
  data_left = λ id c. 0;
}

no_sockets : ReactorImpl
unfolding impl_new
no_sockets = impl_new 0 20_000_000

bound : ReactorImpl
unfolding no_sockets
bound = record no_sockets {
  token_gen = 1;
  io_readable_stats = (0, IoState.none) ∷ [];
  io_writable_stats = (0, IoState.none) ∷ [];
}

abbrev no_acts : Gaps
no_acts = record { before = []; after = [] }

abbrev trip : Round
trip = record {
  sends = record { before = []; calls = []; cx = 9; gaps = no_acts; rest = no_acts ∷ [] } ∷ [];
  writes =
      record { before = []; cx = 9; attempts = record { result = ok 1200; meanwhile = [] } ∷ [] }
      ∷ [];
  now = 0;
  timed_recvs = [];
  recvs =
      record {
        before = [];
        cx = 9;
        attempts = record { result = ok (1 ∷ 2 ∷ [], 7); meanwhile = [] } ∷ [];
      }
      ∷ [];
}

not_yet : one_trip.Connection
unfolding one_trip
not_yet = false

up : QuicConnState one_trip
unfolding one_trip new
up = new one_trip true

connect_runs :
    connect_with {Q = one_trip}
      (λ c. none)
      (ok tt)
      (ok tt)
      (ok 1)
      (ok not_yet)
      (trip ∷ [])
      (ok tt)
      (ok tt)
      no_sockets
    ≡ done (some (ok up), bound)
unfolding one_trip no_sockets bound up not_yet new connect_with connect_on handshake connected
    packet packet_sent receive datagram taken_in await_send sent_or_waits poll_send take_timer
    send_loop sent poll_recv poll_conn_stat_events gather path_events readable_ids readables run
    announce gather_writable writable_ids writables make_room acts poll_io await_io polled register
    register_with Udp.bind_with Udp.send_to Udp.recv_from insert remove lookup ℕ_discrete
connect_runs = refl

connect_with-IsEstablished_example : one_trip.is_established up.quiche_conn ≡ true
connect_with-IsEstablished_example =
    connect_with-IsEstablished one_trip (λ c. none) (ok tt) (ok tt) (ok 1) (ok not_yet) (trip ∷ [])
      (ok tt) (ok tt) no_sockets bound up connect_runs

-- quiche fails to make a packet, while the task 9 waits for a datagram.
unfoldable broken : Quiche
unfolding one_trip
broken = record one_trip { send = λ c. (QResult.error_other, c) }

established : QuicConnState broken
unfolding broken one_trip new
established = new broken true

waiting : ReactorImpl
unfolding bound
waiting = record bound { io_readable_stats = (0, IoState.waker 9) ∷ [] }

abbrev one_turn : SendTurn
one_turn = record { sends = trip.sends; writes = [] }

loop_ends :
    client_send_loop_prv 0 (one_turn ∷ []) established waiting
    ≡ done (some (err other), established, waiting)
unfolding client_send_loop_prv send_turns to_send await_send sent_or_waits poll_send take_timer
    send_loop sent run acts waiting established broken one_trip new
loop_ends = refl

abbrev woken_poll : Turn (List ℕ × ℕ)
woken_poll = record { before = []; cx = 9; attempts = [] }

sending_ends_receiving_example :
    (client_send_loop 0 (one_turn ∷ []) established waiting
      ≡ done (some (err other), established, (shutdown 0 both waiting).1))
    × (elem 9 (shutdown 0 both waiting).1.woken ≡ true)
    × (client_recv_loop 0 (next_poll woken_poll [] [] ∷ []) established (shutdown 0 both waiting).1
        ≡ done (some (err broken_pipe), established, (shutdown 0 both waiting).1))
unfolding waiting bound no_sockets lookup acts ℕ_discrete
sending_ends_receiving_example =
    sending_ends_receiving 0 9 IoState.none (one_turn ∷ []) (err other) established established
      established waiting waiting (shutdown 0 both waiting).1 woken_poll [] [] [] loop_ends refl
      refl tt refl
