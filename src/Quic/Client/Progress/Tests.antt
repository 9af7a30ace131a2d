-- ===== src/Quic/Client/Progress/Tests.antt =====
-- The way of a handshake at a concrete input: the first receive times out, a datagram comes, a second ends it.
use zorya_rs.Base.{
  ◌==◌, suc, ℕ, ◌≡◌, refl, true, false, List, [], ◌∷◌, none, some, length, Option, done, ℕ_discrete,
  if◌then◌else◌,
}
use zorya_rs.Base.Maps.{insert, remove, lookup}
use zorya_rs.TimingWheel
use zorya_rs.Io.{ok, err, would_block}
use zorya_rs.Io.Reactor.{IoState, ReactorImpl, impl_new}
use zorya_rs.Io.Reactor.Calls.{
  acts, register, register_with, deadline, poll_timeout, timer_first, timer_again,
}
use zorya_rs.Io.Reactor.PollIo.{poll_io}
use zorya_rs.Io.Await.{await_io, polled}
use zorya_rs.Io.Net.Udp
use zorya_rs.Io.Timeout.{timeout_with, drop_timeout, inner_polled, timer_polled}
use zorya_rs.Quic.Quiche.{Quiche, QResult}
use zorya_rs.Quic.Conn.{
  QuicConnState, new, poll_conn_stat_events, gather, path_events, readable_ids, readables, announce,
  gather_writable, writable_ids, writables, make_room,
}
use zorya_rs.Quic.Conn.Calls.{poll_recv}
use zorya_rs.Quic.Conn.Accepts.{run}
use zorya_rs.Quic.Conn.Send.{Gaps, poll_send, take_timer, send_loop, sent}
use zorya_rs.Quic.Client.{Round, connect_with}
use zorya_rs.Quic.Client.Await.{await_recv, RecvPoll, deadline_checked, received_or_waits}
use zorya_rs.Quic.Conn.Await.{await_send, sent_or_waits}
use zorya_rs.Quic.Client.Rounds.{Sends}
use zorya_rs.Quic.Client.Progress.{Arrives, Expires, begun, early, late, connect_with_ends}

-- A connection that counts what has happened to it: a timeout, and then two datagrams.
unfoldable counting : Quiche
counting = record {
  Connection = ℕ;
  is_server = λ c. false;
  is_closed = λ c. false;
  is_draining = λ c. false;
  is_established = λ c. c == 3;
  peer_streams_left_bidi = λ c. 0;
  timeout_instant = λ c. none;
  on_timeout = λ c. suc c;
  send = λ c. (QResult.ok (record { size = 1200; from = 5; to = 7 }), c);
  recv = λ buf c. (QResult.ok (length buf), suc c);
  close = λ code c. (QResult.ok tt, c);
  stream_priority = λ id c. (QResult.ok tt, c);
  stream_send = λ id buf fin c. (QResult.ok (length buf), c);
  stream_recv = λ id c. (QResult.error_done, c);
  stream_finished = λ id c. false;
  path_event_next = λ c. none;
  stream_readable_next = λ c. none;
  stream_writable_next = λ c. none;
  path_events_left = λ c. 0;
  readable_left = λ c. 0;
  writable_left = λ c. 0;
  data_left = λ id c. 0;
}

fresh : ReactorImpl
unfolding impl_new
fresh = impl_new 0 20_000_000

abbrev no_acts : Gaps
no_acts = record { before = []; after = [] }

-- quiche makes a packet, and the socket takes it at once; then a datagram comes.
abbrev round : List RecvPoll → Round
round timed_recvs = record {
  sends = record { before = []; calls = []; cx = 9; gaps = no_acts; rest = no_acts ∷ [] } ∷ [];
  writes =
      record { before = []; cx = 9; attempts = record { result = ok 1200; meanwhile = [] } ∷ [] }
      ∷ [];
  now = 0;
  timed_recvs = timed_recvs;
  recvs =
      record {
        before = [];
        cx = 9;
        attempts = record { result = ok (1 ∷ 2 ∷ [], 7); meanwhile = [] } ∷ [];
      }
      ∷ [];
}

abbrev timed : Round
timed = round (
    record {
      before = [];
      cx = 9;
      attempts = record { result = err would_block; meanwhile = [] } ∷ [];
      gap_before = [];
      gap_after = [];
    }
    ∷ [])

at : ℕ → QuicConnState counting
unfolding counting new
at n = new counting n

-- The reactor once `tokens` tokens are taken, with the socket 0.
reactor : ℕ → IoState → ReactorImpl
unfolding fresh
reactor tokens state = record fresh {
  token_gen = tokens;
  io_readable_stats = (0, state) ∷ [];
  io_writable_stats = (0, IoState.none) ∷ [];
}

at_first : counting.Connection → Option ℕ
unfolding counting
at_first n = if n == 0 then some 0 else none

-- The first half of a round leaves the connection and the reactor.
sends :
    (n : ℕ) (r : ℕ) (state : IoState) (polls : List RecvPoll)
    → Sends {Q = counting} at_first 0
        (round polls)
        (at n)
        (reactor r state)
        (at n)
        (reactor r state)
unfolding counting new at reactor fresh await_send sent_or_waits poll_send take_timer send_loop sent
    run acts poll_io await_io polled Udp.send_to insert remove lookup ℕ_discrete
sends n r state polls = record {
  packet = record { size = 1200; from = 5; to = 7 };
  between = reactor r state;
  size = 1200;
  made = refl;
  written = refl;
}

times_out :
    Expires {Q = counting} at_first 0 timed
      (at 0)
      (reactor 1 IoState.none)
      (at 1)
      (reactor 2 (IoState.waker 9))
unfolding counting new at reactor fresh at_first await_recv deadline_checked received_or_waits
    poll_io inner_polled timer_polled poll_timeout timer_first timer_again timeout_with drop_timeout
    deadline acts insert remove lookup ℕ_discrete TimingWheel.deadline TimingWheel.new
times_out = record {
  waiting = at 0;
  between = reactor 1 IoState.none;
  sends = sends 0 1 IoState.none _;
  duration = 0;
  due = refl;
  late = refl;
  left = refl;
}

goes_on :
    Arrives {Q = counting} at_first 0
      (round [])
      (at 1)
      (reactor 2 (IoState.waker 9))
      (at 2)
      (reactor 2 IoState.none)
unfolding counting new at reactor fresh at_first Udp.recv_from poll_io await_io polled poll_recv
    poll_conn_stat_events gather path_events readable_ids readables run announce gather_writable
    writable_ids writables make_room acts insert remove lookup ℕ_discrete
goes_on = record {
  waiting = at 1;
  between = reactor 2 (IoState.waker 9);
  sends = sends 1 2 (IoState.waker 9) [];
  buf = 1 ∷ 2 ∷ [];
  from = 7;
  came = refl;
  size = 2;
  read = refl;
  left = refl;
}

ends :
    Arrives {Q = counting} at_first 0
      (round [])
      (at 2)
      (reactor 2 (IoState.none))
      (at 3)
      (reactor 2 IoState.none)
unfolding counting new at reactor fresh at_first Udp.recv_from poll_io await_io polled poll_recv
    poll_conn_stat_events gather path_events readable_ids readables run announce gather_writable
    writable_ids writables make_room acts insert remove lookup ℕ_discrete
ends = record {
  waiting = at 2;
  between = reactor 2 (IoState.none);
  sends = sends 2 2 (IoState.none) [];
  buf = 1 ∷ 2 ∷ [];
  from = 7;
  came = refl;
  size = 2;
  read = refl;
  left = refl;
}

binds : Udp.bind_with (ok tt) (ok tt) fresh ≡ some (ok 0, reactor 1 IoState.none)
unfolding reactor fresh Udp.bind_with register register_with insert remove lookup ℕ_discrete
binds = refl

zero : counting.Connection
unfolding counting
zero = 0

waits_still : counting.is_established (at 2).quiche_conn ≡ false
unfolding counting at new
waits_still = refl

established : counting.is_established (at 3).quiche_conn ≡ true
unfolding counting at new
established = refl

connect_with_ends_example :
    connect_with {Q = counting} at_first
      (ok tt)
      (ok tt)
      (ok 1)
      (ok zero)
      (timed ∷ round [] ∷ round [] ∷ [])
      (ok tt)
      (ok tt)
      fresh
    ≡ done (some (ok (at 3)), reactor 2 IoState.none)
unfolding zero at
connect_with_ends_example =
    connect_with_ends counting at_first (ok tt) (ok tt) 1 zero 0 (timed ∷ round [] ∷ []) []
      (round []) (at 2) (at 3) fresh (reactor 1 IoState.none) (reactor 2 IoState.none)
      (reactor 2 IoState.none) binds (late times_out (early goes_on waits_still begun)) ends
      established
