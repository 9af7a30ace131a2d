-- ===== src/Agent/Tests.antt =====
-- The pool of the agent at concrete inputs.
use zorya_rs.Base.{ℕ, ◌-◌, ◌≡◌, refl, false, true, List, [], ◌∷◌, Option, none, some, length, arith}
use zorya_rs.Base.Maps.{lookup, remove, insert, bytes_discrete}
use zorya_rs.Io.{IoResult, ok}
use zorya_rs.Quic.Quiche.{Quiche, QResult}
use zorya_rs.Quic.Conn.{QuicConnState, new}
use zorya_rs.Quic.Conn.Calls.{try_open, poll_stream_open, open_next, opened}
use zorya_rs.Quic.Conn.Accepts.{run}
use zorya_rs.Quic.Conn.Await.{OpenTurn, await_open, opened_or_waits}
use zorya_rs.Agent.{
  TraceId, Conns, connect, scan, removed, visit, try_next, outbound, stream_or_new, connect_new,
  pooled, active_outbound_streams,
}
use zorya_rs.Agent.Bind.{Arrival, bind_loop, accepted, serve, spawned, acted_all}
use zorya_rs.Agent.Pool.{first_offer, offer, offered, connect-first_offer}
use zorya_rs.Agent.Holds.{NoneTwice}
use zorya_rs.Agent.Serving.{Fits, streams_of, bind_loop-NoneTwice}

-- A client's connection, as the number of streams that the peer still allows.
unfoldable allows : Quiche
allows = record {
  Connection = ℕ;
  is_server = λ c. false;
  is_closed = λ c. false;
  is_draining = λ c. false;
  is_established = λ c. true;
  peer_streams_left_bidi = λ c. c;
  timeout_instant = λ c. none;
  on_timeout = λ c. c;
  send = λ c. (QResult.error_done, c);
  recv = λ buf c. (QResult.ok (length buf), c);
  close = λ code c. (QResult.ok tt, c);
  stream_priority = λ id c. (QResult.ok tt, c - 1);
  stream_send = λ id buf fin c. (QResult.ok (length buf), c);
  stream_recv = λ id c. (QResult.error_done, c);
  stream_finished = λ id c. false;
  path_event_next = λ c. none;
  stream_readable_next = λ c. none;
  stream_writable_next = λ c. none;
  path_events_left = λ c. 0;
  readable_left = λ c. 0;
  writable_left = λ c. 0;
  data_left = λ id c. 0;
}

two_allowed : QuicConnState allows
unfolding allows new
two_allowed = new allows 2

one_left : QuicConnState allows
unfolding two_allowed
one_left = record two_allowed { quiche_conn = 1; outbound_bidi_stream_id_next = 8 }

abbrev most : allows.Connection → Option ℕ
most c = some 2

abbrev trace : TraceId
trace = 97 ∷ []

abbrev at_once : List OpenTurn
at_once = record { before = []; cx = 9 } ∷ []

none_left : allows.Connection
unfolding allows
none_left = 0

one_pooled : Conns allows
one_pooled = (trace, one_left) ∷ []

first_connect :
    connect {Q = allows} most (some (ok (trace, two_allowed))) at_once []
    ≡ record { answer = some (ok (trace, 4)); conns = one_pooled; out = [] }
unfolding allows two_allowed one_left one_pooled new connect scan removed stream_or_new connect_new
    pooled await_open poll_stream_open open_next opened opened_or_waits run lookup remove insert
    bytes_discrete
first_connect = refl

connect-first_offer_example :
    (connect {Q = allows} most none [] one_pooled).answer ≡ some (ok (trace, 8))
unfolding allows two_allowed one_left one_pooled first_offer offer offered try_open open_next opened
    new
connect-first_offer_example = connect-first_offer most none [] one_pooled (trace, 8) refl

second_connect :
    (connect {Q = allows} most none [] one_pooled).conns
    ≡ (trace, record one_left { quiche_conn = none_left; outbound_bidi_stream_id_next = 12 }) ∷ []
unfolding allows two_allowed one_left one_pooled none_left new connect scan visit try_next outbound
    try_open removed stream_or_new open_next opened active_outbound_streams
second_connect = refl

-- Two inbound connections, the first of which makes the pool connect.
abbrev arrives : ℕ → Option (IoResult (TraceId × QuicConnState allows)) → Arrival allows
arrives inbound fresh = record {
  accept = ok inbound;
  others = [];
  fresh = fresh;
  turns = at_once;
  spawn_backward = ok tt;
  spawn_forward = ok tt;
}

abbrev two_arrivals : List (Arrival allows)
two_arrivals = arrives 3 (some (ok (trace, two_allowed))) ∷ arrives 5 none ∷ []

bind_loop_runs : streams_of (bind_loop most two_arrivals []).1 ≡ (trace, 4) ∷ (trace, 8) ∷ []
unfolding allows two_allowed new connect scan visit try_next outbound try_open removed stream_or_new
    open_next opened active_outbound_streams connect_new pooled await_open poll_stream_open
    opened_or_waits run lookup remove insert bytes_discrete bind_loop accepted serve spawned
    acted_all
bind_loop_runs = refl

two_arrivals-Fits : Fits most two_arrivals [] []
unfolding allows two_allowed new connect scan visit try_next outbound try_open removed stream_or_new
    open_next opened active_outbound_streams connect_new pooled await_open poll_stream_open
    opened_or_waits run lookup remove insert bytes_discrete acted_all
two_arrivals-Fits = (tt, tt, omega arith, ((omega arith, tt), tt, omega arith, tt))

bind_loop-NoneTwice_example : NoneTwice (streams_of (bind_loop most two_arrivals []).1)
bind_loop-NoneTwice_example = bind_loop-NoneTwice most two_arrivals two_arrivals-Fits
