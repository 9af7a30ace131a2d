-- ===== src/N3/Tests.antt =====
-- The server's loops at concrete inputs.
use zorya_rs.Base.{◌≡◌, refl, true, List, [], ◌∷◌, ◌++◌, none, arith}
use zorya_rs.Base.Heap.{push}
use zorya_rs.Io.{ok}
use zorya_rs.Quic.Conn.{
  QuicConnState, new, poll_conn_stat_events, gather, path_events, readable_ids, readables, announce,
  gather_writable, writable_ids, writables, make_room,
}
use zorya_rs.Quic.Conn.Calls.{poll_recv, poll_accept, next_incoming}
use zorya_rs.Quic.Conn.Accepts.{Call, run, step}
use zorya_rs.Quic.Conn.Incoming.{Inbound}
use zorya_rs.Quic.Conn.Tests.{echo, server_role}
use zorya_rs.N3.{AcceptTurn, redirect_loop, accepted_or_waits, spawn_channel}
use zorya_rs.N3.Channels.{Ascending}
use zorya_rs.N3.Serving.{redirect_loop_serves}

-- The streams 4 and 8 arrive, and the first is accepted.
abbrev one_turn : List AcceptTurn
one_turn = record { before = Call.recv (4 ∷ 8 ∷ []) ∷ []; cx = 1; spawn = ok tt; now = 0 } ∷ []

abbrev quiet : List AcceptTurn
quiet = record { before = []; cx = 1; spawn = ok tt; now = 0 } ∷ []

no_data : echo.Connection
unfolding echo
no_data = []

-- The connection with the stream 8 in its queue.
one_left : QuicConnState echo
unfolding redirect_loop
one_left = (redirect_loop one_turn (new echo no_data)).2

redirect_loop_serves_example :
    let end = redirect_loop (one_turn ++ quiet) (new echo no_data) in
    (end.0 ≡ none)
    × (end.1 ≡ (4 ∷ []) ++ one_left.incoming_stream_id_fifo)
    × (end.2.incoming_stream_id_fifo ≡ [])
    × Ascending 0 end.1
    × Inbound true end.1
unfolding one_left no_data echo new redirect_loop run step poll_recv poll_accept next_incoming
    accepted_or_waits spawn_channel poll_conn_stat_events gather path_events readable_ids readables
    announce gather_writable writable_ids writables make_room push
redirect_loop_serves_example =
    redirect_loop_serves true server_role one_turn quiet no_data (4 ∷ []) one_left ((refl, tt), tt)
      refl refl ((refl, refl), tt) (omega arith)
