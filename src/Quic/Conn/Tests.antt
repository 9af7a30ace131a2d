-- ===== src/Quic/Conn/Tests.antt =====
-- Connections at concrete inputs.
use zorya_rs.Base.{
  ℕ, ◌≡◌, refl, true, false, List, [], ◌∷◌, ◌⊎◌, Option, none, some, length, elem, arith,
}
use zorya_rs.Base.Heap.{push}
use zorya_rs.Io.{pending}
use zorya_rs.Base.Maps.{lookup, insert, remove, nat_key}
use zorya_rs.Quic.Quiche.{Quiche, QResult}
use zorya_rs.Quic.Conn.{
  QuicConnState, new, gather, path_events, readable_ids, is_incoming, is_local, is_bidi,
  finalize_events, poll_conn_stat_events, readables, readable, readable_waiting, readable_closing,
  announce, gather_writable, writable_ids, writables, make_room,
}
use zorya_rs.Quic.Conn.Calls.{
  poll_recv, poll_stream_read, poll_stream_open, read, poll_accept, next_incoming,
  poll_stream_write, written, close_stream,
}
use zorya_rs.Quic.Conn.Accepts.{Call, run, step, passed_over_lost, run-Passes, Passes}
use zorya_rs.Quic.Conn.Incoming.{FixedRole}
use zorya_rs.Quic.Conn.Wakes.{reader_is_woken}
use zorya_rs.Io.Reactor.{impl_new}
use zorya_rs.Quic.Conn.Send.{Gaps, poll_send, take_timer, send_loop, sent, wait_until, sleep}
use zorya_rs.Quic.Conn.Sleeps.{Asleep, poll_send-Asleep}
use zorya_rs.Quic.Conn.Opens.{waits, opener_stays}
use zorya_rs.Io.Halves.{writer, reader, split, release}
use zorya_rs.Quic.Conn.Halves.{
  HalfCall, drop_stream, half_step, half_run, ended, poll_write, stream_given_up,
}

unfoldable pub next_of : List ℕ → Option (ℕ × List ℕ)
next_of [] = none
next_of (id ∷ ids) = some (id, ids)

-- A server's connection, as the streams that are still to be reported as readable; a packet is the list
-- of the streams that it has data for.
unfoldable pub echo : Quiche
unfolding next_of
echo = record {
  Connection = List ℕ;
  is_server = λ c. true;
  is_closed = λ c. false;
  is_draining = λ c. false;
  is_established = λ c. true;
  peer_streams_left_bidi = λ c. 0;
  timeout_instant = λ c. none;
  on_timeout = λ c. c;
  send = λ c. (QResult.error_done, c);
  recv = λ buf c. (QResult.ok (length buf), buf);
  close = λ code c. (QResult.ok tt, c);
  stream_priority = λ id c. (QResult.ok tt, c);
  stream_send = λ id buf fin c. (QResult.ok (length buf), c);
  stream_recv = λ id c. (QResult.error_done, c);
  stream_finished = λ id c. false;
  path_event_next = λ c. none;
  stream_readable_next = next_of;
  stream_writable_next = λ c. none;
  path_events_left = λ c. 0;
  readable_left = λ c. length c;
  writable_left = λ c. 0;
  data_left = λ id c. 0;
}

abbrev calls : List Call
calls = Call.recv (8 ∷ 4 ∷ []) ∷ Call.accept 1 ∷ Call.recv (12 ∷ []) ∷ Call.accept 1 ∷ []

pub no_streams : QuicConnState echo
unfolding echo new
no_streams = new echo []

pub server_role : FixedRole echo true
unfolding echo
server_role = record { role = λ c. refl }

run_calls : (run calls no_streams).0 ≡ 4 ∷ 8 ∷ []
unfolding echo new no_streams run step poll_recv poll_conn_stat_events gather path_events
    readable_ids push readables readable is_incoming is_bidi is_local readable_waiting
    readable_closing announce gather_writable writable_ids writables make_room poll_accept
    next_incoming lookup insert remove
run_calls = refl

run-Passes_example : Passes true no_streams (run calls no_streams).0 (run calls no_streams).1
run-Passes_example = run-Passes true server_role calls no_streams

-- Stream 8 was seen first.
abbrev seen : QuicConnState echo
seen = record no_streams { inbound_stream_id_current = 8 }

passed_over_lost_example : elem 4 (run (Call.recv (4 ∷ []) ∷ Call.accept 1 ∷ []) seen).0 ≡ false
unfolding no_streams echo new
passed_over_lost_example =
    passed_over_lost true server_role 4 (Call.recv (4 ∷ []) ∷ Call.accept 1 ∷ []) seen (omega arith)
      refl

reader_is_woken_example :
    elem 7 (poll_recv (5 ∷ []) (poll_stream_read 7 5 no_streams).state).woken ≡ true
unfolding no_streams echo new is_incoming is_bidi is_local poll_stream_read read gather path_events
    readable_ids push
reader_is_woken_example = reader_is_woken true server_role 7 5 (5 ∷ []) no_streams refl refl refl

-- Others wait to accept, to read and to write.
abbrev waited : QuicConnState echo
waited = record no_streams {
  fifo_waker = some 1;
  stream_readable_wakers = (4, 5) ∷ [];
  stream_writable_wakers = (4, 6) ∷ [];
}

opener_stays_example :
    let (woken, s') = finalize_events (poll_stream_open 3 waited).state in
    (elem 5 woken ≡ waits 5 waited) × (waits 5 s' ≡ false) × (s'.open_stream_waker ≡ some 3)
unfolding no_streams echo new poll_stream_open
opener_stays_example = opener_stays 3 5 waited refl

quiet : Gaps
quiet = record { before = []; after = [] }

poll_send-Asleep_example :
    Asleep 7 (record no_streams { send_waker = some 7 }) (impl_new 0 20_000_000)
unfolding echo new no_streams poll_send take_timer send_loop sent wait_until sleep
poll_send-Asleep_example =
    poll_send-Asleep 7 quiet (quiet ∷ []) no_streams (impl_new 0 20_000_000)
      (record {
        answer = some pending;
        woken = [];
        state = record no_streams { send_waker = some 7 };
        reactor = impl_new 0 20_000_000;
      })
      refl refl (tt, tt)

-- A task writes to stream 4 and gives up its writer.
abbrev half_calls : List HalfCall
half_calls = HalfCall.write 1 (7 ∷ []) ∷ HalfCall.drop_half writer 30 ∷ []

stream_given_up_example :
    let h = half_run 4 half_calls (split no_streams) in
    let h' = half_step 4 (HalfCall.drop_half reader 50) h in
    (h.drops ≡ 0)
    × (h'.drops ≡ 1)
    × (h'.state.send_waker ≡ none)
    × ((Quiche.stream_finished echo 4 (ended 4 h.state) ≡ true)
        ⊎ (lookup 4 h'.state.closing_stream_set ≡ some 50))
unfolding no_streams echo new split release drop_stream half_step half_run poll_write
    poll_stream_write written close_stream
stream_given_up_example = stream_given_up 4 half_calls reader 50 no_streams refl refl refl
