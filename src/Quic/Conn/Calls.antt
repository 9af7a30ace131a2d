-- ===== src/Quic/Conn/Calls.antt =====
-- crates/quic/src/conn.rs: the methods of `QuicConn`, `QuicStream` and `QuicConnDispatcher` but for
-- `poll_send`. A method returns its answer, the wakers that it calls, and the new state.
use zorya_rs.Base.{
  ℕ, Bool, true, ◌||◌, not, List, [], ◌∷◌, ◌++◌, none, some, ltb, if◌then◌else◌, add_u64,
}
use zorya_rs.Base.Maps.{insert, nat_key}
use zorya_rs.Io.{would_block, broken_pipe, other, IoResult, ok, err, Poll, ready, pending}
use zorya_rs.Quic.Quiche.{Quiche, QResult}
use zorya_rs.Quic.Conn.{QuicConnState, taken, closing_recv, poll_conn_stat_events}

-- An answer, the wakers that are called, and the state.
pub record Reply (Q : Quiche) (A : Type 0) : Type 0 where
  pub answer : A
  pub woken : List ℕ
  pub state : QuicConnState Q

received : QResult ℕ → Poll (IoResult ℕ)
received (QResult.ok n) = ready (ok n)
received QResult.error_done = ready (err other)
received QResult.error_other = ready (err other)

unfoldable pub opened : ℕ → QResult (Unit {0}) → IoResult ℕ
opened id (QResult.ok _) = ok id
opened id QResult.error_done = err other
opened id QResult.error_other = err other

module _ {Q : Quiche} where
  abbrev quiet : {A : Type 0} → A → QuicConnState Q → Reply Q A
  quiet a s = record { answer = a; woken = []; state = s }

  -- An answer, with the waker of the sending task taken and called.
  abbrev and_send : {A : Type 0} → A → QuicConnState Q → Reply Q A
  and_send a s = record {
    answer = a;
    woken = taken s.send_waker;
    state = record s { send_waker = none };
  }

  -- `poll_recv` of the packet `buf`
  unfoldable pub poll_recv : List ℕ → QuicConnState Q → Reply Q (Poll (IoResult ℕ))
  unfolding received poll_conn_stat_events
  poll_recv buf s =
      let (result, c) = Q.recv buf s.quiche_conn in
      let (wakers, s') = poll_conn_stat_events (record s { quiche_conn = c }) in
      record {
        answer = received result;
        woken = wakers ++ taken s'.send_waker;
        state = record s' { send_waker = none };
      }

  unfoldable pub closed : QResult (Unit {0}) → QuicConnState Q → Reply Q (IoResult (Unit {0}))
  closed (QResult.ok _) s = and_send (ok tt) s
  closed QResult.error_done s = quiet (ok tt) s
  closed QResult.error_other s = quiet (err other) s

  -- `close`
  unfoldable pub close : ℕ → QuicConnState Q → Reply Q (IoResult (Unit {0}))
  unfolding closed
  close code s =
      let (result, c) = Q.close code s.quiche_conn in closed result (record s { quiche_conn = c })

  unfoldable pub next_incoming : ℕ → List ℕ → QuicConnState Q → Reply Q (Poll (IoResult ℕ))
  next_incoming cx [] s = quiet pending (record s { fifo_waker = some cx })
  next_incoming cx (id ∷ ids) s = quiet (ready (ok id)) (record s { incoming_stream_id_fifo = ids })

  -- `poll_accept`, for the task `cx`; a stream is its id.
  unfoldable pub poll_accept : ℕ → QuicConnState Q → Reply Q (Poll (IoResult ℕ))
  unfolding next_incoming
  poll_accept cx s =
      if Q.is_closed s.quiche_conn
      then quiet (ready (err broken_pipe)) s
      else next_incoming cx s.incoming_stream_id_fifo s

  -- The part that `try_open` and `poll_stream_open` share: the id is used up before quiche is asked.
  unfoldable pub open_next : QuicConnState Q → IoResult ℕ × QuicConnState Q
  unfolding opened
  open_next s =
      let stream_id = s.outbound_bidi_stream_id_next in
      let (result, c) = Q.stream_priority stream_id s.quiche_conn in
      (
        opened stream_id result,
        record s { quiche_conn = c; outbound_bidi_stream_id_next = add_u64 stream_id 4 },
      )

  -- `try_open`
  unfoldable pub try_open : QuicConnState Q → Reply Q (IoResult ℕ)
  unfolding open_next
  try_open s =
      if ltb 0 (Q.peer_streams_left_bidi s.quiche_conn)
      then (let (result, s') = open_next s in quiet result s')
      else quiet (err would_block) s

  -- `poll_stream_open`
  unfoldable pub poll_stream_open : ℕ → QuicConnState Q → Reply Q (Poll (IoResult ℕ))
  unfolding open_next
  poll_stream_open cx s =
      if ltb 0 (Q.peer_streams_left_bidi s.quiche_conn)
      then (let (result, s') = open_next s in quiet (ready result) s')
      else quiet pending (record s { open_stream_waker = some cx })

  -- `close_stream` of the stream `id`, at the instant `now`; its answer is always `Ok(())`.
  unfoldable pub close_stream : ℕ → ℕ → QuicConnState Q → Reply Q (IoResult (Unit {0}))
  unfolding closing_recv
  close_stream now id s =
      if Q.is_closed s.quiche_conn
      then quiet (ok tt) s
      else let s' = record s { quiche_conn = (Q.stream_send id [] true s.quiche_conn).1 } in
        let s'' =
          if not (Q.stream_finished id s'.quiche_conn)
          then record s' { closing_stream_set = insert id now s'.closing_stream_set }
          else (closing_recv id s').1 in
        and_send (ok tt) s''

  unfoldable pub written : ℕ → ℕ → QResult ℕ → QuicConnState Q → Reply Q (Poll (IoResult ℕ))
  written cx id (QResult.ok n) s = and_send (ready (ok n)) s
  written cx id QResult.error_done s =
      if Q.is_draining s.quiche_conn || Q.is_closed s.quiche_conn
      then quiet (ready (err broken_pipe)) s
      else quiet pending
          (record s { stream_writable_wakers = insert id cx s.stream_writable_wakers })
  written cx id QResult.error_other s = quiet (ready (err other)) s

  -- `poll_stream_write` of the bytes `buf` to the stream `id`
  unfoldable pub poll_stream_write :
      ℕ → ℕ → List ℕ → Bool → QuicConnState Q → Reply Q (Poll (IoResult ℕ))
  unfolding written
  poll_stream_write cx id buf fin s =
      let (result, c) = Q.stream_send id buf fin s.quiche_conn in
      written cx id result (record s { quiche_conn = c })

  unfoldable pub read :
      ℕ → ℕ → QResult (ℕ × Bool) → QuicConnState Q → Reply Q (Poll (IoResult (ℕ × Bool)))
  read cx id (QResult.ok data') s = and_send (ready (ok data')) s
  read cx id QResult.error_done s =
      if Q.is_draining s.quiche_conn || Q.is_closed s.quiche_conn
      then quiet (ready (ok (0, true))) s
      else quiet pending
          (record s { stream_readable_wakers = insert id cx s.stream_readable_wakers })
  read cx id QResult.error_other s = quiet (ready (err other)) s

  -- `poll_stream_read` from the stream `id`
  unfoldable pub poll_stream_read : ℕ → ℕ → QuicConnState Q → Reply Q (Poll (IoResult (ℕ × Bool)))
  unfolding read
  poll_stream_read cx id s =
      let (result, c) = Q.stream_recv id s.quiche_conn in
      read cx id result (record s { quiche_conn = c })
