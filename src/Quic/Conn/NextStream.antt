-- ===== src/Quic/Conn/NextStream.antt =====
-- crates/quic/src/conn.rs: which calls of a connection use up the ids of its own streams.
use zorya_rs.Base.{
  ℕ, ◌+◌, ◌≤◌, ◌<◌, ◌≡◌, refl, ◌∙◌, inl, inr, Bool, List, [], ◌∷◌, Option, none, some, Bool-cases,
  arith, ltb, Outcome, done, panic, ◌^◌,
}
use zorya_rs.Base.Maps.{lookup, nat_key}
use zorya_rs.Io.{ok}
use zorya_rs.Io.Reactor.{ReactorImpl}
use zorya_rs.Quic.Quiche.{Quiche, QResult}
use zorya_rs.Quic.Conn.{
  QuicConnState, closing_recv, readable, readables, readable_waiting, readable_closing, is_incoming,
  poll_conn_stat_events, gather, announce, gather_writable, writables, writable_waiting, make_room,
}
use zorya_rs.Quic.Conn.Calls.{
  poll_recv, close, poll_accept, try_open, poll_stream_open, open_next, close_stream,
  poll_stream_write, poll_stream_read, closed, next_incoming, written, read,
}
use zorya_rs.Quic.Conn.Send.{Gaps, Sent, poll_send}
use zorya_rs.Quic.Conn.SendQueue.{Carried, poll_send-Carried}
use zorya_rs.Quic.Conn.Opens.{opened-ok}
use zorya_rs.Quic.Conn.Accepts.{Call, step, after_send}

abbrev pub next_id : {Q : Quiche} → QuicConnState Q → ℕ
next_id s = s.outbound_bidi_stream_id_next

module _ {Q : Quiche} where
  abbrev pub SameNext : QuicConnState Q → QuicConnState Q → Type 0
  SameNext s s' = next_id s' ≡ next_id s

  readable_closing-SameNext :
      (id : ℕ) (o : Option ℕ) (s : QuicConnState Q) → SameNext s (readable_closing id o s)
  unfolding readable_closing closing_recv
  readable_closing-SameNext id none s = refl
  readable_closing-SameNext id (some t) s = ground arith

  readable_waiting-SameNext :
      (id : ℕ) (o : Option ℕ) (s : QuicConnState Q) → SameNext s (readable_waiting id o s).1
  unfolding readable_waiting
  readable_waiting-SameNext id (some w) s = refl
  readable_waiting-SameNext id none s = readable_closing-SameNext id _ s

  readable-SameNext : (id : ℕ) (s : QuicConnState Q) → SameNext s (readable id s).1
  unfolding readable
  readable-SameNext id s = elim (Bool-cases (is_incoming id s)) [
    | inl e ↦ rw e refl
    | inr e ↦ rw e (readable_waiting-SameNext id _ s)
  ]

  readables-SameNext : (ids : List ℕ) (s : QuicConnState Q) → SameNext s (readables ids s).1
  unfolding readables
  readables-SameNext [] s = refl
  readables-SameNext (id ∷ ids) s =
      readables-SameNext ids (readable id s).1 ∙ readable-SameNext id s

  announce-SameNext : (s : QuicConnState Q) → SameNext s (announce s).1
  unfolding announce
  announce-SameNext s = ground arith

  writable_waiting-SameNext :
      (id : ℕ) (o : Option ℕ) (s : QuicConnState Q) → SameNext s (writable_waiting id o s).1
  unfolding writable_waiting
  writable_waiting-SameNext id none s = refl
  writable_waiting-SameNext id (some w) s = refl

  writables-SameNext : (ids : List ℕ) (s : QuicConnState Q) → SameNext s (writables ids s).1
  unfolding writables
  writables-SameNext [] s = refl
  writables-SameNext (id ∷ ids) s =
      writables-SameNext ids _ ∙ writable_waiting-SameNext id (lookup id s.stream_writable_wakers) s

  make_room-SameNext : (s : QuicConnState Q) → SameNext s (make_room s).1
  unfolding make_room
  make_room-SameNext s = ground arith

  poll_conn_stat_events-SameNext : (s : QuicConnState Q) → SameNext s (poll_conn_stat_events s).1
  unfolding poll_conn_stat_events gather gather_writable
  poll_conn_stat_events-SameNext s =
      let (ids, s₁) = gather s in
      let s₂ = (readables ids s₁).1 in
      let (ids', s₄) = gather_writable (announce s₂).1 in
      make_room-SameNext (writables ids' s₄).1
      ∙ writables-SameNext ids' s₄
      ∙ announce-SameNext s₂
      ∙ readables-SameNext ids s₁

  SameNext-Carried : Carried SameNext
  SameNext-Carried = record {
    same = λ s s' e. e.2;
    trans = λ s s' s'' e f. f ∙ e;
    events = poll_conn_stat_events-SameNext;
  }

  after_send-SameNext :
      (cx : ℕ) (gaps : Gaps) (rest : List Gaps) (s : QuicConnState Q) (r : ReactorImpl)
      (o : Outcome (Sent Q))
      → poll_send cx gaps rest s r ≡ o
      → SameNext s (after_send s o)
  unfolding after_send
  after_send-SameNext cx gaps rest s r (done x) e =
      poll_send-Carried SameNext SameNext-Carried cx gaps rest s r x e
  after_send-SameNext cx gaps rest s r panic e = refl

  -- An id is taken, or none, and where one is answered it is the one that was taken.
  abbrev pub Takes : QuicConnState Q → QuicConnState Q → Type 0
  Takes s s' = next_id s ≤ next_id s'

  pub open_next-Takes :
      (s : QuicConnState Q) → next_id s + 4 < 2 ^ 64 → next_id s < next_id (open_next s).1
  unfolding open_next
  open_next-Takes s small = omega arith

  pub try_open-Takes : (s : QuicConnState Q) → next_id s + 4 < 2 ^ 64 → Takes s (try_open s).state
  unfolding try_open open_next
  try_open-Takes s small = ground arith

  poll_stream_open-Takes :
      (cx : ℕ) (s : QuicConnState Q)
      → next_id s + 4 < 2 ^ 64
      → Takes s (poll_stream_open cx s).state
  unfolding poll_stream_open open_next
  poll_stream_open-Takes cx s small = ground arith

  closed-SameNext : (r : QResult (Unit {0})) (s : QuicConnState Q) → SameNext s (closed r s).state
  unfolding closed
  closed-SameNext (QResult.ok _) s = refl
  closed-SameNext QResult.error_done s = refl
  closed-SameNext QResult.error_other s = refl

  next_incoming-SameNext :
      (cx : ℕ) (queue : List ℕ) (s : QuicConnState Q) → SameNext s (next_incoming cx queue s).state
  unfolding next_incoming
  next_incoming-SameNext cx [] s = refl
  next_incoming-SameNext cx (id ∷ ids) s = refl

  poll_accept-SameNext : (cx : ℕ) (s : QuicConnState Q) → SameNext s (poll_accept cx s).state
  unfolding poll_accept
  poll_accept-SameNext cx s = elim (Bool-cases (Q.is_closed s.quiche_conn)) [
    | inl e ↦ rw e refl
    | inr e ↦ rw e (next_incoming-SameNext cx s.incoming_stream_id_fifo s)
  ]

  close_stream-SameNext :
      (now id : ℕ) (s : QuicConnState Q) → SameNext s (close_stream now id s).state
  unfolding close_stream closing_recv
  close_stream-SameNext now id s = ground arith

  written-SameNext :
      (cx id : ℕ) (r : QResult ℕ) (s : QuicConnState Q) → SameNext s (written cx id r s).state
  unfolding written
  written-SameNext cx id (QResult.ok _) s = refl
  written-SameNext cx id QResult.error_done s = ground arith
  written-SameNext cx id QResult.error_other s = refl

  read-SameNext :
      (cx id : ℕ) (r : QResult (ℕ × Bool)) (s : QuicConnState Q) → SameNext s (read cx id r s).state
  unfolding read
  read-SameNext cx id (QResult.ok _) s = refl
  read-SameNext cx id QResult.error_done s = ground arith
  read-SameNext cx id QResult.error_other s = refl

  -- A call of any method of a connection leaves the id of the next own stream where it is, or raises it,
  -- as long as 64 bits hold it.
  pub step-Takes :
      (call : Call) (s : QuicConnState Q) → next_id s + 4 < 2 ^ 64 → Takes s (step call s).1
  unfolding step poll_recv close poll_stream_write poll_stream_read
  step-Takes (Call.recv buf) s small = omega (
    arith,
    poll_conn_stat_events-SameNext (record s { quiche_conn = (Q.recv buf s.quiche_conn).1 }),
  )
  step-Takes (Call.send cx gaps rest r) s small =
      omega (arith, after_send-SameNext cx gaps rest s r _ refl)
  step-Takes (Call.close_conn code) s small = omega (
    arith,
    closed-SameNext (Q.close code s.quiche_conn).0
        (record s { quiche_conn = (Q.close code s.quiche_conn).1 }),
  )
  step-Takes (Call.accept cx) s small = omega (arith, poll_accept-SameNext cx s)
  step-Takes Call.open_at_once s small = try_open-Takes s small
  step-Takes (Call.open_when_free cx) s small = poll_stream_open-Takes cx s small
  step-Takes (Call.close_one now id) s small = omega (arith, close_stream-SameNext now id s)
  step-Takes (Call.write cx id buf fin) s small =
      let (result, c) = Q.stream_send id buf fin s.quiche_conn in
      omega (arith, written-SameNext cx id result (record s { quiche_conn = c }))
  step-Takes (Call.read_from cx id) s small =
      let (result, c) = Q.stream_recv id s.quiche_conn in
      omega (arith, read-SameNext cx id result (record s { quiche_conn = c }))

  -- The stream that `try_open` answers has the id that was next, and the id that is next then is above.
  pub try_open-Next :
      (id : ℕ) (s : QuicConnState Q)
      → next_id s + 4 < 2 ^ 64
      → (try_open s).answer ≡ ok id
      → (id ≡ next_id s) × (id < next_id (try_open s).state)
  unfolding try_open open_next
  try_open-Next id s small e = elim (Bool-cases (ltb 0 (Q.peer_streams_left_bidi s.quiche_conn))) [
    | inl room ↦
        let same =
          opened-ok (next_id s) id (Q.stream_priority (next_id s) s.quiche_conn).0
            (ground (arith, room, e)) in
        rw room (same, omega (arith, same, small))
    | inr full ↦ ground (arith, full, e)
  ]
