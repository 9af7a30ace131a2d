-- ===== src/Quic/Conn.antt =====
-- crates/quic/src/conn.rs: `QuicConnState` and the events that its calls pass to waiting tasks. The
-- quiche connection is the parameter `Q`; a waker is the number of its task, and what a function
-- returns as wakers is called by its caller, in this order.
pub mod Calls
pub mod Send
pub mod Loops
pub mod Incoming
pub mod SendQueue
pub mod NextStream
pub mod Accepts
pub mod Sleeps
pub mod Await
pub mod Stopped
pub mod Tests
pub mod Opens
pub mod Halves
pub mod Wakes
use zorya_rs.Base.{
  ℕ, zero, suc, ◌+◌, ◌%◌, ◌/◌, Bool, true, false, ◌&&◌, not, List, [], ◌∷◌, ◌++◌, map, Option, none,
  some, ltb, ◌==◌, if◌then◌else◌,
}
use zorya_rs.Base.Heap.{push}
use zorya_rs.Base.Maps.{Map, lookup, insert, remove, nat_key}
use zorya_rs.Quic.Quiche.{Quiche, QResult}

-- `is_local`; the lowest bit of an id names its initiator.
pub is_local : ℕ → Bool → Bool
is_local stream_id is_server = stream_id % 2 == (if is_server then 1 else 0)

-- `is_bidi`; the bit 0x2 of an id is clear.
pub is_bidi : ℕ → Bool
is_bidi stream_id = stream_id / 2 % 2 == 0

pub record QuicConnState (Q : Quiche) : Type 0 where
  pub quiche_conn : Q.Connection
  pub outbound_bidi_stream_id_next : ℕ
  pub inbound_stream_id_current : ℕ
  pub incoming_stream_id_fifo : List ℕ
  pub stream_readable_wakers : Map ℕ ℕ
  pub stream_writable_wakers : Map ℕ ℕ
  pub send_waker : Option ℕ
  pub fifo_waker : Option ℕ
  pub on_timeout_timer : Option ℕ
  pub open_stream_waker : Option ℕ
  pub closing_stream_set : Map ℕ ℕ

-- `QuicConnDispatcher::new`
unfoldable pub new : (Q : Quiche) → Q.Connection → QuicConnState Q
new Q quiche_conn = record {
  quiche_conn = quiche_conn;
  outbound_bidi_stream_id_next = if Q.is_server quiche_conn then 5 else 4;
  inbound_stream_id_current = 0;
  incoming_stream_id_fifo = [];
  stream_readable_wakers = [];
  stream_writable_wakers = [];
  send_waker = none;
  fifo_waker = none;
  on_timeout_timer = none;
  open_stream_waker = none;
  closing_stream_set = [];
}

-- The waker of an `Option` that is taken.
abbrev pub taken : Option ℕ → List ℕ
taken none = []
taken (some w) = w ∷ []

-- What one read of a closing stream says: `some` ends the loop.
pub closing_read : QResult (ℕ × Bool) → Option Bool
closing_read (QResult.ok (n, fin)) = if fin then some true else none
closing_read QResult.error_done = some false
closing_read QResult.error_other = some true

module _ (Q : Quiche) where
  -- The loop of `closing_recv`, with a turn for each piece of data that is left.
  pub closing_loop : ℕ → ℕ → Q.Connection → Bool × Q.Connection
  unfolding closing_read
  closing_loop zero id c = (false, c)
  closing_loop (suc fuel) id c =
      let (result, c') = Q.stream_recv id c in
      let later = closing_loop fuel id c' in
      elim (closing_read result) [ some closed ↦ (closed, c') | none ↦ later ]

  -- `while let Some(event) = path_event_next()`
  unfoldable pub path_events : ℕ → Q.Connection → Q.Connection
  path_events zero c = c
  path_events (suc fuel) c = elim (Q.path_event_next c) [ none ↦ c | some c' ↦ path_events fuel c' ]

  -- The ids that a `…_next` call yields until it has none, pushed to a heap or in their order.
  unfoldable pub readable_ids : ℕ → List ℕ → Q.Connection → List ℕ × Q.Connection
  readable_ids zero heap c = (heap, c)
  readable_ids (suc fuel) heap c = elim (Q.stream_readable_next c) [
    | none ↦ (heap, c)
    | some (id, c') ↦ readable_ids fuel (push id heap) c'
  ]

  unfoldable pub writable_ids : ℕ → Q.Connection → List ℕ × Q.Connection
  writable_ids zero c = ([], c)
  writable_ids (suc fuel) c = elim (Q.stream_writable_next c) [
    | none ↦ ([], c)
    | some (id, c') ↦ let (ids, c'') = writable_ids fuel c' in (id ∷ ids, c'')
  ]

module _ {Q : Quiche} where
  -- `closing_recv`; its assertion, that quiche calls a stream finished whose end was read, is left out.
  pub closing_recv : ℕ → QuicConnState Q → Bool × QuicConnState Q
  unfolding closing_loop
  closing_recv id s =
      let (closed, c) = closing_loop Q (suc (Q.data_left id s.quiche_conn)) id s.quiche_conn in
      (closed, record s { quiche_conn = c })

  -- A remote bidirectional stream beyond those seen so far.
  pub is_incoming : ℕ → QuicConnState Q → Bool
  unfolding is_bidi is_local
  is_incoming id s =
      is_bidi id
      && (not (is_local id (Q.is_server s.quiche_conn)) && ltb s.inbound_stream_id_current id)

  -- A readable stream that nobody reads, if it is closing.
  pub readable_closing : ℕ → Option ℕ → QuicConnState Q → QuicConnState Q
  unfolding closing_recv
  readable_closing id none s = s
  readable_closing id (some closing_timestamp) s =
      let (closed, s') =
        closing_recv id (record s { closing_stream_set = remove id s.closing_stream_set }) in
      if closed
      then s'
      else record s' { closing_stream_set = insert id closing_timestamp s'.closing_stream_set }

  pub readable_waiting : ℕ → Option ℕ → QuicConnState Q → List ℕ × QuicConnState Q
  unfolding readable_closing
  readable_waiting id (some w) s =
      (w ∷ [], record s { stream_readable_wakers = remove id s.stream_readable_wakers })
  readable_waiting id none s = ([], readable_closing id (lookup id s.closing_stream_set) s)

  -- The body of the loop over readable streams.
  pub readable : ℕ → QuicConnState Q → List ℕ × QuicConnState Q
  unfolding is_incoming readable_waiting
  readable id s =
      if is_incoming id s
      then (
        [],
        record s {
          inbound_stream_id_current = id;
          incoming_stream_id_fifo = s.incoming_stream_id_fifo ++ id ∷ [];
        },
      )
      else readable_waiting id (lookup id s.stream_readable_wakers) s

  unfoldable pub readables : List ℕ → QuicConnState Q → List ℕ × QuicConnState Q
  unfolding readable
  readables [] s = ([], s)
  readables (id ∷ ids) s =
      let (woken, s') = readable id s in
      let (woken', s'') = readables ids s' in (woken ++ woken', s'')

  pub writable_waiting : ℕ → Option ℕ → QuicConnState Q → List ℕ × QuicConnState Q
  writable_waiting id (some w) s =
      (w ∷ [], record s { stream_writable_wakers = remove id s.stream_writable_wakers })
  writable_waiting id none s = ([], s)

  unfoldable pub writables : List ℕ → QuicConnState Q → List ℕ × QuicConnState Q
  unfolding writable_waiting
  writables [] s = ([], s)
  writables (id ∷ ids) s =
      let (woken, s') = writable_waiting id (lookup id s.stream_writable_wakers) s in
      let (woken', s'') = writables ids s' in (woken ++ woken', s'')

  -- The part of `poll_conn_stat_events` up to the queue of readable streams.
  unfoldable pub gather : QuicConnState Q → List ℕ × QuicConnState Q
  unfolding path_events readable_ids
  gather s =
      let c = path_events Q (Q.path_events_left s.quiche_conn) s.quiche_conn in
      let (heap, c') = readable_ids Q (Q.readable_left c) [] c in
      (heap, record s { quiche_conn = c' })

  -- The part on new incoming streams, for a task in `accept`.
  unfoldable pub announce : QuicConnState Q → List ℕ × QuicConnState Q
  announce s = elim s.incoming_stream_id_fifo [
    | [] ↦ ([], s)
    | id ∷ ids ↦ (taken s.fifo_waker, record s { fifo_waker = none })
  ]

  unfoldable pub gather_writable : QuicConnState Q → List ℕ × QuicConnState Q
  unfolding writable_ids
  gather_writable s =
      let (ids, c) = writable_ids Q (Q.writable_left s.quiche_conn) s.quiche_conn in
      (ids, record s { quiche_conn = c })

  -- The part on room for streams, for a task in `open`.
  unfoldable pub make_room : QuicConnState Q → List ℕ × QuicConnState Q
  make_room s =
      if ltb 0 (Q.peer_streams_left_bidi s.quiche_conn)
      then (taken s.open_stream_waker, record s { open_stream_waker = none })
      else ([], s)

  -- `poll_conn_stat_events`
  unfoldable pub poll_conn_stat_events : QuicConnState Q → List ℕ × QuicConnState Q
  unfolding gather readables announce gather_writable writables make_room
  poll_conn_stat_events s =
      let (ids, s₁) = gather s in
      let (woken₁, s₂) = readables ids s₁ in
      let (woken₂, s₃) = announce s₂ in
      let (ids', s₄) = gather_writable s₃ in
      let (woken₃, s₅) = writables ids' s₄ in
      let (woken₄, s₆) = make_room s₅ in (woken₁ ++ (woken₂ ++ (woken₃ ++ woken₄)), s₆)

  -- `finalize_events`
  pub finalize_events : QuicConnState Q → List ℕ × QuicConnState Q
  finalize_events s = (
    taken s.fifo_waker
        ++ (map (λ e. e.1) s.stream_readable_wakers ++ map (λ e. e.1) s.stream_writable_wakers),
    record s { fifo_waker = none; stream_readable_wakers = []; stream_writable_wakers = [] },
  )
