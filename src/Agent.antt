-- ===== src/Agent.antt =====
-- crates/agent/src/lib.rs: the pool of connections of the agent. The loop over the pool takes its
-- connections in any order: that of the list. Bind has the loop that gives each inbound TCP connection
-- a stream.
pub mod Pool
pub mod Streams
pub mod Issued
pub mod Holds
pub mod Bind
pub mod Serving
pub mod Refused
mod Tests
use zorya_rs.Base.{
  ℕ, ◌+◌, Bool, true, false, List, [], ◌∷◌, ◌++◌, Option, none, some, if◌then◌else◌, add_u64,
  sub_u64,
}
use mathlib.Core.Logic.{ite}
use zorya_rs.Base.Maps.{Map, lookup, remove, insert, bytes_key}
use zorya_rs.Io.{ErrorKind, would_block, IoResult, ok, err, Poll, ready, pending}
use zorya_rs.Quic.Quiche.{Quiche}
use zorya_rs.Quic.Conn.{QuicConnState}
use zorya_rs.Quic.Conn.Calls.{Reply, close, try_open, poll_stream_open}
use zorya_rs.Quic.Conn.Await.{OpenTurn, await_open}
use zorya_rs.Quic.Conn.Accepts.{Call, run, step}

-- The string that names a connection.
abbrev pub TraceId : Type 0
TraceId = List ℕ

pub record Metrics : Type 0 where
  pub conns : ℕ
  pub streams : ℕ
  pub closed : ℕ

-- The variables of the loop over the pool.
pub record Scan : Type 0 where
  pub metrics : Metrics
  pub closed : List TraceId
  pub stream : Option (TraceId × ℕ)

abbrev pub scan_start : Scan
scan_start = record {
  metrics = record { conns = 0; streams = 0; closed = 0 };
  closed = [];
  stream = none;
}

-- `QuicPool::conns`; the connector is what it answers.
abbrev pub Conns : Quiche → Type 0
Conns Q = Map TraceId (QuicConnState Q)

abbrev pub zero_if_none : Option ℕ → ℕ
zero_if_none none = 0
zero_if_none (some n) = n

-- The answer of `try_open` in the loop.
unfoldable pub outbound : TraceId → IoResult ℕ → Scan → Scan
outbound trace_id (ok stream) x = record x {
  metrics = record x.metrics { streams = add_u64 x.metrics.streams 1 };
  stream = some (trace_id, stream);
}
outbound trace_id (err would_block) x = x
outbound trace_id (err kind) x = record x { closed = x.closed ++ trace_id ∷ [] }

-- `params` is `peer_transport_params`, as far as `initial_max_streams_bidi`.
module _ {Q : Quiche} where
  -- `active_outbound_streams`
  unfoldable pub active_outbound_streams : (Q.Connection → Option ℕ) → QuicConnState Q → Option ℕ
  active_outbound_streams params s = elim (params s.quiche_conn) [
    | none ↦ none
    | some most ↦ some (sub_u64 most (Q.peer_streams_left_bidi s.quiche_conn))
  ]

  -- A stream is asked for where the loop has none yet.
  unfoldable pub try_next :
      Option (TraceId × ℕ) → TraceId → QuicConnState Q → Scan → QuicConnState Q × Scan
  unfolding try_open outbound
  try_next (some p) trace_id s x = (s, x)
  try_next none trace_id s x =
      let reply = try_open s in (reply.state, outbound trace_id reply.answer x)

  -- The body of the loop over the pool.
  unfoldable pub visit :
      (Q.Connection → Option ℕ) → TraceId → QuicConnState Q → Scan → QuicConnState Q × Scan
  unfolding active_outbound_streams try_next
  visit params trace_id s x =
      let active = zero_if_none (active_outbound_streams params s) in
      let metrics = record x.metrics {
        conns = add_u64 x.metrics.conns 1;
        streams = add_u64 x.metrics.streams active;
      } in
      if Q.is_closed s.quiche_conn
      then (
        s,
        record x {
          metrics = record metrics { closed = add_u64 metrics.closed 1 };
          closed = x.closed ++ trace_id ∷ [];
        },
      )
      else try_next x.stream trace_id s (record x { metrics = metrics })

  unfoldable pub scan : (Q.Connection → Option ℕ) → Conns Q → Scan → Conns Q × Scan
  unfolding visit
  scan params [] x = ([], x)
  scan params ((trace_id, s) ∷ conns) x =
      let (s', x') = visit params trace_id s x in
      let (conns', x'') = scan params conns x' in ((trace_id, s') ∷ conns', x'')

  -- `Drop` of `QuicConn`
  unfoldable pub drop_conn : QuicConnState Q → Reply Q (IoResult (Unit {0}))
  unfolding close
  drop_conn s = close 0 s

  abbrev pub dropped : Option (QuicConnState Q) → List (Reply Q (IoResult (Unit {0})))
  dropped none = []
  dropped (some s) = drop_conn s ∷ []

  -- `for id in closed`: the connections that are dropped, and those that stay.
  unfoldable pub removed : List TraceId → Conns Q → List (Reply Q (IoResult (Unit {0}))) × Conns Q
  unfolding lookup remove
  removed [] conns = ([], conns)
  removed (id ∷ ids) conns =
      let (out, conns') = removed ids (remove id conns) in
      (dropped (lookup id conns) ++ out, conns')

-- What `QuicPool::connect` leaves: `none` where it has not answered.
pub record Connected (Q : Quiche) : Type 0 where
  pub answer : Option (IoResult (TraceId × ℕ))
  pub conns : Conns Q
  pub out : List (Reply Q (IoResult (Unit {0})))

module _ {Q : Quiche} where
  -- The new connection has a stream, or an error, or waits for one.
  unfoldable pub pooled :
      TraceId
      → Option (IoResult ℕ) × QuicConnState Q
      → Conns Q
      → List (Reply Q (IoResult (Unit {0})))
      → Connected Q
  unfolding drop_conn insert lookup
  pooled trace_id (none, s) conns out = record { answer = none; conns = conns; out = out }
  pooled trace_id (some (err kind), s) conns out = record {
    answer = some (err kind);
    conns = conns;
    out = out ++ drop_conn s ∷ [];
  }
  pooled trace_id (some (ok stream), s) conns out = record {
    answer = some (ok (trace_id, stream));
    conns = insert trace_id s conns;
    out = out ++ dropped (lookup trace_id conns);
  }

  -- The end of `connect`, on what `connector.connect().timeout(…).await` answers.
  unfoldable pub connect_new :
      Option (IoResult (TraceId × QuicConnState Q))
      → List OpenTurn
      → Conns Q
      → List (Reply Q (IoResult (Unit {0})))
      → Connected Q
  unfolding pooled await_open
  connect_new none turns conns out = record { answer = none; conns = conns; out = out }
  connect_new (some (err kind)) turns conns out = record {
    answer = some (err kind);
    conns = conns;
    out = out;
  }
  connect_new (some (ok (trace_id, s))) turns conns out =
      pooled trace_id (await_open turns s) conns out

  unfoldable pub stream_or_new :
      Option (TraceId × ℕ)
      → Option (IoResult (TraceId × QuicConnState Q))
      → List OpenTurn
      → Conns Q
      → List (Reply Q (IoResult (Unit {0})))
      → Connected Q
  unfolding connect_new
  stream_or_new (some stream) fresh turns conns out = record {
    answer = some (ok stream);
    conns = conns;
    out = out;
  }
  stream_or_new none fresh turns conns out = connect_new fresh turns conns out

  -- `QuicPool::connect`
  unfoldable pub connect :
      (Q.Connection → Option ℕ)
      → Option (IoResult (TraceId × QuicConnState Q))
      → List OpenTurn
      → Conns Q
      → Connected Q
  unfolding scan removed stream_or_new
  connect params fresh turns conns =
      let (conns', x) = scan params conns scan_start in
      let (out, conns'') = removed x.closed conns' in stream_or_new x.stream fresh turns conns'' out
