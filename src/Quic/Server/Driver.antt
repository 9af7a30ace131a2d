-- ===== src/Quic/Server/Driver.antt =====
-- crates/quic/src/server.rs, `run`: the loop of the driver, between the calls of other tasks. A call
-- of a task, the two removals at the end of the sending task of a connection, or a receive that fails, is
-- one event; a connection that is not in the set any more has no events that the driver could see.
pub mod Bounds
use zorya_rs.Base.{
  ℕ, suc, ◌≤◌, ◌≡◌, refl, true, false, not, ◌&&◌, List, [], ◌∷◌, Option, none, some, if◌then◌else◌,
  ltb, ltb→lt, length, is_some, arith, Bool-cases, inl, inr,
}
use zorya_rs.Base.Maps.{
  Map, Key, bytes_key, lookup, insert, remove, lookup-insert, lookup-remove, length-remove-le,
}
use zorya_rs.Io.{ErrorKind, IoResult, ok, err}
use zorya_rs.Quic.Quiche.{Quiche, QResult}
use zorya_rs.Quic.Conn.{QuicConnState, new}
use zorya_rs.Quic.Conn.Calls.{poll_recv, close}
use zorya_rs.Quic.Conn.Accepts.{Call, step}
use zorya_rs.Quic.Server.{
  Header, TrySend, World, Datagram, QuicListenerDriver, send_made, negotiate_version, retry_with,
  retry, add_conn, first_recv, accept_conn, validated, initial_token, initial, drop_conn, try_send,
  handshaken, dispatch, routed, parsed, turn,
}

pub data Event : Type 0 where
  datagram : Datagram → Event
  task : List ℕ → Call → Event
  ended : List ℕ → Event
  failed : ErrorKind → Event

module _ {Q : Quiche} (W : World Q) where
  unfoldable pub called :
      List ℕ → Call → Option (QuicConnState Q) → QuicListenerDriver Q → QuicListenerDriver Q
  unfolding step
  called id call none l = l
  called id call (some s) l = record l {
    quiche_conn_set = insert id (step call s).1 l.quiche_conn_set;
  }

  -- The end of the sending task of a connection.
  unfoldable pub clean : List ℕ → QuicListenerDriver Q → QuicListenerDriver Q
  clean id l = record l {
    handshaking_conn_set = remove id l.handshaking_conn_set;
    quiche_conn_set = remove id l.quiche_conn_set;
  }

  unfoldable pub event : Event → QuicListenerDriver Q → IoResult (Unit {0}) × QuicListenerDriver Q
  unfolding turn called clean
  event (Event.datagram d) l = turn W d l
  event (Event.task id call) l = (ok tt, called id call (lookup id l.quiche_conn_set) l)
  event (Event.ended id) l = (ok tt, clean id l)
  event (Event.failed kind) l = (err kind, l)

  -- An error of a turn ends the loop.
  unfoldable pub go_on :
      IoResult (Unit {0}) × QuicListenerDriver Q
      → IoResult (Unit {0}) × QuicListenerDriver Q
      → IoResult (Unit {0}) × QuicListenerDriver Q
  go_on (ok _, l) later = later
  go_on (err kind, l) later = (err kind, l)

  -- `run`
  unfoldable pub run :
      List Event → QuicListenerDriver Q → IoResult (Unit {0}) × QuicListenerDriver Q
  unfolding event go_on
  run [] l = (ok tt, l)
  run (e ∷ events) l = let later = run events (event e l).1 in go_on (event e l) later
