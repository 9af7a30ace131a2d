-- ===== src/Quic/Server.antt =====
-- crates/quic/src/server.rs: the driver of a listener. The parameter `World` is what it calls outside
-- this crate: packet headers and packets of quiche, the validator (a trait object), and the sockets.
-- `spawn` is taken to succeed. A connection id is its bytes; the datagrams that are sent are in `sent`, the last one first.
pub mod Driver
pub mod Listener
pub mod Sending
pub mod Config
pub mod Admission
pub mod Delivery
pub mod Simple
pub mod Tokens
pub mod Retry
pub mod Tests
use zorya_rs.Base.{
  ℕ, Bool, true, false, not, ◌&&◌, List, [], ◌∷◌, Option, none, some, if◌then◌else◌, ltb, length,
  is_some,
}
use zorya_rs.Base.Maps.{Map, bytes_key, lookup, insert, remove}
use zorya_rs.Io.{ErrorKind, other, IoResult, ok, err}
use zorya_rs.Quic.Quiche.{Quiche, QResult}
use zorya_rs.Quic.Conn.{QuicConnState, new}
use zorya_rs.Quic.Conn.Calls.{poll_recv, close}
use zorya_rs.Quic.Conn.Accepts.{Call, step}

-- `quiche::Header`, with the fields that the driver reads.
pub record Header : Type 0 where
  pub version : ℕ
  pub is_initial : Bool
  pub scid : List ℕ
  pub dcid : List ℕ
  pub token : List ℕ

-- `RecvInfo`
pub record RecvInfo : Type 0 where
  pub from : ℕ
  pub to : ℕ

-- What `try_send` on the queue of `QuicListener::accept` returns.
pub data TrySend : Type 0 where
  queued full disconnected : TrySend

pub record World (Q : Quiche) : Type 0 where
  pub from_slice : List ℕ → Option Header
  pub version_is_supported : ℕ → Bool
  pub validate_address : List ℕ → List ℕ → ℕ → List ℕ → Option (List ℕ)
  pub mint_retry_token : List ℕ → List ℕ → List ℕ → ℕ → Option (List ℕ)
  pub retry_packet : Header → List ℕ → List ℕ → Option (List ℕ)
  pub version_packet : Header → Option (List ℕ)
  pub accept : List ℕ → List ℕ → RecvInfo → Option Q.Connection
  pub has_peer_cert : Q.Connection → Bool

-- A turn of the receiving loop: a datagram, and what the random ids, the sending socket and the queue
-- of the listener say in this turn.
pub record Datagram : Type 0 where
  pub buf : List ℕ
  pub recv_info : RecvInfo
  pub random_conn_id : List ℕ
  pub sending_fails : Bool
  pub incoming : TrySend

-- `QuicListenerDriver`, with the connections that were put into the queue of the listener, the last
-- one first.
pub record QuicListenerDriver (Q : Quiche) : Type 0 where
  pub quiche_conn_set : Map (List ℕ) (QuicConnState Q)
  pub handshaking_conn_set : Map (List ℕ) (Unit {0})
  pub max_active_conn_size : ℕ
  pub verify_peer : Bool
  pub accepted : List (List ℕ)
  pub sent : List (List ℕ)

-- The driver that `bind_with` starts.
pub started : (Q : Quiche) → ℕ → Bool → QuicListenerDriver Q
started Q max verify = record {
  quiche_conn_set = [];
  handshaking_conn_set = [];
  max_active_conn_size = max;
  verify_peer = verify;
  accepted = [];
  sent = [];
}

module _ {Q : Quiche} (W : World Q) where
  abbrev Turn : Type 0
  Turn = IoResult (Unit {0}) × QuicListenerDriver Q

  -- `udp_group_sender.send` of the packet that quiche made, if it made one.
  unfoldable pub send_made : Datagram → Option (List ℕ) → QuicListenerDriver Q → Turn
  send_made d none l = (ok tt, l)
  send_made d (some packet) l =
      if d.sending_fails then (err other, l) else (ok tt, record l { sent = packet ∷ l.sent })

  -- `negotiate_version`
  unfoldable pub negotiate_version : Header → Datagram → QuicListenerDriver Q → Turn
  unfolding send_made
  negotiate_version header d l = send_made d (W.version_packet header) l

  unfoldable pub retry_with : Header → Datagram → Option (List ℕ) → QuicListenerDriver Q → Turn
  unfolding send_made
  retry_with header d none l = (err other, l)
  retry_with header d (some token) l = send_made d (W.retry_packet header d.random_conn_id token) l

  -- `retry`
  unfoldable pub retry : Header → Datagram → QuicListenerDriver Q → Turn
  unfolding retry_with
  retry header d l =
      retry_with header d
        (W.mint_retry_token header.scid header.dcid d.random_conn_id d.recv_info.from) l

  -- The end of `initial`: a connection that has read its first packet is added, if there is room.
  unfoldable pub add_conn : Header → Q.Connection → QuicListenerDriver Q → QuicListenerDriver Q
  unfolding new
  add_conn header c l =
      if not (ltb (length l.quiche_conn_set) l.max_active_conn_size) then l else record l {
        handshaking_conn_set =
            if not (Q.is_established c)
            then insert header.dcid tt l.handshaking_conn_set
            else l.handshaking_conn_set;
        quiche_conn_set = insert header.dcid (new Q c) l.quiche_conn_set;
      }

  unfoldable pub first_recv :
      Header → QResult ℕ → Q.Connection → QuicListenerDriver Q → QuicListenerDriver Q
  unfolding add_conn
  first_recv header (QResult.ok _) c l = add_conn header c l
  first_recv header QResult.error_done c l = l
  first_recv header QResult.error_other c l = l

  unfoldable pub accept_conn :
      Header → Datagram → Option Q.Connection → QuicListenerDriver Q → QuicListenerDriver Q
  unfolding first_recv
  accept_conn header d none l = l
  accept_conn header d (some c) l =
      let (result, c') = Q.recv d.buf c in first_recv header result c' l

  unfoldable pub validated :
      Header → Datagram → Option (List ℕ) → QuicListenerDriver Q → QuicListenerDriver Q
  unfolding accept_conn
  validated header d none l = l
  validated header d (some odcid) l =
      accept_conn header d (W.accept header.dcid odcid d.recv_info) l

  unfoldable pub initial_token : Header → Datagram → List ℕ → QuicListenerDriver Q → Turn
  unfolding retry validated
  initial_token header d [] l = retry header d l
  initial_token header d (b ∷ token) l = (
    ok tt,
    validated header d (W.validate_address header.scid header.dcid d.recv_info.from (b ∷ token)) l,
  )

  -- `initial`
  unfoldable pub initial : Header → Datagram → QuicListenerDriver Q → Turn
  unfolding negotiate_version initial_token
  initial header d l =
      if not (W.version_is_supported header.version)
      then negotiate_version header d l
      else initial_token header d header.token l

  -- A `QuicConn` that is dropped closes its connection.
  unfoldable pub drop_conn : List ℕ → QuicConnState Q → QuicListenerDriver Q → QuicListenerDriver Q
  unfolding close
  drop_conn dcid s l = record l {
    quiche_conn_set = insert dcid (close 0 s).state l.quiche_conn_set;
  }

  -- `try_send` of a connection whose handshake has come to its end.
  unfoldable pub try_send : List ℕ → QuicConnState Q → TrySend → QuicListenerDriver Q → Turn
  unfolding drop_conn
  try_send dcid s TrySend.queued l = (ok tt, record l { accepted = dcid ∷ l.accepted })
  try_send dcid s TrySend.full l = (ok tt, drop_conn dcid s l)
  try_send dcid s TrySend.disconnected l = (err other, drop_conn dcid s l)

  unfoldable pub handshaken : List ℕ → Datagram → QuicConnState Q → QuicListenerDriver Q → Turn
  unfolding try_send
  handshaken dcid d s l =
      let l' = record l { handshaking_conn_set = remove dcid l.handshaking_conn_set } in
      if l.verify_peer && not (W.has_peer_cert s.quiche_conn)
      then (ok tt, drop_conn dcid s l')
      else try_send dcid s d.incoming l'

  -- A datagram for a connection of the set.
  unfoldable pub dispatch : List ℕ → Datagram → QuicConnState Q → QuicListenerDriver Q → Turn
  unfolding poll_recv handshaken
  dispatch dcid d s l =
      let s' = (poll_recv d.buf s).state in
      let l' = record l { quiche_conn_set = insert dcid s' l.quiche_conn_set } in
      if is_some (lookup dcid l.handshaking_conn_set) && Q.is_established s'.quiche_conn
      then handshaken dcid d s' l'
      else (ok tt, l')

  unfoldable pub routed : Header → Datagram → Option (QuicConnState Q) → QuicListenerDriver Q → Turn
  unfolding dispatch initial
  routed header d (some s) l = dispatch header.dcid d s l
  routed header d none l = if header.is_initial then initial header d l else (ok tt, l)

  -- A turn of the loop of `run`.
  unfoldable pub parsed : Datagram → Option Header → QuicListenerDriver Q → Turn
  unfolding routed
  parsed d none l = (err other, l)
  parsed d (some header) l = routed header d (lookup header.dcid l.quiche_conn_set) l

  unfoldable pub turn : Datagram → QuicListenerDriver Q → Turn
  unfolding parsed
  turn d l = parsed d (W.from_slice d.buf) l
