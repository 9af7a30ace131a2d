-- ===== src/Quic/Server/Admission.antt =====
-- crates/quic/src/server.rs: which datagrams add a connection to the set of the driver.
use zorya_rs.Base.{
  ℕ, ◌<◌, ◌≡◌, refl, ap, true, false, List, [], ◌∷◌, Option, none, some, ltb, length, is_some,
  arith, Bool-cases, inl, inr,
}
use zorya_rs.Base.Maps.{bytes_key, lookup, insert, remove, bytes_discrete, lookup-insert}
use zorya_rs.Quic.Quiche.{Quiche, QResult}
use zorya_rs.Quic.Conn.{QuicConnState, new}
use zorya_rs.Quic.Conn.Calls.{poll_recv, close}
use zorya_rs.Quic.Server.{
  Header, TrySend, World, Datagram, QuicListenerDriver, send_made, negotiate_version, retry_with,
  retry, add_conn, first_recv, accept_conn, validated, initial_token, initial, drop_conn, try_send,
  handshaken, dispatch, routed, parsed, turn,
}

module _ {Q : Quiche} (W : World Q) where
  -- The connection `id` that the datagram adds: its address was validated, and there was room.
  abbrev pub Admitted : Datagram → QuicListenerDriver Q → List ℕ → Header → Type 0
  Admitted d l id header =
      (header.dcid ≡ id)
      × ((odcid : List ℕ) × (W.validate_address header.scid header.dcid d.recv_info.from
              header.token
            ≡ some odcid))
      × (length l.quiche_conn_set < l.max_active_conn_size)

  abbrev Admits : Header → Datagram → QuicListenerDriver Q → QuicListenerDriver Q → Type 0
  Admits header d l l' =
      (id : List ℕ)
      → is_some (lookup id l.quiche_conn_set) ≡ false
      → is_some (lookup id l'.quiche_conn_set) ≡ true
      → Admitted d l id header

  same-Admits :
      (header : Header) (d : Datagram) (l l' : QuicListenerDriver Q)
      → l'.quiche_conn_set ≡ l.quiche_conn_set
      → Admits header d l l'
  same-Admits header d l l' e id f t = ground (arith, e)

  add_conn-Admits :
      (header : Header) (d : Datagram) (odcid : List ℕ) (c : Q.Connection)
      (l : QuicListenerDriver Q)
      → W.validate_address header.scid header.dcid d.recv_info.from header.token ≡ some odcid
      → Admits header d l (add_conn W header c l)
  unfolding add_conn
  add_conn-Admits header d odcid c l v id f t =
      let room = Bool-cases (ltb (length l.quiche_conn_set) l.max_active_conn_size) in
      let there = lookup-insert header.dcid id (new Q c) l.quiche_conn_set in
      (ground (arith, there), (odcid, v), ground arith)

  first_recv-Admits :
      (header : Header) (d : Datagram) (odcid : List ℕ) (r : QResult ℕ) (c : Q.Connection)
      (l : QuicListenerDriver Q)
      → W.validate_address header.scid header.dcid d.recv_info.from header.token ≡ some odcid
      → Admits header d l (first_recv W header r c l)
  unfolding first_recv
  first_recv-Admits header d odcid (QResult.ok _) c l v = add_conn-Admits header d odcid c l v
  first_recv-Admits header d odcid QResult.error_done c l v = same-Admits header d l l refl
  first_recv-Admits header d odcid QResult.error_other c l v = same-Admits header d l l refl

  accept_conn-Admits :
      (header : Header) (d : Datagram) (odcid : List ℕ) (o : Option Q.Connection)
      (l : QuicListenerDriver Q)
      → W.validate_address header.scid header.dcid d.recv_info.from header.token ≡ some odcid
      → Admits header d l (accept_conn W header d o l)
  unfolding accept_conn
  accept_conn-Admits header d odcid none l v = same-Admits header d l l refl
  accept_conn-Admits header d odcid (some c) l v = first_recv-Admits header d odcid _ _ l v

  validated-Admits :
      (header : Header) (d : Datagram) (o : Option (List ℕ)) (l : QuicListenerDriver Q)
      → W.validate_address header.scid header.dcid d.recv_info.from header.token ≡ o
      → Admits header d l (validated W header d o l)
  unfolding validated
  validated-Admits header d none l v = same-Admits header d l l refl
  validated-Admits header d (some odcid) l v = accept_conn-Admits header d odcid _ l v

  send_made-same :
      (d : Datagram) (o : Option (List ℕ)) (l : QuicListenerDriver Q)
      → (send_made W d o l).1.quiche_conn_set ≡ l.quiche_conn_set
  unfolding send_made
  send_made-same d none l = refl
  send_made-same d (some packet) l = ground arith

  retry_with-same :
      (header : Header) (d : Datagram) (o : Option (List ℕ)) (l : QuicListenerDriver Q)
      → (retry_with W header d o l).1.quiche_conn_set ≡ l.quiche_conn_set
  unfolding retry_with
  retry_with-same header d none l = refl
  retry_with-same header d (some token) l = send_made-same d _ l

  initial_token-Admits :
      (header : Header) (d : Datagram) (token : List ℕ) (l : QuicListenerDriver Q)
      → header.token ≡ token
      → Admits header d l (initial_token W header d token l).1
  unfolding initial_token retry
  initial_token-Admits header d [] l e =
      same-Admits header d l (initial_token W header d [] l).1 (retry_with-same header d _ l)
  initial_token-Admits header d (b ∷ token) l e =
      validated-Admits header d _ l
        (ap (W.validate_address header.scid header.dcid d.recv_info.from) e)

  initial-Admits :
      (header : Header) (d : Datagram) (l : QuicListenerDriver Q)
      → Admits header d l (initial W header d l).1
  unfolding initial negotiate_version
  initial-Admits header d l = elim (Bool-cases (W.version_is_supported header.version)) [
    | inl e ↦ rw e (initial_token-Admits header d header.token l refl)
    | inr e ↦ rw e (
        same-Admits header d l (negotiate_version W header d l).1
          (send_made-same d (W.version_packet header) l))
  ]

  -- A connection that was in the set stays the only one to be inserted.
  abbrev Keeps : List ℕ → QuicListenerDriver Q → QuicListenerDriver Q → Type 0
  Keeps dcid l l' =
      (id : List ℕ) → ¬ (dcid ≡ id) → lookup id l'.quiche_conn_set ≡ lookup id l.quiche_conn_set

  insert-Keeps :
      (dcid : List ℕ) (s : QuicConnState Q) (l : QuicListenerDriver Q)
      → Keeps dcid l (record l { quiche_conn_set = insert dcid s l.quiche_conn_set })
  insert-Keeps dcid s l id ne = ground (arith, lookup-insert dcid id s l.quiche_conn_set)

  try_send-Keeps :
      (dcid : List ℕ) (s : QuicConnState Q) (t : TrySend) (l : QuicListenerDriver Q)
      → Keeps dcid l (try_send W dcid s t l).1
  unfolding try_send drop_conn
  try_send-Keeps dcid s TrySend.queued l id ne = refl
  try_send-Keeps dcid s TrySend.full l id ne = insert-Keeps dcid _ l id ne
  try_send-Keeps dcid s TrySend.disconnected l id ne = insert-Keeps dcid _ l id ne

  handshaken-Keeps :
      (dcid : List ℕ) (d : Datagram) (s : QuicConnState Q) (l : QuicListenerDriver Q)
      → Keeps dcid l (handshaken W dcid d s l).1
  unfolding handshaken drop_conn
  handshaken-Keeps dcid d s l id ne =
      let l' : QuicListenerDriver Q = record l {
        handshaking_conn_set = remove dcid l.handshaking_conn_set;
      } in
      let sent = try_send-Keeps dcid s d.incoming l' id ne in
      let dropped = insert-Keeps dcid (close 0 s).state l' id ne in ground (arith, sent, dropped)

  dispatch-Keeps :
      (dcid : List ℕ) (d : Datagram) (s : QuicConnState Q) (l : QuicListenerDriver Q)
      → Keeps dcid l (dispatch W dcid d s l).1
  unfolding dispatch
  dispatch-Keeps dcid d s l id ne =
      let s' = (poll_recv d.buf s).state in
      let l' : QuicListenerDriver Q = record l {
        quiche_conn_set = insert dcid s' l.quiche_conn_set;
      } in
      let received = insert-Keeps dcid s' l id ne in
      let sent = handshaken-Keeps dcid d s' l' id ne in ground (arith, received, sent)

  routed-Admits :
      (header : Header) (d : Datagram) (o : Option (QuicConnState Q)) (l : QuicListenerDriver Q)
      → lookup header.dcid l.quiche_conn_set ≡ o
      → Admits header d l (routed W header d o l).1
  unfolding routed
  routed-Admits header d (some s) l e id f t = elim (bytes_discrete header.dcid id) [
    | yes same ↦ ground (arith, same, e, f)
    | no ne ↦ ground (arith, dispatch-Keeps header.dcid d s l id ne, f, t)
  ]
  routed-Admits header d none l e id f t = elim (Bool-cases header.is_initial) [
    | inl i ↦ initial-Admits header d l id f (ground (arith, i, t))
    | inr n ↦ same-Admits header d l l refl id f (ground (arith, n, t))
  ]

  parsed_admits :
      (d : Datagram) (o : Option Header) (l : QuicListenerDriver Q) (id : List ℕ)
      → W.from_slice d.buf ≡ o
      → is_some (lookup id l.quiche_conn_set) ≡ false
      → is_some (lookup id (parsed W d o l).1.quiche_conn_set) ≡ true
      → (header : Header) × (W.from_slice d.buf ≡ some header) × Admitted d l id header
  unfolding parsed
  parsed_admits d none l id e f t = ground (arith, f, t)
  parsed_admits d (some header) l id e f t = (header, e, routed-Admits header d _ l refl id f t)

  -- A datagram adds a connection only if it has a header with the id of that connection as its
  -- destination, the validator accepted the header's token for the sender's address, and there were
  -- fewer than `max_active_conn_size` connections.
  pub turn_admits :
      (d : Datagram) (l : QuicListenerDriver Q) (id : List ℕ)
      → is_some (lookup id l.quiche_conn_set) ≡ false
      → is_some (lookup id (turn W d l).1.quiche_conn_set) ≡ true
      → (header : Header) × (W.from_slice d.buf ≡ some header) × Admitted d l id header
  unfolding turn
  turn_admits d l id f t = parsed_admits d (W.from_slice d.buf) l id refl f t
