-- ===== src/Quic/Server/Delivery.antt =====
-- crates/quic/src/server.rs: which connections the driver puts into the queue of `accept`.
use zorya_rs.Base.{
  ℕ, ◌≡◌, ◌⊎◌, refl, Bool, true, false, not, ◌&&◌, List, [], ◌∷◌, Option, none, some, is_some,
  arith, Bool-cases, inl, inr,
}
use zorya_rs.Base.Maps.{bytes_key, lookup, insert, remove, lookup-remove, lookup-insert}
use zorya_rs.Quic.Quiche.{Quiche, QResult}
use zorya_rs.Quic.Conn.{QuicConnState}
use zorya_rs.Quic.Conn.Calls.{poll_recv}
use zorya_rs.Quic.Server.{
  Header, TrySend, World, Datagram, QuicListenerDriver, send_made, negotiate_version, retry_with,
  retry, add_conn, first_recv, accept_conn, validated, initial_token, initial, drop_conn, try_send,
  handshaken, dispatch, routed, parsed, turn,
}

module _ {Q : Quiche} (W : World Q) where
  abbrev IsReady : Bool → QuicConnState Q → Type 0
  IsReady verify_peer s =
      (Q.is_established s.quiche_conn ≡ true)
      × ((verify_peer && not (W.has_peer_cert s.quiche_conn)) ≡ false)

  abbrev Ready : List ℕ → QuicListenerDriver Q → Type 0
  Ready id l =
      (s : QuicConnState Q) × (lookup id l.quiche_conn_set ≡ some s) × IsReady l.verify_peer s

  -- The queue got the connection `id`, which was in its handshake and is no more. It stays in the set
  -- of all connections, is established and, where the listener verifies its peers, has the
  -- certificate of its peer.
  abbrev pub Delivers : List ℕ → QuicListenerDriver Q → QuicListenerDriver Q → Type 0
  Delivers id l l' =
      (l'.accepted ≡ id ∷ l.accepted)
      × (is_some (lookup id l.handshaking_conn_set) ≡ true)
      × (lookup id l'.handshaking_conn_set ≡ none)
      × Ready id l'

  abbrev Same : QuicListenerDriver Q → QuicListenerDriver Q → Type 0
  Same l l' = l'.accepted ≡ l.accepted

  add_conn-Same :
      (header : Header) (c : Q.Connection) (l : QuicListenerDriver Q)
      → Same l (add_conn W header c l)
  unfolding add_conn
  add_conn-Same header c l = ground arith

  first_recv-Same :
      (header : Header) (r : QResult ℕ) (c : Q.Connection) (l : QuicListenerDriver Q)
      → Same l (first_recv W header r c l)
  unfolding first_recv
  first_recv-Same header (QResult.ok _) c l = add_conn-Same header c l
  first_recv-Same header QResult.error_done c l = refl
  first_recv-Same header QResult.error_other c l = refl

  accept_conn-Same :
      (header : Header) (d : Datagram) (o : Option Q.Connection) (l : QuicListenerDriver Q)
      → Same l (accept_conn W header d o l)
  unfolding accept_conn
  accept_conn-Same header d none l = refl
  accept_conn-Same header d (some c) l = first_recv-Same header _ _ l

  validated-Same :
      (header : Header) (d : Datagram) (o : Option (List ℕ)) (l : QuicListenerDriver Q)
      → Same l (validated W header d o l)
  unfolding validated
  validated-Same header d none l = refl
  validated-Same header d (some odcid) l = accept_conn-Same header d _ l

  send_made-Same :
      (d : Datagram) (o : Option (List ℕ)) (l : QuicListenerDriver Q) → Same l (send_made W d o l).1
  unfolding send_made
  send_made-Same d none l = refl
  send_made-Same d (some packet) l = ground arith

  retry_with-Same :
      (header : Header) (d : Datagram) (o : Option (List ℕ)) (l : QuicListenerDriver Q)
      → Same l (retry_with W header d o l).1
  unfolding retry_with
  retry_with-Same header d none l = refl
  retry_with-Same header d (some token) l = send_made-Same d _ l

  initial_token-Same :
      (header : Header) (d : Datagram) (token : List ℕ) (l : QuicListenerDriver Q)
      → Same l (initial_token W header d token l).1
  unfolding initial_token retry
  initial_token-Same header d [] l = retry_with-Same header d _ l
  initial_token-Same header d (b ∷ token) l = validated-Same header d _ l

  initial-Same :
      (header : Header) (d : Datagram) (l : QuicListenerDriver Q) → Same l (initial W header d l).1
  unfolding initial negotiate_version
  initial-Same header d l =
      let sent = send_made-Same d (W.version_packet header) l in
      let started = initial_token-Same header d header.token l in ground (arith, sent, started)

  -- What a turn does to the queue: nothing, or it delivers a connection whose handshake is over.
  abbrev pub Delivery : QuicListenerDriver Q → QuicListenerDriver Q → Type 0
  Delivery l l' = (l'.accepted ≡ l.accepted) ⊎ ((id : List ℕ) × Delivers id l l')

  try_send-Delivery :
      (id : List ℕ) (s : QuicConnState Q) (t : TrySend) (l l' : QuicListenerDriver Q)
      → l'.accepted ≡ l.accepted
      → is_some (lookup id l.handshaking_conn_set) ≡ true
      → lookup id l'.handshaking_conn_set ≡ none
      → Ready id l'
      → Delivery l (try_send W id s t l').1
  unfolding try_send drop_conn
  try_send-Delivery id s TrySend.queued l l' a h n i = inr (id, (rw a refl, h, n, i))
  try_send-Delivery id s TrySend.full l l' a h n i = inl a
  try_send-Delivery id s TrySend.disconnected l l' a h n i = inl a

  handshaken-Delivery :
      (id : List ℕ) (d : Datagram) (s : QuicConnState Q) (l l' : QuicListenerDriver Q)
      → l'.accepted ≡ l.accepted
      → is_some (lookup id l.handshaking_conn_set) ≡ true
      → lookup id l'.quiche_conn_set ≡ some s
      → Q.is_established s.quiche_conn ≡ true
      → Delivery l (handshaken W id d s l').1
  unfolding handshaken drop_conn
  handshaken-Delivery id d s l l' a h at est =
      let l'' : QuicListenerDriver Q = record l' {
        handshaking_conn_set = remove id l'.handshaking_conn_set;
      } in
      let gone : lookup id l''.handshaking_conn_set ≡ none =
        ground (arith, lookup-remove id id l'.handshaking_conn_set) in
      elim (Bool-cases (l'.verify_peer && not (W.has_peer_cert s.quiche_conn))) [
        | inl e ↦ rw e (inl a)
        | inr e ↦ rw e (try_send-Delivery id s d.incoming l l'' a h gone (s, at, (est, e)))
      ]

  dispatch-Delivery :
      (id : List ℕ) (d : Datagram) (s : QuicConnState Q) (l : QuicListenerDriver Q)
      → Delivery l (dispatch W id d s l).1
  unfolding dispatch
  dispatch-Delivery id d s l =
      let s' = (poll_recv d.buf s).state in
      let l' : QuicListenerDriver Q = record l {
        quiche_conn_set = insert id s' l.quiche_conn_set;
      } in
      elim (Bool-cases
        (is_some (lookup id l.handshaking_conn_set) && Q.is_established s'.quiche_conn)) [
          | inl e ↦ rw e (
              handshaken-Delivery id d s' l l' refl (ground (arith, e))
                (ground (arith, lookup-insert id id s' l.quiche_conn_set)) (ground (arith, e)))
          | inr e ↦ rw e (inl refl)
        ]

  routed-Delivery :
      (header : Header) (d : Datagram) (o : Option (QuicConnState Q)) (l : QuicListenerDriver Q)
      → Delivery l (routed W header d o l).1
  unfolding routed
  routed-Delivery header d (some s) l = dispatch-Delivery header.dcid d s l
  routed-Delivery header d none l =
      let started = initial-Same header d l in inl (ground (arith, started))

  parsed-Delivery :
      (d : Datagram) (o : Option Header) (l : QuicListenerDriver Q) → Delivery l (parsed W d o l).1
  unfolding parsed
  parsed-Delivery d none l = inl refl
  parsed-Delivery d (some header) l = routed-Delivery header d _ l

  -- A turn leaves the queue of `accept` as it is, or adds one connection to it: one that was in its
  -- handshake before the turn and is not after it, that is established and still in the set of all
  -- connections, and that has shown its certificate if the listener verifies its peers.
  pub turn-Delivery : (d : Datagram) (l : QuicListenerDriver Q) → Delivery l (turn W d l).1
  unfolding turn
  turn-Delivery d l = parsed-Delivery d (W.from_slice d.buf) l
