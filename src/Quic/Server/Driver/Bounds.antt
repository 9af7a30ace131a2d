-- ===== src/Quic/Server/Driver/Bounds.antt =====
-- crates/quic/src/server.rs, `run`: the number of the driver's connections, and those in their handshake.
use zorya_rs.Base.{
  ℕ, suc, ◌≤◌, ◌≡◌, refl, true, false, not, ◌&&◌, List, [], ◌∷◌, Option, none, some, if◌then◌else◌,
  ltb, ltb→lt, length, is_some, arith, Bool-cases, inl, inr,
}
use zorya_rs.Base.Maps.{
  Map, Key, bytes_key, lookup, insert, remove, lookup-insert, lookup-remove, length-remove-le,
}
use zorya_rs.Io.{IoResult, ok, err}
use zorya_rs.Quic.Quiche.{Quiche, QResult}
use zorya_rs.Quic.Conn.{QuicConnState, new}
use zorya_rs.Quic.Conn.Calls.{poll_recv, close}
use zorya_rs.Quic.Conn.Accepts.{Call, step}
use zorya_rs.Quic.Server.{
  Header, TrySend, World, Datagram, QuicListenerDriver, send_made, negotiate_version, retry_with,
  retry, add_conn, first_recv, accept_conn, validated, initial_token, initial, drop_conn, try_send,
  handshaken, dispatch, routed, parsed, turn,
}
use zorya_rs.Quic.Server.Driver.{Event, called, clean, event, go_on, run}

module _ {ℓ} {K V : Type ℓ} ⦃key : Key K⦄ where
  pub length-remove_found :
      (k : K) (m : Map K V) → is_some (lookup k m) ≡ true → suc (length (remove k m)) ≤ length m
  unfolding lookup remove
  length-remove_found k [] h = ground arith
  length-remove_found k ((i, v) ∷ m) h =
      ground (arith, length-remove-le k m, length-remove_found k m)

module _ {Q : Quiche} (W : World Q) where
  -- A set of connections within its bound, which has every connection that is in its handshake.
  pub record IsBounded (l : QuicListenerDriver Q) : Type 0 where
    pub size : length l.quiche_conn_set ≤ l.max_active_conn_size
    pub handshaking :
        (id : List ℕ)
        → is_some (lookup id l.handshaking_conn_set) ≡ true
        → is_some (lookup id l.quiche_conn_set) ≡ true

  insert_found :
      (id : List ℕ) (s : QuicConnState Q) (l : QuicListenerDriver Q)
      → is_some (lookup id l.quiche_conn_set) ≡ true
      → IsBounded l
      → IsBounded (record l { quiche_conn_set = insert id s l.quiche_conn_set })
  unfolding insert
  insert_found id s l h i = record {
    size = omega (arith, length-remove_found id l.quiche_conn_set h, i.size);
    handshaking = λ j e. ground (arith, lookup-insert id j s l.quiche_conn_set, i.handshaking j);
  }

  remove_handshaking :
      (id : List ℕ) (l : QuicListenerDriver Q)
      → IsBounded l
      → IsBounded (record l { handshaking_conn_set = remove id l.handshaking_conn_set })
  remove_handshaking id l i = record {
    size = i.size;
    handshaking = λ j e. ground (arith, lookup-remove id j l.handshaking_conn_set, i.handshaking j);
  }

  pub clean-IsBounded :
      (id : List ℕ) (l : QuicListenerDriver Q) → IsBounded l → IsBounded (clean W id l)
  unfolding clean
  clean-IsBounded id l i = record {
    size = omega (arith, length-remove-le id l.quiche_conn_set, i.size);
    handshaking = λ j e. ground (
      arith,
      lookup-remove id j l.handshaking_conn_set,
      lookup-remove id j l.quiche_conn_set,
      i.handshaking j,
    );
  }

  called-IsBounded :
      (id : List ℕ) (call : Call) (o : Option (QuicConnState Q)) (l : QuicListenerDriver Q)
      → lookup id l.quiche_conn_set ≡ o
      → IsBounded l
      → IsBounded (called W id call o l)
  unfolding called
  called-IsBounded id call none l e i = i
  called-IsBounded id call (some s) l e i = insert_found id (step call s).1 l (rw e refl) i

  add_conn-IsBounded :
      (header : Header) (c : Q.Connection) (l : QuicListenerDriver Q)
      → IsBounded l
      → IsBounded (add_conn W header c l)
  unfolding add_conn insert
  add_conn-IsBounded header c l i =
      elim (Bool-cases (ltb (length l.quiche_conn_set) l.max_active_conn_size)) [
        | inr e ↦ rw e i
        | inl e ↦ rw e (record {
          size = omega (
            arith,
            length-remove-le header.dcid l.quiche_conn_set,
            ltb→lt (length l.quiche_conn_set) l.max_active_conn_size e,
          );
          handshaking = λ j h. ground (
            arith,
            lookup-insert header.dcid j tt l.handshaking_conn_set,
            lookup-insert header.dcid j (new Q c) l.quiche_conn_set,
            i.handshaking j,
          );
        })
      ]

  first_recv-IsBounded :
      (header : Header) (r : QResult ℕ) (c : Q.Connection) (l : QuicListenerDriver Q)
      → IsBounded l
      → IsBounded (first_recv W header r c l)
  unfolding first_recv
  first_recv-IsBounded header (QResult.ok _) c l i = add_conn-IsBounded header c l i
  first_recv-IsBounded header QResult.error_done c l i = i
  first_recv-IsBounded header QResult.error_other c l i = i

  accept_conn-IsBounded :
      (header : Header) (d : Datagram) (o : Option Q.Connection) (l : QuicListenerDriver Q)
      → IsBounded l
      → IsBounded (accept_conn W header d o l)
  unfolding accept_conn
  accept_conn-IsBounded header d none l i = i
  accept_conn-IsBounded header d (some c) l i =
      first_recv-IsBounded header (Q.recv d.buf c).0 (Q.recv d.buf c).1 l i

  validated-IsBounded :
      (header : Header) (d : Datagram) (o : Option (List ℕ)) (l : QuicListenerDriver Q)
      → IsBounded l
      → IsBounded (validated W header d o l)
  unfolding validated
  validated-IsBounded header d none l i = i
  validated-IsBounded header d (some odcid) l i =
      accept_conn-IsBounded header d (W.accept header.dcid odcid d.recv_info) l i

  send_made-IsBounded :
      (d : Datagram) (o : Option (List ℕ)) (l : QuicListenerDriver Q)
      → IsBounded l
      → IsBounded (send_made W d o l).1
  unfolding send_made
  send_made-IsBounded d none l i = i
  send_made-IsBounded d (some packet) l i = elim (Bool-cases d.sending_fails) [
    | inl e ↦ rw e i
    | inr e ↦ rw e (record { size = i.size; handshaking = i.handshaking })
  ]

  retry_with-IsBounded :
      (header : Header) (d : Datagram) (o : Option (List ℕ)) (l : QuicListenerDriver Q)
      → IsBounded l
      → IsBounded (retry_with W header d o l).1
  unfolding retry_with
  retry_with-IsBounded header d none l i = i
  retry_with-IsBounded header d (some token) l i = send_made-IsBounded d _ l i

  initial_token-IsBounded :
      (header : Header) (d : Datagram) (token : List ℕ) (l : QuicListenerDriver Q)
      → IsBounded l
      → IsBounded (initial_token W header d token l).1
  unfolding initial_token retry
  initial_token-IsBounded header d [] l i = retry_with-IsBounded header d _ l i
  initial_token-IsBounded header d (b ∷ token) l i = validated-IsBounded header d _ l i

  initial-IsBounded :
      (header : Header) (d : Datagram) (l : QuicListenerDriver Q)
      → IsBounded l
      → IsBounded (initial W header d l).1
  unfolding initial negotiate_version
  initial-IsBounded header d l i = elim (Bool-cases (W.version_is_supported header.version)) [
    | inl e ↦ rw e (initial_token-IsBounded header d header.token l i)
    | inr e ↦ rw e (send_made-IsBounded d (W.version_packet header) l i)
  ]

  drop_conn-IsBounded :
      (id : List ℕ) (s : QuicConnState Q) (l : QuicListenerDriver Q)
      → is_some (lookup id l.quiche_conn_set) ≡ true
      → IsBounded l
      → IsBounded (drop_conn W id s l)
  unfolding drop_conn
  drop_conn-IsBounded id s l h i = insert_found id (close 0 s).state l h i

  try_send-IsBounded :
      (id : List ℕ) (s : QuicConnState Q) (t : TrySend) (l : QuicListenerDriver Q)
      → is_some (lookup id l.quiche_conn_set) ≡ true
      → IsBounded l
      → IsBounded (try_send W id s t l).1
  unfolding try_send
  try_send-IsBounded id s TrySend.queued l h i = record {
    size = i.size;
    handshaking = i.handshaking;
  }
  try_send-IsBounded id s TrySend.full l h i = drop_conn-IsBounded id s l h i
  try_send-IsBounded id s TrySend.disconnected l h i = drop_conn-IsBounded id s l h i

  handshaken-IsBounded :
      (id : List ℕ) (d : Datagram) (s : QuicConnState Q) (l : QuicListenerDriver Q)
      → is_some (lookup id l.quiche_conn_set) ≡ true
      → IsBounded l
      → IsBounded (handshaken W id d s l).1
  unfolding handshaken
  handshaken-IsBounded id d s l h i =
      let i' = remove_handshaking id l i in
      elim (Bool-cases (l.verify_peer && not (W.has_peer_cert s.quiche_conn))) [
        | inl e ↦ rw e (drop_conn-IsBounded id s _ h i')
        | inr e ↦ rw e (try_send-IsBounded id s d.incoming _ h i')
      ]

  dispatch-IsBounded :
      (id : List ℕ) (d : Datagram) (s : QuicConnState Q) (l : QuicListenerDriver Q)
      → is_some (lookup id l.quiche_conn_set) ≡ true
      → IsBounded l
      → IsBounded (dispatch W id d s l).1
  unfolding dispatch
  dispatch-IsBounded id d s l h i =
      let s' = (poll_recv d.buf s).state in
      let i' = insert_found id s' l h i in
      let there : is_some (lookup id (insert id s' l.quiche_conn_set)) ≡ true =
        ground (arith, lookup-insert id id s' l.quiche_conn_set) in
      elim (Bool-cases
        (is_some (lookup id l.handshaking_conn_set) && Q.is_established s'.quiche_conn)) [
          | inl e ↦ rw e (handshaken-IsBounded id d s' _ there i')
          | inr e ↦ rw e i'
        ]

  routed-IsBounded :
      (header : Header) (d : Datagram) (o : Option (QuicConnState Q)) (l : QuicListenerDriver Q)
      → lookup header.dcid l.quiche_conn_set ≡ o
      → IsBounded l
      → IsBounded (routed W header d o l).1
  unfolding routed
  routed-IsBounded header d (some s) l e i = dispatch-IsBounded header.dcid d s l (rw e refl) i
  routed-IsBounded header d none l e i =
      elim header.is_initial
        as (λ x. IsBounded (if x then initial W header d l else (ok tt, l)).1) [
          | true ↦ initial-IsBounded header d l i
          | false ↦ i
        ]

  parsed-IsBounded :
      (d : Datagram) (o : Option Header) (l : QuicListenerDriver Q)
      → IsBounded l
      → IsBounded (parsed W d o l).1
  unfolding parsed
  parsed-IsBounded d none l i = i
  parsed-IsBounded d (some header) l i = routed-IsBounded header d _ l refl i

  event-IsBounded : (e : Event) (l : QuicListenerDriver Q) → IsBounded l → IsBounded (event W e l).1
  unfolding event turn
  event-IsBounded (Event.datagram d) l i = parsed-IsBounded d (W.from_slice d.buf) l i
  event-IsBounded (Event.task id call) l i = called-IsBounded id call _ l refl i
  event-IsBounded (Event.ended id) l i = clean-IsBounded id l i
  event-IsBounded (Event.failed kind) l i = i

  go_on-IsBounded :
      (p later : IoResult (Unit {0}) × QuicListenerDriver Q)
      → IsBounded p.1
      → IsBounded later.1
      → IsBounded (go_on W p later).1
  unfolding go_on
  go_on-IsBounded (ok _, l) later i j = j
  go_on-IsBounded (err kind, l) later i j = i

  -- Every run of the driver keeps the number of its connections within `max_active_conn_size`, and the
  -- connections that are in their handshake among its connections.
  pub run-IsBounded :
      (events : List Event) (l : QuicListenerDriver Q) → IsBounded l → IsBounded (run W events l).1
  unfolding run
  run-IsBounded [] l i = i
  run-IsBounded (e ∷ events) l i =
      let i' = event-IsBounded e l i in
      go_on-IsBounded (event W e l) _ i' (run-IsBounded events (event W e l).1 i')
