-- ===== src/Quic/Conn/Wakes.antt =====
-- crates/quic/src/conn.rs: the tasks that wait for a stream, and the calls that wake them.
use zorya_rs.Base.{
  ℕ, ◌≤◌, ◌<◌, ◌≡◌, refl, ◌∙◌, sym, inl, inr, Bool, true, false, ◌||◌, List, [], ◌∷◌, ◌++◌, Option,
  none, some, arith, Bool-cases, elem, ℕ_discrete,
}
use zorya_rs.Base.Maps.{lookup, nat_key, lookup-remove, lookup-insert}
use zorya_rs.Io.{pending}
use zorya_rs.Quic.Quiche.{Quiche, QResult}
use zorya_rs.Quic.Conn.{
  QuicConnState, is_incoming, readable, readables, readable_waiting, readable_closing,
  poll_conn_stat_events, gather, closing_recv,
}
use zorya_rs.Quic.Conn.Calls.{poll_recv, poll_stream_read, read}
use zorya_rs.Quic.Conn.Incoming.{FixedRole}

elem-append : (k : ℕ) (xs ys : List ℕ) → elem k (xs ++ ys) ≡ (elem k xs || elem k ys)
elem-append k [] ys = refl
elem-append k (x ∷ xs) ys = ground (arith, elem-append k xs ys)

elem-append_found : (k : ℕ) (xs ys : List ℕ) → elem k xs ≡ true → elem k (xs ++ ys) ≡ true
elem-append_found k xs ys h = rw (elem-append k xs ys) (rw h refl)

module _ {Q : Quiche} (b : Bool) (fixed : FixedRole Q b) where
  -- The task `cx` waits for data of the stream `id`, which was accepted or opened before.
  abbrev pub Reader : ℕ → ℕ → QuicConnState Q → Type 0
  Reader cx id s = (lookup id s.stream_readable_wakers ≡ some cx) × (is_incoming id s ≡ false)

  -- The connection after quiche took the packet `buf`.
  abbrev pub fed : List ℕ → QuicConnState Q → QuicConnState Q
  fed buf s = record s { quiche_conn = (Q.recv buf s.quiche_conn).1 }

  is_incoming_mono :
      (id : ℕ) (s s' : QuicConnState Q)
      → s.inbound_stream_id_current ≤ s'.inbound_stream_id_current
      → is_incoming id s ≡ false
      → is_incoming id s' ≡ false
  unfolding is_incoming
  is_incoming_mono id s s' h e =
      let same = fixed.role s.quiche_conn ∙ sym (fixed.role s'.quiche_conn) in ground (arith, same)

  is_incoming-above :
      (id : ℕ) (s : QuicConnState Q) → is_incoming id s ≡ true → s.inbound_stream_id_current < id
  unfolding is_incoming
  is_incoming-above id s e = ground arith

  readable_closing-Reader :
      (cx id j : ℕ) (o : Option ℕ) (s : QuicConnState Q)
      → Reader cx id s
      → Reader cx id (readable_closing j o s)
  unfolding readable_closing closing_recv
  readable_closing-Reader cx id j none s h = h
  readable_closing-Reader cx id j (some t) s h =
      let s' = readable_closing j (some t) s in
      let queue : s'.inbound_stream_id_current ≡ s.inbound_stream_id_current = ground arith in
      (ground arith, is_incoming_mono id s s' (omega (arith, queue)) h.1)

  readable_waiting-Reader :
      (cx id j : ℕ) (o : Option ℕ) (s : QuicConnState Q)
      → ¬ (j ≡ id)
      → Reader cx id s
      → Reader cx id (readable_waiting j o s).1
  unfolding readable_waiting
  readable_waiting-Reader cx id j none s ne h = readable_closing-Reader cx id j _ s h
  readable_waiting-Reader cx id j (some w) s ne h = (
    ground (arith, lookup-remove j id s.stream_readable_wakers),
    is_incoming_mono id s _ (omega arith) h.1,
  )

  -- Another stream that is readable leaves the task waiting.
  readable-Reader :
      (cx id j : ℕ) (s : QuicConnState Q)
      → ¬ (j ≡ id)
      → Reader cx id s
      → Reader cx id (readable j s).1
  unfolding readable
  readable-Reader cx id j s ne h = elim (Bool-cases (is_incoming j s)) [
    | inl e ↦
        let s' : QuicConnState Q = record s {
          inbound_stream_id_current = j;
          incoming_stream_id_fifo = s.incoming_stream_id_fifo ++ j ∷ [];
        } in
        let above = is_incoming-above j s e in
        rw e (h.0, is_incoming_mono id s s' (omega (arith, above)) h.1)
    | inr e ↦ rw e (readable_waiting-Reader cx id j _ s ne h)
  ]

  readable_wakes : (cx id : ℕ) (s : QuicConnState Q) → Reader cx id s → (readable id s).0 ≡ cx ∷ []
  unfolding readable readable_waiting
  readable_wakes cx id s h = rw h.1 (rw h.0 refl)

  pub readables_wake :
      (cx id : ℕ) (ids : List ℕ) (s : QuicConnState Q)
      → elem id ids ≡ true
      → Reader cx id s
      → elem cx (readables ids s).0 ≡ true
  unfolding readables
  readables_wake cx id [] s h w = ground arith
  readables_wake cx id (j ∷ ids) s h w =
      let s' = (readable j s).1 in
      let split = elem-append cx (readable j s).0 (readables ids s').0 in
      elim (ℕ_discrete j id) [
        | yes e ↦
            let found : (readable j s).0 ≡ cx ∷ [] = rw e (readable_wakes cx id s w) in
            ground (arith, split, found)
        | no ne ↦
            let rest =
              readables_wake cx id ids s' (ground arith) (readable-Reader cx id j s ne w) in
            ground (arith, split, rest)
      ]

  pub poll_conn_stat_events_wakes :
      (cx id : ℕ) (s : QuicConnState Q)
      → Reader cx id s
      → elem id (gather s).0 ≡ true
      → elem cx (poll_conn_stat_events s).0 ≡ true
  unfolding poll_conn_stat_events gather
  poll_conn_stat_events_wakes cx id s w h =
      let (ids, s₁) = gather s in
      let still = is_incoming_mono id s s₁ (omega arith) w.1 in
      let woken = readables_wake cx id ids s₁ h (w.0, still) in
      elem-append_found cx (readables ids s₁).0 _ woken

  poll_recv-wakes :
      (cx id : ℕ) (buf : List ℕ) (s : QuicConnState Q)
      → Reader cx id s
      → elem id (gather (fed buf s)).0 ≡ true
      → elem cx (poll_recv buf s).woken ≡ true
  unfolding poll_recv
  poll_recv-wakes cx id buf s w h =
      let s' = fed buf s in
      let still = is_incoming_mono id s s' (omega arith) w.1 in
      elem-append_found cx (poll_conn_stat_events s').0 _
        (poll_conn_stat_events_wakes cx id s' (w.0, still) h)

  read-current :
      (cx id : ℕ) (r : QResult (ℕ × Bool)) (s : QuicConnState Q)
      → (read cx id r s).state.inbound_stream_id_current ≡ s.inbound_stream_id_current
  unfolding read
  read-current cx id (QResult.ok _) s = refl
  read-current cx id QResult.error_done s = ground arith
  read-current cx id QResult.error_other s = refl

  read-registers :
      (cx id : ℕ) (r : QResult (ℕ × Bool)) (s : QuicConnState Q)
      → (read cx id r s).answer ≡ pending
      → lookup id (read cx id r s).state.stream_readable_wakers ≡ some cx
  unfolding read
  read-registers cx id (QResult.ok _) s e = cc
  read-registers cx id QResult.error_done s e =
      ground (arith, lookup-insert id id cx s.stream_readable_wakers)
  read-registers cx id QResult.error_other s e = cc

  -- Where all connections of an endpoint have one role: after a `poll_stream_read` that returned `Pending`, on
  -- a stream that is not taken for a new one of the peer, the next `poll_recv`, whose packet makes
  -- quiche report the stream as readable, wakes the task that waits.
  pub reader_is_woken :
      (cx id : ℕ) (buf : List ℕ) (s : QuicConnState Q)
      → is_incoming id s ≡ false
      → (poll_stream_read cx id s).answer ≡ pending
      → elem id (gather (fed buf (poll_stream_read cx id s).state)).0 ≡ true
      → elem cx (poll_recv buf (poll_stream_read cx id s).state).woken ≡ true
  unfolding poll_stream_read
  reader_is_woken cx id buf s known e h =
      let (result, c) = Q.stream_recv id s.quiche_conn in
      let s' = (poll_stream_read cx id s).state in
      let seen = read-current cx id result (record s { quiche_conn = c }) in
      let known' = is_incoming_mono id s s' (omega (arith, seen)) known in
      let registered = read-registers cx id result (record s { quiche_conn = c }) e in
      poll_recv-wakes cx id buf s' (registered, known') h
