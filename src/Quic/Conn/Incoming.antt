-- ===== src/Quic/Conn/Incoming.antt =====
-- crates/quic/src/conn.rs: which streams come into the queue of `poll_accept`, and in which order.
use zorya_rs.Base.{
  ℕ, ◌≤◌, ◌<◌, ◌≡◌, refl, ◌∙◌, sym, inl, inr, Bool, true, false, List, [], ◌∷◌, ◌++◌, Option, none,
  some, arith, Bool-cases, append-nil, append_assoc, elem,
}
use zorya_rs.Base.Maps.{lookup, nat_key}
use zorya_rs.Quic.Quiche.{Quiche}
use zorya_rs.Quic.Conn.{
  QuicConnState, is_local, is_bidi, is_incoming, readable, readables, readable_waiting,
  readable_closing, poll_conn_stat_events, gather, announce, gather_writable, writables,
  writable_waiting, make_room,
}

-- Ids that rise from above `n` to at most `m`.
abbrev pub Rising : ℕ → List ℕ → ℕ → Type 0
Rising n [] m = n ≤ m
Rising n (id ∷ ids) m = (n < id) × Rising id ids m

pub Rising-le : (n m : ℕ) (ids : List ℕ) → Rising n ids m → n ≤ m
Rising-le n m [] h = h
Rising-le n m (id ∷ ids) h = omega (arith, Rising-le id m ids h.1)

pub Rising-elem : (id n m : ℕ) (ids : List ℕ) → id ≤ n → Rising n ids m → elem id ids ≡ false
Rising-elem id n m [] h r = refl
Rising-elem id n m (x ∷ ids) h r = ground (arith, Rising-elem id x m ids (omega arith) r.1)

-- Every id that is queued belongs to a bidirectional stream of the peer.
abbrev pub Inbound : Bool → List ℕ → Type 0
Inbound is_server [] = Unit {0}
Inbound is_server (id ∷ ids) =
    (is_bidi id ≡ true) × (is_local id is_server ≡ false) × Inbound is_server ids

-- All connections of an endpoint have its role, which quiche never changes.
pub record FixedRole (Q : Quiche) (is_server : Bool) : Type 0 where
  pub role : (c : Q.Connection) → Q.is_server c ≡ is_server

pub Rising-append :
    (n m k : ℕ) (ids new : List ℕ) → Rising n ids m → Rising m new k → Rising n (ids ++ new) k
Rising-append n m k [] [] h r = omega arith
Rising-append n m k [] (x ∷ new) h r = (omega (arith, r.0), r.1)
Rising-append n m k (id ∷ ids) new h r = (h.0, Rising-append id m k ids new h.1 r)

pub Inbound-append :
    (b : Bool) (ids new : List ℕ) → Inbound b ids → Inbound b new → Inbound b (ids ++ new)
Inbound-append b [] new h r = r
Inbound-append b (id ∷ ids) new h r = (h.0, h.1, Inbound-append b ids new h.2 r)

module _ {Q : Quiche} (b : Bool) where
  -- What a call adds to the queue: streams of the peer, beyond all that were seen, in rising order.
  pub record Grows (s s' : QuicConnState Q) : Type 0 where
    pub new : List ℕ
    pub queued : s'.incoming_stream_id_fifo ≡ s.incoming_stream_id_fifo ++ new
    pub rising : Rising s.inbound_stream_id_current new s'.inbound_stream_id_current
    pub inbound : Inbound b new

  -- The two fields that the queue consists of are kept.
  abbrev pub SameQueue : QuicConnState Q → QuicConnState Q → Type 0
  SameQueue s s' =
      (s'.incoming_stream_id_fifo ≡ s.incoming_stream_id_fifo)
      × (s'.inbound_stream_id_current ≡ s.inbound_stream_id_current)

  pub SameQueue-Grows : (s s' : QuicConnState Q) → SameQueue s s' → Grows s s'
  SameQueue-Grows s s' e = record {
    new = [];
    queued = e.0 ∙ sym (append-nil s.incoming_stream_id_fifo);
    rising = omega (arith, e.1);
    inbound = tt;
  }

  pub Grows-trans : (s s' s'' : QuicConnState Q) → Grows s s' → Grows s' s'' → Grows s s''
  Grows-trans s s' s'' g h = record {
    new = g.new ++ h.new;
    queued = h.queued ∙ rw g.queued (append_assoc s.incoming_stream_id_fifo g.new h.new);
    rising = Rising-append _ _ _ g.new h.new g.rising h.rising;
    inbound = Inbound-append b g.new h.new g.inbound h.inbound;
  }

  -- A stream that is queued was never seen before.
  readable_incoming :
      (id : ℕ) (s : QuicConnState Q)
      → Q.is_server s.quiche_conn ≡ b
      → is_incoming id s ≡ true
      → Grows s (record s {
        inbound_stream_id_current = id;
        incoming_stream_id_fifo = s.incoming_stream_id_fifo ++ id ∷ [];
      })
  unfolding is_incoming
  readable_incoming id s role e = record {
    new = id ∷ [];
    queued = refl;
    rising = (ground arith, omega arith);
    inbound = (ground arith, ground arith, tt);
  }

  readable_closing-SameQueue :
      (id : ℕ) (o : Option ℕ) (s : QuicConnState Q) → SameQueue s (readable_closing id o s)
  unfolding readable_closing
  readable_closing-SameQueue id none s = (refl, refl)
  readable_closing-SameQueue id (some t) s = (ground arith, ground arith)

  readable_waiting-SameQueue :
      (id : ℕ) (o : Option ℕ) (s : QuicConnState Q) → SameQueue s (readable_waiting id o s).1
  unfolding readable_waiting
  readable_waiting-SameQueue id (some w) s = (refl, refl)
  readable_waiting-SameQueue id none s = readable_closing-SameQueue id _ s

  module _ (fixed : FixedRole Q b) where
    readable-Grows : (id : ℕ) (s : QuicConnState Q) → Grows s (readable id s).1
    unfolding readable
    readable-Grows id s = elim (Bool-cases (is_incoming id s)) [
      | inl e ↦ rw e (readable_incoming id s (fixed.role s.quiche_conn) e)
      | inr e ↦ rw e (SameQueue-Grows _ _ (readable_waiting-SameQueue id _ s))
    ]

    pub readables-Grows : (ids : List ℕ) (s : QuicConnState Q) → Grows s (readables ids s).1
    unfolding readables
    readables-Grows [] s = SameQueue-Grows s s (refl, refl)
    readables-Grows (id ∷ ids) s =
        Grows-trans _ _ _ (readable-Grows id s) (readables-Grows ids (readable id s).1)

  pub announce-SameQueue : (s : QuicConnState Q) → SameQueue s (announce s).1
  unfolding announce
  announce-SameQueue s = ground arith

  pub writable_waiting-SameQueue :
      (id : ℕ) (o : Option ℕ) (s : QuicConnState Q) → SameQueue s (writable_waiting id o s).1
  unfolding writable_waiting
  writable_waiting-SameQueue id none s = (refl, refl)
  writable_waiting-SameQueue id (some w) s = (refl, refl)

  pub writables-SameQueue : (ids : List ℕ) (s : QuicConnState Q) → SameQueue s (writables ids s).1
  unfolding writables
  writables-SameQueue [] s = (refl, refl)
  writables-SameQueue (id ∷ ids) s =
      let step = writable_waiting-SameQueue id (lookup id s.stream_writable_wakers) s in
      let rest = writables-SameQueue ids _ in (rest.0 ∙ step.0, rest.1 ∙ step.1)

  pub make_room-SameQueue : (s : QuicConnState Q) → SameQueue s (make_room s).1
  unfolding make_room
  make_room-SameQueue s = ground arith

  -- One call of `poll_conn_stat_events` only adds new streams of the peer to the queue.
  pub poll_conn_stat_events-Grows :
      FixedRole Q b → (s : QuicConnState Q) → Grows s (poll_conn_stat_events s).1
  unfolding poll_conn_stat_events gather gather_writable
  poll_conn_stat_events-Grows fixed s =
      let (ids, s₁) = gather s in
      let s₂ = (readables ids s₁).1 in
      let s₃ = (announce s₂).1 in
      let (ids', s₄) = gather_writable s₃ in
      let s₅ = (writables ids' s₄).1 in
      let first : Grows s s₂ =
        Grows-trans s s₁ s₂ (SameQueue-Grows s s₁ (refl, refl)) (readables-Grows fixed ids s₁) in
      let announced = announce-SameQueue s₂ in
      let written = writables-SameQueue ids' s₄ in
      let roomy = make_room-SameQueue s₅ in
      Grows-trans s s₂ (make_room s₅).1 first (
        SameQueue-Grows s₂ (make_room s₅).1
          (roomy.0 ∙ written.0 ∙ announced.0, roomy.1 ∙ written.1 ∙ announced.1))
