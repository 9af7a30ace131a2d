-- ===== src/Quic/Conn/Accepts.antt =====
-- crates/quic/src/conn.rs: any calls of the methods of a connection, one after the other, and the
-- streams that `poll_accept` returns in them. The mutex of `QuicConn` makes every schedule of its
-- tasks such a sequence.
use zorya_rs.Base.{
  ℕ, ◌≤◌, ◌≡◌, refl, ◌∙◌, sym, ap, inl, inr, Bool, false, List, [], ◌∷◌, ◌++◌, append_assoc,
  append-nil, elem-append_left, elem-append_false, arith, Bool-cases, elem, Outcome, done, panic,
}
use zorya_rs.Io.{IoResult, ok, err, Poll, ready, pending}
use zorya_rs.Io.Reactor.{ReactorImpl}
use zorya_rs.Quic.Quiche.{Quiche, QResult}
use zorya_rs.Quic.Conn.{QuicConnState, closing_recv}
use zorya_rs.Quic.Conn.Calls.{
  poll_recv, close, poll_accept, try_open, poll_stream_open, open_next, close_stream,
  poll_stream_write, poll_stream_read, closed, next_incoming, written, read,
}
use zorya_rs.Quic.Conn.Send.{Gaps, Sent, poll_send}
use zorya_rs.Quic.Conn.SendQueue.{poll_send-Grows}
use zorya_rs.Quic.Conn.Incoming.{
  Rising, Rising-elem, Rising-append, Inbound, Inbound-append, FixedRole, Grows, SameQueue,
  SameQueue-Grows, poll_conn_stat_events-Grows,
}

-- The calls that tasks make of one connection.
pub data Call : Type 0 where
  recv : List ℕ → Call
  send : ℕ → Gaps → List Gaps → ReactorImpl → Call
  close_conn : ℕ → Call
  accept : ℕ → Call
  open_at_once : Call
  open_when_free : ℕ → Call
  close_one : ℕ → ℕ → Call
  write : ℕ → ℕ → List ℕ → Bool → Call
  read_from : ℕ → ℕ → Call

abbrev pub accepted_id : Poll (IoResult ℕ) → List ℕ
accepted_id (ready (ok id)) = id ∷ []
accepted_id (ready (err _)) = []
accepted_id pending = []

module _ {Q : Quiche} where
  unfoldable pub after_send : QuicConnState Q → Outcome (Sent Q) → QuicConnState Q
  after_send s (done x) = x.state
  after_send s panic = s

  -- The streams that a call accepts, at most one, and the state after it.
  unfoldable pub step : Call → QuicConnState Q → List ℕ × QuicConnState Q
  unfolding poll_recv poll_send after_send close poll_accept try_open poll_stream_open close_stream
      poll_stream_write poll_stream_read
  step (Call.recv buf) s = ([], (poll_recv buf s).state)
  step (Call.send cx gaps rest r) s = ([], after_send s (poll_send cx gaps rest s r))
  step (Call.close_conn code) s = ([], (close code s).state)
  step (Call.accept cx) s = (accepted_id (poll_accept cx s).answer, (poll_accept cx s).state)
  step Call.open_at_once s = ([], (try_open s).state)
  step (Call.open_when_free cx) s = ([], (poll_stream_open cx s).state)
  step (Call.close_one now id) s = ([], (close_stream now id s).state)
  step (Call.write cx id buf fin) s = ([], (poll_stream_write cx id buf fin s).state)
  step (Call.read_from cx id) s = ([], (poll_stream_read cx id s).state)

  unfoldable pub run : List Call → QuicConnState Q → List ℕ × QuicConnState Q
  unfolding step
  run [] s = ([], s)
  run (call ∷ calls) s =
      let (ids, s') = step call s in let (ids', s'') = run calls s' in (ids ++ ids', s'')

module _ {Q : Quiche} (b : Bool) where
  close_stream-SameQueue :
      (now id : ℕ) (s : QuicConnState Q) → SameQueue b s (close_stream now id s).state
  unfolding close_stream closing_recv
  close_stream-SameQueue now id s = (ground arith, ground arith)

  closed-SameQueue :
      (r : QResult (Unit {0})) (s : QuicConnState Q) → SameQueue b s (closed r s).state
  unfolding closed
  closed-SameQueue (QResult.ok _) s = (refl, refl)
  closed-SameQueue QResult.error_done s = (refl, refl)
  closed-SameQueue QResult.error_other s = (refl, refl)

  written-SameQueue :
      (cx id : ℕ) (r : QResult ℕ) (s : QuicConnState Q) → SameQueue b s (written cx id r s).state
  unfolding written
  written-SameQueue cx id (QResult.ok _) s = (refl, refl)
  written-SameQueue cx id QResult.error_done s = (ground arith, ground arith)
  written-SameQueue cx id QResult.error_other s = (refl, refl)

  read-SameQueue :
      (cx id : ℕ) (r : QResult (ℕ × Bool)) (s : QuicConnState Q)
      → SameQueue b s (read cx id r s).state
  unfolding read
  read-SameQueue cx id (QResult.ok _) s = (refl, refl)
  read-SameQueue cx id QResult.error_done s = (ground arith, ground arith)
  read-SameQueue cx id QResult.error_other s = (refl, refl)

  try_open-SameQueue : (s : QuicConnState Q) → SameQueue b s (try_open s).state
  unfolding try_open open_next
  try_open-SameQueue s = (ground arith, ground arith)

  poll_stream_open-SameQueue :
      (cx : ℕ) (s : QuicConnState Q) → SameQueue b s (poll_stream_open cx s).state
  unfolding poll_stream_open open_next
  poll_stream_open-SameQueue cx s = (ground arith, ground arith)

  poll_recv-Grows :
      FixedRole Q b → (buf : List ℕ) (s : QuicConnState Q) → Grows b s (poll_recv buf s).state
  unfolding poll_recv
  poll_recv-Grows fixed buf s =
      let g =
        poll_conn_stat_events-Grows b fixed
          (record s { quiche_conn = (Q.recv buf s.quiche_conn).1 }) in
      record { new = g.new; queued = g.queued; rising = g.rising; inbound = g.inbound }

  after_send-Grows :
      FixedRole Q b
      → (cx : ℕ) (gaps : Gaps) (rest : List Gaps) (s : QuicConnState Q) (r : ReactorImpl)
        (o : Outcome (Sent Q))
      → poll_send cx gaps rest s r ≡ o
      → Grows b s (after_send s o)
  unfolding after_send
  after_send-Grows fixed cx gaps rest s r (done x) e = poll_send-Grows b fixed cx gaps rest s r x e
  after_send-Grows fixed cx gaps rest s r panic e = SameQueue-Grows b s s (refl, refl)

  -- What calls do to the queue: they accept `ids` from its front and add new streams at its end.
  pub record Passes (s : QuicConnState Q) (ids : List ℕ) (s' : QuicConnState Q) : Type 0 where
    pub arrived : List ℕ
    pub split : ids ++ s'.incoming_stream_id_fifo ≡ s.incoming_stream_id_fifo ++ arrived
    pub rising : Rising s.inbound_stream_id_current arrived s'.inbound_stream_id_current
    pub inbound : Inbound b arrived

  Grows-Passes : (s s' : QuicConnState Q) → Grows b s s' → Passes s [] s'
  Grows-Passes s s' g = record {
    arrived = g.new;
    split = g.queued;
    rising = g.rising;
    inbound = g.inbound;
  }

  pub SameQueue-Passes : (s s' : QuicConnState Q) → SameQueue b s s' → Passes s [] s'
  SameQueue-Passes s s' e = Grows-Passes s s' (SameQueue-Grows b s s' e)

  pub Passes-trans :
      (s s' s'' : QuicConnState Q) (ids ids' : List ℕ)
      → Passes s ids s'
      → Passes s' ids' s''
      → Passes s (ids ++ ids') s''
  Passes-trans s s' s'' ids ids' p q = record {
    arrived = p.arrived ++ q.arrived;
    split =
        append_assoc ids ids' s''.incoming_stream_id_fifo
        ∙ ap (λ l. ids ++ l) q.split
        ∙ sym (append_assoc ids s'.incoming_stream_id_fifo q.arrived)
        ∙ ap (λ l. l ++ q.arrived) p.split
        ∙ append_assoc s.incoming_stream_id_fifo p.arrived q.arrived;
    rising = Rising-append _ _ _ p.arrived q.arrived p.rising q.rising;
    inbound = Inbound-append b p.arrived q.arrived p.inbound q.inbound;
  }

  next_incoming-Passes :
      (cx : ℕ) (queue : List ℕ) (s : QuicConnState Q)
      → s.incoming_stream_id_fifo ≡ queue
      → Passes s (accepted_id (next_incoming cx queue s).answer) (next_incoming cx queue s).state
  unfolding next_incoming
  next_incoming-Passes cx [] s e = SameQueue-Passes s _ (refl, refl)
  next_incoming-Passes cx (id ∷ ids) s e = record {
    arrived = [];
    split = sym e ∙ sym (append-nil s.incoming_stream_id_fifo);
    rising = omega arith;
    inbound = tt;
  }

  pub poll_accept-Passes :
      (cx : ℕ) (s : QuicConnState Q)
      → Passes s (accepted_id (poll_accept cx s).answer) (poll_accept cx s).state
  unfolding poll_accept
  poll_accept-Passes cx s = elim (Bool-cases (Q.is_closed s.quiche_conn)) [
    | inl e ↦ rw e (SameQueue-Passes s s (refl, refl))
    | inr e ↦ rw e (next_incoming-Passes cx s.incoming_stream_id_fifo s refl)
  ]

  step-Passes :
      FixedRole Q b → (call : Call) (s : QuicConnState Q) → Passes s (step call s).0 (step call s).1
  unfolding step close poll_stream_write poll_stream_read
  step-Passes fixed (Call.recv buf) s = Grows-Passes s _ (poll_recv-Grows fixed buf s)
  step-Passes fixed (Call.send cx gaps rest r) s =
      Grows-Passes s _ (after_send-Grows fixed cx gaps rest s r _ refl)
  step-Passes fixed (Call.close_conn code) s =
      let same =
        closed-SameQueue (Q.close code s.quiche_conn).0
          (record s { quiche_conn = (Q.close code s.quiche_conn).1 }) in
      SameQueue-Passes s _ (same.0, same.1)
  step-Passes fixed (Call.accept cx) s = poll_accept-Passes cx s
  step-Passes fixed Call.open_at_once s = SameQueue-Passes s _ (try_open-SameQueue s)
  step-Passes fixed (Call.open_when_free cx) s =
      SameQueue-Passes s _ (poll_stream_open-SameQueue cx s)
  step-Passes fixed (Call.close_one now id) s =
      SameQueue-Passes s _ (close_stream-SameQueue now id s)
  step-Passes fixed (Call.write cx id buf fin) s =
      let (result, c) = Q.stream_send id buf fin s.quiche_conn in
      let same = written-SameQueue cx id result (record s { quiche_conn = c }) in
      SameQueue-Passes s _ (same.0, same.1)
  step-Passes fixed (Call.read_from cx id) s =
      let (result, c) = Q.stream_recv id s.quiche_conn in
      let same = read-SameQueue cx id result (record s { quiche_conn = c }) in
      SameQueue-Passes s _ (same.0, same.1)

  -- Where all connections of an endpoint have one role, any calls of its methods leave a queue of which the
  -- streams that they accept, followed by what is queued then, are what was queued before, followed by
  -- bidirectional streams of the peer that arrived: with rising ids, above all that were seen before.
  pub run-Passes :
      FixedRole Q b
      → (calls : List Call) (s : QuicConnState Q) → Passes s (run calls s).0 (run calls s).1
  unfolding run
  run-Passes fixed [] s = SameQueue-Passes s s (refl, refl)
  run-Passes fixed (call ∷ calls) s =
      Passes-trans s (step call s).1 _ (step call s).0 _ (step-Passes fixed call s)
        (run-Passes fixed calls (step call s).1)

  -- Where all connections of an endpoint have one role, a stream whose id is not above the greatest id seen so
  -- far, and that is not queued, is not accepted by any calls that follow.
  pub passed_over_lost :
      FixedRole Q b
      → (id : ℕ) (calls : List Call) (s : QuicConnState Q) → id ≤ s.inbound_stream_id_current
      → elem id s.incoming_stream_id_fifo ≡ false
      → elem id (run calls s).0 ≡ false
  passed_over_lost fixed id calls s h out =
      let p = run-Passes fixed calls s in
      elem-append_left id (run calls s).0 (run calls s).1.incoming_stream_id_fifo (
        rw p.split (
          elem-append_false id s.incoming_stream_id_fifo p.arrived out
            (Rising-elem id _ _ p.arrived h p.rising)))
