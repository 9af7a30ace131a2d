-- ===== src/Quic/Conn/SendQueue.antt =====
-- crates/quic/src/conn.rs, `poll_send`: what it does to the queue of `poll_accept` and to the ids that
-- this side has left. A relation of states that both of its lemmas instantiate is carried through it.
use zorya_rs.Base.{
  ℕ, ◌≡◌, refl, subst, Bool, List, [], ◌∷◌, Option, none, some, Bool-cases, inl, inr, Outcome, done,
  panic, ◌>>=◌,
}
use zorya_rs.Io.{IoResult, Poll, ready, pending}
use zorya_rs.Io.Reactor.{ReactorImpl}
use zorya_rs.Io.Reactor.Calls
use zorya_rs.Quic.Quiche.{Quiche, QResult, Packet}
use zorya_rs.Quic.Conn.{QuicConnState, finalize_events, poll_conn_stat_events}
use zorya_rs.Quic.Conn.Send.{
  Gaps, Sent, poll_send, send_loop, take_timer, sent, armed, wait_until, set_timer, sleep,
  timed_out,
}
use zorya_rs.Quic.Conn.Incoming.{
  FixedRole, Grows, SameQueue-Grows, Grows-trans, poll_conn_stat_events-Grows,
}

-- The fields that only incoming streams, and only opening one, change.
abbrev pub Same : {Q : Quiche} → QuicConnState Q → QuicConnState Q → Type 0
Same s s' =
    (s'.incoming_stream_id_fifo ≡ s.incoming_stream_id_fifo)
    × (s'.inbound_stream_id_current ≡ s.inbound_stream_id_current)
    × (s'.outbound_bidi_stream_id_next ≡ s.outbound_bidi_stream_id_next)

-- A relation that the calls in `poll_send` keep.
pub record Carried {Q : Quiche} (R : QuicConnState Q → QuicConnState Q → Type 0) : Type 0 where
  pub same : (s s' : QuicConnState Q) → Same s s' → R s s'
  pub trans : (s s' s'' : QuicConnState Q) → R s s' → R s' s'' → R s s''
  pub events : (s : QuicConnState Q) → R s (poll_conn_stat_events s).1

module _ {Q : Quiche} (R : QuicConnState Q → QuicConnState Q → Type 0) (carried : Carried R) where
  -- A call that comes to an end leaves a state so related.
  abbrev Ends : QuicConnState Q → Outcome (Sent Q) → Type 0
  Ends s (done x) = R s x.state
  Ends s panic = Unit {0}

  abbrev Again : (QuicConnState Q → ReactorImpl → Outcome (Sent Q)) → Type 0
  Again again = (s : QuicConnState Q) (r : ReactorImpl) → Ends s (again s r)

  Ends-Same : (s s' : QuicConnState Q) (o : Outcome (Sent Q)) → Same s s' → Ends s' o → Ends s o
  Ends-Same s s' (done x) e h = carried.trans s s' x.state (carried.same s s' e) h
  Ends-Same s s' panic e h = tt

  set_timer-Ends :
      (cx : ℕ) (again : QuicConnState Q → ReactorImpl → Outcome (Sent Q)) (timer : ℕ)
      (p : Poll (IoResult (Unit {0}))) (s : QuicConnState Q) (r : ReactorImpl)
      → Again again
      → Ends s (set_timer cx again timer p s r)
  unfolding set_timer sleep
  set_timer-Ends cx again timer (ready _) s r h =
      Ends-Same s (record s { quiche_conn = Q.on_timeout s.quiche_conn }) _ (refl, refl, refl)
        (h _ _)
  set_timer-Ends cx again timer pending s r h = carried.same s _ (refl, refl, refl)

  bind-Ends :
      {A : Type 0} (s : QuicConnState Q) (o : Outcome A) (f : A → Outcome (Sent Q))
      → ((a : A) → Ends s (f a))
      → Ends s (o >>= f)
  bind-Ends s (done a) f h = h a
  bind-Ends s panic f h = tt

  armed-Ends :
      (cx : ℕ) (gaps : Gaps) (again : QuicConnState Q → ReactorImpl → Outcome (Sent Q))
      (s : QuicConnState Q) (o : Option (ℕ × ReactorImpl))
      → Again again
      → Ends s (armed cx gaps again s o)
  unfolding armed
  armed-Ends cx gaps again s none h = tt
  armed-Ends cx gaps again s (some (timer, r)) h =
      bind-Ends s (Calls.poll_timeout cx timer gaps.before gaps.after r) _
        (λ p. set_timer-Ends cx again timer p.0 s p.1 h)

  wait_until-Ends :
      (cx : ℕ) (gaps : Gaps) (again : QuicConnState Q → ReactorImpl → Outcome (Sent Q))
      (o : Option ℕ) (s : QuicConnState Q) (r : ReactorImpl)
      → Again again
      → Ends s (wait_until cx gaps again o s r)
  unfolding wait_until sleep
  wait_until-Ends cx gaps again none s r h = carried.same s _ (refl, refl, refl)
  wait_until-Ends cx gaps again (some t) s r h = armed-Ends cx gaps again s (Calls.deadline t r) h

  sent-Ends :
      (cx : ℕ) (gaps : Gaps) (again : QuicConnState Q → ReactorImpl → Outcome (Sent Q))
      (result : QResult Packet) (s : QuicConnState Q) (r : ReactorImpl)
      → Again again
      → Ends s (sent cx gaps again result s r)
  unfolding sent finalize_events
  sent-Ends cx gaps again (QResult.ok packet) s r h = carried.events s
  sent-Ends cx gaps again QResult.error_done s r h = elim (Bool-cases (Q.is_closed s.quiche_conn)) [
    | inl e ↦ rw e (carried.same s (finalize_events s).1 (refl, refl, refl))
    | inr e ↦ rw e (wait_until-Ends cx gaps again (Q.timeout_instant s.quiche_conn) s r h)
  ]
  sent-Ends cx gaps again QResult.error_other s r h = carried.same s s (refl, refl, refl)

  send_loop-Ends :
      (cx : ℕ) (gaps : List Gaps) (s : QuicConnState Q) (r : ReactorImpl)
      → Ends s (send_loop cx gaps s r)
  unfolding send_loop
  send_loop-Ends cx [] s r = carried.same s s (refl, refl, refl)
  send_loop-Ends cx (gaps ∷ rest) s r =
      let s' = record s { quiche_conn = (Q.send s.quiche_conn).1 } in
      Ends-Same s s' _ (refl, refl, refl)
        (sent-Ends cx gaps (λ s r. send_loop cx rest s r) (Q.send s.quiche_conn).0 s' r
          (λ s r. send_loop-Ends cx rest s r))

  timed_out-Same : (p : Poll (IoResult (Unit {0}))) (s : QuicConnState Q) → Same s (timed_out p s)
  unfolding timed_out
  timed_out-Same (ready _) s = (refl, refl, refl)
  timed_out-Same pending s = (refl, refl, refl)

  bind_bind-Ends :
      {A B : Type 0} (s : QuicConnState Q) (o : Outcome A) (f : A → B) (g : B → Outcome (Sent Q))
      → ((a : A) → Ends s (g (f a)))
      → Ends s ((o >>= λ a. done (f a)) >>= g)
  bind_bind-Ends s (done a) f g h = h a
  bind_bind-Ends s panic f g h = tt

  take_timer-Ends :
      (cx : ℕ) (gaps : Gaps) (rest : List Gaps) (s : QuicConnState Q) (r : ReactorImpl)
      (o : Option ℕ)
      → Ends s (take_timer cx gaps o s r >>= λ p. send_loop cx rest p.0 p.1)
  unfolding take_timer
  take_timer-Ends cx gaps rest s r none = send_loop-Ends cx rest s r
  take_timer-Ends cx gaps rest s r (some timer) =
      bind_bind-Ends s (Calls.poll_timeout cx timer gaps.before gaps.after r) _ _ (λ p.
        let out = timed_out p.0 (record s { on_timeout_timer = none }) in
        let same = timed_out-Same p.0 (record s { on_timeout_timer = none }) in
        let s' : QuicConnState Q = record out { send_waker = none } in
        Ends-Same s s' _ same (send_loop-Ends cx rest s' (Calls.deregister_timer timer p.1)))

  pub poll_send-Carried :
      (cx : ℕ) (gaps : Gaps) (rest : List Gaps) (s : QuicConnState Q) (r : ReactorImpl) (x : Sent Q)
      → poll_send cx gaps rest s r ≡ done x
      → R s x.state
  unfolding poll_send
  poll_send-Carried cx gaps rest s r x e =
      subst (λ o. Ends s o) e (take_timer-Ends cx gaps rest s r s.on_timeout_timer)

module _ {Q : Quiche} (b : Bool) (fixed : FixedRole Q b) where
  Grows-Carried : Carried (Grows {Q = Q} b)
  Grows-Carried = record {
    same = λ s s' e. SameQueue-Grows b s s' (e.0, e.1);
    trans = Grows-trans b;
    events = poll_conn_stat_events-Grows b fixed;
  }

  -- A call of `poll_send` that does not panic leaves a queue that grew.
  pub poll_send-Grows :
      (cx : ℕ) (gaps : Gaps) (rest : List Gaps) (s : QuicConnState Q) (r : ReactorImpl) (x : Sent Q)
      → poll_send cx gaps rest s r ≡ done x
      → Grows b s x.state
  poll_send-Grows = poll_send-Carried (Grows b) Grows-Carried
