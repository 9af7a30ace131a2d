-- ===== src/Quic/Conn/Sleeps.antt =====
-- crates/quic/src/conn.rs, `poll_send`: what it leaves behind when it tells its task to sleep.
use zorya_rs.Base.{
  ℕ, ◌≡◌, refl, subst, true, false, All, List, [], ◌∷◌, Option, none, some, is_some, arith,
  Bool-cases, inl, inr, Outcome, done, panic, ◌>>=◌,
}
use zorya_rs.Io.{IoResult, Poll, ready, pending}
use zorya_rs.Io.Reactor.{ReactorImpl, IoState, reads, state_at}
use zorya_rs.Io.Reactor.NoLoss.{takes}
use zorya_rs.Io.Reactor.TimerWaits.{poll_timeout-waits}
use zorya_rs.Io.Reactor.Calls
use zorya_rs.Quic.Quiche.{Quiche, QResult, Packet}
use zorya_rs.Quic.Conn.{QuicConnState}
use zorya_rs.Quic.Conn.Send.{
  Gaps, Sent, poll_send, send_loop, take_timer, sent, armed, wait_until, set_timer, sleep,
  timed_out,
}

-- No other task takes or polls the timer, if there is one, in the gaps of a turn.
abbrev pub Alone : Option ℕ → Gaps → Type 0
Alone none gaps = Unit
Alone (some timer) gaps =
    All (λ a. takes timer a ≡ false) gaps.before × All (λ a. takes timer a ≡ false) gaps.after

-- The timer, if there is one, stands in the reactor with the waker of the task.
abbrev pub Armed : ℕ → Option ℕ → ReactorImpl → Type 0
Armed cx none r = Unit
Armed cx (some timer) r = state_at reads timer r ≡ some (IoState.timer cx)

module _ {Q : Quiche} (cx : ℕ) where
  -- The task `cx` is the one to wake for sending, and there is a timer if quiche has a timeout, which
  -- the reactor wakes the same task for.
  abbrev pub Asleep : QuicConnState Q → ReactorImpl → Type 0
  Asleep s r =
      (s.send_waker ≡ some cx)
      × (is_some s.on_timeout_timer ≡ is_some (Q.timeout_instant s.quiche_conn))
      × Armed cx s.on_timeout_timer r

  abbrev Sleeps : List Gaps → Outcome (Sent Q) → Type 0
  Sleeps gaps (done x) =
      x.answer ≡ some pending → All (Alone x.state.on_timeout_timer) gaps → Asleep x.state x.reactor
  Sleeps gaps panic = Unit {0}

  abbrev Again : List Gaps → (QuicConnState Q → ReactorImpl → Outcome (Sent Q)) → Type 0
  Again gaps again =
      (s : QuicConnState Q) (r : ReactorImpl) → s.on_timeout_timer ≡ none → Sleeps gaps (again s r)

  -- One more turn.
  more-Sleeps :
      (g : Gaps) (gaps : List Gaps) (o : Outcome (Sent Q)) → Sleeps gaps o → Sleeps (g ∷ gaps) o
  more-Sleeps g gaps (done x) h = λ e a. h e a.1
  more-Sleeps g gaps panic h = tt

  bind-Sleeps :
      {A : Type 0} (gaps : List Gaps) (o : Outcome A) (f : A → Outcome (Sent Q))
      → ((a : A) → o ≡ done a → Sleeps gaps (f a))
      → Sleeps gaps (o >>= f)
  bind-Sleeps gaps (done a) f h = h a refl
  bind-Sleeps gaps panic f h = tt

  set_timer-Sleeps :
      (gaps : Gaps) (rest : List Gaps) (again : QuicConnState Q → ReactorImpl → Outcome (Sent Q))
      (timer : ℕ) (p : Poll (IoResult (Unit {0}))) (s : QuicConnState Q) (r₀ r : ReactorImpl)
      → s.on_timeout_timer ≡ none
      → is_some (Q.timeout_instant s.quiche_conn) ≡ true
      → Again rest again
      → Calls.poll_timeout cx timer gaps.before gaps.after r₀ ≡ done (p, r)
      → Sleeps (gaps ∷ rest) (set_timer cx again timer p s r)
  unfolding set_timer sleep
  set_timer-Sleeps gaps rest again timer (ready _) s r₀ r n t h e =
      more-Sleeps gaps rest _ (h _ _ n)
  set_timer-Sleeps gaps rest again timer pending s r₀ r n t h e = λ q a.
      (refl, rw t refl, poll_timeout-waits timer cx gaps.before gaps.after r₀ r a.0.0 a.0.1 e)

  armed-Sleeps :
      (gaps : Gaps) (rest : List Gaps) (again : QuicConnState Q → ReactorImpl → Outcome (Sent Q))
      (s : QuicConnState Q) (o : Option (ℕ × ReactorImpl))
      → s.on_timeout_timer ≡ none
      → is_some (Q.timeout_instant s.quiche_conn) ≡ true
      → Again rest again
      → Sleeps (gaps ∷ rest) (armed cx gaps again s o)
  unfolding armed
  armed-Sleeps gaps rest again s none n t h = tt
  armed-Sleeps gaps rest again s (some (timer, r)) n t h =
      bind-Sleeps (gaps ∷ rest) (Calls.poll_timeout cx timer gaps.before gaps.after r) _
        (λ p e. set_timer-Sleeps gaps rest again timer p.0 s r p.1 n t h e)

  wait_until-Sleeps :
      (gaps : Gaps) (rest : List Gaps) (again : QuicConnState Q → ReactorImpl → Outcome (Sent Q))
      (o : Option ℕ) (s : QuicConnState Q) (r : ReactorImpl)
      → s.on_timeout_timer ≡ none
      → Q.timeout_instant s.quiche_conn ≡ o
      → Again rest again
      → Sleeps (gaps ∷ rest) (wait_until cx gaps again o s r)
  unfolding wait_until sleep
  wait_until-Sleeps gaps rest again none s r n t h = λ e a. (refl, ground (arith, n, t), rw n tt)
  wait_until-Sleeps gaps rest again (some i) s r n t h =
      armed-Sleeps gaps rest again s (Calls.deadline i r) n (rw t refl) h

  sent-Sleeps :
      (gaps : Gaps) (rest : List Gaps) (again : QuicConnState Q → ReactorImpl → Outcome (Sent Q))
      (result : QResult Packet) (s : QuicConnState Q) (r : ReactorImpl)
      → s.on_timeout_timer ≡ none
      → Again rest again
      → Sleeps (gaps ∷ rest) (sent cx gaps again result s r)
  unfolding sent
  sent-Sleeps gaps rest again (QResult.ok packet) s r n h = λ e a. cc
  sent-Sleeps gaps rest again QResult.error_done s r n h =
      elim (Bool-cases (Q.is_closed s.quiche_conn)) [
        | inl e ↦ rw e (λ p a. cc)
        | inr e ↦
            rw e (wait_until-Sleeps gaps rest again (Q.timeout_instant s.quiche_conn) s r n refl h)
      ]
  sent-Sleeps gaps rest again QResult.error_other s r n h = λ e a. cc

  send_loop-Sleeps :
      (gaps : List Gaps) (s : QuicConnState Q) (r : ReactorImpl)
      → s.on_timeout_timer ≡ none
      → Sleeps gaps (send_loop cx gaps s r)
  unfolding send_loop
  send_loop-Sleeps [] s r n = λ e a. cc
  send_loop-Sleeps (gaps ∷ rest) s r n =
      let s' = record s { quiche_conn = (Q.send s.quiche_conn).1 } in
      sent-Sleeps gaps rest (λ s r. send_loop cx rest s r) (Q.send s.quiche_conn).0 s' r n
        (λ s r n. send_loop-Sleeps rest s r n)

  timed_out_none :
      (p : Poll (IoResult (Unit {0}))) (s : QuicConnState Q)
      → s.on_timeout_timer ≡ none
      → (timed_out p s).on_timeout_timer ≡ none
  unfolding timed_out
  timed_out_none (ready _) s n = n
  timed_out_none pending s n = n

  bind_bind-Sleeps :
      {A B : Type 0} (gaps : List Gaps) (o : Outcome A) (f : A → B) (g : B → Outcome (Sent Q))
      → ((a : A) → Sleeps gaps (g (f a)))
      → Sleeps gaps ((o >>= λ a. done (f a)) >>= g)
  bind_bind-Sleeps gaps (done a) f g h = h a
  bind_bind-Sleeps gaps panic f g h = tt

  take_timer-Sleeps :
      (gaps : Gaps) (rest : List Gaps) (s : QuicConnState Q) (r : ReactorImpl) (o : Option ℕ)
      → s.on_timeout_timer ≡ o
      → Sleeps rest (take_timer cx gaps o s r >>= λ p. send_loop cx rest p.0 p.1)
  unfolding take_timer
  take_timer-Sleeps gaps rest s r none n = send_loop-Sleeps rest s r n
  take_timer-Sleeps gaps rest s r (some timer) n =
      bind_bind-Sleeps rest (Calls.poll_timeout cx timer gaps.before gaps.after r) _ _ (λ p.
        let out = timed_out p.0 (record s { on_timeout_timer = none }) in
        let s' : QuicConnState Q = record out { send_waker = none } in
        send_loop-Sleeps rest s' (Calls.deregister_timer timer p.1)
          (timed_out_none p.0 (record s { on_timeout_timer = none }) refl))

  -- Where `poll_send` returns `Pending`, whatever timer it found and however often its timer had expired
  -- already, its task is the one that is woken when there is something to send, and a timer is set
  -- exactly if quiche has a timeout; this timer stands in the reactor with the task to wake. Other
  -- threads do not take or poll the new timer in the gaps of the loop; else they do what they like.
  pub poll_send-Asleep :
      (gaps : Gaps) (rest : List Gaps) (s : QuicConnState Q) (r : ReactorImpl) (x : Sent Q)
      → poll_send cx gaps rest s r ≡ done x
      → x.answer ≡ some pending
      → All (Alone x.state.on_timeout_timer) rest
      → Asleep x.state x.reactor
  unfolding poll_send
  poll_send-Asleep gaps rest s r x e =
      subst (λ o. Sleeps rest o) e (take_timer-Sleeps gaps rest s r s.on_timeout_timer refl)
