-- ===== src/Io/Reactor/Live.antt =====
-- crates/n3io/src/reactor.rs: an io that a task waits for, or that nobody waits for, and what other threads
-- do to it, short of taking it away or polling it.
use zorya_rs.Base.{
  ℕ, ◌||◌, ◌≡◌, ◌≢◌, ◌∙◌, refl, sym, ap, Bool, true, false, List, [], ◌∷◌, Option, none, some,
  Outcome, done, panic, arith, inl, inr, All, OnDone, OnDone-then, OnDone-bind,
}
use zorya_rs.TimingWheel
use zorya_rs.Io.Reactor.{
  IoState, ReactorImpl, readable, Direction, reads, writes, state_at, put, wake, raise, raise_at,
  Event, io_event, expire_at, expire_token, expire_tokens, timing_wheel_tick,
}
use zorya_rs.Io.Reactor.Calls.{
  Act, registers, sets, polls, enters, times_out, raises, ticks, shuts, drops, deregisters, act,
  acts, deregister, deregister_timer,
}
use zorya_rs.Io.Reactor.Readiness.{put_frame}
use zorya_rs.Io.Reactor.Frame.{put-other, drop_token-other, shutdown-other}
use zorya_rs.Io.Reactor.NoLoss.{takes, with_wheel-Entry}
use zorya_rs.Io.Reactor.Shutdown.{state_at-wake}
use zorya_rs.Io.Reactor.Others.{
  Entry, Entry-IsApart, register-apart, deadline-apart, poll_step-put, time_out-put,
}

abbrev pub alive : IoState → Bool
alive IoState.none = true
alive IoState.ready = true
alive (IoState.waker w) = true
alive _ = false

abbrev pub Live : Direction → ℕ → ReactorImpl → Type 0
Live d io r = (s : IoState) × (state_at d io r ≡ some s) × (alive s ≡ true)

abbrev pub alive_at : Option IoState → Bool
alive_at none = false
alive_at (some s) = alive s

OnDone-map :
    {A : Type 0} (P Q : A → Type 0) (o : Outcome A)
    → ((a : A) → P a → Q a)
    → OnDone P o
    → OnDone Q o
OnDone-map P Q (done a) f h = f a h
OnDone-map P Q panic f h = tt

module _ (d : Direction) (io : ℕ) where
  pub put-Live :
      (d' : Direction) (j : ℕ) (s : IoState) (r : ReactorImpl)
      → alive s ≡ true
      → Live d io r
      → Live d io (put d' j s r)
  put-Live d' j s r a (s₀, e, b) = elim (put_frame d d' io j s r) [
    | inl same ↦ (s₀, same ∙ e, b)
    | inr (_, _, new) ↦ (s, new, a)
  ]

  wake-Live : (w : ℕ) (r : ReactorImpl) → Live d io r → Live d io (wake w r)
  wake-Live w r (s, e, a) = (s, state_at-wake d io w r ∙ e, a)

  raise_at-Live :
      (d' : Direction) (token : ℕ) (o : Option IoState) (r : ReactorImpl)
      → Live d io r
      → OnDone (Live d io) (raise_at d' token o r)
  unfolding raise_at
  raise_at-Live d' token none r h = h
  raise_at-Live d' token (some (IoState.waker w)) r h =
      put-Live d' token IoState.ready (wake w r) refl (wake-Live w r h)
  raise_at-Live d' token (some IoState.none) r h = put-Live d' token IoState.ready r refl h
  raise_at-Live d' token (some IoState.shutdown) r h = h
  raise_at-Live d' token (some IoState.ready) r h = h
  raise_at-Live d' token (some IoState.timeout) r h = tt
  raise_at-Live d' token (some (IoState.deadline i)) r h = tt
  raise_at-Live d' token (some (IoState.timer w)) r h = tt

  raise-Live :
      (d' : Direction) (b : Bool) (token : ℕ) (r : ReactorImpl)
      → Live d io r
      → OnDone (Live d io) (raise d' b token r)
  unfolding raise
  raise-Live d' true token r h = raise_at-Live d' token (state_at d' token r) r h
  raise-Live d' false token r h = h

  io_event-Live : (e : Event) (r : ReactorImpl) → Live d io r → OnDone (Live d io) (io_event e r)
  unfolding io_event
  io_event-Live e r h =
      OnDone-then (Live d io) (Live d io)
        (raise reads (e.is_read_closed || e.is_readable) e.token r) _
        (raise-Live reads (e.is_read_closed || e.is_readable) e.token r h)
        (λ r' h'. raise-Live writes (e.is_write_closed || e.is_writable) e.token r' h')

  expire_at-Live :
      (token : ℕ) (o : Option IoState) (r : ReactorImpl)
      → state_at reads token r ≡ o
      → Live d io r
      → OnDone (Live d io) (expire_at token o r)
  unfolding expire_at
  expire_at-Live token none r q h = h
  expire_at-Live token (some (IoState.timer w)) r q (s, e, a) =
      wake-Live w (put reads token IoState.timeout r)
        (elim (put_frame d reads io token IoState.timeout r) [
          | inl same ↦ (s, same ∙ e, a)
          | inr (same, at, _) ↦
              let there : state_at reads io r ≡ some (IoState.timer w) = rw same at q in
              let clash = sym (ap alive_at (sym at ∙ there)) ∙ ap alive_at e ∙ a in cc
        ])
  expire_at-Live token (some _) r q h = tt

  expire_tokens-Live :
      (tokens : List ℕ) (r : ReactorImpl)
      → Live d io r
      → OnDone (Live d io) (expire_tokens tokens r)
  unfolding expire_tokens expire_token
  expire_tokens-Live [] r h = h
  expire_tokens-Live (token ∷ tokens) r h =
      OnDone-then (Live d io) (Live d io) (expire_at token (state_at reads token r) r) _
        (expire_at-Live token (state_at reads token r) r refl h) (expire_tokens-Live tokens)

  with_wheel-Live :
      (wheel : TimingWheel.TimeWheel ℕ) (r : ReactorImpl)
      → Live d io r
      → Live d io (record r { timing_wheel = wheel })
  with_wheel-Live = by_direction d
    where
      by_direction :
          (d : Direction) (wheel : TimingWheel.TimeWheel ℕ) (r : ReactorImpl)
          → Live d io r
          → Live d io (record r { timing_wheel = wheel })
      by_direction reads wheel r h = h
      by_direction writes wheel r h = h

  tick-Live :
      (now : ℕ) (r : ReactorImpl) → Live d io r → OnDone (Live d io) (timing_wheel_tick now r)
  unfolding timing_wheel_tick
  tick-Live now r h =
      OnDone-bind (Live d io) (TimingWheel.round r.timing_wheel now 0 []) _ (λ round.
        expire_tokens-Live (TimingWheel.events_of round)
          (record r { timing_wheel = TimingWheel.wheel_of round })
          (with_wheel-Live (TimingWheel.wheel_of round) r h))

  lives_on :
      (o : Outcome ReactorImpl) (s : IoState)
      → alive s ≡ true
      → OnDone (Entry d io s) o
      → OnDone (Live d io) o
  lives_on o s a h = OnDone-map (Entry d io s) (Live d io) o (λ r e. (s, e, a)) h

  act-Live :
      (a : Act) (r : ReactorImpl) → takes io a ≡ false → Live d io r → OnDone (Live d io) (act a r)
  unfolding act deregister deregister_timer
  act-Live (raises e) r n h = io_event-Live e r h
  act-Live (ticks now) r n h = tick-Live now r h
  act-Live (shuts j interests) r n (s, e, a) =
      (s, shutdown-other d interests io j r (λ same. ground (arith, same, n)) ∙ e, a)
  act-Live (drops j) r n (s, e, a) =
      (s, drop_token-other d readable io j r (λ same. ground (arith, same, n)) ∙ e, a)
  act-Live (deregisters j) r n (s, e, a) = (
    s,
    drop_token-other d (record { is_readable = true; is_writable = true }) io j r
          (λ same. ground (arith, same, n))
        ∙ e,
    a,
  )
  act-Live (registers registry interests) r n (s, e, a) =
      lives_on _ s a
        (register-apart (Entry d io s) (λ j. j ≢ io) (Entry-IsApart d io s) registry interests r e)
  act-Live (sets instant) r n (s, e, a) =
      lives_on _ s a
        (deadline-apart (Entry d io s) (λ j. j ≢ io) (Entry-IsApart d io s) instant r e)
  act-Live (polls step d' j) r n (s, e, a) =
      poll_step-put (Live d io) step d' j (state_at d' j r) r (s, e, a)
        (λ s'. (s, put-other d d' io j s' r (λ same. ground (arith, same, n)) ∙ e, a))
  act-Live (enters j instant) r n (s, e, a) =
      lives_on _ s a (with_wheel-Entry d io s r (TimingWheel.deadline r.timing_wheel instant j) e)
  act-Live (times_out j) r n (s, e, a) =
      time_out-put (Live d io) j (state_at reads j r) r
        (s, put-other d reads io j IoState.timeout r (λ same. ground (arith, same, n)) ∙ e, a)

  pub acts-Live :
      (as' : List Act) (r : ReactorImpl)
      → All (λ a. takes io a ≡ false) as'
      → Live d io r
      → OnDone (Live d io) (acts as' r)
  unfolding acts
  acts-Live [] r n h = h
  acts-Live (a ∷ as') r n h =
      OnDone-then (Live d io) (Live d io) (act a r) (acts as') (act-Live a r n.0 h)
        (λ r' h'. acts-Live as' r' n.1 h')
