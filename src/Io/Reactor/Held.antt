-- ===== src/Io/Reactor/Held.antt =====
-- crates/n3io/src/reactor.rs with crates/timing-wheel/src/lib.rs: what other threads do leaves a timer pending,
-- or wakes its task.
use zorya_rs.Base.{
  ℕ, ◌||◌, ◌<◌, ◌≡◌, refl, ◌∙◌, sym, ap, inl, inr, Bool, true, false, List, [], ◌∷◌, Option, none,
  some, arith, dec_lt, elem, All, OnDone, OnDone-then,
}
use zorya_rs.Io.Defs.{IoResult, ok, err}
use zorya_rs.Io.Reactor.{
  IoState, ReactorImpl, Interest, readable, Direction, reads, writes, state_at, put, wake, raise,
  raise_at, Event, io_event, drop_token, forget,
}
use zorya_rs.Io.Reactor.Calls.{
  Act, registers, sets, polls, enters, times_out, raises, ticks, shuts, drops, deregisters, act,
  acts, shut, shutdown, shut_at, and_then, deregister_timer, deregister,
}
use zorya_rs.Io.Reactor.Others.{
  unused-other, IsApart, register-apart, deadline-apart, poll_step-put, time_out-put,
}
use zorya_rs.Io.Reactor.Readiness.{put_frame}
use zorya_rs.Io.Reactor.NoLoss.{takes}
use zorya_rs.Io.Reactor.Frame.{drop_token-other, put-other}
use zorya_rs.Io.Reactor.Shutdown.{state_at-wake}
use zorya_rs.TimingWheel.Pending.{schedule}
use zorya_rs.TimingWheel.Deadlines.{
  agenda, tick_of, with_timer-IsScheduled, deadline_accepted, deadline_expired,
}
use zorya_rs.Io.Reactor.Due.{wanted, has-schedule_keeps}
use zorya_rs.Io.Reactor.Ticks.{IsPending, tick-IsPending}

-- A state of an io, and not of a timer.
abbrev of_io : IoState → Bool
of_io IoState.timeout = false
of_io (IoState.deadline i) = false
of_io (IoState.timer w) = false
of_io s = true

abbrev io_at : Option IoState → Bool
io_at none = false
io_at (some s) = of_io s

module _ (timer cx : ℕ) (want : Bool) (start interval t : ℕ) where
  abbrev Holds : ReactorImpl → Type 0
  Holds = IsPending timer cx want start interval t

  -- What leaves the wheel and the state of the timer alone, and forgets no waker.
  same-Holds :
      (r r' : ReactorImpl)
      → r'.timing_wheel ≡ r.timing_wheel
      → state_at reads timer r' ≡ state_at reads timer r
      → (elem cx r.woken ≡ true → elem cx r'.woken ≡ true)
      → Holds r
      → Holds r'
  same-Holds r r' wheel state woken h = record {
    valid = rw wheel h.valid;
    same_start = rw wheel h.same_start;
    same_interval = rw wheel h.same_interval;
    due = elim h.due [
      | inl over ↦ inl (state ∙ over.0, woken over.1)
      | inr x ↦ inr (state ∙ x.0, rw wheel x.1)
    ];
  }

  Holds-wake : (w : ℕ) (r : ReactorImpl) → Holds r → Holds (wake w r)
  Holds-wake w r h = same-Holds r (wake w r) refl refl (λ e. ground (arith, e)) h

  put-wheel :
      (d : Direction) (token : ℕ) (s : IoState) (r : ReactorImpl)
      → (put d token s r).timing_wheel ≡ r.timing_wheel
  unfolding put
  put-wheel reads token s r = refl
  put-wheel writes token s r = refl

  put-woken :
      (d : Direction) (token : ℕ) (s : IoState) (r : ReactorImpl)
      → (put d token s r).woken ≡ r.woken
  unfolding put
  put-woken reads token s r = refl
  put-woken writes token s r = refl

  Holds-put :
      (d : Direction) (token : ℕ) (s : IoState) (r : ReactorImpl)
      → state_at reads timer (put d token s r) ≡ state_at reads timer r
      → Holds r
      → Holds (put d token s r)
  Holds-put d token s r same h =
      same-Holds r (put d token s r) (put-wheel d token s r) same
        (λ e. rw (put-woken d token s r) e) h

  -- The state of the timer is none of an io.
  state_of_timer :
      (r : ReactorImpl) (s : IoState)
      → Holds r
      → of_io s ≡ true
      → ¬ (state_at reads timer r ≡ some s)
  state_of_timer r s h e q = elim h.due [
    | inl over ↦ let clash = sym (ap io_at over.0) ∙ ap io_at q ∙ e in cc
    | inr x ↦ let clash = sym (ap io_at x.0) ∙ ap io_at q ∙ e in cc
  ]

  -- A write to an entry that is an io's.
  Holds-put_io :
      (d : Direction) (token : ℕ) (old s : IoState) (r : ReactorImpl)
      → state_at d token r ≡ some old
      → of_io old ≡ true
      → Holds r
      → Holds (put d token s r)
  Holds-put_io d token old s r e o h = elim (put_frame reads d timer token s r) [
    | inl same ↦ Holds-put d token s r same h
    | inr (same, at, _) ↦ absurd (state_of_timer r old h o cc)
  ]

  raise_at-Holds :
      (d : Direction) (token : ℕ) (o : Option IoState) (r : ReactorImpl)
      → state_at d token r ≡ o
      → Holds r
      → OnDone Holds (raise_at d token o r)
  unfolding raise_at
  raise_at-Holds d token none r e h = h
  raise_at-Holds d token (some (IoState.waker w)) r e h =
      Holds-put_io d token (IoState.waker w) IoState.ready (wake w r)
        (state_at-wake d token w r ∙ e) refl (Holds-wake w r h)
  raise_at-Holds d token (some IoState.none) r e h =
      Holds-put_io d token IoState.none IoState.ready r e refl h
  raise_at-Holds d token (some IoState.shutdown) r e h = h
  raise_at-Holds d token (some IoState.ready) r e h = h
  raise_at-Holds d token (some IoState.timeout) r e h = tt
  raise_at-Holds d token (some (IoState.deadline i)) r e h = tt
  raise_at-Holds d token (some (IoState.timer w)) r e h = tt

  raise-Holds :
      (d : Direction) (b : Bool) (token : ℕ) (r : ReactorImpl)
      → Holds r
      → OnDone Holds (raise d b token r)
  unfolding raise
  raise-Holds d true token r h = raise_at-Holds d token (state_at d token r) r refl h
  raise-Holds d false token r h = h

  io_event-Holds : (e : Event) (r : ReactorImpl) → Holds r → OnDone Holds (io_event e r)
  unfolding io_event
  io_event-Holds e r h =
      let readable_now = e.is_read_closed || e.is_readable in
      let writable_now = e.is_write_closed || e.is_writable in
      OnDone-then Holds Holds (raise reads readable_now e.token r)
        (raise writes writable_now e.token) (raise-Holds reads readable_now e.token r h)
        (λ r' h'. raise-Holds writes writable_now e.token r' h')

  Holds-put_other :
      (d : Direction) (j : ℕ) (s : IoState) (r : ReactorImpl)
      → ¬ (j ≡ timer)
      → Holds r
      → Holds (put d j s r)
  Holds-put_other d j s r n h = Holds-put d j s r (put-other reads d timer j s r n) h

  shut_at-Holds :
      (d : Direction) (j : ℕ) (o : Option IoState) (r : ReactorImpl)
      → ¬ (j ≡ timer)
      → Holds r
      → Holds (shut_at d j o r).1
  unfolding shut_at
  shut_at-Holds d j none r n h = h
  shut_at-Holds d j (some (IoState.waker w)) r n h =
      Holds-wake w (put d j IoState.shutdown r) (Holds-put_other d j IoState.shutdown r n h)
  shut_at-Holds d j (some _) r n h = Holds-put_other d j IoState.shutdown r n h

  shut-Holds :
      (d : Direction) (b : Bool) (j : ℕ) (r : ReactorImpl)
      → ¬ (j ≡ timer)
      → Holds r
      → Holds (shut d b j r).1
  unfolding shut
  shut-Holds d true j r n h = shut_at-Holds d j (state_at d j r) r n h
  shut-Holds d false j r n h = h

  and_then-Holds :
      (x : IoResult (Unit {0}) × ReactorImpl) (f : ReactorImpl → IoResult (Unit {0}) × ReactorImpl)
      → Holds x.1
      → ((r : ReactorImpl) → Holds r → Holds (f r).1)
      → Holds (and_then x f).1
  unfolding and_then
  and_then-Holds (ok _, r) f h g = g r h
  and_then-Holds (err e, r) f h g = h

  shutdown-Holds :
      (j : ℕ) (interests : Interest) (r : ReactorImpl)
      → ¬ (j ≡ timer)
      → Holds r
      → Holds (shutdown j interests r).1
  unfolding shutdown
  shutdown-Holds j interests r n h =
      and_then-Holds (shut reads interests.is_readable j r) _
        (shut-Holds reads interests.is_readable j r n h)
        (λ r' h'. shut-Holds writes interests.is_writable j r' n h')

  forget-frame :
      (d : Direction) (b : Bool) (j : ℕ) (r : ReactorImpl)
      → ((forget d b j r).timing_wheel ≡ r.timing_wheel) × ((forget d b j r).woken ≡ r.woken)
  unfolding forget
  forget-frame reads true j r = (refl, refl)
  forget-frame writes true j r = (refl, refl)
  forget-frame d false j r = (refl, refl)

  drop_token-Holds :
      (j : ℕ) (i : Interest) (r : ReactorImpl) → ¬ (j ≡ timer) → Holds r → Holds (drop_token j i r)
  unfolding drop_token
  drop_token-Holds j i r n h =
      let r' = forget reads i.is_readable j r in
      let first = forget-frame reads i.is_readable j r in
      let second = forget-frame writes i.is_writable j r' in
      same-Holds r (drop_token j i r) (second.0 ∙ first.0) (drop_token-other reads i timer j r n)
        (λ e. rw (second.1, first.1) e) h

  -- The timer and its entry are there, so that a new token is another.
  Holds-IsApart : IsApart Holds (λ j. ¬ (j ≡ timer))
  Holds-IsApart = record {
    other = λ token r h u. elim h.due [
      | inl over ↦ unused-other reads timer token IoState.timeout r over.0 u
      | inr x ↦ unused-other reads timer token (IoState.timer cx) r x.0 u
    ];
    counted = λ n r h. same-Holds r (record r { token_gen = n }) refl refl (λ e. e) h;
    claimed = λ d token r n h. Holds-put_other d token IoState.none r n h;
    timed = λ token instant r n h. Holds-put_other reads token (IoState.deadline instant) r n h;
    dropped = λ token interests r n h. drop_token-Holds token interests r n h;
  }

  wanted-schedule :
      (want : Bool) (s x : ℕ) (l : List (ℕ × ℕ))
      → wanted want t timer l ≡ true
      → wanted want t timer (schedule s x l) ≡ true
  wanted-schedule true s x l h = has-schedule_keeps t timer s x l h
  wanted-schedule false s x l h = refl

  -- Another timer enters the wheel.
  enters-Holds :
      (j instant : ℕ) (r : ReactorImpl)
      → 0 < interval
      → Holds r
      → OnDone Holds (act (enters j instant) r)
  unfolding act
  enters-Holds j instant r p h =
      let w = r.timing_wheel in
      let p' : 0 < w.tick_interval = omega (arith, h.same_interval, p) in
      elim (dec_lt w.ticks (tick_of w instant)) [
        | no passed ↦ rw (deadline_expired w instant j p' (omega arith)) h
        | yes ahead ↦
            let s = with_timer-IsScheduled (tick_of w instant) j w h.valid ahead in
            rw (deadline_accepted w instant j p' ahead) (record {
              valid = s.valid;
              same_start = h.same_start;
              same_interval = h.same_interval;
              due = elim h.due [
                | inl over ↦ inl over
                | inr x ↦ inr (
                  x.0,
                  rw s.scheduled (wanted-schedule want (tick_of w instant) j (agenda w.sys) x.1),
                )
              ];
            })
      ]

  act-Holds :
      (a : Act) (r : ReactorImpl)
      → 0 < interval
      → takes timer a ≡ false
      → Holds r
      → OnDone Holds (act a r)
  unfolding act deregister deregister_timer
  act-Holds (raises e) r p n h = io_event-Holds e r h
  act-Holds (ticks now) r p n h = tick-IsPending timer cx want start interval t now r p h
  act-Holds (shuts j interests) r p n h = shutdown-Holds j interests r (λ e. ground (arith, n, e)) h
  act-Holds (drops j) r p n h = drop_token-Holds j readable r (λ e. ground (arith, n, e)) h
  act-Holds (deregisters j) r p n h =
      drop_token-Holds j (record { is_readable = true; is_writable = true }) r
        (λ e. ground (arith, n, e)) h
  act-Holds (registers registry interests) r p n h =
      register-apart Holds (λ j. ¬ (j ≡ timer)) Holds-IsApart registry interests r h
  act-Holds (sets instant) r p n h =
      deadline-apart Holds (λ j. ¬ (j ≡ timer)) Holds-IsApart instant r h
  act-Holds (polls step d j) r p n h =
      poll_step-put Holds step d j (state_at d j r) r h
        (λ s. Holds-put_other d j s r (λ e. ground (arith, n, e)) h)
  act-Holds (enters j instant) r p n h = enters-Holds j instant r p h
  act-Holds (times_out j) r p n h =
      time_out-put Holds j (state_at reads j r) r
        (Holds-put_other reads j IoState.timeout r (λ e. ground (arith, n, e)) h)

  pub acts-Holds :
      (as' : List Act) (r : ReactorImpl)
      → 0 < interval
      → All (λ a. takes timer a ≡ false) as'
      → Holds r
      → OnDone Holds (acts as' r)
  unfolding acts
  acts-Holds [] r p n h = h
  acts-Holds (a ∷ as') r p n h =
      OnDone-then Holds Holds (act a r) (acts as') (act-Holds a r p n.0 h)
        (λ r' h'. acts-Holds as' r' p n.1 h')
