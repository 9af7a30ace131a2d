-- ===== src/Io/Reactor/TimerWaits.antt =====
-- crates/n3io/src/reactor.rs, `poll_timeout`: a task that is told to wait for a timer is the one that
-- the timer wakes.
use zorya_rs.Base.{
  ℕ, Bool, true, false, ◌≡◌, refl, sym, subst, ◌||◌, ◌∙◌, inl, inr, List, [], ◌∷◌, Option, none,
  some, done, arith, All, OnDone-at, OnDone-bind,
}
use zorya_rs.Base.Maps.{lookup-remove, nat_key}
use zorya_rs.TimingWheel
use zorya_rs.Io.Defs.{IoResult, ok, err, ready, pending}
use zorya_rs.Io.Reactor.{
  IoState, ReactorImpl, Interest, readable, Direction, reads, writes, state_at, put, wake, raise,
  raise_at, io_event, expire_at, expire_token, expire_tokens, timing_wheel_tick, drop_token, forget,
}
use zorya_rs.Io.Reactor.Calls.{
  Act, registers, sets, polls, enters, times_out, raises, ticks, shuts, drops, deregisters, act,
  acts, shut, shutdown, shut_at, and_then, deregister_timer, deregister, poll_timeout, timer_first,
  timer_again,
}
use zorya_rs.Io.Reactor.NoLoss.{takes}
use zorya_rs.Io.Reactor.Frame.{put-other}
use zorya_rs.Io.Reactor.Others.{
  IsApart, register-apart, deadline-apart, poll_step-put, time_out-put,
}
use zorya_rs.Io.Reactor.Readiness.{state_at-put_self, put_frame, >>=-eq-done}

module _ (timer : ℕ) where
  -- A state that is no timer with a task.
  abbrev IsTimer : ℕ → ReactorImpl → Type 0
  IsTimer w r = state_at reads timer r ≡ some (IoState.timer w)

  -- No step of another thread puts another task in the place of the one that waits.
  abbrev pub Tame : ReactorImpl → ReactorImpl → Type 0
  Tame r r' = (w : ℕ) → IsTimer w r' → IsTimer w r

  put-Tame :
      (d : Direction) (j : ℕ) (s : IoState) (r : ReactorImpl)
      → ((w : ℕ) → ¬ (s ≡ IoState.timer w))
      → Tame r (put d j s r)
  put-Tame d j s r n w e = elim (put_frame reads d timer j s r) [
    | inl same ↦ sym same ∙ e
    | inr (_, _, new) ↦ absurd (n w (cc (e, new)))
  ]

  raise_at-Tame :
      (d : Direction) (j : ℕ) (o : Option IoState) (r r' : ReactorImpl)
      → raise_at d j o r ≡ done r'
      → Tame r r'
  unfolding raise_at
  raise_at-Tame d j none r r' e w t = ground (arith, e, t)
  raise_at-Tame d j (some (IoState.waker v)) r r' e w t =
      let e' : put d j IoState.ready (wake v r) ≡ r' = cc in
      put-Tame d j IoState.ready (wake v r) (λ w q. cc) w (rw e' t)
  raise_at-Tame d j (some IoState.none) r r' e w t =
      let e' : put d j IoState.ready r ≡ r' = cc in
      put-Tame d j IoState.ready r (λ w q. cc) w (rw e' t)
  raise_at-Tame d j (some IoState.shutdown) r r' e w t = ground (arith, e, t)
  raise_at-Tame d j (some IoState.ready) r r' e w t = ground (arith, e, t)
  raise_at-Tame d j (some _) r r' e w t = cc

  raise-Tame :
      (d : Direction) (b : Bool) (j : ℕ) (r r' : ReactorImpl) → raise d b j r ≡ done r' → Tame r r'
  unfolding raise
  raise-Tame d true j r r' e w t = raise_at-Tame d j (state_at d j r) r r' e w t
  raise-Tame d false j r r' e w t = ground (arith, e, t)

  Tame-trans : (r r' r'' : ReactorImpl) → Tame r r' → Tame r' r'' → Tame r r''
  Tame-trans r r' r'' h k w t = h w (k w t)

  expire_at-Tame :
      (j : ℕ) (o : Option IoState) (r r' : ReactorImpl) → expire_at j o r ≡ done r' → Tame r r'
  unfolding expire_at
  expire_at-Tame j none r r' e w t = ground (arith, e, t)
  expire_at-Tame j (some (IoState.timer v)) r r' e w t =
      let e' : wake v (put reads j IoState.timeout r) ≡ r' = cc in
      put-Tame reads j IoState.timeout r (λ w q. cc) w (subst (IsTimer w) (sym e') t)
  expire_at-Tame j (some _) r r' e w t = cc

  expire_tokens-Tame :
      (tokens : List ℕ) (r r' : ReactorImpl) → expire_tokens tokens r ≡ done r' → Tame r r'
  unfolding expire_tokens expire_token
  expire_tokens-Tame [] r r' e w t = ground (arith, e, t)
  expire_tokens-Tame (token ∷ tokens) r r' e w t =
      let (q, first, rest) = >>=-eq-done (expire_at token (state_at reads token r) r) _ e in
      Tame-trans r q r' (expire_at-Tame token _ r q first) (expire_tokens-Tame tokens q r' rest) w t

  tick-Tame : (now : ℕ) (r r' : ReactorImpl) → timing_wheel_tick now r ≡ done r' → Tame r r'
  unfolding timing_wheel_tick
  tick-Tame now r r' e =
      let (round, run, rest) = >>=-eq-done (TimingWheel.round r.timing_wheel now 0 []) _ e in
      expire_tokens-Tame (TimingWheel.events_of round)
        (record r { timing_wheel = TimingWheel.wheel_of round }) r' rest

  forget-Tame : (d : Direction) (b : Bool) (j : ℕ) (r : ReactorImpl) → Tame r (forget d b j r)
  unfolding forget
  forget-Tame reads true j r w t = ground (arith, lookup-remove j timer r.io_readable_stats, t)
  forget-Tame writes true j r w t = t
  forget-Tame d false j r w t = t

  drop_token-Tame : (j : ℕ) (i : Interest) (r : ReactorImpl) → Tame r (drop_token j i r)
  unfolding drop_token
  drop_token-Tame j i r =
      Tame-trans r (forget reads i.is_readable j r) (drop_token j i r)
        (forget-Tame reads i.is_readable j r)
        (forget-Tame writes i.is_writable j (forget reads i.is_readable j r))

  shut_at-Tame :
      (d : Direction) (j : ℕ) (o : Option IoState) (r : ReactorImpl) → Tame r (shut_at d j o r).1
  unfolding shut_at
  shut_at-Tame d j none r w t = t
  shut_at-Tame d j (some (IoState.waker v)) r w t = put-Tame d j IoState.shutdown r (λ w q. cc) w t
  shut_at-Tame d j (some _) r w t = put-Tame d j IoState.shutdown r (λ w q. cc) w t

  shut-Tame : (d : Direction) (b : Bool) (j : ℕ) (r : ReactorImpl) → Tame r (shut d b j r).1
  unfolding shut
  shut-Tame d true j r w t = shut_at-Tame d j (state_at d j r) r w t
  shut-Tame d false j r w t = t

  and_then-Tame :
      (r : ReactorImpl) (p : IoResult (Unit {0}) × ReactorImpl)
      (f : ReactorImpl → IoResult (Unit {0}) × ReactorImpl)
      → Tame r p.1
      → ((q : ReactorImpl) → Tame q (f q).1)
      → Tame r (and_then p f).1
  unfolding and_then
  and_then-Tame r (ok _, q) f h g = Tame-trans r q (f q).1 h (g q)
  and_then-Tame r (err _, q) f h g = h

  Tame-IsApart : (r₀ : ReactorImpl) → IsApart (Tame r₀) (λ j. Unit)
  Tame-IsApart r₀ = record {
    other = λ token r h u. tt;
    counted = λ n r h. h;
    claimed = λ d token r o h.
        Tame-trans r₀ r (put d token IoState.none r) h
          (put-Tame d token IoState.none r (λ w q. cc));
    timed = λ token instant r o h.
        Tame-trans r₀ r (put reads token (IoState.deadline instant) r) h
          (put-Tame reads token (IoState.deadline instant) r (λ w q. cc));
    dropped = λ token interests r o h.
        Tame-trans r₀ r (drop_token token interests r) h (drop_token-Tame token interests r);
  }

  act-Tame : (a : Act) (r r' : ReactorImpl) → takes timer a ≡ false → act a r ≡ done r' → Tame r r'
  unfolding act io_event deregister_timer deregister shutdown
  act-Tame (raises e) r r' n q w t =
      let (p, first, second) =
        >>=-eq-done (raise reads (e.is_read_closed || e.is_readable) e.token r)
          (raise writes (e.is_write_closed || e.is_writable) e.token) q in
      Tame-trans r p r' (raise-Tame reads (e.is_read_closed || e.is_readable) e.token r p first)
        (raise-Tame writes (e.is_write_closed || e.is_writable) e.token p r' second) w t
  act-Tame (ticks now) r r' n q w t = tick-Tame now r r' q w t
  act-Tame (shuts j i) r r' n q w t =
      and_then-Tame r (shut reads i.is_readable j r) (shut writes i.is_writable j)
        (shut-Tame reads i.is_readable j r) (λ p. shut-Tame writes i.is_writable j p) w
        (ground (arith, q, t))
  act-Tame (drops j) r r' n q w t = drop_token-Tame j readable r w (ground (arith, q, t))
  act-Tame (deregisters j) r r' n q w t =
      drop_token-Tame j (record { is_readable = true; is_writable = true }) r w
        (ground (arith, q, t))
  act-Tame (registers registry interests) r r' n q w t =
      OnDone-at (Tame r) (act (registers registry interests) r) r'
        (register-apart (Tame r) (λ j. Unit) (Tame-IsApart r) registry interests r (λ w t. t)) q w t
  act-Tame (sets instant) r r' n q w t =
      OnDone-at (Tame r) (act (sets instant) r) r'
        (deadline-apart (Tame r) (λ j. Unit) (Tame-IsApart r) instant r (λ w t. t)) q w t
  act-Tame (polls step d j) r r' n q w t =
      OnDone-at (Tame r) (act (polls step d j) r) r'
        (poll_step-put (Tame r) step d j (state_at d j r) r (λ w t. t)
          (λ s w t. sym (put-other reads d timer j s r (λ same. ground (arith, same, n))) ∙ t))
        q w t
  act-Tame (enters j instant) r r' n q w t =
      OnDone-at (Tame r) (act (enters j instant) r) r'
        (OnDone-bind (Tame r) (TimingWheel.deadline r.timing_wheel instant j) _ (λ p w t. t)) q w t
  act-Tame (times_out j) r r' n q w t =
      OnDone-at (Tame r) (act (times_out j) r) r'
        (time_out-put (Tame r) j (state_at reads j r) r
          (put-Tame reads j IoState.timeout r (λ w q. cc)))
        q w t

  acts-Tame :
      (as' : List Act) (r r' : ReactorImpl)
      → All (λ a. takes timer a ≡ false) as'
      → acts as' r ≡ done r'
      → Tame r r'
  unfolding acts
  acts-Tame [] r r' n q w t = ground (arith, q, t)
  acts-Tame (a ∷ as') r r' n q w t =
      let (p, first, rest) = >>=-eq-done (act a r) _ q in
      Tame-trans r p r' (act-Tame a r p n.0 first) (acts-Tame as' p r' n.1 rest) w t

  timer_again-timer :
      (cx : ℕ) (tick : Option ℕ) (o : Option IoState) (r r' : ReactorImpl)
      → ((w : ℕ) → o ≡ some (IoState.timer w) → w ≡ cx)
      → state_at reads timer r ≡ o
      → timer_again timer tick o r ≡ done (pending, r')
      → state_at reads timer r' ≡ some (IoState.timer cx)
  unfolding timer_again
  timer_again-timer cx tick none r r' h s e = cc
  timer_again-timer cx none (some _) r r' h s e = cc
  timer_again-timer cx (some t) (some (IoState.timer w)) r r' h s e =
      let same = h w refl in ground (arith, same, s, e)
  timer_again-timer cx (some t) (some _) r r' h s e = cc

  timer_first-timer :
      (cx : ℕ) (before after : List Act) (o : Option IoState) (r r' : ReactorImpl)
      → All (λ a. takes timer a ≡ false) before
      → All (λ a. takes timer a ≡ false) after
      → timer_first cx timer before after o r ≡ done (pending, r')
      → state_at reads timer r' ≡ some (IoState.timer cx)
  unfolding timer_first
  timer_first-timer cx before after none r r' nb na e = cc
  timer_first-timer cx before after (some IoState.timeout) r r' nb na e = cc
  timer_first-timer cx before after (some (IoState.deadline i)) r r' nb na e =
      let r₀ = put reads timer (IoState.timer cx) r in
      let (r₁, first, e₁) = >>=-eq-done (acts before r₀) _ e in
      let ((tick, wheel), timed, e₂) =
        >>=-eq-done (TimingWheel.deadline r₁.timing_wheel i timer) _ e₁ in
      let r₁' = record r₁ { timing_wheel = wheel } in
      let (r₂, second, e₃) = >>=-eq-done (acts after r₁') _ e₂ in
      let old = state_at-put_self reads timer (IoState.timer cx) r in
      let ours = λ (w : ℕ) (t : state_at reads timer r₂ ≡ some (IoState.timer w)).
        acts-Tame before r₀ r₁ nb first w (acts-Tame after r₁' r₂ na second w t) in
      timer_again-timer cx tick (state_at reads timer r₂) r₂ r' (λ w t. cc (ours w t, old)) refl e₃
  timer_first-timer cx before after (some (IoState.timer w)) r r' nb na e =
      let old = state_at-put_self reads timer (IoState.timer cx) r in ground (arith, old, e)
  timer_first-timer cx before after (some (IoState.waker w)) r r' nb na e = cc
  timer_first-timer cx before after (some IoState.ready) r r' nb na e = cc
  timer_first-timer cx before after (some IoState.none) r r' nb na e = cc
  timer_first-timer cx before after (some IoState.shutdown) r r' nb na e = cc

  pub poll_timeout-waits :
      (cx : ℕ) (before after : List Act) (r r' : ReactorImpl)
      → All (λ a. takes timer a ≡ false) before
      → All (λ a. takes timer a ≡ false) after
      → poll_timeout cx timer before after r ≡ done (pending, r')
      → state_at reads timer r' ≡ some (IoState.timer cx)
  unfolding poll_timeout
  poll_timeout-waits cx before after r r' nb na e =
      timer_first-timer cx before after (state_at reads timer r) r r' nb na e

  -- A task that `poll_timeout` tells to wait stands in the table with its waker, whatever other threads
  -- did in the gaps of the call, short of taking or polling the timer: the expiry of the timer calls this waker, and the next call of
  -- `poll_timeout`, by any task, finds that the timer has expired.
  pub timeout_wakes :
      (cx cx' : ℕ) (before after before' after' : List Act) (r r' : ReactorImpl)
      → All (λ a. takes timer a ≡ false) before
      → All (λ a. takes timer a ≡ false) after
      → poll_timeout cx timer before after r ≡ done (pending, r')
      → (q : ReactorImpl) × (expire_token timer r' ≡ done q)
        × (q.woken ≡ cx ∷ r'.woken)
        × (poll_timeout cx' timer before' after' q ≡ done (ready (ok tt), q))
  unfolding poll_timeout expire_token expire_at
  timeout_wakes cx cx' before after before' after' r r' nb na e =
      let waits = timer_first-timer cx before after (state_at reads timer r) r r' nb na e in
      let expired = state_at-put_self reads timer IoState.timeout r' in
      (wake cx (put reads timer IoState.timeout r'), rw waits refl, refl, rw expired refl)
