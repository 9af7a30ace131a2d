-- ===== src/Io/Reactor/Stopped.antt =====
-- crates/n3io/src/reactor.rs: a reactor whose tick interval is no microsecond. Nothing that its threads do
-- changes that, and each use of its wheel panics.
use zorya_rs.Base.{
  ℕ, zero, suc, ◌+◌, length, is_some, add_u64, Bool-cases, inl, inr, ◌≡◌, refl, Bool, true, false,
  ◌||◌, List, [], ◌∷◌, Option, none, some, Outcome, done, panic, ◌>>=◌, OnDone, OnDone-then,
}
use zorya_rs.Io.Reactor.Others.{
  IsApart, register-apart, deadline-apart, poll_step-put, time_out-put,
}
use zorya_rs.Io.Reactor.Readiness.{state_at-put_self}
use zorya_rs.TimingWheel
use zorya_rs.Io.Defs.{IoResult, ok, err}
use zorya_rs.Io.Reactor.{
  IoState, ReactorImpl, Interest, readable, Direction, reads, writes, state_at, put, wake, Event,
  raise, raise_at, io_event, timing_wheel_tick, forget, drop_token, claim, next_free, next_token,
}
use zorya_rs.Io.Reactor.Calls.{
  Act, registers, sets, polls, enters, times_out, raises, ticks, shuts, drops, deregisters, act,
  acts, shut, shutdown, shut_at, and_then, deregister, deregister_timer, deadline, poll_timeout,
  timer_first,
}

abbrev pub Stopped : ReactorImpl → Type 0
Stopped r = r.timing_wheel.tick_interval ≡ 0

put-Stopped :
    (d : Direction) (io : ℕ) (s : IoState) (r : ReactorImpl) → Stopped r → Stopped (put d io s r)
unfolding put
put-Stopped reads io s r h = h
put-Stopped writes io s r h = h

raise_at-Stopped :
    (d : Direction) (token : ℕ) (o : Option IoState) (r : ReactorImpl)
    → Stopped r
    → OnDone Stopped (raise_at d token o r)
unfolding raise_at
raise_at-Stopped d token none r h = h
raise_at-Stopped d token (some (IoState.waker w)) r h =
    put-Stopped d token IoState.ready (wake w r) h
raise_at-Stopped d token (some IoState.none) r h = put-Stopped d token IoState.ready r h
raise_at-Stopped d token (some IoState.shutdown) r h = h
raise_at-Stopped d token (some IoState.ready) r h = h
raise_at-Stopped d token (some IoState.timeout) r h = tt
raise_at-Stopped d token (some (IoState.deadline i)) r h = tt
raise_at-Stopped d token (some (IoState.timer w)) r h = tt

raise-Stopped :
    (d : Direction) (b : Bool) (token : ℕ) (r : ReactorImpl)
    → Stopped r
    → OnDone Stopped (raise d b token r)
unfolding raise
raise-Stopped d true token r h = raise_at-Stopped d token (state_at d token r) r h
raise-Stopped d false token r h = h

io_event-Stopped : (e : Event) (r : ReactorImpl) → Stopped r → OnDone Stopped (io_event e r)
unfolding io_event
io_event-Stopped e r h =
    OnDone-then Stopped Stopped (raise reads (e.is_read_closed || e.is_readable) e.token r) _
      (raise-Stopped reads (e.is_read_closed || e.is_readable) e.token r h)
      (λ r' h'. raise-Stopped writes (e.is_write_closed || e.is_writable) e.token r' h')

shut_at-Stopped :
    (d : Direction) (io : ℕ) (o : Option IoState) (r : ReactorImpl)
    → Stopped r
    → Stopped (shut_at d io o r).1
unfolding shut_at
shut_at-Stopped d io none r h = h
shut_at-Stopped d io (some (IoState.waker w)) r h = put-Stopped d io IoState.shutdown r h
shut_at-Stopped d io (some _) r h = put-Stopped d io IoState.shutdown r h

shut-Stopped :
    (d : Direction) (b : Bool) (io : ℕ) (r : ReactorImpl) → Stopped r → Stopped (shut d b io r).1
unfolding shut
shut-Stopped d true io r h = shut_at-Stopped d io (state_at d io r) r h
shut-Stopped d false io r h = h

and_then-Stopped :
    (x : IoResult (Unit {0}) × ReactorImpl) (f : ReactorImpl → IoResult (Unit {0}) × ReactorImpl)
    → Stopped x.1
    → ((r : ReactorImpl) → Stopped r → Stopped (f r).1)
    → Stopped (and_then x f).1
unfolding and_then
and_then-Stopped (ok _, r) f h g = g r h
and_then-Stopped (err e, r) f h g = h

shutdown-Stopped :
    (io : ℕ) (interests : Interest) (r : ReactorImpl)
    → Stopped r
    → Stopped (shutdown io interests r).1
unfolding shutdown
shutdown-Stopped io interests r h =
    and_then-Stopped (shut reads interests.is_readable io r) _
      (shut-Stopped reads interests.is_readable io r h)
      (λ r' h'. shut-Stopped writes interests.is_writable io r' h')

forget-Stopped :
    (d : Direction) (b : Bool) (io : ℕ) (r : ReactorImpl) → Stopped r → Stopped (forget d b io r)
unfolding forget
forget-Stopped reads true io r h = h
forget-Stopped writes true io r h = h
forget-Stopped d false io r h = h

drop_token-Stopped :
    (io : ℕ) (interests : Interest) (r : ReactorImpl)
    → Stopped r
    → Stopped (drop_token io interests r)
unfolding drop_token
drop_token-Stopped io interests r h =
    forget-Stopped writes interests.is_writable io _
      (forget-Stopped reads interests.is_readable io r h)

-- A round of the timer thread panics at its division.
pub timing_wheel_tick-Stopped :
    (now : ℕ) (r : ReactorImpl) → Stopped r → timing_wheel_tick now r ≡ panic
unfolding timing_wheel_tick TimingWheel.round
timing_wheel_tick-Stopped now r h = rw h refl

Stopped-IsApart : IsApart Stopped (λ j. Unit)
Stopped-IsApart = record {
  other = λ token r h u. tt;
  counted = λ n r h. h;
  claimed = λ d token r o h. put-Stopped d token IoState.none r h;
  timed = λ token instant r o h. put-Stopped reads token (IoState.deadline instant) r h;
  dropped = λ token interests r o h. drop_token-Stopped token interests r h;
}

act-Stopped : (a : Act) (r : ReactorImpl) → Stopped r → OnDone Stopped (act a r)
unfolding act deregister deregister_timer TimingWheel.deadline
act-Stopped (raises e) r h = io_event-Stopped e r h
act-Stopped (ticks now) r h = rw (timing_wheel_tick-Stopped now r h) tt
act-Stopped (shuts io interests) r h = shutdown-Stopped io interests r h
act-Stopped (drops timer) r h = drop_token-Stopped timer readable r h
act-Stopped (deregisters io) r h =
    drop_token-Stopped io (record { is_readable = true; is_writable = true }) r h
act-Stopped (registers registry interests) r h =
    register-apart Stopped (λ j. Unit) Stopped-IsApart registry interests r h
act-Stopped (sets instant) r h = deadline-apart Stopped (λ j. Unit) Stopped-IsApart instant r h
act-Stopped (polls step d io) r h =
    poll_step-put Stopped step d io (state_at d io r) r h (λ s. put-Stopped d io s r h)
act-Stopped (enters timer instant) r h = rw h tt
act-Stopped (times_out timer) r h =
    time_out-put Stopped timer (state_at reads timer r) r
      (put-Stopped reads timer IoState.timeout r h)

pub acts-Stopped : (as' : List Act) (r : ReactorImpl) → Stopped r → OnDone Stopped (acts as' r)
unfolding acts
acts-Stopped [] r h = h
acts-Stopped (a ∷ as') r h =
    OnDone-then Stopped Stopped (act a r) (acts as') (act-Stopped a r h) (acts-Stopped as')

deadline-Stopped :
    {A : Type 0} (o : Outcome ReactorImpl) (instant timer : ℕ)
    (next : ReactorImpl → Option ℕ × TimingWheel.TimeWheel ℕ → Outcome A)
    → OnDone Stopped o
    → (o >>= λ r. TimingWheel.deadline r.timing_wheel instant timer >>= next r) ≡ panic
unfolding TimingWheel.deadline
deadline-Stopped (done r) instant timer next h = rw h refl
deadline-Stopped panic instant timer next h = refl

-- So does the first poll of a timer: whatever other threads do before it calls the wheel, it has no answer.
pub poll_timeout-Stopped :
    (cx timer instant : ℕ) (before after : List Act) (r : ReactorImpl)
    → Stopped r
    → state_at reads timer r ≡ some (IoState.deadline instant)
    → poll_timeout cx timer before after r ≡ panic
unfolding poll_timeout timer_first
poll_timeout-Stopped cx timer instant before after r h e = rw e (
    deadline-Stopped (acts before (put reads timer (IoState.timer cx) r)) instant timer _
      (acts-Stopped before _ (put-Stopped reads timer (IoState.timer cx) r h)))

-- The reactor that a new token or a new timer comes with.
abbrev pub StoppedIf : Option (ℕ × ReactorImpl) → Type 0
StoppedIf none = Unit
StoppedIf (some (token, r)) = Stopped r

claim-Stopped :
    (d : Direction) (b : Bool) (token : ℕ) (r : ReactorImpl)
    → Stopped r
    → Stopped (claim d b token r)
unfolding claim
claim-Stopped d true token r h = put-Stopped d token IoState.none r h
claim-Stopped d false token r h = h

next_free-Stopped :
    (fuel : ℕ) (interests : Interest) (r : ReactorImpl)
    → Stopped r
    → StoppedIf (next_free fuel interests r)
unfolding next_free
next_free-Stopped zero interests r h = tt
next_free-Stopped (suc fuel) interests r h =
    let token = r.token_gen in
    let r' = record r { token_gen = add_u64 token 1 } in
    elim (Bool-cases (is_some (state_at reads token r') || is_some (state_at writes token r'))) [
      | inl e ↦ rw e (next_free-Stopped fuel interests r' h)
      | inr e ↦ rw e (
          claim-Stopped writes interests.is_writable token _
            (claim-Stopped reads interests.is_readable token r' h))
    ]

-- A timer of such a reactor, if there is a token for it.
abbrev pub NewTimer : ℕ → Option (ℕ × ReactorImpl) → Type 0
NewTimer instant none = Unit
NewTimer instant (some (timer, r)) =
    Stopped r × (state_at reads timer r ≡ some (IoState.deadline instant))

pub deadline-NewTimer :
    (instant : ℕ) (r : ReactorImpl) → Stopped r → NewTimer instant (deadline instant r)
unfolding deadline next_token
deadline-NewTimer instant r h =
    new_timer _ (
      next_free-Stopped (suc (length r.io_readable_stats + length r.io_writable_stats)) readable r
        h)
  where
    new_timer :
        (o : Option (ℕ × ReactorImpl))
        → StoppedIf o
        → NewTimer instant (elim o [
          | none ↦ none
          | some (token, r') ↦ some (token, put reads token (IoState.deadline instant) r')
        ])
    new_timer none h = tt
    new_timer (some (token, r')) h = (
      put-Stopped reads token (IoState.deadline instant) r' h,
      state_at-put_self reads token (IoState.deadline instant) r',
    )
