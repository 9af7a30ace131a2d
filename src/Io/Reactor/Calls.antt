-- ===== src/Io/Reactor/Calls.antt =====
-- crates/n3io/src/reactor.rs: the methods of `Reactor`, for tasks that register sources, wait for
-- timers and attempt operations on sockets.
use zorya_rs.Base.{
  ℕ, Bool, true, false, List, [], ◌∷◌, Option, none, some, Outcome, done, panic, ◌>>=◌,
}
use zorya_rs.TimingWheel
use zorya_rs.Io.Defs.{not_found, IoResult, ok, err, Poll, ready, pending}
use zorya_rs.Io.Reactor.{
  IoState, ReactorImpl, Interest, readable, Direction, reads, writes, state_at, put, wake,
  drop_token, next_token, Event, io_event, timing_wheel_tick,
}

-- What the registry answers to the registration of a source.
unfoldable pub register_with :
    IoResult (Unit {0}) → Interest → ℕ × ReactorImpl → IoResult ℕ × ReactorImpl
unfolding drop_token
register_with (ok _) interests (token, r) = (ok token, r)
register_with (err e) interests (token, r) = (err e, drop_token token interests r)

-- `register`; `none` only where every token is taken.
unfoldable pub register :
    IoResult (Unit {0}) → Interest → ReactorImpl → Option (IoResult ℕ × ReactorImpl)
unfolding next_token register_with
register registry interests r = elim (next_token interests r) [
  | none ↦ none
  | some t ↦ some (register_with registry interests t)
]

-- `reregister` leaves the answer to the registry.
unfoldable pub reregister : IoResult (Unit {0}) → ReactorImpl → IoResult (Unit {0}) × ReactorImpl
reregister registry r = (registry, r)

-- `deregister`
unfoldable pub deregister :
    IoResult (Unit {0}) → ℕ → ReactorImpl → IoResult (Unit {0}) × ReactorImpl
unfolding drop_token
deregister registry token r =
    (registry, drop_token token (record { is_readable = true; is_writable = true }) r)

-- `deadline`: a timer that is not yet in the wheel.
unfoldable pub deadline : ℕ → ReactorImpl → Option (ℕ × ReactorImpl)
unfolding next_token put
deadline instant r = elim (next_token readable r) [
  | none ↦ none
  | some (token, r') ↦ some (token, put reads token (IoState.deadline instant) r')
]

-- `deregister_timer`
unfoldable pub deregister_timer : ℕ → ReactorImpl → ReactorImpl
unfolding drop_token
deregister_timer timer r = drop_token timer readable r

-- One half of `shutdown`, on the state that the io has.
unfoldable pub shut_at :
    Direction → ℕ → Option IoState → ReactorImpl → IoResult (Unit {0}) × ReactorImpl
unfolding put
shut_at d io none r = (err not_found, r)
shut_at d io (some (IoState.waker w)) r = (ok tt, wake w (put d io IoState.shutdown r))
shut_at d io (some _) r = (ok tt, put d io IoState.shutdown r)

unfoldable pub shut : Direction → Bool → ℕ → ReactorImpl → IoResult (Unit {0}) × ReactorImpl
unfolding shut_at
shut d true io r = shut_at d io (state_at d io r) r
shut d false io r = (ok tt, r)

unfoldable pub and_then :
    IoResult (Unit {0}) × ReactorImpl
    → (ReactorImpl → IoResult (Unit {0}) × ReactorImpl)
    → IoResult (Unit {0}) × ReactorImpl
and_then (ok _, r) f = f r
and_then (err e, r) f = (err e, r)

-- `shutdown`: the reading half first; an error there leaves the writing half alone.
unfoldable pub shutdown : ℕ → Interest → ReactorImpl → IoResult (Unit {0}) × ReactorImpl
unfolding shut and_then
shutdown io interests r =
    and_then (shut reads interests.is_readable io r) (shut writes interests.is_writable io)

-- The parts of `poll_io` and `poll_timeout` of other tasks that hold the lock of an entry: the beginning
-- of `poll_io`, its look at the entry after an attempt that would block, and the first look of
-- `poll_timeout`.
pub data PollStep : Type 0 where
  begins_io : PollStep
  waits_io : ℕ → PollStep
  waits_timer : ℕ → PollStep

-- What such a part makes of the state of its entry.
unfoldable pub next_state : PollStep → IoState → Outcome IoState
next_state begins_io IoState.shutdown = done IoState.shutdown
next_state begins_io IoState.ready = done IoState.none
next_state begins_io (IoState.waker w) = done IoState.none
next_state begins_io IoState.none = done IoState.none
next_state begins_io _ = panic
next_state (waits_io cx) IoState.none = done (IoState.waker cx)
next_state (waits_io cx) IoState.shutdown = done IoState.shutdown
next_state (waits_io cx) IoState.ready = done IoState.none
next_state (waits_io cx) _ = panic
next_state (waits_timer cx) IoState.timeout = done IoState.timeout
next_state (waits_timer cx) (IoState.deadline instant) = done (IoState.timer cx)
next_state (waits_timer cx) (IoState.timer w) = done (IoState.timer cx)
next_state (waits_timer cx) _ = panic

unfoldable pub poll_step :
    PollStep → Direction → ℕ → Option IoState → ReactorImpl → Outcome ReactorImpl
unfolding next_state put
poll_step (waits_io cx) d io none r = panic
poll_step _ d io none r = done r
poll_step step d io (some state) r = next_state step state >>= λ s. done (put d io s r)

-- The end of `poll_timeout` where the wheel has refused the timer.
unfoldable pub time_out : ℕ → Option IoState → ReactorImpl → Outcome ReactorImpl
unfolding put
time_out timer none r = panic
time_out timer (some state) r = done (put reads timer IoState.timeout r)

-- Where every token is taken, the call has no end.
unfoldable pub left_by : {A : Type 0} → Option (A × ReactorImpl) → Outcome ReactorImpl
left_by none = panic
left_by (some (answer, r)) = done r

-- What other threads do: the event loop, the timer thread, and the methods of the reactor, those that
-- give up their lock as the parts that hold it. `enters` is the call of the wheel in `poll_timeout`.
pub data Act : Type 0 where
  registers : IoResult (Unit {0}) → Interest → Act
  sets : ℕ → Act
  polls : PollStep → Direction → ℕ → Act
  enters : ℕ → ℕ → Act
  times_out : ℕ → Act
  raises : Event → Act
  ticks : ℕ → Act
  shuts : ℕ → Interest → Act
  drops : ℕ → Act
  deregisters : ℕ → Act

unfoldable pub act : Act → ReactorImpl → Outcome ReactorImpl
unfolding io_event timing_wheel_tick shutdown deregister_timer deregister register deadline left_by
    poll_step time_out
act (registers registry interests) r = left_by (register registry interests r)
act (sets instant) r = left_by (deadline instant r)
act (polls step d io) r = poll_step step d io (state_at d io r) r
act (enters timer instant) r = TimingWheel.deadline r.timing_wheel instant timer >>= λ p.
    done (record r { timing_wheel = p.1 })
act (times_out timer) r = time_out timer (state_at reads timer r) r
act (raises e) r = io_event e r
act (ticks now) r = timing_wheel_tick now r
act (shuts io interests) r = done (shutdown io interests r).1
act (drops timer) r = done (deregister_timer timer r)
act (deregisters io) r = done (deregister (ok tt) io r).1

unfoldable pub acts : List Act → ReactorImpl → Outcome ReactorImpl
unfolding act
acts [] r = done r
acts (a ∷ as') r = act a r >>= acts as'

abbrev pub Polled {ℓ} : Type ℓ → Type ℓ
Polled A = Poll (IoResult A) × ReactorImpl

-- The second look of `poll_timeout` at the state, once the wheel has answered.
unfoldable pub timer_again :
    ℕ → Option ℕ → Option IoState → ReactorImpl → Outcome (Polled (Unit {0}))
unfolding put
timer_again timer tick none r = panic
timer_again timer none (some state) r = done (ready (ok tt), put reads timer IoState.timeout r)
timer_again timer (some t) (some IoState.timeout) r = done (ready (ok tt), r)
timer_again timer (some t) (some (IoState.timer w)) r = done (pending, r)
timer_again timer (some t) (some _) r = panic

-- The first look: other threads may act before the wheel is called, and before the second look.
unfoldable pub timer_first :
    ℕ → ℕ → List Act → List Act → Option IoState → ReactorImpl → Outcome (Polled (Unit {0}))
unfolding put acts timer_again
timer_first cx timer before after none r = done (ready (err not_found), r)
timer_first cx timer before after (some IoState.timeout) r = done (ready (ok tt), r)
timer_first cx timer before after (some (IoState.deadline instant)) r = do
  r' ← acts before (put reads timer (IoState.timer cx) r)
  (tick, wheel) ← TimingWheel.deadline r'.timing_wheel instant timer
  r'' ← acts after (record r' { timing_wheel = wheel })
  timer_again timer tick (state_at reads timer r'') r''
timer_first cx timer before after (some (IoState.timer w)) r =
    done (pending, put reads timer (IoState.timer cx) r)
timer_first cx timer before after (some _) r = panic

-- `poll_timeout`
unfoldable pub poll_timeout :
    ℕ → ℕ → List Act → List Act → ReactorImpl → Outcome (Polled (Unit {0}))
unfolding timer_first
poll_timeout cx timer before after r = timer_first cx timer before after (state_at reads timer r) r
