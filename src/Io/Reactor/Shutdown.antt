-- ===== src/Io/Reactor/Shutdown.antt =====
-- crates/n3io/src/reactor.rs, `shutdown`: an io that was shut stays so, until it is deregistered.
use zorya_rs.Base.{
  ℕ, Bool, true, false, ◌==◌, ◌≡◌, ◌≢◌, ◌||◌, refl, ◌∙◌, inl, inr, List, [], ◌∷◌, Option, none,
  some, done, arith, OnDone, OnDone-then, OnDone-bind, OnDone-at, All, elem,
}
use zorya_rs.TimingWheel
use zorya_rs.Io.Defs.{broken_pipe, IoResult, ok, err, ready}
use zorya_rs.Io.Reactor.{
  IoState, ReactorImpl, Interest, readable, Direction, reads, writes, state_at, put, wake, Event,
  raise, raise_at, io_event, expire_at, expire_token, expire_tokens, timing_wheel_tick,
}
use zorya_rs.Io.Reactor.Calls.{
  PollStep, begins_io, waits_io, waits_timer, poll_step, next_state, Act, registers, sets, polls,
  enters, times_out, raises, ticks, shuts, drops, deregisters, act, acts, shut, shutdown, shut_at,
  and_then, deregister, deregister_timer,
}
use zorya_rs.Io.Reactor.PollIo.{Attempt, poll_io, direction_of, start_io}
use zorya_rs.Io.Reactor.Others.{Entry-IsApart, register-apart, deadline-apart, time_out-put}
use zorya_rs.Io.Reactor.Readiness.{state_at-put_self, put_frame}
use zorya_rs.Io.Reactor.Frame.{put-other, drop_token-other}
use zorya_rs.Io.Reactor.NoLoss.{with_wheel-Entry}
use zorya_rs.Io.Await.{Turn, await_io, polled}

-- An act that takes the io out of the tables.
abbrev pub removes : ℕ → Act → Bool
removes io (raises e) = false
removes io (ticks now) = false
removes io (shuts j interests) = false
removes io (drops j) = j == io
removes io (deregisters j) = j == io
removes io (registers registry interests) = false
removes io (sets instant) = false
removes io (polls step d j) = false
removes io (enters j instant) = false
removes io (times_out j) = j == io

abbrev pub IsShut : Direction → ℕ → ReactorImpl → Type 0
IsShut d io r = state_at d io r ≡ some IoState.shutdown

pub state_at-wake :
    (d : Direction) (io w : ℕ) (r : ReactorImpl) → state_at d io (wake w r) ≡ state_at d io r
state_at-wake reads io w r = refl
state_at-wake writes io w r = refl

-- A write to an entry that is not shut, or that shuts it.
put_open-IsShut :
    (d d' : Direction) (io j : ℕ) (old new : IoState) (r : ReactorImpl)
    → IsShut d io r
    → state_at d' j r ≡ some old
    → old ≢ IoState.shutdown
    → IsShut d io (put d' j new r)
put_open-IsShut d d' io j old new r h e n = elim (put_frame d d' io j new r) [
  | inl same ↦ same ∙ h
  | inr (same, at, _) ↦ absurd (n cc)
]

put_again-IsShut :
    (d d' : Direction) (io j : ℕ) (r : ReactorImpl)
    → IsShut d io r
    → IsShut d io (put d' j IoState.shutdown r)
put_again-IsShut d d' io j r h = elim (put_frame d d' io j IoState.shutdown r) [
  | inl same ↦ same ∙ h
  | inr (_, _, written) ↦ written
]

module _ (d : Direction) (io : ℕ) where
  raise_at-IsShut :
      (d' : Direction) (token : ℕ) (o : Option IoState) (r : ReactorImpl)
      → IsShut d io r
      → state_at d' token r ≡ o
      → OnDone (IsShut d io) (raise_at d' token o r)
  unfolding raise_at
  raise_at-IsShut d' token none r h e = h
  raise_at-IsShut d' token (some (IoState.waker w)) r h e =
      put_open-IsShut d d' io token (IoState.waker w) IoState.ready (wake w r)
        (state_at-wake d io w r ∙ h) (state_at-wake d' token w r ∙ e) (λ q. cc)
  raise_at-IsShut d' token (some IoState.none) r h e =
      put_open-IsShut d d' io token IoState.none IoState.ready r h e (λ q. cc)
  raise_at-IsShut d' token (some IoState.shutdown) r h e = h
  raise_at-IsShut d' token (some IoState.ready) r h e = h
  raise_at-IsShut d' token (some IoState.timeout) r h e = tt
  raise_at-IsShut d' token (some (IoState.deadline i)) r h e = tt
  raise_at-IsShut d' token (some (IoState.timer w)) r h e = tt

  raise-IsShut :
      (d' : Direction) (b : Bool) (token : ℕ) (r : ReactorImpl)
      → IsShut d io r
      → OnDone (IsShut d io) (raise d' b token r)
  unfolding raise
  raise-IsShut d' true token r h = raise_at-IsShut d' token (state_at d' token r) r h refl
  raise-IsShut d' false token r h = h

  io_event-IsShut :
      (e : Event) (r : ReactorImpl) → IsShut d io r → OnDone (IsShut d io) (io_event e r)
  unfolding io_event
  io_event-IsShut e r h =
      let readable_now = e.is_read_closed || e.is_readable in
      let writable_now = e.is_write_closed || e.is_writable in
      OnDone-then (IsShut d io) (IsShut d io) (raise reads readable_now e.token r)
        (raise writes writable_now e.token) (raise-IsShut reads readable_now e.token r h)
        (λ r' h'. raise-IsShut writes writable_now e.token r' h')

  expire_at-IsShut :
      (token : ℕ) (o : Option IoState) (r : ReactorImpl)
      → IsShut d io r
      → state_at reads token r ≡ o
      → OnDone (IsShut d io) (expire_at token o r)
  unfolding expire_at
  expire_at-IsShut token none r h e = h
  expire_at-IsShut token (some (IoState.timer w)) r h e =
      state_at-wake d io w (put reads token IoState.timeout r)
      ∙ put_open-IsShut d reads io token (IoState.timer w) IoState.timeout r h e (λ q. cc)
  expire_at-IsShut token (some _) r h e = tt

  expire_tokens-IsShut :
      (tokens : List ℕ) (r : ReactorImpl)
      → IsShut d io r
      → OnDone (IsShut d io) (expire_tokens tokens r)
  unfolding expire_tokens expire_token
  expire_tokens-IsShut [] r h = h
  expire_tokens-IsShut (token ∷ tokens) r h =
      OnDone-then (IsShut d io) (IsShut d io) (expire_at token (state_at reads token r) r) _
        (expire_at-IsShut token (state_at reads token r) r h refl) (expire_tokens-IsShut tokens)

  tick-IsShut :
      (now : ℕ) (r : ReactorImpl) → IsShut d io r → OnDone (IsShut d io) (timing_wheel_tick now r)
  unfolding timing_wheel_tick
  tick-IsShut now r h =
      OnDone-bind (IsShut d io) (TimingWheel.round r.timing_wheel now 0 []) _ (λ round.
        expire_tokens-IsShut (TimingWheel.events_of round)
          (record r { timing_wheel = TimingWheel.wheel_of round }) (stats_same d round h))
    where
      stats_same :
          (d' : Direction) (round : _)
          → IsShut d' io r
          → IsShut d' io (record r { timing_wheel = TimingWheel.wheel_of round })
      stats_same reads round h = h
      stats_same writes round h = h

  shut_at-IsShut :
      (d' : Direction) (j : ℕ) (o : Option IoState) (r : ReactorImpl)
      → IsShut d io r
      → IsShut d io (shut_at d' j o r).1
  unfolding shut_at
  shut_at-IsShut d' j none r h = h
  shut_at-IsShut d' j (some (IoState.waker w)) r h =
      state_at-wake d io w (put d' j IoState.shutdown r) ∙ put_again-IsShut d d' io j r h
  shut_at-IsShut d' j (some _) r h = put_again-IsShut d d' io j r h

  shut-IsShut :
      (d' : Direction) (b : Bool) (j : ℕ) (r : ReactorImpl)
      → IsShut d io r
      → IsShut d io (shut d' b j r).1
  unfolding shut
  shut-IsShut d' true j r h = shut_at-IsShut d' j (state_at d' j r) r h
  shut-IsShut d' false j r h = h

  and_then-IsShut :
      (x : IoResult (Unit {0}) × ReactorImpl) (f : ReactorImpl → IoResult (Unit {0}) × ReactorImpl)
      → IsShut d io x.1
      → ((r : ReactorImpl) → IsShut d io r → IsShut d io (f r).1)
      → IsShut d io (and_then x f).1
  unfolding and_then
  and_then-IsShut (ok _, r) f h g = g r h
  and_then-IsShut (err e, r) f h g = h

  shutdown-IsShut :
      (j : ℕ) (interests : Interest) (r : ReactorImpl)
      → IsShut d io r
      → IsShut d io (shutdown j interests r).1
  unfolding shutdown
  shutdown-IsShut j interests r h =
      and_then-IsShut (shut reads interests.is_readable j r) _
        (shut-IsShut reads interests.is_readable j r h)
        (λ r' h'. shut-IsShut writes interests.is_writable j r' h')

  poll_step-IsShut :
      (step : PollStep) (d' : Direction) (j : ℕ) (o : Option IoState) (r : ReactorImpl)
      → IsShut d io r
      → state_at d' j r ≡ o
      → OnDone (IsShut d io) (poll_step step d' j o r)
  unfolding poll_step next_state
  poll_step-IsShut (waits_io cx) d' j none r h e = tt
  poll_step-IsShut begins_io d' j none r h e = h
  poll_step-IsShut (waits_timer cx) d' j none r h e = h
  poll_step-IsShut begins_io d' j (some IoState.shutdown) r h e = put_again-IsShut d d' io j r h
  poll_step-IsShut begins_io d' j (some IoState.ready) r h e =
      put_open-IsShut d d' io j IoState.ready IoState.none r h e (λ q. cc)
  poll_step-IsShut begins_io d' j (some (IoState.waker w)) r h e =
      put_open-IsShut d d' io j (IoState.waker w) IoState.none r h e (λ q. cc)
  poll_step-IsShut begins_io d' j (some IoState.none) r h e =
      put_open-IsShut d d' io j IoState.none IoState.none r h e (λ q. cc)
  poll_step-IsShut begins_io d' j (some _) r h e = tt
  poll_step-IsShut (waits_io cx) d' j (some IoState.none) r h e =
      put_open-IsShut d d' io j IoState.none (IoState.waker cx) r h e (λ q. cc)
  poll_step-IsShut (waits_io cx) d' j (some IoState.shutdown) r h e = put_again-IsShut d d' io j r h
  poll_step-IsShut (waits_io cx) d' j (some IoState.ready) r h e =
      put_open-IsShut d d' io j IoState.ready IoState.none r h e (λ q. cc)
  poll_step-IsShut (waits_io cx) d' j (some _) r h e = tt
  poll_step-IsShut (waits_timer cx) d' j (some IoState.timeout) r h e =
      put_open-IsShut d d' io j IoState.timeout IoState.timeout r h e (λ q. cc)
  poll_step-IsShut (waits_timer cx) d' j (some (IoState.deadline i)) r h e =
      put_open-IsShut d d' io j (IoState.deadline i) (IoState.timer cx) r h e (λ q. cc)
  poll_step-IsShut (waits_timer cx) d' j (some (IoState.timer w)) r h e =
      put_open-IsShut d d' io j (IoState.timer w) (IoState.timer cx) r h e (λ q. cc)
  poll_step-IsShut (waits_timer cx) d' j (some _) r h e = tt

  act-IsShut :
      (a : Act) (r : ReactorImpl)
      → removes io a ≡ false
      → IsShut d io r
      → OnDone (IsShut d io) (act a r)
  unfolding act deregister deregister_timer
  act-IsShut (raises e) r n h = io_event-IsShut e r h
  act-IsShut (ticks now) r n h = tick-IsShut now r h
  act-IsShut (shuts j interests) r n h = shutdown-IsShut j interests r h
  act-IsShut (drops j) r n h = drop_token-other d readable io j r (ground (arith, n)) ∙ h
  act-IsShut (deregisters j) r n h =
      drop_token-other d (record { is_readable = true; is_writable = true }) io j r
        (ground (arith, n))
      ∙ h
  act-IsShut (registers registry interests) r n h =
      register-apart (IsShut d io) (λ j. j ≢ io) (Entry-IsApart d io IoState.shutdown) registry
        interests r h
  act-IsShut (sets instant) r n h =
      deadline-apart (IsShut d io) (λ j. j ≢ io) (Entry-IsApart d io IoState.shutdown) instant r h
  act-IsShut (polls step d' j) r n h = poll_step-IsShut step d' j (state_at d' j r) r h refl
  act-IsShut (enters j instant) r n h =
      with_wheel-Entry d io IoState.shutdown r (TimingWheel.deadline r.timing_wheel instant j) h
  act-IsShut (times_out j) r n h =
      time_out-put (IsShut d io) j (state_at reads j r) r
        (put-other d reads io j IoState.timeout r (λ same. ground (arith, same, n)) ∙ h)

  pub acts-IsShut :
      (as' : List Act) (r : ReactorImpl)
      → All (λ a. removes io a ≡ false) as'
      → IsShut d io r
      → OnDone (IsShut d io) (acts as' r)
  unfolding acts
  acts-IsShut [] r n h = h
  acts-IsShut (a ∷ as') r n h =
      OnDone-then (IsShut d io) (IsShut d io) (act a r) _ (act-IsShut a r n.0 h)
        (λ r' h'. acts-IsShut as' r' n.1 h')

-- A poll of an io that is shut in its direction answers BrokenPipe and attempts nothing.
pub poll_io-reads_shut :
    {T : Type 0} (cx io : ℕ) (attempts : List (Attempt T)) (r : ReactorImpl)
    → IsShut reads io r
    → poll_io cx io readable attempts r ≡ done (some (ready (err broken_pipe)), r)
unfolding poll_io direction_of start_io
poll_io-reads_shut cx io attempts r h = rw h refl

-- A task that awaits the readiness of a shut io has its answer with its next poll: BrokenPipe, as long
-- as no other thread removes the io.
pub await_io-reads_shut :
    {T : Type 0} (io : ℕ) (t : Turn T) (turns : List (Turn T)) (r r' : ReactorImpl)
    → All (λ a. removes io a ≡ false) t.before
    → IsShut reads io r
    → acts t.before r ≡ done r'
    → await_io io readable (t ∷ turns) r ≡ done (some (err broken_pipe), r')
unfolding await_io polled
await_io-reads_shut io t turns r r' n h e =
    let shut_now : IsShut reads io r' =
      OnDone-at (IsShut reads io) (acts t.before r) r' (acts-IsShut reads io t.before r n h) e in
    rw (e, poll_io-reads_shut t.cx io t.attempts r' shut_now) refl

abbrev pub both : Interest
both = record { is_readable = true; is_writable = true }

-- What a shutdown of both halves says and leaves.
abbrev pub ShutDown : ℕ → ℕ → IoResult (Unit {0}) × ReactorImpl → Type 0
ShutDown io w (answer, r) =
    (answer ≡ ok tt) × IsShut reads io r × IsShut writes io r × (elem w r.woken ≡ true)

shut_writes-ShutDown :
    (io w : ℕ) (o : IoState) (r : ReactorImpl)
    → IsShut reads io r
    → elem w r.woken ≡ true
    → ShutDown io w (shut_at writes io (some o) r)
unfolding shut_at put
shut_writes-ShutDown io w (IoState.waker v) r h e =
    (refl, h, state_at-put_self writes io IoState.shutdown r, rw e (ground arith))
shut_writes-ShutDown io w o r h e = (refl, h, state_at-put_self writes io IoState.shutdown r, e)

-- Both halves of a socket are shut, and the task that waited to read is woken, whatever the state of
-- its writing half.
pub shutdown-ShutDown :
    (io w : ℕ) (o : IoState) (r : ReactorImpl)
    → state_at reads io r ≡ some (IoState.waker w)
    → state_at writes io r ≡ some o
    → ShutDown io w (shutdown io both r)
unfolding shutdown shut shut_at and_then put
shutdown-ShutDown io w o r h g =
    let r' = wake w (put reads io IoState.shutdown r) in
    let step : shutdown io both r ≡ shut_at writes io (some o) r' = rw (h, g) refl in
    rw step (
      shut_writes-ShutDown io w o r' (state_at-put_self reads io IoState.shutdown r) (ground arith))
