-- ===== src/Io/Reactor/Tests.antt =====
-- The reactor at concrete inputs.
use zorya_rs.TimingWheel
use zorya_rs.TimingWheel.Pending
use zorya_rs.TimingWheel.Pending.{IsValid}
use zorya_rs.Base.{
  ℕ, true, false, ◌≡◌, refl, [], ◌∷◌, ◌++◌, some, done, ℕ_discrete, inl, arith, Outcome, panic,
  elem,
}
use zorya_rs.Base.Heap.{push}
use zorya_rs.Base.Maps.{lookup, insert, remove}
use zorya_rs.Io.Defs.{would_block, IoResult, ok, err, Poll, ready, pending}
use zorya_rs.Io.Timeout
use zorya_rs.Io.Reactor.Calls.{Polled}
use zorya_rs.Io.Timeout.{inner_polled, timer_polled, at_deadline, timeout_ends}
use zorya_rs.Io.Reactor.{
  IoState, ReactorImpl, readable, reads, state_at, put, raise, impl_new, Event, next_token,
  timing_wheel_tick, expire_tokens, expire_token, expire_at,
}
use zorya_rs.Io.Reactor.Calls.{raises, acts, register, poll_timeout, timer_first, timer_again}
use zorya_rs.Io.Reactor.Prompt.{timer_wakes_in_time}
use zorya_rs.Io.Reactor.Tokens.{next_token-IsFresh, IsFresh}
use zorya_rs.Io.Reactor.PollIo.{Attempt, try_io, poll_io, direction_of}
use zorya_rs.Io.Reactor.NoLoss.{event_retries, pending_wakes}

-- Token 0 is a socket registered for reading.
one_socket : ReactorImpl
unfolding impl_new
one_socket = record (impl_new 0 20_000_000) {
  token_gen = 1;
  io_readable_stats = (0, IoState.none) ∷ [];
}

register_runs : register (ok tt) readable (impl_new 0 20_000_000) ≡ some (ok 0, one_socket)
unfolding one_socket register lookup insert remove
register_runs = refl

blocks : Attempt ℕ
blocks = record { result = err would_block; meanwhile = [] }

waiting : ReactorImpl
unfolding one_socket
waiting = record one_socket { io_readable_stats = (0, IoState.waker 9) ∷ [] }

poll_io_runs : poll_io {T = ℕ} 9 0 readable (blocks ∷ []) one_socket ≡ done (some pending, waiting)
unfolding one_socket waiting blocks poll_io lookup insert remove ℕ_discrete
poll_io_runs = refl

pending_wakes_example :
    (q : ReactorImpl) × (raise reads true 0 waiting ≡ done q)
    × (state_at reads 0 q ≡ some IoState.ready)
    × (q.woken ≡ 9 ∷ waiting.woken)
unfolding direction_of
pending_wakes_example =
    pending_wakes 9 0 readable reads (blocks ∷ []) one_socket waiting refl poll_io_runs

abbrev arrives : Event
arrives = record {
  token = 0;
  is_readable = true;
  is_writable = false;
  is_read_closed = false;
  is_write_closed = false;
}

event_retries_example :
    try_io {T = ℕ} 9 reads 0
      (record { result = err would_block; meanwhile = [] ++ raises arrives ∷ [] } ∷ [])
      one_socket
    ≡ try_io {T = ℕ} 9 reads 0 [] (
        put reads 0 IoState.none
          (record one_socket { io_readable_stats = (0, IoState.ready) ∷ [] }))
unfolding one_socket acts lookup insert remove ℕ_discrete
event_retries_example =
    event_retries 9 reads 0 [] [] arrives [] one_socket one_socket _ _ (inl refl) refl refl tt tt
      refl refl refl

next_token-IsFresh_example :
    (t : ℕ × ReactorImpl) × (next_token readable one_socket ≡ some t)
    × IsFresh readable one_socket t
unfolding one_socket
next_token-IsFresh_example = next_token-IsFresh readable one_socket (omega arith) (omega arith)

-- Token 5 is a new timer for the 30th millisecond; a tick has 20.
new_timer : ReactorImpl
unfolding impl_new
new_timer = record (impl_new 0 20_000_000) {
  token_gen = 6;
  io_readable_stats = (5, IoState.deadline 30_000_000) ∷ [];
}

abbrev left_by : Outcome (Poll (IoResult (Unit {0})) × ReactorImpl) → ReactorImpl
left_by (done (poll, r)) = r
left_by panic = impl_new 0 20_000_000

abbrev ran : Outcome ReactorImpl → ReactorImpl
ran (done r) = r
ran panic = impl_new 0 20_000_000

new_timer-IsValid : IsValid new_timer.timing_wheel.sys
unfolding new_timer TimingWheel.new lookup Pending.pending
new_timer-IsValid = record {
  ordered = tt;
  tracked = λ k. refl;
  filled = λ k e. ground arith;
  counted = refl;
}

-- The task 9 waits for it.
set : ReactorImpl
unfolding poll_timeout
set = left_by (poll_timeout 9 5 [] [] new_timer)

fired : ReactorImpl
unfolding timing_wheel_tick
fired = ran (timing_wheel_tick 60_000_000 set)

timer_wakes_in_time_example :
    (elem 9 fired.woken ≡ true) × (poll_timeout 8 5 [] [] fired ≡ done (ready (ok tt), fired))
unfolding fired set new_timer poll_timeout timer_first timer_again timing_wheel_tick expire_tokens
    expire_token expire_at acts lookup insert remove ℕ_discrete put TimingWheel.new
    TimingWheel.micros TimingWheel.deadline_ticks TimingWheel.add_timer TimingWheel.deadline
    TimingWheel.fire TimingWheel.expire TimingWheel.end_round TimingWheel.round TimingWheel.wheel_of
    TimingWheel.events_of push
timer_wakes_in_time_example =
    timer_wakes_in_time 5 9 30_000_000 60_000_000 8 [] [] [] [] [] new_timer set set fired refl
      new_timer-IsValid (omega arith) tt tt tt refl refl (omega arith) refl

-- A future that stores its waker with an io, and has its answer when it is polled again.
abbrev stores : ReactorImpl → Outcome (Polled ℕ)
stores r = done (pending, record r { io_writable_stats = (2, IoState.waker 9) ∷ [] })

abbrev answers : ReactorImpl → Outcome (Polled ℕ)
answers r = done (ready (ok 3), record r { io_writable_stats = (2, IoState.none) ∷ [] })

abbrev stored : ReactorImpl
stored = record new_timer { io_writable_stats = (2, IoState.waker 9) ∷ [] }

future_set : ReactorImpl
unfolding poll_timeout
future_set = left_by (poll_timeout 9 5 [] [] stored)

future_fired : ReactorImpl
unfolding timing_wheel_tick
future_fired = ran (timing_wheel_tick 60_000_000 future_set)

timeout_ends_example :
    (elem 9 future_fired.woken ≡ true)
    × (Timeout.poll 8 5 [] [] answers future_fired
        ≡ done (
          at_deadline (ready (ok 3)),
          record future_fired { io_writable_stats = (2, IoState.none) ∷ [] },
        ))
unfolding Timeout.poll inner_polled timer_polled future_fired future_set new_timer poll_timeout
    timer_first timer_again timing_wheel_tick expire_tokens expire_token expire_at acts lookup
    insert remove ℕ_discrete put TimingWheel.new TimingWheel.micros TimingWheel.deadline_ticks
    TimingWheel.add_timer TimingWheel.deadline TimingWheel.fire TimingWheel.expire
    TimingWheel.end_round TimingWheel.round TimingWheel.wheel_of TimingWheel.events_of push
timeout_ends_example =
    timeout_ends 9 5 30_000_000 60_000_000 8 [] [] [] [] [] stores answers (ready (ok 3)) new_timer
      stored future_set future_set future_fired
      (record future_fired { io_writable_stats = (2, IoState.none) ∷ [] }) refl refl
      new_timer-IsValid (omega arith) tt tt tt refl refl (omega arith) refl refl refl
