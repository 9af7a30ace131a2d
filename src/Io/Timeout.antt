-- ===== src/Io/Timeout.antt =====
-- crates/n3io/src/timeout.rs: a future with a deadline. The inner future is a function on the reactor,
-- which its poll may change. `Instant + Duration` panics past the end of the clock, which is left out.
use zorya_rs.Base.{
  ℕ, ◌+◌, ◌≡◌, refl, ap, ◌∙◌, ◌≤◌, ◌<◌, elem, true, false, All, some, List, Option, Outcome, done,
  ◌>>=◌,
}
use zorya_rs.Io.Defs.{timed_out, IoResult, ok, err, Poll, ready, pending}
use zorya_rs.TimingWheel.Pending.{IsValid}
use zorya_rs.TimingWheel.Poller.{elapsed}
use zorya_rs.Io.Reactor.{ReactorImpl, IoState, reads, state_at, timing_wheel_tick}
use zorya_rs.Io.Reactor.NoLoss.{takes}
use zorya_rs.Io.Reactor.Prompt.{poll_timeout-IsOver, timer_wakes_in_time}
use zorya_rs.Io.Reactor.Calls
use zorya_rs.Io.Reactor.Calls.{Act, acts, Polled}
use zorya_rs.Io.Reactor.Readiness.{>>=-eq-done}

-- `timeout_with` at the instant `now`: the timer of the new future; `none` only where every token is
-- taken.
unfoldable pub timeout_with : ℕ → ℕ → ReactorImpl → Option (ℕ × ReactorImpl)
timeout_with now duration r = Calls.deadline (now + duration) r

module _ {T : Type 0} where
  unfoldable pub timer_polled : Polled (Unit {0}) → Polled T
  timer_polled (ready _, r) = (ready (err timed_out), r)
  timer_polled (pending, r) = (pending, r)

  unfoldable pub inner_polled : ℕ → ℕ → List Act → List Act → Polled T → Outcome (Polled T)
  unfolding timer_polled
  inner_polled cx timer before after (ready result, r) = done (ready result, r)
  inner_polled cx timer before after (pending, r) =
      Calls.poll_timeout cx timer before after r >>= λ p. done (timer_polled p)

  -- `Timeout::poll`
  unfoldable pub poll :
      ℕ
      → ℕ
      → List Act
      → List Act
      → (ReactorImpl → Outcome (Polled T))
      → ReactorImpl
      → Outcome (Polled T)
  unfolding inner_polled
  poll cx timer before after future r = future r >>= inner_polled cx timer before after

-- `Timeout::drop`
unfoldable pub drop_timeout : ℕ → ReactorImpl → ReactorImpl
drop_timeout timer r = Calls.deregister_timer timer r

-- What the poll of an expired future answers: the inner answer, if there is one.
abbrev pub at_deadline {ℓ} : {T : Type ℓ} → Poll (IoResult T) → Poll (IoResult T)
at_deadline (ready x) = ready x
at_deadline pending = ready (err timed_out)

still_waits :
    {T : Type 0} (o : Polled (Unit {0})) (r' : ReactorImpl)
    → ◌≡◌ {A = Outcome (Polled T)} (done (timer_polled o)) (done (pending, r'))
    → o ≡ (pending, r')
unfolding timer_polled
still_waits (ready x, r) r' e = cc
still_waits (pending, r) r' e = cc

waits_for_timer :
    {T : Type 0} (cx timer : ℕ) (before after : List Act) (r r' : ReactorImpl)
    → inner_polled {T = T} cx timer before after (pending, r) ≡ done (pending, r')
    → Calls.poll_timeout cx timer before after r ≡ done (pending, r')
unfolding inner_polled
waits_for_timer {T} cx timer before after r r' e =
    let (o, timed, rest) = >>=-eq-done (Calls.poll_timeout cx timer before after r) _ e in
    timed ∙ ap done (still_waits {T = T} o r' rest)

answers_at_once :
    (cx timer : ℕ) (before after : List Act) (q : ReactorImpl)
    → state_at reads timer q ≡ some IoState.timeout
    → Calls.poll_timeout cx timer before after q ≡ done (ready (ok tt), q)
unfolding Calls.poll_timeout Calls.timer_first
answers_at_once cx timer before after q e = rw e refl

late :
    {T : Type 0} (cx timer : ℕ) (before after : List Act) (later : Poll (IoResult T))
    (q : ReactorImpl)
    → Calls.poll_timeout cx timer before after q ≡ done (ready (ok tt), q)
    → inner_polled cx timer before after (later, q) ≡ done (at_deadline later, q)
unfolding inner_polled timer_polled
late cx timer before after (ready x) q e = refl
late cx timer before after pending q e = rw e refl

-- A future with a new timer returns `Pending`, and its inner future has left the timer alone. Other
-- threads do not take or poll the timer in the gaps of the call or after it, and the timer thread
-- runs a round at least one microsecond less than a tick interval after the deadline. Then the task
-- has been called after this round, and the next poll, by any task, returns the answer of the inner
-- future, or `TimedOut` if it has none, where the inner future leaves the timer alone again. The
-- wheel was valid, with a positive interval, at the first call.
pub timeout_ends :
    {T : Type 0} (cx timer instant now cx' : ℕ) (before after between before' after' : List Act)
    (future future' : ReactorImpl → Outcome (Polled T)) (later : Poll (IoResult T))
    (r r₁ r' r'' q q' : ReactorImpl)
    → future r ≡ done (pending, r₁)
    → state_at reads timer r₁ ≡ some (IoState.deadline instant)
    → IsValid r₁.timing_wheel.sys
    → 0 < r₁.timing_wheel.tick_interval
    → All (λ a. takes timer a ≡ false) before
    → All (λ a. takes timer a ≡ false) after
    → All (λ a. takes timer a ≡ false) between
    → poll cx timer before after future r ≡ done (pending, r')
    → acts between r' ≡ done r''
    → elapsed r₁.timing_wheel instant + r₁.timing_wheel.tick_interval
      ≤ elapsed r₁.timing_wheel now + 1
    → timing_wheel_tick now r'' ≡ done q
    → future' q ≡ done (later, q')
    → state_at reads timer q' ≡ state_at reads timer q
    → (elem cx q.woken ≡ true)
      × (poll cx' timer before' after' future' q ≡ done (at_deadline later, q'))
unfolding poll
timeout_ends {T} cx timer instant now cx' before after between before' after' future future' later r
      r₁ r' r'' q q' f s valid p nb na n e acted passed ticked f' same =
    let waits : inner_polled {T = T} cx timer before after (pending, r₁) ≡ done (pending, r') =
      rw f at e in
    let over =
      timer_wakes_in_time timer cx instant now cx' before after between before' after' r₁ r' r'' q s
        valid p nb na n (waits_for_timer {T = T} cx timer before after r₁ r' waits) acted passed
        ticked in
    let expired : state_at reads timer q' ≡ some IoState.timeout =
      same
      ∙ (poll_timeout-IsOver timer cx instant now before after between r₁ r' r'' q s valid p nb na n
          (waits_for_timer {T = T} cx timer before after r₁ r' waits) acted passed ticked).0 in
    (
      over.0,
      rw f' (
          late cx' timer before' after' later q'
            (answers_at_once cx' timer before' after' q' expired)),
    )
