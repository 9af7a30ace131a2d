-- ===== src/Io/Reactor/Prompt.antt =====
-- crates/n3io/src/reactor.rs with crates/timing-wheel/src/lib.rs: a task that waits for a timer is woken in
-- time, whatever other threads do in between.
use zorya_rs.Base.{
  ℕ, ◌+◌, ◌≤◌, ◌<◌, ◌≡◌, refl, ◌⊎◌, inl, inr, true, false, List, Option, none, some, Outcome, done,
  arith, elem, All, OnDone-at, subst, dec_lt, ◌>>=◌,
}
use zorya_rs.TimingWheel
use zorya_rs.TimingWheel.{TimeWheel}
use zorya_rs.TimingWheel.Pending.{IsValid}
use zorya_rs.TimingWheel.Deadlines.{
  tick_of, agenda, with_timer, with_timer-IsScheduled, deadline_accepted, deadline_expired,
}
use zorya_rs.TimingWheel.Poller.{elapsed, ticks_at, tick_passed}
use zorya_rs.Io.Defs.{IoResult, ok, Poll, ready, pending}
use zorya_rs.Io.Reactor.{IoState, ReactorImpl, reads, state_at, put, timing_wheel_tick}
use zorya_rs.Io.Reactor.Calls.{Act, acts, poll_timeout, timer_first, timer_again}
use zorya_rs.Io.Reactor.Readiness.{state_at-put_self, >>=-eq-done}
use zorya_rs.Io.Reactor.NoLoss.{takes}
use zorya_rs.Io.Reactor.Due.{IsOver, Waiting, has-schedule}
use zorya_rs.Io.Reactor.Ticks.{IsPending, tick_late}
use zorya_rs.Io.Reactor.Held.{acts-Holds}

module _ (timer cx instant now : ℕ) where
  -- What is known of a task that waits for a timer that may not be in the wheel yet.
  abbrev Known : ReactorImpl → Type 0
  Known r = IsOver timer cx r ⊎ Waiting timer cx r

  -- The timer, which the wheel has accepted, is pending for its tick.
  accepted-IsPending :
      (r : ReactorImpl)
      → IsValid r.timing_wheel.sys
      → r.timing_wheel.ticks < tick_of r.timing_wheel instant
      → Known r
      → let w = r.timing_wheel in
        IsPending timer cx true w.start w.tick_interval
          (tick_of w instant)
          (record r { timing_wheel = with_timer (tick_of w instant) timer w })
  accepted-IsPending r valid ahead known =
      let w = r.timing_wheel in
      let s = with_timer-IsScheduled (tick_of w instant) timer w valid ahead in
      record {
        valid = s.valid;
        same_start = refl;
        same_interval = refl;
        due = elim known [
          | inl over ↦ inl over
          | inr waits ↦
              inr (waits, rw s.scheduled (has-schedule (tick_of w instant) timer (agenda w.sys)))
        ];
      }

  timer_again-same :
      (tick : Option ℕ) (o : Option IoState) (r r' : ReactorImpl)
      → timer_again timer tick o r ≡ done (pending, r')
      → r ≡ r'
  unfolding timer_again
  timer_again-same tick none r r' e = cc
  timer_again-same none (some s) r r' e = cc
  timer_again-same (some t) (some (IoState.timer w)) r r' e = cc
  timer_again-same (some t) (some _) r r' e = cc

  refused :
      (o : Option IoState) (r r' : ReactorImpl)
      → ¬ (timer_again timer none o r ≡ done (pending, r'))
  unfolding timer_again
  refused none r r' e = cc
  refused (some s) r r' e = cc

  -- The end of the first look, once the wheel has answered.
  abbrev rest :
      List Act
      → ReactorImpl
      → Option ℕ × TimeWheel ℕ
      → Outcome (Poll (IoResult (Unit {0})) × ReactorImpl)
  rest after r (tick, wheel) =
      acts after (record r { timing_wheel = wheel })
      >>= (λ r'. timer_again timer tick (state_at reads timer r') r')

  rest-IsPending :
      (after : List Act) (r r' : ReactorImpl)
      → IsValid r.timing_wheel.sys
      → 0 < r.timing_wheel.tick_interval
      → All (λ a. takes timer a ≡ false) after
      → Known r
      → TimingWheel.deadline r.timing_wheel instant timer >>= rest after r ≡ done (pending, r')
      → let w = r.timing_wheel in
        IsPending timer cx true w.start w.tick_interval (tick_of w instant) r'
  rest-IsPending after r r' valid p n waits e =
      let w = r.timing_wheel in
      let t = tick_of w instant in
      elim (dec_lt w.ticks t) [
        | yes ahead ↦
            let r₁ = record r { timing_wheel = with_timer t timer w } in
            let e' : rest after r (some t, with_timer t timer w) ≡ done (pending, r') =
              subst (λ o. o >>= rest after r ≡ done (pending, r'))
                (deadline_accepted w instant timer p ahead) e in
            let (r₂, acted, again) = >>=-eq-done (acts after r₁) _ e' in
            let held : IsPending timer cx true w.start w.tick_interval t r₂ =
              OnDone-at (IsPending timer cx true w.start w.tick_interval t) (acts after r₁) r₂
                (acts-Holds timer cx true w.start w.tick_interval t after r₁ p n
                  (accepted-IsPending r valid ahead waits))
                acted in
            subst (IsPending timer cx true w.start w.tick_interval t)
              (timer_again-same (some t) (state_at reads timer r₂) r₂ r' again) held
        | no passed ↦
            let e' : rest after r (none, w) ≡ done (pending, r') =
              subst (λ o. o >>= rest after r ≡ done (pending, r'))
                (deadline_expired w instant timer p (omega arith)) e in
            let (r₂, acted, again) =
              >>=-eq-done (acts after (record r { timing_wheel = w })) _ e' in
            absurd (refused (state_at reads timer r₂) r₂ r' again)
      ]

  -- What other threads do before the timer is in the wheel.
  before-Known :
      (before : List Act) (r r₁ : ReactorImpl)
      → IsValid r.timing_wheel.sys
      → 0 < r.timing_wheel.tick_interval
      → All (λ a. takes timer a ≡ false) before
      → Waiting timer cx r
      → acts before r ≡ done r₁
      → IsValid r₁.timing_wheel.sys
        × (r₁.timing_wheel.start ≡ r.timing_wheel.start)
        × (r₁.timing_wheel.tick_interval ≡ r.timing_wheel.tick_interval)
        × Known r₁
  before-Known before r r₁ valid p n waits acted =
      let w = r.timing_wheel in
      let Free = IsPending timer cx false w.start w.tick_interval 0 in
      let h : Free r₁ =
        OnDone-at Free (acts before r) r₁
          (acts-Holds timer cx false w.start w.tick_interval 0 before r p n (record {
            valid = valid;
            same_start = refl;
            same_interval = refl;
            due = inr (waits, refl);
          }))
          acted in
      (h.valid, h.same_start, h.same_interval, elim h.due [ inl over ↦ inl over | inr x ↦ inr x.0 ])

  first-IsPending :
      (before after : List Act) (r r' : ReactorImpl)
      → state_at reads timer r ≡ some (IoState.deadline instant)
      → IsValid r.timing_wheel.sys
      → 0 < r.timing_wheel.tick_interval
      → All (λ a. takes timer a ≡ false) before
      → All (λ a. takes timer a ≡ false) after
      → poll_timeout cx timer before after r ≡ done (pending, r')
      → let w = r.timing_wheel in
        IsPending timer cx true w.start w.tick_interval (tick_of w instant) r'
  unfolding poll_timeout timer_first put
  first-IsPending before after r r' s valid p n m e =
      let r₀ = put reads timer (IoState.timer cx) r in
      let first : timer_first cx timer before after (some (IoState.deadline instant)) r
          ≡ done (pending, r') =
        subst (λ o. timer_first cx timer before after o r ≡ done (pending, r')) s e in
      let (r₁, acted, left) = >>=-eq-done (acts before r₀) _ first in
      let (valid', start, interval, known) =
        before-Known before r₀ r₁ valid p n (state_at-put_self reads timer (IoState.timer cx) r)
          acted in
      rw (← start, ← interval)
        (rest-IsPending after r₁ r' valid' (omega (arith, interval, p)) m known left)

  pub poll_timeout-IsOver :
      (before after between : List Act) (r r' r'' q : ReactorImpl)
      → state_at reads timer r ≡ some (IoState.deadline instant)
      → IsValid r.timing_wheel.sys
      → 0 < r.timing_wheel.tick_interval
      → All (λ a. takes timer a ≡ false) before
      → All (λ a. takes timer a ≡ false) after
      → All (λ a. takes timer a ≡ false) between
      → poll_timeout cx timer before after r ≡ done (pending, r')
      → acts between r' ≡ done r''
      → elapsed r.timing_wheel instant + r.timing_wheel.tick_interval
        ≤ elapsed r.timing_wheel now + 1
      → timing_wheel_tick now r'' ≡ done q
      → IsOver timer cx q
  poll_timeout-IsOver before after between r r' r'' q s valid p l n m e acted late ticked =
      let w = r.timing_wheel in
      let t = tick_of w instant in
      let start : IsPending timer cx true w.start w.tick_interval t r' =
        first-IsPending before after r r' s valid p l n e in
      let held : IsPending timer cx true w.start w.tick_interval t r'' =
        OnDone-at (IsPending timer cx true w.start w.tick_interval t) (acts between r') r''
          (acts-Holds timer cx true w.start w.tick_interval t between r' p m start) acted in
      let passed : t ≤ ticks_at r''.timing_wheel now =
        rw (held.same_start, held.same_interval) (tick_passed w instant now p late) in
      OnDone-at (IsOver timer cx) (timing_wheel_tick now r'') q
        (tick_late timer cx w.start w.tick_interval t now r'' p held passed) ticked

  -- A task that `poll_timeout` tells to wait for a new timer is woken in time, whatever other threads do
  -- to the reactor in the two gaps of that call and after it, as long as they do not take away or poll
  -- this timer: other tasks may register sources, poll them and set, poll and drop other timers. When
  -- the timer thread runs a round at least one microsecond less than a tick interval after the
  -- deadline, then after this round the task has been woken, and the next call of `poll_timeout`, by
  -- any task, finds that the timer has expired. The wheel was valid, with a positive interval, at the
  -- first call.
  pub timer_wakes_in_time :
      (cx' : ℕ) (before after between before' after' : List Act) (r r' r'' q : ReactorImpl)
      → state_at reads timer r ≡ some (IoState.deadline instant)
      → IsValid r.timing_wheel.sys
      → 0 < r.timing_wheel.tick_interval
      → All (λ a. takes timer a ≡ false) before
      → All (λ a. takes timer a ≡ false) after
      → All (λ a. takes timer a ≡ false) between
      → poll_timeout cx timer before after r ≡ done (pending, r')
      → acts between r' ≡ done r''
      → elapsed r.timing_wheel instant + r.timing_wheel.tick_interval
        ≤ elapsed r.timing_wheel now + 1
      → timing_wheel_tick now r'' ≡ done q
      → (elem cx q.woken ≡ true)
        × (poll_timeout cx' timer before' after' q ≡ done (ready (ok tt), q))
  unfolding poll_timeout timer_first
  timer_wakes_in_time cx' before after between before' after' r r' r'' q s valid p l n m e acted
        late ticked =
      let over =
        poll_timeout-IsOver before after between r r' r'' q s valid p l n m e acted late ticked in
      (over.1, rw over.0 refl)
