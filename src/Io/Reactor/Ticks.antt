-- ===== src/Io/Reactor/Ticks.antt =====
-- crates/n3io/src/reactor.rs with crates/timing-wheel/src/lib.rs: the rounds of the timer thread, for a timer
-- that is pending in the wheel.
use zorya_rs.Base.{
  ℕ, ◌≤◌, ◌<◌, ◌≡◌, ◌⊎◌, refl, ◌∙◌, sym, ap, subst, inl, inr, Bool, true, false, List, [], ◌∷◌,
  Option, none, some, Outcome, done, panic, arith, elem, OnDone, OnDone-then, OnDone-bind,
}
use zorya_rs.TimingWheel
use zorya_rs.TimingWheel.{TimeWheel}
use zorya_rs.TimingWheel.Pending.{values, due, not_due, IsValid, pending-AllAbove}
use zorya_rs.TimingWheel.Deadlines.{agenda}
use zorya_rs.TimingWheel.Poller.{ticks_at, round-IsRound}
use zorya_rs.Io.Reactor.{
  IoState, ReactorImpl, reads, state_at, put, expire_at, expire_token, expire_tokens,
  timing_wheel_tick,
}
use zorya_rs.Io.Reactor.Due.{
  wanted, wanted-not_due, has-AllAbove, IsOver, Waiting, IsDue, Served, expire_tokens-IsOver,
  expire_tokens-Served,
}

module _ (timer cx : ℕ) (want : Bool) where
  -- The wheel is valid, has the interval and the start that are given, and the timer is due in it.
  pub record IsPending (start interval t : ℕ) (r : ReactorImpl) : Type 0 where
    pub valid : IsValid r.timing_wheel.sys
    pub same_start : r.timing_wheel.start ≡ start
    pub same_interval : r.timing_wheel.tick_interval ≡ interval
    pub due : IsDue timer cx want t r

  -- What the expiry of the tokens of a round leaves of the timer.
  after_round :
      (t n : ℕ) (l : List (ℕ × ℕ)) (b : Bool) (r : ReactorImpl)
      → elem timer (values (due n l)) ≡ b
      → wanted want t timer l ≡ true
      → agenda r.timing_wheel.sys ≡ not_due n l
      → Served timer cx b r
      → IsDue timer cx want t r
  after_round t n l true r e h same served = inl served
  after_round t n l false r e h same served =
      inr (served, rw same (wanted-not_due want t timer n l h e))

expire_at-wheel :
    (token : ℕ) (o : Option IoState) (r : ReactorImpl)
    → OnDone (λ q. q.timing_wheel ≡ r.timing_wheel) (expire_at token o r)
unfolding expire_at put
expire_at-wheel token none r = refl
expire_at-wheel token (some (IoState.timer w)) r = refl
expire_at-wheel token (some _) r = tt

expire_tokens-wheel :
    (wheel : TimeWheel ℕ) (tokens : List ℕ) (r : ReactorImpl)
    → r.timing_wheel ≡ wheel
    → OnDone (λ q. q.timing_wheel ≡ wheel) (expire_tokens tokens r)
unfolding expire_tokens expire_token
expire_tokens-wheel wheel [] r e = e
expire_tokens-wheel wheel (token ∷ tokens) r e =
    OnDone-then (λ q. q.timing_wheel ≡ r.timing_wheel) (λ q. q.timing_wheel ≡ wheel)
      (expire_token token r) (expire_tokens tokens)
      (expire_at-wheel token (state_at reads token r) r)
      (λ q same. expire_tokens-wheel wheel tokens q (same ∙ e))

-- Both of two things that hold of a result.
OnDone-both :
    {A : Type 0} (P R : A → Type 0) (o : Outcome A)
    → OnDone P o
    → OnDone R o
    → OnDone (λ a. P a × R a) o
OnDone-both P R (done a) p q = (p, q)
OnDone-both P R panic p q = tt

pub OnDone-mono :
    {A : Type 0} (P R : A → Type 0) (o : Outcome A)
    → OnDone P o
    → ((a : A) → P a → R a)
    → OnDone R o
OnDone-mono P R (done a) p f = f a p
OnDone-mono P R panic p f = tt

module _ (timer cx : ℕ) (want : Bool) (start interval t : ℕ) where
  tick-IsOver :
      (now : ℕ) (r : ReactorImpl)
      → IsOver timer cx r
      → OnDone (IsOver timer cx) (timing_wheel_tick now r)
  unfolding timing_wheel_tick
  tick-IsOver now r h =
      OnDone-bind (IsOver timer cx) (TimingWheel.round r.timing_wheel now 0 []) _ (λ round.
        expire_tokens-IsOver timer cx (TimingWheel.events_of round)
          (record r { timing_wheel = TimingWheel.wheel_of round }) h)

  abbrev Sound : TimeWheel ℕ → Type 0
  Sound w = IsValid w.sys × (w.start ≡ start) × (w.tick_interval ≡ interval)

  same-IsPending :
      (w : TimeWheel ℕ) (q : ReactorImpl)
      → Sound w
      → q.timing_wheel ≡ w
      → IsDue timer cx want t q
      → IsPending timer cx want start interval t q
  same-IsPending w q sound same d =
      let x = subst Sound (sym same) sound in
      record { valid = x.0; same_start = x.1; same_interval = x.2; due = d }

  -- The tokens of a round are expired.
  expire_round :
      (n : ℕ) (l : List (ℕ × ℕ)) (tokens : List ℕ) (r : ReactorImpl)
      → tokens ≡ values (due n l)
      → agenda r.timing_wheel.sys ≡ not_due n l
      → Sound r.timing_wheel
      → IsOver timer cx r ⊎ (Waiting timer cx r × (wanted want t timer l ≡ true))
      → OnDone (IsPending timer cx want start interval t) (expire_tokens tokens r)
  expire_round n l tokens r fired kept sound (inl over) =
      OnDone-mono (λ q. IsOver timer cx q × (q.timing_wheel ≡ r.timing_wheel)) _
        (expire_tokens tokens r)
        (OnDone-both _ _ (expire_tokens tokens r) (expire_tokens-IsOver timer cx tokens r over)
          (expire_tokens-wheel r.timing_wheel tokens r refl))
        (λ q x. same-IsPending r.timing_wheel q sound x.1 (inl x.0))
  expire_round n l tokens r fired kept sound (inr (waits, there)) =
      OnDone-mono (λ q. Served timer cx (elem timer tokens) q × (q.timing_wheel ≡ r.timing_wheel)) _
        (expire_tokens tokens r)
        (OnDone-both _ _ (expire_tokens tokens r) (expire_tokens-Served timer cx tokens r waits)
          (expire_tokens-wheel r.timing_wheel tokens r refl))
        (λ q x. same-IsPending r.timing_wheel q sound x.1 (
          after_round timer cx want t n l (elem timer tokens) q (ap (elem timer) (sym fired)) there
            (rw x.1 kept) x.0))

  -- A round of the timer thread keeps the timer pending, or wakes its task.
  pub tick-IsPending :
      (now : ℕ) (r : ReactorImpl)
      → 0 < interval
      → IsPending timer cx want start interval t r
      → OnDone (IsPending timer cx want start interval t) (timing_wheel_tick now r)
  unfolding timing_wheel_tick
  tick-IsPending now r p h =
      let w = r.timing_wheel in
      let (round, e, x) = round-IsRound w now 0 [] h.valid (omega (arith, h.same_interval, p)) in
      rw e (
        expire_round (ticks_at w now) (agenda w.sys) (TimingWheel.events_of round)
          (record r { timing_wheel = TimingWheel.wheel_of round }) x.fired x.kept
          (x.valid, x.same_start ∙ h.same_start, x.same_interval ∙ h.same_interval) h.due)

module _ (timer cx start interval t : ℕ) where
  -- A round whose time has reached the tick of the timer wakes the task.
  pub tick_late :
      (now : ℕ) (r : ReactorImpl)
      → 0 < interval
      → IsPending timer cx true start interval t r
      → t ≤ ticks_at r.timing_wheel now
      → OnDone (IsOver timer cx) (timing_wheel_tick now r)
  unfolding timing_wheel_tick
  tick_late now r p h late =
      let w = r.timing_wheel in
      let (round, e, x) = round-IsRound w now 0 [] h.valid (omega (arith, h.same_interval, p)) in
      let r' = record r { timing_wheel = TimingWheel.wheel_of round } in
      let tokens = TimingWheel.events_of round in
      rw e (
        OnDone-mono
          (λ q.
            IsPending timer cx true start interval t q
            × (q.timing_wheel ≡ TimingWheel.wheel_of round))
          _ (expire_tokens tokens r')
          (OnDone-both _ _ (expire_tokens tokens r')
            (expire_round timer cx true start interval t (ticks_at w now) (agenda w.sys) tokens r'
              x.fired x.kept
              (x.valid, x.same_start ∙ h.same_start, x.same_interval ∙ h.same_interval) h.due)
            (expire_tokens-wheel (TimingWheel.wheel_of round) tokens r' refl))
          (λ q y. elim y.0.due [
            | inl over ↦ over
            | inr (waits, there) ↦
                let passed : q.timing_wheel.ticks ≡ ticks_at w now =
                  ap (λ v. v.ticks) y.1 ∙ x.ticks in
                let ahead =
                  has-AllAbove t timer q.timing_wheel.ticks (agenda q.timing_wheel.sys)
                    (pending-AllAbove q.timing_wheel.ticks q.timing_wheel.ticks
                      q.timing_wheel.priority_queue q.timing_wheel.timers (omega arith)
                      y.0.valid.ordered)
                    there in
                absurd (omega (arith, ahead, late, passed))
          ]))
