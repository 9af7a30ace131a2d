-- ===== src/Io/Reactor/Due.antt =====
-- crates/n3io/src/reactor.rs with crates/timing-wheel/src/lib.rs: a timer that is pending in the wheel, with a
-- task that waits for it, through the ticks of the timer thread.
use zorya_rs.Base.{
  ℕ, refl, ◌==◌, ◌&&◌, ◌||◌, ◌<◌, ◌≡◌, ◌⊎◌, ◌∙◌, inl, inr, Bool, true, false, List, [], ◌∷◌, Option,
  none, some, arith, elem, OnDone, OnDone-then, ==_refl, ℕ_discrete,
}
use zorya_rs.TimingWheel.Pending.{values, due, not_due, schedule, AllAbove}
use zorya_rs.TimingWheel.Deadlines.{agenda}
use zorya_rs.Io.Reactor.{
  IoState, ReactorImpl, reads, state_at, expire_at, expire_token, expire_tokens,
}
use zorya_rs.Io.Reactor.Readiness.{state_at-put_self, put_frame}

-- The timer is pending for the tick `t`.
unfoldable pub has : ℕ → ℕ → List (ℕ × ℕ) → Bool
has t timer [] = false
has t timer ((s, x) ∷ l) = ((s == t) && (x == timer)) || has t timer l

pub has-schedule : (t timer : ℕ) (l : List (ℕ × ℕ)) → has t timer (schedule t timer l) ≡ true
unfolding has schedule
has-schedule t timer [] = ground arith
has-schedule t timer ((s, x) ∷ l) = ground (arith, has-schedule t timer l)

pub has-schedule_keeps :
    (t timer s x : ℕ) (l : List (ℕ × ℕ))
    → has t timer l ≡ true
    → has t timer (schedule s x l) ≡ true
unfolding has schedule
has-schedule_keeps t timer s x [] h = cc
has-schedule_keeps t timer s x ((s', y) ∷ l) h = ground (arith, has-schedule_keeps t timer s x l, h)

has-not_due :
    (t timer n : ℕ) (l : List (ℕ × ℕ))
    → has t timer l ≡ true
    → elem timer (values (due n l)) ≡ false
    → has t timer (not_due n l) ≡ true
unfolding has due not_due
has-not_due t timer n [] h e = h
has-not_due t timer n ((s, x) ∷ l) h e = ground (arith, has-not_due t timer n l, h, e)

pub has-AllAbove : (t timer n : ℕ) (l : List (ℕ × ℕ)) → AllAbove n l → has t timer l ≡ true → n < t
unfolding has
has-AllAbove t timer n [] a h = cc
has-AllAbove t timer n ((s, x) ∷ l) a h = ground (arith, has-AllAbove t timer n l a.1, a.0, h)

-- The same, where the timer is said to be in the wheel; where nothing is said of it, this holds.
abbrev pub wanted : Bool → ℕ → ℕ → List (ℕ × ℕ) → Bool
wanted true t timer l = has t timer l
wanted false t timer l = true

pub wanted-not_due :
    (want : Bool) (t timer n : ℕ) (l : List (ℕ × ℕ))
    → wanted want t timer l ≡ true
    → elem timer (values (due n l)) ≡ false
    → wanted want t timer (not_due n l) ≡ true
wanted-not_due true t timer n l h e = has-not_due t timer n l h e
wanted-not_due false t timer n l h e = refl

module _ (timer cx : ℕ) where
  -- The task has been woken, and the next call of `poll_timeout` will find that the timer has expired.
  abbrev pub IsOver : ReactorImpl → Type 0
  IsOver r = (state_at reads timer r ≡ some IoState.timeout) × (elem cx r.woken ≡ true)

  abbrev pub Waiting : ReactorImpl → Type 0
  Waiting r = state_at reads timer r ≡ some (IoState.timer cx)

  expire_at-IsOver :
      (token : ℕ) (o : Option IoState) (r : ReactorImpl)
      → IsOver r
      → OnDone IsOver (expire_at token o r)
  unfolding expire_at
  expire_at-IsOver token none r h = h
  expire_at-IsOver token (some (IoState.timer w)) r h = (
    elim (put_frame reads reads timer token IoState.timeout r) [
      | inl same ↦ same ∙ h.0
      | inr (_, _, written) ↦ written
    ],
    ground (arith, h.1),
  )
  expire_at-IsOver token (some _) r h = tt

  -- The token of the timer is expired.
  expire_token_wakes : (r : ReactorImpl) → Waiting r → OnDone IsOver (expire_token timer r)
  unfolding expire_token expire_at
  expire_token_wakes r h = rw h (state_at-put_self reads timer IoState.timeout r, ground arith)

  expire_at-other :
      (token : ℕ) (o : Option IoState) (r : ReactorImpl)
      → ¬ (token ≡ timer)
      → Waiting r
      → OnDone Waiting (expire_at token o r)
  unfolding expire_at
  expire_at-other token none r n h = h
  expire_at-other token (some (IoState.timer w)) r n h =
      elim (put_frame reads reads timer token IoState.timeout r) [
        | inl same ↦ same ∙ h
        | inr (same, _, _) ↦ absurd (n same)
      ]
  expire_at-other token (some _) r n h = tt

  pub expire_tokens-IsOver :
      (tokens : List ℕ) (r : ReactorImpl) → IsOver r → OnDone IsOver (expire_tokens tokens r)
  unfolding expire_tokens expire_token
  expire_tokens-IsOver [] r h = h
  expire_tokens-IsOver (token ∷ tokens) r h =
      OnDone-then IsOver IsOver (expire_token token r) (expire_tokens tokens)
        (expire_at-IsOver token (state_at reads token r) r h) (expire_tokens-IsOver tokens)

  -- What the expiry of tokens leaves of a waiting task: it is woken if its timer is among them.
  abbrev pub Served : Bool → ReactorImpl → Type 0
  Served true = IsOver
  Served false = Waiting

  pub expire_tokens-Served :
      (tokens : List ℕ) (r : ReactorImpl)
      → Waiting r
      → OnDone (Served (elem timer tokens)) (expire_tokens tokens r)
  unfolding expire_tokens expire_token
  expire_tokens-Served [] r h = h
  expire_tokens-Served (token ∷ tokens) r h = elim (ℕ_discrete token timer) [
    | yes e ↦
        rw (e, ==_refl timer)
          (OnDone-then IsOver IsOver (expire_token timer r) (expire_tokens tokens)
            (expire_token_wakes r h) (expire_tokens-IsOver tokens))
    | no n ↦
        let other : (token == timer) ≡ false = ground (arith, n) in
        rw other (
          OnDone-then Waiting (Served (elem timer tokens)) (expire_token token r)
            (expire_tokens tokens) (expire_at-other token (state_at reads token r) r n h)
            (expire_tokens-Served tokens))
  ]

  -- The task is woken, or it waits for the timer, which is pending for the tick `t` if that is wanted.
  abbrev pub IsDue : Bool → ℕ → ReactorImpl → Type 0
  IsDue want t r = IsOver r ⊎ (Waiting r × (wanted want t timer (agenda r.timing_wheel.sys) ≡ true))
