-- ===== src/Io/Reactor/Others.antt =====
-- crates/n3io/src/reactor.rs: what the new tokens and the polls of other tasks leave of an entry.
use zorya_rs.Base.{
  ℕ, zero, suc, ◌+◌, ◌≡◌, ◌≢◌, refl, ◌∙◌, inl, inr, Bool, true, false, Option, none, some,
  Bool-cases, length, add_u64, arith, OnDone, OnDone-bind,
}
use zorya_rs.Io.Defs.{IoResult, ok, err}
use zorya_rs.Io.Reactor.{
  IoState, ReactorImpl, Interest, readable, Direction, reads, writes, state_at, put, drop_token,
  claim, next_free, next_token,
}
use zorya_rs.Io.Reactor.Calls.{
  register, register_with, deadline, left_by, PollStep, begins_io, waits_io, waits_timer,
  next_state, poll_step, time_out,
}
use zorya_rs.Io.Reactor.Readiness.{state_at-put_self}
use zorya_rs.Io.Reactor.Tokens.{used}
use zorya_rs.Io.Reactor.Frame.{put-other, drop_token-other}

-- A property of the reactor that the entries of a token not in use do not touch.
pub record IsApart (P : ReactorImpl → Type 0) (Other : ℕ → Type 0) : Type 0 where
  pub other : (token : ℕ) (r : ReactorImpl) → P r → used token r ≡ false → Other token
  pub counted : (n : ℕ) (r : ReactorImpl) → P r → P (record r { token_gen = n })
  pub claimed :
      (d : Direction) (token : ℕ) (r : ReactorImpl)
      → Other token
      → P r
      → P (put d token IoState.none r)
  pub timed :
      (token instant : ℕ) (r : ReactorImpl)
      → Other token
      → P r
      → P (put reads token (IoState.deadline instant) r)
  pub dropped :
      (token : ℕ) (interests : Interest) (r : ReactorImpl)
      → Other token
      → P r
      → P (drop_token token interests r)

module _ (P : ReactorImpl → Type 0) (Other : ℕ → Type 0) (apart : IsApart P Other) where
  abbrev New : Option (ℕ × ReactorImpl) → Type 0
  New none = Unit
  New (some (token, r)) = Other token × P r

  claim-apart :
      (d : Direction) (b : Bool) (token : ℕ) (r : ReactorImpl)
      → Other token
      → P r
      → P (claim d b token r)
  unfolding claim
  claim-apart d true token r o h = apart.claimed d token r o h
  claim-apart d false token r o h = h

  next_free-New :
      (fuel : ℕ) (interests : Interest) (r : ReactorImpl) → P r → New (next_free fuel interests r)
  unfolding next_free
  next_free-New zero interests r h = tt
  next_free-New (suc fuel) interests r h =
      let token = r.token_gen in
      let r' = record r { token_gen = add_u64 token 1 } in
      let h' : P r' = apart.counted (add_u64 token 1) r h in
      elim (Bool-cases (used token r')) [
        | inl e ↦ rw e (next_free-New fuel interests r' h')
        | inr e ↦
            let o = apart.other token r' h' e in
            rw e (
              o,
              claim-apart writes interests.is_writable token _ o
                  (claim-apart reads interests.is_readable token r' o h'),
            )
      ]

  register_with-apart :
      (registry : IoResult (Unit {0})) (interests : Interest) (token : ℕ) (r : ReactorImpl)
      → Other token
      → P r
      → P (register_with registry interests (token, r)).1
  unfolding register_with
  register_with-apart (ok _) interests token r o h = h
  register_with-apart (err e) interests token r o h = apart.dropped token interests r o h

  pub register-apart :
      (registry : IoResult (Unit {0})) (interests : Interest) (r : ReactorImpl)
      → P r
      → OnDone P (left_by (register registry interests r))
  unfolding register next_token left_by
  register-apart registry interests r h =
      ends _ (
        next_free-New (suc (length r.io_readable_stats + length r.io_writable_stats)) interests r h)
    where
      ends :
          (o : Option (ℕ × ReactorImpl))
          → New o
          → OnDone P (
              left_by (elim o [ none ↦ none | some t ↦ some (register_with registry interests t) ]))
      ends none h = tt
      ends (some (token, q)) h = register_with-apart registry interests token q h.0 h.1

  pub deadline-apart :
      (instant : ℕ) (r : ReactorImpl) → P r → OnDone P (left_by (deadline instant r))
  unfolding deadline next_token left_by
  deadline-apart instant r h =
      ends _
        (next_free-New (suc (length r.io_readable_stats + length r.io_writable_stats)) readable r h)
    where
      ends :
          (o : Option (ℕ × ReactorImpl))
          → New o
          → OnDone P (
              left_by (elim o [
                | none ↦ none
                | some (token, r') ↦ some (token, put reads token (IoState.deadline instant) r')
              ]))
      ends none h = tt
      ends (some (token, q)) h = apart.timed token instant q h.0 h.1

-- An entry that is there.
pub unused-other :
    (d : Direction) (io token : ℕ) (s : IoState) (r : ReactorImpl)
    → state_at d io r ≡ some s
    → used token r ≡ false
    → token ≢ io
unused-other reads io token s r h u e =
    let h' : state_at reads token r ≡ some s = rw e h in ground (arith, h', u)
unused-other writes io token s r h u e =
    let h' : state_at writes token r ≡ some s = rw e h in ground (arith, h', u)

abbrev pub Entry : Direction → ℕ → IoState → ReactorImpl → Type 0
Entry d io s r = state_at d io r ≡ some s

recounted :
    (d : Direction) (io : ℕ) (s : IoState) (n : ℕ) (r : ReactorImpl)
    → Entry d io s r
    → Entry d io s (record r { token_gen = n })
recounted reads io s n r h = h
recounted writes io s n r h = h

pub Entry-IsApart : (d : Direction) (io : ℕ) (s : IoState) → IsApart (Entry d io s) (λ j. j ≢ io)
Entry-IsApart d io s = record {
  other = λ token r h u. unused-other d io token s r h u;
  counted = recounted d io s;
  claimed = λ d' token r n h. put-other d d' io token IoState.none r n ∙ h;
  timed = λ token instant r n h. put-other d reads io token (IoState.deadline instant) r n ∙ h;
  dropped = λ token interests r n h. drop_token-other d interests io token r n ∙ h;
}

-- A part of a poll writes its entry at most.
pub poll_step-put :
    (P : ReactorImpl → Type 0) (step : PollStep) (d : Direction) (io : ℕ) (o : Option IoState)
    (r : ReactorImpl)
    → P r
    → ((s : IoState) → P (put d io s r))
    → OnDone P (poll_step step d io o r)
unfolding poll_step
poll_step-put P (waits_io cx) d io none r h k = tt
poll_step-put P begins_io d io none r h k = h
poll_step-put P (waits_timer cx) d io none r h k = h
poll_step-put P step d io (some state) r h k = OnDone-bind P (next_state step state) _ (λ s. k s)

pub time_out-put :
    (P : ReactorImpl → Type 0) (timer : ℕ) (o : Option IoState) (r : ReactorImpl)
    → P (put reads timer IoState.timeout r)
    → OnDone P (time_out timer o r)
unfolding time_out
time_out-put P timer none r k = tt
time_out-put P timer (some state) r k = k

-- The state of a new token that is for writing.
next_free-writes :
    (fuel : ℕ) (interests : Interest) (r r' : ReactorImpl) (token : ℕ)
    → interests.is_writable ≡ true
    → next_free fuel interests r ≡ some (token, r')
    → state_at writes token r' ≡ some IoState.none
unfolding next_free claim
next_free-writes zero interests r r' token w e = cc
next_free-writes (suc fuel) interests r r' token w e =
    let g = r.token_gen in
    let q = record r { token_gen = add_u64 g 1 } in
    elim (Bool-cases (used g q)) [
      | inl u ↦ next_free-writes fuel interests q r' token w (rw u at e)
      | inr u ↦
          let e' : some
                (g, claim writes interests.is_writable g (claim reads interests.is_readable g q))
              ≡ some (token, r') =
            rw u at e in
          let e'' : some (g, put writes g IoState.none (claim reads interests.is_readable g q))
              ≡ some (token, r') =
            rw w at e' in
          let same_token : g ≡ token = cc in
          let same : put writes g IoState.none (claim reads interests.is_readable g q) ≡ r' = cc in
          rw (← same, ← same_token)
            (state_at-put_self writes g IoState.none (claim reads interests.is_readable g q))
    ]

pub register-writes :
    (interests : Interest) (r r' : ReactorImpl) (token : ℕ)
    → interests.is_writable ≡ true
    → register (ok tt) interests r ≡ some (ok token, r')
    → state_at writes token r' ≡ some IoState.none
unfolding register register_with next_token
register-writes interests r r' token w e = found (next_token interests r) refl e
  where
    found :
        (o : Option (ℕ × ReactorImpl))
        → next_token interests r ≡ o
        → elim o [ none ↦ none | some t ↦ some (register_with (ok tt) interests t) ]
          ≡ some (ok token, r')
        → state_at writes token r' ≡ some IoState.none
    found none n e = cc
    found (some (t, q)) n e =
        let same : t ≡ token = cc in
        let same' : q ≡ r' = cc in
        next_free-writes (suc (length r.io_readable_stats + length r.io_writable_stats)) interests r
          r' token w (n ∙ cc)
