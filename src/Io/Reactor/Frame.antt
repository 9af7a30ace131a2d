-- ===== src/Io/Reactor/Frame.antt =====
-- crates/n3io/src/reactor.rs: what a call on one io leaves of the entries of another.
use zorya_rs.Base.{
  ℕ, Bool, true, false, ◌≡◌, ◌≢◌, refl, ◌∙◌, inl, inr, List, [], ◌∷◌, Option, none, some, done,
  arith,
}
use zorya_rs.Base.Maps.{lookup-insert, lookup-remove, nat_key}
use zorya_rs.TimingWheel
use zorya_rs.Io.Defs.{IoResult, ok, err}
use zorya_rs.Io.Reactor.{
  IoState, ReactorImpl, Interest, Direction, reads, writes, state_at, put, expire_at, expire_token,
  expire_tokens, timing_wheel_tick, drop_token, forget,
}
use zorya_rs.Io.Reactor.Calls.{shut, shutdown, shut_at, and_then}
use zorya_rs.Io.Reactor.Readiness.{put_frame, IsOpen, >>=-eq-done}

pub expire_at-same :
    (d : Direction) (io j : ℕ) (o : Option IoState) (r r' : ReactorImpl)
    → IsOpen d io r
    → state_at reads j r ≡ o
    → expire_at j o r ≡ done r'
    → state_at d io r' ≡ state_at d io r
unfolding expire_at put
expire_at-same d io j none r r' h e q = ground arith
expire_at-same reads io j (some (IoState.timer w)) r r' h e q =
    ground (arith, lookup-insert j io IoState.timeout r.io_readable_stats)
expire_at-same writes io j (some (IoState.timer w)) r r' h e q = ground arith
expire_at-same d io j (some _) r r' h e q = cc

pub expire_tokens-same :
    (d : Direction) (io : ℕ) (tokens : List ℕ) (r r' : ReactorImpl)
    → IsOpen d io r
    → expire_tokens tokens r ≡ done r'
    → state_at d io r' ≡ state_at d io r
unfolding expire_tokens expire_token
expire_tokens-same d io [] r r' h e = ground arith
expire_tokens-same d io (token ∷ tokens) r r' h e =
    let (q, first, rest) = >>=-eq-done (expire_at token (state_at reads token r) r) _ e in
    let same = expire_at-same d io token (state_at reads token r) r q h refl first in
    expire_tokens-same d io tokens q r' (ground arith) rest ∙ same

pub tick-same :
    (d : Direction) (io now : ℕ) (r r' : ReactorImpl)
    → IsOpen d io r
    → timing_wheel_tick now r ≡ done r'
    → state_at d io r' ≡ state_at d io r
unfolding timing_wheel_tick
tick-same reads io now r r' h e =
    let (round, run, rest) = >>=-eq-done (TimingWheel.round r.timing_wheel now 0 []) _ e in
    expire_tokens-same reads io (TimingWheel.events_of round)
      (record r { timing_wheel = TimingWheel.wheel_of round }) r' h rest
tick-same writes io now r r' h e =
    let (round, run, rest) = >>=-eq-done (TimingWheel.round r.timing_wheel now 0 []) _ e in
    expire_tokens-same writes io (TimingWheel.events_of round)
      (record r { timing_wheel = TimingWheel.wheel_of round }) r' h rest

pub forget-other :
    (d d' : Direction) (b : Bool) (io j : ℕ) (r : ReactorImpl)
    → j ≢ io
    → state_at d io (forget d' b j r) ≡ state_at d io r
unfolding forget
forget-other reads reads true io j r h = ground (arith, lookup-remove j io r.io_readable_stats)
forget-other writes writes true io j r h = ground (arith, lookup-remove j io r.io_writable_stats)
forget-other reads writes true io j r h = refl
forget-other writes reads true io j r h = refl
forget-other d d' false io j r h = refl

pub drop_token-other :
    (d : Direction) (interests : Interest) (io j : ℕ) (r : ReactorImpl)
    → j ≢ io
    → state_at d io (drop_token j interests r) ≡ state_at d io r
unfolding drop_token
drop_token-other d interests io j r h =
    forget-other d writes interests.is_writable io j _ h
    ∙ forget-other d reads interests.is_readable io j r h

pub forget_self :
    (d : Direction) (io : ℕ) (r : ReactorImpl) → state_at d io (forget d true io r) ≡ none
unfolding forget
forget_self reads io r = ground (arith, lookup-remove io io r.io_readable_stats)
forget_self writes io r = ground (arith, lookup-remove io io r.io_writable_stats)

-- An io that is dropped from both tables is in neither.
pub drop_token_self :
    (d : Direction) (io : ℕ) (r : ReactorImpl)
    → state_at d io (drop_token io (record { is_readable = true; is_writable = true }) r) ≡ none
unfolding drop_token forget
drop_token_self reads io r = forget_self reads io r
drop_token_self writes io r = forget_self writes io (forget reads true io r)

pub put-other :
    (d d' : Direction) (io j : ℕ) (s : IoState) (r : ReactorImpl)
    → j ≢ io
    → state_at d io (put d' j s r) ≡ state_at d io r
put-other d d' io j s r h = elim (put_frame d d' io j s r) [
  | inl same ↦ same
  | inr (e, _, _) ↦ absurd (h e)
]

pub shut_at-other :
    (d d' : Direction) (io j : ℕ) (o : Option IoState) (r : ReactorImpl)
    → j ≢ io
    → state_at d io (shut_at d' j o r).1 ≡ state_at d io r
unfolding shut_at
shut_at-other d d' io j none r h = refl
shut_at-other reads d' io j (some (IoState.waker w)) r h =
    put-other reads d' io j IoState.shutdown r h
shut_at-other writes d' io j (some (IoState.waker w)) r h =
    put-other writes d' io j IoState.shutdown r h
shut_at-other d d' io j (some _) r h = put-other d d' io j IoState.shutdown r h

pub shut-other :
    (d d' : Direction) (b : Bool) (io j : ℕ) (r : ReactorImpl)
    → j ≢ io
    → state_at d io (shut d' b j r).1 ≡ state_at d io r
unfolding shut
shut-other d d' true io j r h = shut_at-other d d' io j (state_at d' j r) r h
shut-other d d' false io j r h = refl

pub shutdown-other :
    (d : Direction) (interests : Interest) (io j : ℕ) (r : ReactorImpl)
    → j ≢ io
    → state_at d io (shutdown j interests r).1 ≡ state_at d io r
unfolding shutdown
shutdown-other d interests io j r h =
    and_then-other (shut reads interests.is_readable j r) (shut writes interests.is_writable j)
      (shut-other d reads interests.is_readable io j r h)
      (λ q. shut-other d writes interests.is_writable io j q h)
  where
    and_then-other :
        (p : IoResult (Unit {0}) × ReactorImpl)
        (f : ReactorImpl → IoResult (Unit {0}) × ReactorImpl)
        → state_at d io p.1 ≡ state_at d io r
        → ((q : ReactorImpl) → state_at d io (f q).1 ≡ state_at d io q)
        → state_at d io (and_then p f).1 ≡ state_at d io r
    and_then-other (ok _, q) f e g = g q ∙ e
    and_then-other (err _, q) f e g = e
