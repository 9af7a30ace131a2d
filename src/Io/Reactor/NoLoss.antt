-- ===== src/Io/Reactor/NoLoss.antt =====
-- crates/n3io/src/reactor.rs: an event that comes while `poll_io` attempts its operation is not lost,
-- and a task that is told to wait stands in the table with its waker.
use zorya_rs.Base.{
  ℕ, Bool, true, false, ◌||◌, ◌≡◌, inl, inr, List, [], ◌∷◌, ◌++◌, Option, none, some, Outcome, done,
  ◌>>=◌, ◌≢◌, ◌∙◌, sym, OnDone, OnDone-at, OnDone-bind, arith, ◌==◌, All,
}
use zorya_rs.Base.Maps.{nat_key}
use zorya_rs.TimingWheel
use zorya_rs.Io.Defs.{would_block, IoResult, ok, err, pending}
use zorya_rs.Io.Reactor.{
  IoState, ReactorImpl, Interest, readable, Direction, reads, writes, state_at, put, Event, raise,
  raise_at, io_event,
}
use zorya_rs.Io.Reactor.Calls.{
  Act, registers, sets, polls, enters, times_out, raises, ticks, shuts, drops, deregisters, act,
  acts, deregister_timer, deregister,
}
use zorya_rs.Io.Reactor.PollIo.{
  Attempt, Tried, try_io, poll_io, blocked, after_attempt, start_io, direction_of,
}
use zorya_rs.Io.Reactor.Others.{
  Entry, Entry-IsApart, register-apart, deadline-apart, poll_step-put, time_out-put,
}
use zorya_rs.Io.Reactor.Readiness.{
  state_at-put_self, IsOpen, Kept, >>=-eq-done, io_event-Kept, raise-Kept, raise_wakes,
}
use zorya_rs.Io.Reactor.Frame.{put-other, tick-same, drop_token-other, shutdown-other}

-- An act that takes the io or timer away from its user, or that polls it in the user's place.
abbrev pub takes : ℕ → Act → Bool
takes io (raises e) = false
takes io (ticks now) = false
takes io (shuts j interests) = j == io
takes io (drops j) = j == io
takes io (deregisters j) = j == io
takes io (registers registry interests) = false
takes io (sets instant) = false
takes io (polls step d j) = j == io
takes io (enters j instant) = false
takes io (times_out j) = j == io

stays_put :
    (d : Direction) (io : ℕ) (a : Act) (s : IoState) (r r' : ReactorImpl)
    → state_at d io r ≡ some s
    → OnDone (Entry d io s) (act a r)
    → act a r ≡ done r'
    → Kept d io r r'
stays_put d io a s r r' e h q = inl (OnDone-at (Entry d io s) (act a r) r' h q ∙ sym e)

-- What holds of each state of an open io.
open_state :
    (d : Direction) (io : ℕ) (r : ReactorImpl)
    → IsOpen d io r
    → (s : IoState) × (state_at d io r ≡ some s)
open_state d io r (inl e) = (IoState.none, e)
open_state d io r (inr e) = (IoState.ready, e)

pub with_wheel-Entry :
    (d : Direction) (io : ℕ) (s : IoState) (r : ReactorImpl)
    (o : Outcome (Option ℕ × TimingWheel.TimeWheel ℕ))
    → Entry d io s r
    → OnDone (Entry d io s) (o >>= λ p. done (record r { timing_wheel = p.1 }))
with_wheel-Entry reads io s r o h = OnDone-bind (Entry reads io s) o _ (λ p. h)
with_wheel-Entry writes io s r o h = OnDone-bind (Entry writes io s) o _ (λ p. h)

-- What another thread does, short of taking the io away, keeps an open io as it is or makes it ready.
act-Kept :
    (d : Direction) (io : ℕ) (a : Act) (r r' : ReactorImpl)
    → takes io a ≡ false
    → IsOpen d io r
    → act a r ≡ done r'
    → Kept d io r r'
unfolding act deregister_timer deregister
act-Kept d io (raises e) r r' t h q = io_event-Kept d io e r r' q
act-Kept d io (ticks now) r r' t h q = inl (tick-same d io now r r' h q)
act-Kept d io (shuts j interests) r r' t h q =
    inl (ground (arith, shutdown-other d interests io j r))
act-Kept d io (drops j) r r' t h q = inl (ground (arith, drop_token-other d readable io j r))
act-Kept d io (deregisters j) r r' t h q =
    inl (
      ground (arith, drop_token-other d (record { is_readable = true; is_writable = true }) io j r))
act-Kept d io (registers registry interests) r r' t h q =
    let (s, e) = open_state d io r h in
    stays_put d io (registers registry interests) s r r' e
      (register-apart (Entry d io s) (λ j. j ≢ io) (Entry-IsApart d io s) registry interests r e) q
act-Kept d io (sets instant) r r' t h q =
    let (s, e) = open_state d io r h in
    stays_put d io (sets instant) s r r' e
      (deadline-apart (Entry d io s) (λ j. j ≢ io) (Entry-IsApart d io s) instant r e) q
act-Kept d io (polls step d' j) r r' t h q =
    let (s, e) = open_state d io r h in
    stays_put d io (polls step d' j) s r r' e
      (poll_step-put (Entry d io s) step d' j (state_at d' j r) r e
        (λ s'. put-other d d' io j s' r (λ same. ground (arith, same, t)) ∙ e))
      q
act-Kept d io (enters j instant) r r' t h q =
    let (s, e) = open_state d io r h in
    stays_put d io (enters j instant) s r r' e
      (with_wheel-Entry d io s r (TimingWheel.deadline r.timing_wheel instant j) e) q
act-Kept d io (times_out j) r r' t h q =
    let (s, e) = open_state d io r h in
    stays_put d io (times_out j) s r r' e
      (time_out-put (Entry d io s) j (state_at reads j r) r
        (put-other d reads io j IoState.timeout r (λ same. ground (arith, same, t)) ∙ e))
      q

acts-Kept :
    (d : Direction) (io : ℕ) (as' : List Act) (r r' : ReactorImpl)
    → All (λ a. takes io a ≡ false) as'
    → IsOpen d io r
    → acts as' r ≡ done r'
    → IsOpen d io r'
      × ((state_at d io r ≡ some IoState.ready) → state_at d io r' ≡ some IoState.ready)
unfolding acts
acts-Kept d io [] r r' t h q = (ground arith, ground arith)
acts-Kept d io (a ∷ as') r r' t h q =
    let (p, first, rest) = >>=-eq-done (act a r) _ q in
    let kept = act-Kept d io a r p t.0 h first in
    let (open', ready') = acts-Kept d io as' p r' t.1 (ground arith) rest in (open', ground arith)

acts-append :
    (before after : List Act) (r p : ReactorImpl)
    → acts before r ≡ done p
    → acts (before ++ after) r ≡ acts after p
unfolding acts
acts-append [] after r p e = ground arith
acts-append (a ∷ before) after r p e =
    let (q, first, rest) = >>=-eq-done (act a r) _ e in rw first (acts-append before after q p rest)

-- An event that concerns a direction: ready or closed.
abbrev pub flagged : Direction → Event → Bool
flagged reads e = e.is_read_closed || e.is_readable
flagged writes e = e.is_write_closed || e.is_writable

raise_open :
    (d : Direction) (io j : ℕ) (b : Bool) (r q : ReactorImpl)
    → j ≡ io
    → b ≡ true
    → IsOpen d io r
    → raise d b j r ≡ done q
    → state_at d io q ≡ some IoState.ready
unfolding raise raise_at
raise_open d io j b r q same flag (inl free) run =
    let free' : state_at d j r ≡ some IoState.none = rw same free in
    let e : put d j IoState.ready r ≡ q = ground arith in
    rw (← e, ← same) (state_at-put_self d j IoState.ready r)
raise_open d io j b r q same flag (inr full) run =
    let full' : state_at d j r ≡ some IoState.ready = rw same full in ground arith

event_open :
    (d : Direction) (io : ℕ) (e : Event) (r q : ReactorImpl)
    → e.token ≡ io
    → flagged d e ≡ true
    → IsOpen d io r
    → io_event e r ≡ done q
    → state_at d io q ≡ some IoState.ready
unfolding io_event
event_open reads io e r q same flag h run =
    let (p, first, second) = >>=-eq-done (raise reads (flagged reads e) e.token r) _ run in
    let opened = raise_open reads io e.token (flagged reads e) r p same flag h first in
    let kept = raise-Kept reads writes io e.token _ p q second in ground arith
event_open writes io e r q same flag h run =
    let (p, first, second) = >>=-eq-done (raise reads (flagged reads e) e.token r) _ run in
    let kept = raise-Kept writes reads io e.token _ r p first in
    raise_open writes io e.token (flagged writes e) p q same flag (ground arith) second

-- An event is not lost to an attempt that would block: if the io is open when the attempt begins, an
-- event for its direction comes while it runs, and no other thread takes the io away or polls it, then
-- the loop of `poll_io` goes round once more, with the io open, instead of putting the task to sleep.
pub event_retries :
    {T : Type 0} (cx : ℕ) (d : Direction) (io : ℕ) (before after : List Act) (e : Event)
    (rest : List (Attempt T)) (r p q r' : ReactorImpl)
    → IsOpen d io r
    → e.token ≡ io
    → flagged d e ≡ true
    → All (λ a. takes io a ≡ false) before
    → All (λ a. takes io a ≡ false) after
    → acts before r ≡ done p
    → act (raises e) p ≡ done q
    → acts after q ≡ done r'
    → try_io cx d io
        (record { result = err would_block; meanwhile = before ++ raises e ∷ after } ∷ rest)
        r
      ≡ try_io cx d io rest (put d io IoState.none r')
unfolding try_io act
event_retries cx d io before after e rest r p q r' h same flag tb ta rb re ra =
    let opened = (acts-Kept d io before r p tb h rb).0 in
    let is_ready = event_open d io e p q same flag opened re in
    let still = (acts-Kept d io after q r' ta (inr is_ready) ra).1 is_ready in
    rw (acts-append before (raises e ∷ after) r p rb, re, ra, still)

module _ {T : Type 0} (cx : ℕ) (d : Direction) (io : ℕ) where
  blocked-pending :
      (retry : ReactorImpl → Outcome (Tried T)) (o : Option IoState) (r r' : ReactorImpl)
      → ((q : ReactorImpl)
          → retry q ≡ done (some pending, r')
          → state_at d io r' ≡ some (IoState.waker cx))
      → blocked cx d io retry o r ≡ done (some pending, r')
      → state_at d io r' ≡ some (IoState.waker cx)
  unfolding blocked
  blocked-pending retry none r r' h e = cc
  blocked-pending retry (some IoState.none) r r' h e =
      let same : put d io (IoState.waker cx) r ≡ r' = cc in
      rw (← same) (state_at-put_self d io (IoState.waker cx) r)
  blocked-pending retry (some IoState.ready) r r' h e = h _ e
  blocked-pending retry (some _) r r' h e = cc

  after_attempt-pending :
      (retry : ReactorImpl → Outcome (Tried T)) (result : IoResult T) (r r' : ReactorImpl)
      → ((q : ReactorImpl)
          → retry q ≡ done (some pending, r')
          → state_at d io r' ≡ some (IoState.waker cx))
      → after_attempt cx d io retry result r ≡ done (some pending, r')
      → state_at d io r' ≡ some (IoState.waker cx)
  unfolding after_attempt
  after_attempt-pending retry (err would_block) r r' h e =
      blocked-pending retry (state_at d io r) r r' h e
  after_attempt-pending retry (ok x) r r' h e = cc
  after_attempt-pending retry (err _) r r' h e = cc

  try_io-pending :
      (attempts : List (Attempt T)) (r r' : ReactorImpl)
      → try_io cx d io attempts r ≡ done (some pending, r')
      → state_at d io r' ≡ some (IoState.waker cx)
  unfolding try_io
  try_io-pending [] r r' e = cc
  try_io-pending (a ∷ rest) r r' e =
      let (p, first, second) = >>=-eq-done (acts a.meanwhile r) _ e in
      after_attempt-pending (λ q. try_io cx d io rest q) a.result p r'
        (λ q. try_io-pending rest q r') second

  start_io-pending :
      (o : Option IoState) (attempts : List (Attempt T)) (r r' : ReactorImpl)
      → start_io cx d io o attempts r ≡ done (some pending, r')
      → state_at d io r' ≡ some (IoState.waker cx)
  unfolding start_io
  start_io-pending (some IoState.ready) attempts r r' e = try_io-pending attempts _ r' e
  start_io-pending (some (IoState.waker w)) attempts r r' e = try_io-pending attempts _ r' e
  start_io-pending (some IoState.none) attempts r r' e = try_io-pending attempts _ r' e
  start_io-pending none attempts r r' e = cc
  start_io-pending (some IoState.shutdown) attempts r r' e = cc
  start_io-pending (some _) attempts r r' e = cc

-- A task that `poll_io` tells to wait, whatever other threads did during its attempts, stands in the
-- table of its direction: the next event for this direction calls its waker, and finds the io ready.
pub pending_wakes :
    {T : Type 0} (cx io : ℕ) (interest : Interest) (d : Direction) (attempts : List (Attempt T))
    (r r' : ReactorImpl)
    → direction_of interest ≡ done d
    → poll_io cx io interest attempts r ≡ done (some pending, r')
    → (q : ReactorImpl) × (raise d true io r' ≡ done q)
      × (state_at d io q ≡ some IoState.ready)
      × (q.woken ≡ cx ∷ r'.woken)
unfolding poll_io
pending_wakes cx io interest d attempts r r' e h =
    raise_wakes d io cx r' (start_io-pending cx d io (state_at d io r) attempts r r' (rw e at h))
