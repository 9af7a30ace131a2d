-- ===== src/Io/Reactor/PollIo.antt =====
-- crates/n3io/src/reactor.rs, `poll_io`: an operation on a socket is attempted without the lock, and
-- attempted again where the event loop has found the socket ready in the meantime.
use zorya_rs.Base.{
  ℕ, Bool, true, false, List, [], ◌∷◌, Option, none, some, if◌then◌else◌, Outcome, done, panic,
  ◌>>=◌,
}
use zorya_rs.Io.Defs.{not_found, would_block, broken_pipe, IoResult, err, Poll, ready, pending}
use zorya_rs.Io.Reactor.{IoState, ReactorImpl, Interest, Direction, reads, writes, state_at, put}
use zorya_rs.Io.Reactor.Calls.{Act, acts}

-- What one call of the operation returns, and what other threads do while it runs.
pub record Attempt (T : Type 0) : Type 0 where
  pub result : IoResult T
  pub meanwhile : List Act

abbrev pub is_would_block {ℓ} : {T : Type ℓ} → IoResult T → Bool
is_would_block (err would_block) = true
is_would_block _ = false

-- The end of a call: `none` where the attempts given have run out in the middle of its loop.
abbrev pub Tried : Type 0 → Type 0
Tried T = Option (Poll (IoResult T)) × ReactorImpl

-- The table that an interest names.
unfoldable pub direction_of : Interest → Outcome Direction
direction_of interest =
    if interest.is_readable then done reads else if interest.is_writable then done writes else panic

module _ {T : Type 0} (cx : ℕ) (d : Direction) (io : ℕ) where
  -- The `match` after an attempt that would block; `retry` goes round the loop.
  unfoldable pub blocked :
      (ReactorImpl → Outcome (Tried T)) → Option IoState → ReactorImpl → Outcome (Tried T)
  unfolding put
  blocked retry none r = panic
  blocked retry (some IoState.none) r = done (some pending, put d io (IoState.waker cx) r)
  blocked retry (some IoState.shutdown) r = done (some (ready (err broken_pipe)), r)
  blocked retry (some IoState.ready) r = retry (put d io IoState.none r)
  blocked retry (some _) r = panic

  unfoldable pub after_attempt :
      (ReactorImpl → Outcome (Tried T)) → IoResult T → ReactorImpl → Outcome (Tried T)
  unfolding blocked
  after_attempt retry result r =
      if is_would_block result
      then blocked retry (state_at d io r) r
      else done (some (ready result), r)

  -- The loop of `poll_io`.
  unfoldable pub try_io : List (Attempt T) → ReactorImpl → Outcome (Tried T)
  unfolding acts after_attempt
  try_io [] r = done (none, r)
  try_io (a ∷ rest) r = acts a.meanwhile r >>= after_attempt (λ r'. try_io rest r') a.result

  unfoldable pub start_io : Option IoState → List (Attempt T) → ReactorImpl → Outcome (Tried T)
  unfolding put try_io
  start_io none attempts r = done (some (ready (err not_found)), r)
  start_io (some IoState.shutdown) attempts r = done (some (ready (err broken_pipe)), r)
  start_io (some IoState.ready) attempts r = try_io attempts (put d io IoState.none r)
  start_io (some (IoState.waker w)) attempts r = try_io attempts (put d io IoState.none r)
  start_io (some IoState.none) attempts r = try_io attempts (put d io IoState.none r)
  start_io (some _) attempts r = panic

-- `poll_io`
unfoldable pub poll_io :
    {T : Type 0} → ℕ → ℕ → Interest → List (Attempt T) → ReactorImpl → Outcome (Tried T)
unfolding direction_of start_io
poll_io cx io interest attempts r =
    direction_of interest >>= λ d. start_io cx d io (state_at d io r) attempts r
