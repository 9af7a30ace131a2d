-- ===== src/Io/Reactor.antt =====
-- crates/n3io/src/reactor.rs: `Reactor`. Each method is a function on the shared state; what other
-- threads do while a method holds no lock is a list of their actions. `mio` is outside: what its
-- registry and an operation on a socket return are arguments. `woken` is the list of the wakers that
-- have been called, latest first.
mod State
pub mod Calls
pub mod PollIo
pub mod Readiness
pub mod Frame
pub mod Others
pub mod NoLoss
pub mod TimerWaits
pub mod Tokens
pub mod Shutdown
pub mod Live
pub mod Due
pub mod Ticks
pub mod Held
pub mod Prompt
pub mod Global
pub mod Stopped
mod Tests
pub use State.{IoState}
use zorya_rs.Base.{
  ℕ, zero, suc, ◌+◌, Bool, true, false, ◌||◌, List, [], ◌∷◌, Option, none, some, length, ltb,
  is_some, if◌then◌else◌, add_u64, Outcome, done, panic, ◌>>=◌,
}
use zorya_rs.Base.Maps.{Map, lookup, insert, remove, nat_key}
use zorya_rs.TimingWheel
use zorya_rs.TimingWheel.{TimeWheel}
use zorya_rs.Io.Defs.{
  ErrorKind, not_found, would_block, broken_pipe, IoResult, ok, err, Poll, ready, pending,
}

pub record ReactorImpl : Type 0 where
  pub token_gen : ℕ
  pub io_readable_stats : Map ℕ IoState
  pub io_writable_stats : Map ℕ IoState
  pub timing_wheel : TimeWheel ℕ
  pub woken : List ℕ

-- `ReactorImpl::new`, at the instant `now`
unfoldable pub impl_new : ℕ → ℕ → ReactorImpl
impl_new now tick_interval = record {
  token_gen = 0;
  io_readable_stats = [];
  io_writable_stats = [];
  timing_wheel = TimingWheel.new ℕ now tick_interval;
  woken = [];
}

-- `mio::Interest`
pub record Interest : Type 0 where
  pub is_readable : Bool
  pub is_writable : Bool

abbrev pub readable : Interest
readable = record { is_readable = true; is_writable = false }

abbrev pub writable : Interest
writable = record { is_readable = false; is_writable = true }

-- One of the two tables.
pub data Direction : Type 0 where
  reads writes : Direction

abbrev pub stats : Direction → ReactorImpl → Map ℕ IoState
stats reads r = r.io_readable_stats
stats writes r = r.io_writable_stats

abbrev pub with_stats : Direction → ReactorImpl → Map ℕ IoState → ReactorImpl
with_stats reads r m = record r { io_readable_stats = m }
with_stats writes r m = record r { io_writable_stats = m }

abbrev pub state_at : Direction → ℕ → ReactorImpl → Option IoState
state_at d token r = lookup token (stats d r)

-- An assignment through the guard that `get_mut` returns.
pub put : Direction → ℕ → IoState → ReactorImpl → ReactorImpl
put d token state r = with_stats d r (insert token state (stats d r))

-- A call of `wake` or `wake_by_ref`.
abbrev pub wake : ℕ → ReactorImpl → ReactorImpl
wake w r = record r { woken = w ∷ r.woken }

pub forget : Direction → Bool → ℕ → ReactorImpl → ReactorImpl
forget d true token r = with_stats d r (remove token (stats d r))
forget d false token r = r

pub claim : Direction → Bool → ℕ → ReactorImpl → ReactorImpl
unfolding put
claim d true token r = put d token IoState.none r
claim d false token r = r

-- `drop_token`
pub drop_token : ℕ → Interest → ReactorImpl → ReactorImpl
unfolding forget
drop_token token interests r =
    forget writes interests.is_writable token (forget reads interests.is_readable token r)

-- The loop of `next_token`, which takes a round more for each token that is in use.
pub next_free : ℕ → Interest → ReactorImpl → Option (ℕ × ReactorImpl)
unfolding claim
next_free zero interests r = none
next_free (suc fuel) interests r =
    let token = r.token_gen in
    let r' = record r { token_gen = add_u64 token 1 } in
    let later = next_free fuel interests r' in
    if is_some (state_at reads token r') || is_some (state_at writes token r')
    then later
    else some (
      token,
      claim writes interests.is_writable token (claim reads interests.is_readable token r'),
    )

-- `next_token`, with a round for each entry of the two tables and one more.
pub next_token : Interest → ReactorImpl → Option (ℕ × ReactorImpl)
unfolding next_free
next_token interests r =
    next_free (suc (length r.io_readable_stats + length r.io_writable_stats)) interests r

-- `mio::event::Event`
pub record Event : Type 0 where
  pub token : ℕ
  pub is_readable : Bool
  pub is_writable : Bool
  pub is_read_closed : Bool
  pub is_write_closed : Bool

-- The `match` of the event loop on the state of one direction.
pub raise_at : Direction → ℕ → Option IoState → ReactorImpl → Outcome ReactorImpl
unfolding put
raise_at d token none r = done r
raise_at d token (some (IoState.waker w)) r = done (put d token IoState.ready (wake w r))
raise_at d token (some IoState.none) r = done (put d token IoState.ready r)
raise_at d token (some IoState.shutdown) r = done r
raise_at d token (some IoState.ready) r = done r
raise_at d token (some IoState.timeout) r = panic
raise_at d token (some (IoState.deadline i)) r = panic
raise_at d token (some (IoState.timer w)) r = panic

pub raise : Direction → Bool → ℕ → ReactorImpl → Outcome ReactorImpl
unfolding raise_at
raise d true token r = raise_at d token (state_at d token r) r
raise d false token r = done r

-- The body of the `for` loop of `io_events_loop`.
pub io_event : Event → ReactorImpl → Outcome ReactorImpl
unfolding raise
io_event e r =
    raise reads (e.is_read_closed || e.is_readable) e.token r
    >>= raise writes (e.is_write_closed || e.is_writable) e.token

-- The body of the `for` loop of `timing_wheel_ticks`, on the state that the timer had.
unfoldable pub expire_at : ℕ → Option IoState → ReactorImpl → Outcome ReactorImpl
unfolding put
expire_at token none r = done r
expire_at token (some (IoState.timer w)) r = done (wake w (put reads token IoState.timeout r))
expire_at token (some _) r = panic

unfoldable pub expire_token : ℕ → ReactorImpl → Outcome ReactorImpl
unfolding expire_at
expire_token token r = expire_at token (state_at reads token r) r

pub expire_tokens : List ℕ → ReactorImpl → Outcome ReactorImpl
unfolding expire_token
expire_tokens [] r = done r
expire_tokens (token ∷ tokens) r = expire_token token r >>= expire_tokens tokens

-- One round of the wheel's `poll` in `timing_wheel_ticks`, at the instant `now`, and the tokens that
-- it returns.
pub timing_wheel_tick : ℕ → ReactorImpl → Outcome ReactorImpl
unfolding expire_tokens
timing_wheel_tick now r = TimingWheel.round r.timing_wheel now 0 [] >>= λ round.
    expire_tokens (TimingWheel.events_of round)
      (record r { timing_wheel = TimingWheel.wheel_of round })
