-- ===== src/Io/Await.antt =====
-- crates/n3io: a task that awaits `poll_io`, as `poll_fn(|cx| reactor.poll_io(…)).await` does in every
-- socket of the crate. Each turn is one poll of the task: what other threads do before it, its waker,
-- and the attempts of the poll. The answer is `none` where the turns end before the future does.
use zorya_rs.Base.{ℕ, List, [], ◌∷◌, Option, none, some, Outcome, done, ◌>>=◌}
use zorya_rs.Io.Defs.{IoResult, ready, pending}
use zorya_rs.Io.Reactor.{ReactorImpl, Interest}
use zorya_rs.Io.Reactor.Calls.{Act, acts}
use zorya_rs.Io.Reactor.PollIo.{Attempt, Tried, poll_io}

pub record Turn (T : Type 0) : Type 0 where
  pub before : List Act
  pub cx : ℕ
  pub attempts : List (Attempt T)

abbrev pub Awaited : Type 0 → Type 0
Awaited T = Option (IoResult T) × ReactorImpl

module _ {T : Type 0} where
  unfoldable pub polled : (ReactorImpl → Outcome (Awaited T)) → Tried T → Outcome (Awaited T)
  polled again (none, r) = done (none, r)
  polled again (some pending, r) = again r
  polled again (some (ready result), r) = done (some result, r)

  unfoldable pub await_io : ℕ → Interest → List (Turn T) → ReactorImpl → Outcome (Awaited T)
  unfolding acts poll_io polled
  await_io io interest [] r = done (none, r)
  await_io io interest (t ∷ turns) r = do
    r' ← acts t.before r
    tried ← poll_io t.cx io interest t.attempts r'
    polled (λ r''. await_io io interest turns r'') tried
