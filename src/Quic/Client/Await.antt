-- ===== src/Quic/Client/Await.antt =====
-- crates/quic/src/client.rs: the receive with a deadline that the handshake awaits, as the polls of its task.
use zorya_rs.Base.{ℕ, List, [], ◌∷◌, none, some, Outcome, done, ◌>>=◌}
use zorya_rs.Io.{ready, pending}
use zorya_rs.Io.Reactor.{ReactorImpl, readable}
use zorya_rs.Io.Reactor.Calls.{Act, acts, Polled}
use zorya_rs.Io.Reactor.PollIo.{Attempt, Tried, poll_io}
use zorya_rs.Io.Await.{Awaited}
use zorya_rs.Io.Timeout.{inner_polled}

-- One poll of `Timeout<RecvFrom>`.
pub record RecvPoll : Type 0 where
  pub before : List Act
  pub cx : ℕ
  pub attempts : List (Attempt (List ℕ × ℕ))
  pub gap_before : List Act
  pub gap_after : List Act

unfoldable pub received_or_waits :
    (ReactorImpl → Outcome (Awaited (List ℕ × ℕ)))
    → Polled (List ℕ × ℕ)
    → Outcome (Awaited (List ℕ × ℕ))
received_or_waits again (pending, r) = again r
received_or_waits again (ready result, r) = done (some result, r)

-- The inner future has been polled.
unfoldable pub deadline_checked :
    (ReactorImpl → Outcome (Awaited (List ℕ × ℕ)))
    → ℕ
    → RecvPoll
    → Tried (List ℕ × ℕ)
    → Outcome (Awaited (List ℕ × ℕ))
unfolding inner_polled received_or_waits
deadline_checked again timer p (none, r) = done (none, r)
deadline_checked again timer p (some poll, r) =
    inner_polled p.cx timer p.gap_before p.gap_after (poll, r) >>= received_or_waits again

-- `recv_from(…).timeout_with(…).await`
unfoldable pub await_recv : ℕ → ℕ → List RecvPoll → ReactorImpl → Outcome (Awaited (List ℕ × ℕ))
unfolding acts poll_io deadline_checked
await_recv socket timer [] r = done (none, r)
await_recv socket timer (p ∷ polls) r = do
  r' ← acts p.before r
  tried ← poll_io p.cx socket readable p.attempts r'
  deadline_checked (λ r''. await_recv socket timer polls r'') timer p tried
