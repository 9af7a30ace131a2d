-- ===== src/Quic/Conn/Send.antt =====
-- crates/quic/src/conn.rs, `poll_send`: the next packet of a connection, and the timer that wakes its
-- sending task. The reactor is that of crates/n3io. Each turn of the loop takes what other threads do
-- to the reactor while it calls `poll_timeout`; where these turns run out, the answer is `none`. Where
-- every token is in use `next_token` does not return: that is a `panic` here.
use zorya_rs.Base.{ℕ, List, [], ◌∷◌, Option, none, some, if◌then◌else◌, Outcome, done, panic, ◌>>=◌}
use zorya_rs.Io.{broken_pipe, other, IoResult, ok, err, Poll, ready, pending}
use zorya_rs.Io.Reactor.{ReactorImpl}
use zorya_rs.Io.Reactor.Calls
use zorya_rs.Io.Reactor.Calls.{Act}
use zorya_rs.Quic.Quiche.{Quiche, QResult, Packet}
use zorya_rs.Quic.Conn.{QuicConnState, poll_conn_stat_events, finalize_events}

-- What other threads do during a call of `poll_timeout`, in its two gaps.
pub record Gaps : Type 0 where
  pub before : List Act
  pub after : List Act

-- The answer, if the call has come to its end, the wakers that it calls, and the two states.
pub record Sent (Q : Quiche) : Type 0 where
  pub answer : Option (Poll (IoResult Packet))
  pub woken : List ℕ
  pub state : QuicConnState Q
  pub reactor : ReactorImpl

module _ {Q : Quiche} where
  abbrev with_conn : QuicConnState Q → Q.Connection → QuicConnState Q
  with_conn s c = record s { quiche_conn = c }

  -- What `poll_timeout` says of a timer: an answer, an error included, is a timeout.
  unfoldable pub timed_out : Poll (IoResult (Unit {0})) → QuicConnState Q → QuicConnState Q
  timed_out (ready _) s = with_conn s (Q.on_timeout s.quiche_conn)
  timed_out pending s = s

  -- The head of `poll_send`: the timer of the last call is polled and dropped.
  unfoldable pub take_timer :
      ℕ → Gaps → Option ℕ → QuicConnState Q → ReactorImpl → Outcome (QuicConnState Q × ReactorImpl)
  unfolding timed_out
  take_timer cx gaps none s r = done (s, r)
  take_timer cx gaps (some timer) s r = do
    (poll, r') ← Calls.poll_timeout cx timer gaps.before gaps.after r
    done (
      record (timed_out poll (record s { on_timeout_timer = none })) { send_waker = none },
      Calls.deregister_timer timer r',
    )

  unfoldable pub sleep : ℕ → Option ℕ → QuicConnState Q → ReactorImpl → Sent Q
  sleep cx timer s r = record {
    answer = some pending;
    woken = [];
    state = record s { on_timeout_timer = timer; send_waker = some cx };
    reactor = r;
  }

  -- The new timer has been polled: go round again if it has expired already.
  unfoldable pub set_timer :
      ℕ
      → (QuicConnState Q → ReactorImpl → Outcome (Sent Q))
      → ℕ
      → Poll (IoResult (Unit {0}))
      → QuicConnState Q
      → ReactorImpl
      → Outcome (Sent Q)
  unfolding sleep
  set_timer cx again timer (ready _) s r =
      again (with_conn s (Q.on_timeout s.quiche_conn)) (Calls.deregister_timer timer r)
  set_timer cx again timer pending s r = done (sleep cx (some timer) s r)

  -- The timer for the timeout, if the reactor had a token for it.
  unfoldable pub armed :
      ℕ
      → Gaps
      → (QuicConnState Q → ReactorImpl → Outcome (Sent Q))
      → QuicConnState Q
      → Option (ℕ × ReactorImpl)
      → Outcome (Sent Q)
  unfolding set_timer
  armed cx gaps again s none = panic
  armed cx gaps again s (some (timer, r)) =
      Calls.poll_timeout cx timer gaps.before gaps.after r >>= λ p.
      set_timer cx again timer p.0 s p.1

  unfoldable pub wait_until :
      ℕ
      → Gaps
      → (QuicConnState Q → ReactorImpl → Outcome (Sent Q))
      → Option ℕ
      → QuicConnState Q
      → ReactorImpl
      → Outcome (Sent Q)
  unfolding sleep armed
  wait_until cx gaps again none s r = done (sleep cx s.on_timeout_timer s r)
  wait_until cx gaps again (some timeout) s r = armed cx gaps again s (Calls.deadline timeout r)

  -- The `match` on the answer of `quiche_conn.send`.
  unfoldable pub sent :
      ℕ
      → Gaps
      → (QuicConnState Q → ReactorImpl → Outcome (Sent Q))
      → QResult Packet
      → QuicConnState Q
      → ReactorImpl
      → Outcome (Sent Q)
  unfolding wait_until poll_conn_stat_events finalize_events
  sent cx gaps again (QResult.ok packet) s r =
      let (wakers, s') = poll_conn_stat_events s in
      done (record { answer = some (ready (ok packet)); woken = wakers; state = s'; reactor = r })
  sent cx gaps again QResult.error_done s r =
      if Q.is_closed s.quiche_conn
      then (let (wakers, s') = finalize_events s in
          done (record {
            answer = some (ready (err broken_pipe));
            woken = wakers;
            state = s';
            reactor = r;
          }))
      else wait_until cx gaps again (Q.timeout_instant s.quiche_conn) s r
  sent cx gaps again QResult.error_other s r =
      done (record { answer = some (ready (err other)); woken = []; state = s; reactor = r })

  -- The loop of `poll_send`.
  unfoldable pub send_loop : ℕ → List Gaps → QuicConnState Q → ReactorImpl → Outcome (Sent Q)
  unfolding sent
  send_loop cx [] s r = done (record { answer = none; woken = []; state = s; reactor = r })
  send_loop cx (gaps ∷ rest) s r =
      let (result, c) = Q.send s.quiche_conn in
      sent cx gaps (λ s' r'. send_loop cx rest s' r') result (with_conn s c) r

  -- `poll_send`, for the task `cx`
  unfoldable pub poll_send : ℕ → Gaps → List Gaps → QuicConnState Q → ReactorImpl → Outcome (Sent Q)
  unfolding take_timer send_loop
  poll_send cx gaps rest s r =
      take_timer cx gaps s.on_timeout_timer s r >>= λ p. send_loop cx rest p.0 p.1
