-- ===== src/Quic/Conn/Stopped.antt =====
-- crates/quic/src/conn.rs: the sending task of a connection over a reactor whose tick interval is no microsecond.
use zorya_rs.Base.{ℕ, ◌≡◌, refl, List, ◌∷◌, Option, none, some, Outcome, panic, false}
use zorya_rs.Io.Reactor.{ReactorImpl}
use zorya_rs.Io.Reactor.Calls
use zorya_rs.Io.Reactor.Stopped.{Stopped, NewTimer, deadline-NewTimer, poll_timeout-Stopped}
use zorya_rs.Quic.Quiche.{Quiche, QResult}
use zorya_rs.Quic.Conn.{QuicConnState}
use zorya_rs.Quic.Conn.Send.{Gaps, Sent, armed, wait_until, sent, send_loop, take_timer, poll_send}

module _ {Q : Quiche} (cx : ℕ) (gaps : Gaps) where
  armed-Stopped :
      (again : QuicConnState Q → ReactorImpl → Outcome (Sent Q)) (s : QuicConnState Q) (instant : ℕ)
      (o : Option (ℕ × ReactorImpl))
      → NewTimer instant o
      → armed cx gaps again s o ≡ panic
  unfolding armed
  armed-Stopped again s instant none h = refl
  armed-Stopped again s instant (some (timer, r)) h =
      rw (poll_timeout-Stopped cx timer instant gaps.before gaps.after r h.0 h.1) refl

  -- The task panics as soon as it has to wait for a timeout of quiche.
  pub poll_send-Stopped :
      (first : Gaps) (rest : List Gaps) (s : QuicConnState Q) (r : ReactorImpl)
      (c : Quiche.Connection Q) (instant : ℕ)
      → Stopped r
      → s.on_timeout_timer ≡ none
      → Quiche.send Q s.quiche_conn ≡ (QResult.error_done, c)
      → Quiche.is_closed Q c ≡ false
      → Quiche.timeout_instant Q c ≡ some instant
      → poll_send cx first (gaps ∷ rest) s r ≡ panic
  unfolding poll_send take_timer send_loop sent wait_until
  poll_send-Stopped first rest s r c instant h no_timer nothing open_now timeout =
      rw (no_timer, nothing, open_now, timeout)
        (armed-Stopped (λ s' r'. send_loop cx rest s' r') _ instant (Calls.deadline instant r)
          (deadline-NewTimer instant r h))
