-- ===== src/Quic/Client/Tasks.antt =====
-- crates/quic/src/client.rs: the sending and the receiving task of a client. Each turn of a loop has the
-- polls of its awaits; where the turns end first, the loop has no answer.
use zorya_rs.Base.{ℕ, List, [], ◌∷◌, none, some, Outcome, done, ◌>>=◌}
use zorya_rs.Io.{IoResult, ok, err, Poll, ready, pending}
use zorya_rs.Io.Reactor.{ReactorImpl}
use zorya_rs.Io.Await.{Turn, Awaited}
use zorya_rs.Io.Net.Udp
use zorya_rs.Quic.Quiche.{Quiche}
use zorya_rs.Quic.Conn.{QuicConnState}
use zorya_rs.Quic.Conn.Calls.{poll_recv}
use zorya_rs.Quic.Conn.Accepts.{Call, run}
use zorya_rs.Quic.Conn.Await.{Loop, SendTurn, send_turns}

-- A turn of the receiving loop: the polls of `recv_from`, and what other tasks call of the connection before
-- it is given the datagram.
pub record RecvTurn : Type 0 where
  pub reads : List (Turn (List ℕ × ℕ))
  pub calls : List Call

module _ {Q : Quiche} where
  -- `client_send_loop_prv`
  unfoldable pub client_send_loop_prv :
      ℕ → List SendTurn → QuicConnState Q → ReactorImpl → Outcome (Loop Q)
  unfolding send_turns Udp.send_to
  client_send_loop_prv socket turns s r =
      send_turns (λ packet writes r'. Udp.send_to socket writes r') turns s r

  -- The socket is shut down where the loop has ended.
  unfoldable pub send_ended : ℕ → Loop Q → Loop Q
  unfolding Udp.shutdown_socket
  send_ended socket (none, s, r) = (none, s, r)
  send_ended socket (some answer, s, r) = (some answer, s, (Udp.shutdown_socket socket r).1)

  -- `client_send_loop`
  unfoldable pub client_send_loop :
      ℕ → List SendTurn → QuicConnState Q → ReactorImpl → Outcome (Loop Q)
  unfolding client_send_loop_prv send_ended
  client_send_loop socket turns s r =
      client_send_loop_prv socket turns s r >>= (λ l. done (send_ended socket l))

  -- The answer of `dispatcher.recv`, which never waits.
  unfoldable pub fed :
      (QuicConnState Q → ReactorImpl → Outcome (Loop Q))
      → Poll (IoResult ℕ)
      → QuicConnState Q
      → ReactorImpl
      → Outcome (Loop Q)
  fed again pending s r = done (none, s, r)
  fed again (ready (err kind)) s r = done (some (err kind), s, r)
  fed again (ready (ok n)) s r = again s r

  unfoldable pub arrived :
      (QuicConnState Q → ReactorImpl → Outcome (Loop Q))
      → List Call
      → QuicConnState Q
      → Awaited (List ℕ × ℕ)
      → Outcome (Loop Q)
  unfolding run poll_recv fed
  arrived again calls s (none, r) = done (none, s, r)
  arrived again calls s (some (err kind), r) = done (some (err kind), s, r)
  arrived again calls s (some (ok (buf, from)), r) =
      let reply = poll_recv buf (run calls s).1 in fed again reply.answer reply.state r

  -- `client_recv_loop_prv`, which is all that `client_recv_loop` does but for its logs.
  unfoldable pub client_recv_loop :
      ℕ → List RecvTurn → QuicConnState Q → ReactorImpl → Outcome (Loop Q)
  unfolding arrived
  client_recv_loop socket [] s r = done (none, s, r)
  client_recv_loop socket (t ∷ turns) s r =
      Udp.recv_from socket t.reads r
      >>= arrived (λ s' r'. client_recv_loop socket turns s' r') t.calls s
