-- ===== src/Quic/Client/Ends.antt =====
-- crates/quic/src/client.rs: how the two tasks of a client end.
use zorya_rs.Base.{ℕ, ◌≡◌, refl, true, false, List, ◌∷◌, some, done, All, elem}
use zorya_rs.Io.{broken_pipe, IoResult, err}
use zorya_rs.Io.Reactor.{IoState, ReactorImpl, reads, writes, state_at}
use zorya_rs.Io.Reactor.Calls.{acts, shutdown}
use zorya_rs.Io.Reactor.Shutdown.{removes, both, shutdown-ShutDown, await_io-reads_shut}
use zorya_rs.Io.Await.{Turn}
use zorya_rs.Io.Net.Udp
use zorya_rs.Quic.Quiche.{Quiche}
use zorya_rs.Quic.Conn.{QuicConnState}
use zorya_rs.Quic.Conn.Accepts.{Call}
use zorya_rs.Quic.Conn.Await.{SendTurn}
use zorya_rs.Quic.Client.Tasks.{
  RecvTurn, client_send_loop_prv, send_ended, client_send_loop, arrived, client_recv_loop,
}

-- The receiving loop at its next poll, where `t` is what other threads do before it.
abbrev pub next_poll : Turn (List ℕ × ℕ) → List (Turn (List ℕ × ℕ)) → List Call → RecvTurn
next_poll t polls calls = record { reads = t ∷ polls; calls = calls }

module _ {Q : Quiche} where
  recv_loop_ends :
      (socket : ℕ) (t : Turn (List ℕ × ℕ)) (polls : List (Turn (List ℕ × ℕ))) (calls : List Call)
      (turns : List RecvTurn) (s : QuicConnState Q) (r r' : ReactorImpl)
      → Udp.recv_from socket (t ∷ polls) r ≡ done (some (err broken_pipe), r')
      → client_recv_loop socket (next_poll t polls calls ∷ turns) s r
        ≡ done (some (err broken_pipe), s, r')
  unfolding client_recv_loop arrived
  recv_loop_ends socket t polls calls turns s r r' e = rw e refl

  -- The end of the sending task ends the receiving one. Where the sending loop of a client has come to
  -- its end, whatever it answers, and the receiving task waits for a datagram, the socket is shut down
  -- and the receiving task is woken; with its next poll its loop ends with BrokenPipe, as long as no
  -- other thread removes the socket from the reactor's tables.
  pub sending_ends_receiving :
      (socket w : ℕ) (o : IoState) (sends : List SendTurn) (answer : IoResult (Unit {0}))
      (s s' s'' : QuicConnState Q) (r r' r'' : ReactorImpl) (t : Turn (List ℕ × ℕ))
      (polls : List (Turn (List ℕ × ℕ))) (calls : List Call) (turns : List RecvTurn)
      → client_send_loop_prv socket sends s r ≡ done (some answer, s', r')
      → state_at reads socket r' ≡ some (IoState.waker w)
      → state_at writes socket r' ≡ some o
      → All (λ a. removes socket a ≡ false) t.before
      → acts t.before (shutdown socket both r').1 ≡ done r''
      → (client_send_loop socket sends s r ≡ done (some answer, s', (shutdown socket both r').1))
        × (elem w (shutdown socket both r').1.woken ≡ true)
        × (client_recv_loop socket (next_poll t polls calls ∷ turns) s'' (shutdown socket both r').1
            ≡ done (some (err broken_pipe), s'', r''))
  unfolding client_send_loop send_ended Udp.shutdown_socket Udp.recv_from
  sending_ends_receiving socket w o sends answer s s' s'' r r' r'' t polls calls turns e h g n
        acted =
      let (_, shut_reads, _, woken) = shutdown-ShutDown socket w o r' h g in
      (
        rw e refl,
        woken,
        recv_loop_ends socket t polls calls turns s'' (shutdown socket both r').1 r''
            (await_io-reads_shut socket t polls (shutdown socket both r').1 r'' n shut_reads acted),
      )
