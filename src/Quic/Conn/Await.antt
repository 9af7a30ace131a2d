-- ===== src/Quic/Conn/Await.antt =====
-- crates/quic/src/conn.rs, `ConnSend` and `OpenStream`: a task that awaits them, as its polls; and
-- the loop of the sending tasks of crates/quic/src/client.rs and server.rs.
use zorya_rs.Base.{ℕ, List, [], ◌∷◌, Option, none, some, Outcome, done, ◌>>=◌}
use zorya_rs.Io.{IoResult, ok, err, Poll, ready, pending}
use zorya_rs.Io.Reactor.{ReactorImpl}
use zorya_rs.Io.Reactor.Calls.{Act, acts}
use zorya_rs.Io.Await.{Turn, Awaited}
use zorya_rs.Quic.Quiche.{Quiche, Packet}
use zorya_rs.Quic.Conn.{QuicConnState}
use zorya_rs.Quic.Conn.Accepts.{Call, run}
use zorya_rs.Quic.Conn.Calls.{poll_stream_open}
use zorya_rs.Quic.Conn.Send.{Gaps, Sent, poll_send}

-- One poll of `ConnSend`: what other threads do to the reactor before it and in its gaps, and what other
-- tasks call of the connection before it.
pub record SendPoll : Type 0 where
  pub before : List Act
  pub calls : List Call
  pub cx : ℕ
  pub gaps : Gaps
  pub rest : List Gaps

abbrev pub AwaitedSend : Quiche → Type 0
AwaitedSend Q = Option (IoResult Packet) × QuicConnState Q × ReactorImpl

module _ {Q : Quiche} where
  unfoldable pub sent_or_waits :
      (QuicConnState Q → ReactorImpl → Outcome (AwaitedSend Q)) → Sent Q → Outcome (AwaitedSend Q)
  sent_or_waits again x = elim x.answer [
    | none ↦ done (none, x.state, x.reactor)
    | some poll ↦ elim poll [
      | pending ↦ again x.state x.reactor
      | ready result ↦ done (some result, x.state, x.reactor)
    ]
  ]

  -- `dispatcher.send(…).await`
  unfoldable pub await_send :
      List SendPoll → QuicConnState Q → ReactorImpl → Outcome (AwaitedSend Q)
  unfolding acts run poll_send sent_or_waits
  await_send [] s r = done (none, s, r)
  await_send (p ∷ polls) s r = do
    r' ← acts p.before r
    x ← poll_send p.cx p.gaps p.rest (run p.calls s).1 r'
    sent_or_waits (λ s' r''. await_send polls s' r'') x

-- Where a loop is, with its two states: `none` if it has not ended.
abbrev pub Loop : Quiche → Type 0
Loop Q = Option (IoResult (Unit {0})) × QuicConnState Q × ReactorImpl

-- A turn of a sending loop: the polls of `dispatcher.send`, and of the socket that sends the packet.
pub record SendTurn : Type 0 where
  pub sends : List SendPoll
  pub writes : List (Turn ℕ)

module _ {Q : Quiche} where
  unfoldable pub packet_gone :
      (QuicConnState Q → ReactorImpl → Outcome (Loop Q))
      → QuicConnState Q
      → Awaited ℕ
      → Outcome (Loop Q)
  packet_gone again s (none, r) = done (none, s, r)
  packet_gone again s (some (err kind), r) = done (some (err kind), s, r)
  packet_gone again s (some (ok n), r) = again s r

  -- The answer of `dispatcher.send`; `send` gives the packet to a socket.
  unfoldable pub to_send :
      (QuicConnState Q → ReactorImpl → Outcome (Loop Q))
      → (Packet → List (Turn ℕ) → ReactorImpl → Outcome (Awaited ℕ))
      → List (Turn ℕ)
      → AwaitedSend Q
      → Outcome (Loop Q)
  unfolding packet_gone
  to_send again send writes (none, s, r) = done (none, s, r)
  to_send again send writes (some (err kind), s, r) = done (some (err kind), s, r)
  to_send again send writes (some (ok packet), s, r) = send packet writes r >>= packet_gone again s

  -- The loop of a sending task, with the way in which it sends a packet.
  unfoldable pub send_turns :
      (Packet → List (Turn ℕ) → ReactorImpl → Outcome (Awaited ℕ))
      → List SendTurn
      → QuicConnState Q
      → ReactorImpl
      → Outcome (Loop Q)
  unfolding await_send to_send
  send_turns send [] s r = done (none, s, r)
  send_turns send (t ∷ turns) s r =
      await_send t.sends s r >>= to_send (λ s' r'. send_turns send turns s' r') send t.writes

-- One poll of `OpenStream`, and what other tasks call of the connection before it.
pub record OpenTurn : Type 0 where
  pub before : List Call
  pub cx : ℕ

module _ {Q : Quiche} where
  unfoldable pub opened_or_waits :
      (QuicConnState Q → Option (IoResult ℕ) × QuicConnState Q)
      → Poll (IoResult ℕ)
      → QuicConnState Q
      → Option (IoResult ℕ) × QuicConnState Q
  opened_or_waits again (ready result) s = (some result, s)
  opened_or_waits again pending s = again s

  -- `conn.open().await`
  unfoldable pub await_open :
      List OpenTurn → QuicConnState Q → Option (IoResult ℕ) × QuicConnState Q
  unfolding poll_stream_open opened_or_waits
  await_open [] s = (none, s)
  await_open (t ∷ turns) s =
      let reply = poll_stream_open t.cx (run t.before s).1 in
      opened_or_waits (λ s'. await_open turns s') reply.answer reply.state
