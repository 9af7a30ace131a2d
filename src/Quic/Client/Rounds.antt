-- ===== src/Quic/Client/Rounds.antt =====
-- crates/quic/src/client.rs, `QuicConn::connect_with`: the parts of a round of its loop.
use zorya_rs.Base.{
  ℕ, ◌≡◌, refl, ◌∙◌, ap, List, ◌∷◌, Option, none, some, Outcome, done, panic, ◌>>=◌,
}
use zorya_rs.Io.{timed_out, ok, err}
use zorya_rs.Io.Reactor.{ReactorImpl}
use zorya_rs.Io.Await.{Awaited}
use zorya_rs.Io.Net.Udp
use zorya_rs.Io.Timeout.{timeout_with, drop_timeout}
use zorya_rs.Quic.Quiche.{Quiche, Packet}
use zorya_rs.Quic.Conn.{QuicConnState}
use zorya_rs.Quic.Conn.Await.{await_send, Loop}
use zorya_rs.Quic.Client.Await.{RecvPoll, await_recv}
use zorya_rs.Quic.Client.{
  Round, datagram, datagram_in_time, with_timer, receive, packet_sent, packet, handshake,
}

-- What the client is told when it waits for a datagram: with a deadline, if quiche has a timeout.
abbrev Told : Type 0
Told = Awaited (List ℕ × ℕ)

abbrev pub told_in_time : ℕ → List RecvPoll → Option (ℕ × ReactorImpl) → Outcome Told
told_in_time socket polls none = panic
told_in_time socket polls (some (timer, r)) =
    await_recv socket timer polls r >>= λ a. done (a.0, drop_timeout timer a.1)

abbrev pub told : ℕ → Round → Option ℕ → ReactorImpl → Outcome Told
told socket t none r = Udp.recv_from socket t.recvs r
told socket t (some duration) r = told_in_time socket t.timed_recvs (timeout_with t.now duration r)

pub bind_done :
    {A B : Type 0} (o : Outcome A) (g : A → Outcome B) (a : A) → o ≡ done a → (o >>= g) ≡ g a
bind_done o g a e = rw e refl

bind_same :
    {A B C : Type 0} (o : Outcome A) (f : A → B) (g : B → Outcome C) (b : B)
    → ◌>>=◌ {B = B} o (λ a. done (f a)) ≡ done b
    → (o >>= λ a. g (f a)) ≡ g b
bind_same (done a) f g b e = let same : f a ≡ b = cc in ap g same
bind_same panic f g b e = cc

module _ {Q : Quiche} (again : QuicConnState Q → ReactorImpl → Outcome (Loop Q)) (socket : ℕ) where
  in_time :
      (polls : List RecvPoll) (s : QuicConnState Q) (o : Option (ℕ × ReactorImpl)) (a : Told)
      → told_in_time socket polls o ≡ done a
      → with_timer again socket polls s o ≡ datagram_in_time again s a
  unfolding with_timer
  in_time polls s none a e = cc
  in_time polls s (some (timer, r)) a e =
      bind_same (await_recv socket timer polls r) (λ a. (a.0, drop_timeout timer a.1))
        (datagram_in_time again s) a e

  pub receives :
      (t : Round) (d : Option ℕ) (s : QuicConnState Q) (r r' : ReactorImpl) (p : List ℕ × ℕ)
      → told socket t d r ≡ done (some (ok p), r')
      → receive again socket t d s r ≡ datagram again s (some (ok p), r')
  unfolding receive datagram_in_time
  receives t none s r r' p e = rw e refl
  receives t (some duration) s r r' p e =
      in_time t.timed_recvs s (timeout_with t.now duration r) (some (ok p), r') e

  pub goes_round :
      (t : Round) (duration : ℕ) (s : QuicConnState Q) (r r' : ReactorImpl)
      → told socket t (some duration) r ≡ done (some (err timed_out), r')
      → receive again socket t (some duration) s r
        ≡ again (record s { quiche_conn = Q.on_timeout s.quiche_conn }) r'
  unfolding receive datagram_in_time
  goes_round t duration s r r' e =
      in_time t.timed_recvs s (timeout_with t.now duration r) (some (err timed_out), r') e

module _ {Q : Quiche} (timeout : Quiche.Connection Q → Option ℕ) (socket : ℕ) where
  -- The first half of a round: quiche has a packet, and the socket takes it.
  pub record Sends (t : Round) (s : QuicConnState Q) (r : ReactorImpl) (s' : QuicConnState Q)
      (r' : ReactorImpl) : Type 0 where
    pub packet : Packet
    pub between : ReactorImpl
    pub size : ℕ
    pub made : await_send t.sends s r ≡ done (some (ok packet), s', between)
    pub written : Udp.send_to socket t.writes between ≡ done (some (ok size), r')

  pub round_begins :
      (t : Round) (rounds : List Round) (s s' : QuicConnState Q) (r r' : ReactorImpl)
      → Sends t s r s' r'
      → handshake timeout socket (t ∷ rounds) s r
        ≡ receive
            (λ s r. handshake timeout socket rounds s r)
            socket
            t
            (timeout s'.quiche_conn)
            s'
            r'
  unfolding handshake packet packet_sent
  round_begins t rounds s s' r r' x =
      bind_done {B = Loop Q} (await_send t.sends s r)
        (packet timeout (λ s r. handshake timeout socket rounds s r) socket t) _ x.made
      ∙ bind_done {B = Loop Q} (Udp.send_to socket t.writes x.between)
          (packet_sent timeout (λ s r. handshake timeout socket rounds s r) socket t s') _ x.written
