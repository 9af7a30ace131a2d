-- ===== src/Quic/Client/Progress.antt =====
-- crates/quic/src/client.rs, `QuicConn::connect_with`: the way of a handshake to its end.
mod Tests
use zorya_rs.Base.{
  ℕ, ◌≡◌, refl, ◌∙◌, ap, Bool, true, false, List, [], ◌∷◌, ◌++◌, Option, none, some, Outcome, done,
  panic, ◌>>=◌,
}
use zorya_rs.Io.{timed_out, IoResult, ok, err, Poll, ready, pending}
use zorya_rs.Io.Reactor.{ReactorImpl}
use zorya_rs.Io.Await.{Awaited}
use zorya_rs.Io.Net.Udp
use zorya_rs.Io.Timeout.{timeout_with, drop_timeout}
use zorya_rs.Quic.Quiche.{Quiche, Packet}
use zorya_rs.Quic.Conn.{QuicConnState, new}
use zorya_rs.Quic.Conn.Calls.{poll_recv}
use zorya_rs.Quic.Conn.Await.{await_send, Loop}
use zorya_rs.Quic.Client.Await.{RecvPoll, await_recv}
use zorya_rs.Quic.Client.{
  Round, taken_in, datagram, datagram_in_time, with_timer, receive, packet_sent, packet, handshake,
  connected, connect_on, tasks_started, connect_with,
}
use zorya_rs.Quic.Client.Rounds.{
  told_in_time, told, bind_done, receives, goes_round, Sends, round_begins,
}

module _ {Q : Quiche} (timeout : Quiche.Connection Q → Option ℕ) (socket : ℕ) where
  -- A round that takes in a datagram.
  pub record Arrives (t : Round) (s : QuicConnState Q) (r : ReactorImpl) (s' : QuicConnState Q)
      (r' : ReactorImpl) : Type 0 where
    pub waiting : QuicConnState Q
    pub between : ReactorImpl
    pub sends : Sends timeout socket t s r waiting between
    pub buf : List ℕ
    pub from : ℕ
    pub came :
        told socket t (timeout waiting.quiche_conn) between ≡ done (some (ok (buf, from)), r')
    pub size : ℕ
    pub read : (poll_recv buf waiting).answer ≡ ready (ok size)
    pub left : (poll_recv buf waiting).state ≡ s'

  -- A round whose receive runs into the deadline of quiche.
  pub record Expires (t : Round) (s : QuicConnState Q) (r : ReactorImpl) (s' : QuicConnState Q)
      (r' : ReactorImpl) : Type 0 where
    pub waiting : QuicConnState Q
    pub between : ReactorImpl
    pub sends : Sends timeout socket t s r waiting between
    pub duration : ℕ
    pub due : timeout waiting.quiche_conn ≡ some duration
    pub late : told socket t (some duration) between ≡ done (some (err timed_out), r')
    pub left : record waiting { quiche_conn = Q.on_timeout waiting.quiche_conn } ≡ s'

  -- Rounds after which the handshake is not over.
  pub data Trips
      : List Round → QuicConnState Q → ReactorImpl → QuicConnState Q → ReactorImpl → Type 0 where
    begun : {s : QuicConnState Q} {r : ReactorImpl} → Trips [] s r s r
    early :
        {t : Round} {rounds : List Round} {s s₁ s' : QuicConnState Q} {r r₁ r' : ReactorImpl}
        → Arrives t s r s₁ r₁
        → Q.is_established s₁.quiche_conn ≡ false
        → Trips rounds s₁ r₁ s' r'
        → Trips (t ∷ rounds) s r s' r'
    late :
        {t : Round} {rounds : List Round} {s s₁ s' : QuicConnState Q} {r r₁ r' : ReactorImpl}
        → Expires t s r s₁ r₁
        → Trips rounds s₁ r₁ s' r'
        → Trips (t ∷ rounds) s r s' r'

  arrives :
      (t : Round) (rounds : List Round) (s s' : QuicConnState Q) (r r' : ReactorImpl)
      (x : Arrives t s r s' r')
      → handshake timeout socket (t ∷ rounds) s r
        ≡ taken_in (λ s r. handshake timeout socket rounds s r) (ready (ok x.size)) s' r'
  unfolding datagram
  arrives t rounds s s' r r' x =
      let again : QuicConnState Q → ReactorImpl → Outcome (Loop Q) =
        λ s r. handshake timeout socket rounds s r in
      round_begins timeout socket t rounds s x.waiting r x.between x.sends
      ∙ receives again socket t (timeout x.waiting.quiche_conn) x.waiting x.between r'
          (x.buf, x.from) x.came
      ∙ ap (λ a. taken_in again a (poll_recv x.buf x.waiting).state r') x.read
      ∙ ap (λ s. taken_in again (ready (ok x.size)) s r') x.left

  expires :
      (t : Round) (rounds : List Round) (s s' : QuicConnState Q) (r r' : ReactorImpl)
      → Expires t s r s' r'
      → handshake timeout socket (t ∷ rounds) s r ≡ handshake timeout socket rounds s' r'
  expires t rounds s s' r r' x =
      let again : QuicConnState Q → ReactorImpl → Outcome (Loop Q) =
        λ s r. handshake timeout socket rounds s r in
      round_begins timeout socket t rounds s x.waiting r x.between x.sends
      ∙ ap (λ d. receive again socket t d x.waiting x.between) x.due
      ∙ goes_round again socket t x.duration x.waiting x.between r' x.late
      ∙ ap (λ s. handshake timeout socket rounds s r') x.left

  not_yet :
      (again : QuicConnState Q → ReactorImpl → Outcome (Loop Q)) (n : ℕ) (s : QuicConnState Q)
      (r : ReactorImpl)
      → Q.is_established s.quiche_conn ≡ false
      → taken_in again (ready (ok n)) s r ≡ again s r
  unfolding taken_in
  not_yet again n s r e = rw e refl

  over :
      (again : QuicConnState Q → ReactorImpl → Outcome (Loop Q)) (n : ℕ) (s : QuicConnState Q)
      (r : ReactorImpl)
      → Q.is_established s.quiche_conn ≡ true
      → taken_in again (ready (ok n)) s r ≡ done (some (ok tt), s, r)
  unfolding taken_in
  over again n s r e = rw e refl

  goes_on :
      (rounds more : List Round) (s s' : QuicConnState Q) (r r' : ReactorImpl)
      → Trips rounds s r s' r'
      → handshake timeout socket (rounds ++ more) s r ≡ handshake timeout socket more s' r'
  goes_on _ more s s' r r' begun = refl
  goes_on _ more s s' r r' (early {t} {rounds} {s₁ = s₁} {r₁ = r₁} x unready rest) =
      arrives t (rounds ++ more) s s₁ r r₁ x
      ∙ not_yet (λ s r. handshake timeout socket (rounds ++ more) s r) x.size s₁ r₁ unready
      ∙ goes_on rounds more s₁ s' r₁ r' rest
  goes_on _ more s s' r r' (late {t} {rounds} {s₁ = s₁} {r₁ = r₁} x rest) =
      expires t (rounds ++ more) s s₁ r r₁ x ∙ goes_on rounds more s₁ s' r₁ r' rest

module _ (Q : Quiche) (timeout : Quiche.Connection Q → Option ℕ) where
  -- When the socket of `QuicConn::connect_with` is bound, its address read, the connection of quiche
  -- made and both tasks are spawned, and in each round quiche has a packet that the socket takes, then
  -- after any rounds that time out, or take in a datagram and leave the connection unestablished, a
  -- round whose datagram leaves it established makes the call return this connection.
  pub connect_with_ends :
      (mio registry : IoResult (Unit {0})) (laddr : ℕ) (c : Q.Connection) (socket : ℕ)
      → (rounds more : List Round) (t : Round) (s s' : QuicConnState Q) (r r₁ r₂ r' : ReactorImpl)
      → Udp.bind_with mio registry r ≡ some (ok socket, r₁)
      → Trips timeout socket rounds (new Q c) r₁ s r₂
      → Arrives timeout socket t s r₂ s' r'
      → Q.is_established s'.quiche_conn ≡ true
      → connect_with timeout mio registry (ok laddr) (ok c) (rounds ++ t ∷ more) (ok tt) (ok tt) r
        ≡ done (some (ok s'), r')
  unfolding connect_with connect_on connected tasks_started
  connect_with_ends mio registry laddr c socket rounds more t s s' r r₁ r₂ r' bound trips x e =
      let finishes : handshake timeout socket (rounds ++ t ∷ more) (new Q c) r₁
          ≡ done (some (ok tt), s', r') =
        goes_on timeout socket rounds (t ∷ more) (new Q c) s r₁ r₂ trips
        ∙ arrives timeout socket t more s s' r₂ r' x
        ∙ over timeout socket (λ s r. handshake timeout socket more s r) x.size s' r' e in
      ap (connect_on timeout (ok laddr) (ok c) (rounds ++ t ∷ more) (ok tt) (ok tt)) bound
      ∙ bind_done (handshake timeout socket (rounds ++ t ∷ more) (new Q c) r₁)
          (λ l. done (connected (ok tt) (ok tt) l)) _ finishes
