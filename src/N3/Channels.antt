-- ===== src/N3/Channels.antt =====
-- crates/n3/src/lib.rs: which streams of a connection are served.
use zorya_rs.Base.{ℕ, ◌<◌, ◌≡◌, refl, Bool, true, false, List, [], ◌∷◌, ◌++◌, subst, All}
use zorya_rs.Io.{IoResult, ok, err, Poll, ready, pending}
use zorya_rs.Quic.Quiche.{Quiche}
use zorya_rs.Quic.Conn.{QuicConnState, new}
use zorya_rs.Quic.Conn.Calls.{poll_accept}
use zorya_rs.Quic.Conn.Incoming.{FixedRole, Rising, Inbound}
use zorya_rs.Quic.Conn.Accepts.{
  Call, step, run, accepted_id, Passes, Passes-trans, SameQueue-Passes, run-Passes,
  poll_accept-Passes,
}
use zorya_rs.N3.{AcceptTurn, Redirected, spawn_channel, accepted_or_waits, redirect_loop}

-- The loop owns its connection: other tasks call every method but `poll_accept`.
abbrev pub is_accept : Call → Bool
is_accept (Call.accept cx) = true
is_accept call = false

abbrev pub OthersOnly : AcceptTurn → Type 0
OthersOnly t = All (λ call. is_accept call ≡ false) t.before

-- Ids that rise, from above `n` on.
abbrev pub Ascending : ℕ → List ℕ → Type 0
Ascending n [] = Unit
Ascending n (id ∷ ids) = (n < id) × Ascending id ids

Rising-Ascending : (n m : ℕ) (ids queue : List ℕ) → Rising n (ids ++ queue) m → Ascending n ids
Rising-Ascending n m [] queue h = tt
Rising-Ascending n m (id ∷ ids) queue h = (h.0, Rising-Ascending id m ids queue h.1)

Inbound-front : (b : Bool) (ids queue : List ℕ) → Inbound b (ids ++ queue) → Inbound b ids
Inbound-front b [] queue h = tt
Inbound-front b (id ∷ ids) queue h = (h.0, h.1, Inbound-front b ids queue h.2)

module _ {Q : Quiche} where
  step-others : (call : Call) (s : QuicConnState Q) → is_accept call ≡ false → (step call s).0 ≡ []
  unfolding step
  step-others (Call.recv buf) s e = refl
  step-others (Call.send cx gaps rest r) s e = refl
  step-others (Call.close_conn code) s e = refl
  step-others (Call.accept cx) s e = cc
  step-others Call.open_at_once s e = refl
  step-others (Call.open_when_free cx) s e = refl
  step-others (Call.close_one now id) s e = refl
  step-others (Call.write cx id buf fin) s e = refl
  step-others (Call.read_from cx id) s e = refl

  run-others :
      (calls : List Call) (s : QuicConnState Q)
      → All (λ call. is_accept call ≡ false) calls
      → (run calls s).0 ≡ []
  unfolding run
  run-others [] s h = refl
  run-others (call ∷ calls) s h =
      rw (step-others call s h.0, run-others calls (step call s).1 h.1) refl

module _ {Q : Quiche} (b : Bool) where
  -- The streams served come from the queue.
  abbrev Serves : QuicConnState Q → List ℕ → Type 0
  Serves s ids = (s' : QuicConnState Q) × Passes b s ids s'

  spawn_channel-Serves :
      (again : QuicConnState Q → Redirected Q) (now id : ℕ) (spawn : IoResult (Unit {0}))
      (s s' : QuicConnState Q)
      → Passes b s (id ∷ []) s'
      → Serves s' (again s').1
      → Serves s (spawn_channel again now id spawn s').1
  unfolding spawn_channel
  spawn_channel-Serves again now id (ok _) s s' p (s'', q) =
      (s'', Passes-trans b s s' s'' (id ∷ []) (again s').1 p q)
  spawn_channel-Serves again now id (err kind) s s' p h = (s, SameQueue-Passes b s s (refl, refl))

  accepted-Serves :
      (again : QuicConnState Q → Redirected Q) (t : AcceptTurn) (answer : Poll (IoResult ℕ))
      (s s' : QuicConnState Q)
      → Passes b s (accepted_id answer) s'
      → Serves s' (again s').1
      → Serves s (accepted_or_waits again t answer s').1
  unfolding accepted_or_waits
  accepted-Serves again t pending s s' p (s'', q) =
      (s'', Passes-trans b s s' s'' [] (again s').1 p q)
  accepted-Serves again t (ready (err kind)) s s' p h = (s', p)
  accepted-Serves again t (ready (ok id)) s s' p h =
      spawn_channel-Serves again t.now id t.spawn s s' p h

  redirect_loop-Serves :
      FixedRole Q b
      → (turns : List AcceptTurn) (s : QuicConnState Q) → All OthersOnly turns
      → Serves s (redirect_loop turns s).1
  unfolding redirect_loop
  redirect_loop-Serves fixed [] s h = (s, SameQueue-Passes b s s (refl, refl))
  redirect_loop-Serves fixed (t ∷ turns) s h =
      let s₁ = (run t.before s).1 in
      let reply = poll_accept t.cx s₁ in
      let quiet : Passes b s [] s₁ =
        subst (λ ids. Passes b s ids s₁) (run-others t.before s h.0)
          (run-Passes b fixed t.before s) in
      accepted-Serves (λ s'. redirect_loop turns s') t reply.answer s reply.state
        (Passes-trans b s s₁ reply.state [] (accepted_id reply.answer) quiet
          (poll_accept-Passes b t.cx s₁))
        (redirect_loop-Serves fixed turns reply.state h.1)

  -- On a new connection, where all connections of the endpoint have one role, `redirect_loop` gives a task
  -- to streams with rising ids, so to none twice, and each is a bidirectional stream that the peer opened;
  -- other tasks may call any method of the connection but `poll_accept` in between.
  pub redirect_loop-Ascending :
      FixedRole Q b
      → (turns : List AcceptTurn) (c : Q.Connection) → All OthersOnly turns
      → Ascending 0 (redirect_loop turns (new Q c)).1 × Inbound b (redirect_loop turns (new Q c)).1
  unfolding new
  redirect_loop-Ascending fixed turns c h =
      let (s', p) = redirect_loop-Serves fixed turns (new Q c) h in
      let ids = (redirect_loop turns (new Q c)).1 in
      let queue = s'.incoming_stream_id_fifo in
      (
        Rising-Ascending 0 s'.inbound_stream_id_current ids queue (rw p.split p.rising),
        Inbound-front b ids queue (rw p.split p.inbound),
      )
