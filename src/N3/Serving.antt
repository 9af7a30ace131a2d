-- ===== src/N3/Serving.antt =====
-- crates/n3/src/lib.rs, `redirect_loop`: every stream that arrives is served.
use zorya_rs.Base.{
  ℕ, ◌≤◌, ◌≡◌, refl, ◌∙◌, ap, Bool, false, List, [], ◌∷◌, ◌++◌, none, some, length, All, arith,
}
use zorya_rs.Io.{IoResult, ok, err, Poll, ready, pending}
use zorya_rs.Quic.Quiche.{Quiche}
use zorya_rs.Quic.Conn.{QuicConnState, new}
use zorya_rs.Quic.Conn.Calls.{poll_accept, next_incoming}
use zorya_rs.Quic.Conn.Incoming.{FixedRole, Inbound}
use zorya_rs.Quic.Conn.Accepts.{run}
use zorya_rs.N3.{AcceptTurn, Redirected, served, spawn_channel, accepted_or_waits, redirect_loop}
use zorya_rs.N3.Channels.{OthersOnly, Ascending, redirect_loop-Ascending}

-- A poll of the loop between which and the one before no other task acts, and whose task is spawned.
abbrev pub IsQuiet : AcceptTurn → Type 0
IsQuiet t = (t.before ≡ []) × (t.spawn ≡ ok tt)

OthersOnly-append :
    (turns quiet : List AcceptTurn)
    → All OthersOnly turns
    → All IsQuiet quiet
    → All OthersOnly (turns ++ quiet)
OthersOnly-append [] [] h q = tt
OthersOnly-append [] (t ∷ quiet) h q = (rw q.0.0 tt, OthersOnly-append [] quiet tt q.1)
OthersOnly-append (t ∷ turns) quiet h q = (h.0, OthersOnly-append turns quiet h.1 q)

module _ {Q : Quiche} where
  -- The loop goes on after `turns`, and has served `ids` more.
  abbrev after : List ℕ → Redirected Q → Redirected Q
  after ids (answer, ids', s) = (answer, ids ++ ids', s)

  spawned-after :
      (again again' : QuicConnState Q → Redirected Q) (now id : ℕ) (spawn : IoResult (Unit {0}))
      (s : QuicConnState Q) (next : QuicConnState Q → Redirected Q)
      → ((again s).0 ≡ none → again' s ≡ after (again s).1 (next (again s).2))
      → (spawn_channel again now id spawn s).0 ≡ none
      → spawn_channel again' now id spawn s
        ≡ after (spawn_channel again now id spawn s).1 (next (spawn_channel again now id spawn s).2)
  unfolding spawn_channel
  spawned-after again again' now id (ok _) s next h e = ap (served id) (h e)
  spawned-after again again' now id (err kind) s next h e = cc

  accepted-after :
      (again again' : QuicConnState Q → Redirected Q) (t : AcceptTurn) (answer : Poll (IoResult ℕ))
      (s : QuicConnState Q) (next : QuicConnState Q → Redirected Q)
      → ((again s).0 ≡ none → again' s ≡ after (again s).1 (next (again s).2))
      → (accepted_or_waits again t answer s).0 ≡ none
      → accepted_or_waits again' t answer s
        ≡ after (accepted_or_waits again t answer s).1 (next (accepted_or_waits again t answer s).2)
  unfolding accepted_or_waits
  accepted-after again again' t pending s next h e = h e
  accepted-after again again' t (ready (err kind)) s next h e = cc
  accepted-after again again' t (ready (ok id)) s next h e =
      spawned-after again again' t.now id t.spawn s next h e

  redirect_loop-append :
      (turns more : List AcceptTurn) (s : QuicConnState Q)
      → (redirect_loop turns s).0 ≡ none
      → redirect_loop (turns ++ more) s
        ≡ after (redirect_loop turns s).1 (redirect_loop more (redirect_loop turns s).2)
  unfolding redirect_loop
  redirect_loop-append [] more s e = refl
  redirect_loop-append (t ∷ turns) more s e =
      let reply = poll_accept t.cx (run t.before s).1 in
      accepted-after (λ s'. redirect_loop turns s') (λ s'. redirect_loop (turns ++ more) s') t
        reply.answer reply.state (λ s'. redirect_loop more s')
        (redirect_loop-append turns more reply.state) e

  -- What the loop has done once its turns are over: it has served the queue, and goes on.
  abbrev Drains : List ℕ → Redirected Q → Type 0
  Drains queue (answer, ids, s) = (answer ≡ none) × (ids ≡ queue) × (s.incoming_stream_id_fifo ≡ [])

  poll_accept-open :
      (cx : ℕ) (s : QuicConnState Q) (queue : List ℕ)
      → s.incoming_stream_id_fifo ≡ queue
      → Q.is_closed s.quiche_conn ≡ false
      → poll_accept cx s ≡ next_incoming cx queue s
  unfolding poll_accept
  poll_accept-open cx s queue e open_now = rw open_now (ap (λ q. next_incoming cx q s) e)

  drains :
      (quiet : List AcceptTurn) (s : QuicConnState Q) (queue : List ℕ)
      → s.incoming_stream_id_fifo ≡ queue
      → Q.is_closed s.quiche_conn ≡ false
      → All IsQuiet quiet
      → length queue ≤ length quiet
      → Drains queue (redirect_loop quiet s)
  unfolding redirect_loop run poll_accept next_incoming accepted_or_waits spawn_channel
  drains [] s [] e open_now q long = (refl, refl, e)
  drains [] s (id ∷ queue) e open_now q long = ground (arith, long)
  drains (t ∷ quiet) s [] e open_now q long =
      rw (q.0.0, poll_accept-open t.cx s [] e open_now)
        (drains quiet (record s { fifo_waker = some t.cx }) [] e open_now q.1 (omega arith))
  drains (t ∷ quiet) s (id ∷ queue) e open_now q long =
      let rest =
        drains quiet (record s { incoming_stream_id_fifo = queue }) queue refl open_now q.1
          (omega (arith, long)) in
      rw (q.0.0, poll_accept-open t.cx s (id ∷ queue) e open_now, q.0.1)
        (rest.0, ap (λ ids. id ∷ ids) rest.1, rest.2)

module _ {Q : Quiche} (b : Bool) where
  -- A connection of N3, from its start: whatever its tasks called while the loop went on, and while the
  -- connection is not closed, as many quiet polls of the loop as there are streams in the queue serve all
  -- of them after the others, in their order, and leave none. All streams that were served are
  -- bidirectional streams of the peer with rising ids, so none is served twice. All connections of
  -- the endpoint have one role.
  pub redirect_loop_serves :
      FixedRole Q b
      → (turns quiet : List AcceptTurn) (c : Q.Connection) (ids : List ℕ) (s : QuicConnState Q)
      → All OthersOnly turns
      → redirect_loop turns (new Q c) ≡ (none, ids, s)
      → Q.is_closed s.quiche_conn ≡ false
      → All IsQuiet quiet
      → length s.incoming_stream_id_fifo ≤ length quiet
      → let end = redirect_loop (turns ++ quiet) (new Q c) in
        (end.0 ≡ none)
        × (end.1 ≡ ids ++ s.incoming_stream_id_fifo)
        × (end.2.incoming_stream_id_fifo ≡ [])
        × Ascending 0 end.1
        × Inbound b end.1
  redirect_loop_serves fixed turns quiet c ids s h e open_now q long =
      let more =
        redirect_loop-append turns quiet (new Q c) (ap (λ x. x.0) e)
        ∙ ap (λ x. after x.1 (redirect_loop quiet x.2)) e in
      let drained = drains quiet s s.incoming_stream_id_fifo refl open_now q long in
      let rising =
        redirect_loop-Ascending b fixed (turns ++ quiet) c (OthersOnly-append turns quiet h q) in
      (
        rw more drained.0,
        rw more (ap (λ l. ids ++ l) drained.1),
        rw more drained.2,
        rising.0,
        rising.1,
      )
