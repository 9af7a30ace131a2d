-- ===== src/Io/Net/Connect.antt =====
-- crates/n3io/src/net/tcp_stream.rs, `connect_with`: a task whose attempts all would block.
use zorya_rs.Base.{
  ℕ, ◌≡◌, ◌⊎◌, refl, inl, inr, subst, List, [], ◌∷◌, Option, none, some, Outcome, done, panic,
  ◌>>=◌, arith, All, OnDone, sym, ap, ◌∙◌, false,
}
use zorya_rs.Io.Defs.{ErrorKind, not_connected, would_block, ok, err, ready, pending}
use zorya_rs.Io.Reactor.{IoState, ReactorImpl, writable, state_at, put, writes}
use zorya_rs.Io.Reactor.NoLoss.{takes}
use zorya_rs.Io.Reactor.Others.{register-writes}
use zorya_rs.Io.Reactor.Live.{Live, alive_at, put-Live, acts-Live}
use zorya_rs.Io.Reactor.Calls.{acts, register}
use zorya_rs.Io.Reactor.PollIo.{
  Attempt, Tried, poll_io, try_io, start_io, blocked, after_attempt, direction_of,
}
use zorya_rs.Io.Await.{Turn, Awaited, await_io, polled}
use zorya_rs.Io.Net.{
  PeerAddr, in_progress, failed, peer_connected, poll_connected, Look, attempts_of, Waiting,
  turns_of, connected_stream, registered, connect_with, both,
}

abbrev pub Blocks : {T : Type 0} → Attempt T → Type 0
Blocks a = a.result ≡ err would_block

module _ {T : Type 0} (io : ℕ) where
  -- No other task takes the socket away or polls it while the task is being polled.
  abbrev pub Quiet : List (Attempt T) → Type 0
  Quiet attempts = All (λ a. All (λ b. takes io b ≡ false) a.meanwhile) attempts

  abbrev pub TurnBlocks : Turn T → Type 0
  TurnBlocks t = All Blocks t.attempts × Quiet t.attempts × All (λ b. takes io b ≡ false) t.before

  -- A poll whose attempts all would block has no answer, and the socket stays.
  abbrev Idle : Outcome (Tried T) → Type 0
  Idle (done (none, r)) = Unit
  Idle (done (some pending, r)) = Live writes io r
  Idle (done (some (ready x), r)) = ⊥
  Idle panic = Unit

  bind-Idle :
      {A : Type 0} (P : A → Type 0) (o : Outcome A) (f : A → Outcome (Tried T))
      → OnDone P o
      → ((a : A) → P a → Idle (f a))
      → Idle (o >>= f)
  bind-Idle P (done a) f p h = h a p
  bind-Idle P panic f p h = tt

  blocked-Idle :
      (cx : ℕ) (retry : ReactorImpl → Outcome (Tried T)) (o : Option IoState) (r : ReactorImpl)
      → state_at writes io r ≡ o
      → Live writes io r
      → ((r : ReactorImpl) → Live writes io r → Idle (retry r))
      → Idle (blocked cx writes io retry o r)
  unfolding blocked
  blocked-Idle cx retry none r q l h = tt
  blocked-Idle cx retry (some IoState.none) r q l h =
      put-Live writes io writes io (IoState.waker cx) r refl l
  blocked-Idle cx retry (some IoState.shutdown) r q (s, e, a) h =
      let clash = sym (ap alive_at q) ∙ ap alive_at e ∙ a in cc
  blocked-Idle cx retry (some IoState.ready) r q l h =
      h (put writes io IoState.none r) (put-Live writes io writes io IoState.none r refl l)
  blocked-Idle cx retry (some IoState.timeout) r q l h = tt
  blocked-Idle cx retry (some (IoState.deadline i)) r q l h = tt
  blocked-Idle cx retry (some (IoState.timer w)) r q l h = tt
  blocked-Idle cx retry (some (IoState.waker w)) r q l h = tt

  try_io-Idle :
      (cx : ℕ) (attempts : List (Attempt T)) (r : ReactorImpl)
      → All Blocks attempts
      → Quiet attempts
      → Live writes io r
      → Idle (try_io cx writes io attempts r)
  unfolding try_io after_attempt
  try_io-Idle cx [] r h n l = tt
  try_io-Idle cx (a ∷ rest) r h n l =
      bind-Idle (Live writes io) (acts a.meanwhile r) _ (acts-Live writes io a.meanwhile r n.0 l)
        (λ r' l'. rw h.0 (
          blocked-Idle cx (λ r''. try_io cx writes io rest r'') (state_at writes io r') r' refl l'
            (λ r'' l''. try_io-Idle cx rest r'' h.1 n.1 l'')))

  start_io-Idle :
      (cx : ℕ) (o : Option IoState) (attempts : List (Attempt T)) (r : ReactorImpl)
      → state_at writes io r ≡ o
      → All Blocks attempts
      → Quiet attempts
      → Live writes io r
      → Idle (start_io cx writes io o attempts r)
  unfolding start_io
  start_io-Idle cx none attempts r q h n (s, e, a) = cc (q, e)
  start_io-Idle cx (some IoState.shutdown) attempts r q h n (s, e, a) =
      let clash = sym (ap alive_at q) ∙ ap alive_at e ∙ a in cc
  start_io-Idle cx (some IoState.ready) attempts r q h n l =
      try_io-Idle cx attempts (put writes io IoState.none r) h n
        (put-Live writes io writes io IoState.none r refl l)
  start_io-Idle cx (some (IoState.waker w)) attempts r q h n l =
      try_io-Idle cx attempts (put writes io IoState.none r) h n
        (put-Live writes io writes io IoState.none r refl l)
  start_io-Idle cx (some IoState.none) attempts r q h n l =
      try_io-Idle cx attempts (put writes io IoState.none r) h n
        (put-Live writes io writes io IoState.none r refl l)
  start_io-Idle cx (some IoState.timeout) attempts r q h n l = tt
  start_io-Idle cx (some (IoState.deadline i)) attempts r q h n l = tt
  start_io-Idle cx (some (IoState.timer w)) attempts r q h n l = tt

  poll_io-Idle :
      (cx : ℕ) (attempts : List (Attempt T)) (r : ReactorImpl)
      → All Blocks attempts
      → Quiet attempts
      → Live writes io r
      → Idle (poll_io cx io writable attempts r)
  unfolding poll_io direction_of
  poll_io-Idle cx attempts r h n l = start_io-Idle cx (state_at writes io r) attempts r refl h n l

  -- What an awaited operation says, where its attempts all would block: nothing.
  abbrev pub Waits : Outcome (Awaited T) → Type 0
  Waits (done (none, r)) = Unit
  Waits (done (some x, r)) = ⊥
  Waits panic = Unit

  bind-Waits :
      {A : Type 0} (P : A → Type 0) (o : Outcome A) (f : A → Outcome (Awaited T))
      → OnDone P o
      → ((a : A) → P a → Waits (f a))
      → Waits (o >>= f)
  bind-Waits P (done a) f p h = h a p
  bind-Waits P panic f p h = tt

  polled-Waits :
      (o : Outcome (Tried T)) (again : ReactorImpl → Outcome (Awaited T))
      → Idle o
      → ((r : ReactorImpl) → Live writes io r → Waits (again r))
      → Waits (o >>= polled again)
  unfolding polled
  polled-Waits (done (none, r)) again i h = tt
  polled-Waits (done (some pending, r)) again i h = h r i
  polled-Waits (done (some (ready x), r)) again i h = absurd i
  polled-Waits panic again i h = tt

  pub await_io-Waits :
      (turns : List (Turn T)) (r : ReactorImpl)
      → All TurnBlocks turns
      → Live writes io r
      → Waits (await_io io writable turns r)
  unfolding await_io
  await_io-Waits [] r h l = tt
  await_io-Waits (t ∷ turns) r h l =
      bind-Waits (Live writes io) (acts t.before r) _ (acts-Live writes io t.before r h.0.2 l)
        (λ r' l'.
          polled-Waits (poll_io t.cx io writable t.attempts r') _
            (poll_io-Idle t.cx t.attempts r' h.0.0 h.0.1 l')
            (λ r'' l''. await_io-Waits turns r'' h.1 l''))

-- The operating system has refused the connection, or has not yet accepted it: `take_error` has
-- the reason or nothing, and there is no peer.
abbrev pub IsRefused : Look → Type 0
IsRefused l =
    ((o : Option ErrorKind) × (l.take_error ≡ ok o))
    × ((l.peer_addr ≡ failed not_connected) ⊎ (l.peer_addr ≡ in_progress))

abbrev pub WaitRefused : Waiting → Type 0
WaitRefused w = All IsRefused w.looks

peer_connected-blocks :
    (p : PeerAddr)
    → (p ≡ failed not_connected) ⊎ (p ≡ in_progress)
    → peer_connected p ≡ err would_block
unfolding peer_connected
peer_connected-blocks p (inl e) = rw e refl
peer_connected-blocks p (inr e) = rw e refl

-- No other task takes the socket away or polls it.
abbrev pub Untouched : ℕ → Waiting → Type 0
Untouched io w =
    All (λ b. takes io b ≡ false) w.before
    × All (λ l. All (λ b. takes io b ≡ false) l.meanwhile) w.looks

attempts_of-Blocks :
    (io : ℕ) (looks : List Look)
    → All IsRefused looks
    → All (λ l. All (λ b. takes io b ≡ false) l.meanwhile) looks
    → All Blocks (attempts_of looks) × Quiet io (attempts_of looks)
unfolding attempts_of poll_connected
attempts_of-Blocks io [] h n = (tt, tt)
attempts_of-Blocks io (l ∷ looks) h n =
    let (blocks, quiet) = attempts_of-Blocks io looks h.1 n.1 in
    ((rw h.0.0.1 (peer_connected-blocks l.peer_addr h.0.1), blocks), (n.0, quiet))

turns_of-Blocks :
    (io : ℕ) (waits : List Waiting)
    → All WaitRefused waits
    → All (Untouched io) waits
    → All (TurnBlocks io) (turns_of waits)
unfolding turns_of
turns_of-Blocks io [] h n = tt
turns_of-Blocks io (w ∷ waits) h n =
    let (blocks, quiet) = attempts_of-Blocks io w.looks h.0 n.0.1 in
    ((blocks, quiet, n.0.0), turns_of-Blocks io waits h.1 n.1)

connected_stream_none :
    (io token : ℕ) (o : Outcome (Awaited (Unit {0}))) (a : Awaited ℕ)
    → Waits io o
    → (o >>= λ a. done (connected_stream token a)) ≡ done a
    → a.0 ≡ none
unfolding connected_stream
connected_stream_none io token (done (none, r)) a h e = ground (arith, e)
connected_stream_none io token (done (some x, r)) a h e = absurd h
connected_stream_none io token panic a h e = cc

-- A refusal is lost: where `take_error` returns the reason of a refusal, or nothing, each time that
-- `poll_connected` looks, the socket has no peer, and no other task takes the socket of the call out
-- of the reactor, shuts it or polls it, `connect_with` has not answered, however often its task was
-- polled.
pub connect_refused :
    (waits : List Waiting) (r r' : ReactorImpl) (token : ℕ) (a : Awaited ℕ)
    → register (ok tt) both r ≡ some (ok token, r')
    → All WaitRefused waits
    → All (Untouched token) waits
    → connect_with (ok tt) (ok tt) waits r ≡ done a
    → a.0 ≡ none
unfolding connect_with registered
connect_refused waits r r' token a s h n e =
    connected_stream_none token token (await_io token writable (turns_of waits) r') a
      (await_io-Waits token (turns_of waits) r' (turns_of-Blocks token waits h n)
        (IoState.none, register-writes both r r' token refl s, refl))
      (subst
        (λ o.
          registered
            (λ token r'.
              await_io token writable (turns_of waits) r' >>= λ a. done (connected_stream token a))
            o
          ≡ done a)
        s e)
