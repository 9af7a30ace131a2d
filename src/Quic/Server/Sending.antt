-- ===== src/Quic/Server/Sending.antt =====
-- crates/quic/src/server.rs: the sending task of a connection of the server, and how it gives up the place of
-- its connection.
mod Tests
use mathlib.Core.Logic.{ite}
use zorya_rs.Base.{
  ℕ, suc, ◌≤◌, ◌≡◌, refl, true, false, List, ◌∷◌, Option, none, some, Outcome, done, ◌>>=◌, length,
  ltb, lt→ltb, is_some, arith,
}
use zorya_rs.Base.Maps.{Map, Key, bytes_key, lookup, remove, lookup-remove}
use zorya_rs.Io.{broken_pipe, IoResult, err, ready}
use zorya_rs.Io.Reactor.{ReactorImpl}
use zorya_rs.Io.Reactor.Calls.{acts}
use zorya_rs.Io.Await.{Turn}
use zorya_rs.Io.Net.Udp
use zorya_rs.Quic.Quiche.{Quiche, QResult, Packet}
use zorya_rs.Quic.Conn.{QuicConnState, finalize_events}
use zorya_rs.Quic.Conn.Send.{Gaps, take_timer, send_loop, sent, poll_send}
use zorya_rs.Quic.Conn.Accepts.{run}
use zorya_rs.Quic.Conn.Await.{
  SendPoll, Loop, SendTurn, sent_or_waits, await_send, to_send, send_turns,
}
use zorya_rs.Quic.Server.{World, QuicListenerDriver}
use zorya_rs.Quic.Server.Listener.{active_conns}
use zorya_rs.Quic.Server.Driver.{clean}
use zorya_rs.Quic.Server.Driver.Bounds.{IsBounded, clean-IsBounded, length-remove_found}

module _ {Q : Quiche} where
  -- `conn_send_loop`: a packet goes out by the socket of the address that quiche gives it as its source.
  unfoldable pub conn_send_loop :
      Map ℕ ℕ → List SendTurn → QuicConnState Q → ReactorImpl → Outcome (Loop Q)
  unfolding send_turns Udp.send
  conn_send_loop sender turns s r =
      send_turns (λ packet writes r'. Udp.send sender packet.from writes r') turns s r

  -- The poll of a sending task that finds its connection closed, with nothing to send: what it does to the
  -- connection, and to the reactor, before it asks quiche for a packet.
  pub record FindsClosed (p : SendPoll) (gaps : Gaps) (rest : List Gaps) (s : QuicConnState Q)
      (r r' r'' : ReactorImpl) (s' : QuicConnState Q) (c : Quiche.Connection Q) : Type 0 where
    pub acted : acts p.before r ≡ done r'
    pub turned : p.rest ≡ gaps ∷ rest
    pub timer :
        take_timer p.cx p.gaps (run p.calls s).1.on_timeout_timer (run p.calls s).1 r'
        ≡ done (s', r'')
    pub nothing : Quiche.send Q s'.quiche_conn ≡ (QResult.error_done, c)
    pub is_closed : Quiche.is_closed Q c ≡ true

  -- What `poll_send` leaves of such a connection.
  abbrev pub finalized : QuicConnState Q → Quiche.Connection Q → QuicConnState Q
  finalized s' c = (finalize_events (record s' { quiche_conn = c })).1

  poll_send-closed :
      (p : SendPoll) (gaps : Gaps) (rest : List Gaps) (s s' : QuicConnState Q)
      (r r' r'' : ReactorImpl) (c : Quiche.Connection Q) (polls : List SendPoll)
      → FindsClosed p gaps rest s r r' r'' s' c
      → await_send (p ∷ polls) s r ≡ done (some (err broken_pipe), finalized s' c, r'')
  unfolding await_send poll_send send_loop sent sent_or_waits
  poll_send-closed p gaps rest s s' r r' r'' c polls f =
      rw (f.acted, f.timer, f.turned, f.nothing, f.is_closed) refl

  conn_send_loop-closed :
      (sender : Map ℕ ℕ) (p : SendPoll) (gaps : Gaps) (rest : List Gaps) (s s' : QuicConnState Q)
      (r r' r'' : ReactorImpl) (c : Quiche.Connection Q) (polls : List SendPoll)
      (writes : List (Turn ℕ)) (turns : List SendTurn)
      → FindsClosed p gaps rest s r r' r'' s' c
      → conn_send_loop sender (record { sends = p ∷ polls; writes = writes } ∷ turns) s r
        ≡ done (some (err broken_pipe), finalized s' c, r'')
  unfolding conn_send_loop send_turns to_send
  conn_send_loop-closed sender p gaps rest s s' r r' r'' c polls writes turns f =
      rw (poll_send-closed p gaps rest s s' r r' r'' c polls f) refl

module _ {Q : Quiche} (W : World Q) where
  -- The end of the sending task of the connection `id`: what it does to the sets of the driver, once its loop
  -- has ended.
  unfoldable pub task_ended : List ℕ → Loop Q → QuicListenerDriver Q → QuicListenerDriver Q
  unfolding clean
  task_ended id (none, s, r) l = l
  task_ended id (some answer, s, r) l = clean W id l

  -- A connection that has closed gives up its place. Once quiche has closed a connection of the driver and
  -- has nothing to send for it, the next poll of its sending task ends the task's loop with BrokenPipe;
  -- the connection is then in neither set of the driver, all others are where they were, and there is room for
  -- another one.
  pub closed_conn_leaves :
      (id other : List ℕ) (sender : Map ℕ ℕ) (p : SendPoll) (gaps : Gaps) (rest : List Gaps)
      (s s' : QuicConnState Q) (r r' r'' : ReactorImpl) (c : Quiche.Connection Q)
      (polls : List SendPoll) (writes : List (Turn ℕ)) (turns : List SendTurn)
      (l : QuicListenerDriver Q)
      → FindsClosed p gaps rest s r r' r'' s' c
      → IsBounded W l
      → is_some (lookup id l.quiche_conn_set) ≡ true
      → let end : Loop Q = (some (err broken_pipe), finalized s' c, r'') in
        let l' = task_ended id end l in
        (conn_send_loop sender (record { sends = p ∷ polls; writes = writes } ∷ turns) s r
          ≡ done end)
        × (lookup id l'.quiche_conn_set ≡ none)
        × (lookup id l'.handshaking_conn_set ≡ none)
        × (suc (active_conns l') ≤ active_conns l)
        × (ltb (active_conns l') l'.max_active_conn_size ≡ true)
        × (lookup other l'.quiche_conn_set
            ≡ ite (Key.dec bytes_key id other) none (lookup other l.quiche_conn_set))
        × IsBounded W l'
  unfolding task_ended clean active_conns
  closed_conn_leaves id other sender p gaps rest s s' r r' r'' c polls writes turns l f i there = (
    conn_send_loop-closed sender p gaps rest s s' r r' r'' c polls writes turns f,
    ground (arith, lookup-remove id id l.quiche_conn_set),
    ground (arith, lookup-remove id id l.handshaking_conn_set),
    length-remove_found id l.quiche_conn_set there,
    lt→ltb _ _ (omega (arith, length-remove_found id l.quiche_conn_set there, i.size)),
    lookup-remove id other l.quiche_conn_set,
    clean-IsBounded W id l i,
  )
