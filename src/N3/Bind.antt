-- ===== src/N3/Bind.antt =====
-- crates/n3/src/lib.rs: `N3`, its builder and `bind`, the loop that gives each connection a task. The task runs
-- `redirect_loop` (N3.antt).
use zorya_rs.Base.{ℕ, ◌≡◌, refl, ap, List, [], ◌∷◌, ◌++◌, map, Option, none, some}
use zorya_rs.Io.{ErrorKind, broken_pipe, IoResult, ok, err}
use zorya_rs.Io.Reactor.{ReactorImpl}
use zorya_rs.Io.Net.Udp.{Binding}
use zorya_rs.Quic.Quiche.{Quiche}
use zorya_rs.Quic.Server.Config.{QuicServerConfig, Listening, bind_with}
use zorya_rs.Quic.Server.Listener.{accept}

-- `N3`; a server's builder keeps its error.
pub record N3 (C V : Type 0) : Type 0 where
  pub redirect_to : ℕ
  pub quic_server : IoResult (QuicServerConfig C V)

module _ {C V : Type 0} where
  -- `N3::new`, with the server that `QuicServer::new` makes.
  unfoldable pub new_n3 : ℕ → IoResult (QuicServerConfig C V) → N3 C V
  new_n3 redirect_to server = record { redirect_to = redirect_to; quic_server = server }

  -- `N3::quic_server`
  unfoldable pub quic_server :
      (IoResult (QuicServerConfig C V) → IoResult (QuicServerConfig C V)) → N3 C V → N3 C V
  quic_server f n3 = record n3 { quic_server = f n3.quic_server }

-- A turn of the loop of `bind`: what the queue of the listener and `spawn` answer.
pub record ListenTurn : Type 0 where
  pub next : Option (List ℕ)
  pub spawn : IoResult (Unit {0})

-- What the loop answers, if it has ended, the connections that it gave a task, and those that it dropped.
pub record Bound : Type 0 where
  pub answer : Option (IoResult (Unit {0}))
  pub tasks : List (List ℕ)
  pub dropped : List (List ℕ)

unfoldable pub given_task : Bound → List ℕ → IoResult (Unit {0}) → Bound
given_task later id (ok _) = record later { tasks = id ∷ later.tasks }
given_task later id (err kind) = record { answer = some (err kind); tasks = []; dropped = id ∷ [] }

unfoldable pub accepted_conn : Bound → IoResult (Unit {0}) → IoResult (List ℕ) → Bound
unfolding given_task
accepted_conn later spawn (err kind) = record { answer = some (err kind); tasks = []; dropped = [] }
accepted_conn later spawn (ok id) = given_task later id spawn

unfoldable pub bind_loop : List ListenTurn → Bound
unfolding accept accepted_conn
bind_loop [] = record { answer = none; tasks = []; dropped = [] }
bind_loop (t ∷ turns) = accepted_conn (bind_loop turns) t.spawn (accept t.next)

unfoldable pub run_bound :
    {V : Type 0} {Q : Quiche}
    → List ListenTurn
    → Option (IoResult (Listening Q V) × ReactorImpl)
    → Option (Bound × ReactorImpl)
unfolding bind_loop
run_bound turns none = none
run_bound turns (some (err kind, r)) =
    some (record { answer = some (err kind); tasks = []; dropped = [] }, r)
run_bound turns (some (ok listening, r)) = some (bind_loop turns, r)

module _ {C V : Type 0} (Q : Quiche) (simple : ℕ → V) where
  -- `N3::bind`, with what the bindings and the spawning of the driver answer.
  unfoldable pub bind :
      N3 C V
      → List Binding
      → IoResult (Unit {0})
      → List ListenTurn
      → ReactorImpl
      → Option (Bound × ReactorImpl)
  unfolding bind_with run_bound
  bind n3 bindings spawn turns r =
      run_bound turns (bind_with Q simple n3.quic_server bindings spawn r)

-- A turn in which the queue has the connection `id`, and its task can be spawned.
abbrev pub comes : List ℕ → ListenTurn
comes id = record { next = some id; spawn = ok tt }

-- Whatever connections come, each gets one task, in their order, and none is dropped, as long as tasks can be
-- spawned; what follows in the loop is as if it began there.
pub bind_loop-comes :
    (ids : List (List ℕ)) (turns : List ListenTurn)
    → bind_loop (map comes ids ++ turns)
      ≡ record (bind_loop turns) { tasks = ids ++ (bind_loop turns).tasks }
unfolding bind_loop accept accepted_conn given_task
bind_loop-comes [] turns = refl
bind_loop-comes (id ∷ ids) turns =
    ap (λ (b : Bound). record b { tasks = id ∷ b.tasks }) (bind_loop-comes ids turns)

-- The loop ends only with the driver, or where a task cannot be spawned: then that connection is dropped.
pub bind_loop_ends :
    (ids : List (List ℕ)) (id : List ℕ) (kind : ErrorKind) (spawn : IoResult (Unit {0}))
    (turns : List ListenTurn)
    → (bind_loop (map comes ids ++ record { next = none; spawn = spawn } ∷ turns)
        ≡ record { answer = some (err broken_pipe); tasks = ids ++ []; dropped = [] })
      × (bind_loop (map comes ids ++ record { next = some id; spawn = err kind } ∷ turns)
          ≡ record { answer = some (err kind); tasks = ids ++ []; dropped = id ∷ [] })
unfolding bind_loop accept accepted_conn given_task
bind_loop_ends ids id kind spawn turns = (
  bind_loop-comes ids (record { next = none; spawn = spawn } ∷ turns),
  bind_loop-comes ids (record { next = some id; spawn = err kind } ∷ turns),
)
