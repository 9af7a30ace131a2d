-- ===== src/N3.antt =====
-- crates/n3/src/lib.rs: the loop that serves the streams of a connection, and the channel of a stream.
pub mod Channels
pub mod Serving
pub mod Bind
mod Tests
use zorya_rs.Base.{ℕ, List, [], ◌∷◌, Option, none, some, Outcome, done, ◌>>=◌}
use zorya_rs.Io.{IoResult, ok, err, Poll, ready, pending}
use zorya_rs.Io.Reactor.{ReactorImpl}
use zorya_rs.Io.Await.{Awaited}
use zorya_rs.Io.Net.{Waiting, connect_with, drop_stream}
use zorya_rs.Quic.Quiche.{Quiche}
use zorya_rs.Quic.Conn.{QuicConnState}
use zorya_rs.Quic.Conn.Calls.{close, poll_accept, close_stream}
use zorya_rs.Quic.Conn.Accepts.{Call, run}

-- A poll of `conn.accept()` in `redirect_loop`, after calls of other tasks, and what `spawn` answers; the
-- instant is that of the closing of a stream that is not served.
pub record AcceptTurn : Type 0 where
  pub before : List Call
  pub cx : ℕ
  pub spawn : IoResult (Unit {0})
  pub now : ℕ

-- What `redirect_loop` answers, if it has ended, the streams that it gave a task, and the connection.
abbrev pub Redirected : Quiche → Type 0
Redirected Q = Option (IoResult (Unit {0})) × List ℕ × QuicConnState Q

module _ {Q : Quiche} where
  abbrev pub served : ℕ → Redirected Q → Redirected Q
  served id (answer, ids, s) = (answer, id ∷ ids, s)

  -- The connection, and a stream that could not be given a task, are dropped at the end.
  unfoldable pub spawn_channel :
      (QuicConnState Q → Redirected Q)
      → ℕ
      → ℕ
      → IoResult (Unit {0})
      → QuicConnState Q
      → Redirected Q
  unfolding close close_stream
  spawn_channel again now id (ok _) s = served id (again s)
  spawn_channel again now id (err kind) s =
      (some (err kind), [], (close 0 (close_stream now id s).state).state)

  unfoldable pub accepted_or_waits :
      (QuicConnState Q → Redirected Q)
      → AcceptTurn
      → Poll (IoResult ℕ)
      → QuicConnState Q
      → Redirected Q
  unfolding spawn_channel
  accepted_or_waits again t pending s = again s
  accepted_or_waits again t (ready (err kind)) s = (some (err kind), [], (close 0 s).state)
  accepted_or_waits again t (ready (ok id)) s = spawn_channel again t.now id t.spawn s

  -- `N3::redirect_loop`
  unfoldable pub redirect_loop : List AcceptTurn → QuicConnState Q → Redirected Q
  unfolding run poll_accept accepted_or_waits
  redirect_loop [] s = (none, [], s)
  redirect_loop (t ∷ turns) s =
      let reply = poll_accept t.cx (run t.before s).1 in
      accepted_or_waits (λ s'. redirect_loop turns s') t reply.answer reply.state

-- The two tasks of a channel, between a stream and a socket; each is a `pipe` (Io/Copy.antt).
pub data Pipe : Type 0 where
  backward : ℕ → ℕ → Pipe
  forward : ℕ → ℕ → Pipe

-- What `create_channel` answers, the tasks that it started, and the reactor.
abbrev pub Channel : Type 0
Channel = Option (IoResult (Unit {0})) × List Pipe × ReactorImpl

-- The two calls of `spawn`; the socket is dropped where no task has it.
unfoldable pub pipes : ℕ → ℕ → IoResult (Unit {0}) → IoResult (Unit {0}) → ReactorImpl → Channel
unfolding drop_stream
pipes stream socket (err kind) spawn_forward r = (some (err kind), [], drop_stream (ok tt) socket r)
pipes stream socket (ok _) (err kind) r = (some (err kind), backward stream socket ∷ [], r)
pipes stream socket (ok _) (ok _) r =
    (some (ok tt), backward stream socket ∷ forward stream socket ∷ [], r)

unfoldable pub channel :
    ℕ → IoResult (Unit {0}) → IoResult (Unit {0}) → IoResult (Unit {0}) → Awaited ℕ → Channel
unfolding pipes drop_stream
channel stream local_addr spawn_backward spawn_forward (none, r) = (none, [], r)
channel stream local_addr spawn_backward spawn_forward (some (err kind), r) =
    (some (err kind), [], r)
channel stream (err kind) spawn_backward spawn_forward (some (ok socket), r) =
    (some (err kind), [], drop_stream (ok tt) socket r)
channel stream (ok _) spawn_backward spawn_forward (some (ok socket), r) =
    pipes stream socket spawn_backward spawn_forward r

-- `N3::create_channel`, with what mio, the registry and `spawn` answer.
unfoldable pub create_channel :
    IoResult (Unit {0})
    → IoResult (Unit {0})
    → List Waiting
    → IoResult (Unit {0})
    → IoResult (Unit {0})
    → IoResult (Unit {0})
    → ℕ
    → ReactorImpl
    → Outcome Channel
unfolding connect_with channel
create_channel mio registry waits local_addr spawn_backward spawn_forward stream r =
    connect_with mio registry waits r >>= λ a.
    done (channel stream local_addr spawn_backward spawn_forward a)
