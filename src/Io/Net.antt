-- ===== src/Io/Net.antt =====
-- crates/n3io/src/net: TCP streams and listeners over the reactor. A socket is the token that the
-- reactor gave it; what mio and the registry answer are arguments.
pub mod Connect
pub mod Halves
pub mod Udp
mod Tests
use zorya_rs.Base.{ℕ, true, List, [], ◌∷◌, Option, none, some, Outcome, done, panic, ◌>>=◌}
use zorya_rs.Io.Defs.{
  ErrorKind, not_connected, would_block, IoResult, ok, err, Poll, ready, pending,
}
use zorya_rs.Io.Reactor.{ReactorImpl, Interest, readable, writable}
use zorya_rs.Io.Reactor.Calls.{Act, register, deregister}
use zorya_rs.Io.Reactor.PollIo.{Attempt, Tried, poll_io}
use zorya_rs.Io.Await.{Turn, Awaited, await_io}

abbrev pub both : Interest
both = record { is_readable = true; is_writable = true }

-- What `peer_addr` answers; `in_progress` is the raw error EINPROGRESS.
pub data PeerAddr : Type 0 where
  connected : PeerAddr
  in_progress : PeerAddr
  failed : ErrorKind → PeerAddr

-- The guard of the third branch of `poll_connected`.
unfoldable pub peer_connected : PeerAddr → IoResult (Unit {0})
peer_connected connected = ok tt
peer_connected in_progress = err would_block
peer_connected (failed not_connected) = err would_block
peer_connected (failed kind) = err kind

-- `poll_connected`, on the answers of `take_error` and of `peer_addr`.
unfoldable pub poll_connected : IoResult (Option ErrorKind) → PeerAddr → IoResult (Unit {0})
unfolding peer_connected
poll_connected (err kind) peer = err kind
poll_connected (ok _) peer = peer_connected peer

-- What one call of `poll_connected` sees, and what other threads do while it runs.
pub record Look : Type 0 where
  pub take_error : IoResult (Option ErrorKind)
  pub peer_addr : PeerAddr
  pub meanwhile : List Act

unfoldable pub attempts_of : List Look → List (Attempt (Unit {0}))
unfolding poll_connected
attempts_of [] = []
attempts_of (l ∷ looks) =
    record { result = poll_connected l.take_error l.peer_addr; meanwhile = l.meanwhile }
    ∷ attempts_of looks

-- One poll of the task in `connect_with`.
pub record Waiting : Type 0 where
  pub before : List Act
  pub cx : ℕ
  pub looks : List Look

unfoldable pub turns_of : List Waiting → List (Turn (Unit {0}))
unfolding attempts_of
turns_of [] = []
turns_of (w ∷ waits) =
    record { before = w.before; cx = w.cx; attempts = attempts_of w.looks } ∷ turns_of waits

-- The end of `connect_with`: the stream is its token.
unfoldable pub connected_stream : ℕ → Awaited (Unit {0}) → Awaited ℕ
connected_stream token (none, r) = (none, r)
connected_stream token (some (ok _), r) = (some (ok token), r)
connected_stream token (some (err kind), r) = (some (err kind), r)

unfoldable pub registered :
    {T : Type 0}
    → (ℕ → ReactorImpl → Outcome (Awaited T))
    → Option (IoResult ℕ × ReactorImpl)
    → Outcome (Awaited T)
registered next none = panic
registered next (some (ok token, r)) = next token r
registered next (some (err kind, r)) = done (some (err kind), r)

-- `TcpStream::connect_with`, once mio has a socket; an error of mio is returned as it is.
unfoldable pub connect_with :
    IoResult (Unit {0}) → IoResult (Unit {0}) → List Waiting → ReactorImpl → Outcome (Awaited ℕ)
unfolding register registered await_io connected_stream turns_of
connect_with (err kind) registry waits r = done (some (err kind), r)
connect_with (ok _) registry waits r =
    registered
      (λ token r'.
        await_io token writable (turns_of waits) r' >>= λ a. done (connected_stream token a))
      (register registry both r)

-- `TcpStreamWriter::poll_write` and `TcpStreamReader::poll_read`, for the number of bytes that the
-- operation moves; `&TcpStream` and `TcpStream` have the same.
unfoldable pub poll_write : ℕ → ℕ → List (Attempt ℕ) → ReactorImpl → Outcome (Tried ℕ)
unfolding poll_io
poll_write cx token attempts r = poll_io cx token writable attempts r

unfoldable pub poll_read : ℕ → ℕ → List (Attempt ℕ) → ReactorImpl → Outcome (Tried ℕ)
unfolding poll_io
poll_read cx token attempts r = poll_io cx token readable attempts r

-- `TcpStream::drop`; an error of the registry is only logged.
unfoldable pub drop_stream : IoResult (Unit {0}) → ℕ → ReactorImpl → ReactorImpl
unfolding deregister
drop_stream registry token r = (deregister registry token r).1

-- `TcpListener::bind_with`, once mio has a socket.
unfoldable pub bind_with :
    IoResult (Unit {0}) → IoResult (Unit {0}) → ReactorImpl → Option (IoResult ℕ × ReactorImpl)
unfolding register
bind_with (err kind) registry r = some (err kind, r)
bind_with (ok _) registry r = register registry readable r

unfoldable pub accepted : IoResult (Unit {0}) → Awaited ℕ → Outcome (Awaited (ℕ × ℕ))
unfolding register registered
accepted registry (none, r) = done (none, r)
accepted registry (some (err kind), r) = done (some (err kind), r)
accepted registry (some (ok raddr), r) =
    registered (λ token r'. done (some (ok (token, raddr)), r')) (register registry both r)

-- `TcpListener::accept`: the token of the new stream, and the address of the peer.
unfoldable pub accept :
    ℕ → IoResult (Unit {0}) → List (Turn ℕ) → ReactorImpl → Outcome (Awaited (ℕ × ℕ))
unfolding await_io accepted
accept listener registry turns r = await_io listener readable turns r >>= accepted registry
