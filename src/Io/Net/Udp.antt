-- ===== src/Io/Net/Udp.antt =====
-- crates/n3io/src/net/udp.rs: UDP sockets, and groups of them. Of a group's `FuturesUnordered`, which is
-- outside, `Completed` says which future it found ready; the reactor's part in that is `recv_from`.
pub mod Routes
mod Tests
use zorya_rs.Base.{
  ℕ, zero, suc, List, [], ◌∷◌, ◌++◌, Option, none, some, ltb, if◌then◌else◌, Outcome, done, panic,
  ◌>>=◌,
}
use zorya_rs.Base.Maps.{Map, lookup, insert, nat_key}
use zorya_rs.Io.Defs.{addr_not_available, IoResult, ok, err}
use zorya_rs.Io.Reactor.{ReactorImpl, readable, writable}
use zorya_rs.Io.Reactor.Calls.{register, shutdown}
use zorya_rs.Io.Await.{Turn, Awaited, await_io}
use zorya_rs.Io.Net.{both}

-- `UdpSocket::bind_with`, once mio has a socket: the socket is its token.
unfoldable pub bind_with :
    IoResult (Unit {0}) → IoResult (Unit {0}) → ReactorImpl → Option (IoResult ℕ × ReactorImpl)
unfolding register
bind_with (err kind) registry r = some (err kind, r)
bind_with (ok _) registry r = register registry both r

-- `UdpSocket::shutdown`
unfoldable pub shutdown_socket : ℕ → ReactorImpl → IoResult (Unit {0}) × ReactorImpl
unfolding shutdown
shutdown_socket token r = shutdown token both r

-- `UdpSocket::recv_from`, for what it says of a datagram.
unfoldable pub recv_from : {T : Type 0} → ℕ → List (Turn T) → ReactorImpl → Outcome (Awaited T)
unfolding await_io
recv_from token turns r = await_io token readable turns r

-- `UdpSocket::send_to`
unfoldable pub send_to : ℕ → List (Turn ℕ) → ReactorImpl → Outcome (Awaited ℕ)
unfolding await_io
send_to token turns r = await_io token writable turns r

-- `UdpGroupRecvFrom`, for an address and the token of its socket.
pub record UdpGroupRecvFrom : Type 0 where
  pub addr : ℕ
  pub socket : ℕ

-- The sockets of a `UdpGroupSender` by their addresses, and the futures of a `UdpGroupReceiver`.
pub record UdpGroup : Type 0 where
  pub sender : Map ℕ ℕ
  pub receiver : List UdpGroupRecvFrom

-- What mio and the registry answer for one of the addresses.
pub record Binding : Type 0 where
  pub socket : IoResult (Unit {0})
  pub registry : IoResult (Unit {0})
  pub local_addr : IoResult ℕ

unfoldable pub join : IoResult ℕ → ℕ → UdpGroup → IoResult UdpGroup
join (err kind) socket g = err kind
join (ok laddr) socket g = ok (record {
  sender = insert laddr socket g.sender;
  receiver = g.receiver ++ record { addr = laddr; socket = socket } ∷ [];
})

-- The body of the loop, once the socket is bound; `next` is the rest of the loop.
unfoldable pub joined :
    IoResult ℕ
    → (UdpGroup → ReactorImpl → Option (IoResult UdpGroup × ReactorImpl))
    → UdpGroup
    → Option (IoResult ℕ × ReactorImpl)
    → Option (IoResult UdpGroup × ReactorImpl)
unfolding join
joined laddr next g none = none
joined laddr next g (some (err kind, r)) = some (err kind, r)
joined laddr next g (some (ok socket, r)) = elim (join laddr socket g) [
  | err kind ↦ some (err kind, r)
  | ok g' ↦ next g' r
]

-- The loop of `udp_group::bind_with`; `none` only where every token is taken.
unfoldable pub bind_all :
    List Binding → UdpGroup → ReactorImpl → Option (IoResult UdpGroup × ReactorImpl)
unfolding bind_with joined
bind_all [] g r = some (ok g, r)
bind_all (b ∷ bindings) g r =
    joined b.local_addr (λ g' r'. bind_all bindings g' r') g (bind_with b.socket b.registry r)

-- `udp_group::bind_with`
unfoldable pub bind_group : List Binding → ReactorImpl → Option (IoResult UdpGroup × ReactorImpl)
unfolding bind_all
bind_group bindings r = bind_all bindings (record { sender = []; receiver = [] }) r

unfoldable pub send_by : Option ℕ → List (Turn ℕ) → ReactorImpl → Outcome (Awaited ℕ)
unfolding send_to
send_by none turns r = done (some (err addr_not_available), r)
send_by (some socket) turns r = send_to socket turns r

-- `UdpGroupSender::send`
unfoldable pub send : Map ℕ ℕ → ℕ → List (Turn ℕ) → ReactorImpl → Outcome (Awaited ℕ)
unfolding send_by lookup
send sender from turns r = send_by (lookup from sender) turns r

-- The future that was found ready, an index past the end for the last one, and its answer.
pub record Completed : Type 0 where
  pub index : ℕ
  pub answer : IoResult (ℕ × ℕ)

unfoldable pub keep :
    UdpGroupRecvFrom
    → Option (UdpGroupRecvFrom × List UdpGroupRecvFrom)
    → List UdpGroupRecvFrom
    → Option (UdpGroupRecvFrom × List UdpGroupRecvFrom)
keep m none rest = some (m, rest)
keep m (some (m', rest')) rest = some (m', m ∷ rest')

unfoldable pub pick : ℕ → List UdpGroupRecvFrom → Option (UdpGroupRecvFrom × List UdpGroupRecvFrom)
unfolding keep
pick i [] = none
pick zero (m ∷ rest) = some (m, rest)
pick (suc i) (m ∷ rest) = keep m (pick i rest) rest

-- The number of bytes, the sender and the address that received them.
pub record Received : Type 0 where
  pub read_size : ℕ
  pub from : ℕ
  pub to : ℕ

unfoldable pub answered :
    ℕ
    → IoResult (ℕ × ℕ)
    → Option (UdpGroupRecvFrom × List UdpGroupRecvFrom)
    → Outcome (IoResult Received × List UdpGroupRecvFrom)
answered buf_len answer none = panic
answered buf_len (err kind) (some (m, rest)) = done (err kind, rest)
answered buf_len (ok (read_size, from)) (some (m, rest)) =
    if ltb buf_len read_size
    then panic
    else done (ok (record { read_size = read_size; from = from; to = m.addr }), rest ++ m ∷ [])

-- `UdpGroupReceiver::recv`; where the group is empty it reaches `unreachable!`.
unfoldable pub recv :
    ℕ → Completed → List UdpGroupRecvFrom → Outcome (IoResult Received × List UdpGroupRecvFrom)
unfolding pick answered
recv buf_len c receiver = answered buf_len c.answer (pick c.index receiver)
