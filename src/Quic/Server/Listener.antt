-- ===== src/Quic/Server/Listener.antt =====
-- crates/quic/src/server.rs: `QuicListener`, over the set of connections that it shares with the driver. Its
-- queue is a channel of the futures crate: `accept` takes what `incoming.next()` answers.
use zorya_rs.Base.{ℕ, List, Option, none, some, length, map}
use zorya_rs.Io.{broken_pipe, IoResult, ok, err}
use zorya_rs.Io.Net.Udp.{UdpGroup}
use zorya_rs.Quic.Quiche.{Quiche}
use zorya_rs.Quic.Server.{QuicListenerDriver}

-- `local_addrs`: the addresses under which `bind_with` has sockets.
unfoldable pub local_addrs : UdpGroup → List ℕ
local_addrs group = map (λ e. e.0) group.sender

module _ {Q : Quiche} where
  -- `active_conns`
  unfoldable pub active_conns : QuicListenerDriver Q → ℕ
  active_conns l = length l.quiche_conn_set

-- `accept`: a connection is its id; the channel has ended where its only sender, the driver, is gone.
unfoldable pub accept : Option (List ℕ) → IoResult (List ℕ)
accept (some id) = ok id
accept none = err broken_pipe
