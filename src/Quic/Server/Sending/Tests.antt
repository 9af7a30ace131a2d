-- ===== src/Quic/Server/Sending/Tests.antt =====
-- The sending task of a server's connection at concrete inputs.
use mathlib.Core.Logic.{ite}
use zorya_rs.Base.{
  suc, ◌≤◌, ◌≡◌, refl, true, false, [], ◌∷◌, none, some, arith, done, ltb, ℕ_discrete,
}
use zorya_rs.Base.Maps.{Key, lookup, bytes_key, bytes_discrete}
use zorya_rs.Io.{ErrorKind, err}
use zorya_rs.Io.Reactor.{ReactorImpl, impl_new}
use zorya_rs.Io.Reactor.Calls.{acts}
use zorya_rs.Quic.Quiche.{Quiche}
use zorya_rs.Quic.Conn.{QuicConnState, new}
use zorya_rs.Quic.Conn.Send.{Gaps, take_timer}
use zorya_rs.Quic.Conn.Accepts.{run}
use zorya_rs.Quic.Conn.Await.{SendPoll, Loop}
use zorya_rs.Quic.Conn.Tests.{echo}
use zorya_rs.Quic.Server.{World, QuicListenerDriver}
use zorya_rs.Quic.Server.Driver.Bounds.{IsBounded}
use zorya_rs.Quic.Server.Tests.{world}
use zorya_rs.Quic.Server.Listener.{active_conns}
use zorya_rs.Quic.Server.Sending.{
  FindsClosed, finalized, conn_send_loop, task_ended, closed_conn_leaves,
}

-- Connections that quiche has closed.
unfoldable pub shut_quiche : Quiche
unfolding echo
shut_quiche = record echo { is_closed = λ c. true }

shut_world : World shut_quiche
unfolding world echo shut_quiche
shut_world = record {
  from_slice = world.from_slice;
  version_is_supported = world.version_is_supported;
  validate_address = world.validate_address;
  mint_retry_token = world.mint_retry_token;
  retry_packet = world.retry_packet;
  version_packet = world.version_packet;
  accept = world.accept;
  has_peer_cert = world.has_peer_cert;
}

no_data : shut_quiche.Connection
unfolding shut_quiche echo
no_data = []

abbrev over : QuicConnState shut_quiche
over = new shut_quiche no_data

-- The place of the connection 9 is the only one.
abbrev one_place : QuicListenerDriver shut_quiche
one_place = record {
  quiche_conn_set = (9 ∷ [], over) ∷ [];
  handshaking_conn_set = [];
  max_active_conn_size = 1;
  verify_peer = false;
  accepted = [];
  sent = [];
}

one_place-IsBounded : IsBounded shut_world one_place
unfolding lookup
one_place-IsBounded = record { size = omega arith; handshaking = λ id e. ground (arith, e) }

abbrev no_gaps : Gaps
no_gaps = record { before = []; after = [] }

abbrev last_poll : SendPoll
last_poll = record { before = []; calls = []; cx = 1; gaps = no_gaps; rest = no_gaps ∷ [] }

abbrev some_reactor : ReactorImpl
some_reactor = impl_new 0 20_000_000

last_poll-FindsClosed :
    FindsClosed last_poll no_gaps [] over some_reactor some_reactor some_reactor over no_data
unfolding shut_quiche echo new acts run take_timer
last_poll-FindsClosed = record {
  acted = refl;
  turned = refl;
  timer = refl;
  nothing = refl;
  is_closed = refl;
}

closed_conn_leaves_example :
    let end : Loop shut_quiche =
      (some (err ErrorKind.broken_pipe), finalized over no_data, some_reactor) in
    let l' = task_ended shut_world (9 ∷ []) end one_place in
    (conn_send_loop [] (record { sends = last_poll ∷ []; writes = [] } ∷ []) over some_reactor
      ≡ done end)
    × (lookup (9 ∷ []) l'.quiche_conn_set ≡ none)
    × (lookup (9 ∷ []) l'.handshaking_conn_set ≡ none)
    × (suc (active_conns l') ≤ active_conns one_place)
    × (ltb (active_conns l') l'.max_active_conn_size ≡ true)
    × (lookup (8 ∷ []) l'.quiche_conn_set
        ≡ ite
            (Key.dec bytes_key (9 ∷ []) (8 ∷ []))
            none
            (lookup (8 ∷ []) one_place.quiche_conn_set))
    × IsBounded shut_world l'
unfolding lookup bytes_discrete ℕ_discrete
closed_conn_leaves_example =
    closed_conn_leaves shut_world (9 ∷ []) (8 ∷ []) [] last_poll no_gaps [] over over some_reactor
      some_reactor some_reactor no_data [] [] [] one_place last_poll-FindsClosed one_place-IsBounded
      refl
