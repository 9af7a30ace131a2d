-- ===== src/Quic/Server/Tests.antt =====
-- The driver of a listener at concrete inputs.
use zorya_rs.Base.{ℕ, true, false, List, [], ◌∷◌, Option, none, some, arith}
use zorya_rs.Base.Maps.{lookup, bytes_discrete}
use zorya_rs.Quic.Conn.{new}
use zorya_rs.Quic.Conn.Tests.{echo}
use zorya_rs.Quic.Server.{Header, TrySend, World, Datagram, QuicListenerDriver, started, turn}
use zorya_rs.Quic.Server.Driver.{Event, run}
use zorya_rs.Quic.Server.Driver.Bounds.{IsBounded, run-IsBounded}
use zorya_rs.Quic.Server.Delivery.{Delivery, turn-Delivery}

unfoldable pub header_of : List ℕ → Option Header
header_of [] = none
header_of (id ∷ token) =
    some (record { version = 1; is_initial = true; scid = 1 ∷ []; dcid = id ∷ []; token = token })

-- A datagram is the id of its connection and a token; a token is good if it is the sender's address.
unfoldable pub world : World echo
unfolding header_of echo
world = record {
  from_slice = header_of;
  version_is_supported = λ v. true;
  validate_address = λ scid dcid from token. if_same (bytes_discrete token (from ∷ []));
  mint_retry_token = λ scid dcid new_scid from. some (from ∷ []);
  retry_packet = λ header new_scid token. some token;
  version_packet = λ header. some [];
  accept = λ dcid odcid info. some [];
  has_peer_cert = λ c. true;
}
  where
    if_same : {P : Type 0} → Dec P → Option (List ℕ)
    if_same (yes _) = some []
    if_same (no _) = none

abbrev pub from_7 : List ℕ → Datagram
from_7 buf = record {
  buf = buf;
  recv_info = record { from = 7; to = 0 };
  random_conn_id = [];
  sending_fails = false;
  incoming = TrySend.queued;
}

unfoldable pub two_places : QuicListenerDriver echo
unfolding started
two_places = started echo 2 false

abbrev events : List Event
events = Event.datagram (from_7 (9 ∷ 7 ∷ [])) ∷ Event.ended (9 ∷ []) ∷ []

two_places-IsBounded : IsBounded world two_places
unfolding two_places started lookup
two_places-IsBounded = record { size = omega arith; handshaking = λ id e. ground (arith, e) }

run-IsBounded_example : IsBounded world (run world events two_places).1
run-IsBounded_example = run-IsBounded world events two_places two_places-IsBounded

-- The connection 9 is in its handshake, which the datagram ends.
nearly_done : QuicListenerDriver echo
unfolding two_places echo new
nearly_done = record two_places {
  quiche_conn_set = (9 ∷ [], new echo []) ∷ [];
  handshaking_conn_set = (9 ∷ [], tt) ∷ [];
}

turn-Delivery_example : Delivery world nearly_done (turn world (from_7 (9 ∷ [])) nearly_done).1
turn-Delivery_example = turn-Delivery world (from_7 (9 ∷ [])) nearly_done
