-- ===== src/Quic/Server/Retry/Tests.antt =====
-- A listener with the crate's own validator, at concrete inputs: all peers have one address.
use zorya_rs.Base.{
  ℕ, ◌≡◌, refl, true, false, List, [], ◌∷◌, ◌++◌, some, arith, length, done, panic, ℕ_discrete,
}
use zorya_rs.Base.Maps.{bytes_key, lookup, insert, remove, bytes_discrete}
use zorya_rs.Io.{ok}
use zorya_rs.Quic.Conn.{new}
use zorya_rs.Quic.Conn.Tests.{echo}
use zorya_rs.Quic.Validator.{IpAddr, octets, mint_retry_token, validate_address}
use zorya_rs.Quic.Validator.Bytes.{to_be_bytes, from_be_bytes, length-to_be_bytes}
use zorya_rs.Quic.Validator.Tests.{digest, digest_length, hundred, localhost, minted_at}
use zorya_rs.Quic.Server.{
  Header, Datagram, QuicListenerDriver, TrySend, add_conn, first_recv, accept_conn, validated,
  initial_token, initial, routed, parsed, turn, started,
}
use zorya_rs.Quic.Server.Tests.{world, header_of, two_places}
use zorya_rs.Quic.Server.Simple.{asks, world_at, verdict_at, judged, turn_at}
use zorya_rs.Quic.Server.Tokens.{LetIn, turn_at_admits, future_token_stops}
use zorya_rs.Quic.Server.Retry.{IsInitial, token_of, retry_lets_in}

abbrev ip : ℕ → IpAddr
ip from = localhost

abbrev given_9 : List ℕ → Datagram
given_9 buf = record {
  buf = buf;
  recv_info = record { from = 7; to = 0 };
  random_conn_id = 9 ∷ [];
  sending_fails = false;
  incoming = TrySend.queued;
}

abbrev header_with : ℕ → List ℕ → Header
header_with id token = record {
  version = 1;
  is_initial = true;
  scid = 1 ∷ [];
  dcid = id ∷ [];
  token = token;
}

-- The first packet is for the id 5.
abbrev minted : List ℕ
minted = token_of digest digest_length world ip hundred minted_at (header_with 5 []) (given_9 [])

abbrev second : Datagram
second = given_9 (9 ∷ minted)

first-IsInitial : IsInitial world (given_9 (5 ∷ [])) two_places (header_with 5 [])
unfolding world header_of two_places started lookup
first-IsInitial = record { read = refl; fresh = refl; initial = refl; supported = refl }

second-IsInitial : IsInitial world second two_places (header_with 9 minted)
unfolding world header_of two_places started lookup
second-IsInitial = record { read = refl; fresh = refl; initial = refl; supported = refl }

abbrev after_retry : QuicListenerDriver echo
after_retry = record two_places { sent = minted ∷ two_places.sent }

conn : echo.Connection
unfolding echo
conn = 9 ∷ minted

retry_lets_in_example :
    (turn_at world digest ip hundred minted_at (given_9 (5 ∷ [])) two_places
      ≡ done (ok tt, after_retry))
    × (l'' : QuicListenerDriver echo) × (turn_at world digest ip hundred minted_at second two_places
        ≡ done (ok tt, l''))
    × (lookup (9 ∷ []) l''.quiche_conn_set ≡ some (new echo conn))
unfolding world conn echo two_places started hundred
retry_lets_in_example =
    retry_lets_in digest digest_length world ip hundred minted_at minted_at (given_9 (5 ∷ []))
      second two_places two_places (header_with 5 []) (header_with 9 minted) minted [] conn
      (length (9 ∷ minted)) first-IsInitial refl refl refl second-IsInitial
      (record { token = refl; dcid = refl; from = refl }) (omega arith) (omega arith) (omega arith)
      refl refl (omega arith)

let_in : QuicListenerDriver echo
unfolding conn add_conn
let_in = add_conn world (header_with 9 minted) conn two_places

second_runs : turn_at world digest ip hundred minted_at second two_places ≡ done (ok tt, let_in)
unfolding let_in conn world echo header_of two_places started hundred digest turn_at judged asks
    verdict_at world_at mint_retry_token validate_address to_be_bytes from_be_bytes bytes_discrete
    ℕ_discrete lookup insert remove turn parsed routed initial initial_token validated accept_conn
    first_recv add_conn new
second_runs = refl

turn_at_admits_example :
    LetIn digest digest_length world ip hundred minted_at second two_places (9 ∷ [])
unfolding let_in conn world echo two_places started lookup insert remove add_conn new bytes_discrete
    ℕ_discrete
turn_at_admits_example =
    turn_at_admits digest digest_length world ip hundred minted_at second two_places let_in (9 ∷ [])
      (ok tt) second_runs refl refl

-- A time stamp one second ahead, and zeros in the place of a hash.
abbrev forged : List ℕ
forged = octets localhost ++ (to_be_bytes 8 1_700_000_001 ++ to_be_bytes 32 0)

future_token_stops_example :
    turn_at world digest ip hundred minted_at (given_9 (9 ∷ forged)) two_places ≡ panic
unfolding world echo header_of two_places started asks lookup to_be_bytes octets
future_token_stops_example =
    future_token_stops digest digest_length world ip hundred minted_at 1_700_000_001
      (given_9 (9 ∷ forged)) two_places (header_with 9 forged) (to_be_bytes 32 0) refl refl refl
      (omega arith) (omega arith) (omega (arith, length-to_be_bytes 32 0))
