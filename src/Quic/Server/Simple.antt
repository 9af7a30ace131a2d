-- ===== src/Quic/Server/Simple.antt =====
-- crates/quic/src/server.rs with the validator of crates/quic/src/validator.rs: a turn of the loop of
-- `run` at an instant of the wall clock. `ip` is `SocketAddr::ip`. The validator panics on some tokens, and a panic
-- ends the task of the driver.
use zorya_rs.Base.{
  ℕ, Bool, true, false, not, ◌&&◌, List, [], ◌∷◌, Option, none, some, if◌then◌else◌, is_some,
  Outcome, done, ◌>>=◌,
}
use zorya_rs.Base.Maps.{bytes_key, lookup}
use zorya_rs.Io.{IoResult}
use zorya_rs.Quic.Quiche.{Quiche}
use zorya_rs.Quic.Validator.{IpAddr, SimpleAddressValidator, mint_retry_token, validate_address}
use zorya_rs.Quic.Server.{Header, World, Datagram, QuicListenerDriver, turn}

-- `!token.is_empty()`
abbrev pub has_bytes : List ℕ → Bool
has_bytes [] = false
has_bytes (b ∷ token) = true

module _ {Q : Quiche} (W : World Q) where
  -- Whether a turn asks the validator for its verdict on the token of the header.
  unfoldable pub asks : Header → QuicListenerDriver Q → Bool
  unfolding lookup
  asks header l =
      not (is_some (lookup header.dcid l.quiche_conn_set))
      && (header.is_initial && (W.version_is_supported header.version && has_bytes header.token))

  module _ (sha256 : List ℕ → List ℕ) (ip : ℕ → IpAddr) (v : SimpleAddressValidator) where
    -- What a turn calls at the instant `now`, if the validator's verdict is `verdict`.
    unfoldable pub world_at : ℕ → Option (List ℕ) → World Q
    unfolding mint_retry_token
    world_at now verdict = record W {
      validate_address = λ scid dcid from token. verdict;
      mint_retry_token = λ scid dcid new_scid from.
          some (mint_retry_token sha256 v scid dcid new_scid (ip from) now);
    }

    -- The verdict, or a panic.
    unfoldable pub verdict_at : ℕ → Header → Datagram → Outcome (Option (List ℕ))
    unfolding validate_address
    verdict_at now header d =
        validate_address sha256 v header.scid header.dcid (ip d.recv_info.from) header.token now

    abbrev pub TurnAt : Type 0
    TurnAt = Outcome (IoResult (Unit {0}) × QuicListenerDriver Q)

    unfoldable pub judged : ℕ → Datagram → Option Header → QuicListenerDriver Q → TurnAt
    unfolding asks world_at verdict_at turn
    judged now d none l = done (turn (world_at now none) d l)
    judged now d (some header) l =
        if asks header l
        then verdict_at now header d >>= (λ verdict. done (turn (world_at now verdict) d l))
        else done (turn (world_at now none) d l)

    -- A turn of the loop of `run`, with `SimpleAddressValidator`.
    unfoldable pub turn_at : ℕ → Datagram → QuicListenerDriver Q → TurnAt
    unfolding judged
    turn_at now d l = judged now d (W.from_slice d.buf) l
