-- ===== src/Quic/Validator.antt =====
-- crates/quic/src/validator.rs: `SimpleAddressValidator`, which mints and checks retry tokens. Bytes
-- are numbers, the SHA-256 of the `boring` crate is a parameter, and the wall clock an argument, in
-- nanoseconds since the epoch.
pub mod Bytes
pub mod Tokens
pub mod Acceptance
pub mod Soundness
pub mod Tests
use Bytes.{to_be_bytes, from_be_bytes}
use zorya_rs.Base.Maps.{bytes_discrete}
use mathlib.Core.Logic.{ite}
use zorya_rs.Base.{
  ℕ, ◌+◌, ◌-◌, ◌*◌, ◌/◌, List, ◌++◌, Option, none, some, length, take, drop, ltb, if◌then◌else◌,
  Outcome, done, panic,
}

pub data IpAddr : Type 0 where
  v4 : List ℕ → IpAddr
  v6 : List ℕ → IpAddr

-- `octets()` of either kind
unfoldable pub octets : IpAddr → List ℕ
octets (v4 bytes) = bytes
octets (v6 bytes) = bytes

-- The seed, and the expiration interval in nanoseconds.
pub record SimpleAddressValidator : Type 0 where
  pub seed : List ℕ
  pub expiration_interval : ℕ

abbrev pub nanos_per_sec : ℕ
nanos_per_sec = 1_000_000_000

module _ (sha256 : List ℕ → List ℕ) where
  -- `mint_retry_token`; its first and last arguments but the address are not read.
  unfoldable pub mint_retry_token :
      SimpleAddressValidator → (scid dcid new_scid : List ℕ) → IpAddr → (now : ℕ) → List ℕ
  unfolding octets
  mint_retry_token v scid dcid new_scid src now =
      let timestamp = now / nanos_per_sec in
      let token = octets src ++ (to_be_bytes 8 timestamp ++ dcid) in
      token ++ sha256 (v.seed ++ (token ++ new_scid))

  pub check_hash : SimpleAddressValidator → (dcid addr token : List ℕ) → Option (List ℕ)
  check_hash v dcid addr token =
      let body = take (length token - 32) token in
      ite (bytes_discrete (drop (length token - 32) token) (sha256 (v.seed ++ (body ++ dcid))))
        (some (drop (length addr + 8) body)) none

  pub check_time :
      SimpleAddressValidator → (dcid addr token : List ℕ) → ℕ → Outcome (Option (List ℕ))
  unfolding check_hash
  check_time v dcid addr token now =
      let timestamp = from_be_bytes 0 (take 8 (drop (length addr) token)) * nanos_per_sec in
      if ltb now timestamp
      then panic
      else if ltb v.expiration_interval (now - timestamp)
      then done none
      else done (check_hash v dcid addr token)

  -- `validate_address`: the original destination id, if the token is good. The subtraction of a
  -- later timestamp from the present panics.
  unfoldable pub validate_address :
      SimpleAddressValidator
      → (scid dcid : List ℕ) → IpAddr
      → (token : List ℕ) → (now : ℕ) → Outcome (Option (List ℕ))
  unfolding octets check_time
  validate_address v scid dcid src token now =
      let addr = octets src in
      if ltb (length token) (length addr + 40)
      then done none
      else ite (bytes_discrete addr (take (length addr) token)) (check_time v dcid addr token now)
          (done none)
