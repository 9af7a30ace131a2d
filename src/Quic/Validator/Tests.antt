-- ===== src/Quic/Validator/Tests.antt =====
-- Retry tokens at concrete inputs, with a function of the length in the place of SHA-256.
use zorya_rs.Base.{
  ℕ, ◌+◌, ◌-◌, ◌*◌, ◌/◌, ◌≤◌, ◌≡◌, refl, List, [], ◌∷◌, ◌++◌, some, none, arith, length, done,
  ℕ_discrete,
}
use zorya_rs.Quic.Validator.{
  SimpleAddressValidator, IpAddr, v4, v6, octets, nanos_per_sec, mint_retry_token, validate_address,
}
use zorya_rs.Quic.Validator.Bytes.{to_be_bytes, from_be_bytes, length-to_be_bytes}
use zorya_rs.Base.Maps.{bytes_discrete}
use zorya_rs.Quic.Validator.Tokens.{signed}
use zorya_rs.Quic.Validator.Acceptance.{validate-mint, family_confusion}
use zorya_rs.Quic.Validator.Soundness.{validate_sound}

unfoldable pub digest : List ℕ → List ℕ
digest m = to_be_bytes 32 (length m)

pub digest_length : (m : List ℕ) → length (digest m) ≡ 32
unfolding digest
digest_length m = length-to_be_bytes 32 (length m)

-- Tokens are good for 100 seconds.
unfoldable pub hundred : SimpleAddressValidator
hundred = record { seed = 1 ∷ 2 ∷ []; expiration_interval = 100_000_000_000 }

abbrev pub localhost : IpAddr
localhost = v4 (127 ∷ 0 ∷ 0 ∷ 1 ∷ [])

abbrev pub minted_at : ℕ
minted_at = 1_700_000_000_500_000_000

token : List ℕ
unfolding mint_retry_token digest hundred
token = mint_retry_token digest hundred [] (5 ∷ 6 ∷ []) (9 ∷ []) localhost minted_at

accepted :
    validate_address digest hundred [] (9 ∷ []) localhost token minted_at ≡ done (some (5 ∷ 6 ∷ []))
unfolding validate_address token to_be_bytes from_be_bytes bytes_discrete ℕ_discrete
accepted = refl

expired :
    validate_address digest hundred [] (9 ∷ []) localhost token (minted_at + 101_000_000_000)
    ≡ done none
unfolding validate_address token to_be_bytes from_be_bytes bytes_discrete ℕ_discrete
expired = refl

validate-mint_example :
    validate_address digest hundred []
      (9 ∷ [])
      localhost
      (mint_retry_token digest hundred [] (5 ∷ 6 ∷ []) (9 ∷ []) localhost minted_at)
      minted_at
    ≡ done (some (5 ∷ 6 ∷ []))
unfolding hundred
validate-mint_example =
    validate-mint digest digest_length hundred [] (5 ∷ 6 ∷ []) (9 ∷ []) [] localhost minted_at
      minted_at (omega arith) (omega arith) (omega arith)

validate_sound_example :
    (stamp : List ℕ) × (length stamp ≡ 8)
    × (token
        ≡ signed digest digest_length hundred (octets localhost ++ (stamp ++ 5 ∷ 6 ∷ [])) (9 ∷ []))
    × (from_be_bytes 0 stamp * nanos_per_sec ≤ minted_at)
    × (minted_at - from_be_bytes 0 stamp * nanos_per_sec ≤ hundred.expiration_interval)
validate_sound_example =
    validate_sound digest digest_length hundred [] (9 ∷ []) localhost token minted_at (5 ∷ 6 ∷ [])
      accepted

family_confusion_example :
    validate_address digest hundred []
      (9 ∷ [])
      (v6 (
        (127 ∷ 0 ∷ 0 ∷ 1 ∷ [])
        ++ (to_be_bytes 8 (minted_at / nanos_per_sec) ++ 1 ∷ 2 ∷ 3 ∷ 4 ∷ [])))
      (mint_retry_token digest hundred []
        ((1 ∷ 2 ∷ 3 ∷ 4 ∷ []) ++ (to_be_bytes 8 1_700_000_000 ++ 77 ∷ []))
        (9 ∷ [])
        (v4 (127 ∷ 0 ∷ 0 ∷ 1 ∷ []))
        minted_at)
      minted_at
    ≡ done (some (77 ∷ []))
unfolding hundred
family_confusion_example =
    family_confusion digest digest_length hundred [] (9 ∷ []) [] (127 ∷ 0 ∷ 0 ∷ 1 ∷ [])
      (1 ∷ 2 ∷ 3 ∷ 4 ∷ []) (77 ∷ []) minted_at 1_700_000_000 minted_at (omega arith) (omega arith)
      (omega arith)
