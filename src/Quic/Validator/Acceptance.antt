-- ===== src/Quic/Validator/Acceptance.antt =====
-- crates/quic/src/validator.rs, `validate_address`: a minted token is accepted while it is fresh, from
-- its address and for its new id; and what is refused or panics.
use zorya_rs.Base.Maps.{bytes_discrete}
use zorya_rs.Base.{
  ℕ, ◌-◌, ◌*◌, ◌/◌, ◌≤◌, ◌<◌, ◌≡◌, ◌≢◌, ◌∙◌, ap, List, ◌++◌, Option, none, some, arith, length,
  take, drop, ltb, if◌then◌else◌, Outcome, done, panic, length-append, append_assoc,
  take-append_length, u64_mod, lt→ltb,
}
use mathlib.Core.Logic.{ite}
use zorya_rs.Quic.Validator.{
  IpAddr, v4, v6, octets, SimpleAddressValidator, nanos_per_sec, mint_retry_token, validate_address,
  check_hash, check_time,
}
use zorya_rs.Quic.Validator.Bytes.{to_be_bytes, from_be_bytes, length-to_be_bytes}
use zorya_rs.Quic.Validator.Tokens.{
  body_of, signed, body-signed, hash-signed, id-body_of, time-body_of, validate_in_time,
}

-- SHA-256 gives 32 bytes.
module _ (sha256 : List ℕ → List ℕ) (sha256_length : (m : List ℕ) → length (sha256 m) ≡ 32) where
  -- A token whose address matches and whose time stamp lies in the future panics the server, before
  -- its hash is looked at: any 32 bytes or more may follow the time stamp.
  pub future_timestamp_panics :
      (v : SimpleAddressValidator) (scid dcid : List ℕ) (src : IpAddr) (timestamp now : ℕ)
      (rest : List ℕ)
      → timestamp < u64_mod
      → now < timestamp * nanos_per_sec
      → 32 ≤ length rest
      → validate_address sha256 v scid dcid src
          (octets src ++ (to_be_bytes 8 timestamp ++ rest))
          now
        ≡ panic
  unfolding check_time
  future_timestamp_panics v scid dcid src timestamp now rest range future long =
      validate_in_time sha256 sha256_length v scid dcid src (to_be_bytes 8 timestamp ++ rest) now (
        omega (arith, length-append (to_be_bytes 8 timestamp) rest, length-to_be_bytes 8 timestamp))
      ∙ rw (
        time-body_of sha256 sha256_length (octets src) timestamp rest range,
        lt→ltb now (timestamp * nanos_per_sec) future,
      )

  -- Where the address of a request is of the same length as that of a token but another, the token is
  -- refused, whatever follows the address.
  pub other_address_refused :
      (v : SimpleAddressValidator) (scid dcid : List ℕ) (src : IpAddr) (addr rest : List ℕ)
      (now : ℕ)
      → length (octets src) ≡ length addr
      → octets src ≢ addr
      → validate_address sha256 v scid dcid src (addr ++ rest) now ≡ done none
  unfolding validate_address
  other_address_refused v scid dcid src addr rest now same other =
      ground (arith, take-append_length addr rest (length (octets src)) same)

  -- The id in a signed token, if the hash for this id is the one it was signed with.
  abbrev pub id_if_signed :
      SimpleAddressValidator → List ℕ → List ℕ → (new_scid dcid : List ℕ) → Option (List ℕ)
  id_if_signed v body odcid new_scid dcid =
      ite
        (bytes_discrete (sha256 (v.seed ++ (body ++ new_scid))) (sha256 (v.seed ++ (body ++ dcid))))
        (some odcid) none

  check_hash-signed :
      (v : SimpleAddressValidator) (addr odcid new_scid dcid : List ℕ) (t : ℕ)
      → let body = body_of addr t odcid in
        check_hash sha256 v dcid addr (signed sha256 sha256_length v body new_scid)
        ≡ id_if_signed v body odcid new_scid dcid
  unfolding check_hash
  check_hash-signed v addr odcid new_scid dcid t =
      let body = body_of addr t odcid in
      rw (
        body-signed sha256 sha256_length v body new_scid,
        hash-signed sha256 sha256_length v body new_scid,
        id-body_of sha256 sha256_length addr t odcid,
      )

  split_signed :
      (addr odcid hash : List ℕ) (t : ℕ)
      → body_of addr t odcid ++ hash ≡ addr ++ (to_be_bytes 8 t ++ (odcid ++ hash))
  split_signed addr odcid hash t =
      append_assoc addr (to_be_bytes 8 t ++ odcid) hash
      ∙ ap (◌++◌ addr) (append_assoc (to_be_bytes 8 t) odcid hash)

  time-signed :
      (addr odcid hash : List ℕ) (t : ℕ)
      → t < u64_mod
      → from_be_bytes 0 (take 8 (drop (length addr) (body_of addr t odcid ++ hash))) ≡ t
  time-signed addr odcid hash t h =
      rw (split_signed addr odcid hash t)
        (time-body_of sha256 sha256_length addr t (odcid ++ hash) h)

  -- What `validate_address` makes of a signed token that comes from its address.
  abbrev verdict :
      SimpleAddressValidator
      → List ℕ
      → ℕ
      → List ℕ
      → (new_scid dcid : List ℕ) → ℕ
      → Outcome (Option (List ℕ))
  verdict v addr t odcid new_scid dcid now =
      if ltb now (t * nanos_per_sec)
      then panic
      else if ltb v.expiration_interval (now - t * nanos_per_sec)
      then done none
      else done (id_if_signed v (body_of addr t odcid) odcid new_scid dcid)

  reaches_check_time :
      (v : SimpleAddressValidator) (odcid new_scid scid dcid : List ℕ) (src : IpAddr) (t now : ℕ)
      → let token = signed sha256 sha256_length v (body_of (octets src) t odcid) new_scid in
        validate_address sha256 v scid dcid src token now
        ≡ check_time sha256 v dcid (octets src) token now
  reaches_check_time v odcid new_scid scid dcid src t now =
      let hash = sha256 (v.seed ++ (body_of (octets src) t odcid ++ new_scid)) in
      rw (split_signed (octets src) odcid hash t) (
        validate_in_time sha256 sha256_length v scid dcid src (to_be_bytes 8 t ++ (odcid ++ hash))
          now
          (omega (
            arith,
            length-append (to_be_bytes 8 t) (odcid ++ hash),
            length-append odcid hash,
            length-to_be_bytes 8 t,
            sha256_length (v.seed ++ (body_of (octets src) t odcid ++ new_scid)),
          )))

  pub validate-signed :
      (v : SimpleAddressValidator) (odcid new_scid scid dcid : List ℕ) (src : IpAddr) (t now : ℕ)
      → t < u64_mod
      → validate_address sha256 v scid dcid src
          (signed sha256 sha256_length v (body_of (octets src) t odcid) new_scid)
          now
        ≡ verdict v (octets src) t odcid new_scid dcid now
  unfolding check_time
  validate-signed v odcid new_scid scid dcid src t now range =
      reaches_check_time v odcid new_scid scid dcid src t now
      ∙ rw (
        time-signed (octets src) odcid
            (sha256 (v.seed ++ (body_of (octets src) t odcid ++ new_scid))) t range,
        check_hash-signed v (octets src) odcid new_scid dcid t,
      )

  -- What `validate_address` makes of a minted token that comes back from its address, at any time and
  -- for any destination id: a panic before the second in which it was minted, nothing once it has
  -- expired, and otherwise the original id if the hash for the destination id is the hash in the token.
  pub validate-mint_cases :
      (v : SimpleAddressValidator) (scid dcid new_scid scid' dcid' : List ℕ) (src : IpAddr)
      (minted now : ℕ)
      → minted / nanos_per_sec < u64_mod
      → let t = minted / nanos_per_sec in
        validate_address sha256 v scid' dcid' src
          (mint_retry_token sha256 v scid dcid new_scid src minted)
          now
        ≡ (if ltb now (t * nanos_per_sec)
            then panic
            else if ltb v.expiration_interval (now - t * nanos_per_sec)
            then done none
            else done (id_if_signed v (body_of (octets src) t dcid) dcid new_scid dcid'))
  unfolding mint_retry_token
  validate-mint_cases v scid dcid new_scid scid' dcid' src minted now range =
      validate-signed v dcid new_scid scid' dcid' src (minted / nanos_per_sec) now range

  -- A token is good for its address and its new id until it expires.
  pub validate-mint :
      (v : SimpleAddressValidator) (scid dcid new_scid scid' : List ℕ) (src : IpAddr)
      (minted now : ℕ)
      → minted / nanos_per_sec < u64_mod
      → minted ≤ now
      → now - minted / nanos_per_sec * nanos_per_sec ≤ v.expiration_interval
      → validate_address sha256 v scid' new_scid src
          (mint_retry_token sha256 v scid dcid new_scid src minted)
          now
        ≡ done (some dcid)
  validate-mint v scid dcid new_scid scid' src minted now range order fresh =
      validate-mint_cases v scid dcid new_scid scid' new_scid src minted now range ∙ ground arith

  -- A token names its address without its family. One that was minted for an IPv4 address is also
  -- accepted from an IPv6 address: the one whose octets are those of the IPv4 address, the time stamp
  -- of the token and the first four bytes of the original id. The next eight bytes of that id, which
  -- the client chose, are then read as the time stamp, and the rest of it is returned as the id.
  pub family_confusion :
      (v : SimpleAddressValidator) (scid new_scid scid' ip prefix rest : List ℕ) (minted t now : ℕ)
      → t < u64_mod
      → t * nanos_per_sec ≤ now
      → now - t * nanos_per_sec ≤ v.expiration_interval
      → validate_address sha256 v scid' new_scid
          (v6 (ip ++ (to_be_bytes 8 (minted / nanos_per_sec) ++ prefix)))
          (mint_retry_token sha256 v scid
            (prefix ++ (to_be_bytes 8 t ++ rest))
            new_scid
            (v4 ip)
            minted)
          now
        ≡ done (some rest)
  unfolding mint_retry_token octets
  family_confusion v scid new_scid scid' ip prefix rest minted t now range past fresh =
      let stamp = to_be_bytes 8 (minted / nanos_per_sec) in
      let same : ip ++ (stamp ++ (prefix ++ (to_be_bytes 8 t ++ rest)))
          ≡ (ip ++ (stamp ++ prefix)) ++ (to_be_bytes 8 t ++ rest) =
        simp append_assoc in
      rw same (
        validate-signed v rest new_scid scid' new_scid (v6 (ip ++ (stamp ++ prefix))) t now range
        ∙ ground arith)
