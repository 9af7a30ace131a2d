-- ===== src/Quic/Validator/Tokens.antt =====
-- crates/quic/src/validator.rs: what a minted token is, and which tokens are accepted.
use zorya_rs.Base.{
  ℕ, ◌+◌, ◌-◌, ◌≤◌, ◌<◌, ◌≡◌, refl, sym, List, ◌++◌, arith, length, take, drop, length-append,
  append_assoc, take-append_length, drop-append_length, u64_mod,
}
use zorya_rs.Quic.Validator.{IpAddr, octets, SimpleAddressValidator, validate_address, check_time}
use zorya_rs.Quic.Validator.Bytes.{
  to_be_bytes, from_be_bytes, length-to_be_bytes, from_be_bytes-to_be_bytes,
}

-- The bytes before the hash: the address, the time in seconds and the original id.
abbrev pub body_of : List ℕ → ℕ → List ℕ → List ℕ
body_of addr timestamp odcid = addr ++ (to_be_bytes 8 timestamp ++ odcid)

-- SHA-256 gives 32 bytes.
module _ (sha256 : List ℕ → List ℕ) (sha256_length : (m : List ℕ) → length (sha256 m) ≡ 32) where
  abbrev pub signed : SimpleAddressValidator → List ℕ → List ℕ → List ℕ
  signed v body dcid = body ++ sha256 (v.seed ++ (body ++ dcid))

  pub length-signed :
      (v : SimpleAddressValidator) (body dcid : List ℕ)
      → length (signed v body dcid) ≡ length body + 32
  length-signed v body dcid = omega (
    arith,
    length-append body (sha256 (v.seed ++ (body ++ dcid))),
    sha256_length (v.seed ++ (body ++ dcid)),
  )

  pub length-body_of :
      (addr : List ℕ) (t : ℕ) (odcid : List ℕ)
      → length (body_of addr t odcid) ≡ length addr + 8 + length odcid
  length-body_of addr t odcid = omega (
    arith,
    length-append addr (to_be_bytes 8 t ++ odcid),
    length-append (to_be_bytes 8 t) odcid,
    length-to_be_bytes 8 t,
  )

  pub body-signed :
      (v : SimpleAddressValidator) (body dcid : List ℕ)
      → take (length (signed v body dcid) - 32) (signed v body dcid) ≡ body
  body-signed v body dcid = take-append_length body _ _ (omega (arith, length-signed v body dcid))

  pub hash-signed :
      (v : SimpleAddressValidator) (body dcid : List ℕ)
      → drop (length (signed v body dcid) - 32) (signed v body dcid)
        ≡ sha256 (v.seed ++ (body ++ dcid))
  hash-signed v body dcid = drop-append_length body _ _ (omega (arith, length-signed v body dcid))

  pub id-body_of :
      (addr : List ℕ) (t : ℕ) (odcid : List ℕ)
      → drop (length addr + 8) (body_of addr t odcid) ≡ odcid
  id-body_of addr t odcid = rw (← append_assoc addr (to_be_bytes 8 t) odcid) (
      drop-append_length (addr ++ to_be_bytes 8 t) odcid _
        (omega (arith, length-append addr (to_be_bytes 8 t), length-to_be_bytes 8 t)))

  pub time-body_of :
      (addr : List ℕ) (t : ℕ) (rest : List ℕ)
      → t < u64_mod
      → from_be_bytes 0 (take 8 (drop (length addr) (addr ++ (to_be_bytes 8 t ++ rest)))) ≡ t
  time-body_of addr t rest h =
      rw
        (
          drop-append_length addr (to_be_bytes 8 t ++ rest) (length addr) refl,
          take-append_length (to_be_bytes 8 t) rest 8 (sym (length-to_be_bytes 8 t)),
        )
        (from_be_bytes-to_be_bytes 8 t h)

  -- The three checks that come before the time stamp is read.
  pub validate_in_time :
      (v : SimpleAddressValidator) (scid dcid : List ℕ) (src : IpAddr) (rest : List ℕ) (now : ℕ)
      → 40 ≤ length rest
      → let token = octets src ++ rest in
        validate_address sha256 v scid dcid src token now
        ≡ check_time sha256 v dcid (octets src) token now
  unfolding validate_address
  validate_in_time v scid dcid src rest now h = ground (
    arith,
    length-append (octets src) rest,
    take-append_length (octets src) rest (length (octets src)) refl,
  )
