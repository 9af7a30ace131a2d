-- ===== src/Quic/Validator/Soundness.antt =====
-- crates/quic/src/validator.rs, `validate_address`: what is accepted was signed.
use zorya_rs.Base.{
  ℕ, ◌+◌, ◌-◌, ◌*◌, ◌≤◌, ◌≡◌, refl, ◌∙◌, sym, ap, List, ◌++◌, some, arith, length, take, drop, done,
  take-append-drop, length-take_le, length-drop, drop-drop, take-append_le, drop-append_le,
}
use zorya_rs.Quic.Validator.{
  IpAddr, octets, SimpleAddressValidator, nanos_per_sec, validate_address, check_hash, check_time,
}
use zorya_rs.Quic.Validator.Bytes.{from_be_bytes}
use zorya_rs.Quic.Validator.Tokens.{signed}

-- SHA-256 gives 32 bytes.
module _ (sha256 : List ℕ → List ℕ) (sha256_length : (m : List ℕ) → length (sha256 m) ≡ 32) where
  check_hash-some :
      (v : SimpleAddressValidator) (dcid addr token odcid : List ℕ)
      → check_hash sha256 v dcid addr token ≡ some odcid
      → (drop (length token - 32) token
          ≡ sha256 (v.seed ++ (take (length token - 32) token ++ dcid)))
        × (odcid ≡ drop (length addr + 8) (take (length token - 32) token))
  unfolding check_hash
  check_hash-some v dcid addr token odcid e = ground arith

  abbrev stamp_of : List ℕ → List ℕ → ℕ
  stamp_of addr token = from_be_bytes 0 (take 8 (drop (length addr) token)) * nanos_per_sec

  -- What the checks of an accepted token say.
  record Passed (v : SimpleAddressValidator) (dcid addr token odcid : List ℕ) (now : ℕ)
      : Type 0 where
    long : length addr + 40 ≤ length token
    same : addr ≡ take (length addr) token
    past : stamp_of addr token ≤ now
    fresh : now - stamp_of addr token ≤ v.expiration_interval
    hash :
        drop (length token - 32) token ≡ sha256 (v.seed ++ (take (length token - 32) token ++ dcid))
    id : odcid ≡ drop (length addr + 8) (take (length token - 32) token)

  validate-Passed :
      (v : SimpleAddressValidator) (scid dcid : List ℕ) (src : IpAddr) (token : List ℕ) (now : ℕ)
      (odcid : List ℕ)
      → validate_address sha256 v scid dcid src token now ≡ done (some odcid)
      → Passed v dcid (octets src) token odcid now
  unfolding validate_address check_time
  validate-Passed v scid dcid src token now odcid e =
      ground (arith, check_hash-some v dcid (octets src) token odcid)

  -- A body that begins with the address, cut into its three parts.
  cut :
      (addr body hash : List ℕ)
      → length addr + 8 ≤ length body
      → addr ≡ take (length addr) (body ++ hash)
      → body ≡ addr ++ (take 8 (drop (length addr) (body ++ hash)) ++ drop (length addr + 8) body)
  cut addr body hash long same =
      let a = length addr in
      let rest = drop a body in
      let stamped : take 8 (drop a (body ++ hash)) ≡ take 8 rest =
        ap (take 8) (drop-append_le a body hash (omega arith))
        ∙ take-append_le 8 rest hash (omega (arith, length-drop a body)) in
      let front : take a body ≡ addr = sym (take-append_le a body hash (omega arith)) ∙ sym same in
      sym (take-append-drop a body)
      ∙ rw (front, stamped, drop-drop a 8 (a + 8) body refl)
          (ap (◌++◌ addr) (sym (take-append-drop 8 rest)))

  -- What is accepted was signed: a token that passes is the address of the request, eight bytes of
  -- time stamp and the returned id, with the hash of these behind the seed and before the destination
  -- id of the request; and its time stamp is not later than now and not older than the interval.
  pub validate_sound :
      (v : SimpleAddressValidator) (scid dcid : List ℕ) (src : IpAddr) (token : List ℕ) (now : ℕ)
      (odcid : List ℕ)
      → validate_address sha256 v scid dcid src token now ≡ done (some odcid)
      → (stamp : List ℕ) × (length stamp ≡ 8)
        × (token ≡ signed sha256 sha256_length v (octets src ++ (stamp ++ odcid)) dcid)
        × (from_be_bytes 0 stamp * nanos_per_sec ≤ now)
        × (now - from_be_bytes 0 stamp * nanos_per_sec ≤ v.expiration_interval)
  validate_sound v scid dcid src token now odcid e =
      let x = validate-Passed v scid dcid src token now odcid e in
      let a = length (octets src) in
      let n = length token - 32 in
      let body = take n token in
      let hash = drop n token in
      let size : length body ≡ n = length-take_le n token (omega arith) in
      let whole : body ++ hash ≡ token = take-append-drop n token in
      let parts : body ≡ octets src ++ (take 8 (drop a token) ++ odcid) =
        cut (octets src) body hash (omega (arith, x.long)) (rw whole x.same) ∙ rw (whole, ← x.id) in
      (
        take 8 (drop a token),
        length-take_le 8 (drop a token) (omega (arith, length-drop a token, x.long)),
        sym whole ∙ rw (x.hash, ← parts),
        x.past,
        x.fresh,
      )
