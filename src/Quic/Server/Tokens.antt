-- ===== src/Quic/Server/Tokens.antt =====
-- crates/quic/src/server.rs with crates/quic/src/validator.rs: which tokens let a
-- client in, and which end the task of the driver.
use zorya_rs.Base.{
  ℕ, ◌-◌, ◌*◌, ◌≤◌, ◌<◌, ◌≡◌, refl, ◌∙◌, ap, true, false, List, ◌++◌, Option, none, some, length,
  is_some, Bool-cases, inl, inr, Outcome, done, panic, ◌>>=◌, OnDone, OnDone-at, u64_mod,
}
use zorya_rs.Base.Maps.{bytes_key, lookup}
use zorya_rs.Io.{IoResult}
use zorya_rs.Quic.Quiche.{Quiche}
use zorya_rs.Quic.Validator.{IpAddr, octets, SimpleAddressValidator, nanos_per_sec}
use zorya_rs.Quic.Validator.Bytes.{to_be_bytes, from_be_bytes}
use zorya_rs.Quic.Validator.Tokens.{signed}
use zorya_rs.Quic.Validator.Acceptance.{future_timestamp_panics}
use zorya_rs.Quic.Validator.Soundness.{validate_sound}
use zorya_rs.Quic.Server.{Header, World, Datagram, QuicListenerDriver, turn}
use zorya_rs.Quic.Server.Admission.{turn_admits}
use zorya_rs.Quic.Server.Simple.{asks, world_at, verdict_at, judged, turn_at}

module _ (sha256 : List ℕ → List ℕ) (sha256_length : (m : List ℕ) → length (sha256 m) ≡ 32)
    {Q : Quiche} (W : World Q) (ip : ℕ → IpAddr) (v : SimpleAddressValidator) where
  -- The token of the header is the address of the sender, eight bytes of time stamp and an original
  -- id, signed for the destination id; the time stamp is neither in the future nor too old.
  abbrev pub SignedFor : ℕ → Datagram → Header → Type 0
  SignedFor now d header =
      (odcid : List ℕ) × (stamp : List ℕ) × (length stamp ≡ 8)
      × (header.token
          ≡ signed sha256 sha256_length v (octets (ip d.recv_info.from) ++ (stamp ++ odcid))
              header.dcid)
      × (from_be_bytes 0 stamp * nanos_per_sec ≤ now)
      × (now - from_be_bytes 0 stamp * nanos_per_sec ≤ v.expiration_interval)

  abbrev pub LetIn : ℕ → Datagram → QuicListenerDriver Q → List ℕ → Type 0
  LetIn now d l id =
      (header : Header) × (W.from_slice d.buf ≡ some header)
      × (header.dcid ≡ id)
      × SignedFor now d header
      × (length l.quiche_conn_set < l.max_active_conn_size)

  -- What a turn leaves has the connection only if the turn let it in.
  abbrev Judged :
      ℕ
      → Datagram
      → QuicListenerDriver Q
      → List ℕ
      → IoResult (Unit {0}) × QuicListenerDriver Q
      → Type 0
  Judged now d l id (answer, l') = is_some (lookup id l'.quiche_conn_set) ≡ true → LetIn now d l id

  turn_no_verdict-Judged :
      (now : ℕ) (d : Datagram) (l : QuicListenerDriver Q) (id : List ℕ)
      → is_some (lookup id l.quiche_conn_set) ≡ false
      → Judged now d l id (turn (world_at W sha256 ip v now none) d l)
  unfolding world_at
  turn_no_verdict-Judged now d l id f t =
      let (header, e, a) = turn_admits (world_at W sha256 ip v now none) d l id f t in
      let (odcid, given) = a.1 in cc

  turn_verdict-Judged :
      (now : ℕ) (d : Datagram) (l : QuicListenerDriver Q) (id : List ℕ) (header : Header)
      (verdict : Option (List ℕ))
      → W.from_slice d.buf ≡ some header
      → verdict_at W sha256 ip v now header d ≡ done verdict
      → is_some (lookup id l.quiche_conn_set) ≡ false
      → Judged now d l id (turn (world_at W sha256 ip v now verdict) d l)
  unfolding world_at verdict_at
  turn_verdict-Judged now d l id header verdict e said f t =
      let (header', e', a) = turn_admits (world_at W sha256 ip v now verdict) d l id f t in
      let (odcid, given) = a.1 in
      let (stamp, size, token, past, young) =
        validate_sound sha256 sha256_length v header.scid header.dcid (ip d.recv_info.from)
          header.token now odcid (said ∙ ap done given) in
      (header, e, cc, (odcid, stamp, size, token, past, young), a.2)

  verdict-Judged :
      (now : ℕ) (d : Datagram) (l : QuicListenerDriver Q) (id : List ℕ) (header : Header)
      (o : Outcome (Option (List ℕ)))
      → W.from_slice d.buf ≡ some header
      → verdict_at W sha256 ip v now header d ≡ o
      → is_some (lookup id l.quiche_conn_set) ≡ false
      → OnDone
          (Judged now d l id)
          (o >>= (λ verdict. done (turn (world_at W sha256 ip v now verdict) d l)))
  verdict-Judged now d l id header (done verdict) e said f =
      turn_verdict-Judged now d l id header verdict e said f
  verdict-Judged now d l id header panic e said f = tt

  judged-Judged :
      (now : ℕ) (d : Datagram) (l : QuicListenerDriver Q) (id : List ℕ) (o : Option Header)
      → W.from_slice d.buf ≡ o
      → is_some (lookup id l.quiche_conn_set) ≡ false
      → OnDone (Judged now d l id) (judged W sha256 ip v now d o l)
  unfolding judged
  judged-Judged now d l id none e f = turn_no_verdict-Judged now d l id f
  judged-Judged now d l id (some header) e f = elim (Bool-cases (asks W header l)) [
    | inl a ↦ rw a (verdict-Judged now d l id header _ e refl f)
    | inr a ↦ rw a (turn_no_verdict-Judged now d l id f)
  ]

  -- With the crate's own validator, a turn adds a connection only for a datagram whose token is signed
  -- for that connection's id and for the address of the sender, with a time stamp that is neither in
  -- the future nor older than the interval; and only while there is room.
  pub turn_at_admits :
      (now : ℕ) (d : Datagram) (l l' : QuicListenerDriver Q) (id : List ℕ)
      (answer : IoResult (Unit {0}))
      → turn_at W sha256 ip v now d l ≡ done (answer, l')
      → is_some (lookup id l.quiche_conn_set) ≡ false
      → is_some (lookup id l'.quiche_conn_set) ≡ true
      → LetIn now d l id
  unfolding turn_at
  turn_at_admits now d l l' id answer e f =
      OnDone-at (Judged now d l id) _ (answer, l')
        (judged-Judged now d l id (W.from_slice d.buf) refl f) e

  -- One datagram stops the listener: an initial packet for a new connection whose token is the
  -- sender's own address, a time stamp that is later than the present and any 32 bytes panics the task
  -- of the driver, whatever the seed of the validator.
  pub future_token_stops :
      (now timestamp : ℕ) (d : Datagram) (l : QuicListenerDriver Q) (header : Header)
      (rest : List ℕ)
      → W.from_slice d.buf ≡ some header
      → asks W header l ≡ true
      → header.token ≡ octets (ip d.recv_info.from) ++ (to_be_bytes 8 timestamp ++ rest)
      → timestamp < u64_mod
      → now < timestamp * nanos_per_sec
      → 32 ≤ length rest
      → turn_at W sha256 ip v now d l ≡ panic
  unfolding turn_at judged verdict_at
  future_token_stops now timestamp d l header rest e asked token range future long =
      rw
        (
          e,
          asked,
          token,
          future_timestamp_panics sha256 sha256_length v header.scid header.dcid
              (ip d.recv_info.from) timestamp now rest range future long,
        )
        refl
