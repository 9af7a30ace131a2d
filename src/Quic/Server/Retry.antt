-- ===== src/Quic/Server/Retry.antt =====
-- crates/quic/src/server.rs with crates/quic/src/validator.rs: a client comes in by a retry packet.
mod Tests
use zorya_rs.Base.{
  ℕ, ◌+◌, ◌-◌, ◌*◌, ◌/◌, ◌≤◌, ◌<◌, ◌≡◌, refl, sym, ◌∙◌, ap, Bool, true, false, List, [], ◌∷◌, ◌++◌,
  Option, none, some, length, is_some, arith, Outcome, done, ◌>>=◌, u64_mod, length-append, lt→ltb,
  ltb, if◌then◌else◌, not, ◌&&◌,
}
use zorya_rs.Base.Maps.{bytes_key, lookup, insert, lookup_head}
use zorya_rs.Io.{IoResult, ok, err}
use zorya_rs.Quic.Quiche.{Quiche, QResult}
use zorya_rs.Quic.Conn.{QuicConnState, new}
use zorya_rs.Quic.Validator.{
  IpAddr, octets, SimpleAddressValidator, nanos_per_sec, mint_retry_token, validate_address,
}
use zorya_rs.Quic.Validator.Tokens.{signed, length-signed, body_of}
use zorya_rs.Quic.Validator.Acceptance.{validate-mint}
use zorya_rs.Quic.Server.{
  Header, World, Datagram, QuicListenerDriver, send_made, retry_with, retry, add_conn, first_recv,
  accept_conn, validated, initial_token, initial, routed, parsed, turn,
}
use zorya_rs.Quic.Server.Simple.{has_bytes, asks, world_at, verdict_at, judged, turn_at}

module _ {Q : Quiche} (W : World Q) where
  -- A datagram that is an initial packet of a version that quiche has, for no connection of the set.
  pub record IsInitial (d : Datagram) (l : QuicListenerDriver Q) (header : Header) : Type 0 where
    pub read : W.from_slice d.buf ≡ some header
    pub fresh : lookup header.dcid l.quiche_conn_set ≡ none
    pub initial : header.is_initial ≡ true
    pub supported : W.version_is_supported header.version ≡ true

  turn-initial :
      (d : Datagram) (l : QuicListenerDriver Q) (header : Header)
      → IsInitial d l header
      → turn W d l ≡ initial_token W header d header.token l
  unfolding turn parsed routed initial
  turn-initial d l header h = rw (h.read, h.fresh, h.initial, h.supported) refl

  asks-initial :
      (d : Datagram) (l : QuicListenerDriver Q) (header : Header)
      → IsInitial d l header
      → asks W header l ≡ has_bytes header.token
  unfolding asks
  asks-initial d l header h = rw (h.fresh, h.initial, h.supported) refl

  initial_token-has_bytes :
      (header : Header) (d : Datagram) (token : List ℕ) (l : QuicListenerDriver Q)
      → 0 < length token
      → initial_token W header d token l ≡ (
        ok tt,
        validated W header d (W.validate_address header.scid header.dcid d.recv_info.from token) l,
      )
  unfolding initial_token
  initial_token-has_bytes header d [] l h = ground (arith, h)
  initial_token-has_bytes header d (b ∷ token) l h = refl

has_bytes-length : (token : List ℕ) → 0 < length token → has_bytes token ≡ true
has_bytes-length [] h = ground (arith, h)
has_bytes-length (b ∷ token) h = refl

module _ (sha256 : List ℕ → List ℕ) (sha256_length : (m : List ℕ) → length (sha256 m) ≡ 32)
    {Q : Quiche} (W : World Q) (ip : ℕ → IpAddr) (v : SimpleAddressValidator) where
  length-mint :
      (scid dcid new_scid : List ℕ) (src : IpAddr) (now : ℕ)
      → 0 < length (mint_retry_token sha256 v scid dcid new_scid src now)
  unfolding mint_retry_token
  length-mint scid dcid new_scid src now = omega (
    arith,
    length-signed sha256 sha256_length v (body_of (octets src) (now / nanos_per_sec) dcid) new_scid,
  )

  -- The token that the turn mints.
  abbrev pub token_of : ℕ → Header → Datagram → List ℕ
  token_of now header d =
      mint_retry_token sha256 v header.scid header.dcid d.random_conn_id (ip d.recv_info.from) now

  IsInitial-world_at :
      (now : ℕ) (verdict : Option (List ℕ)) (d : Datagram) (l : QuicListenerDriver Q)
      (header : Header)
      → IsInitial W d l header
      → IsInitial (world_at W sha256 ip v now verdict) d l header
  unfolding world_at
  IsInitial-world_at now verdict d l header h = record {
    read = h.read;
    fresh = h.fresh;
    initial = h.initial;
    supported = h.supported;
  }

  turn-world_at :
      (now : ℕ) (verdict : Option (List ℕ)) (d : Datagram) (l : QuicListenerDriver Q)
      (header : Header)
      → IsInitial W d l header
      → turn (world_at W sha256 ip v now verdict) d l
        ≡ initial_token (world_at W sha256 ip v now verdict) header d header.token l
  turn-world_at now verdict d l header h =
      let W' = world_at W sha256 ip v now verdict in
      turn-initial W' d l header (IsInitial-world_at now verdict d l header h)

  turn_at-no_token :
      (now : ℕ) (d : Datagram) (l : QuicListenerDriver Q) (header : Header)
      → IsInitial W d l header
      → header.token ≡ []
      → turn_at W sha256 ip v now d l ≡ done (retry (world_at W sha256 ip v now none) header d l)
  unfolding turn_at judged initial_token
  turn_at-no_token now d l header h e =
      rw (h.read, asks-initial W d l header h, e, turn-world_at now none d l header h, e) refl

  -- An initial packet without a token is answered by a retry packet with one.
  pub retries :
      (minted : ℕ) (d : Datagram) (l : QuicListenerDriver Q) (header : Header) (packet : List ℕ)
      → IsInitial W d l header
      → header.token ≡ []
      → W.retry_packet header d.random_conn_id (token_of minted header d) ≡ some packet
      → d.sending_fails ≡ false
      → turn_at W sha256 ip v minted d l ≡ done (ok tt, record l { sent = packet ∷ l.sent })
  unfolding world_at retry retry_with send_made
  retries minted d l header packet h e p sends =
      turn_at-no_token minted d l header h e ∙ rw (p, sends) refl

  turn_at-token :
      (now : ℕ) (d : Datagram) (l : QuicListenerDriver Q) (header : Header) (odcid : List ℕ)
      → IsInitial W d l header
      → 0 < length header.token
      → verdict_at W sha256 ip v now header d ≡ done (some odcid)
      → turn_at W sha256 ip v now d l
        ≡ done (ok tt, validated (world_at W sha256 ip v now (some odcid)) header d (some odcid) l)
  unfolding turn_at judged world_at
  turn_at-token now d l header odcid h long said =
      rw
        (
          h.read,
          asks-initial W d l header h,
          has_bytes-length header.token long,
          said,
          turn-world_at now (some odcid) d l header h,
          initial_token-has_bytes (world_at W sha256 ip v now (some odcid)) header d header.token l
              long,
        )
        refl

  -- A connection that quiche accepts and that takes its packet is in the set, if there was room.
  validated_adds :
      (W' : World Q) (header : Header) (d : Datagram) (odcid : List ℕ) (l : QuicListenerDriver Q)
      (c c' : Q.Connection) (n : ℕ)
      → W'.accept header.dcid odcid d.recv_info ≡ some c
      → Q.recv d.buf c ≡ (QResult.ok n, c')
      → length l.quiche_conn_set < l.max_active_conn_size
      → lookup header.dcid (validated W' header d (some odcid) l).quiche_conn_set ≡ some (new Q c')
  unfolding validated accept_conn first_recv add_conn insert
  validated_adds W' header d odcid l c c' n accepts reads room =
      rw (accepts, reads, lt→ltb (length l.quiche_conn_set) l.max_active_conn_size room)
        (lookup_head header.dcid header.dcid (new Q c') _ refl)

  -- The packet that comes back: it has the token that was minted, goes to the id that the retry packet
  -- gave, and comes from the same address.
  pub record Returns (minted : ℕ) (d : Datagram) (header : Header) (d' : Datagram)
      (header' : Header) : Type 0 where
    pub token : header'.token ≡ token_of minted header d
    pub dcid : header'.dcid ≡ d.random_conn_id
    pub from : d'.recv_info.from ≡ d.recv_info.from

  verdict_at-Returns :
      (minted now : ℕ) (d d' : Datagram) (header header' : Header)
      → Returns minted d header d' header'
      → minted / nanos_per_sec < u64_mod
      → minted ≤ now
      → now - minted / nanos_per_sec * nanos_per_sec ≤ v.expiration_interval
      → verdict_at W sha256 ip v now header' d' ≡ done (some header.dcid)
  unfolding verdict_at
  verdict_at-Returns minted now d d' header header' r range order young =
      rw (r.token, r.dcid, r.from)
        (validate-mint sha256 sha256_length v header.scid header.dcid d.random_conn_id header'.scid
          (ip d.recv_info.from) minted now range order young)

  -- A client is let in by a retry: its initial packet without a token is answered by a retry packet,
  -- and its next one, with the token of that packet, from the same address and to the id that it was
  -- given, adds a connection under this id, if it comes no later than the interval after the second
  -- of the first, quiche accepts the connection and its packet, and there is room. In between, other
  -- turns may have changed the state of the driver.
  pub retry_lets_in :
      (minted now : ℕ) (d d' : Datagram) (l l' : QuicListenerDriver Q) (header header' : Header)
      (packet : List ℕ) (c c' : Q.Connection) (n : ℕ)
      → IsInitial W d l header
      → header.token ≡ []
      → W.retry_packet header d.random_conn_id (token_of minted header d) ≡ some packet
      → d.sending_fails ≡ false
      → IsInitial W d' l' header'
      → Returns minted d header d' header'
      → minted / nanos_per_sec < u64_mod
      → minted ≤ now
      → now - minted / nanos_per_sec * nanos_per_sec ≤ v.expiration_interval
      → W.accept header'.dcid header.dcid d'.recv_info ≡ some c
      → Q.recv d'.buf c ≡ (QResult.ok n, c')
      → length l'.quiche_conn_set < l'.max_active_conn_size
      → (turn_at W sha256 ip v minted d l ≡ done (ok tt, record l { sent = packet ∷ l.sent }))
        × (l'' : QuicListenerDriver Q) × (turn_at W sha256 ip v now d' l' ≡ done (ok tt, l''))
        × (lookup d.random_conn_id l''.quiche_conn_set ≡ some (new Q c'))
  unfolding world_at
  retry_lets_in minted now d d' l l' header header' packet c c' n h e p sends h' r range order young
        accepts reads room =
      let W' = world_at W sha256 ip v now (some header.dcid) in
      let long : 0 < length header'.token =
        rw (r.token)
          (length-mint header.scid header.dcid d.random_conn_id (ip d.recv_info.from) minted) in
      (
        retries minted d l header packet h e p sends,
        validated W' header' d' (some header.dcid) l',
        turn_at-token now d' l' header' header.dcid h' long
            (verdict_at-Returns minted now d d' header header' r range order young),
        rw (← r.dcid) (validated_adds W' header' d' header.dcid l' c c' n accepts reads room),
      )
