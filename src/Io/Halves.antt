-- ===== src/Io/Halves.antt =====
-- crates/n3io/src/net/tcp_stream.rs and crates/quic/src/conn.rs: the two halves of a split stream. They share
-- the stream by an `Arc`, so the stream is dropped with the last of them.
use zorya_rs.Base.{ℕ, ◌+◌, ◌≡◌, ◌⊎◌, refl, inl, Bool, true, false, ◌||◌, if◌then◌else◌, arith}

pub data Half : Type 0 where
  writer reader : Half

abbrev pub opposite : Half → Half
opposite writer = reader
opposite reader = writer

-- The halves that are left, how often the stream was dropped, and what its calls change.
pub record Halves (S : Type 0) : Type 0 where
  pub has_writer : Bool
  pub has_reader : Bool
  pub drops : ℕ
  pub state : S

module _ {S : Type 0} where
  -- `split`
  unfoldable pub split : S → Halves S
  split s = record { has_writer = true; has_reader = true; drops = 0; state = s }

  abbrev pub is_left : Half → Halves S → Bool
  is_left writer h = h.has_writer
  is_left reader h = h.has_reader

  abbrev without : Half → Halves S → Halves S
  without writer h = record h { has_writer = false }
  without reader h = record h { has_reader = false }

  -- A half is dropped; with the last one `drop`, the `Drop` of the stream, runs.
  unfoldable pub release : (S → S) → Half → Halves S → Halves S
  release drop half h =
      if is_left half h
      then (if is_left (opposite half) h
          then without half h
          else record (without half h) { drops = h.drops + 1; state = drop h.state })
      else h

  -- The stream has been dropped once if no half is left, and else not yet.
  abbrev pub Counted : Halves S → Type 0
  Counted h =
      ((h.drops ≡ 0) × ((h.has_writer || h.has_reader) ≡ true))
      ⊎ ((h.drops ≡ 1) × ((h.has_writer || h.has_reader) ≡ false))

  pub split-Counted : (s : S) → Counted (split s)
  unfolding split
  split-Counted s = inl (refl, refl)

  pub release-Counted :
      (drop : S → S) (half : Half) (h : Halves S) → Counted h → Counted (release drop half h)
  unfolding release
  release-Counted drop writer h c = ground arith
  release-Counted drop reader h c = ground arith

  -- The last half drops the stream, for the first time.
  pub release_last :
      (drop : S → S) (half : Half) (h : Halves S)
      → Counted h
      → is_left half h ≡ true
      → is_left (opposite half) h ≡ false
      → (h.drops ≡ 0)
        × ((release drop half h).drops ≡ 1)
        × ((release drop half h).state ≡ drop h.state)
  unfolding release
  release_last drop writer h c left gone = ground arith
  release_last drop reader h c left gone = ground arith
