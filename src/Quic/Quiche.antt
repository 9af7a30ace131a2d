-- ===== src/Quic/Quiche.antt =====
-- What crates/quic uses of `quiche::Connection`, which is not part of the repository: a parameter.
-- A call that changes the connection returns the new one. Loops over events, and over the data of a
-- closing stream, end because each turn leaves less: the numbers `…_left` bound the turns.
use zorya_rs.Base.{ℕ, ◌<◌, ◌≡◌, Bool, false, List, Option, some}

-- `quiche::Result`, with `Error::Done` apart from the other errors.
pub data QResult {ℓ} (A : Type ℓ) : Type ℓ where
  ok : A → QResult A
  error_done : QResult A
  error_other : QResult A

-- A packet to be sent: the number of its bytes, and `SendInfo`, as far as the program reads it.
pub record Packet : Type 0 where
  pub size : ℕ
  pub from : ℕ
  pub to : ℕ

pub record Quiche : Type 1 where
  pub Connection : Type 0
  pub is_server : Connection → Bool
  pub is_closed : Connection → Bool
  pub is_draining : Connection → Bool
  pub is_established : Connection → Bool
  pub peer_streams_left_bidi : Connection → ℕ
  pub timeout_instant : Connection → Option ℕ
  pub on_timeout : Connection → Connection
  -- `recv` takes the bytes of a packet.
  pub send : Connection → QResult Packet × Connection
  pub recv : List ℕ → Connection → QResult ℕ × Connection
  pub close : ℕ → Connection → QResult (Unit {0}) × Connection
  pub stream_priority : ℕ → Connection → QResult (Unit {0}) × Connection
  -- The length of the data, and whether this is the end of the stream.
  pub stream_send : ℕ → List ℕ → Bool → Connection → QResult ℕ × Connection
  pub stream_recv : ℕ → Connection → QResult (ℕ × Bool) × Connection
  pub stream_finished : ℕ → Connection → Bool
  pub path_event_next : Connection → Option Connection
  pub stream_readable_next : Connection → Option (ℕ × Connection)
  pub stream_writable_next : Connection → Option (ℕ × Connection)
  pub path_events_left : Connection → ℕ
  pub readable_left : Connection → ℕ
  pub writable_left : Connection → ℕ
  pub data_left : ℕ → Connection → ℕ

-- What its documentation says of these calls, as far as the theorems use it.
pub record QuicheLaws (Q : Quiche) : Type 0 where
  pub path_event_falls :
      (c c' : Q.Connection)
      → Q.path_event_next c ≡ some c'
      → Q.path_events_left c' < Q.path_events_left c
  pub readable_falls :
      (c c' : Q.Connection) (id : ℕ)
      → Q.stream_readable_next c ≡ some (id, c')
      → Q.readable_left c' < Q.readable_left c
  pub writable_falls :
      (c c' : Q.Connection) (id : ℕ)
      → Q.stream_writable_next c ≡ some (id, c')
      → Q.writable_left c' < Q.writable_left c
  pub data_falls :
      (c c' : Q.Connection) (id n : ℕ)
      → Q.stream_recv id c ≡ (QResult.ok (n, false), c')
      → Q.data_left id c' < Q.data_left id c
