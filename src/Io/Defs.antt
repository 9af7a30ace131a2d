-- ===== src/Io/Defs.antt =====
-- What the futures of crates/n3io and crates/quic return: `std::io::Result` and `std::task::Poll`.
pub data ErrorKind : Type 0 where
  not_found not_connected would_block broken_pipe timed_out addr_not_available invalid_input
        write_zero other :
      ErrorKind

pub data IoResult {ℓ} (A : Type ℓ) : Type ℓ where
  ok : A → IoResult A
  err : ErrorKind → IoResult A

pub data Poll {ℓ} (A : Type ℓ) : Type ℓ where
  ready : A → Poll A
  pending : Poll A
