-- ===== src/Quic/Validator/Bytes.antt =====
-- Big-endian bytes, as `u64::to_be_bytes` and `u64::from_be_bytes` have them, and byte strings.
use native.Mathlib.Nat.{pow-suc}
use zorya_rs.Base.{
  ℕ, zero, suc, ◌+◌, ◌*◌, ◌/◌, ◌%◌, ◌^◌, ◌<◌, ◌≡◌, refl, ◌∙◌, List, [], ◌∷◌, ◌++◌, arith, length,
  length-append,
}

unfoldable pub to_be_bytes : ℕ → ℕ → List ℕ
to_be_bytes zero n = []
to_be_bytes (suc k) n = to_be_bytes k (n / 256) ++ n % 256 ∷ []

unfoldable pub from_be_bytes : ℕ → List ℕ → ℕ
from_be_bytes acc [] = acc
from_be_bytes acc (b ∷ bs) = from_be_bytes (acc * 256 + b) bs

pub length-to_be_bytes : (k n : ℕ) → length (to_be_bytes k n) ≡ k
unfolding to_be_bytes
length-to_be_bytes zero n = refl
length-to_be_bytes (suc k) n =
    omega (
      arith,
      length-append (to_be_bytes k (n / 256)) (n % 256 ∷ []),
      length-to_be_bytes k (n / 256),
    )

from_be_bytes-snoc :
    (acc b : ℕ) (bs : List ℕ) → from_be_bytes acc (bs ++ b ∷ []) ≡ from_be_bytes acc bs * 256 + b
unfolding from_be_bytes
from_be_bytes-snoc acc b [] = refl
from_be_bytes-snoc acc b (x ∷ bs) = from_be_bytes-snoc (acc * 256 + x) b bs

quotient_lt : (k n : ℕ) → n < 256 ^ suc k → n / 256 < 256 ^ k
quotient_lt k n h = let h' : n < 256 ^ k * 256 = rw pow-suc at h in omega arith

pub from_be_bytes-to_be_bytes : (k n : ℕ) → n < 256 ^ k → from_be_bytes 0 (to_be_bytes k n) ≡ n
unfolding from_be_bytes to_be_bytes
from_be_bytes-to_be_bytes zero n h = omega arith
from_be_bytes-to_be_bytes (suc k) n h =
    from_be_bytes-snoc 0 (n % 256) (to_be_bytes k (n / 256))
    ∙ rw (from_be_bytes-to_be_bytes k (n / 256) (quotient_lt k n h)) (omega arith)

runs : from_be_bytes 0 (to_be_bytes 8 0x0102030405) ≡ 0x0102030405
unfolding from_be_bytes to_be_bytes
runs = refl
