-- ===== src/Base/Words.antt =====
-- Unsigned 64-bit machine words: Rust's `u64` and `usize` as they wrap in a release build.
use Prim.Native.Nat.{ℕ, ◌+◌, ◌-◌, ◌*◌, ◌%◌, ◌^◌}
use mathlib.Core.Path.{◌≡◌, subst}

abbrev pub u64_mod : ℕ
u64_mod = 2 ^ 64

-- `x as u64`
abbrev pub as_u64 : ℕ → ℕ
as_u64 x = x % u64_mod

abbrev pub add_u64 : ℕ → ℕ → ℕ
add_u64 a b = (a + b) % u64_mod

abbrev pub sub_u64 : ℕ → ℕ → ℕ
sub_u64 a b = (a + (u64_mod - b % u64_mod)) % u64_mod

abbrev pub mul_u64 : ℕ → ℕ → ℕ
mul_u64 a b = (a * b) % u64_mod

-- What runs to an end, or panics.
pub data Outcome {ℓ} (A : Type ℓ) : Type ℓ where
  done : A → Outcome A
  panic : Outcome A

infixl 5 ◌>>=◌
abbrev pub ◌>>=◌ {ℓ κ} : {A : Type ℓ} {B : Type κ} → Outcome A → (A → Outcome B) → Outcome B
done a >>= f = f a
panic >>= f = panic

-- What holds of the result, where there is one.
abbrev pub OnDone {ℓ} : {A : Type ℓ} → (A → Type 0) → Outcome A → Type 0
OnDone P (done a) = P a
OnDone P panic = Unit

pub OnDone-bind {ℓ κ} :
    {A : Type ℓ} {B : Type κ} (P : B → Type 0) (o : Outcome A) (f : A → Outcome B)
    → ((a : A) → OnDone P (f a))
    → OnDone P (o >>= f)
OnDone-bind P (done a) f h = h a
OnDone-bind P panic f h = tt

pub OnDone-at {ℓ} :
    {A : Type ℓ} (P : A → Type 0) (o : Outcome A) (a : A) → OnDone P o → o ≡ done a → P a
OnDone-at P o a h e = subst (OnDone P) e h

pub OnDone-then {ℓ κ} :
    {A : Type ℓ} {B : Type κ} (R : A → Type 0) (P : B → Type 0) (o : Outcome A) (f : A → Outcome B)
    → OnDone R o
    → ((a : A) → R a → OnDone P (f a))
    → OnDone P (o >>= f)
OnDone-then R P (done a) f r h = h a r
OnDone-then R P panic f r h = tt
