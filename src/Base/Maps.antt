-- ===== src/Base/Maps.antt =====
-- `HashMap` and `DashMap` as association lists: `insert` replaces, `remove` deletes every entry.
use Prim.Native.Nat.{ℕ, ◌≤◌}
use mathlib.Core.Path.{◌≡◌, refl}
use mathlib.Core.Logic.{ite, ◌⊎◌, inl, inr}
use mathlib.Core.Option.{Option, none, some}
use mathlib.Core.List.{List, [], ◌∷◌}
use native.Mathlib.Omega.{arith}
use native.Mathlib.Decide.{ℕ_discrete}
use zorya_rs.Base.Lists.{length, All}

abbrev pub Map {ℓ} : Type ℓ → Type ℓ → Type ℓ
Map K V = List (K × V)

-- Keys that can be told apart.
pub record Key {ℓ} (K : Type ℓ) : Type ℓ where
  pub dec : Discrete K

instance abbrev pub nat_key : Key ℕ
nat_key = record { dec = ℕ_discrete }

-- Lists of numbers can be told apart.
cons_discrete : (x y : ℕ) (xs ys : List ℕ) → Dec (x ≡ y) → Dec (xs ≡ ys) → Dec (x ∷ xs ≡ y ∷ ys)
cons_discrete x y xs ys (yes p) (yes q) = yes cc
cons_discrete x y xs ys (yes p) (no n) = no (λ e. n cc)
cons_discrete x y xs ys (no n) d = no (λ e. n cc)

unfoldable pub bytes_discrete : Discrete (List ℕ)
unfolding cons_discrete
bytes_discrete [] [] = yes refl
bytes_discrete [] (y ∷ ys) = no (λ e. cc)
bytes_discrete (x ∷ xs) [] = no (λ e. cc)
bytes_discrete (x ∷ xs) (y ∷ ys) = cons_discrete x y xs ys (ℕ_discrete x y) (bytes_discrete xs ys)

instance abbrev pub bytes_key : Key (List ℕ)
bytes_key = record { dec = bytes_discrete }

-- No entry has this key; no two entries have the same.
abbrev pub Apart {ℓ} : {K V : Type ℓ} → K → Map K V → Type ℓ
Apart k m = All (λ e. ¬ (e.0 ≡ k)) m

abbrev pub Distinct {ℓ} : {K V : Type ℓ} → Map K V → Type ℓ
Distinct [] = Unit
Distinct ((k, v) ∷ m) = Apart k m × Distinct m

module _ {ℓ} {K V : Type ℓ} ⦃key : Key K⦄ where
  unfoldable pub lookup : K → Map K V → Option V
  lookup k [] = none
  lookup k ((j, v) ∷ m) = ite (key.dec j k) (some v) (lookup k m)

  unfoldable pub remove : K → Map K V → Map K V
  remove k [] = []
  remove k ((j, v) ∷ m) = ite (key.dec j k) (remove k m) ((j, v) ∷ remove k m)

  unfoldable pub insert : K → V → Map K V → Map K V
  unfolding remove
  insert k v m = (k, v) ∷ remove k m

  pub lookup_head : (k j : K) (v : V) (m : Map K V) → j ≡ k → lookup k ((j, v) ∷ m) ≡ some v
  unfolding lookup
  lookup_head k j v m e = ground (arith, e)

  pub lookup_tail : (k j : K) (v : V) (m : Map K V) → ¬ (j ≡ k) → lookup k ((j, v) ∷ m) ≡ lookup k m
  unfolding lookup
  lookup_tail k j v m n = ground (arith, n)

  -- What is found in a map is its first entry, which has the key, or is found in the others.
  pub lookup_cases :
      (k j : K) (v w : V) (m : Map K V)
      → lookup k ((j, v) ∷ m) ≡ some w
      → ((j ≡ k) × (v ≡ w)) ⊎ (¬ (j ≡ k) × (lookup k m ≡ some w))
  unfolding lookup
  lookup_cases k j v w m e = elim (key.dec j k) [
    | yes p ↦ inl (p, ground (arith, p, e))
    | no n ↦ inr (n, ground (arith, n, e))
  ]

  pub lookup-remove :
      (k j : K) (m : Map K V) → lookup j (remove k m) ≡ ite (key.dec k j) none (lookup j m)
  unfolding lookup remove
  lookup-remove k j [] = ground arith
  lookup-remove k j ((i, v) ∷ m) = ground (arith, lookup-remove k j m)

  pub lookup-insert :
      (k j : K) (v : V) (m : Map K V)
      → lookup j (insert k v m) ≡ ite (key.dec k j) (some v) (lookup j m)
  unfolding lookup insert
  lookup-insert k j v m = ground (arith, lookup-remove k j m)

  pub length-remove-le : (k : K) (m : Map K V) → length (remove k m) ≤ length m
  unfolding remove
  length-remove-le k [] = omega arith
  length-remove-le k ((i, v) ∷ m) = ground (arith, length-remove-le k m)

  Apart-remove : (k j : K) (m : Map K V) → Apart k m → Apart k (remove j m)
  unfolding remove
  Apart-remove k j [] a = tt
  Apart-remove k j ((i, v) ∷ m) a = elim (key.dec i j) [
    | yes p ↦ ground (arith, p, Apart-remove k j m a.1)
    | no n ↦ ground (arith, n, a.0, Apart-remove k j m a.1)
  ]

  Apart-remove_self : (k : K) (m : Map K V) → Apart k (remove k m)
  unfolding remove
  Apart-remove_self k [] = tt
  Apart-remove_self k ((i, v) ∷ m) = elim (key.dec i k) [
    | yes p ↦ ground (arith, p, Apart-remove_self k m)
    | no n ↦ ground (arith, n, Apart-remove_self k m)
  ]

  pub Distinct-remove : (k : K) (m : Map K V) → Distinct m → Distinct (remove k m)
  unfolding remove
  Distinct-remove k [] d = tt
  Distinct-remove k ((i, v) ∷ m) d = elim (key.dec i k) [
    | yes p ↦ ground (arith, p, Distinct-remove k m d.1)
    | no n ↦ ground (arith, n, Apart-remove i k m d.0, Distinct-remove k m d.1)
  ]

  pub Distinct-insert : (k : K) (v : V) (m : Map K V) → Distinct m → Distinct (insert k v m)
  unfolding insert
  Distinct-insert k v m d = (Apart-remove_self k m, Distinct-remove k m d)
