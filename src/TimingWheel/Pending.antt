-- ===== src/TimingWheel/Pending.antt =====
-- crates/timing-wheel/src/lib.rs seen from outside: the pending timers in the order in which they
-- fire, each with its tick, and what makes the heap and the table of a wheel fit together.
use zorya_rs.Base.{
  ℕ, suc, ◌+◌, ◌%◌, ◌≤◌, ◌<◌, ◌≡◌, ◌≢◌, refl, ap, false, List, [], ◌∷◌, ◌++◌, map, Option, none,
  some, arith, length, leb, ltb, if◌then◌else◌, is_some, elem, All, u64_mod,
}
use zorya_rs.Base.Maps.{Map, lookup, insert, remove, lookup-remove, lookup-insert, nat_key}
use zorya_rs.TimingWheel.{TimeWheelImpl}

-- Slots rise strictly along the heap, and all lie above `n`.
abbrev pub Above : ℕ → List ℕ → Type 0
Above n [] = Unit {0}
Above n (s ∷ q) = (n < s) × Above s q

pub Above-mono : {m n : ℕ} (q : List ℕ) → m ≤ n → Above n q → Above m q
Above-mono [] h a = tt
Above-mono (s ∷ q) h a = (omega arith, a.1)

pub elem-Above : (n k : ℕ) (q : List ℕ) → Above n q → k ≤ n → elem k q ≡ false
elem-Above n k [] a h = refl
elem-Above n k (s ∷ q) a h = ground (arith, elem-Above s k q a.1)

module _ {T : Type 0} where
  abbrev pub values_at : Option (List T) → List T
  values_at none = []
  values_at (some values) = values

  abbrev pub stamp : ℕ → List T → List (ℕ × T)
  stamp slot = map (λ v. (slot, v))

  unfoldable pub pending : List ℕ → Map ℕ (List T) → List (ℕ × T)
  pending [] m = []
  pending (s ∷ q) m = stamp s (values_at (lookup s m)) ++ pending q m

  -- A timer goes behind those of its tick and before those of later ticks.
  unfoldable pub schedule : ℕ → T → List (ℕ × T) → List (ℕ × T)
  schedule t v [] = (t, v) ∷ []
  schedule t v ((s, x) ∷ l) = if ltb t s then (t, v) ∷ (s, x) ∷ l else (s, x) ∷ schedule t v l

  -- The timers up to the tick `n`, and those behind them.
  unfoldable pub due : ℕ → List (ℕ × T) → List (ℕ × T)
  due n [] = []
  due n ((s, x) ∷ l) = if leb s n then (s, x) ∷ due n l else []

  unfoldable pub not_due : ℕ → List (ℕ × T) → List (ℕ × T)
  not_due n [] = []
  not_due n ((s, x) ∷ l) = if leb s n then not_due n l else (s, x) ∷ l

  abbrev pub values : List (ℕ × T) → List T
  values = map (λ e. e.1)

  abbrev pub AllAbove : ℕ → List (ℕ × T) → Type 0
  AllAbove n = All (λ e. n < e.0)

  stamp-AllAbove :
      (n s : ℕ) (xs : List T) (l : List (ℕ × T))
      → n < s
      → AllAbove n l
      → AllAbove n (stamp s xs ++ l)
  stamp-AllAbove n s [] l h a = a
  stamp-AllAbove n s (x ∷ xs) l h a = (h, stamp-AllAbove n s xs l h a)

  pub pending-AllAbove :
      (n k : ℕ) (q : List ℕ) (m : Map ℕ (List T)) → n ≤ k → Above k q → AllAbove n (pending q m)
  unfolding pending
  pending-AllAbove n k [] m h a = tt
  pending-AllAbove n k (s ∷ q) m h a =
      stamp-AllAbove n s (values_at (lookup s m)) _ (omega arith)
        (pending-AllAbove n s q m (omega arith) a.1)

  pub values-stamp : (s : ℕ) (xs : List T) → values (stamp s xs) ≡ xs
  values-stamp s [] = refl
  values-stamp s (x ∷ xs) = ap (◌∷◌ x) (values-stamp s xs)

  pub length-stamp : (s : ℕ) (xs : List T) → length (stamp s xs) ≡ length xs
  length-stamp s [] = refl
  length-stamp s (x ∷ xs) = ap suc (length-stamp s xs)

  pub due_above : (n : ℕ) (l : List (ℕ × T)) → AllAbove n l → due n l ≡ []
  unfolding due
  due_above n [] a = refl
  due_above n ((s, x) ∷ l) a = ground arith

  pub not_due_above : (n : ℕ) (l : List (ℕ × T)) → AllAbove n l → not_due n l ≡ l
  unfolding not_due
  not_due_above n [] a = refl
  not_due_above n ((s, x) ∷ l) a = ground arith

  pub due-stamp :
      (n s : ℕ) (xs : List T) (l : List (ℕ × T))
      → s ≤ n
      → due n (stamp s xs ++ l) ≡ stamp s xs ++ due n l
  unfolding due
  due-stamp n s [] l h = refl
  due-stamp n s (x ∷ xs) l h = ground (arith, due-stamp n s xs l h)

  pub not_due-stamp :
      (n s : ℕ) (xs : List T) (l : List (ℕ × T)) → s ≤ n → not_due n (stamp s xs ++ l) ≡ not_due n l
  unfolding not_due
  not_due-stamp n s [] l h = refl
  not_due-stamp n s (x ∷ xs) l h = ground (arith, not_due-stamp n s xs l h)

  pub schedule_above :
      (t : ℕ) (v : T) (l : List (ℕ × T)) → AllAbove t l → schedule t v l ≡ (t, v) ∷ l
  unfolding schedule
  schedule_above t v [] a = refl
  schedule_above t v ((s, x) ∷ l) a = ground arith

  pub schedule-stamp :
      (t : ℕ) (v : T) (s : ℕ) (xs : List T) (l : List (ℕ × T))
      → s ≤ t
      → schedule t v (stamp s xs ++ l) ≡ stamp s xs ++ schedule t v l
  unfolding schedule
  schedule-stamp t v s [] l h = refl
  schedule-stamp t v s (x ∷ xs) l h = ground (arith, schedule-stamp t v s xs l h)

  pub length-schedule : (t : ℕ) (v : T) (l : List (ℕ × T)) → length (schedule t v l) ≡ length l + 1
  unfolding schedule
  length-schedule t v [] = omega arith
  length-schedule t v ((s, x) ∷ l) = ground (arith, length-schedule t v l)

  -- The table may change at slots that are not in the heap.
  pub pending-remove :
      (k : ℕ) (q : List ℕ) (m : Map ℕ (List T))
      → elem k q ≡ false
      → pending q (remove k m) ≡ pending q m
  unfolding pending
  pending-remove k [] m h = refl
  pending-remove k (s ∷ q) m h = ground (arith, lookup-remove k s m, pending-remove k q m)

  pub pending-insert :
      (k : ℕ) (xs : List T) (q : List ℕ) (m : Map ℕ (List T))
      → elem k q ≡ false
      → pending q (insert k xs m) ≡ pending q m
  unfolding pending
  pending-insert k xs [] m h = refl
  pending-insert k xs (s ∷ q) m h = ground (arith, lookup-insert k s xs m, pending-insert k xs q m)

-- A wheel between two calls: every slot of the heap is later than the ticks processed, the table
-- has a vector exactly for the slots of the heap, none is empty, and the counter is the count.
pub record IsValid {T : Type 0} (sys : TimeWheelImpl T) : Type 0 where
  pub ordered : Above sys.ticks sys.priority_queue
  pub tracked : (k : ℕ) → is_some (lookup k sys.timers) ≡ elem k sys.priority_queue
  pub filled : (k : ℕ) → lookup k sys.timers ≢ some []
  pub counted : sys.counter ≡ length (pending sys.priority_queue sys.timers) % u64_mod
