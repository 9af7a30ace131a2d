-- ===== src/Base/Heap.antt =====
-- `BinaryHeap<Reverse<u64>>` as the sorted list of what it holds: `peek` and `pop` take the front.
use Prim.Native.Nat.{ℕ}
use mathlib.Core.List.{List, [], ◌∷◌}
use zorya_rs.Base.Tests.{leb, if◌then◌else◌}

-- `BinaryHeap::push`
unfoldable pub push : ℕ → List ℕ → List ℕ
push t [] = t ∷ []
push t (s ∷ q) = if leb t s then t ∷ s ∷ q else s ∷ push t q
