-- ===== src/Engine/Deadlines.antt =====
-- service/engine/core/negative_queue.go: the heap of negative-pattern deadlines, as container/heap
-- keeps it in a slice.
pub mod Size
pub mod Order
pub mod Up
pub mod Down
pub mod Ordered
pub mod Held
use rule_engine.Prelude.{
  ℕ, zero, suc, ◌+◌, ◌-◌, ◌*◌, ◌/◌, Bool, false, ◌||◌, ◌&&◌, not, List, [], ◌∷◌, ◌++◌, none, some,
  ltb, leb, nat_beq, if◌then◌else◌, length, get_elem?, set,
}
use rule_engine.Text.{Text}
use rule_engine.Time.{Time}

pub record Deadline : Type 0 where
  pub deadline : Time
  pub member_id : Text
  pub progress_id : Text

abbrev pub Heap : Type 0
Heap = List Deadline

-- `h.Less(i, j)`; the indices are in range
unfoldable pub less : Heap → ℕ → ℕ → Bool
less h i j = elim (get_elem? h i) [
  | none ↦ false
  | some x ↦ elim (get_elem? h j) [ none ↦ false | some y ↦ ltb x.deadline y.deadline ]
]

-- `h.Swap(i, j)`
unfoldable pub swap : Heap → ℕ → ℕ → Heap
swap h i j = elim (get_elem? h i) [
  | none ↦ h
  | some x ↦ elim (get_elem? h j) [ none ↦ h | some y ↦ set (set h i y) j x ]
]

-- the loops `up` and `down` of container/heap, on fuel
unfoldable pub up : ℕ → Heap → ℕ → Heap
unfolding less swap
up zero h j = h
up (suc f) h j =
    let i = (j - 1) / 2 in
    let rise = up f (swap h i j) i in if nat_beq i j || not (less h j i) then h else rise

-- the smaller child of a node whose left child is there
unfoldable pub smaller_child : Heap → ℕ → ℕ → ℕ
unfolding less
smaller_child h i n =
    let left = 2 * i + 1 in if ltb (left + 1) n && less h (left + 1) left then left + 1 else left

unfoldable pub down : ℕ → Heap → ℕ → ℕ → Heap
unfolding less swap smaller_child
down zero h i n = h
down (suc f) h i n =
    let child = smaller_child h i n in
    let sink = down f (swap h i child) child n in
    if leb n (2 * i + 1) || not (less h child i) then h else sink

-- heap.Push: append, then up from the last index
unfoldable pub push : Heap → Deadline → Heap
unfolding up
push h x = up (suc (length h)) (h ++ x ∷ []) (length h)

-- the slice without its last element
unfoldable pub drop_last : Heap → Heap
drop_last [] = []
drop_last (x ∷ []) = []
drop_last (x ∷ y ∷ h) = x ∷ drop_last (y ∷ h)

-- heap.Pop: the first element changes places with the last, sinks, and the last is cut off
unfoldable pub pop : Heap → Heap
unfolding down swap drop_last
pop h = let n = length h - 1 in drop_last (down (suc n) (swap h 0 n) 0 n)

-- heap.Init: down from the last parent to the root
unfoldable pub heapify : ℕ → Heap → Heap
unfolding down
heapify zero h = h
heapify (suc i) h = heapify i (down (suc (length h)) h i (length h))

unfoldable pub init : Heap → Heap
unfolding heapify
init h = heapify (length h / 2) h
