-- ===== src/Engine/Deadlines/Ordered.antt =====
-- heap.Push, heap.Pop and heap.Init keep or make the order of the heap of negative_queue.go.
use rule_engine.Prelude.{
  ℕ, zero, suc, ◌-◌, ◌/◌, ◌<◌, ◌≡◌, refl, ap, ◌∙◌, [], ◌∷◌, ◌++◌, arith, length, get_elem?,
  length-append, inl, inr,
}
use rule_engine.Engine.Deadlines.{Deadline, Heap, swap, down, push, pop, drop_last, heapify, init}
use rule_engine.Engine.Deadlines.Size.{length-down, length-pop, length-drop_last}
use rule_engine.Engine.Deadlines.Order.{
  deadline_or_zero, Swapped, swap-Swapped, IsHeapFrom, IsHeap, same_or_not,
}
use rule_engine.Engine.Deadlines.Up.{IsRising, up-IsHeap}
use rule_engine.Engine.Deadlines.Down.{IsSinking, down-IsHeapFrom}

get-append_left : (h t : Heap) (i : ℕ) → i < length h → get_elem? (h ++ t) i ≡ get_elem? h i
get-append_left [] t i l = absurd (omega arith)
get-append_left (x ∷ h) t zero l = refl
get-append_left (x ∷ h) t (suc i) l = get-append_left h t i (omega arith)

pub get-drop_last :
    (h : Heap) (i : ℕ) → suc i < length h → get_elem? (drop_last h) i ≡ get_elem? h i
unfolding drop_last
get-drop_last [] i l = absurd (omega arith)
get-drop_last (x ∷ []) i l = absurd (omega arith)
get-drop_last (x ∷ y ∷ h) zero l = refl
get-drop_last (x ∷ y ∷ h) (suc i) l = get-drop_last (y ∷ h) i (omega arith)

appended-IsRising : (h : Heap) (x : Deadline) → IsHeap h → IsRising (h ++ x ∷ []) (length h)
appended-IsRising h x heap = record {
  in_range = omega (arith, length-append h (x ∷ []));
  but_one = λ p k c lt ne.
      let k_in : k < length h = omega (arith, length-append h (x ∷ []), lt, ne) in
      omega (
        arith,
        ap deadline_or_zero (get-append_left h (x ∷ []) p (omega (arith, c.0, k_in))),
        ap deadline_or_zero (get-append_left h (x ∷ []) k k_in),
        heap p k (omega arith) c k_in,
      );
  grand = λ g k cg ck lt. absurd (omega (arith, ck.0, lt, length-append h (x ∷ [])));
}

pub push-IsHeap : (h : Heap) (x : Deadline) → IsHeap h → IsHeap (push h x)
unfolding push
push-IsHeap h x heap =
    up-IsHeap (suc (length h)) (h ++ x ∷ []) (length h) (appended-IsRising h x heap) (omega arith)

module _ (h : Heap) (heap : IsHeap h) (n : ℕ) (size : length h ≡ suc n) (more : 0 < n) where
  w : Swapped h (swap h 0 n) 0 n
  w = swap-Swapped h 0 n (omega (arith, size)) (omega (arith, size)) (λ e. omega (arith, more, e))

  swapped-IsSinking : IsSinking 0 n (swap h 0 n) 0
  swapped-IsSinking = record {
    size = omega (arith, w.size, size);
    from = omega arith;
    but_one = λ p k from c lt ne. omega (
      arith,
      w.others p ne (λ e. omega (arith, c.0, lt, e)),
      w.others k (λ e. omega (arith, c.0, e)) (λ e. omega (arith, lt, e)),
      heap p k from c (omega (arith, lt, size)),
    );
    grand = λ g k from cg ck lt. absurd (omega (arith, cg.0));
  }

  abbrev sunk : Heap
  sunk = down (suc n) (swap h 0 n) 0 n

  size-sunk : length sunk ≡ suc n
  size-sunk = length-down (suc n) (swap h 0 n) 0 n ∙ w.size ∙ size

  sunk-IsHeapFrom : IsHeapFrom 0 n sunk
  sunk-IsHeapFrom = down-IsHeapFrom 0 n (suc n) (swap h 0 n) 0 swapped-IsSinking (omega arith)

  cut-IsHeap : IsHeap (drop_last sunk)
  cut-IsHeap = λ p k from c lt.
      let k_in : k < n = omega (arith, lt, length-drop_last sunk, size-sunk) in
      omega (
        arith,
        ap deadline_or_zero (get-drop_last sunk p (omega (arith, c.0, k_in, size-sunk))),
        ap deadline_or_zero (get-drop_last sunk k (omega (arith, k_in, size-sunk))),
        sunk-IsHeapFrom p k from c k_in,
      )

pub pop_lem :
    (h : Heap) (n : ℕ) → length h ≡ suc n → pop h ≡ drop_last (down (suc n) (swap h 0 n) 0 n)
unfolding pop
pop_lem h n e =
    ap (λ m. drop_last (down (suc m) (swap h 0 m) 0 m))
      (let m : length h - 1 ≡ n = omega (arith, e) in m)

pub pop-IsHeap : (h : Heap) → IsHeap h → IsHeap (pop h)
pop-IsHeap h heap = elim (same_or_not (length h - 1) 0) [
  | inl e ↦ λ p k from c lt. absurd (omega (arith, c.0, lt, length-pop h, e))
  | inr ne ↦
      let size : length h ≡ suc (length h - 1) = omega (arith, ne) in
      rw (pop_lem h (length h - 1) size) (cut-IsHeap h heap (length h - 1) size (omega (arith, ne)))
]

heapify-IsHeap : (i : ℕ) (h : Heap) → IsHeapFrom i (length h) h → IsHeap (heapify i h)
unfolding heapify
heapify-IsHeap zero h from = from
heapify-IsHeap (suc i) h from =
    let d = down (suc (length h)) h i (length h) in
    let r : IsSinking i (length h) h i = record {
      size = omega arith;
      from = omega arith;
      but_one = λ p k low c lt ne. from p k (omega (arith, low, ne)) c lt;
      grand = λ g k low cg ck lt. absurd (omega (arith, low, cg.0));
    } in
    let ordered = down-IsHeapFrom i (length h) (suc (length h)) h i r (omega arith) in
    heapify-IsHeap i d (λ p k low c lt.
      ordered p k low c (omega (arith, lt, length-down (suc (length h)) h i (length h))))

-- heap.Init makes a heap of any slice; heap.Push and heap.Pop keep it one.
pub init-IsHeap : (h : Heap) → IsHeap (init h)
unfolding init
init-IsHeap h =
    heapify-IsHeap (length h / 2) h (λ p k low c lt. absurd (omega (arith, low, c.0, lt)))
