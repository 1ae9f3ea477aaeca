-- ===== src/Engine/Deadlines/Held.antt =====
-- heap.Pop of negative_queue.go takes the first deadline and no other.
use rule_engine.Prelude.{
  ℕ, zero, suc, ◌+◌, ◌-◌, ◌*◌, ◌<◌, ◌≤◌, ◌≡◌, ◌≢◌, sym, ap, ◌∙◌, some, true, false, not, ◌||◌, ◌&&◌,
  arith, length, get_elem?, set, inl, inr, ◌⊎◌, Bool-cases, leb, ltb, length-set,
}
use rule_engine.Engine.Deadlines.{Deadline, Heap, less, swap, smaller_child, down, pop}
use rule_engine.Engine.Deadlines.Size.{length-down, length-swap, length-pop}
use rule_engine.Engine.Deadlines.Order.{
  get-set_same, get-set_other, get_below, same_or_not, swap_lem,
}
use rule_engine.Engine.Deadlines.Ordered.{get-drop_last, pop_lem}

-- a deadline among the first n
abbrev pub IsHeldIn : ℕ → Deadline → Heap → Type 0
IsHeldIn n x h = (k : ℕ) × (k < n) × (get_elem? h k ≡ some x)

abbrev pub IsHeld : Deadline → Heap → Type 0
IsHeld x h = IsHeldIn (length h) x h

module _ (h : Heap) (i j : ℕ) (li : i < length h) (lj : j < length h) where
  get-swap_right : get_elem? (swap h i j) j ≡ get_elem? h i
  get-swap_right =
      let (x, ex) = get_below h i li in
      let (y, ey) = get_below h j lj in
      rw (swap_lem h i j li lj x y ex ey)
        (get-set_same (set h i y) j x (omega (arith, lj, length-set h i y)) ∙ sym ex)

  get-swap_left : get_elem? (swap h i j) i ≡ get_elem? h j
  get-swap_left = elim (same_or_not i j) [
    | inl e ↦ ap (get_elem? (swap h i j)) e ∙ get-swap_right ∙ ap (get_elem? h) e
    | inr ne ↦
        let (x, ex) = get_below h i li in
        let (y, ey) = get_below h j lj in
        rw (swap_lem h i j li lj x y ex ey)
          (get-set_other (set h i y) j i x ne ∙ get-set_same h i y li ∙ sym ey)
  ]

  get-swap_other : (k : ℕ) → k ≢ i → k ≢ j → get_elem? (swap h i j) k ≡ get_elem? h k
  get-swap_other k a b =
      let (x, ex) = get_below h i li in
      let (y, ey) = get_below h j lj in
      rw (swap_lem h i j li lj x y ex ey)
        (get-set_other (set h i y) j k x b ∙ get-set_other h i k y a)

  swap-IsHeldIn :
      (n : ℕ) (x : Deadline) → i < n → j < n → IsHeldIn n x h → IsHeldIn n x (swap h i j)
  swap-IsHeldIn n x ni nj (k, lt, e) = elim (same_or_not k i) [
    | inl q ↦ (j, nj, get-swap_right ∙ sym (ap (get_elem? h) q) ∙ e)
    | inr a ↦ elim (same_or_not k j) [
      | inl q ↦ (i, ni, get-swap_left ∙ sym (ap (get_elem? h) q) ∙ e)
      | inr b ↦ (k, lt, get-swap_other k a b ∙ e)
    ]
  ]

smaller_child-lt :
    (h : Heap) (i n : ℕ) → 2 * i + 1 < n → (smaller_child h i n < n) × (i < smaller_child h i n)
unfolding smaller_child
smaller_child-lt h i n lt =
    elim (Bool-cases (ltb (2 * i + 1 + 1) n && less h (2 * i + 1 + 1) (2 * i + 1))) [
      | inl e ↦ (ground arith, ground arith)
      | inr e ↦ (ground arith, ground arith)
    ]

down_ends :
    (f : ℕ) (h : Heap) (i n : ℕ)
    → (leb n (2 * i + 1) || not (less h (smaller_child h i n) i)) ≡ true
    → down (suc f) h i n ≡ h
unfolding down
down_ends f h i n e = ground arith

down_sinks :
    (f : ℕ) (h : Heap) (i n : ℕ)
    → (leb n (2 * i + 1) || not (less h (smaller_child h i n) i)) ≡ false
    → down (suc f) h i n ≡ down f (swap h i (smaller_child h i n)) (smaller_child h i n) n
unfolding down
down_sinks f h i n e = ground arith

down-IsHeldIn :
    (f : ℕ) (h : Heap) (i n : ℕ) (x : Deadline)
    → n ≤ length h
    → IsHeldIn n x h
    → IsHeldIn n x (down f h i n)
down-IsHeldIn zero h i n x l held = unfold down in held
down-IsHeldIn (suc f) h i n x l held =
    elim (Bool-cases (leb n (2 * i + 1) || not (less h (smaller_child h i n) i))) [
      | inl e ↦ rw (down_ends f h i n e) held
      | inr e ↦
          let c = smaller_child h i n in
          let left : 2 * i + 1 < n = ground arith in
          let (c_in, i_before) = smaller_child-lt h i n left in
          rw (down_sinks f h i n e) (
            down-IsHeldIn f (swap h i c) c n x (omega (arith, l, length-swap h i c)) (
              swap-IsHeldIn h i c (omega (arith, l, left)) (omega (arith, l, c_in)) n x
                (omega (arith, left)) c_in held))
    ]

-- a deadline that is held is the first, or is held after the pop
pub pop-IsHeld :
    (h : Heap) (x : Deadline) → IsHeld x h → (get_elem? h 0 ≡ some x) ⊎ IsHeld x (pop h)
pop-IsHeld h x (k, lt, e) = elim (same_or_not k 0) [
  | inl q ↦ inl (sym (ap (get_elem? h) q) ∙ e)
  | inr ne ↦
      let n = length h - 1 in
      let size : length h ≡ suc n = omega (arith, lt) in
      let d = down (suc n) (swap h 0 n) 0 n in
      let moved : IsHeldIn n x (swap h 0 n) = elim (same_or_not k n) [
        | inl q ↦ (
          0,
          omega (arith, lt, ne, q),
          get-swap_left h 0 n (omega (arith, lt)) (omega (arith, lt))
              ∙ sym (ap (get_elem? h) q)
              ∙ e,
        )
        | inr other ↦ (
          k,
          omega (arith, lt, other),
          get-swap_other h 0 n (omega (arith, lt)) (omega (arith, lt)) k ne other ∙ e,
        )
      ] in
      let length_d : length d ≡ suc n =
        length-down (suc n) (swap h 0 n) 0 n ∙ length-swap h 0 n ∙ size in
      let (j, j_in, there) =
        down-IsHeldIn (suc n) (swap h 0 n) 0 n x (omega (arith, size, length-swap h 0 n)) moved in
      inr (
        j,
        omega (arith, j_in, length-pop h),
        ap (λ t. get_elem? t j) (pop_lem h n size)
            ∙ get-drop_last d j (omega (arith, j_in, length_d))
            ∙ there,
      )
]
