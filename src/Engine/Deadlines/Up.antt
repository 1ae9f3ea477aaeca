-- ===== src/Engine/Deadlines/Up.antt =====
-- The loop `up` of container/heap restores the order above one index.
use rule_engine.Prelude.{
  ℕ, zero, suc, ◌-◌, ◌/◌, ◌<◌, ◌≤◌, ◌≡◌, ◌≢◌, ◌∙◌, true, false, arith, length, ltb→lt, ltb→le, inl,
  inr, Bool-cases, ap, sym,
}
use rule_engine.Engine.Deadlines.{Heap, less, swap, up}
use rule_engine.Engine.Deadlines.Order.{
  key, Swapped, swap-Swapped, less-key, IsChild, IsHeap, same_or_not,
}

-- The order holds but for index j and its parent; the children of j do not come before that parent.
pub record IsRising (h : Heap) (j : ℕ) : Type 0 where
  pub in_range : j < length h
  pub but_one : (p k : ℕ) → IsChild p k → k < length h → k ≢ j → key h p ≤ key h k
  pub grand : (g k : ℕ) → IsChild g j → IsChild j k → k < length h → key h g ≤ key h k

module _ (h : Heap) (j : ℕ) (r : IsRising h j) where
  up_root : (f : ℕ) → j ≡ 0 → up (suc f) h j ≡ h
  unfolding up
  up_root f e = ground arith

  root_ordered : j ≡ 0 → IsHeap h
  root_ordered e = λ p k low c lt. r.but_one p k c lt (omega (arith, c.0, e))

  module _ (i : ℕ) (child : IsChild i j) where
    -- the parent of j is i
    parent_is : (p k : ℕ) → IsChild p k → k ≡ j → p ≡ i
    parent_is p k c e = omega (arith, c.0, c.1, child.0, child.1, e)

    in_order : key h i ≤ key h j → IsHeap h
    in_order le = λ p k low c lt. elim (same_or_not k j) [
      | inl e ↦ omega (arith, le, ap (key h) e, ap (key h) (parent_is p k c e))
      | inr ne ↦ r.but_one p k c lt ne
    ]

    apart : i ≢ j
    apart e = omega (arith, child.0, e)

    below : i < length h
    below = omega (arith, child.0, r.in_range)

    abbrev h' : Heap
    h' = swap h i j

    w : Swapped h h' i j
    w = swap-Swapped h i j below r.in_range apart

    module _ (less_than : key h j < key h i) where
      but_one : (p k : ℕ) → IsChild p k → k < length h → k ≢ i → key h' p ≤ key h' k
      but_one p k c lt ne = elim (same_or_not k j) [
        | inl e ↦
            omega
              (arith, less_than, ap (key h') e, ap (key h') (parent_is p k c e), w.left, w.right)
        | inr other ↦ elim (same_or_not p i) [
          | inl e ↦ omega (
            arith,
            less_than,
            ap (key h') e,
            w.left,
            w.others k ne other,
            r.but_one i k (omega (arith, c.0, e), omega (arith, c.1, e)) lt other,
          )
          | inr not_i ↦ elim (same_or_not p j) [
            | inl e ↦ omega (
              arith,
              ap (key h') e,
              w.right,
              w.others k ne other,
              r.grand i k child (omega (arith, c.0, e), omega (arith, c.1, e)) lt,
            )
            | inr not_j ↦
                omega (arith, w.others p not_i not_j, w.others k ne other, r.but_one p k c lt other)
          ]
        ]
      ]

      grand : (g k : ℕ) → IsChild g i → IsChild i k → k < length h → key h' g ≤ key h' k
      grand g k cg ck lt =
          let up = r.but_one g i cg below apart in
          let same =
            w.others g (λ e. omega (arith, cg.0, e)) (λ e. omega (arith, cg.0, child.0, e)) in
          elim (same_or_not k j) [
            | inl e ↦ omega (arith, up, same, ap (key h') e, w.right)
            | inr other ↦ omega (
              arith,
              up,
              same,
              w.others k (λ e. omega (arith, ck.0, e)) other,
              r.but_one i k ck lt other,
            )
          ]

      risen : IsRising h' i
      risen = record {
        in_range = omega (arith, w.size, below);
        but_one = λ p k c lt ne. but_one p k c (omega (arith, lt, w.size)) ne;
        grand = λ g k cg ck lt. grand g k cg ck (omega (arith, lt, w.size));
      }

  abbrev parent : ℕ
  parent = (j - 1) / 2

  up_stop : (f : ℕ) → less h j parent ≡ false → up (suc f) h j ≡ h
  unfolding up
  up_stop f e = ground arith

  up_rises :
      (f : ℕ) → parent ≢ j → less h j parent ≡ true → up (suc f) h j ≡ up f (swap h parent j) parent
  unfolding up
  up_rises f ne e = ground arith

-- up makes the slice a heap, with fuel above the index.
pub up-IsHeap : (f : ℕ) (h : Heap) (j : ℕ) → IsRising h j → j < f → IsHeap (up f h j)
up-IsHeap zero h j r l = absurd (omega arith)
up-IsHeap (suc f) h j r l = elim (same_or_not j 0) [
  | inl e ↦ rw (up_root h j r f e) (root_ordered h j r e)
  | inr ne ↦
      let i = (j - 1) / 2 in
      let not_zero : 0 < j = ground arith in
      let child : IsChild i j = (omega arith, omega arith) in
      let i_below = below h j r i child in
      elim (Bool-cases (less h j i)) [
        | inr stay ↦ rw (up_stop h j r f stay) (
            in_order h j r i child
              (ltb→le (key h j) (key h i) (sym (less-key h j i r.in_range i_below) ∙ stay)))
        | inl rise ↦ rw (up_rises h j r f (apart h j r i child) rise) (
            up-IsHeap f (swap h i j) i
              (risen h j r i child
                (ltb→lt (key h j) (key h i) (sym (less-key h j i r.in_range i_below) ∙ rise)))
              (omega arith))
      ]
]
