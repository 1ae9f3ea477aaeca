-- ===== src/Engine/Deadlines/Down.antt =====
-- The loop `down` of container/heap restores the order below one index.
use rule_engine.Prelude.{
  ℕ, zero, suc, ◌+◌, ◌*◌, ◌<◌, ◌≤◌, ◌≡◌, ◌≢◌, sym, ap, ◌∙◌, true, false, ◌&&◌, arith, length, ltb,
  ltb→lt, ltb→le, inl, inr, Bool-cases, ◌⊎◌,
}
use rule_engine.Engine.Deadlines.{Heap, less, swap, smaller_child, down}
use rule_engine.Engine.Deadlines.Order.{
  key, Swapped, swap-Swapped, less-key, IsChild, IsHeapFrom, same_or_not,
}

-- The order holds among the first n from `low` on but for index i and its children; those do not
-- come before the parent of i.
pub record IsSinking (low n : ℕ) (h : Heap) (i : ℕ) : Type 0 where
  pub size : n ≤ length h
  pub from : low ≤ i
  pub but_one : (p k : ℕ) → low ≤ p → IsChild p k → k < n → p ≢ i → key h p ≤ key h k
  pub grand : (g k : ℕ) → low ≤ g → IsChild g i → IsChild i k → k < n → key h g ≤ key h k

module _ (low n : ℕ) (h : Heap) (i : ℕ) (r : IsSinking low n h i) where
  no_child : n ≤ 2 * i + 1 → IsHeapFrom low n h
  no_child past = λ p k from c lt. r.but_one p k from c lt (λ e. omega (arith, c.0, e, past, lt))

  abbrev left : ℕ
  left = 2 * i + 1

  left_child : (ltb (left + 1) n && less h (left + 1) left) ≡ false → smaller_child h i n ≡ left
  unfolding smaller_child
  left_child e = ground arith

  right_child : (ltb (left + 1) n && less h (left + 1) left) ≡ true → smaller_child h i n ≡ left + 1
  unfolding smaller_child
  right_child e = ground arith

  -- a child of i that no other child comes before
  pub record IsLeast (c : ℕ) : Type 0 where
    pub child : IsChild i c
    pub in_range : c < n
    pub least : (k : ℕ) → IsChild i k → k < n → key h c ≤ key h k

  child_is : (k : ℕ) → IsChild i k → (k ≡ left) ⊎ (k ≡ left + 1)
  child_is k ch = elim (same_or_not k left) [
    | inl e ↦ inl e
    | inr ne ↦ inr (let a = ch.0 in let b = ch.1 in ground arith)
  ]

  first_of_two :
      (c d : ℕ)
      → c < n
      → IsChild i c
      → ((k : ℕ) → IsChild i k → (k ≡ c) ⊎ (k ≡ d))
      → (d < n → key h c ≤ key h d)
      → IsLeast c
  first_of_two c d lt ch two le = record {
    child = ch;
    in_range = lt;
    least = λ k chk ltk. elim (two k chk) [
      | inl e ↦ omega (arith, ap (key h) e)
      | inr e ↦ omega (arith, ap (key h) e, le (omega (arith, e, ltk)))
    ];
  }

  ordered :
      (less h (left + 1) left ≡ false → left + 1 < n → key h left ≤ key h (left + 1))
      × (less h (left + 1) left ≡ true → left + 1 < n → key h (left + 1) ≤ key h left)
  ordered = (
    (λ e lt. ltb→le (key h (left + 1)) (key h left) (
        sym (less-key h (left + 1) left (omega (arith, r.size, lt)) (omega (arith, r.size, lt)))
        ∙ e)),
    (λ e lt. omega (
      arith,
      ltb→lt (key h (left + 1)) (key h left) (
          sym (less-key h (left + 1) left (omega (arith, r.size, lt)) (omega (arith, r.size, lt)))
          ∙ e),
    )),
  )

  smaller_child-IsLeast : left < n → IsLeast (smaller_child h i n)
  smaller_child-IsLeast lt = elim (Bool-cases (ltb (left + 1) n && less h (left + 1) left)) [
    | inr e ↦ rw (left_child e) (
        first_of_two left (left + 1) lt (omega arith, omega arith) child_is
          (λ more. ordered.0 (not_less e more) more))
    | inl e ↦ rw (right_child e) (
        first_of_two (left + 1) left (both e).0 (omega arith, omega arith)
          (λ k ch. other_side (child_is k ch)) (λ l. ordered.1 (both e).1 (both e).0))
  ]
    where
      not_less :
          (ltb (left + 1) n && less h (left + 1) left) ≡ false
          → left + 1 < n
          → less h (left + 1) left ≡ false
      not_less e more = ground arith

      both :
          (ltb (left + 1) n && less h (left + 1) left) ≡ true
          → (left + 1 < n) × (less h (left + 1) left ≡ true)
      both e = (ground arith, ground arith)

      other_side : {A B : Type 0} → A ⊎ B → B ⊎ A
      other_side (inl a) = inr a
      other_side (inr b) = inl b

  module _ (c : ℕ) (m : IsLeast c) where
    settled : key h i ≤ key h c → IsHeapFrom low n h
    settled le = λ p k from ch lt. elim (same_or_not p i) [
      | inl e ↦
          omega
            (arith, le, ap (key h) e, m.least k (omega (arith, ch.0, e), omega (arith, ch.1, e)) lt)
      | inr ne ↦ r.but_one p k from ch lt ne
    ]

    abbrev h' : Heap
    h' = swap h i c

    apart : i ≢ c
    apart e = omega (arith, m.child.0, e)

    pub below : i < length h
    below = omega (arith, m.child.0, m.in_range, r.size)

    w : Swapped h h' i c
    w = swap-Swapped h i c below (omega (arith, m.in_range, r.size)) apart

    module _ (less_than : key h c < key h i) where
      under_i : (k : ℕ) → IsChild i k → k < n → key h' i ≤ key h' k
      under_i k ch lt = elim (same_or_not k c) [
        | inl e ↦ omega (arith, less_than, ap (key h') e, w.left, w.right)
        | inr other ↦
            omega (arith, w.left, w.others k (λ e. omega (arith, ch.0, e)) other, m.least k ch lt)
      ]

      over_i : (p : ℕ) → low ≤ p → IsChild p i → p ≢ c → key h' p ≤ key h' i
      over_i p from ch ne = omega (
        arith,
        w.left,
        w.others p (λ e. omega (arith, ch.0, e)) ne,
        r.grand p c from ch m.child m.in_range,
      )

      elsewhere :
          (p k : ℕ) → low ≤ p → IsChild p k → k < n → p ≢ c → p ≢ i → k ≢ i → key h' p ≤ key h' k
      elsewhere p k from ch lt not_c not_i k_i = omega (
        arith,
        w.others p not_i not_c,
        w.others k k_i (λ e. not_i (omega (arith, ch.0, ch.1, m.child.0, m.child.1, e))),
        r.but_one p k from ch lt not_i,
      )

      sunk : IsSinking low n h' c
      sunk = record {
        size = omega (arith, w.size, r.size);
        from = omega (arith, r.from, m.child.0);
        but_one = λ p k from ch lt not_c. elim (same_or_not p i) [
          | inl e ↦
              omega (
                arith,
                ap (key h') e,
                under_i k (omega (arith, ch.0, e), omega (arith, ch.1, e)) lt,
              )
          | inr not_i ↦ elim (same_or_not k i) [
            | inl e ↦ omega (
              arith,
              ap (key h') e,
              over_i p from (omega (arith, ch.0, e), omega (arith, ch.1, e)) not_c,
            )
            | inr k_i ↦ elsewhere p k from ch lt not_c not_i k_i
          ]
        ];
        grand = λ g k from chg chk lt.
            let e : g ≡ i = omega (arith, chg.0, chg.1, m.child.0, m.child.1) in
            omega (
              arith,
              ap (key h') e,
              w.left,
              w.others k (λ q. omega (arith, chk.0, m.child.0, q)) (λ q. omega (arith, chk.0, q)),
              r.but_one c k (omega (arith, r.from, m.child.0)) chk lt (λ q. apart (sym q)),
            );
      }

  down_leaf : (f : ℕ) → n ≤ left → down (suc f) h i n ≡ h
  unfolding down
  down_leaf f past = ground arith

  down_stop : (f : ℕ) → less h (smaller_child h i n) i ≡ false → down (suc f) h i n ≡ h
  unfolding down
  down_stop f e = ground arith

  down_sinks :
      (f : ℕ)
      → left < n
      → less h (smaller_child h i n) i ≡ true
      → down (suc f) h i n ≡ down f (swap h i (smaller_child h i n)) (smaller_child h i n) n
  unfolding down
  down_sinks f lt e = ground arith

-- down restores the order, with fuel that reaches to the last index.
pub down-IsHeapFrom :
    (low n f : ℕ) (h : Heap) (i : ℕ)
    → IsSinking low n h i
    → n ≤ f + i
    → IsHeapFrom low n (down f h i n)
down-IsHeapFrom low n zero h i r l = unfold down in no_child low n h i r (omega arith)
down-IsHeapFrom low n (suc f) h i r l = elim (Bool-cases (ltb (left low n h i r) n)) [
  | inr past ↦
      let p = ltb→le (left low n h i r) n past in
      rw (down_leaf low n h i r f p) (no_child low n h i r p)
  | inl more ↦
      let lt = ltb→lt (left low n h i r) n more in
      let c = smaller_child h i n in
      let m = smaller_child-IsLeast low n h i r lt in
      let compared = less-key h c i (omega (arith, m.in_range, r.size)) (below low n h i r c m) in
      elim (Bool-cases (less h c i)) [
        | inr stay ↦
            rw (down_stop low n h i r f stay)
              (settled low n h i r c m (ltb→le (key h c) (key h i) (sym compared ∙ stay)))
        | inl sink ↦ rw (down_sinks low n h i r f lt sink) (
            down-IsHeapFrom low n f (swap h i c) c
              (sunk low n h i r c m (ltb→lt (key h c) (key h i) (sym compared ∙ sink)))
              (omega (arith, m.child.0)))
      ]
]
