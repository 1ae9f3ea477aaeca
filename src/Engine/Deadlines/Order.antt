-- ===== src/Engine/Deadlines/Order.antt =====
-- The order of the heap of negative_queue.go: Less and Swap by the deadlines at the indices.
use rule_engine.Prelude.{
  ℕ, zero, suc, ◌+◌, ◌*◌, ◌<◌, ◌≤◌, ◌≡◌, ◌≢◌, refl, ◌∙◌, ap, [], ◌∷◌, Option, none, some, arith,
  length, get_elem?, set, ltb, length-set, sym, List, ◌⊎◌, inl, inr, Bool-cases, nat_beq,
}
use rule_engine.Time.{Time}
use rule_engine.Engine.Deadlines.{Deadline, Heap, less, swap}

module _ {ℓ} {A : Type ℓ} where
  pub get-set_same : (h : List A) (i : ℕ) (v : A) → i < length h → get_elem? (set h i v) i ≡ some v
  get-set_same [] i v l = absurd (omega arith)
  get-set_same (x ∷ h) zero v l = refl
  get-set_same (x ∷ h) (suc i) v l = get-set_same h i v (omega arith)

  pub get-set_other :
      (h : List A) (i k : ℕ) (v : A) → k ≢ i → get_elem? (set h i v) k ≡ get_elem? h k
  get-set_other [] i k v ne = refl
  get-set_other (x ∷ h) zero zero v ne = absurd (ne refl)
  get-set_other (x ∷ h) zero (suc k) v ne = refl
  get-set_other (x ∷ h) (suc i) zero v ne = refl
  get-set_other (x ∷ h) (suc i) (suc k) v ne = get-set_other h i k v (λ e. ne (ap suc e))

  pub get_below : (h : List A) (i : ℕ) → i < length h → (x : A) × (get_elem? h i ≡ some x)
  get_below [] i l = absurd (omega arith)
  get_below (x ∷ h) zero l = (x, refl)
  get_below (x ∷ h) (suc i) l = get_below h i (omega arith)

abbrev pub deadline_or_zero : Option Deadline → Time
deadline_or_zero none = 0
deadline_or_zero (some x) = x.deadline

-- the deadline at an index
abbrev pub key : Heap → ℕ → Time
key h i = deadline_or_zero (get_elem? h i)

-- what Swap does to the deadlines
pub record Swapped (h h' : Heap) (i j : ℕ) : Type 0 where
  pub size : length h' ≡ length h
  pub left : key h' i ≡ key h j
  pub right : key h' j ≡ key h i
  pub others : (k : ℕ) → k ≢ i → k ≢ j → key h' k ≡ key h k

module _ (h : Heap) (i j : ℕ) (li : i < length h) (lj : j < length h) where
  pub swap_lem :
      (x y : Deadline)
      → get_elem? h i ≡ some x
      → get_elem? h j ≡ some y
      → swap h i j ≡ set (set h i y) j x
  unfolding swap
  swap_lem x y ex ey = ground arith

  swapped :
      (x y : Deadline)
      → get_elem? h i ≡ some x
      → get_elem? h j ≡ some y
      → i ≢ j
      → Swapped h (set (set h i y) j x) i j
  swapped x y ex ey ne = record {
    size = length-set (set h i y) j x ∙ length-set h i y;
    left =
        ap deadline_or_zero (get-set_other (set h i y) j i x ne ∙ get-set_same h i y li ∙ sym ey);
    right =
        ap deadline_or_zero
          (get-set_same (set h i y) j x (omega (arith, length-set h i y, lj)) ∙ sym ex);
    others =
        λ k a b. ap deadline_or_zero (get-set_other (set h i y) j k x b ∙ get-set_other h i k y a);
  }

  pub swap-Swapped : i ≢ j → Swapped h (swap h i j) i j
  swap-Swapped ne =
      let (x, ex) = get_below h i li in
      let (y, ey) = get_below h j lj in rw (swap_lem x y ex ey) (swapped x y ex ey ne)

  pub less-key : less h i j ≡ ltb (key h i) (key h j)
  unfolding less
  less-key = let (x, ex) = get_below h i li in let (y, ey) = get_below h j lj in ground arith

-- a node and one of its children
abbrev pub IsChild : ℕ → ℕ → Type 0
IsChild p k = (2 * p + 1 ≤ k) × (k ≤ 2 * p + 2)

-- Of the first n deadlines none comes before its parent's, for the parents from `low` on.
abbrev pub IsHeapFrom : ℕ → ℕ → Heap → Type 0
IsHeapFrom low n h = (p k : ℕ) → low ≤ p → IsChild p k → k < n → key h p ≤ key h k

-- the order that container/heap keeps
abbrev pub IsHeap : Heap → Type 0
IsHeap h = IsHeapFrom 0 (length h) h

pub same_or_not : (a b : ℕ) → (a ≡ b) ⊎ (a ≢ b)
same_or_not a b = elim (Bool-cases (nat_beq a b)) [
  | inl same ↦ inl (ground arith)
  | inr other ↦ inr (λ e. ground arith)
]
