-- ===== src/Engine/Deadlines/Size.antt =====
-- The heap operations keep or change the length by one.
use rule_engine.Prelude.{
  ℕ, zero, suc, ◌+◌, ◌-◌, ◌/◌, ◌≡◌, refl, ◌∙◌, [], ◌∷◌, ◌++◌, arith, length, length-append,
  length-set, set,
}
use rule_engine.Engine.Deadlines.{
  Deadline, Heap, swap, up, down, smaller_child, push, pop, drop_last,
}

length-set-set : (h : Heap) (i j : ℕ) (x y : Deadline) → length (set (set h i y) j x) ≡ length h
length-set-set h i j x y = length-set (set h i y) j x ∙ length-set h i y

pub length-swap : (h : Heap) (i j : ℕ) → length (swap h i j) ≡ length h
unfolding swap
length-swap h i j = grind (arith, length-set-set)

pub length-up : (f : ℕ) (h : Heap) (j : ℕ) → length (up f h j) ≡ length h
unfolding up
length-up zero h j = refl
length-up (suc f) h j =
    ground
      (arith, length-up f (swap h ((j - 1) / 2) j) ((j - 1) / 2), length-swap h ((j - 1) / 2) j)

pub length-down : (f : ℕ) (h : Heap) (i n : ℕ) → length (down f h i n) ≡ length h
unfolding down
length-down zero h i n = refl
length-down (suc f) h i n =
    let child = smaller_child h i n in
    ground (arith, length-down f (swap h i child) child n, length-swap h i child)

pub length-drop_last : (h : Heap) → length (drop_last h) ≡ length h - 1
unfolding drop_last
length-drop_last [] = refl
length-drop_last (x ∷ []) = refl
length-drop_last (x ∷ y ∷ h) = omega (arith, length-drop_last (y ∷ h))

pub length-push : (h : Heap) (x : Deadline) → length (push h x) ≡ length h + 1
unfolding push
length-push h x =
    omega (arith, length-up (suc (length h)) (h ++ x ∷ []) (length h), length-append h (x ∷ []))

pub length-pop : (h : Heap) → length (pop h) ≡ length h - 1
unfolding pop
length-pop h =
    let n = length h - 1 in
    omega (
      arith,
      length-drop_last (down (suc n) (swap h 0 n) 0 n),
      length-down (suc n) (swap h 0 n) 0 n,
      length-swap h 0 n,
    )
