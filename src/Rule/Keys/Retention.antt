-- ===== src/Rule/Keys/Retention.antt =====
-- MaxWindowFromKeys of aggregate.go bounds the window of every key.
use rule_engine.Prelude.{List, [], ◌∷◌, arith, pos, ◌≤ℤ◌, ltb_ℤ, Each, if◌then◌else◌}
use rule_engine.Time.{Duration}
use rule_engine.Rule.Window.{duration}
use rule_engine.Rule.Context.{AggregateKey}
use rule_engine.Rule.Keys.{max_window_loop, max_window_from_keys}

longer_lem :
    (m d : Duration) → (m ≤ℤ (if ltb_ℤ m d then d else m)) × (d ≤ℤ (if ltb_ℤ m d then d else m))
longer_lem m d = ground arith

loop-le : (m : Duration) (ks : List AggregateKey) → m ≤ℤ max_window_loop m ks
unfolding max_window_loop
loop-le m [] = omega arith
loop-le m (k ∷ ks) = omega (
  arith,
  (longer_lem m (duration k.window)).0,
  loop-le (if ltb_ℤ m (duration k.window) then duration k.window else m) ks,
)

loop-Each :
    (m : Duration) (ks : List AggregateKey)
    → Each (λ k. duration k.window ≤ℤ max_window_loop m ks) ks
unfolding max_window_loop
loop-Each m [] = tt
loop-Each m (k ∷ ks) = (
  omega (
    arith,
    (longer_lem m (duration k.window)).1,
    loop-le (if ltb_ℤ m (duration k.window) then duration k.window else m) ks,
  ),
  loop-Each (if ltb_ℤ m (duration k.window) then duration k.window else m) ks,
)

-- The retention that a rule set asks for is not negative, and no window of its aggregate keys is
-- longer.
pub max_window_from_keys-bounds :
    (keys : List AggregateKey)
    → (pos 0 ≤ℤ max_window_from_keys keys)
      × Each (λ k. duration k.window ≤ℤ max_window_from_keys keys) keys
unfolding max_window_from_keys
max_window_from_keys-bounds keys = (loop-le (pos 0) keys, loop-Each (pos 0) keys)
