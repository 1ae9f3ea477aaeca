-- ===== src/Float.antt =====
-- float64: the type is a parameter, and so are the operations of the hardware and of strconv.
use rule_engine.Prelude.{Bool, ℤ}
use rule_engine.Text.{Text}

pub record Float (F : Type 0) : Type 0 where
  pub zero : F
  pub of_int : ℤ → F
  pub add : F → F → F
  pub div : F → F → F
  pub lt : F → F → Bool
  pub le : F → F → Bool
  pub eq : F → F → Bool
  -- fmt's `%v` of a float64
  pub format : F → Text
  -- the same of a float32, in the digits that tell it apart from other float32
  pub format32 : F → Text
