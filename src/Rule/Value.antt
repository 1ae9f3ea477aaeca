-- ===== src/Rule/Value.antt =====
-- The values of an interface (`any`), their numeric coercion and their `%v` text.
use rule_engine.Prelude.{suc, Bool, true, false, [], ◌∷◌, ◌++◌, Option, none, some, ℤ, pos, negsuc}
use rule_engine.Text.{Text, bytes, digits}
use rule_engine.Float.{Float}

-- the integer types of Go
pub data IntKind : Type 0 where
  int int8 int16 int32 int64 uint uint8 uint16 uint32 uint64 : IntKind

-- A map holds its entries in the order of their keys, in which `%v` prints them. A float32 is held
-- as the float64 that it equals.
mutual
  pub data Value (F : Type 0) : Type 0 where
    null : Value F
    bool : Bool → Value F
    str : Text → Value F
    float64 : F → Value F
    float32 : F → Value F
    integer : IntKind → ℤ → Value F
    array : Values F → Value F
    object : Entries F → Value F

  pub data Values (F : Type 0) : Type 0 where
    end : Values F
    item : Value F → Values F → Values F

  pub data Entries (F : Type 0) : Type 0 where
    last : Entries F
    entry : Text → Value F → Entries F → Entries F

module _ {F : Type 0} ⦃fl : Float F⦄ where
  -- toFloat64 of the rule usecase
  unfoldable pub to_float64 : Value F → Option F
  to_float64 (float64 n) = some n
  to_float64 (float32 n) = some n
  to_float64 (integer kind n) = some (fl.of_int n)
  to_float64 _ = none

abbrev pub format_int : ℤ → Text
format_int (pos n) = digits n
format_int (negsuc n) = b'-' ∷ digits (suc n)

abbrev pub format_bool : Bool → Text
format_bool true = bytes "true"
format_bool false = bytes "false"

-- fmt.Sprintf("%v", v)
unfoldable mutual
  pub sprint : {F : Type 0} → Float F → Value F → Text
  sprint fl null = bytes "<nil>"
  sprint fl (bool b) = format_bool b
  sprint fl (str s) = s
  sprint fl (float64 n) = fl.format n
  sprint fl (float32 n) = fl.format32 n
  sprint fl (integer kind n) = format_int n
  sprint fl (array vs) = b'[' ∷ (sprint_items fl true vs ++ b']' ∷ [])
  sprint fl (object es) = bytes "map[" ++ (sprint_entries fl true es ++ b']' ∷ [])

  -- elements parted by spaces; the flag says that none was printed yet
  pub sprint_items : {F : Type 0} → Float F → Bool → Values F → Text
  sprint_items fl first end = []
  sprint_items fl true (item v vs) = sprint fl v ++ sprint_items fl false vs
  sprint_items fl false (item v vs) = b' ' ∷ (sprint fl v ++ sprint_items fl false vs)

  pub sprint_entries : {F : Type 0} → Float F → Bool → Entries F → Text
  sprint_entries fl first last = []
  sprint_entries fl true (entry k v es) = k ++ b':' ∷ (sprint fl v ++ sprint_entries fl false es)
  sprint_entries fl false (entry k v es) =
      b' ' ∷ (k ++ b':' ∷ (sprint fl v ++ sprint_entries fl false es))
