-- ===== src/Text.antt =====
-- Go strings as lists of bytes, and what the program calls of package strings.
pub mod Number
use Prim.Native.Nat.{suc}
use Prim.Native.Char.{code}
use Prim.Native.String.{String}
use rule_engine.Prelude.{
  some, none, Option, ℕ, zero, ◌+◌, ◌-◌, ◌/◌, ◌%◌, ◌≡◌, refl, ◌↔◌, Bool, true, false, ◌&&◌, ◌||◌,
  List, [], ◌∷◌, arith, leb, ltb, nat_beq, if◌then◌else◌, Equality, length, map,
}

abbrev pub Text : Type 0
Text = List ℕ

-- The bytes of an ASCII literal.
abbrev pub bytes : String → Text
bytes String.[] = []
bytes (String.◌∷◌ c s) = code c ∷ bytes s

unfoldable pub text_beq : Text → Text → Bool
text_beq [] [] = true
text_beq (a ∷ s) (b ∷ t) = nat_beq a b && text_beq s t
text_beq [] (b ∷ t) = false
text_beq (a ∷ s) [] = false

pub text_beq_iff : (s t : Text) → (text_beq s t ≡ true) ↔ (s ≡ t)
unfolding text_beq
text_beq_iff [] [] = (λ h. refl, λ h. refl)
text_beq_iff (a ∷ s) (b ∷ t) = ground (arith, text_beq_iff s t)
text_beq_iff [] (b ∷ t) = ground arith
text_beq_iff (a ∷ s) [] = ground arith

instance abbrev pub text_eq : Equality Text
text_eq = record { same = text_beq; same_iff = text_beq_iff }

-- strings.Contains with a one-byte text
unfoldable pub contains_byte : ℕ → Text → Bool
contains_byte c [] = false
contains_byte c (b ∷ s) = nat_beq b c || contains_byte c s

-- strings.HasPrefix
unfoldable pub has_prefix : Text → Text → Bool
has_prefix s [] = true
has_prefix [] (p ∷ ps) = false
has_prefix (b ∷ s) (p ∷ ps) = nat_beq b p && has_prefix s ps

-- `s[n:]`, n at most the length
unfoldable pub drop_bytes : ℕ → Text → Text
drop_bytes zero s = s
drop_bytes (suc n) [] = []
drop_bytes (suc n) (b ∷ s) = drop_bytes n s

-- strings.TrimPrefix
unfoldable pub trim_prefix : Text → Text → Text
unfolding has_prefix drop_bytes
trim_prefix s p = if has_prefix s p then drop_bytes (length p) s else s

-- strings.ToUpper and strings.ToLower on ASCII
unfoldable pub to_upper : Text → Text
to_upper = map (λ b. if leb b'a' b && leb b b'z' then b - 32 else b)

unfoldable pub to_lower : Text → Text
to_lower = map (λ b. if leb b'A' b && leb b b'Z' then b + 32 else b)

-- The text before the first `c`, and what follows it.
unfoldable pub cut : ℕ → Text → Text × Option Text
cut c [] = ([], none)
cut c (b ∷ s) =
    let (before, after) = cut c s in if nat_beq b c then ([], some s) else (b ∷ before, after)

-- strings.SplitN with a one-byte separator: at most `n` parts, the last one unsplit.
unfoldable pub split_n : ℕ → ℕ → Text → List Text
unfolding cut
split_n c zero s = []
split_n c (suc zero) s = s ∷ []
split_n c (suc (suc n)) s =
    let (before, after) = cut c s in
    elim after [ none ↦ before ∷ [] | some rest ↦ before ∷ split_n c (suc n) rest ]

-- Decimal digits, most significant first, with fuel for the number of digits.
unfoldable pub digits_fuel : ℕ → ℕ → Text → Text
digits_fuel zero n acc = acc
digits_fuel (suc f) n acc =
    let digit = b'0' + n % 10 in
    let rest = digits_fuel f (n / 10) (digit ∷ acc) in if ltb n 10 then digit ∷ acc else rest

unfoldable pub digits : ℕ → Text
unfolding digits_fuel
digits n = digits_fuel (suc n) n []
