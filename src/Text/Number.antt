-- ===== src/Text/Number.antt =====
-- What the program calls of package strconv: Atoi and ParseUint in base 10 for 64 bits.
use rule_engine.Prelude.{
  some, none, Option, ℕ, zero, suc, ◌+◌, ◌-◌, ◌*◌, ◌/◌, ◌%◌, ◌^◌, ◌<◌, ◌≡◌, refl, ap, ◌∙◌, ◌≢◌,
  Bool, true, false, ◌&&◌, [], ◌∷◌, arith, leb, ltb, nat_beq, if◌then◌else◌, ℤ, pos, negsuc,
}
use mathlib.Core.List.{cons-ne-nil}
use rule_engine.Text.{Text, digits_fuel, digits}

-- The number that decimal digits spell, after those read so far; none at any other byte.
unfoldable pub scan_digits : Text → ℕ → Option ℕ
scan_digits [] n = some n
scan_digits (c ∷ s) n =
    let rest = scan_digits s (n * 10 + (c - b'0')) in
    if leb b'0' c && leb c b'9' then rest else none

-- a number below the bound
abbrev pub below : ℕ → Option ℕ → Option ℕ
below bound none = none
below bound (some n) = if ltb n bound then some n else none

-- strconv.ParseUint(s, 10, 64); none is an error
unfoldable pub parse_uint : Text → Option ℕ
parse_uint [] = none
parse_uint (c ∷ s) = below (2 ^ 64) (scan_digits (c ∷ s) 0)

abbrev pub int_of_magnitude : Bool → Option ℕ → Option ℤ
int_of_magnitude negative none = none
int_of_magnitude false (some n) = some (pos n)
int_of_magnitude true (some zero) = some (pos 0)
int_of_magnitude true (some (suc n)) = some (negsuc n)

-- the digits after the sign
abbrev pub scan_magnitude : Text → ℕ → Option ℕ
scan_magnitude [] bound = none
scan_magnitude (c ∷ s) bound = below bound (scan_digits (c ∷ s) 0)

-- strconv.Atoi, where int has 64 bits
unfoldable pub atoi : Text → Option ℤ
atoi [] = none
atoi (c ∷ s) =
    if nat_beq c b'-'
    then int_of_magnitude true (scan_magnitude s (2 ^ 63 + 1))
    else if nat_beq c b'+'
    then int_of_magnitude false (scan_magnitude s (2 ^ 63))
    else int_of_magnitude false (scan_magnitude (c ∷ s) (2 ^ 63))

digit_scanned :
    (n : ℕ) (acc : Text) → scan_digits ((b'0' + n % 10) ∷ acc) (n / 10) ≡ scan_digits acc n
unfolding scan_digits
digit_scanned n acc = ground arith

small_digit :
    (n : ℕ) (acc : Text) → n < 10 → scan_digits ((b'0' + n % 10) ∷ acc) 0 ≡ scan_digits acc n
small_digit n acc h = ap (scan_digits ((b'0' + n % 10) ∷ acc)) (omega arith) ∙ digit_scanned n acc

scan_digits-digits_fuel :
    (f n : ℕ) (acc : Text) → n < f → scan_digits (digits_fuel f n acc) 0 ≡ scan_digits acc n
unfolding digits_fuel
scan_digits-digits_fuel zero n acc h = absurd (omega (arith, h))
scan_digits-digits_fuel (suc f) n acc h = ground (
  arith,
  small_digit n acc,
  digit_scanned n acc,
  scan_digits-digits_fuel f (n / 10) ((b'0' + n % 10) ∷ acc),
)

pub scan_digits-digits : (n : ℕ) → scan_digits (digits n) 0 ≡ some n
unfolding digits scan_digits
scan_digits-digits n = scan_digits-digits_fuel (suc n) n [] (omega arith)

digits_fuel-ne-nil : (f n c : ℕ) (acc : Text) → digits_fuel f n (c ∷ acc) ≢ []
unfolding digits_fuel
digits_fuel-ne-nil zero n c acc = cons-ne-nil c acc
digits_fuel-ne-nil (suc f) n c acc = ground (
  arith,
  cons-ne-nil (b'0' + n % 10) (c ∷ acc),
  digits_fuel-ne-nil f (n / 10) (b'0' + n % 10) (c ∷ acc),
)

pub digits-ne-nil : (n : ℕ) → digits n ≢ []
unfolding digits digits_fuel
digits-ne-nil n =
    ground (arith, cons-ne-nil (b'0' + n % 10) [], digits_fuel-ne-nil n (n / 10) (b'0' + n % 10) [])

parse_uint_nonempty : (s : Text) → s ≢ [] → parse_uint s ≡ below (2 ^ 64) (scan_digits s 0)
unfolding parse_uint
parse_uint_nonempty [] h = absurd (h refl)
parse_uint_nonempty (c ∷ s) h = refl

pub parse_uint-digits : (n : ℕ) → n < 2 ^ 64 → parse_uint (digits n) ≡ some n
parse_uint-digits n h =
    parse_uint_nonempty (digits n) (digits-ne-nil n)
    ∙ ap (below (2 ^ 64)) (scan_digits-digits n)
    ∙ ground arith

pub digits_injective : (m n : ℕ) → digits m ≡ digits n → m ≡ n
digits_injective m n e =
    cc (scan_digits-digits m, scan_digits-digits n, ap (λ s. scan_digits s 0) e)
