-- ===== src/Time.antt =====
-- time.Time and time.Duration. A time counts nanoseconds from Go's zero time (year 1), so an int64
-- of Unix seconds or nanoseconds stands here shifted by the Unix epoch; a duration is an int64.
use rule_engine.Prelude.{
  ℕ, zero, suc, ◌+◌, ◌-◌, ◌*◌, ◌%◌, ◌^◌, Bool, ltb, nat_beq, if◌then◌else◌, ℤ, pos, negsuc, sub_ℕ,
}

abbrev pub Time : Type 0
Time = ℕ

abbrev pub Duration : Type 0
Duration = ℤ

abbrev pub second : ℕ
second = 1_000_000_000

abbrev pub minute : ℕ
minute = 60_000_000_000

-- the Unix epoch, in seconds and in nanoseconds from the zero time
abbrev pub unix_epoch : ℕ
unix_epoch = 62_135_596_800

abbrev pub unix_epoch_nanos : ℕ
unix_epoch_nanos = 62_135_596_800_000_000_000

-- `t.IsZero()`
abbrev pub is_zero : Time → Bool
is_zero t = nat_beq t 0

-- `a.After(b)`
abbrev pub is_after : Time → Time → Bool
is_after a b = ltb b a

-- `t.Add(d)`; what would lie before the zero time is the zero time
unfoldable pub add_time : Time → Duration → Time
add_time t (pos n) = t + n
add_time t (negsuc n) = t - suc n

-- `-d` in an int64, whose least value is its own negation
unfoldable pub negate : Duration → Duration
negate (pos zero) = pos 0
negate (pos (suc n)) = negsuc n
negate (negsuc n) = if nat_beq n 9_223_372_036_854_775_807 then negsuc n else pos (suc n)

-- `a.Sub(b)`, which saturates at the bounds of an int64
unfoldable pub sub_time : Time → Time → Duration
sub_time a b =
    if ltb (b + 9_223_372_036_854_775_807) a
    then pos 9_223_372_036_854_775_807
    else if ltb (a + 9_223_372_036_854_775_808) b
    then negsuc 9_223_372_036_854_775_807
    else sub_ℕ a b

-- `t.UnixNano()`, an int64 that wraps around outside the years 1678 to 2262, shifted like a time
unfoldable pub unix_nano : Time → Time
unix_nano t = (t + 3 * 2 ^ 64 - (unix_epoch_nanos - 2 ^ 63)) % 2 ^ 64 + (unix_epoch_nanos - 2 ^ 63)

-- `t.Add(d).UnixNano()`, which counts modulo 2^64: the 2^64 added keep it exact where `t.Add(d)` lies
-- before the zero time
unfoldable pub unix_nano_of_sum : Time → Duration → Time
unfolding unix_nano add_time
unix_nano_of_sum t d = unix_nano (add_time (t + 2 ^ 64) d)

-- laterOf
unfoldable pub later_of : Time → Time → Time
later_of a b = if is_after b a then b else a
