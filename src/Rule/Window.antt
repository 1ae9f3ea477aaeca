-- ===== src/Rule/Window.antt =====
-- TimeWindow and Duration of service/base/rule/model/entity.go.
use rule_engine.Prelude.{◌==◌, ℤ, pos, ◌*ℤ◌, wrap64, Option, none, some, if◌then◌else◌}
use rule_engine.Text.{Text, text_eq, bytes, to_lower}
use rule_engine.Time.{Duration}

pub record TimeWindow : Type 0 where
  pub value : ℤ
  pub unit : Text

-- a multiple of a unit of nanoseconds, in an int64
abbrev pub scaled : ℤ → ℤ → Duration
scaled value unit = wrap64 (value *ℤ unit)

-- `w.Duration()`; a nil window has the duration 0
unfoldable pub duration : Option TimeWindow → Duration
duration none = pos 0
duration (some w) =
    let unit = to_lower w.unit in
    if unit == bytes "minutes"
    then scaled w.value (pos 60_000_000_000)
    else if unit == bytes "hours"
    then scaled w.value (pos 3_600_000_000_000)
    else if unit == bytes "days"
    then wrap64 (scaled w.value (pos 24) *ℤ pos 3_600_000_000_000)
    else scaled w.value (pos 60_000_000_000)
