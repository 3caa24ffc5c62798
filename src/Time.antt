-- ===== src/Time.antt =====
-- Go's `time.Time` and `time.Duration` as far as the program uses them.
-- An instant is a number of nanoseconds since January 1 of the year 1, UTC, the zero `Time`.
use auto_cert.Base.{ℕ, Bool, ◌==◌, if◌then◌else◌}
use auto_cert.Base.Int.{ℤ, pos, negsuc, ◌+ℤ◌, ◌-ℤ◌, lt_ℤ, floor_div, trunc_div, scale, int_eq}

-- `zone` is the offset of the value's location from UTC, in nanoseconds.
pub record Time : Type 0 where
  pub instant : ℤ
  pub zone : ℤ

-- `time.Time{}`
abbrev pub zero_time : Time
zero_time = record { instant = pos 0; zone = pos 0 }

-- `t.IsZero()`
abbrev pub is_zero : Time → Bool
is_zero t = t.instant == pos 0

-- `t.Before(u)`
abbrev pub before : Time → Time → Bool
before t u = lt_ℤ t.instant u.instant

-- `t.Equal(u)`: the same instant, wherever it is shown.
abbrev pub equal : Time → Time → Bool
equal t u = t.instant == u.instant

-- `t.UTC()`
abbrev pub utc : Time → Time
utc t = record { instant = t.instant; zone = pos 0 }

-- 24 hours.
abbrev pub day_ns : ℕ
day_ns = 86400000000000

-- The calendar day of the value in its own location, counted from January 1 of the year 1.
abbrev pub civil_day : Time → ℤ
civil_day t = floor_div (t.instant +ℤ t.zone) day_ns

-- `time.Date(t.Year(), t.Month(), t.Day(), 0, 0, 0, 0, time.UTC)`
abbrev pub utc_midnight : Time → Time
utc_midnight t = record { instant = scale (civil_day t) day_ns; zone = pos 0 }

abbrev pub max_duration : ℕ
max_duration = 9223372036854775807

-- `t.Sub(u)`: an int64 of nanoseconds that stops at its bounds.
abbrev pub clamp_duration : ℤ → ℤ
clamp_duration d =
    if lt_ℤ d (negsuc max_duration)
    then negsuc max_duration
    else if lt_ℤ (pos max_duration) d
    then pos max_duration
    else d

abbrev pub sub : Time → Time → ℤ
sub t u = clamp_duration (t.instant -ℤ u.instant)

-- `int(d.Hours() / 24)`: exact for the differences of midnights that the program takes.
abbrev pub whole_days : ℤ → ℤ
whole_days d = trunc_div d day_ns
