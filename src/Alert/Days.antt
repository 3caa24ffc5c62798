-- ===== src/Alert/Days.antt =====
-- The count of days: a difference of calendar days, however the two times lie within theirs.
use auto_cert.Base.{◌≡◌, ◌↔◌, true, arith, if◌then◌else◌}
use auto_cert.Base.Int.{
  ℤ, pos, negsuc, ◌-ℤ◌, ◌+ℤ◌, ◌≤ℤ◌, lt_ℤ, scale, floor_div, +ℤ_parts, -ℤ_parts,
}
use auto_cert.Time.{Time, civil_day, clamp_duration, whole_days, day_ns, before}
use auto_cert.Alert.{days_between}

abbrev pub clamp_days : ℤ → ℤ
clamp_days d =
    if lt_ℤ d (negsuc 106750) then negsuc 106750 else if lt_ℤ (pos 106751) d then pos 106751 else d

whole_days-scale :
    (a b : ℤ) → whole_days (clamp_duration (scale a day_ns -ℤ scale b day_ns)) ≡ clamp_days (a -ℤ b)
unfolding ◌-ℤ◌
whole_days-scale (pos a) (pos b) = ground arith
whole_days-scale (pos a) (negsuc b) = ground arith
whole_days-scale (negsuc a) (pos b) = ground arith
whole_days-scale (negsuc a) (negsuc b) = ground arith

-- `daysBetween` is the difference of the calendar days, each in the location of its own time.
-- Beyond 106751 days, where the duration in between leaves the int64, it stays at that bound.
pub days_between-civil_day :
    (now future : Time) → days_between now future ≡ clamp_days (civil_day future -ℤ civil_day now)
unfolding days_between
days_between-civil_day now future = whole_days-scale (civil_day future) (civil_day now)

floor_mono : (x y : ℤ) → x ≤ℤ y → floor_div x day_ns ≤ℤ floor_div y day_ns
floor_mono (pos x) (pos y) h = omega arith
floor_mono (pos x) (negsuc y) h = absurd (omega arith)
floor_mono (negsuc x) (pos y) h = omega arith
floor_mono (negsuc x) (negsuc y) h = omega arith

clamp_days_past :
    (x y : ℤ) → x ≤ℤ y → (clamp_days (x -ℤ y) ≤ℤ pos 0) × ((clamp_days (x -ℤ y) ≡ pos 0) ↔ (x ≡ y))
unfolding ◌-ℤ◌
clamp_days_past x y h = ground arith

clamp_days_antitone : (x y f : ℤ) → x ≤ℤ y → clamp_days (f -ℤ y) ≤ℤ clamp_days (f -ℤ x)
clamp_days_antitone x y f h = ground (arith, -ℤ_parts f x, -ℤ_parts f y)

civil_day_mono :
    (t u : Time) → t.zone ≡ u.zone → t.instant ≤ℤ u.instant → civil_day t ≤ℤ civil_day u
civil_day_mono t u z h =
    floor_mono (t.instant +ℤ t.zone) (u.instant +ℤ u.zone)
      (rw z (omega (arith, +ℤ_parts t.instant u.zone, +ℤ_parts u.instant u.zone)))

-- Of a time that is over, seen from the same location, the count is never positive, and it is zero
-- exactly when both lie on one calendar day.
pub days_between_past :
    (now past : Time)
    → past.zone ≡ now.zone
    → before past now ≡ true
    → (days_between now past ≤ℤ pos 0)
      × ((days_between now past ≡ pos 0) ↔ (civil_day past ≡ civil_day now))
days_between_past now past z h =
    rw (days_between-civil_day now past)
      (clamp_days_past (civil_day past) (civil_day now) (civil_day_mono past now z (ground arith)))

-- In one location the count never grows as time passes.
pub days_between_antitone :
    (now later future : Time)
    → now.zone ≡ later.zone
    → now.instant ≤ℤ later.instant
    → days_between later future ≤ℤ days_between now future
days_between_antitone now later future z h =
    rw (days_between-civil_day now future, days_between-civil_day later future)
      (clamp_days_antitone (civil_day now) (civil_day later) (civil_day future)
        (civil_day_mono now later z h))
