-- ===== src/GoTime.antt =====
-- `time.Time` and `time.Duration` as the backend uses them. A time is a pair of counts of
-- nanoseconds since the zero time, 0001-01-01T00:00:00Z: the instant, and what a wall clock in the
-- value's own location reads then. Times before the zero time are not represented.
use wealth_management.Prelude.{ℕ, ◌+◌, ◌-◌, ◌*◌, ◌/◌, Bool, ltb, ◌==◌}

pub record Time : Type 0 where
  pub instant : ℕ
  pub wall : ℕ

abbrev pub second : ℕ
second = 1000000000

abbrev pub day : ℕ
day = 86400 * 1000000000

abbrev pub after : Time → Time → Bool
after a b = ltb b.instant a.instant

abbrev pub before : Time → Time → Bool
before a b = ltb a.instant b.instant

abbrev pub time_eq : Time → Time → Bool
time_eq a b = a.instant == b.instant

abbrev pub is_zero : Time → Bool
is_zero t = t.instant == 0

-- `t.UTC()`: the same instant, read in UTC.
abbrev pub utc : Time → Time
utc t = record { instant = t.instant; wall = t.instant }

-- `t.Add(d)` for a duration that is not negative.
abbrev pub add : Time → ℕ → Time
add t d = record { instant = t.instant + d; wall = t.wall + d }

-- `value.Date()` made a time again: midnight, in UTC, of the day that the wall clock shows.
unfoldable pub date_only : Time → Time
date_only t = let midnight = t.wall / day * day in record { instant = midnight; wall = midnight }

-- The distance of two instants, for `math.Abs(a.Sub(b).Seconds())`.
abbrev pub distance : Time → Time → ℕ
distance a b = (a.instant - b.instant) + (b.instant - a.instant)
