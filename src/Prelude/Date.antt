-- ===== src/Prelude/Date.antt =====
-- JavaScript's `Date`: a time value, or an invalid date, whose time value is NaN. A time value is
-- counted in milliseconds from the earliest date that there is, so it is a natural number: the
-- program only compares time values. NaN is unequal to all and makes every comparison false.
use Prim.Native.Nat.{ℕ, compare, Ordering}
use mathlib.Core.Bool.{Bool, true, false}
use sauryctf.Prelude.Tests.{◌==◌, ltb, leb}

pub data Date : Type 0 where
  at : ℕ → Date
  invalid : Date

-- `!Number.isNaN(value.getTime())`.
abbrev pub is_valid_date : Date → Bool
is_valid_date (at t) = true
is_valid_date invalid = false

-- `a.getTime() === b.getTime()`.
abbrev pub same_time : Date → Date → Bool
same_time (at a) (at b) = a == b
same_time invalid b = false
same_time (at a) invalid = false

-- `a.getTime() >= b.getTime()`.
abbrev pub not_before : Date → Date → Bool
not_before (at a) (at b) = leb b a
not_before invalid b = false
not_before (at a) invalid = false

-- `a.getTime() < b.getTime()`.
abbrev pub earlier : Date → Date → Bool
earlier (at a) (at b) = ltb a b
earlier invalid b = false
earlier (at a) invalid = false

-- The sign of `a.getTime() - b.getTime()`; NaN is falsy, as 0 is.
abbrev pub compare_time : Date → Date → Ordering
compare_time (at a) (at b) = compare a b
compare_time invalid b = Ordering.eq
compare_time (at a) invalid = Ordering.eq
