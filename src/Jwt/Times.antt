-- ===== src/Jwt/Times.antt =====
-- What jwt/validate.go uses of the package `time`. A time is the nanoseconds since the zero time, the
-- start of the year 1; a duration is an int64 of nanoseconds.
use native.Mathlib.Nat.{mul-le-mul_right, div-mul-le_self, lt-div-mul-add}
use jwx.Common.{
  ℕ, zero, suc, ◌+◌, ◌*◌, ◌/◌, ◌≤◌, ◌<◌, ◌≡◌, Bool, true, false, ◌&&◌, not, arith, if◌then◌else◌,
}
use native.Mathlib.Decide.{dec_lt}
use jwx.Common.Int.{ℤ, pos, negsuc, ◌+ℤ◌, ◌-ℤ◌, ltb_ℤ}

-- `t.Before(u)`
abbrev pub before : ℤ → ℤ → Bool
before = ltb_ℤ

-- `t.Truncate(d)`: down to a multiple of `d` since the zero time, and no change for d ≤ 0.
unfoldable pub truncate : ℤ → ℤ → ℤ
truncate (pos t) (pos (suc d)) = pos (t / suc d * suc d)
truncate (negsuc t) (pos (suc d)) = negsuc (t / suc d * suc d + d)
truncate t (pos zero) = t
truncate t (negsuc d) = t

-- 2^63 - 1 and -2^63.
abbrev pub max_int64 : ℤ
max_int64 = pos 9223372036854775807

abbrev pub min_int64 : ℤ
min_int64 = negsuc 9223372036854775807

-- The int64 that a sum of two is, or a negation: by 2^64 up or down if it is out of range.
unfoldable pub wrap_int64 : ℤ → ℤ
wrap_int64 d =
    if ltb_ℤ max_int64 d
    then d -ℤ pos 18446744073709551616
    else if ltb_ℤ d min_int64
    then d +ℤ pos 18446744073709551616
    else d

-- `t.Sub(u)`, which stops at the ends of the range.
unfoldable pub sub_time : ℤ → ℤ → ℤ
sub_time t u =
    if ltb_ℤ max_int64 (t -ℤ u)
    then max_int64
    else if ltb_ℤ (t -ℤ u) min_int64
    then min_int64
    else t -ℤ u

-- `-1 * d`
abbrev pub negate : ℤ → ℤ
negate d = wrap_int64 (pos 0 -ℤ d)

-- `t.IsZero() || t.Unix() == 0`: the year 1, or the first second of 1970.
abbrev pub unix_start : ℤ
unix_start = pos 62135596800000000000

abbrev pub is_unset : ℤ → Bool
is_unset t =
    if ltb_ℤ t (pos 0)
    then false
    else if ltb_ℤ (pos 0) t
    then not (before t unix_start) && before t (unix_start +ℤ pos 1000000000)
    else true

next_multiple : (i j d : ℕ) → i * d < j * d → i * d + d ≤ j * d
next_multiple i j d h = elim (dec_lt i j) [
  | yes lt ↦ omega (arith, mul-le-mul_right {m = suc i} {n = j} d lt)
  | no ge ↦ absurd (omega (arith, mul-le-mul_right {m = j} {n = i} d (omega arith)))
]

-- A time is before a truncated one exactly if its own truncation is.
pub before-truncate : (t u d : ℤ) → before (truncate t d) (truncate u d) ≡ before t (truncate u d)
unfolding truncate
before-truncate t u (negsuc d) = ground arith
before-truncate t u (pos zero) = ground arith
before-truncate (pos t) (pos u) (pos (suc d)) = ground (
  arith,
  next_multiple (t / suc d) (u / suc d) (suc d),
  div-mul-le_self t (suc d),
  lt-div-mul-add {a = t} {b = suc d} (omega arith),
)
before-truncate (pos t) (negsuc u) (pos (suc d)) = ground arith
before-truncate (negsuc t) (pos u) (pos (suc d)) = ground arith
before-truncate (negsuc t) (negsuc u) (pos (suc d)) = ground (
  arith,
  next_multiple (u / suc d) (t / suc d) (suc d),
  div-mul-le_self t (suc d),
  lt-div-mul-add {a = t} {b = suc d} (omega arith),
)
