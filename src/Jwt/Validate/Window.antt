-- ===== src/Jwt/Validate/Window.antt =====
-- The validators of jwt/validate.go that look at times: when they accept a token.
use jwx.Common.{◌≡◌, ◌↔◌, ◌⊎◌, refl, Bool, true, false, Option, [], ok, err, arith, if◌then◌else◌}
use jwx.Common.Int.{ℤ, pos, ◌+ℤ◌, ◌-ℤ◌, ◌≤ℤ◌, ltb_ℤ, +ℤ_parts, -ℤ_parts, eq_of_parts}
use jwx.Jwt.Times.{
  before, truncate, wrap_int64, sub_time, negate, is_unset, max_int64, min_int64, before-truncate,
}
use jwx.Jwt.Validate.{
  Token, ValidationCtx, IsInTimeRange, out_of_time_range, time_claim, is_expiration_valid,
  is_issued_at_valid, is_nbf_valid, validate_range, run_validator, run_validators, read_options,
  validate,
}

-- The start of the second.
abbrev pub second : ℤ → ℤ
second t = truncate t (pos 1000000000)

+ℤ_zero : (a : ℤ) → a +ℤ pos 0 ≡ a
+ℤ_zero a = ground (arith, +ℤ_parts a (pos 0), eq_of_parts (a +ℤ pos 0) a)

negate_zero : negate (pos 0) ≡ pos 0
unfolding wrap_int64 ◌-ℤ◌
negate_zero = refl

module _ {X : Type 0} where
  -- `Validate` without options accepts a token exactly if the time is before the second of "exp", and
  -- not before the seconds of "iat" and of "nbf", for each of them that is set.
  pub validate-now :
      (same : X → X → Option Bool) (now : ℤ) (t : Token X)
      → (validate same now t [] ≡ ok tt) ↔ (
          ((is_unset t.expiration ≡ true) ⊎ (before now (second t.expiration) ≡ true))
          × ((is_unset t.issued_at ≡ true) ⊎ (before now (second t.issued_at) ≡ false))
          × ((is_unset t.not_before ≡ true) ⊎ (before now (second t.not_before) ≡ false)))
  unfolding validate read_options run_validators run_validator is_expiration_valid
      is_issued_at_valid is_nbf_valid
  validate-now same now t = ground (
    arith,
    negate_zero,
    +ℤ_zero (second t.expiration),
    +ℤ_zero (second t.issued_at),
    +ℤ_zero (second t.not_before),
    before-truncate now t.expiration (pos 1000000000),
    before-truncate now t.issued_at (pos 1000000000),
    before-truncate now t.not_before (pos 1000000000),
  )

module _ {X : Type 0} where
  -- A range of times, when `dur + skew` and `dur - skew` are int64 values, the first below the greatest one and
  -- the second above the least one: accepted exactly if `c1 - c2` is at most `dur + skew`, or, for the least
  -- delta, at least `dur - skew`. The saturation of `Sub` has no effect there.
  pub validate_range_lem :
      (iitr : IsInTimeRange) (ctx : ValidationCtx) (t : Token X)
      → ltb_ℤ (iitr.dur +ℤ ctx.skew) max_int64 ≡ true
      → ltb_ℤ (iitr.dur +ℤ ctx.skew) min_int64 ≡ false
      → ltb_ℤ min_int64 (iitr.dur -ℤ ctx.skew) ≡ true
      → ltb_ℤ max_int64 (iitr.dur -ℤ ctx.skew) ≡ false
      → (validate_range iitr ctx t ≡ ok tt) ↔ (
          (if iitr.less
            then ltb_ℤ
                (iitr.dur +ℤ ctx.skew)
                (time_claim t ctx.now iitr.c1 -ℤ time_claim t ctx.now iitr.c2)
            else ltb_ℤ
                (time_claim t ctx.now iitr.c1 -ℤ time_claim t ctx.now iitr.c2)
                (iitr.dur -ℤ ctx.skew))
          ≡ false)
  unfolding validate_range wrap_int64 sub_time
  validate_range_lem iitr ctx t a b c d = ground arith

  -- A greatest delta and a skew whose sum is no int64: every token with `c1` at or behind `c2` is
  -- refused.
  pub validate_range_overflow :
      (iitr : IsInTimeRange) (ctx : ValidationCtx) (t : Token X)
      → iitr.less ≡ true
      → iitr.dur ≤ℤ max_int64
      → ctx.skew ≤ℤ max_int64
      → ltb_ℤ max_int64 (iitr.dur +ℤ ctx.skew) ≡ true
      → time_claim t ctx.now iitr.c2 ≤ℤ time_claim t ctx.now iitr.c1
      → validate_range iitr ctx t ≡ err out_of_time_range
  unfolding validate_range wrap_int64 sub_time
  validate_range_overflow iitr ctx t l a b c d = ground (
    arith,
    l,
    +ℤ_parts iitr.dur ctx.skew,
    -ℤ_parts (iitr.dur +ℤ ctx.skew) (pos 18446744073709551616),
    -ℤ_parts (time_claim t ctx.now iitr.c1) (time_claim t ctx.now iitr.c2),
  )
