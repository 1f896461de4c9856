-- ===== src/Jwt/Validate/Tests.antt =====
-- Concrete runs of `Validate`, and the theorems at concrete inputs. The second 1,700,000,000 is now.
use jwx.Common.{
  ℕ, ◌+◌, ◌*◌, ◌≡◌, ◌↔◌, ◌⊎◌, refl, inl, true, false, Bool, Option, none, some, String, str_eq,
  List, [], ◌∷◌, ok, err, panic, arith, ◌==◌, if◌then◌else◌,
}
use jwx.Common.Int.{ℤ, pos, ◌+ℤ◌, ◌-ℤ◌, ◌≤ℤ◌, ltb_ℤ}
use jwx.Jwt.Times.{before, truncate, wrap_int64, sub_time, is_unset, max_int64}
use jwx.Jwt.Validate.{
  Token, ClaimValue, text_list, other_value, Validator, ValidationCtx, IsInTimeRange, with_clock,
  with_validator, in_time_range, claim_contains_string, claim_value_is, generic, token_expired,
  out_of_time_range, is_supported_time_claim, time_claim, is_expiration_valid, is_issued_at_valid,
  is_nbf_valid, validate_range, validate_required, validate_contains, validate_value_is,
  equal_values, elem, run_validator, run_validators, require_claim, expand_validator, read_options,
  default_validators, default_ctx, validate,
}
use jwx.Jwt.Validate.Window.{second, validate-now, validate_range_lem, validate_range_overflow}
use jwx.Jwt.Validate.Claims.{validate_covers, range_requires}

abbrev same : ℕ → ℕ → Option Bool
same v w = some (v == w)

-- Nanoseconds since the year 1, of a second of Unix time.
abbrev at_second : ℕ → ℤ
at_second s = pos ((62135596800 + s) * 1000000000)

abbrev now : ℤ
now = at_second 1700000000

abbrev claims : String → Option (ClaimValue ℕ)
claims name =
    if str_eq name "exp"
    then some (other_value 1)
    else if str_eq name "aud"
    then some (text_list ("a" ∷ "b" ∷ []))
    else none

-- Valid for one hour from now, without "iat" and "nbf".
abbrev token : Token ℕ
token = record {
  expiration = at_second 1700003600;
  issued_at = pos 0;
  not_before = pos 0;
  get = claims;
}

abbrev one_hour : IsInTimeRange
one_hour = record { c1 = "exp"; c2 = ""; dur = pos 3600000000000; less = true }

valid_now : validate same now token [] ≡ ok tt
unfolding validate read_options run_validators run_validator is_expiration_valid is_issued_at_valid
    is_nbf_valid truncate wrap_int64 ◌+ℤ◌ ◌-ℤ◌
valid_now = refl

-- From the second of "exp" on the token is expired.
expired : validate same now token (with_clock (at_second 1700003600) ∷ []) ≡ err token_expired
unfolding validate read_options run_validators run_validator is_expiration_valid is_issued_at_valid
    is_nbf_valid truncate wrap_int64 ◌+ℤ◌ ◌-ℤ◌
expired = refl

range_run : validate same now token (with_validator (in_time_range one_hour) ∷ []) ≡ ok tt
unfolding validate read_options run_validators run_validator is_expiration_valid is_issued_at_valid
    is_nbf_valid truncate wrap_int64 ◌+ℤ◌ ◌-ℤ◌ expand_validator require_claim
    is_supported_time_claim validate_required validate_range sub_time time_claim
range_run = refl

uncomparable :
    validate same now token
      (with_validator (claim_value_is "aud" (text_list ("a" ∷ [])) generic) ∷ [])
    ≡ panic
unfolding validate read_options run_validators run_validator is_expiration_valid is_issued_at_valid
    is_nbf_valid truncate wrap_int64 ◌+ℤ◌ ◌-ℤ◌ expand_validator validate_value_is equal_values
uncomparable = refl

second_audience :
    validate same now token (with_validator (claim_contains_string "aud" "b" generic) ∷ []) ≡ ok tt
unfolding validate read_options run_validators run_validator is_expiration_valid is_issued_at_valid
    is_nbf_valid truncate wrap_int64 ◌+ℤ◌ ◌-ℤ◌ expand_validator validate_contains elem
second_audience = refl

validate-now_example : (validate same now token [] ≡ ok tt) ↔ (
    ((is_unset token.expiration ≡ true) ⊎ (before now (second token.expiration) ≡ true))
    × ((is_unset token.issued_at ≡ true) ⊎ (before now (second token.issued_at) ≡ false))
    × ((is_unset token.not_before ≡ true) ⊎ (before now (second token.not_before) ≡ false)))
validate-now_example = validate-now same now token

abbrev ctx_at : ℤ → ValidationCtx
ctx_at t = record { now = t; skew = pos 0; truncation = pos 1000000000 }

accepted_at : run_validators same default_validators (ctx_at now) token ≡ ok tt
unfolding run_validators run_validator is_expiration_valid is_issued_at_valid is_nbf_valid truncate
    wrap_int64 ◌+ℤ◌ ◌-ℤ◌
accepted_at = refl

validate_range_lem_example : (validate_range one_hour (default_ctx now) token ≡ ok tt) ↔ (
    (if one_hour.less
      then ltb_ℤ (one_hour.dur +ℤ pos 0) (time_claim token now "exp" -ℤ time_claim token now "")
      else ltb_ℤ (time_claim token now "exp" -ℤ time_claim token now "") (one_hour.dur -ℤ pos 0))
    ≡ false)
validate_range_lem_example =
    validate_range_lem one_hour (default_ctx now) token (unfold ◌+ℤ◌ in refl) (unfold ◌+ℤ◌ in refl)
      (unfold ◌-ℤ◌ in refl) (unfold ◌-ℤ◌ in refl)

abbrev longest : IsInTimeRange
longest = record one_hour { dur = max_int64 }

later_exp : time_claim token now "" ≤ℤ time_claim token now "exp"
unfolding time_claim
later_exp = omega arith

-- With the longest duration and a skew of one second every difference is too long.
validate_range_overflow_example :
    validate_range longest (record (default_ctx now) { skew = pos 1000000000 }) token
    ≡ err out_of_time_range
validate_range_overflow_example =
    validate_range_overflow longest (record (default_ctx now) { skew = pos 1000000000 }) token refl
      (omega arith) (omega arith) (unfold ◌+ℤ◌ in refl) later_exp

validate_covers_example :
    (ctx : ValidationCtx) × (ws : List (Validator ℕ)) × (read_options
        (default_ctx now)
        default_validators
        (with_validator (in_time_range one_hour) ∷ [])
      ≡ ok (ctx, ws))
    × (run_validators same default_validators ctx token ≡ ok tt)
    × (own : List (Validator ℕ)) × (expand_validator (in_time_range one_hour) ≡ ok own)
    × (run_validators same own ctx token ≡ ok tt)
validate_covers_example = validate_covers same now token [] [] (in_time_range one_hour) range_run

range_requires_example :
    (is_supported_time_claim "exp" ≡ ok tt) × (value : ClaimValue ℕ) × (claims "exp" ≡ some value)
range_requires_example =
    range_requires same now token [] [] one_hour "exp" range_run (inl refl) (λ e. cc)
