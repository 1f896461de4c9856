-- ===== src/Jwt/Validate.antt =====
-- jwt/validate.go: `Validate` and its validators. The clock stands still while `Validate` runs.
pub mod Window
pub mod Claims
mod Tests
use jwx.Common.{
  ◌≡◌, Bool, true, false, ◌&&◌, ◌||◌, not, Option, none, some, String, str_eq, List, [], ◌∷◌, ◌++◌,
  Outcome, ok, err, panic, ◌>>=◌, if◌then◌else◌,
}
use jwx.Common.Int.{ℤ, pos, ◌+ℤ◌, ◌-ℤ◌, ltb_ℤ}
use jwx.Jwt.Times.{before, truncate, wrap_int64, sub_time, negate, is_unset}

-- The value of a claim: a `[]string`, or something else.
pub data ClaimValue (X : Type 0) : Type 0 where
  text_list : List String → ClaimValue X
  other_value : X → ClaimValue X

-- What the validators use of `jwt.Token`. A time is 0 when its claim is missing.
pub record Token (X : Type 0) : Type 0 where
  pub expiration : ℤ
  pub issued_at : ℤ
  pub not_before : ℤ
  pub get : String → Option (ClaimValue X)

-- The values that `Validate` puts into the context.
pub record ValidationCtx : Type 0 where
  pub now : ℤ
  pub skew : ℤ
  pub truncation : ℤ

pub data ErrorKind : Type 0 where
  generic audience_kind issuer_kind : ErrorKind

pub data ValidationError : Type 0 where
  token_expired invalid_issued_at token_not_yet_valid : ValidationError
  unsupported_time_claim : String → ValidationError
  out_of_time_range : ValidationError
  claim_not_satisfied : ErrorKind → String → ValidationError
  missing_required_claim : String → ValidationError
  custom_error : ValidationError

pub record IsInTimeRange : Type 0 where
  pub c1 : String
  pub c2 : String
  pub dur : ℤ
  pub less : Bool

pub data Validator (X : Type 0) : Type 0 where
  issued_at_valid expiration_valid nbf_valid : Validator X
  in_time_range : IsInTimeRange → Validator X
  claim_contains_string : String → String → ErrorKind → Validator X
  claim_value_is : String → ClaimValue X → ErrorKind → Validator X
  required : String → Validator X
  validator_func : (ValidationCtx → Token X → Outcome ValidationError (Unit {0})) → Validator X

pub data ValidateOption (X : Type 0) : Type 0 where
  with_clock with_acceptable_skew with_truncation : ℤ → ValidateOption X
  with_validator : Validator X → ValidateOption X

abbrev pub Checked : Type 0
Checked = Outcome ValidationError (Unit {0})

unfoldable pub is_supported_time_claim : String → Checked
is_supported_time_claim c =
    if str_eq c "exp" || (str_eq c "iat" || str_eq c "nbf")
    then ok tt
    else err (unsupported_time_claim c)

-- `elem` is the loop of `claimContainsString.Validate`.
unfoldable pub elem : String → List String → Bool
elem value [] = false
elem value (v ∷ list) = let rest = elem value list in if str_eq v value then true else rest

module _ {X : Type 0} where
  unfoldable pub time_claim : Token X → ℤ → String → ℤ
  time_claim t now c =
      if str_eq c "exp"
      then t.expiration
      else if str_eq c "iat"
      then t.issued_at
      else if str_eq c "nbf"
      then t.not_before
      else if str_eq c ""
      then now
      else pos 0

  unfoldable pub is_expiration_valid : ValidationCtx → Token X → Checked
  is_expiration_valid ctx t =
      if is_unset t.expiration
      then ok tt
      else if before (truncate ctx.now ctx.truncation)
          (truncate t.expiration ctx.truncation +ℤ ctx.skew)
      then ok tt
      else err token_expired

  unfoldable pub is_issued_at_valid : ValidationCtx → Token X → Checked
  is_issued_at_valid ctx t =
      if is_unset t.issued_at
      then ok tt
      else if before (truncate ctx.now ctx.truncation)
          (truncate t.issued_at ctx.truncation +ℤ negate ctx.skew)
      then err invalid_issued_at
      else ok tt

  unfoldable pub is_nbf_valid : ValidationCtx → Token X → Checked
  is_nbf_valid ctx t =
      if is_unset t.not_before
      then ok tt
      else if before (truncate ctx.now ctx.truncation)
          (truncate t.not_before ctx.truncation +ℤ negate ctx.skew)
      then err token_not_yet_valid
      else ok tt

  unfoldable pub validate_range : IsInTimeRange → ValidationCtx → Token X → Checked
  unfolding time_claim
  validate_range iitr ctx t =
      let t1 = time_claim t ctx.now iitr.c1 in
      let t2 = time_claim t ctx.now iitr.c2 in
      if iitr.less
      then (if ltb_ℤ (wrap_int64 (iitr.dur +ℤ ctx.skew)) (sub_time t1 t2)
          then err out_of_time_range
          else ok tt)
      else (if ltb_ℤ (sub_time t1 t2) (wrap_int64 (iitr.dur -ℤ ctx.skew))
          then err out_of_time_range
          else ok tt)

  unfoldable pub validate_contains : String → String → ErrorKind → Token X → Checked
  unfolding elem
  validate_contains name value kind t = elim (t.get name) [
    | none ↦ err (claim_not_satisfied kind name)
    | some (other_value x) ↦ err (claim_not_satisfied kind name)
    | some (text_list list) ↦ if elem value list then ok tt else err (claim_not_satisfied kind name)
  ]

  unfoldable pub validate_required : String → Token X → Checked
  validate_required name t = elim (t.get name) [
    | none ↦ err (missing_required_claim name)
    | some v ↦ ok tt
  ]

-- `same` is Go's `==` on the other values; `none` is its panic on values that have no `==`.
module _ {X : Type 0} (same : X → X → Option Bool) where
  -- `v == cv.value` on two interfaces: false for two types, a panic for two `[]string`.
  unfoldable pub equal_values : ClaimValue X → ClaimValue X → Option Bool
  equal_values (text_list vs) (text_list ws) = none
  equal_values (text_list vs) (other_value w) = some false
  equal_values (other_value v) (text_list ws) = some false
  equal_values (other_value v) (other_value w) = same v w

  unfoldable pub validate_value_is : String → ClaimValue X → ErrorKind → Token X → Checked
  unfolding equal_values
  validate_value_is name value kind t = elim (t.get name) [
    | none ↦ err (claim_not_satisfied kind name)
    | some v ↦ elim (equal_values v value) [
      | none ↦ panic
      | some true ↦ ok tt
      | some false ↦ err (claim_not_satisfied kind name)
    ]
  ]

  unfoldable pub run_validator : Validator X → ValidationCtx → Token X → Checked
  unfolding is_expiration_valid is_issued_at_valid is_nbf_valid validate_range validate_contains
      validate_value_is validate_required
  run_validator issued_at_valid ctx t = is_issued_at_valid ctx t
  run_validator expiration_valid ctx t = is_expiration_valid ctx t
  run_validator nbf_valid ctx t = is_nbf_valid ctx t
  run_validator (in_time_range iitr) ctx t = validate_range iitr ctx t
  run_validator (claim_contains_string name value kind) ctx t = validate_contains name value kind t
  run_validator (claim_value_is name value kind) ctx t = validate_value_is name value kind t
  run_validator (required name) ctx t = validate_required name t
  run_validator (validator_func vf) ctx t = vf ctx t

  -- `for _, v := range validators`
  unfoldable pub run_validators : List (Validator X) → ValidationCtx → Token X → Checked
  unfolding run_validator
  run_validators [] ctx t = ok tt
  run_validators (v ∷ vs) ctx t = run_validator v ctx t >>= λ _. run_validators vs ctx t

module _ {X : Type 0} where
  -- What a claim of a time range adds to `validators`.
  unfoldable pub require_claim : String → Outcome ValidationError (List (Validator X))
  unfolding is_supported_time_claim
  require_claim c =
      if str_eq c "" then ok [] else (is_supported_time_claim c >>= λ _. ok (required c ∷ []))

  -- What a `WithValidator` option adds to `validators`.
  unfoldable pub expand_validator : Validator X → Outcome ValidationError (List (Validator X))
  unfolding require_claim
  expand_validator (in_time_range iitr) = require_claim iitr.c1 >>= λ r1.
      require_claim iitr.c2 >>= λ r2. ok (r1 ++ (r2 ++ in_time_range iitr ∷ []))
  expand_validator v = ok (v ∷ [])

  -- The loop over the options.
  unfoldable pub read_options :
      ValidationCtx
      → List (Validator X)
      → List (ValidateOption X)
      → Outcome ValidationError (ValidationCtx × List (Validator X))
  unfolding expand_validator
  read_options ctx vs [] = ok (ctx, vs)
  read_options ctx vs (with_clock now ∷ os) = read_options (record ctx { now = now }) vs os
  read_options ctx vs (with_acceptable_skew d ∷ os) = read_options (record ctx { skew = d }) vs os
  read_options ctx vs (with_truncation d ∷ os) = read_options (record ctx { truncation = d }) vs os
  read_options ctx vs (with_validator v ∷ os) =
      expand_validator v >>= λ more. read_options ctx (vs ++ more) os

  abbrev pub default_validators : List (Validator X)
  default_validators = issued_at_valid ∷ expiration_valid ∷ nbf_valid ∷ []

-- No skew, and a truncation to the second; `now` is `time.Now`.
abbrev pub default_ctx : ℤ → ValidationCtx
default_ctx now = record { now = now; skew = pos 0; truncation = pos 1000000000 }

-- `now` is the time of the system.
unfoldable pub validate :
    {X : Type 0} → (X → X → Option Bool) → ℤ → Token X → List (ValidateOption X) → Checked
unfolding read_options run_validators
validate same now t options =
    read_options (default_ctx now) default_validators options >>= λ (ctx, vs).
    run_validators same vs ctx t
