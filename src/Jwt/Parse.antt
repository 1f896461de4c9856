-- ===== src/Jwt/Parse.antt =====
-- jwt/jwt.go and jwt/options.go: `Parse` and `ParseInsecure`, from the options to the token.
pub mod Verified
pub mod Unverified
mod Tests
use jwx.Common.{
  ℕ, zero, suc, ◌≡◌, Bool, true, false, ◌&&◌, not, Option, none, some, List, [], ◌∷◌, ◌++◌, Outcome,
  ok, err, panic, ◌>>=◌, if◌then◌else◌,
}
use jwx.Common.Bytes.{Bytes}
use jwx.Format.{
  FormatHint, invalid_format, unknown_format, jwe, jws, jwk, jwks, jwt, guess_format, trim_space,
}

-- An option that names keys. `W` is what it holds, `S` a sub-option of jws; `none` is of another type.
pub data KeyOption (W S : Type 0) : Type 0 where
  ident_key ident_key_set : W → List (Option S) → KeyOption W S
  ident_verify_auto : W → KeyOption W S
  ident_key_provider : Option W → KeyOption W S

-- `jws.VerifyOption`
pub data VerifyOption (W S : Type 0) : Type 0 where
  jws_with_key jws_with_key_set : W → List S → VerifyOption W S
  jws_verify_auto jws_with_key_provider : W → VerifyOption W S

-- `T` is a token, `V` an option for `Validate`, `R` a typed claim.
pub data ParseOption (T V W S R : Type 0) : Type 0 where
  with_validate_option : V → ParseOption T V W S R
  with_key_option : KeyOption W S → ParseOption T V W S R
  with_token : Option T → ParseOption T V W S R
  with_pedantic with_validate with_verify : Bool → ParseOption T V W S R
  with_typed_claim : R → ParseOption T V W S R
  with_other : ParseOption T V W S R

-- `E` is an error of what `parse` calls.
pub data ParseError (E : Type 0) : Type 0 where
  bad_suboption bad_provider bad_token no_keys insecure_options : ParseError E
  expected_nested invalid_jwt pedantic_unknown unsupported_format no_decode_ctx : ParseError E
  verify_failed bad_jws bad_json not_valid : E → ParseError E

pub record ParseCtx (T V W S R : Type 0) : Type 0 where
  pub token : Option T
  pub validate_opts : List V
  pub verify_opts : List (VerifyOption W S)
  pub local_reg : Option (List R)
  pub pedantic : Bool
  pub skip_verification : Bool
  pub validate : Bool

-- The variables of `parseBytes`.
pub record Gathered (T V W S R : Type 0) : Type 0 where
  pub ctx : ParseCtx T V W S R
  pub key_options : List (KeyOption W S)
  pub verification : Bool

-- What `parse` calls: `json.Unmarshal`, the package jws, and the methods of a token.
pub record Services (T V W S R E : Type 0) : Type 0 where
  pub read_hint : Bytes → Option FormatHint
  pub jws_verify : List (VerifyOption W S) → Bytes → Outcome E Bytes
  pub jws_payload : Bytes → Outcome E Bytes
  pub new_token : T
  pub has_decode_ctx : T → Bool
  pub unmarshal : Option (List R) → Bytes → T → Outcome E T
  pub validate_token : T → List V → Outcome E (Unit {0})

pub data VerifyState : Type 0 where
  verify_invalid verify_done verify_expect_nested verify_skipped : VerifyState

-- What the body of the loop does next, with the variables `expectNested` and `payload`.
pub data Next : Type 0 where
  again : Bool → Bytes → Next
  leave : Bytes → Next

abbrev pub or_error : {A E : Type 0} → (E → ParseError E) → Outcome E A → Outcome (ParseError E) A
or_error wrap panic = panic
or_error wrap (err e) = err (wrap e)
or_error wrap (ok a) = ok a

abbrev pub is_empty : {A : Type 0} → List A → Bool
is_empty [] = true
is_empty (x ∷ xs) = false

unfoldable pub suboptions : {S E : Type 0} → List (Option S) → Outcome (ParseError E) (List S)
suboptions [] = ok []
suboptions (none ∷ subs) = err bad_suboption
suboptions (some sub ∷ subs) = suboptions subs >>= λ rest. ok (sub ∷ rest)

module _ {W S E : Type 0} where
  unfoldable pub to_verify_option : KeyOption W S → Outcome (ParseError E) (VerifyOption W S)
  unfolding suboptions
  to_verify_option (ident_key w subs) = suboptions subs >>= λ s. ok (jws_with_key w s)
  to_verify_option (ident_key_set w subs) = suboptions subs >>= λ s. ok (jws_with_key_set w s)
  to_verify_option (ident_verify_auto w) = ok (jws_verify_auto w)
  to_verify_option (ident_key_provider none) = err bad_provider
  to_verify_option (ident_key_provider (some w)) = ok (jws_with_key_provider w)

  unfoldable pub to_verify_options :
      List (KeyOption W S) → Outcome (ParseError E) (List (VerifyOption W S))
  unfolding to_verify_option
  to_verify_options [] = ok []
  to_verify_options (o ∷ os) =
      to_verify_option o >>= λ v. to_verify_options os >>= λ vs. ok (v ∷ vs)

module _ {T V W S R E : Type 0} where
  -- One option in the loop of `parseBytes`.
  unfoldable pub gather_option :
      Gathered T V W S R → ParseOption T V W S R → Outcome (ParseError E) (Gathered T V W S R)
  gather_option g (with_validate_option v) =
      ok (record g { ctx = record g.ctx { validate_opts = g.ctx.validate_opts ++ v ∷ [] } })
  gather_option g (with_key_option k) = ok (record g { key_options = g.key_options ++ k ∷ [] })
  gather_option g (with_token none) = err bad_token
  gather_option g (with_token (some t)) = ok (record g { ctx = record g.ctx { token = some t } })
  gather_option g (with_pedantic b) = ok (record g { ctx = record g.ctx { pedantic = b } })
  gather_option g (with_validate b) = ok (record g { ctx = record g.ctx { validate = b } })
  gather_option g (with_verify b) = ok (record g { verification = b })
  gather_option g (with_typed_claim r) =
      let claims : List R = elim g.ctx.local_reg [ none ↦ [] | some rs ↦ rs ] in
      ok (record g { ctx = record g.ctx { local_reg = some (claims ++ r ∷ []) } })
  gather_option g with_other = ok g

  unfoldable pub gather :
      Gathered T V W S R
      → List (ParseOption T V W S R)
      → Outcome (ParseError E) (Gathered T V W S R)
  unfolding gather_option
  gather g [] = ok g
  gather g (o ∷ os) = gather_option g o >>= λ g. gather g os

abbrev pub start : {T V W S R : Type 0} → Gathered T V W S R
start = record {
  ctx = record {
    token = none;
    validate_opts = [];
    verify_opts = [];
    local_reg = none;
    pedantic = false;
    skip_verification = false;
    validate = true;
  };
  key_options = [];
  verification = true;
}

module _ {T V W S R E : Type 0} (services : Services T V W S R E) where
  unfoldable pub verify_jws :
      ParseCtx T V W S R → Bytes → Outcome (ParseError E) (Bytes × VerifyState)
  verify_jws ctx payload =
      if is_empty ctx.verify_opts
      then ok ([], verify_skipped)
      else (or_error verify_failed (services.jws_verify ctx.verify_opts payload) >>= λ verified.
          ok (verified, verify_done))

  -- `if i == 0 { if !ctx.skipVerification { ... } }` and `break OUTER`.
  unfoldable pub leave_raw : ParseCtx T V W S R → Bool → Bytes → Outcome (ParseError E) Next
  unfolding verify_jws
  leave_raw ctx first payload =
      if first && not ctx.skip_verification
      then (verify_jws ctx payload >>= λ _. ok (leave payload))
      else ok (leave payload)

  -- The end of the case for JWS, which parses `data`, not `payload`.
  unfoldable pub unverified : Bytes → Outcome (ParseError E) Next
  unverified whole = or_error bad_jws (services.jws_payload whole) >>= λ p. ok (again false p)

  unfoldable pub open_jws : ParseCtx T V W S R → Bytes → Bool → Bytes → Outcome (ParseError E) Next
  unfolding verify_jws unverified
  open_jws ctx whole expect_nested payload =
      if ctx.skip_verification
      then unverified whole
      else (verify_jws ctx payload >>= λ r. elim (r.1) [
        | verify_skipped ↦ unverified whole
        | verify_expect_nested ↦ ok (again (if ctx.pedantic then true else expect_nested) (r.0))
        | _ ↦ if ctx.pedantic then ok (leave (r.0)) else ok (again expect_nested (r.0))
      ])

  -- The body of the loop; `first` is `i == 0`.
  unfoldable pub layer :
      ParseCtx T V W S R → Bytes → Bool → Bool → Bytes → Outcome (ParseError E) Next
  unfolding leave_raw open_jws
  layer ctx whole first expect_nested payload = elim (guess_format services.read_hint payload) [
    | jwt ↦
        if ctx.pedantic && expect_nested then err expected_nested else leave_raw ctx first payload
    | invalid_format ↦ err invalid_jwt
    | unknown_format ↦ if ctx.pedantic then err pedantic_unknown else leave_raw ctx first payload
    | jws ↦ open_jws ctx whole expect_nested payload
    | _ ↦ err unsupported_format
  ]

  -- The loop, with the number of rounds left; the result is the final `payload`.
  unfoldable pub layers :
      ParseCtx T V W S R → Bytes → ℕ → Bool → Bool → Bytes → Outcome (ParseError E) Bytes
  unfolding layer
  layers ctx whole zero first expect_nested payload = ok payload
  layers ctx whole (suc rounds) first expect_nested payload =
      layer ctx whole first expect_nested payload >>= λ next. elim next [
        | again nested p ↦ layers ctx whole rounds false nested p
        | leave p ↦ ok p
      ]

  -- What `parse` does behind the loop.
  unfoldable pub finish : ParseCtx T V W S R → Bytes → Outcome (ParseError E) T
  finish ctx payload =
      let token : T = elim ctx.token [ none ↦ services.new_token | some t ↦ t ] in
      let refused : Bool = elim ctx.local_reg [
        | none ↦ false
        | some rs ↦ not (services.has_decode_ctx token)
      ] in
      if refused
      then err no_decode_ctx
      else (or_error bad_json (services.unmarshal ctx.local_reg payload token) >>= λ t.
          if ctx.validate
          then (or_error not_valid (services.validate_token t ctx.validate_opts) >>= λ _. ok t)
          else ok t)

  -- `maxDecodeLevels` is 2.
  unfoldable pub parse : ParseCtx T V W S R → Bytes → Outcome (ParseError E) T
  unfolding layers finish
  parse ctx whole = layers ctx whole 2 true false whole >>= λ payload. finish ctx payload

  unfoldable pub parse_bytes : Bytes → List (ParseOption T V W S R) → Outcome (ParseError E) T
  unfolding gather to_verify_options parse
  parse_bytes input options = gather start options >>= λ g.
      if is_empty g.key_options && g.verification
      then err no_keys
      else (to_verify_options g.key_options >>= λ converted.
          parse (record g.ctx { verify_opts = converted }) (trim_space input))

  -- `WithVerify` or `WithValidate` among the options.
  unfoldable pub has_security : List (ParseOption T V W S R) → Bool
  has_security [] = false
  has_security (with_verify b ∷ os) = true
  has_security (with_validate b ∷ os) = true
  has_security (o ∷ os) = has_security os

  unfoldable pub parse_insecure : Bytes → List (ParseOption T V W S R) → Outcome (ParseError E) T
  unfolding has_security parse_bytes
  parse_insecure input options =
      if has_security options
      then err insecure_options
      else parse_bytes input (options ++ with_verify false ∷ with_validate false ∷ [])
