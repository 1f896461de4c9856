-- ===== src/Jwt/Validate/Claims.antt =====
-- Which claims `Validate` of jwt/validate.go asks for, and what its validators of claims accept.
use mathlib.Core.List.{append_assoc, append-nil}
use jwx.Common.{
  ◌≡◌, ◌≢◌, ◌⊎◌, inl, inr, refl, sym, ap, ◌∙◌, Bool, Option, some, String, eq_iff, List, [], ◌∷◌,
  ◌++◌, ok, >>=-eq-ok, arith, Option-cases,
}
use jwx.Common.Int.{ℤ}
use jwx.Jwt.Validate.{
  Token, ClaimValue, Validator, ValidateOption, ValidationCtx, IsInTimeRange, with_clock,
  with_acceptable_skew, with_truncation, with_validator, in_time_range, required, validate_required,
  run_validator, run_validators, require_claim, expand_validator, read_options, default_validators,
  default_ctx, is_supported_time_claim, validate,
}

module _ {X : Type 0} where
  -- Reading options only appends to the validators, and appends those of each `WithValidator`.
  read_options-append :
      (os : List (ValidateOption X)) (ctx c : ValidationCtx) (vs ws : List (Validator X))
      → read_options ctx vs os ≡ ok (c, ws)
      → (more : List (Validator X)) × (ws ≡ vs ++ more)
  unfolding read_options
  read_options-append [] ctx c vs ws e = ([], cc (append-nil vs))
  read_options-append (with_clock now ∷ os) ctx c vs ws e = read_options-append os _ c vs ws e
  read_options-append (with_acceptable_skew d ∷ os) ctx c vs ws e =
      read_options-append os _ c vs ws e
  read_options-append (with_truncation d ∷ os) ctx c vs ws e = read_options-append os _ c vs ws e
  read_options-append (with_validator v ∷ os) ctx c vs ws e =
      let (own, expanded, rest) = >>=-eq-ok (expand_validator v) _ e in
      let (more, split) = read_options-append os ctx c (vs ++ own) ws rest in
      (own ++ more, split ∙ append_assoc vs own more)

  read_options-expands :
      (front back : List (ValidateOption X)) (v : Validator X) (ctx c : ValidationCtx)
      (vs ws : List (Validator X))
      → read_options ctx vs (front ++ with_validator v ∷ back) ≡ ok (c, ws)
      → (start : List (Validator X)) × (own : List (Validator X)) × (more : List (Validator X))
        × (expand_validator v ≡ ok own)
        × (ws ≡ (start ++ own) ++ more)
  unfolding read_options
  read_options-expands [] back v ctx c vs ws e =
      let (own, expanded, rest) = >>=-eq-ok (expand_validator v) _ e in
      let (more, split) = read_options-append back ctx c (vs ++ own) ws rest in
      (vs, own, more, expanded, split)
  read_options-expands (with_clock now ∷ os) back v ctx c vs ws e =
      read_options-expands os back v _ c vs ws e
  read_options-expands (with_acceptable_skew d ∷ os) back v ctx c vs ws e =
      read_options-expands os back v _ c vs ws e
  read_options-expands (with_truncation d ∷ os) back v ctx c vs ws e =
      read_options-expands os back v _ c vs ws e
  read_options-expands (with_validator u ∷ os) back v ctx c vs ws e =
      let (own, expanded, rest) = >>=-eq-ok (expand_validator u) _ e in
      read_options-expands os back v ctx c (vs ++ own) ws rest

module _ {X : Type 0} (same : X → X → Option Bool) where
  -- All of the validators accept the token.
  abbrev pub Accepted : ValidationCtx → Token X → Validator X → Type 0
  Accepted ctx t v = run_validator same v ctx t ≡ ok tt

  run_validators-append :
      (vs ws : List (Validator X)) (ctx : ValidationCtx) (t : Token X)
      → run_validators same (vs ++ ws) ctx t ≡ ok tt
      → (run_validators same vs ctx t ≡ ok tt) × (run_validators same ws ctx t ≡ ok tt)
  unfolding run_validators
  run_validators-append [] ws ctx t e = (refl, e)
  run_validators-append (v ∷ vs) ws ctx t e =
      let (_, first, rest) = >>=-eq-ok (run_validator same v ctx t) _ e in
      let (front, back) = run_validators-append vs ws ctx t rest in (rw (first) front, back)

  -- A token that `Validate` accepts with a `WithValidator(v)` among the options, wherever it stands,
  -- is accepted by the three default validators and by `v`, in the context of all the options.
  pub validate_covers :
      (now : ℤ) (t : Token X) (front back : List (ValidateOption X)) (v : Validator X)
      → validate same now t (front ++ with_validator v ∷ back) ≡ ok tt
      → (ctx : ValidationCtx) × (ws : List (Validator X)) × (read_options
            (default_ctx now)
            default_validators
            (front ++ with_validator v ∷ back)
          ≡ ok (ctx, ws))
        × (run_validators same default_validators ctx t ≡ ok tt)
        × (own : List (Validator X)) × (expand_validator v ≡ ok own)
        × (run_validators same own ctx t ≡ ok tt)
  unfolding validate
  validate_covers now t front back v e =
      let ((ctx, ws), read, run) =
        >>=-eq-ok
          (read_options (default_ctx now) default_validators (front ++ with_validator v ∷ back)) _
          e in
      let (more, split) =
        read_options-append (front ++ with_validator v ∷ back) (default_ctx now) ctx
          default_validators ws read in
      let (start, own, rest, expanded, at) =
        read_options-expands front back v (default_ctx now) ctx default_validators ws read in
      let (defaults, _) =
        run_validators-append default_validators more ctx t
          (sym (ap (λ x. run_validators same x ctx t) split) ∙ run) in
      let (upto, _) =
        run_validators-append (start ++ own) rest ctx t
          (sym (ap (λ x. run_validators same x ctx t) at) ∙ run) in
      let (_, mine) = run_validators-append start own ctx t upto in
      (ctx, ws, read, defaults, own, expanded, mine)

  required_present :
      (c : String) (ctx : ValidationCtx) (t : Token X)
      → run_validators same (required c ∷ []) ctx t ≡ ok tt
      → (value : ClaimValue X) × (t.get c ≡ some value)
  unfolding run_validators run_validator validate_required
  required_present c ctx t run = elim (Option-cases (t.get c)) [
    | inl missing ↦ absurd (ground (arith, missing))
    | inr found ↦ found
  ]

  require_claim_lem :
      (c : String) (rs : List (Validator X)) (ctx : ValidationCtx) (t : Token X)
      → c ≢ ""
      → require_claim c ≡ ok rs
      → run_validators same rs ctx t ≡ ok tt
      → (is_supported_time_claim c ≡ ok tt) × (value : ClaimValue X) × (t.get c ≡ some value)
  unfolding require_claim is_supported_time_claim
  require_claim_lem c rs ctx t named e run =
      let supported : is_supported_time_claim c ≡ ok tt = ground (arith, eq_iff c "") in
      let only : rs ≡ required c ∷ [] = ground (arith, eq_iff c "") in
      let (value, found) =
        required_present c ctx t (sym (ap (λ x. run_validators same x ctx t) only) ∙ run) in
      (supported, value, found)

  -- An accepted token has each claim that a time range of the options names, and each of them is one
  -- of "exp", "iat" and "nbf".
  pub range_requires :
      (now : ℤ) (t : Token X) (front back : List (ValidateOption X)) (iitr : IsInTimeRange)
      (c : String)
      → validate same now t (front ++ with_validator (in_time_range iitr) ∷ back) ≡ ok tt
      → (c ≡ iitr.c1) ⊎ (c ≡ iitr.c2)
      → c ≢ ""
      → (is_supported_time_claim c ≡ ok tt) × (value : ClaimValue X) × (t.get c ≡ some value)
  unfolding expand_validator
  range_requires now t front back iitr c e at named =
      let (ctx, ws, read, defaults, own, expanded, mine) =
        validate_covers now t front back (in_time_range iitr) e in
      let (r1, first, rest) = >>=-eq-ok (require_claim iitr.c1) _ expanded in
      let (r2, second, last) = >>=-eq-ok (require_claim iitr.c2) _ rest in
      let split : own ≡ r1 ++ (r2 ++ in_time_range iitr ∷ []) = cc in
      let (run_1, others) =
        run_validators-append r1 (r2 ++ in_time_range iitr ∷ []) ctx t
          (sym (ap (λ x. run_validators same x ctx t) split) ∙ mine) in
      let (run_2, _) = run_validators-append r2 (in_time_range iitr ∷ []) ctx t others in
      elim at [
        | inl p ↦ require_claim_lem c r1 ctx t named (ap require_claim p ∙ first) run_1
        | inr p ↦ require_claim_lem c r2 ctx t named (ap require_claim p ∙ second) run_2
      ]
