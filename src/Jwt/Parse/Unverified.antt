-- ===== src/Jwt/Parse/Unverified.antt =====
-- `Parse` of jwt/jwt.go without keys, and `ParseInsecure`.
use jwx.Common.{
  ◌≡◌, ◌≢◌, refl, ◌⊎◌, sym, ◌∙◌, true, false, none, some, List, [], ◌∷◌, ◌++◌, ok, err, panic,
  ◌>>=◌, >>=-eq-ok, arith, All,
}
use jwx.Common.Bytes.{Bytes}
use jwx.Format.{jws, guess_format, trim_space}
use jwx.Jwt.Parse.{
  Services, ParseCtx, ParseOption, Gathered, KeyOption, VerifyOption, with_validate_option,
  with_key_option, with_token, with_pedantic, with_validate, with_verify, with_typed_claim,
  with_other, is_empty, verify_jws, leave_raw, open_jws, layer, layers, finish, parse, unverified,
  gather_option, gather, start, to_verify_options, parse_bytes, parse_insecure, has_security,
}
use jwx.Jwt.Parse.Verified.{IsRaw, parse-eq-ok}

module _ {T V W S R E : Type 0} (services : Services T V W S R E) (ctx : ParseCtx T V W S R) where
  -- Without keys, a JWS that `jws.Parse` accepts is opened once: when its payload `p` is a JWS again, that
  -- one is not opened, and `p` itself is decoded, as it is when it is taken for a JWT or, without
  -- `WithPedantic`, for nothing in particular.
  pub parse_unverified :
      (whole p : Bytes)
      → is_empty ctx.verify_opts ≡ true
      → guess_format services.read_hint whole ≡ jws
      → services.jws_payload whole ≡ ok p
      → (guess_format services.read_hint p ≡ jws) ⊎ IsRaw services ctx p
      → parse services ctx whole ≡ finish services ctx p
  unfolding parse layers layer leave_raw open_jws verify_jws unverified
  parse_unverified whole p keys w e h = ground arith

module _ {T V W S R : Type 0} where
  -- Options that name no key and do not switch the verification off.
  abbrev pub Keyless : ParseOption T V W S R → Type 0
  Keyless o = ((k : KeyOption W S) → o ≢ with_key_option k) × (o ≢ with_verify false)

module _ {T V W S R E : Type 0} where
  gather-Keyless :
      (g h : Gathered T V W S R) (os : List (ParseOption T V W S R))
      → All Keyless os
      → gather {E = E} g os ≡ ok h
      → (h.key_options ≡ g.key_options) × ((g.verification ≡ true) → h.verification ≡ true)
  unfolding gather gather_option
  gather-Keyless g h [] a e = ground arith
  gather-Keyless g h (with_validate_option v ∷ os) a e = gather-Keyless _ h os (a.1) e
  gather-Keyless g h (with_key_option k ∷ os) a e = absurd (a.0.0 k refl)
  gather-Keyless g h (with_token none ∷ os) a e = cc
  gather-Keyless g h (with_token (some t) ∷ os) a e = gather-Keyless _ h os (a.1) e
  gather-Keyless g h (with_pedantic b ∷ os) a e = gather-Keyless _ h os (a.1) e
  gather-Keyless g h (with_validate b ∷ os) a e = gather-Keyless _ h os (a.1) e
  gather-Keyless g h (with_verify true ∷ os) a e =
      let rest = gather-Keyless (record g { verification = true }) h os (a.1) e in
      (rest.0, λ v. rest.1 refl)
  gather-Keyless g h (with_verify false ∷ os) a e = absurd (a.0.1 refl)
  gather-Keyless g h (with_typed_claim r ∷ os) a e = gather-Keyless _ h os (a.1) e
  gather-Keyless g h (with_other ∷ os) a e = gather-Keyless g h os (a.1) e

  gather-append :
      (g : Gathered T V W S R) (os ps : List (ParseOption T V W S R))
      → gather {E = E} g (os ++ ps) ≡ (gather {E = E} g os >>= λ h. gather h ps)
  unfolding gather
  gather-append g [] ps = refl
  gather-append g (o ∷ os) ps =
      elim (gather_option {E = E} g o)
        as (λ r.
          (r >>= λ h. gather {E = E} h (os ++ ps))
          ≡ (r >>= (λ h. gather {E = E} h os) >>= λ h. gather {E = E} h ps)) [
            | ok h ↦ gather-append h os ps
            | err e ↦ refl
            | panic ↦ refl
          ]

  -- Without a key and without `WithVerify(false)`, `Parse` returns no token, whatever the input.
  pub parse_bytes_needs_keys :
      (services : Services T V W S R E) (input : Bytes) (os : List (ParseOption T V W S R)) (t : T)
      → All Keyless os
      → parse_bytes services input os ≢ ok t
  unfolding parse_bytes
  parse_bytes_needs_keys services input os t a = λ e.
      let (g, gathered, rest) = >>=-eq-ok (gather start os) _ e in
      let (no_key, checked) = gather-Keyless start g os a gathered in
      ground (arith, no_key, checked refl)

  pub gather_skip :
      (os : List (ParseOption T V W S R)) (g h : Gathered T V W S R)
      → gather {E = E} g os ≡ ok h
      → h.ctx.skip_verification ≡ g.ctx.skip_verification
  unfolding gather gather_option
  gather_skip [] g h e = ground arith
  gather_skip (with_validate_option v ∷ os) g h e = gather_skip os _ h e
  gather_skip (with_key_option k ∷ os) g h e = gather_skip os _ h e
  gather_skip (with_token none ∷ os) g h e = cc
  gather_skip (with_token (some t) ∷ os) g h e = gather_skip os _ h e
  gather_skip (with_pedantic b ∷ os) g h e = gather_skip os _ h e
  gather_skip (with_validate b ∷ os) g h e = gather_skip os _ h e
  gather_skip (with_verify b ∷ os) g h e = gather_skip os _ h e
  gather_skip (with_typed_claim r ∷ os) g h e = gather_skip os _ h e
  gather_skip (with_other ∷ os) g h e = gather_skip os g h e

  gather_insecure :
      (g : Gathered T V W S R) (os : List (ParseOption T V W S R))
      → gather {E = E} start os ≡ ok g
      → gather {E = E} start (os ++ with_verify false ∷ with_validate false ∷ [])
        ≡ ok (record g { verification = false; ctx = record g.ctx { validate = false } })
  unfolding gather gather_option
  gather_insecure g os e = rw (gather-append start os, e) refl

  -- `ParseInsecure` is `parse` with the keys among its options and no validation.
  parse_insecure_lem :
      (services : Services T V W S R E) (input : Bytes) (os : List (ParseOption T V W S R))
      (g : Gathered T V W S R) (vs : List (VerifyOption W S))
      → gather {E = E} start os ≡ ok g
      → to_verify_options {E = E} g.key_options ≡ ok vs
      → has_security services os ≡ false
      → parse_insecure services input os
        ≡ parse services (record g.ctx { verify_opts = vs; validate = false }) (trim_space input)
  unfolding parse_insecure parse_bytes
  parse_insecure_lem services input os g vs gathered converted plain =
      rw (plain, gather_insecure g os gathered) (ground (arith, converted))

  -- `ParseInsecure` with keys among its options verifies the input all the same, and returns no token
  -- unless `jws.Verify` accepts it.
  pub insecure_verifies :
      (services : Services T V W S R E) (input : Bytes) (os : List (ParseOption T V W S R))
      (g : Gathered T V W S R) (v : VerifyOption W S) (vs : List (VerifyOption W S)) (t : T)
      → gather {E = E} start os ≡ ok g
      → to_verify_options {E = E} g.key_options ≡ ok (v ∷ vs)
      → parse_insecure services input os ≡ ok t
      → (p : Bytes) × (services.jws_verify (v ∷ vs) (trim_space input) ≡ ok p)
  unfolding parse_insecure
  insecure_verifies services input os g v vs t gathered converted e =
      let plain : has_security services os ≡ false = ground arith in
      let skip : g.ctx.skip_verification ≡ false = gather_skip os start g gathered in
      let (p, accepted, rest) =
        parse-eq-ok services (record g.ctx { verify_opts = v ∷ vs; validate = false }) refl skip
          (trim_space input) t
          (sym (parse_insecure_lem services input os g (v ∷ vs) gathered converted plain) ∙ e) in
      (p, accepted)
