-- ===== src/Jwt/Whole/Authentic.antt =====
-- What a token that `jwt.Parse` returns rests on, down to the verifiers of jws and the claims.
use jwx.Common.{
  ◌≡◌, ◌⊎◌, inl, inr, sym, ap, ◌∙◌, Bool, true, false, Option, none, some, List, [], ◌∷◌, map,
  Outcome, ok, err, panic, >>=-eq-ok, arith,
}
use jwx.Common.Bytes.{Bytes}
use jwx.Common.Int.{ℤ}
use jwx.Format.{FormatHint, guess_format, trim_space, jws}
use jwx.Fields.{no_fields}
use jwx.Fields as FieldsModule
use jwx.Jws.Verify.{
  Codec, Message, Verified, parse, no_settings, read_options, attach, signed_payload,
}
use jwx.Jws.Verify as Jws
use jwx.Jws.Verify.Sound.{SignatureAccepted, verify_sound}
use jwx.Jwt.Times.{before, is_unset}
use jwx.Jwt.Token.{Claim, Readers, StdToken, get_time, unmarshal}
use jwx.Jwt.Validate.{ValidateOption, validate}
use jwx.Jwt.Validate.Window.{second, validate-now}
use jwx.Jwt.Parse.{
  Services, KeyOption, VerifyOption, ParseOption, ParseCtx, Gathered, start, gather,
  to_verify_option, to_verify_options, parse_bytes, is_empty, finish, or_error, bad_json, not_valid,
}
use jwx.Jwt.Parse as Jwt
use jwx.Jwt.Parse.Verified.{parse-eq-ok}
use jwx.Jwt.Parse.Unverified.{gather_skip}
use jwx.Jwt.Whole.{
  Failure, jws_failed, claims_failed, validation_failed, or_failure, Held, to_jws, view,
  verify_with, services,
}

or_failure-eq-ok :
    {A E : Type 0} (wrap : E → Failure) (o : Outcome E A) (a : A)
    → or_failure wrap o ≡ ok a
    → o ≡ ok a
or_failure-eq-ok wrap panic a e = cc
or_failure-eq-ok wrap (err x) a e = cc
or_failure-eq-ok wrap (ok b) a e = ground arith

-- A token that comes out of `finish` was decoded, and accepted by `Validate` where it is called.
finish-eq-ok :
    {T V W S R E : Type 0} (services : Services T V W S R E) (ctx : ParseCtx T V W S R)
    (payload : Bytes) (t : T)
    → ctx.validate ≡ true
    → finish services ctx payload ≡ ok t
    → (services.unmarshal ctx.local_reg payload
          (elim ctx.token [ none ↦ services.new_token | some old ↦ old ])
        ≡ ok t)
      × (services.validate_token t ctx.validate_opts ≡ ok tt)
unfolding finish
finish-eq-ok services ctx payload t on e = ground arith

module _ {W S E : Type 0} where
  converted-keyed :
      (keys : List (KeyOption W S)) (opts : List (VerifyOption W S))
      → is_empty keys ≡ false
      → to_verify_options {E = E} keys ≡ ok opts
      → is_empty opts ≡ false
  unfolding to_verify_options
  converted-keyed [] opts keyed e = cc
  converted-keyed (k ∷ keys) opts keyed e =
      let (v, first, rest) = >>=-eq-ok (to_verify_option {E = E} k) _ e in
      let (vs, others, last) = >>=-eq-ok (to_verify_options {E = E} keys) _ rest in
      ground (arith, last)

module _ {T V W S R E : Type 0} where
  -- `Parse` with keys is `parse` with the options converted.
  parse_bytes-eq-ok :
      (services : Services T V W S R E) (input : Bytes) (options : List (ParseOption T V W S R))
      (g : Gathered T V W S R) (t : T)
      → gather {E = E} start options ≡ ok g
      → is_empty g.key_options ≡ false
      → parse_bytes services input options ≡ ok t
      → (opts : List (VerifyOption W S)) × (to_verify_options {E = E} g.key_options ≡ ok opts)
        × (Jwt.parse services (record g.ctx { verify_opts = opts }) (trim_space input) ≡ ok t)
  unfolding parse_bytes
  parse_bytes-eq-ok services input options g t gathered keyed e =
      let rest = rw (parse_bytes, gathered, keyed) at e in
      >>=-eq-ok (to_verify_options {E = E} g.key_options) _ rest

module _ {H A K X Raw R : Type 0} (S : Type 0) (codec : Codec H A K)
    (readers : Option (List R) → Readers X Raw) (tokens : Bytes → List (FieldsModule.Token Raw))
    (read_hint : Bytes → Option FormatHint) (same : Claim X → Claim X → Option Bool) (now : ℤ) where
  abbrev Ctx : Type 0
  Ctx = ParseCtx (StdToken (readers none)) (ValidateOption (Claim X)) (Held H A K S) S R

  abbrev own_services :
      Services (StdToken (readers none)) (ValidateOption (Claim X)) (Held H A K S) S R Failure
  own_services = services S codec readers tokens read_hint same now

  -- The signature of the message that `buf` holds was accepted, and `payload` is the payload of that
  -- message, or the detached one.
  abbrev pub Signed : List (VerifyOption (Held H A K S) S) → Bytes → Bytes → Type 0
  Signed opts buf payload =
      (s : Jws.Settings H A K) × (parsed : Message H) × (msg : Message H) × (read_options codec
          no_settings (map to_jws opts)
        ≡ ok s)
      × (parse codec buf ≡ ok parsed)
      × (attach codec s parsed ≡ ok msg)
      × (payload ≡ msg.payload)
      × SignatureAccepted codec s msg (signed_payload codec msg) msg.signatures

  -- `payload` is the payload of the signed message in `buf`, or, when that is a signed message again, of
  -- that one.
  abbrev pub SignedOnceOrTwice : List (VerifyOption (Held H A K S) S) → Bytes → Bytes → Type 0
  SignedOnceOrTwice opts buf payload =
      Signed opts buf payload ⊎ ((v : Bytes) × Signed opts buf v × Signed opts v payload)

  -- The time is in the window that the claims of the token give.
  abbrev pub InTime : StdToken (readers none) → Type 0
  InTime t =
      ((is_unset (get_time (readers none) t "exp") ≡ true)
        ⊎ (before now (second (get_time (readers none) t "exp")) ≡ true))
      × ((is_unset (get_time (readers none) t "iat") ≡ true)
          ⊎ (before now (second (get_time (readers none) t "iat")) ≡ false))
      × ((is_unset (get_time (readers none) t "nbf") ≡ true)
          ⊎ (before now (second (get_time (readers none) t "nbf")) ≡ false))

  abbrev pub initial : Ctx → StdToken (readers none)
  initial ctx = elim ctx.token [ none ↦ no_fields | some t ↦ t ]

  verify_with-Signed :
      (opts : List (VerifyOption (Held H A K S) S)) (buf payload : Bytes)
      → verify_with S codec readers tokens read_hint same now opts buf ≡ ok payload
      → Signed opts buf payload
  verify_with-Signed opts buf payload e =
      let (v, verified, last) =
        >>=-eq-ok (or_failure jws_failed (Jws.verify codec buf (map to_jws opts))) _ e in
      let (s, parsed, msg, read, is_parsed, attached, same_payload, accepted) =
        verify_sound codec buf (map to_jws opts) v (or_failure-eq-ok jws_failed _ v verified) in
      (s, parsed, msg, read, is_parsed, attached, (ground arith), accepted)

  finish_lem :
      (ctx : Ctx) (payload : Bytes) (t : StdToken (readers none))
      → ctx.validate ≡ true
      → ctx.validate_opts ≡ []
      → finish own_services ctx payload ≡ ok t
      → (unmarshal (readers ctx.local_reg) (initial ctx) (tokens payload) ≡ ok t)
        × (validate same now (view (readers none) t) [] ≡ ok tt)
  finish_lem ctx payload t on plain e =
      let (decoded, checked) = finish-eq-ok own_services ctx payload t on e in
      (
        or_failure-eq-ok claims_failed _ t decoded,
        sym (ap (validate same now (view (readers none) t)) plain)
            ∙ or_failure-eq-ok validation_failed _ tt checked,
      )

  view-InTime :
      (t : StdToken (readers none))
      → validate same now (view (readers none) t) [] ≡ ok tt
      → InTime t
  unfolding view
  view-InTime t e = (validate-now same now (view (readers none) t)).0 e

  parse-SignedOnceOrTwice :
      (ctx : Ctx) (whole : Bytes) (t : StdToken (readers none))
      → is_empty ctx.verify_opts ≡ false
      → ctx.skip_verification ≡ false
      → ctx.validate ≡ true
      → ctx.validate_opts ≡ []
      → guess_format read_hint whole ≡ jws
      → Jwt.parse own_services ctx whole ≡ ok t
      → (payload : Bytes) × SignedOnceOrTwice ctx.verify_opts whole payload
        × (unmarshal (readers ctx.local_reg) (initial ctx) (tokens payload) ≡ ok t)
        × InTime t
  parse-SignedOnceOrTwice ctx whole t keys skip on plain is_jws e =
      let (v, first, source) = parse-eq-ok own_services ctx keys skip whole t e in
      elim source [
        | inr (raw, _) ↦ absurd (ground (arith, raw, is_jws))
        | inl (_, inl decoded) ↦
            let (read, accepted) = finish_lem ctx v t on plain decoded in
            (
              v,
              inl (verify_with-Signed ctx.verify_opts whole v first),
              read,
              view-InTime t accepted,
            )
        | inl (_, inr (w, second_time, decoded)) ↦
            let (read, accepted) = finish_lem ctx w t on plain decoded in
            (
              w,
              inr (
                v,
                verify_with-Signed ctx.verify_opts whole v first,
                verify_with-Signed ctx.verify_opts v w second_time,
              ),
              read,
              view-InTime t accepted,
            )
      ]

  -- If the options of `Parse` name a key, leave validation on and hold none for `Validate`, and the trimmed
  -- input is taken for a JWS: when `Parse` returns a token, the options of keys were converted to options
  -- of jws, the token was decoded, over that of `WithToken` or an empty one, from the payload of the
  -- message that the trimmed input holds (or, when that payload is a signed message again, of that one), and
  -- for each of these messages the verifier of a key that the converted options name accepted a signature
  -- over its own protected header and its payload, the detached one if it is given; and the time is before
  -- the second of the token's "exp", and not before those of its "iat" and "nbf", for each of them that is
  -- set.
  pub parse-Signed :
      (input : Bytes)
      (options : List
        (ParseOption (StdToken (readers none)) (ValidateOption (Claim X)) (Held H A K S) S R))
      (g : Gathered (StdToken (readers none)) (ValidateOption (Claim X)) (Held H A K S) S R)
      (t : StdToken (readers none))
      → gather {E = Failure} start options ≡ ok g
      → is_empty g.key_options ≡ false
      → g.ctx.validate ≡ true
      → g.ctx.validate_opts ≡ []
      → guess_format read_hint (trim_space input) ≡ jws
      → parse_bytes own_services input options ≡ ok t
      → (opts : List (VerifyOption (Held H A K S) S)) × (payload : Bytes) × (to_verify_options
            {E = Failure} g.key_options
          ≡ ok opts)
        × SignedOnceOrTwice opts (trim_space input) payload
        × (unmarshal (readers g.ctx.local_reg) (initial g.ctx) (tokens payload) ≡ ok t)
        × InTime t
  parse-Signed input options g t gathered keyed on plain is_jws e =
      let (opts, converted, rest) =
        parse_bytes-eq-ok own_services input options g t gathered keyed e in
      let (payload, signed, read, in_time) =
        parse-SignedOnceOrTwice (record g.ctx { verify_opts = opts }) (trim_space input) t
          (converted-keyed {E = Failure} g.key_options opts keyed converted)
          (gather_skip options start g gathered) on plain is_jws rest in
      (opts, payload, converted, signed, read, in_time)
