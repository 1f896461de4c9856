-- ===== src/Jwt/Parse/Verified.antt =====
-- `parse` of jwt/jwt.go when keys are given: what the token is decoded from.
use jwx.Common.{◌≡◌, ◌≢◌, ◌⊎◌, false, ok, err, arith}
use jwx.Common.Bytes.{Bytes}
use jwx.Format.{unknown_format, jws, jwt, guess_format}
use jwx.Jwt.Parse.{
  Services, ParseCtx, expected_nested, is_empty, verify_jws, leave_raw, open_jws, layer, layers,
  finish, parse, unverified,
}

module _ {T V W S R E : Type 0} (services : Services T V W S R E) (ctx : ParseCtx T V W S R) where
  -- `jws.Verify` with the keys of the context accepts `bs` and returns `v`.
  abbrev pub Verifies : Bytes → Bytes → Type 0
  Verifies bs v = services.jws_verify ctx.verify_opts bs ≡ ok v

  -- The token `t` comes from a payload that was verified once, or twice when it is a JWS again.
  abbrev pub FromVerified : Bytes → T → Type 0
  FromVerified v t =
      (finish services ctx v ≡ ok t) ⊎ ((w : Bytes) × Verifies v w × (finish services ctx w ≡ ok t))

  -- `bs` is taken for a JWT, or for nothing in particular.
  abbrev pub IsRaw : Bytes → Type 0
  IsRaw bs =
      (guess_format services.read_hint bs ≡ jwt)
      ⊎ ((guess_format services.read_hint bs ≡ unknown_format) × (ctx.pedantic ≡ false))

module _ {T V W S R E : Type 0} (services : Services T V W S R E) (ctx : ParseCtx T V W S R)
    (keys : is_empty ctx.verify_opts ≡ false) (skip : ctx.skip_verification ≡ false) where
  -- With keys in the context and without `skipVerification`: if `parse` returns a token, then `jws.Verify`
  -- accepted the input with those keys. If the input is taken for a JWS, the token is decoded from the verified payload, or, when this is
  -- a JWS again, from the payload of that one, which was verified too; otherwise the input is taken for a JWT
  -- or, without `WithPedantic`, for nothing in particular, and the token is decoded from the input itself.
  pub parse-eq-ok :
      (whole : Bytes) (t : T)
      → parse services ctx whole ≡ ok t
      → (v : Bytes) × Verifies services ctx whole v
        × (((guess_format services.read_hint whole ≡ jws) × FromVerified services ctx v t)
            ⊎ (IsRaw services ctx whole × (finish services ctx whole ≡ ok t)))
  unfolding parse layers layer leave_raw open_jws verify_jws
  parse-eq-ok whole t h = ground (arith, keys, skip)

-- Whatever the input and the options, `parse` never asks for a nested payload: `expectNested` is
-- never set.
pub parse_never_nested :
    {T V W S R E : Type 0} (services : Services T V W S R E) (ctx : ParseCtx T V W S R)
    (whole : Bytes)
    → parse services ctx whole ≢ err expected_nested
unfolding parse layers layer leave_raw open_jws verify_jws finish unverified
parse_never_nested services ctx whole = λ h. ground arith
