-- ===== src/Jwt/Parse/Tests.antt =====
-- Concrete runs of `Parse`, and the theorems at concrete inputs. A JWS is `<payload>.<payload>.s`.
use jwx.Common.{
  ℕ, ◌≡◌, ◌≢◌, ◌⊎◌, refl, inl, true, false, none, some, [], ◌∷◌, ok, err, Option, length, ◌==◌,
  if◌then◌else◌,
}
use jwx.Common.Bytes.{Bytes}
use jwx.Format.{
  FormatHint, jws, jwt, unknown_format, guess_format, trim_space, trim_front, count, hinted_kind,
}
use jwx.Jwt.Parse.{
  Services, ParseCtx, jws_verify_auto, ident_verify_auto, with_key_option, with_pedantic,
  expected_nested, parse, finish, parse_bytes, parse_insecure, gather, gather_option, start,
  to_verify_options, to_verify_option, has_security, layers, layer, leave_raw, open_jws, verify_jws,
}
use jwx.Jwt.Parse.Verified.{Verifies, FromVerified, IsRaw, parse-eq-ok, parse_never_nested}
use jwx.Jwt.Parse.Unverified.{parse_unverified, parse_bytes_needs_keys, insecure_verifies}

-- A JSON document of three bytes has "aud", "signatures" and "payload"; others have nothing.
abbrev hints : Bytes → FormatHint
hints bs =
    let mark : Option Bytes = if length bs == 3 then some [] else none in
    record {
      payload = mark;
      signatures = mark;
      ciphertext = none;
      key_type = none;
      keys = none;
      audience = mark;
    }

-- Tokens are the bytes that they were decoded from; every signature holds, over the payload "{}".
abbrev payload : Bytes
payload = b'{' ∷ b'}' ∷ []

abbrev services : Services Bytes ℕ ℕ ℕ ℕ ℕ
services = record {
  read_hint = λ bs. some (hints bs);
  jws_verify = λ keys bs. ok payload;
  jws_payload = λ bs. ok (b'a' ∷ b'.' ∷ b'b' ∷ b'.' ∷ []);
  new_token = [];
  has_decode_ctx = λ t. false;
  unmarshal = λ reg bs t. ok bs;
  validate_token = λ t vs. ok tt;
}

abbrev with_key : ParseCtx Bytes ℕ ℕ ℕ ℕ
with_key = record {
  token = none;
  validate_opts = [];
  verify_opts = jws_verify_auto 1 ∷ [];
  local_reg = none;
  pedantic = false;
  skip_verification = false;
  validate = true;
}

abbrev compact : Bytes
compact = b'x' ∷ b'.' ∷ b'y' ∷ b'.' ∷ b'z' ∷ []

abbrev disguised : Bytes
disguised = b'{' ∷ b'1' ∷ b'}' ∷ []

compact_jws : guess_format services.read_hint compact ≡ jws
unfolding guess_format trim_space trim_front count
compact_jws = refl

disguised_jwt : guess_format services.read_hint disguised ≡ jwt
unfolding guess_format trim_space trim_front hinted_kind
disguised_jwt = refl

inner_jws : guess_format services.read_hint (b'a' ∷ b'.' ∷ b'b' ∷ b'.' ∷ []) ≡ jws
unfolding guess_format trim_space trim_front count
inner_jws = refl

payload_unknown : guess_format services.read_hint payload ≡ unknown_format
unfolding guess_format trim_space trim_front hinted_kind
payload_unknown = refl

compact_run : parse services with_key compact ≡ ok payload
unfolding parse layers layer leave_raw open_jws verify_jws finish guess_format trim_space trim_front
    count hinted_kind
compact_run = refl

-- The token of the JWS in disguise is not what was verified.
disguised_run : parse services with_key disguised ≡ ok disguised
unfolding parse layers layer leave_raw open_jws verify_jws finish guess_format trim_space trim_front
    count hinted_kind
disguised_run = refl

parse-eq-ok_example :
    (v : Bytes) × Verifies services with_key compact v
    × (((guess_format services.read_hint compact ≡ jws) × FromVerified services with_key v payload)
        ⊎ (IsRaw services with_key compact × (finish services with_key compact ≡ ok payload)))
parse-eq-ok_example = parse-eq-ok services with_key refl refl compact payload compact_run

parse_never_nested_example :
    parse services (record with_key { pedantic = true }) compact ≢ err expected_nested
parse_never_nested_example =
    parse_never_nested services (record with_key { pedantic = true }) compact

parse_unverified_example :
    parse services (record with_key { verify_opts = [] }) compact
    ≡ finish services (record with_key { verify_opts = [] }) (b'a' ∷ b'.' ∷ b'b' ∷ b'.' ∷ [])
parse_unverified_example =
    parse_unverified services (record with_key { verify_opts = [] }) compact
      (b'a' ∷ b'.' ∷ b'b' ∷ b'.' ∷ []) refl compact_jws refl (inl inner_jws)

parse_bytes_needs_keys_example : parse_bytes services compact (with_pedantic true ∷ []) ≢ ok payload
parse_bytes_needs_keys_example =
    parse_bytes_needs_keys services compact (with_pedantic true ∷ []) payload
      (((λ k. λ e. cc), (λ e. cc)), tt)

insecure_run :
    parse_insecure services compact (with_key_option (ident_verify_auto 1) ∷ []) ≡ ok payload
unfolding parse_insecure parse_bytes gather to_verify_options has_security parse layers layer
    leave_raw open_jws verify_jws finish guess_format trim_space trim_front count hinted_kind
insecure_run = refl

insecure_verifies_example :
    (p : Bytes) × (services.jws_verify (jws_verify_auto 1 ∷ []) (trim_space compact) ≡ ok p)
insecure_verifies_example =
    insecure_verifies services compact (with_key_option (ident_verify_auto 1) ∷ [])
      (record start { key_options = ident_verify_auto 1 ∷ [] }) (jws_verify_auto 1) [] payload
      (unfold gather gather_option in refl) (unfold to_verify_options to_verify_option in refl)
      insecure_run
