-- ===== src/Jwt/Whole/Tests.antt =====
-- A concrete JWT that `Parse` verifies, decodes and validates. Base64 is a doubling of every byte.
use jwx.Common.{
  ℕ, ◌≡◌, refl, Bool, true, false, Option, none, some, List, [], ◌∷◌, ok, ◌==◌, ◌*◌, ◌/◌, ◌+◌,
}
use jwx.Common.Bytes.{Bytes}
use jwx.Common.Assoc.{lookup, insert}
use jwx.Common.Int.{ℤ, pos, ◌+ℤ◌, ◌-ℤ◌}
use jwx.Format.{FormatHint, guess_format, trim_space, trim_front, count, hinted_kind, jws}
use jwx.Fields.{
  Token, open_brace, close_brace, member, no_fields, get_field, unmarshal_json, decode_tokens,
  decode_member,
}
use jwx.Fields.Values.{one_of}
use jwx.Jws.Verify.{
  Codec, Signature, with_key_option, no_settings, read_options, parse_from, parse_compact,
  parse_segments, get_b64_value, split, split_compact, attach, header_bytes, try_keys,
  try_providers, try_signatures, fetch_keys, succeed, signed_payload, verify,
}
use jwx.Jws.Verify as Jws
use jwx.Jwt.Times.{truncate, wrap_int64}
use jwx.Jwt.Token.{
  Claim, date, Readers, StdToken, is_claim, get, get_time, unmarshal, accept_date, decode_claim,
}
use jwx.Jwt.Validate.{
  validate, run_validators, run_validator, is_expiration_valid, is_issued_at_valid, is_nbf_valid,
}
use jwx.Jwt.Validate as Validate
use jwx.Jwt.Parse.{
  ParseOption, KeyOption, ident_key, VerifyOption, Gathered, start, gather, gather_option,
  suboptions, to_verify_option, to_verify_options, parse_bytes, parse, finish, layers, layer,
  leave_raw, open_jws, verify_jws, unverified,
}
use jwx.Jwt.Parse as Parse
use jwx.Jwt.Whole.{Failure, Held, to_jws, view, services}
use jwx.Jwt.Whole.Authentic.{SignedOnceOrTwice, InTime, parse-Signed}

encode : Bytes → Bytes
encode [] = []
encode (b ∷ bs) = (b * 2 + 1) ∷ encode bs

decode : Bytes → Bytes
decode [] = []
decode (b ∷ bs) = b / 2 ∷ decode bs

-- A signature holds if its first byte is the key; a header is its bytes.
abbrev codec : Codec Bytes ℕ ℕ
codec = record {
  decode = λ bs. some (decode bs);
  encode = encode;
  unmarshal_header = λ bs. some bs;
  unmarshal_message = λ bs. none;
  get_b64 = λ h. none;
  raw_buffer = λ h. some h;
  marshal_header = λ h. some h;
  new_verifier = λ alg. some (λ buf sig key. elim sig [ [] ↦ false | b ∷ bs ↦ b == key ]);
  assign_key = λ key. true;
}

-- A number is a time in seconds since the year 1.
abbrev readers : Option (List ℕ) → Readers ℕ ℕ
readers reg = record {
  text_date = λ s. none;
  other_date = λ x. none;
  as_text = λ raw. none;
  as_any = λ raw. some (date (pos (raw * 1000000000)));
  registry = λ n raw. none;
}

abbrev claims : Bytes → List (Token ℕ)
claims bs = open_brace ∷ member "exp" 63835600400 ∷ close_brace ∷ []

abbrev hints : Bytes → Option FormatHint
hints bs = some (record {
  payload = none;
  signatures = none;
  ciphertext = none;
  key_type = none;
  keys = none;
  audience = none;
})

-- `WithKey` of the algorithm 0 and the key 3.
abbrev the_key : Held Bytes ℕ ℕ ℕ
the_key subs = with_key_option (some 0) 3

abbrev same : Claim ℕ → Claim ℕ → Option Bool
same v w = none

abbrev now : ℤ
now = pos 63835596800000000000

abbrev Options : Type 0
Options = List (
    ParseOption (StdToken (readers none)) (Validate.ValidateOption (Claim ℕ)) (Held Bytes ℕ ℕ ℕ) ℕ
      ℕ)

abbrev options : Options
options = Parse.with_key_option (ident_key the_key []) ∷ []

abbrev gathered :
    Gathered (StdToken (readers none)) (Validate.ValidateOption (Claim ℕ)) (Held Bytes ℕ ℕ ℕ) ℕ ℕ
gathered = record start { key_options = ident_key the_key [] ∷ [] }

-- The header 1, the payload "{}" and the signature 3.
abbrev signed : Bytes
signed = 3 ∷ b'.' ∷ 247 ∷ 251 ∷ b'.' ∷ 7 ∷ []

abbrev token : StdToken (readers none)
token = record { standard = ("exp", date (pos 63835600400000000000)) ∷ []; private_params = none }

signed_format : guess_format hints (trim_space signed) ≡ jws
unfolding guess_format trim_space trim_front count
signed_format = refl

all_gathered : gather {E = Failure} start options ≡ ok gathered
unfolding gather gather_option
all_gathered = refl

parse_run : parse_bytes (services ℕ codec readers claims hints same now) signed options ≡ ok token
unfolding parse_bytes gather gather_option to_verify_options to_verify_option suboptions to_jws
    parse layers layer leave_raw open_jws verify_jws finish unverified guess_format trim_space
    trim_front count hinted_kind Jws.verify read_options Jws.parse parse_from parse_compact
    parse_segments get_b64_value split_compact split attach header_bytes try_signatures
    try_providers try_keys fetch_keys succeed encode decode view get_time get unmarshal
    unmarshal_json decode_tokens decode_member get_field is_claim one_of decode_claim accept_date
    lookup insert validate Validate.read_options run_validators run_validator is_expiration_valid
    is_issued_at_valid is_nbf_valid truncate wrap_int64 ◌+ℤ◌ ◌-ℤ◌
parse_run = refl

parse-Signed_example :
    (opts : List (VerifyOption (Held Bytes ℕ ℕ ℕ) ℕ)) × (payload : Bytes) × (to_verify_options
        {E = Failure}
        (ident_key the_key [] ∷ [])
      ≡ ok opts)
    × SignedOnceOrTwice ℕ codec readers claims hints same now opts (trim_space signed) payload
    × (unmarshal (readers none) no_fields (claims payload) ≡ ok token)
    × InTime ℕ codec readers claims hints same now token
parse-Signed_example =
    parse-Signed ℕ codec readers claims hints same now signed options gathered token all_gathered
      refl refl refl signed_format parse_run
