-- ===== src/Jwt/Whole.antt =====
-- `jwt.Parse` with what it calls: the record `Services` of Jwt.Parse, filled by `Verify` and `Parse` of
-- jws/jws.go, by `UnmarshalJSON` of jwt/token_gen.go and by `Validate` of jwt/validate.go.
pub mod Authentic
mod Tests
use jwx.Common.{
  ◌≡◌, Bool, true, false, Option, none, some, String, List, [], ◌∷◌, Outcome, ok, err, panic, ◌>>=◌,
  map,
}
use jwx.Common.Bytes.{Bytes}
use jwx.Common.Int.{ℤ}
use jwx.Format.{FormatHint}
use jwx.Fields.{no_fields}
use jwx.Fields as FieldsModule
use jwx.Jws.Verify.{Codec, Message, Verified}
use jwx.Jws.Verify as Jws
use jwx.Jwt.Token.{Claim, texts, Readers, StdToken, get, get_time, unmarshal}
use jwx.Jwt.Validate.{
  Token, ClaimValue, text_list, other_value, ValidateOption, ValidationError, validate,
}
use jwx.Jwt.Parse.{
  Services, VerifyOption, jws_with_key, jws_with_key_set, jws_verify_auto, jws_with_key_provider,
  ParseCtx,
}

-- The errors of the parts.
pub data Failure : Type 0 where
  jws_failed : Jws.Error → Failure
  claims_failed : FieldsModule.Error → Failure
  validation_failed : ValidationError → Failure

abbrev pub or_failure : {A E : Type 0} → (E → Failure) → Outcome E A → Outcome Failure A
or_failure wrap panic = panic
or_failure wrap (err e) = err (wrap e)
or_failure wrap (ok a) = ok a

abbrev pub claim_value : {X : Type 0} → Claim X → ClaimValue (Claim X)
claim_value (texts l) = text_list l
claim_value v = other_value v

module _ {X Raw : Type 0} (readers : Readers X Raw) where
  -- What `Validate` sees of a token.
  unfoldable pub view : StdToken readers → Token (Claim X)
  unfolding get_time get
  view t = record {
    expiration = get_time readers t "exp";
    issued_at = get_time readers t "iat";
    not_before = get_time readers t "nbf";
    get = λ n. elim (get readers t n) [ none ↦ none | some v ↦ some (claim_value v) ];
  }

-- What an option of jwt holds: what `jws.WithKey` or `jws.WithKeySet` makes, with the sub-options, of the
-- algorithm and the key, or of the set; and the option of `WithVerifyAuto` or `jws.WithKeyProvider`, which
-- takes none.
abbrev pub Held : Type 0 → Type 0 → Type 0 → Type 0 → Type 0
Held H A K S = List S → Jws.VerifyOption H A K

-- The option of jws that `toVerifyOptions` appends.
unfoldable pub to_jws : {H A K S : Type 0} → VerifyOption (Held H A K S) S → Jws.VerifyOption H A K
to_jws (jws_with_key held subs) = held subs
to_jws (jws_with_key_set held subs) = held subs
to_jws (jws_verify_auto held) = held []
to_jws (jws_with_key_provider held) = held []

-- `readers` gives the decoders of the claims, under the typed claims of the options; `tokens` splits a
-- JSON text into its tokens; `same` is Go's `==`.
module _ {H A K X Raw R : Type 0} (S : Type 0) (codec : Codec H A K)
    (readers : Option (List R) → Readers X Raw) (tokens : Bytes → List (FieldsModule.Token Raw))
    (read_hint : Bytes → Option FormatHint) (same : Claim X → Claim X → Option Bool) (now : ℤ) where
  abbrev pub Jwt : Type 0
  Jwt = StdToken (readers none)

  abbrev pub verify_with : List (VerifyOption (Held H A K S) S) → Bytes → Outcome Failure Bytes
  verify_with opts bs =
      or_failure jws_failed (Jws.verify codec bs (map to_jws opts)) >>= λ v. ok v.payload

  abbrev pub payload_of : Bytes → Outcome Failure Bytes
  payload_of bs = or_failure jws_failed (Jws.parse codec bs) >>= λ m. ok m.payload

  -- `*stdToken` has `SetDecodeCtx`.
  abbrev pub services : Services Jwt (ValidateOption (Claim X)) (Held H A K S) S R Failure
  services = record {
    read_hint = read_hint;
    jws_verify = verify_with;
    jws_payload = payload_of;
    new_token = no_fields;
    has_decode_ctx = λ t. true;
    unmarshal = λ reg bs t. or_failure claims_failed (unmarshal (readers reg) t (tokens bs));
    validate_token =
        λ t opts. or_failure validation_failed (validate same now (view (readers none) t) opts);
  }
