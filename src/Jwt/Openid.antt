-- ===== src/Jwt/Openid.antt =====
-- jwt/openid/token_gen.go: the tokens with the claims of OpenID Connect.
mod Tests
use jwx.Common.{
  Bool, true, false, Option, none, some, String, List, [], ◌∷◌, Outcome, str_eq, if◌then◌else◌,
}
use jwx.Common.Bytes.{Bytes}
use jwx.Fields.{Error, Schema, Fields, Token, get_field, set_field, remove_field, unmarshal_json}
use jwx.Fields.Values.{one_of}
use jwx.Jwt.Birthdate.{Birthdate}
use jwx.Jwt.Birthdate as BirthdateModule
use jwx.Jwt.Token.{Claim, text, other, Readers, accept_list, accept_date, accept_text}

-- A value that jwt/token_gen.go has no case for: `A` is an `AddressClaim`, `X` any other value.
pub data Extra (A X : Type 0) : Type 0 where
  flag : Bool → Extra A X
  address : A → Extra A X
  birthdate : Birthdate → Extra A X
  plain : X → Extra A X

-- The readers of a token, and those of the new claims: `AddressClaim.Accept` of a map, the JSON of an address
-- and a Boolean, and the bytes of a string.
pub record OpenidReaders (A X Raw : Type 0) : Type 0 where
  pub common : Readers (Extra A X) Raw
  pub address_map : X → Option A
  pub as_address : Raw → Option A
  pub as_flag : Raw → Option Bool
  pub text_bytes : String → Bytes

abbrev text_claims : List String
text_claims =
    "email" ∷ "family_name" ∷ "gender" ∷ "given_name" ∷ "iss" ∷ "jti" ∷ "locale" ∷ "middle_name"
    ∷ "name" ∷ "nickname" ∷ "phone_number" ∷ "picture" ∷ "preferred_username" ∷ "profile" ∷ "sub"
    ∷ "website" ∷ "zoneinfo" ∷ []

abbrev date_claims : List String
date_claims = "exp" ∷ "iat" ∷ "nbf" ∷ "updated_at" ∷ []

abbrev flag_claims : List String
flag_claims = "email_verified" ∷ "phone_number_verified" ∷ []

unfoldable is_claim : String → Bool
unfolding one_of
is_claim n =
    if one_of n text_claims
    then true
    else if one_of n date_claims
    then true
    else one_of n
        ("aud" ∷ "address" ∷ "birthdate" ∷ "email_verified" ∷ "phone_number_verified" ∷ [])

module _ {A X Raw : Type 0} (readers : OpenidReaders A X Raw) where
  -- `AddressClaim.Accept`
  unfoldable accept_address : Claim (Extra A X) → Option (Option (Claim (Extra A X)))
  accept_address (other (address a)) = some (some (other (address a)))
  accept_address (other (plain x)) = elim (readers.address_map x) [
    | none ↦ none
    | some a ↦ some (some (other (address a)))
  ]
  accept_address v = none

  -- `BirthdateClaim.Accept`
  unfoldable accept_birthdate : Claim (Extra A X) → Option (Option (Claim (Extra A X)))
  unfolding BirthdateModule.accept
  accept_birthdate (other (birthdate b)) = some (some (other (birthdate b)))
  accept_birthdate (text s) = elim (BirthdateModule.accept (readers.text_bytes s)) [
    | none ↦ none
    | some b ↦ some (some (other (birthdate b)))
  ]
  accept_birthdate v = none

  -- `value.(bool)`
  unfoldable accept_flag : Claim (Extra A X) → Option (Option (Claim (Extra A X)))
  accept_flag (other (flag b)) = some (some (other (flag b)))
  accept_flag v = none

  unfoldable accept_claim : String → Claim (Extra A X) → Option (Option (Claim (Extra A X)))
  unfolding one_of accept_list accept_date accept_text accept_address accept_birthdate accept_flag
  accept_claim n v =
      if str_eq n "aud"
      then accept_list readers.common v
      else if one_of n date_claims
      then accept_date readers.common v
      else if str_eq n "address"
      then accept_address v
      else if str_eq n "birthdate"
      then accept_birthdate v
      else if one_of n flag_claims
      then accept_flag v
      else accept_text readers.common v

  -- A birthdate is decoded as a string, which `Accept` takes.
  unfoldable decode_claim : String → Raw → Option (Option (Claim (Extra A X)))
  unfolding one_of accept_list accept_date accept_birthdate
  decode_claim n raw =
      if str_eq n "aud"
      then elim (readers.common.as_any raw) [ none ↦ none | some v ↦ accept_list readers.common v ]
      else if one_of n date_claims
      then elim (readers.common.as_any raw) [ none ↦ none | some v ↦ accept_date readers.common v ]
      else if str_eq n "address"
      then elim (readers.as_address raw) [ none ↦ none | some a ↦ some (some (other (address a))) ]
      else if str_eq n "birthdate"
      then elim (readers.common.as_text raw) [ none ↦ none | some s ↦ accept_birthdate (text s) ]
      else if one_of n flag_claims
      then elim (readers.as_flag raw) [ none ↦ none | some b ↦ some (some (other (flag b))) ]
      else elim (readers.common.as_text raw) [ none ↦ none | some s ↦ some (some (text s)) ]

  -- `UnmarshalJSON` resets the fields and not the map of the private claims.
  abbrev claim_schema : Schema (Claim (Extra A X)) Raw
  claim_schema = record {
    known = is_claim;
    accept = accept_claim;
    decode = decode_claim;
    registry = readers.common.registry;
    clears_private = false;
  }

  abbrev OpenidToken : Type 0
  OpenidToken = Fields (Claim (Extra A X))

  unfoldable get : OpenidToken → String → Option (Claim (Extra A X))
  unfolding get_field
  get t n = get_field claim_schema t n

  unfoldable set : OpenidToken → String → Claim (Extra A X) → Outcome Error OpenidToken
  unfolding set_field
  set t n v = set_field claim_schema t n v

  unfoldable remove : OpenidToken → String → OpenidToken
  unfolding remove_field
  remove t n = remove_field claim_schema t n

  unfoldable unmarshal : OpenidToken → List (Token Raw) → Outcome Error OpenidToken
  unfolding unmarshal_json
  unmarshal t ts = unmarshal_json claim_schema t ts
