-- ===== src/Jwt/Token.antt =====
-- jwt/token_gen.go and jwt/internal/types: the claims of a token.
mod Tests
use jwx.Common.{
  Bool, true, false, Option, none, some, String, List, [], ◌∷◌, Outcome, str_eq, if◌then◌else◌,
}
use jwx.Common.Int.{ℤ, pos}
use jwx.Fields.{
  Error, Schema, Fields, make_pairs, get_field, set_field, remove_field, unmarshal_json,
}
use jwx.Fields as FieldsModule
use jwx.Fields.Values.{one_of}

-- The value of a claim. `X` is a value that is neither; a `[]interface{}` holds texts and others (`none`).
pub data Claim (X : Type 0) : Type 0 where
  text : String → Claim X
  texts : List String → Claim X
  nil_texts : Claim X
  mixed_list : List (Option String) → Claim X
  date : ℤ → Claim X
  other : X → Claim X

-- How `NumericDate.Accept` reads a text or another value as a time, and how JSON values are decoded.
pub record Readers (X Raw : Type 0) : Type 0 where
  pub text_date : String → Option ℤ
  pub other_date : X → Option ℤ
  pub as_text : Raw → Option String
  pub as_any : Raw → Option (Claim X)
  pub registry : String → Raw → Option (Claim X)

unfoldable pub is_claim : String → Bool
unfolding one_of
is_claim n = one_of n ("aud" ∷ "exp" ∷ "iat" ∷ "iss" ∷ "jti" ∷ "nbf" ∷ "sub" ∷ [])

-- The loop over a `[]interface{}`.
unfoldable pub all_texts : List (Option String) → Option (List String)
all_texts [] = some []
all_texts (none ∷ l) = none
all_texts (some s ∷ l) = elim (all_texts l) [ none ↦ none | some rest ↦ some (s ∷ rest) ]

module _ {X Raw : Type 0} (readers : Readers X Raw) where
  -- `StringList.Accept`
  unfoldable pub accept_list : Claim X → Option (Option (Claim X))
  unfolding all_texts
  accept_list (text s) = some (some (texts (s ∷ [])))
  accept_list (texts l) = some (some (texts l))
  accept_list nil_texts = some none
  accept_list (mixed_list l) = elim (all_texts l) [ none ↦ none | some ts ↦ some (some (texts ts)) ]
  accept_list (date t) = none
  accept_list (other x) = none

  -- `NumericDate.Accept`
  unfoldable pub accept_date : Claim X → Option (Option (Claim X))
  accept_date (text s) = elim (readers.text_date s) [ none ↦ none | some t ↦ some (some (date t)) ]
  accept_date (date t) = some (some (date t))
  accept_date (other x) = elim (readers.other_date x) [
    | none ↦ none
    | some t ↦ some (some (date t))
  ]
  accept_date v = none

  unfoldable pub accept_text : Claim X → Option (Option (Claim X))
  accept_text (text s) = some (some (text s))
  accept_text v = none

  unfoldable pub accept_claim : String → Claim X → Option (Option (Claim X))
  unfolding accept_list accept_date accept_text
  accept_claim n v =
      if str_eq n "aud"
      then accept_list v
      else if one_of n ("exp" ∷ "iat" ∷ "nbf" ∷ [])
      then accept_date v
      else accept_text v

  -- `StringList.UnmarshalJSON` and `NumericDate.UnmarshalJSON` accept the decoded value.
  unfoldable pub decode_claim : String → Raw → Option (Option (Claim X))
  unfolding accept_list accept_date
  decode_claim n raw =
      if str_eq n "aud"
      then elim (readers.as_any raw) [ none ↦ none | some v ↦ accept_list v ]
      else if one_of n ("exp" ∷ "iat" ∷ "nbf" ∷ [])
      then elim (readers.as_any raw) [ none ↦ none | some v ↦ accept_date v ]
      else elim (readers.as_text raw) [ none ↦ none | some s ↦ some (some (text s)) ]

  -- `UnmarshalJSON` resets the fields and not the map of the private claims.
  abbrev pub claim_schema : Schema (Claim X) Raw
  claim_schema = record {
    known = is_claim;
    accept = accept_claim;
    decode = decode_claim;
    registry = readers.registry;
    clears_private = false;
  }

  abbrev pub StdToken : Type 0
  StdToken = Fields (Claim X)

  unfoldable pub get : StdToken → String → Option (Claim X)
  unfolding get_field
  get t n = get_field claim_schema t n

  unfoldable pub set : StdToken → String → Claim X → Outcome Error StdToken
  unfolding set_field
  set t n v = set_field claim_schema t n v

  unfoldable pub remove : StdToken → String → StdToken
  unfolding remove_field
  remove t n = remove_field claim_schema t n

  unfoldable pub unmarshal : StdToken → List (FieldsModule.Token Raw) → Outcome Error StdToken
  unfolding unmarshal_json
  unmarshal t ts = unmarshal_json claim_schema t ts

  -- `Expiration`, `IssuedAt` and `NotBefore`: the zero time where the claim is missing.
  unfoldable pub get_time : StdToken → String → ℤ
  unfolding get_field
  get_time t n = elim (get_field claim_schema t n) [ some (date d) ↦ d | _ ↦ pos 0 ]
