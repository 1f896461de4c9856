-- ===== src/Jwt/Token/Tests.antt =====
-- Concrete claims of a token.
use jwx.Common.{ℕ, ◌≡◌, refl, none, some, [], ◌∷◌, ok, err, ◌*◌}
use jwx.Common.Assoc.{insert}
use jwx.Common.Int.{pos}
use jwx.Fields.{
  open_brace, close_brace, member, no_fields, invalid_value, set_field, unmarshal_json,
  decode_tokens, decode_member,
}
use jwx.Fields.Values.{one_of}
use jwx.Jwt.Token.{
  text, texts, mixed_list, date, Readers, StdToken, is_claim, all_texts, accept_list, accept_date,
  accept_claim, decode_claim, set, unmarshal,
}

abbrev readers : Readers ℕ ℕ
readers = record {
  text_date = λ s. none;
  other_date = λ x. some (pos (x * 1000000000));
  as_text = λ raw. none;
  as_any = λ raw. some (date (pos (raw * 1000000000)));
  registry = λ n raw. some (text "v");
}

abbrev for_a : StdToken readers
for_a = record { standard = ("aud", texts ("a" ∷ [])) ∷ []; private_params = none }

-- One audience is a list of one.
set_audience : set readers no_fields "aud" (text "a") ≡ ok for_a
unfolding set set_field is_claim one_of accept_claim accept_list insert
set_audience = refl

set_mixed : set readers no_fields "aud" (mixed_list (some "a" ∷ none ∷ [])) ≡ err invalid_value
unfolding set set_field is_claim one_of accept_claim accept_list all_texts
set_mixed = refl

-- `UnmarshalJSON` into a token with a private claim leaves the private claim.
stale_claim :
    unmarshal readers
      (record {
        standard = ("aud", texts ("a" ∷ [])) ∷ [];
        private_params = some (("p", text "old") ∷ []);
      })
      (open_brace ∷ member "exp" 5 ∷ close_brace ∷ [])
    ≡ ok (record {
      standard = ("exp", date (pos 5000000000)) ∷ [];
      private_params = some (("p", text "old") ∷ []);
    })
unfolding unmarshal unmarshal_json decode_tokens decode_member is_claim one_of decode_claim
    accept_date insert
stale_claim = refl
