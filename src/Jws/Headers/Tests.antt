-- ===== src/Jws/Headers/Tests.antt =====
-- Concrete headers of a JWS, and the theorems at them.
use jwx.Common.{ℕ, ◌≡◌, refl, none, some, String, [], ◌∷◌, ok, err}
use jwx.Common.Assoc.{insert, lookup}
use jwx.Common.Assoc.Distinct.{or_else}
use jwx.Fields.{no_fields, set_field, get_field, marshal_json, invalid_value}
use jwx.Fields.Values.{text, algorithm, Decoders, one_of, accept_text}
use jwx.Fields.Built.{Built, fresh, after_set}
use jwx.Jws.Headers.{
  is_standard, accept_header, accept_signature_algorithm, algorithm_name, header_schema, Headers,
  get, set, merge, get_text,
}
use jwx.Jws.Headers.Laws.{merge-get}

abbrev decoders : Decoders ℕ ℕ ℕ ℕ
decoders = record {
  as_text = λ raw. none;
  as_texts = λ raw. none;
  as_bytes = λ raw. none;
  as_key = λ raw. none;
  as_chain = λ raw. none;
  registry = λ n raw. none;
}

abbrev with_alg : Headers decoders
with_alg = record { standard = ("alg", algorithm "HS256") ∷ []; private_params = none }

abbrev with_kid : Headers decoders
with_kid = record { standard = ("kid", text "k") ∷ []; private_params = none }

-- A string is an algorithm if it names one.
set_alg : set decoders no_fields "alg" (text "HS256") ≡ ok with_alg
unfolding set set_field is_standard one_of accept_header accept_signature_algorithm algorithm_name
    insert
set_alg = refl

set_no_alg : set decoders no_fields "alg" (text "HS1") ≡ err invalid_value
unfolding set set_field is_standard one_of accept_header accept_signature_algorithm algorithm_name
    insert
set_no_alg = refl

set_kid : set decoders no_fields "kid" (text "k") ≡ ok with_kid
unfolding set set_field is_standard one_of accept_header accept_text insert
set_kid = refl

alg_text : get_text decoders with_alg "alg" ≡ "HS256"
unfolding get_text get_field is_standard one_of lookup
alg_text = refl

with_alg-Built : Built (header_schema decoders) with_alg
unfolding set
with_alg-Built = after_set "alg" (text "HS256") with_alg fresh set_alg

with_kid-Built : Built (header_schema decoders) with_kid
unfolding set
with_kid-Built = after_set "kid" (text "k") with_kid fresh set_kid

merge-get_example :
    (g : Headers decoders) × (f : Headers decoders) × (merge decoders
        (some with_alg)
        (some with_kid)
      ≡ ok g)
    × (merge decoders (some with_alg) (some with_kid) ≡ ok f)
    × ((n : String)
        → get decoders g n ≡ or_else (get decoders with_kid n) (get decoders with_alg n))
    × (marshal_json (λ n. []) (λ v. some []) g ≡ marshal_json (λ n. []) (λ v. some []) f)
merge-get_example =
    merge-get decoders (λ n. []) (λ v. some []) with_alg with_kid with_alg with_kid with_alg-Built
      with_kid-Built with_alg-Built with_kid-Built (λ n. refl) (λ n. refl)
