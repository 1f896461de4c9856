-- ===== src/Jwe/Headers/Tests.antt =====
-- Concrete headers of a JWE.
use jwx.Common.{ℕ, ◌≡◌, refl, none, some, [], ◌∷◌, ok}
use jwx.Common.Assoc.{insert}
use jwx.Fields.{no_fields, set_field}
use jwx.Fields.Values.{other, one_of, Decoders}
use jwx.Jwe.Headers.{is_standard, set}

abbrev decoders : Decoders ℕ ℕ ℕ ℕ
decoders = record {
  as_text = λ raw. none;
  as_texts = λ raw. none;
  as_bytes = λ raw. some (raw ∷ []);
  as_key = λ raw. none;
  as_chain = λ raw. none;
  registry = λ n raw. some (other raw);
}

-- An initialization vector is bytes, and any other name takes every value.
set_private :
    set decoders no_fields "p" (other 1)
    ≡ ok (record { standard = []; private_params = some (("p", other 1) ∷ []) })
unfolding set set_field is_standard one_of insert
set_private = refl
