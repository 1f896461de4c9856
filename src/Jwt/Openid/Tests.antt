-- ===== src/Jwt/Openid/Tests.antt =====
-- Concrete claims of OpenID Connect.
use jwx.Common.{ℕ, ◌≡◌, refl, true, none, [], ◌∷◌, ok, err, if◌then◌else◌, str_eq}
use jwx.Common.Assoc.{insert}
use jwx.Fields.{no_fields, set_field, invalid_value}
use jwx.Fields.Values.{one_of}
use jwx.Jwt.Birthdate as BirthdateModule
use jwx.Jwt.Token.{text, other, accept_text}
use jwx.Jwt.Openid.{flag, birthdate, OpenidReaders, is_claim, accept_claim, accept_birthdate, set}

abbrev readers : OpenidReaders ℕ ℕ ℕ
readers = record {
  common = record {
    text_date = λ s. none;
    other_date = λ x. none;
    as_text = λ raw. none;
    as_any = λ raw. none;
    registry = λ n raw. none;
  };
  address_map = λ x. none;
  as_address = λ raw. none;
  as_flag = λ raw. none;
  text_bytes = λ s.
      if str_eq s "2000-01-02"
      then b'2' ∷ b'0' ∷ b'0' ∷ b'0' ∷ b'-' ∷ b'0' ∷ b'1' ∷ b'-' ∷ b'0' ∷ b'2' ∷ []
      else [];
}

set_birthdate :
    set readers no_fields "birthdate" (text "2000-01-02")
    ≡ ok (record {
      standard = ("birthdate", other (birthdate (record { year = 2000; month = 1; day = 2 }))) ∷ [];
      private_params = none;
    })
unfolding set set_field is_claim one_of accept_claim accept_birthdate BirthdateModule.accept insert
set_birthdate = refl

set_flag_as_name : set readers no_fields "name" (other (flag true)) ≡ err invalid_value
unfolding set set_field is_claim one_of accept_claim accept_text
set_flag_as_name = refl
