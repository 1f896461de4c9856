-- ===== src/Jwt/Birthdate/Tests.antt =====
-- Concrete birthdates.
use jwx.Common.{◌≡◌, refl, none, some, [], ◌∷◌, arith}
use jwx.Jwt.Birthdate.{Birthdate, accept, encode}
use jwx.Jwt.Birthdate.RoundTrip.{accept-encode}

abbrev leap_day : Birthdate
leap_day = record { year = 2000; month = 2; day = 30 }

encoded : encode leap_day ≡ b'2' ∷ b'0' ∷ b'0' ∷ b'0' ∷ b'-' ∷ b'0' ∷ b'2' ∷ b'-' ∷ b'3' ∷ b'0' ∷ []
unfolding encode
encoded = refl

accept-encode_example : accept (encode leap_day) ≡ some leap_day
accept-encode_example =
    accept-encode leap_day
      (omega arith, omega arith, omega arith, omega arith, omega arith, omega arith)

-- The year 0000 is refused, as is a year alone.
no_year : accept (b'0' ∷ b'0' ∷ b'0' ∷ b'0' ∷ b'-' ∷ b'0' ∷ b'2' ∷ b'-' ∷ b'0' ∷ b'1' ∷ []) ≡ none
unfolding accept
no_year = refl

only_year : accept (b'2' ∷ b'0' ∷ b'0' ∷ b'0' ∷ []) ≡ none
unfolding accept
only_year = refl
