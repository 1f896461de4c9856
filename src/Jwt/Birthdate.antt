-- ===== src/Jwt/Birthdate.antt =====
-- jwt/openid/birthdate.go: `BirthdateClaim`.
pub mod RoundTrip
mod Tests
use jwx.Common.{
  ℕ, ◌+◌, ◌-◌, ◌*◌, ◌/◌, ◌%◌, Bool, true, false, ◌&&◌, ◌||◌, Option, none, some, List, [], ◌∷◌,
  ◌==◌, ltb, if◌then◌else◌,
}
use jwx.Common.Bytes.{Bytes}

-- 0 stands for a nil pointer, which `Accept` never leaves.
pub record Birthdate : Type 0 where
  pub year : ℕ
  pub month : ℕ
  pub day : ℕ

-- `\d`
abbrev pub is_digit : ℕ → Bool
is_digit b = ltb 47 b && ltb b 58

-- `strconv.ParseInt` of two digits, and of four.
abbrev pub two_digits : ℕ → ℕ → ℕ
two_digits a b = (a - 48) * 10 + (b - 48)

abbrev pub four_digits : ℕ → ℕ → ℕ → ℕ → ℕ
four_digits a b c d = two_digits a b * 100 + two_digits c d

-- `birthdateRx` on the ten bytes.
abbrev pub matches : ℕ → ℕ → ℕ → ℕ → ℕ → ℕ → ℕ → ℕ → ℕ → ℕ → Bool
matches a b c d h1 e f h2 g i =
    (is_digit a && is_digit b && (is_digit c && is_digit d))
    && (h1 == b'-' && is_digit e && (is_digit f && h2 == b'-'))
    && (is_digit g && is_digit i)

-- `Accept` of a string. `none` is its error, which leaves the three fields nil.
unfoldable pub accept : Bytes → Option Birthdate
accept (a ∷ b ∷ c ∷ d ∷ h1 ∷ e ∷ f ∷ h2 ∷ g ∷ i ∷ []) =
    if matches a b c d h1 e f h2 g i
    then (if four_digits a b c d == 0 || two_digits e f == 0 || two_digits g i == 0
        then none
        else some
            (record { year = four_digits a b c d; month = two_digits e f; day = two_digits g i }))
    else none
accept _ = none

-- `%02d` of a number below 100.
abbrev pub put_two : ℕ → Bytes → Bytes
put_two n rest = (n / 10 + 48) ∷ (n % 10 + 48) ∷ rest

-- `encode`, with `%04d` of a year below 10000: `Accept` stores no others.
unfoldable pub encode : Birthdate → Bytes
encode b =
    put_two (b.year / 100)
      (put_two (b.year % 100) (b'-' ∷ put_two b.month (b'-' ∷ put_two b.day [])))
