-- ===== src/Jwt/Birthdate/RoundTrip.antt =====
-- `Accept` and `encode` of jwt/openid/birthdate.go undo each other.
use jwx.Common.{
  ℕ, ◌+◌, ◌*◌, ◌/◌, ◌%◌, ◌<◌, ◌≡◌, refl, ap, ◌∙◌, true, false, some, [], ◌∷◌, arith, ◌==◌,
}
use jwx.Jwt.Birthdate.{Birthdate, two_digits, four_digits, is_digit, matches, accept, encode}

-- What `Accept` stores.
abbrev pub InRange : Birthdate → Type 0
InRange b =
    (0 < b.year) × (b.year < 10000) × (0 < b.month) × (b.month < 100) × (0 < b.day) × (b.day < 100)

-- The two bytes that stand for a number are digits, and are read as the number.
abbrev tens : ℕ → ℕ
tens n = n / 10 + 48

abbrev ones : ℕ → ℕ
ones n = n % 10 + 48

tens_digit : (n : ℕ) → n < 100 → is_digit (tens n) ≡ true
tens_digit n h = ground arith

ones_digit : (n : ℕ) → is_digit (ones n) ≡ true
ones_digit n = ground arith

read_put : (n : ℕ) → two_digits (tens n) (ones n) ≡ n
read_put n = omega arith

read_four :
    (y : ℕ) → four_digits (tens (y / 100)) (ones (y / 100)) (tens (y % 100)) (ones (y % 100)) ≡ y
read_four y =
    ap (λ n. n * 100 + two_digits (tens (y % 100)) (ones (y % 100))) (read_put (y / 100))
    ∙ ap (λ n. y / 100 * 100 + n) (read_put (y % 100))
    ∙ omega arith

positive : (n : ℕ) → 0 < n → n == 0 ≡ false
positive n h = ground arith

accept_ten :
    (a b c d e f g i : ℕ) (date : Birthdate)
    → matches a b c d b'-' e f b'-' g i ≡ true
    → four_digits a b c d ≡ date.year
    → two_digits e f ≡ date.month
    → two_digits g i ≡ date.day
    → InRange date
    → accept (a ∷ b ∷ c ∷ d ∷ b'-' ∷ e ∷ f ∷ b'-' ∷ g ∷ i ∷ []) ≡ some date
unfolding accept
accept_ten a b c d e f g i date m y mo da (y0, y1, m0, m1, d0, d1) =
    rw (m, y, mo, da, positive date.year y0, positive date.month m0, positive date.day d0) refl

all_digits :
    (a b c d e f g i : ℕ)
    → (is_digit a ≡ true)
      × (is_digit b ≡ true)
      × (is_digit c ≡ true)
      × (is_digit d ≡ true)
      × (is_digit e ≡ true)
      × (is_digit f ≡ true)
      × (is_digit g ≡ true)
      × (is_digit i ≡ true)
    → matches a b c d b'-' e f b'-' g i ≡ true
all_digits a b c d e f g i (p, q, r, s, t, u, v, w) = rw (p, q, r, s, t, u, v, w) refl

-- `Accept` of what `encode` writes returns the date, for a year of at most four digits, a month and a day
-- of at most two, none of them 0; it does not ask whether there is such a day.
pub accept-encode : (b : Birthdate) → InRange b → accept (encode b) ≡ some b
unfolding accept encode
accept-encode b r =
    let (y0, y1, m0, m1, d0, d1) = r in
    accept_ten (tens (b.year / 100)) (ones (b.year / 100)) (tens (b.year % 100))
      (ones (b.year % 100)) (tens b.month) (ones b.month) (tens b.day) (ones b.day) b
      (all_digits (tens (b.year / 100)) (ones (b.year / 100)) (tens (b.year % 100))
        (ones (b.year % 100)) (tens b.month) (ones b.month) (tens b.day) (ones b.day)
        (
          tens_digit (b.year / 100) (omega arith),
          ones_digit (b.year / 100),
          tens_digit (b.year % 100) (omega arith),
          ones_digit (b.year % 100),
          tens_digit b.month m1,
          ones_digit b.month,
          tens_digit b.day d1,
          ones_digit b.day,
        ))
      (read_four b.year) (read_put b.month) (read_put b.day) r
