-- ===== src/Format/Tests.antt =====
-- Concrete runs of `GuessFormat`, and the theorems at concrete inputs.
use jwx.Common.{◌≡◌, ◌↔◌, refl, true, false, none, some, [], ◌∷◌, ◌++◌, arith}
use jwx.Format.{
  FormatHint, unknown_format, jwe, jws, jwt, has, trim_space, trim_front, count, hinted_kind,
  guess_format,
}
use jwx.Format.Compact.{join, guess_format-join}
use jwx.Format.Hints.{hinted_kind-eq-jws}

-- A JWS in JSON with a member "aud" beside its own.
abbrev jws_with_aud : FormatHint
jws_with_aud = record {
  payload = some (b'e' ∷ []);
  signatures = some (b'[' ∷ b']' ∷ []);
  ciphertext = none;
  key_type = none;
  keys = none;
  audience = some (b'1' ∷ []);
}

guess_format-join_example :
    guess_format
      (λ bs. none)
      ((b' ' ∷ []) ++ (join (b'a' ∷ []) ((b'b' ∷ b'_' ∷ []) ∷ [] ∷ []) ++ (10 ∷ [])))
    ≡ jws
guess_format-join_example =
    guess_format-join (λ bs. none) (b' ' ∷ []) (10 ∷ []) (b'a' ∷ []) ((b'b' ∷ b'_' ∷ []) ∷ [] ∷ [])
      (refl, tt) (refl, tt)
      (
        ((omega arith, omega arith, omega arith, omega arith), tt),
        (
          (
            (omega arith, omega arith, omega arith, omega arith),
            ((omega arith, omega arith, omega arith, omega arith), tt),
          ),
          (tt, tt),
        ),
      )
      (unfold join in omega arith)

hinted_kind-eq-jws_example :
    ((hinted_kind jws_with_aud ≡ jws) ↔ (
      (has jws_with_aud.signatures ≡ true)
      × (has jws_with_aud.payload ≡ true)
      × (has jws_with_aud.audience ≡ false)
      × (has jws_with_aud.key_type ≡ false)
      × (has jws_with_aud.keys ≡ false)
      × (has jws_with_aud.ciphertext ≡ false)))
    × ((hinted_kind jws_with_aud ≡ jwt) ↔ (has jws_with_aud.audience ≡ true))
hinted_kind-eq-jws_example = hinted_kind-eq-jws jws_with_aud

-- An ideographic space in front, a no-break space behind.
trim_wide :
    trim_space (0xE3 ∷ 0x80 ∷ 0x80 ∷ b'a' ∷ b' ' ∷ b'b' ∷ 0xC2 ∷ 0xA0 ∷ [])
    ≡ b'a' ∷ b' ' ∷ b'b' ∷ []
unfolding trim_space trim_front
trim_wide = refl

guess_five : guess_format (λ bs. none) (46 ∷ 46 ∷ 46 ∷ 46 ∷ []) ≡ jwe
unfolding guess_format trim_space trim_front count
guess_five = refl

guess_blank : guess_format (λ bs. none) (32 ∷ 10 ∷ []) ≡ unknown_format
unfolding guess_format trim_space trim_front
guess_blank = refl

guess_json : guess_format (λ bs. some jws_with_aud) (b'{' ∷ b'}' ∷ []) ≡ jwt
unfolding guess_format trim_space trim_front hinted_kind
guess_json = refl
