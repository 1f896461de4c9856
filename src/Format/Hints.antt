-- ===== src/Format/Hints.antt =====
-- What `GuessFormat` of format.go makes of a JSON object.
use jwx.Common.{◌≡◌, ◌↔◌, true, false, arith}
use jwx.Format.{FormatHint, jws, jwt, has, hinted_kind}

-- A JSON object is a JWS exactly if it has "signatures" and "payload" and none of "aud", "kty",
-- "keys" and "ciphertext"; it is a JWT exactly if it has "aud", whatever else it has.
pub hinted_kind-eq-jws :
    (h : FormatHint)
    → ((hinted_kind h ≡ jws) ↔ (
        (has h.signatures ≡ true)
        × (has h.payload ≡ true)
        × (has h.audience ≡ false)
        × (has h.key_type ≡ false)
        × (has h.keys ≡ false)
        × (has h.ciphertext ≡ false)))
      × ((hinted_kind h ≡ jwt) ↔ (has h.audience ≡ true))
unfolding hinted_kind
hinted_kind-eq-jws h = ground arith
