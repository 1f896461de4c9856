-- ===== src/Jws/Verify/Sound.antt =====
-- What the success of `Verify` in jws/jws.go rests on.
use jwx.Common.{
  ◌≡◌, inl, inr, Bool, true, false, Option, none, some, List, [], ◌∷◌, ◌++◌, Outcome, ok, err,
  ◌>>=◌, >>=-eq-ok, arith, length, ◌==◌, Bool-cases, Option-cases, if◌then◌else◌,
}
use jwx.Common.Bytes.{Bytes}
use jwx.Jws.Verify.{
  Signature, Message, KeyProvider, VerifyOption, Codec, Settings, Verified, Error, or_fail,
  provider_failed, no_providers, succeed, try_keys, try_providers, try_signatures, fetch_keys,
  header_bytes, attach, signed_payload, no_settings, read_options, parse, verify,
}

-- `x` is an element of the list.
pub data Among {X : Type 0} : X → List X → Type 0 where
  here : {x : X} {xs : List X} → Among x (x ∷ xs)
  there : {x y : X} {xs : List X} → Among x xs → Among x (y ∷ xs)

or_fail-eq-ok : {A : Type 0} (e : Error) (o : Option A) (a : A) → or_fail e o ≡ ok a → o ≡ some a
or_fail-eq-ok e none a h = cc
or_fail-eq-ok e (some b) a h = cc

behind_guard :
    {A : Type 0} {m : Outcome Error A} {a : A} (b : Bool) (e : Error)
    → b ≡ false
    → (if b then err e else m) ≡ ok a
    → m ≡ ok a
behind_guard true e p h = cc
behind_guard false e p h = h

module _ {H A K : Type 0} (codec : Codec H A K) where
  -- A verifier accepts the signature of `buf`, for one of the keys.
  abbrev pub KeyAccepts : Signature H → Bytes → List (A × K) → Type 0
  KeyAccepts sig buf pairs =
      (alg : A) × (key : K) × (f : Bytes → Bytes → K → Bool) × Among (alg, key) pairs
      × (codec.new_verifier alg ≡ some f)
      × (f buf sig.signature key ≡ true)

  -- The same, for the keys of one of the providers.
  abbrev pub ProviderAccepts : Message H → Signature H → Bytes → List (KeyProvider H A K) → Type 0
  ProviderAccepts msg sig buf kps =
      (kp : KeyProvider H A K) × (pairs : List (A × K)) × Among kp kps
      × (fetch_keys codec kp sig msg ≡ some pairs)
      × KeyAccepts sig buf pairs

  -- The same, for one of the signatures, over its own header and the payload.
  abbrev pub SignatureAccepted : Settings H A K → Message H → Bytes → List (Signature H) → Type 0
  SignatureAccepted s msg payload sigs =
      (sig : Signature H) × (header : Bytes) × Among sig sigs
      × (header_bytes codec sig.protected ≡ ok header)
      × ProviderAccepts msg sig (header ++ b'.' ∷ payload) s.key_providers

  succeed_payload :
      (s : Settings H A K) (msg : Message H) (key : K) (v : Verified H K)
      → succeed codec s msg key ≡ ok (some v)
      → v.payload ≡ msg.payload
  unfolding succeed
  succeed_payload s msg key v e = ground arith

  try_keys_sound :
      (s : Settings H A K) (msg : Message H) (sig : Signature H) (buf : Bytes)
      (pairs : List (A × K)) (v : Verified H K)
      → try_keys codec s msg sig buf pairs ≡ ok (some v)
      → (v.payload ≡ msg.payload) × KeyAccepts sig buf pairs
  unfolding try_keys
  try_keys_sound s msg sig buf [] v e = cc
  try_keys_sound s msg sig buf ((alg, key) ∷ pairs) v e =
      elim (Option-cases (codec.new_verifier alg)) [
        | inl missing ↦ absurd (ground (arith, missing))
        | inr (f, found) ↦ elim (Bool-cases (f buf sig.signature key)) [
          | inl accepted ↦ (
            succeed_payload s msg key v (ground (arith, found, accepted)),
            (alg, key, f, here, found, accepted),
          )
          | inr refused ↦
              let (same, (a, k, g, at, made, accepted)) =
                try_keys_sound s msg sig buf pairs v (ground (arith, found, refused)) in
              (same, (a, k, g, there at, made, accepted))
        ]
      ]

  try_providers_sound :
      (s : Settings H A K) (msg : Message H) (sig : Signature H) (buf : Bytes)
      (kps : List (KeyProvider H A K)) (v : Verified H K)
      → try_providers codec s msg sig buf kps ≡ ok (some v)
      → (v.payload ≡ msg.payload) × ProviderAccepts msg sig buf kps
  unfolding try_providers
  try_providers_sound s msg sig buf [] v e = cc
  try_providers_sound s msg sig buf (kp ∷ kps) v e =
      let (pairs, fetched, rest) =
        >>=-eq-ok (or_fail provider_failed (fetch_keys codec kp sig msg)) _ e in
      let (found, tried, last) = >>=-eq-ok (try_keys codec s msg sig buf pairs) _ rest in
      elim (Option-cases found) [
        | inl nothing ↦
            let (same, (kq, ps, at, got, more)) =
              try_providers_sound s msg sig buf kps v (ground (arith, nothing)) in
            (same, (kq, ps, there at, got, more))
        | inr (w, some_w) ↦
            let (same, accepts) =
              try_keys_sound s msg sig buf pairs v (ground (arith, some_w, tried)) in
            (
              same,
              (
                kp,
                pairs,
                here,
                or_fail-eq-ok provider_failed (fetch_keys codec kp sig msg) pairs fetched,
                accepts,
              ),
            )
      ]

  try_signatures_sound :
      (s : Settings H A K) (msg : Message H) (payload : Bytes) (sigs : List (Signature H))
      (v : Verified H K)
      → try_signatures codec s msg payload sigs ≡ ok v
      → (v.payload ≡ msg.payload) × SignatureAccepted s msg payload sigs
  unfolding try_signatures
  try_signatures_sound s msg payload [] v e = cc
  try_signatures_sound s msg payload (sig ∷ sigs) v e =
      let (header, marshalled, rest) = >>=-eq-ok (header_bytes codec sig.protected) _ e in
      let (found, tried, last) =
        >>=-eq-ok (try_providers codec s msg sig (header ++ b'.' ∷ payload) s.key_providers) _
          rest in
      elim (Option-cases found) [
        | inl nothing ↦
            let (same, (sg, h, at, got, more)) =
              try_signatures_sound s msg payload sigs v (ground (arith, nothing)) in
            (same, (sg, h, there at, got, more))
        | inr (w, some_w) ↦
            let (same, accepts) =
              try_providers_sound s msg sig (header ++ b'.' ∷ payload) s.key_providers v
                (ground (arith, some_w, tried)) in
            (same, (sig, header, here, marshalled, accepts))
      ]

  -- If `Verify` succeeds, it returns the payload of the parsed message, or the detached payload where
  -- the message has none; and for one of the signatures of the message, one of the keys that the
  -- providers gave for it, and the verifier of the algorithm that came with the key, the verifier
  -- accepts the signature of that header, a dot, and that payload.
  pub verify_sound :
      (buf : Bytes) (options : List (VerifyOption H A K)) (v : Verified H K)
      → verify codec buf options ≡ ok v
      → (s : Settings H A K) × (parsed : Message H) × (msg : Message H) × (read_options codec
            no_settings options
          ≡ ok s)
        × (parse codec buf ≡ ok parsed)
        × (attach codec s parsed ≡ ok msg)
        × (v.payload ≡ msg.payload)
        × SignatureAccepted s msg (signed_payload codec msg) msg.signatures
  unfolding verify
  verify_sound buf options v e =
      let (s, read, rest) = >>=-eq-ok (read_options codec no_settings options) _ e in
      elim (Bool-cases (length s.key_providers == 0)) [
        | inl no_keys ↦ absurd (ground (arith, no_keys))
        | inr keys ↦
            let run : (parse codec buf >>= λ parsed. attach codec s parsed >>= λ msg.
            try_signatures codec s msg (signed_payload codec msg) msg.signatures)
                ≡ ok v =
              behind_guard (length s.key_providers == 0) no_providers keys rest in
            let (parsed, is_parsed, after) = >>=-eq-ok (parse codec buf) _ run in
            let (msg, attached, tried) = >>=-eq-ok (attach codec s parsed) _ after in
            let (same, accepted) =
              try_signatures_sound s msg (signed_payload codec msg) msg.signatures v tried in
            (s, parsed, msg, read, is_parsed, attached, same, accepted)
      ]
