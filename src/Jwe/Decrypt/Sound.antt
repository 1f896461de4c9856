-- ===== src/Jwe/Decrypt/Sound.antt =====
-- What the success of `Decrypt` in jwe/jwe.go rests on.
use jwx.Common.{
  ◌≡◌, ◌⊎◌, inl, inr, refl, ap, ◌∙◌, Bool, Option, none, some, String, List, [], ◌∷◌, Outcome, ok,
  err, panic, >>=-eq-ok, arith, length, ◌==◌, str_eq, eq_iff, Bool-cases, Option-cases,
  if◌then◌else◌,
}
use jwx.Common.Bytes.{Bytes}
use jwx.Fields.Values.{Decoders}
use jwx.Jws.Verify.Sound.{Among, here, there}
use jwx.Jwe.Headers.{Headers, get, merge, clone}
use jwx.Jwe.Decrypt.{
  Error, Decrypter, Recipient, Message, DecryptOption, Provider, Services, or_fail, or_headers,
  bad_key, bad_key_used, bad_message, provider_failed, key_providers, static_provider,
  or_not_decrypted, name_of, key_parameters, inflate, decrypt_key, try_keys, try_providers,
  try_recipients, recipients_of, computed_aad, encoded_aad, wants_key_used, decrypt,
}

or_fail-eq-ok : {A : Type 0} (e : Error) (o : Option A) (a : A) → or_fail e o ≡ ok a → o ≡ some a
or_fail-eq-ok e none a h = cc
or_fail-eq-ok e (some b) a h = cc

or_not_decrypted-eq-ok :
    {A E : Type 0} (o : Outcome E A) (a : A) → or_not_decrypted o ≡ ok a → o ≡ ok a
or_not_decrypted-eq-ok panic a h = cc
or_not_decrypted-eq-ok (err e) a h = cc
or_not_decrypted-eq-ok (ok b) a h = ground arith

module _ {K C X Raw Q P : Type 0} (decoders : Decoders K C X Raw)
    (services : Services decoders Q P) where
  -- `h` is a copy of `h1`, with those of `h2` over it.
  abbrev pub IsMerged : Headers decoders → Option (Headers decoders) → Headers decoders → Type 0
  IsMerged h1 h2 h =
      (copy : Headers decoders) × (or_headers (clone decoders h1) ≡ ok copy)
      × (or_headers (merge decoders copy h2) ≡ ok h)

  -- `decrypter.Decrypt` accepted the ciphertext with the key, under the algorithm that the recipient's
  -- header names, the "enc" of the protected headers, the parameters in the headers `shared` with those of
  -- the recipient over them, and over the authenticated data of the message; `plain` is what it gave,
  -- inflated as those headers say.
  abbrev pub Opened :
      Message decoders
      → Headers decoders
      → Option Bytes
      → Bytes
      → Recipient decoders
      → String
      → Q
      → Bytes
      → Type 0
  Opened msg shared aad computed r alg k plain =
      (d : Decrypter Q P) × (out : Option Bytes) × (h : Headers decoders) × (name_of decoders
          services (get decoders r.headers "alg")
        ≡ alg)
      × IsMerged shared (some r.headers) h
      × (d.enc ≡ name_of decoders services (get decoders msg.protected_headers "enc"))
      × (key_parameters decoders services alg h ≡ ok d.parameters)
      × (services.raw_key k ≡ some d.key)
      × (d.alg ≡ alg)
      × (d.aad ≡ aad)
      × (d.computed_aad ≡ computed)
      × (d.iv ≡ msg.initialization_vector)
      × (d.tag ≡ msg.tag)
      × (services.decrypt d r.encrypted_key msg.cipher_text ≡ ok out)
      × (inflate decoders services h out ≡ ok plain)

  decrypt_key-Opened :
      (msg : Message decoders) (aad : Option Bytes) (computed : Bytes) (h : Headers decoders)
      (alg : String) (k : Q) (r : Recipient decoders) (plain : Bytes)
      → decrypt_key decoders services msg aad computed h alg k r ≡ ok plain
      → Opened msg h aad computed r alg k plain
  unfolding decrypt_key
  decrypt_key-Opened msg aad computed h alg k r plain e =
      let (raw, is_raw, rest) = >>=-eq-ok (or_fail bad_key (services.raw_key k)) _ e in
      elim (Bool-cases (str_eq (name_of decoders services (get decoders r.headers "alg")) alg)) [
        | inr other ↦ absurd (ground (arith, other))
        | inl same ↦
            let (h1, cloned, rest) =
              >>=-eq-ok (or_headers (clone decoders h)) _ (rw same at rest) in
            let (h2, merged, rest) =
              >>=-eq-ok (or_headers (merge decoders h1 (some r.headers))) _ rest in
            let (parameters, found, rest) =
              >>=-eq-ok (key_parameters decoders services alg h2) _ rest in
            let (out, opened, rest) = >>=-eq-ok (or_not_decrypted _) _ rest in
            (
              _,
              out,
              h2,
              (eq_iff _ alg).0 same,
              (h1, cloned, merged),
              refl,
              found,
              or_fail-eq-ok bad_key _ raw is_raw,
              refl,
              refl,
              refl,
              refl,
              refl,
              or_not_decrypted-eq-ok _ out opened,
              rest,
            )
      ]

  -- A function that decrypts, and one of the keys with which it does.
  module _ (decrypt_with : String → Q → Recipient decoders → Outcome Error Bytes) (key_used : Bool)
      (msg : Message decoders) where
    abbrev pub ByKey : Recipient decoders → List (String × Q) → Bytes → Type 0
    ByKey r pairs plain =
        (alg : String) × (k : Q) × Among (alg, k) pairs × (decrypt_with alg k r ≡ ok plain)

    abbrev pub ByProvider : Recipient decoders → List (Provider decoders Q P) → Bytes → Type 0
    ByProvider r kps plain =
        (kp : Provider decoders Q P) × (pairs : List (String × Q)) × Among kp kps
        × (kp r msg ≡ some pairs)
        × ByKey r pairs plain

    abbrev pub ByRecipient :
        List (Provider decoders Q P) → List (Recipient decoders) → Bytes → Type 0
    ByRecipient kps rs plain = (r : Recipient decoders) × Among r rs × ByProvider r kps plain

    -- The branch of a key that decrypts.
    used_key :
        (k : Q) (p plain : Bytes)
        → (if key_used
            then (if services.assign_key k then ok (some p) else err bad_key_used)
            else ok (some p))
          ≡ ok (some plain)
        → p ≡ plain
    used_key k p plain e = ground arith

    key_step :
        (o : Outcome Error Bytes) (rest : Outcome Error (Option Bytes)) (k : Q) (plain : Bytes)
        → (elim o [
          | panic ↦ panic
          | err e ↦ rest
          | ok p ↦
              if key_used
              then (if services.assign_key k then ok (some p) else err bad_key_used)
              else ok (some p)
        ])
          ≡ ok (some plain)
        → (o ≡ ok plain) ⊎ (rest ≡ ok (some plain))
    key_step panic rest k plain e = cc
    key_step (err x) rest k plain e = inr e
    key_step (ok p) rest k plain e = inl (ap ok (used_key k p plain e))

    try_keys-ByKey :
        (r : Recipient decoders) (pairs : List (String × Q)) (plain : Bytes)
        → try_keys decoders services decrypt_with key_used r pairs ≡ ok (some plain)
        → ByKey r pairs plain
    unfolding try_keys
    try_keys-ByKey r [] plain e = cc
    try_keys-ByKey r ((alg, k) ∷ pairs) plain e =
        elim (key_step (decrypt_with alg k r)
          (try_keys decoders services decrypt_with key_used r pairs) k plain e) [
            | inl found ↦ (alg, k, here, found)
            | inr later ↦
                let (a, j, at, found) = try_keys-ByKey r pairs plain later in
                (a, j, there at, found)
          ]

    try_providers-ByProvider :
        (r : Recipient decoders) (kps : List (Provider decoders Q P)) (plain : Bytes)
        → try_providers decoders services decrypt_with key_used msg r kps ≡ ok plain
        → ByProvider r kps plain
    unfolding try_providers
    try_providers-ByProvider r [] plain e = cc
    try_providers-ByProvider r (kp ∷ kps) plain e =
        let (pairs, fetched, rest) = >>=-eq-ok (or_fail provider_failed (kp r msg)) _ e in
        let (found, tried, last) =
          >>=-eq-ok (try_keys decoders services decrypt_with key_used r pairs) _ rest in
        elim (Option-cases found) [
          | inl nothing ↦
              let (kq, ps, at, got, more) =
                try_providers-ByProvider r kps plain (rw nothing at last) in
              (kq, ps, there at, got, more)
          | inr (p, some_p) ↦
              let same : p ≡ plain = ground (arith, some_p) in
              (
                kp,
                pairs,
                here,
                or_fail-eq-ok provider_failed _ pairs fetched,
                try_keys-ByKey r pairs plain (tried ∙ ap ok (some_p ∙ ap some same)),
              )
        ]

    recipient_step :
        (o rest : Outcome Error Bytes) (plain : Bytes)
        → (elim o [ panic ↦ panic | err e ↦ rest | ok p ↦ ok p ]) ≡ ok plain
        → (o ≡ ok plain) ⊎ (rest ≡ ok plain)
    recipient_step panic rest plain e = cc
    recipient_step (err x) rest plain e = inr e
    recipient_step (ok p) rest plain e = inl e

    try_recipients-ByRecipient :
        (kps : List (Provider decoders Q P)) (rs : List (Recipient decoders)) (plain : Bytes)
        → try_recipients decoders services decrypt_with key_used msg kps rs ≡ ok plain
        → ByRecipient kps rs plain
    unfolding try_recipients
    try_recipients-ByRecipient kps [] plain e = cc
    try_recipients-ByRecipient kps (r ∷ rs) plain e =
        elim (recipient_step (try_providers decoders services decrypt_with key_used msg r kps)
          (try_recipients decoders services decrypt_with key_used msg kps rs) plain e) [
            | inl found ↦ (r, here, try_providers-ByProvider r kps plain found)
            | inr later ↦
                let (s, at, more) = try_recipients-ByRecipient kps rs plain later in
                (s, there at, more)
          ]

  -- If `Decrypt` succeeds: for one of the recipients of the parsed message (or, without any, one with the
  -- protected headers), and one of the keys that a provider of the options sent for it, the recipient's
  -- header names the algorithm that came with the key; `decrypter.Decrypt` accepted the ciphertext under
  -- that algorithm and the raw key, over the additional data and the protected headers as they came; and the
  -- result is what it gave, inflated if the protected, the unprotected and the recipient's headers, merged
  -- in this order, say so. The "enc" is that of the protected headers, and the parameters of the key are those
  -- of the merged ones.
  pub decrypt_sound :
      (buf plain : Bytes) (options : List (DecryptOption Q (Provider decoders Q P)))
      → decrypt decoders services buf options ≡ ok plain
      → (kps : List (Provider decoders Q P)) × (msg : Message decoders) × (computed : Bytes)
        × (shared : Headers decoders) × (r : Recipient decoders) × (kp : Provider decoders Q P)
        × (pairs : List (String × Q)) × (alg : String) × (k : Q) × (key_providers
              (static_provider decoders services)
              options
            ≡ ok kps)
        × (services.parse buf ≡ some msg)
        × (computed_aad decoders services msg ≡ ok computed)
        × IsMerged msg.protected_headers msg.unprotected_headers shared
        × Among r (recipients_of decoders services msg)
        × Among kp kps
        × (kp r msg ≡ some pairs)
        × Among (alg, k) pairs
        × Opened msg shared (encoded_aad decoders services msg) computed r alg k plain
  unfolding decrypt
  decrypt_sound buf plain options e =
      let (kps, provided, rest) =
        >>=-eq-ok (key_providers (static_provider decoders services) options) _ e in
      elim (Bool-cases (length kps == 0)) [
        | inl empty ↦ absurd (ground (arith, empty))
        | inr some_kp ↦
            let (msg, parsed, rest) =
              >>=-eq-ok (or_fail bad_message (services.parse buf)) _ (rw some_kp at rest) in
            let (h1, cloned, rest) =
              >>=-eq-ok (or_headers (clone decoders msg.protected_headers)) _ rest in
            let (h2, merged, rest) =
              >>=-eq-ok (or_headers (merge decoders h1 msg.unprotected_headers)) _ rest in
            let (computed, aad, rest) = >>=-eq-ok (computed_aad decoders services msg) _ rest in
            let (r, at_r, (kp, pairs, at_kp, sent, (alg, k, at_k, opened))) =
              try_recipients-ByRecipient
                (decrypt_key decoders services msg (encoded_aad decoders services msg) computed h2)
                (wants_key_used decoders services options) msg kps
                (recipients_of decoders services msg) plain rest in
            (
              kps,
              msg,
              computed,
              h2,
              r,
              kp,
              pairs,
              alg,
              k,
              provided,
              or_fail-eq-ok bad_message _ msg parsed,
              aad,
              (h1, cloned, merged),
              at_r,
              at_kp,
              sent,
              at_k,
              decrypt_key-Opened msg (encoded_aad decoders services msg) computed h2 alg k r plain
                  opened,
            )
      ]
