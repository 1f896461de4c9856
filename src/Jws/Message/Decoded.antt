-- ===== src/Jws/Message/Decoded.antt =====
-- What `Message.UnmarshalJSON` of jws/message.go accepts, and where it panics.
use jwx.Common.{
  ℕ, suc, ◌<◌, ◌≡◌, ◌⊎◌, inl, inr, refl, sym, ap, ◌∙◌, Bool, true, false, Option, none, some, List,
  [], ◌∷◌, Outcome, ok, err, panic, ◌>>=◌, >>=-eq-ok, arith, ◌==◌, length, All, if◌then◌else◌,
  Bool-cases, Option-cases,
}
use jwx.Common.Bytes.{Bytes}
use jwx.Jws.Message.{
  Signature, Message, SignatureProbe, MessageProbe, MessageCodec, Error, or_fail, bad_json,
  bad_signature, bad_payload, mixed_b64, b64_value, read_protected, unmarshal_signature,
  more_signatures, read_full, flattened_protected, read_flattened, read_signatures, read_payload,
  unmarshal_message,
}

or_fail-eq-ok : {A : Type 0} (e : Error) (o : Option A) (a : A) → or_fail e o ≡ ok a → o ≡ some a
or_fail-eq-ok e none a h = cc
or_fail-eq-ok e (some b) a h = ground arith

-- What holds of a result holds of an equal one.
carry :
    {A B : Type 0} (P : A → B → Type 0) (x a : A) (y b : B)
    → ◌≡◌ {A = Outcome Error (A × B)} (ok (x, y)) (ok (a, b))
    → P x y
    → P a b
carry P x a y b e w =
    let first : x ≡ a = ground arith in
    let second : y ≡ b = ground arith in rw (← first, ← second) w

module _ {H : Type 0} (codec : MessageCodec H) where
  -- The protected header is there, and asks for `b64`.
  abbrev pub Asks : Bool → Signature H → Type 0
  Asks b64 sig = b64_value codec sig.protected ≡ ok b64

  Asks_present :
      (b64 : Bool) (hdr : Option H) → b64_value codec hdr ≡ ok b64 → (h : H) × (hdr ≡ some h)
  unfolding b64_value
  Asks_present b64 none e = cc
  Asks_present b64 (some h) e = (h, refl)

  same_b64 :
      {A : Type 0} (b64 own : Bool) (m : Outcome Error A) (a : A)
      → (if (if b64 then own else if own then false else true) then m else err mixed_b64) ≡ ok a
      → (own ≡ b64) × (m ≡ ok a)
  same_b64 true true m a e = (refl, e)
  same_b64 false false m a e = (refl, e)
  same_b64 true false m a e = cc
  same_b64 false true m a e = cc

  more_signatures-Asks :
      (b64 : Bool) (raws : List Bytes) (sigs : List (Signature H))
      → more_signatures codec b64 raws ≡ ok sigs
      → All (Asks b64) sigs × (length sigs ≡ length raws)
  unfolding more_signatures
  more_signatures-Asks b64 [] sigs e =
      let none_left : [] ≡ sigs = ground arith in rw (← none_left) (tt, refl)
  more_signatures-Asks b64 (raw ∷ raws) sigs e =
      let (sig, read, next) = >>=-eq-ok (unmarshal_signature codec raw) _ e in
      let (own, asked, rest) = >>=-eq-ok (b64_value codec sig.protected) _ next in
      let (same, more) = same_b64 b64 own _ sigs rest in
      let (others, others_read, last) = >>=-eq-ok (more_signatures codec b64 raws) _ more in
      let (all, count) = more_signatures-Asks b64 raws others others_read in
      let at : sig ∷ others ≡ sigs = ground (arith, last) in
      rw (← at) ((rw same at asked, all), omega (arith, count))

  read_full-Asks :
      (raws : List Bytes) (sigs : List (Signature H)) (b64 : Bool)
      → read_full codec raws ≡ ok (sigs, b64)
      → All (Asks b64) sigs × (length sigs ≡ length raws) × (0 < length sigs)
  unfolding read_full
  read_full-Asks [] sigs b64 e = cc
  read_full-Asks (raw ∷ raws) sigs b64 e =
      let (sig, read, next) = >>=-eq-ok (unmarshal_signature codec raw) _ e in
      let (own, asked, rest) = >>=-eq-ok (b64_value codec sig.protected) _ next in
      let (others, others_read, last) = >>=-eq-ok (more_signatures codec own raws) _ rest in
      let (all, count) = more_signatures-Asks own raws others others_read in
      carry (λ l v. All (Asks v) l × (length l ≡ suc (length raws)) × (0 < length l)) (sig ∷ others)
        sigs own b64 last ((asked, all), omega (arith, count), omega arith)

  abbrev sole : Option H → Option H → Bytes → Signature H
  sole header prt decoded = record {
    headers = header;
    protected = prt;
    signature = decoded;
    detached = false;
  }

  abbrev end_flattened :
      Option H → Option H → Bytes → Bool → Outcome Error (List (Signature H) × Bool)
  end_flattened header prt decoded own = ok (sole header prt decoded ∷ [], own)

  flattened_end :
      (prt : Option H) (header : Option H) (decoded : Bytes) (sigs : List (Signature H))
      (b64 : Bool)
      → (b64_value codec prt >>= end_flattened header prt decoded) ≡ ok (sigs, b64)
      → All (Asks b64) sigs × (length sigs ≡ 1)
  flattened_end prt header decoded sigs b64 e =
      let (own, asked, last) = >>=-eq-ok (b64_value codec prt) _ e in
      carry (λ l v. All (Asks v) l × (length l ≡ 1)) (sole header prt decoded ∷ []) sigs own b64
        last ((asked, tt), refl)

  read_flattened-Asks :
      (header : Option H) (protected : Option Bytes) (src : Bytes) (sigs : List (Signature H))
      (b64 : Bool)
      → read_flattened codec header protected src ≡ ok (sigs, b64)
      → All (Asks b64) sigs × (length sigs ≡ 1)
  unfolding read_flattened
  read_flattened-Asks header protected src sigs b64 e =
      let (prt, read, next) = >>=-eq-ok (flattened_protected codec protected) _ e in
      let (decoded, is_signature, rest) =
        >>=-eq-ok (or_fail bad_signature (codec.decode src))
          (λ d. b64_value codec prt >>= end_flattened header prt d) next in
      flattened_end prt header decoded sigs b64 rest

  -- The protected header is there.
  abbrev pub AsksPresent : Bool → Signature H → Type 0
  AsksPresent b64 sig = (h : H) × (sig.protected ≡ some h) × (b64_value codec (some h) ≡ ok b64)

  All-present :
      (b64 : Bool) (sigs : List (Signature H)) → All (Asks b64) sigs → All (AsksPresent b64) sigs
  All-present b64 [] a = tt
  All-present b64 (sig ∷ sigs) a =
      let (h, present) = Asks_present b64 sig.protected (a.0) in
      ((h, present, ap (b64_value codec) (sym present) ∙ a.0), All-present b64 sigs (a.1))

  -- The payload of the probe, as `b64` wants it read.
  abbrev pub PayloadOf : Option Bytes → Bool → Bytes → Type 0
  PayloadOf none b64 payload = payload ≡ []
  PayloadOf (some src) true payload = codec.decode src ≡ some payload
  PayloadOf (some src) false payload = payload ≡ src

  read_payload-PayloadOf :
      (src : Option Bytes) (b64 : Bool) (payload : Bytes)
      → read_payload codec src b64 ≡ ok payload
      → PayloadOf src b64 payload
  unfolding read_payload
  read_payload-PayloadOf none b64 payload e = ground arith
  read_payload-PayloadOf (some src) true payload e =
      or_fail-eq-ok bad_payload (codec.decode src) payload e
  read_payload-PayloadOf (some src) false payload e = ground arith

  -- How many signatures a probe has.
  abbrev pub signature_count : MessageProbe H → ℕ
  signature_count mup = elim mup.signature [ none ↦ length mup.signatures | some src ↦ 1 ]

  read_signatures-Asks :
      (mup : MessageProbe H) (sigs : List (Signature H)) (b64 : Bool)
      → read_signatures codec mup ≡ ok (sigs, b64)
      → All (Asks b64) sigs × (length sigs ≡ signature_count mup) × (0 < length sigs)
  unfolding read_signatures
  read_signatures-Asks mup sigs b64 e = elim (Option-cases mup.signature) [
    | inl absent ↦ rw absent (read_full-Asks mup.signatures sigs b64 (rw absent at e))
    | inr (src, present) ↦ elim (Bool-cases (length mup.signatures == 0)) [
      | inr mixed ↦ absurd (ground (arith, present, mixed))
      | inl alone ↦
          let (asked, one) =
            read_flattened-Asks mup.header mup.protected src sigs b64
              (ground (arith, present, alone)) in
          rw present (asked, one, omega (arith, one))
    ]
  ]

  -- A message that `UnmarshalJSON` accepts has as many signatures as its JSON, at least one. Every one of
  -- them has a protected header, and all of these ask for the `b64` of the message. The payload is the
  -- text of the JSON, decoded from base64 exactly if `b64` is true, and empty if there is none.
  pub unmarshal_message-Uniform :
      (buf : Bytes) (msg : Message H)
      → unmarshal_message codec buf ≡ ok msg
      → (mup : MessageProbe H) × (codec.read_message buf ≡ some mup)
        × (length msg.signatures ≡ signature_count mup)
        × (0 < length msg.signatures)
        × All (AsksPresent msg.b64) msg.signatures
        × PayloadOf mup.payload msg.b64 msg.payload
  unfolding unmarshal_message
  unmarshal_message-Uniform buf msg e =
      let (mup, read, next) = >>=-eq-ok (or_fail bad_json (codec.read_message buf)) _ e in
      let ((sigs, b64), found, rest) = >>=-eq-ok (read_signatures codec mup) _ next in
      let (payload, decoded, last) = >>=-eq-ok (read_payload codec mup.payload b64) _ rest in
      let (asked, count, some_left) = read_signatures-Asks mup sigs b64 found in
      let at : record { payload = payload; signatures = sigs; b64 = b64 } ≡ msg =
        ground (arith, last) in
      rw (← at) (
        mup,
        or_fail-eq-ok bad_json (codec.read_message buf) mup read,
        count,
        some_left,
        All-present b64 sigs asked,
        read_payload-PayloadOf mup.payload b64 payload decoded,
      )

  no_protected_panics :
      (raw : Bytes) (raws : List Bytes) (sup : SignatureProbe H)
      → codec.read_signature raw ≡ some sup
      → sup.protected ≡ none
      → ((sup.signature ≡ none)
          ⊎ ((src : Bytes) × (sg : Bytes) × (sup.signature ≡ some src)
              × (codec.decode src ≡ some sg)))
      → read_full codec (raw ∷ raws) ≡ panic
  unfolding read_full unmarshal_signature read_protected b64_value
  no_protected_panics raw raws sup read bare (inl unsigned) =
      rw (read) (rw (bare, read_protected, unsigned) refl)
  no_protected_panics raw raws sup read bare (inr (src, sg, signed, decoded)) =
      rw (read) (rw (bare, read_protected, signed, decoded) refl)

  -- `UnmarshalJSON` panics on a message in the general syntax whose first signature has neither a protected
  -- header nor a signature, or has a signature that decodes and no protected header; and on a flattened
  -- message with a signature that decodes and no protected header.
  pub unmarshal_message_panics :
      (buf : Bytes) (mup : MessageProbe H)
      → codec.read_message buf ≡ some mup
      → ((raw : Bytes) (raws : List Bytes) (sup : SignatureProbe H)
          → mup.signature ≡ none
          → mup.signatures ≡ raw ∷ raws
          → codec.read_signature raw ≡ some sup
          → sup.protected ≡ none
          → ((sup.signature ≡ none)
              ⊎ ((src : Bytes) × (sg : Bytes) × (sup.signature ≡ some src)
                  × (codec.decode src ≡ some sg)))
          → unmarshal_message codec buf ≡ panic)
        × ((src sg : Bytes)
            → mup.signature ≡ some src
            → mup.signatures ≡ []
            → mup.protected ≡ none
            → codec.decode src ≡ some sg
            → unmarshal_message codec buf ≡ panic)
  unfolding unmarshal_message read_signatures read_flattened flattened_protected b64_value
  unmarshal_message_panics buf mup is_read = (
    (λ raw raws sup general first read bare how.
        rw is_read (rw (general, first, no_protected_panics raw raws sup read bare how) refl)),
    (λ src sg flattened alone bare decoded.
        rw is_read (rw (flattened, alone, bare, flattened_protected, decoded) refl)),
  )
