-- ===== src/Jws/Sign/RoundTrip/Text.antt =====
-- The compact text that `Sign` of jws/jws.go returns for one key and no public header.
use jwx.Common.{
  ◌≡◌, refl, sym, ◌∙◌, Bool, true, false, Option, none, some, [], ◌∷◌, ◌++◌, ok, ◌>>=◌, arith,
  ==_iff, if◌then◌else◌,
}
use jwx.Common.Bytes.{Bytes}
use jwx.Fields.Values.{Decoders, one_of}
use jwx.Fields.Built.{Built}
use jwx.Jws.Headers.{Headers, header_schema, signature_algorithms}
use jwx.Jws.Signers.{Signer}
use jwx.Jws.Message.{b64_value, payload_text, compact, json_of}
use jwx.Jws.Sign.{
  Services, Address, Store, update, protected_of, codec, stamp, marshal_header, get_b64,
  sign_signature, sign_all, sign_with, serialize, payload_bytes,
}
use jwx.Jws.Sign.Stamped.{IsStamped, stamp_lem, merged_IsStamped}

module _ {K C X Raw S : Type 0} (decoders : Decoders K C X Raw) (services : Services K C X S) where
  -- The three parts with dots between them.
  abbrev pub text : Bytes → Bytes → Bytes → Bytes
  text header shown signature =
      services.encode header ++ (b'.' ∷ (shown ++ (b'.' ∷ services.encode signature)))

  -- Nothing fails for the protected header `h`, stamped to `g`: `g` has the JSON `js`, the payload stands
  -- as `shown`, which it does unless it has a dot, is not detached and "b64" is false, and `sg` is the
  -- signature of both.
  pub record Signs (signer : Signer S) (key : S) (h g : Headers decoders) (detached b64 : Bool)
      (payload js shown sg : Bytes) : Type 0 where
    pub known : one_of signer.algorithm signature_algorithms ≡ true
    pub built : Built (header_schema decoders) h
    pub stamps : stamp decoders services signer key h ≡ ok g
    pub json : marshal_header decoders services g ≡ some js
    pub asks : b64_value (codec decoders services) (some g) ≡ ok b64
    pub shows : payload_text (codec decoders services) detached b64 payload ≡ ok shown
    pub signs : signer.sign (services.encode js ++ (b'.' ∷ shown)) key ≡ some sg

  module _ {signer : Signer S} {key : S} {h g : Headers decoders} {detached b64 : Bool}
      {payload js shown sg : Bytes}
      (s : Signs signer key h g detached b64 payload js shown sg) where
    pub stamped : IsStamped decoders services signer key h g
    stamped =
        let (f, is_stamped) = stamp_lem decoders services signer key h s.known in
        let same : f ≡ g = let e = sym is_stamped.stamp_eq ∙ s.stamps in ground arith in
        rw (← same) is_stamped

    same_b64 :
        (f : Headers decoders)
        → get_b64 decoders services f ≡ get_b64 decoders services g
        → b64_value (codec decoders services) (some f) ≡ ok b64
    unfolding b64_value
    same_b64 f e = rw (b64_value, e) s.asks

    sign_signature_lem :
        (old : Bytes)
        → sign_signature decoders services
            (record { headers = none; protected = some g; signature = old; detached = detached })
            payload
            signer
            key
          ≡ ok (sg, text js (if detached then [] else shown) sg)
    unfolding sign_signature
    sign_signature_lem old =
        let (m, f, merged, again, json, b64_same) =
          merged_IsStamped decoders services signer key h g s.known s.built stamped in
        rw (sign_signature, merged, again, json, s.json, same_b64 f b64_same, s.shows, s.signs) refl

    compact_payload_of :
        (d : Bool)
        → payload_text (codec decoders services) d b64 payload ≡ ok shown
        → (if d
            then ok []
            else b64_value (codec decoders services) (some g) >>= λ b.
                payload_text (codec decoders services) false b payload)
          ≡ ok (if d then [] else shown)
    compact_payload_of true shows = refl
    compact_payload_of false shows = rw (s.asks, shows) refl

    header-update :
        (store : Store decoders services) (at : Address)
        → (update decoders services store at g).header at ≡ g
    unfolding update
    header-update store at = rw ((==_iff at at).1 refl) refl

    -- The payload in the compact text.
    pub compact_payload :
        (if detached
          then ok []
          else b64_value (codec decoders services) (some g) >>= λ b.
              payload_text (codec decoders services) false b payload)
        ≡ ok (if detached then [] else shown)
    compact_payload = compact_payload_of detached s.shows

    sign_all_lem :
        (store st : Store decoders services) (at : Address) (protected : Option Address)
        → protected_of decoders services store protected ≡ (st, at)
        → st.header at ≡ h
        → sign_all decoders services payload detached store
            (record { signer = signer; key = key; public = none; protected = protected } ∷ [])
          ≡ ok (
            update decoders services st at g,
            record { headers = none; protected = at; signature = sg } ∷ [],
          )
    unfolding sign_all
    sign_all_lem store st at protected found before =
        rw (sign_all, found, before, s.stamps, header-update st at, sign_signature_lem []) refl

    compact_lem :
        compact
          (codec decoders services)
          (record {
            payload = payload;
            signatures =
                record { headers = none; protected = some g; signature = sg; detached = detached }
                ∷ [];
            b64 = false;
          })
          detached
        ≡ ok (text js (if detached then [] else shown) sg)
    unfolding compact json_of
    compact_lem = rw (compact, s.json, compact_payload) refl

    -- `Sign` returns the text of the JSON of the stamped header, the payload unless it is detached, and the
    -- signature; of the headers, it changes the protected one, to the stamped one.
    pub sign_with_lem :
        (store st : Store decoders services) (at : Address) (protected : Option Address)
        (p : Option Bytes)
        → protected_of decoders services store protected ≡ (st, at)
        → st.header at ≡ h
        → payload_bytes p ≡ payload
        → sign_with decoders services store (record {
          format = 1;
          signers =
              record { signer = signer; key = key; public = none; protected = protected } ∷ [];
          detached = detached;
          payload = p;
        })
          ≡ ok (update decoders services st at g, text js (if detached then [] else shown) sg)
    unfolding sign_with serialize
    sign_with_lem store st at protected p found before given =
        rw
          (
            sign_with,
            given,
            sign_all_lem store st at protected found before,
            serialize,
            header-update st at,
            compact_lem,
          )
          refl
