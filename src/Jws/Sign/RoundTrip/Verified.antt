-- ===== src/Jws/Sign/RoundTrip/Verified.antt =====
-- `Verify` of jws/jws.go accepts what `Sign` returns.
use jwx.Common.{
  ◌<◌, ◌≡◌, refl, sym, ap, ◌∙◌, Bool, true, false, Option, none, some, String, List, [], ◌∷◌, ◌++◌,
  ok, >>=-of_ok, arith, if◌then◌else◌, length,
}
use jwx.Common.Bytes.{Bytes}
use jwx.Format.{space_1}
use jwx.Format.Compact.{IsSegment, join}
use jwx.Fields.{Token, open_brace, close_brace, make_pairs, no_fields}
use jwx.Fields.Values.{Value, Decoders}
use jwx.Fields.Laws.{IsValid, no_fields-IsValid}
use jwx.Fields.Merge.{get-no_fields}
use jwx.Fields.Built.{Built-IsValid}
use jwx.Fields.Decode.{Decodes, members, unmarshal-marshal}
use jwx.Jws.Headers.{Headers, header_schema, get, unmarshal}
use jwx.Jws.Signers.{Signer, Registry, make_signer}
use jwx.Jws.Message.{b64_value, payload_text, has_dot}
use jwx.Jws.Sign.{
  Services, Address, Store, update, protected_of, codec, to_option, marshal_header, get_b64, sign,
  read_options, SignOption, with_key, with_detached_payload,
}
use jwx.Jws.Sign.RoundTrip.Text.{Signs, stamped, text, sign_with_lem}
use jwx.Jws.Verify.{
  Codec, Settings, Verified, static_provider, with_key_option, get_b64_value, parse_segments,
  parse_compact, parse_from, parse, header_bytes, try_keys, try_providers, try_signatures,
  fetch_keys, succeed, attach, signed_payload, verify,
}
use jwx.Jws.Verify as VerifyModule
use jwx.Jws.Verify.Segments.{Dotless, parse_compact-join}

-- A header that was parsed, with the bytes that `UnmarshalJSON` keeps.
pub record ParsedHeader {K C X Raw : Type 0} (decoders : Decoders K C X Raw) : Type 0 where
  pub fields : Headers decoders
  pub raw : Option Bytes

-- What `Verify` calls besides: base64, the tokens of the JSON decoder, JSON messages, the verifiers, and
-- the assignment of the key.
pub record Verifying {K C X Raw : Type 0} (decoders : Decoders K C X Raw) (P : Type 0)
    : Type 0 where
  pub decode : Bytes → Option Bytes
  pub tokens : Bytes → List (Token Raw)
  pub unmarshal_message : Bytes → Option (VerifyModule.Message (ParsedHeader decoders))
  pub new_verifier : String → Option (Bytes → Bytes → P → Bool)
  pub assign_key : P → Bool

-- What base64 promises: it decodes what it encodes, to printable characters but dots and braces, and
-- nothing to nothing.
pub record IsBase64 (encode : Bytes → Bytes) (decode : Bytes → Option Bytes) : Type 0 where
  pub decode_encode : (bs : Bytes) → decode (encode bs) ≡ some bs
  pub segments : (bs : Bytes) → IsSegment (encode bs)
  pub encode_nil : encode [] ≡ []

IsSegment-Dotless : (bs : Bytes) → IsSegment bs → Dotless bs
IsSegment-Dotless [] h = tt
IsSegment-Dotless (b ∷ bs) h = (h.0.2, IsSegment-Dotless bs (h.1))

has_dot-Dotless : (bs : Bytes) → has_dot bs ≡ false → Dotless bs
unfolding has_dot
has_dot-Dotless [] h = tt
has_dot-Dotless (b ∷ bs) h = ((λ e. absurd (ground arith)), has_dot-Dotless bs (ground arith))

module _ {K C X Raw S P : Type 0} (decoders : Decoders K C X Raw) (services : Services K C X S)
    (verifying : Verifying decoders P) where
  -- `UnmarshalJSON` of a header, which keeps its input.
  unfoldable pub unmarshal_header : Bytes → Option (ParsedHeader decoders)
  unmarshal_header bs = elim (to_option (unmarshal decoders no_fields (verifying.tokens bs))) [
    | none ↦ none
    | some h ↦ some (record { fields = h; raw = some bs })
  ]

  abbrev pub verify_codec : Codec (ParsedHeader decoders) String P
  verify_codec = record {
    decode = verifying.decode;
    encode = services.encode;
    unmarshal_header = unmarshal_header;
    unmarshal_message = verifying.unmarshal_message;
    get_b64 = λ h. get_b64 decoders services h.fields;
    raw_buffer = λ h. h.raw;
    marshal_header = λ h. marshal_header decoders services h.fields;
    new_verifier = verifying.new_verifier;
    assign_key = verifying.assign_key;
  }

  -- The first character of a compact text is neither white space nor a brace.
  parse_segment :
      (src : Bytes) (head rest : Bytes)
      → IsSegment head
      → parse_from verify_codec src (head ++ (b'.' ∷ rest)) ≡ parse_compact verify_codec src
  unfolding parse_from space_1
  parse_segment src [] rest h = refl
  parse_segment src (b ∷ bs) rest h = ground (arith, h.0)

  -- The options of `Verify`: the key, and the payload where it is detached.
  abbrev pub verify_options :
      Bool → Bytes → String → P → List (VerifyModule.VerifyOption (ParsedHeader decoders) String P)
  verify_options true payload alg key =
      VerifyModule.with_detached_payload (some payload) ∷ with_key_option (some alg) key ∷ []
  verify_options false payload alg key = with_key_option (some alg) key ∷ []

  abbrev verified : Bytes → Verified (ParsedHeader decoders) P
  verified payload = record { payload = payload; stored_message = none; stored_key = none }

  -- What the parsed message is.
  abbrev message_of :
      Bytes → ParsedHeader decoders → Bytes → Bool → VerifyModule.Message (ParsedHeader decoders)
  message_of payload hdr sg b64 = record {
    payload = payload;
    signatures = record { protected = hdr; signature = sg } ∷ [];
    b64 = b64;
  }

  module _ (base64 : IsBase64 services.encode verifying.decode) (js : Bytes)
      {hdr : ParsedHeader decoders} (is_header : unmarshal_header js ≡ some hdr) where
    parse_text :
        (seg sg : Bytes)
        → parse verify_codec (text decoders services js seg sg)
          ≡ parse_compact verify_codec (text decoders services js seg sg)
    unfolding parse
    parse_text seg sg =
        parse_segment (text decoders services js seg sg) (services.encode js)
          (seg ++ (b'.' ∷ services.encode sg)) (base64.segments js)

    parse_encoded :
        (payload sg : Bytes)
        → get_b64_value verify_codec hdr ≡ true
        → parse verify_codec (text decoders services js (services.encode payload) sg)
          ≡ ok (message_of payload hdr sg true)
    unfolding join
    parse_encoded payload sg asks =
        parse_text (services.encode payload) sg
        ∙ (parse_compact-join verify_codec js payload sg hdr base64.decode_encode
              (λ bs. IsSegment-Dotless (services.encode bs) (base64.segments bs)) is_header).0
            asks

    parse_plain :
        (payload sg : Bytes)
        → Dotless payload
        → get_b64_value verify_codec hdr ≡ false
        → parse verify_codec (text decoders services js payload sg)
          ≡ ok (message_of payload hdr sg false)
    unfolding join
    parse_plain payload sg dotless asks =
        parse_text payload sg
        ∙ (parse_compact-join verify_codec js payload sg hdr base64.decode_encode
              (λ bs. IsSegment-Dotless (services.encode bs) (base64.segments bs)) is_header).1
            dotless asks

    -- The parsed message, by the cases of the payload.
    parse_shown :
        (detached b64 : Bool) (payload shown sg : Bytes)
        → get_b64_value verify_codec hdr ≡ b64
        → payload_text (codec decoders services) detached b64 payload ≡ ok shown
        → (parse verify_codec (text decoders services js (if detached then [] else shown) sg)
            ≡ ok (message_of (if detached then [] else payload) hdr sg b64))
          × (shown ≡ (if b64 then services.encode payload else payload))
    unfolding payload_text
    parse_shown true true payload shown sg asks e = (
      ap (λ seg. parse verify_codec (text decoders services js seg sg)) (sym base64.encode_nil)
          ∙ parse_encoded [] sg asks,
      ground arith,
    )
    parse_shown false true payload shown sg asks e =
        let is_shown : services.encode payload ≡ shown = ground arith in
        (rw (← is_shown) (parse_encoded payload sg asks), sym is_shown)
    parse_shown true false payload shown sg asks e = (parse_plain [] sg tt asks, ground arith)
    parse_shown false false payload shown sg asks e =
        let no_dot : has_dot payload ≡ false = ground arith in
        let is_shown : payload ≡ shown = ground arith in
        (
          rw (← is_shown) (parse_plain payload sg (has_dot-Dotless payload no_dot) asks),
          sym is_shown,
        )

    -- The header was kept as it was parsed.
    header_bytes_raw :
        hdr.raw ≡ some js
        → 0 < length (services.encode js)
        → header_bytes verify_codec hdr ≡ ok (services.encode js)
    unfolding header_bytes
    header_bytes_raw kept filled = rw (header_bytes, kept) (ground arith)

    -- One key, of which the verifier accepts the signature.
    accept_sole :
        (settings : Settings (ParsedHeader decoders) String P)
        (msg : VerifyModule.Message (ParsedHeader decoders)) (shown sg : Bytes) (alg : String)
        (key : P) (accepts : Bytes → Bytes → P → Bool)
        → settings.key_providers ≡ static_provider alg key ∷ []
        → settings.message ≡ false
        → settings.key_used ≡ false
        → hdr.raw ≡ some js
        → 0 < length (services.encode js)
        → verifying.new_verifier alg ≡ some accepts
        → accepts (services.encode js ++ (b'.' ∷ shown)) sg key ≡ true
        → try_signatures verify_codec settings msg shown
            (record { protected = hdr; signature = sg } ∷ [])
          ≡ ok (verified msg.payload)
    unfolding try_signatures
    accept_sole settings msg shown sg alg key accepts sole no_message no_key kept filled made good =
        >>=-of_ok (header_bytes verify_codec hdr) _ (header_bytes_raw kept filled)
          (rw (sole, fetch_keys, made, good, no_key, no_message) refl)

    abbrev settings_of : Option Bytes → String → P → Settings (ParsedHeader decoders) String P
    settings_of detached alg key = record {
      message = false;
      key_used = false;
      detached_payload = detached;
      key_providers = static_provider alg key ∷ [];
    }

    verify-text :
        (detached b64 : Bool) (payload shown sg : Bytes) (alg : String) (key : P)
        (accepts : Bytes → Bytes → P → Bool)
        → get_b64_value verify_codec hdr ≡ b64
        → payload_text (codec decoders services) detached b64 payload ≡ ok shown
        → hdr.raw ≡ some js
        → 0 < length (services.encode js)
        → verifying.new_verifier alg ≡ some accepts
        → accepts (services.encode js ++ (b'.' ∷ shown)) sg key ≡ true
        → verify verify_codec
            (text decoders services js (if detached then [] else shown) sg)
            (verify_options detached payload alg key)
          ≡ ok (verified payload)
    unfolding verify
    verify-text true b64 payload shown sg alg key accepts asks shows kept filled made good =
        let (parsed, is_shown) = parse_shown true b64 payload shown sg asks shows in
        >>=-of_ok (parse verify_codec (text decoders services js [] sg)) _ parsed (
          rw (← is_shown) (
            accept_sole (settings_of (some payload) alg key) (message_of payload hdr sg b64) shown
              sg alg key accepts refl refl refl kept filled made good))
    verify-text false b64 payload shown sg alg key accepts asks shows kept filled made good =
        let (parsed, is_shown) = parse_shown false b64 payload shown sg asks shows in
        >>=-of_ok (parse verify_codec (text decoders services js shown sg)) _ parsed (
          rw (← is_shown) (
            accept_sole (settings_of none alg key) (message_of payload hdr sg b64) shown sg alg key
              accepts refl refl refl kept filled made good))

  -- What the code calls succeeds in `Verify`: the JSON decoder reads the JSON of `g` back, and the verifier
  -- accepts the signature.
  pub record Accepts (g : Headers decoders) (js shown sg : Bytes) (alg : String) (key : P)
      : Type 0 where
    pub raw_of : String → Value K C X → Raw
    pub filled : 0 < length (services.encode js)
    pub reads :
        verifying.tokens js
        ≡ open_brace ∷ members (header_schema decoders) raw_of (make_pairs g) (close_brace ∷ [])
    pub decodes :
        (n : String) (v : Value K C X)
        → get decoders g n ≡ some v
        → Decodes (header_schema decoders) raw_of n v
    pub accepts : Bytes → Bytes → P → Bool
    pub made : verifying.new_verifier alg ≡ some accepts
    pub good : accepts (services.encode js ++ (b'.' ∷ shown)) sg key ≡ true

  asks_parsed :
      (g f : Headers decoders) (js : Bytes) (b64 : Bool)
      → b64_value (codec decoders services) (some g) ≡ ok b64
      → ((n : String) → get decoders f n ≡ get decoders g n)
      → get_b64_value verify_codec (record { fields = f; raw = some js }) ≡ b64
  unfolding b64_value get_b64_value get_b64
  asks_parsed g f js b64 asks same = rw (get_b64_value, get_b64, same "b64") (ground arith)

  header_read :
      (g : Headers decoders) (js shown sg : Bytes) (alg : String) (key : P)
      → IsValid (header_schema decoders) g
      → Accepts g js shown sg alg key
      → (f : Headers decoders) × (unmarshal_header js ≡ some (record { fields = f; raw = some js }))
        × ((n : String) → get decoders f n ≡ get decoders g n)
  unfolding unmarshal_header get unmarshal
  header_read g js shown sg alg key valid a =
      let schema = header_schema decoders in
      let (f, read, valid_f, looks) =
        unmarshal-marshal schema a.raw_of g no_fields [] valid (no_fields-IsValid schema)
          a.decodes in
      (
        f,
        rw (unmarshal_header, a.reads, read) refl,
        λ n. looks n ∙ ground (arith, get-no_fields schema n),
      )

  -- The arguments of `Sign` that belong to those of `Verify`.
  abbrev pub sign_payload : Bool → Bytes → Option Bytes
  sign_payload detached payload = if detached then none else some payload

  abbrev pub sign_options : Bool → Bytes → String → S → Option Address → List (SignOption S)
  sign_options true payload alg key protected =
      with_detached_payload (some payload) ∷ with_key (some alg) key none protected ∷ []
  sign_options false payload alg key protected = with_key (some alg) key none protected ∷ []

  sign_lem :
      (reg later : Registry S) (store st : Store decoders services) (at : Address)
      (protected : Option Address) (alg : String) (key : S) (signer : Signer S)
      (g : Headers decoders) (detached b64 : Bool) (payload js shown sg : Bytes)
      → make_signer reg alg ≡ (later, some signer)
      → protected_of decoders services store protected ≡ (st, at)
      → Signs decoders services signer key (st.header at) g detached b64 payload js shown sg
      → sign decoders services reg store
          (sign_payload detached payload)
          (sign_options detached payload alg key protected)
        ≡ (
          later,
          ok (
            update decoders services st at g,
            text decoders services js (if detached then [] else shown) sg,
          ),
        )
  unfolding sign read_options
  sign_lem reg later store st at protected alg key signer g true b64 payload js shown sg made found
        s =
      rw
        (
          sign,
          read_options,
          made,
          sign_with_lem decoders services s store st at protected (some payload) found refl refl,
        )
        (rw made refl)
  sign_lem reg later store st at protected alg key signer g false b64 payload js shown sg made found
        s =
      rw
        (
          sign,
          read_options,
          made,
          sign_with_lem decoders services s store st at protected (some payload) found refl refl,
        )
        (rw made refl)

  -- `Sign` with one key returns a compact text that `Verify` accepts, with the payload that was signed, and
  -- for a detached payload if that is given again. The conditions: there is no public header; the signer's
  -- algorithm is one of jws; the protected header was built by `Set` and `Remove`, and setting its "alg" and
  -- the key ID succeeds; its "b64", if there is one, is a Boolean; a payload that is not detached holds no dot
  -- if "b64" is false; the encoder, the signer, the JSON decoder and the verifier succeed on what they are
  -- given; and base64 does as it promises. The protected header is left as it was stamped: with the "alg" of
  -- the signer, and with the "kid" of the key if this is a `jwk.Key` that has one.
  pub verify-sign :
      (reg later : Registry S) (store st : Store decoders services) (at : Address)
      (protected : Option Address) (alg : String) (key : S) (public_key : P) (signer : Signer S)
      (g : Headers decoders) (detached b64 : Bool) (payload js shown sg : Bytes)
      → make_signer reg alg ≡ (later, some signer)
      → protected_of decoders services store protected ≡ (st, at)
      → Signs decoders services signer key (st.header at) g detached b64 payload js shown sg
      → IsBase64 services.encode verifying.decode
      → Accepts g js shown sg alg public_key
      → (out : Bytes) × (sign decoders services reg store
            (sign_payload detached payload)
            (sign_options detached payload alg key protected)
          ≡ (later, ok (update decoders services st at g, out)))
        × (verify verify_codec out (verify_options detached payload alg public_key)
            ≡ ok (verified payload))
  verify-sign reg later store st at protected alg key public_key signer g detached b64 payload js
        shown sg made found s base64 a =
      let (f, is_header, same) =
        header_read g js shown sg alg public_key
          ((stamped decoders services s).valid (Built-IsValid (header_schema decoders) s.built))
          a in
      (
        text decoders services js (if detached then [] else shown) sg,
        sign_lem reg later store st at protected alg key signer g detached b64 payload js shown sg
            made found s,
        verify-text base64 js is_header detached b64 payload shown sg alg public_key a.accepts
            (asks_parsed g f js b64 s.asks same) s.shows refl a.filled a.made a.good,
      )
