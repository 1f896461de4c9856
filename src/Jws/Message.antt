-- ===== src/Jws/Message.antt =====
-- jws/message.go: signatures and messages, their JSON, and `Compact`.
pub mod Decoded
mod Tests
use Prim.Native.Char.{code}
use jwx.Common.{
  ℕ, Bool, true, false, ◌||◌, Option, none, some, String, List, [], ◌∷◌, ◌++◌, Outcome, ok, err,
  panic, ◌>>=◌, ◌==◌, str_eq, if◌then◌else◌, length,
}
use jwx.Common.Bytes.{Bytes}

-- `H` is `jws.Headers`; `none` is a nil interface.
pub record Signature (H : Type 0) : Type 0 where
  pub headers : Option H
  pub protected : Option H
  pub signature : Bytes
  pub detached : Bool

pub record Message (H : Type 0) : Type 0 where
  pub payload : Bytes
  pub signatures : List (Signature H)
  pub b64 : Bool

-- The structs that the JSON is read into first, where a nil pointer is `none`.
pub record SignatureProbe (H : Type 0) : Type 0 where
  pub header : Option H
  pub protected : Option Bytes
  pub signature : Option Bytes

pub record MessageProbe (H : Type 0) : Type 0 where
  pub payload : Option Bytes
  pub signatures : List Bytes
  pub header : Option H
  pub protected : Option Bytes
  pub signature : Option Bytes

pub data Error : Type 0 where
  bad_json bad_protected_encoding bad_protected bad_signature bad_payload : Error
  no_signatures both_formats mixed_b64 not_one_signature bad_marshal dot_in_payload : Error

-- What the code calls: base64, the JSON decoder, and the methods of a header. `marshal_header` is
-- `MarshalJSON` and `json_header` is `json.Marshal`, which checks and compacts the result.
pub record MessageCodec (H : Type 0) : Type 0 where
  pub decode : Bytes → Option Bytes
  pub encode : Bytes → Bytes
  pub read_signature : Bytes → Option (SignatureProbe H)
  pub read_message : Bytes → Option (MessageProbe H)
  pub unmarshal_header : Bytes → Option H
  pub marshal_header : H → Option Bytes
  pub json_header : H → Option Bytes
  pub get_b64 : H → Option (Option Bool)
  pub key_id : H → String

abbrev pub or_fail : {A : Type 0} → Error → Option A → Outcome Error A
or_fail e none = err e
or_fail e (some a) = ok a

-- The bytes of an ASCII text.
unfoldable pub ascii : String → Bytes
ascii String.[] = []
ascii (String.◌∷◌ c s) = code c ∷ ascii s

-- The member `"name":"value"` of a JSON object.
unfoldable pub quoted : String → Bytes → Bytes
unfolding ascii
quoted name value = b'"' ∷ (ascii name ++ (b'"' ∷ b':' ∷ b'"' ∷ (value ++ b'"' ∷ [])))

-- `bytes.Contains(payload, []byte{'.'})`
unfoldable pub has_dot : Bytes → Bool
has_dot [] = false
has_dot (b ∷ bs) = b == b'.' || has_dot bs

module _ {H : Type 0} (codec : MessageCodec H) where
  -- `getB64Value`, which calls a method of the interface.
  unfoldable pub b64_value : Option H → Outcome Error Bool
  b64_value none = panic
  b64_value (some hdr) = elim (codec.get_b64 hdr) [
    | none ↦ ok true
    | some none ↦ ok false
    | some (some b64) ↦ ok b64
  ]

  -- `bytes.HasPrefix(src, []byte{'{'})`
  abbrev pub is_object : Bytes → Bool
  is_object [] = false
  is_object (b ∷ bs) = b == b'{'

  -- The protected header of a signature: JSON, or the base64 of it.
  unfoldable pub read_protected : Option Bytes → Outcome Error (Option H)
  read_protected none = ok none
  read_protected (some src) =
      (if is_object src then ok src else or_fail bad_protected_encoding (codec.decode src))
      >>= λ src. or_fail bad_protected (codec.unmarshal_header src) >>= λ prt. ok (some prt)

  -- `Signature.UnmarshalJSON`: the signature is read through a pointer that may be nil.
  unfoldable pub unmarshal_signature : Bytes → Outcome Error (Signature H)
  unfolding read_protected
  unmarshal_signature buf = or_fail bad_json (codec.read_signature buf) >>= λ sup.
      read_protected sup.protected >>= λ prt.
      (elim sup.signature [ none ↦ panic | some src ↦ or_fail bad_signature (codec.decode src) ])
      >>= λ decoded.
          ok (record {
            headers = sup.header;
            protected = prt;
            signature = decoded;
            detached = false;
          })

  -- The loop over the signatures, behind the first one.
  unfoldable pub more_signatures : Bool → List Bytes → Outcome Error (List (Signature H))
  unfolding unmarshal_signature b64_value
  more_signatures b64 [] = ok []
  more_signatures b64 (raw ∷ raws) = unmarshal_signature raw >>= λ sig.
      b64_value sig.protected >>= λ own.
      (if (if b64 then own else if own then false else true)
        then (more_signatures b64 raws >>= λ sigs. ok (sig ∷ sigs))
        else err mixed_b64)

  -- The general syntax: the signatures, and the `b64` that the first one sets.
  unfoldable pub read_full : List Bytes → Outcome Error (List (Signature H) × Bool)
  unfolding more_signatures
  read_full [] = err no_signatures
  read_full (raw ∷ raws) = unmarshal_signature raw >>= λ sig.
      b64_value sig.protected >>= λ b64. more_signatures b64 raws >>= λ sigs. ok (sig ∷ sigs, b64)

  -- The protected header of the flattened syntax is always base64.
  unfoldable pub flattened_protected : Option Bytes → Outcome Error (Option H)
  flattened_protected none = ok none
  flattened_protected (some src) = or_fail bad_protected_encoding (codec.decode src) >>= λ decoded.
      or_fail bad_protected (codec.unmarshal_header decoded) >>= λ prt. ok (some prt)

  unfoldable pub read_flattened :
      Option H → Option Bytes → Bytes → Outcome Error (List (Signature H) × Bool)
  unfolding flattened_protected b64_value
  read_flattened header protected src = flattened_protected protected >>= λ prt.
      or_fail bad_signature (codec.decode src) >>= λ decoded. b64_value prt >>= λ b64. ok (
        record { headers = header; protected = prt; signature = decoded; detached = false } ∷ [],
        b64,
      )

  unfoldable pub read_payload : Option Bytes → Bool → Outcome Error Bytes
  read_payload none b64 = ok []
  read_payload (some src) b64 = if b64 then or_fail bad_payload (codec.decode src) else ok src

  -- The signatures of either syntax, and their `b64`.
  unfoldable pub read_signatures : MessageProbe H → Outcome Error (List (Signature H) × Bool)
  unfolding read_full read_flattened
  read_signatures mup = elim mup.signature [
    | none ↦ read_full mup.signatures
    | some src ↦
        if length mup.signatures == 0
        then read_flattened mup.header mup.protected src
        else err both_formats
  ]

  -- `Message.UnmarshalJSON`
  unfoldable pub unmarshal_message : Bytes → Outcome Error (Message H)
  unfolding read_signatures read_payload
  unmarshal_message buf = or_fail bad_json (codec.read_message buf) >>= λ mup.
      read_signatures mup >>= λ (sigs, b64). read_payload mup.payload b64 >>= λ payload.
      ok (record { payload = payload; signatures = sigs; b64 = b64 })

  -- `LookupSignature`
  unfoldable pub lookup_signature : String → List (Signature H) → List (Signature H)
  lookup_signature kid [] = []
  lookup_signature kid (sig ∷ sigs) =
      let named : Option H → Bool =
        λ hdr. elim hdr [ none ↦ false | some h ↦ str_eq (codec.key_id h) kid ] in
      let rest = lookup_signature kid sigs in
      if named sig.headers || named sig.protected then sig ∷ rest else rest

  -- The member `"header":` of a signature, with the header's own JSON.
  unfoldable pub write_header : Option H → Outcome Error Bytes
  unfolding ascii
  write_header none = ok []
  write_header (some hdr) =
      or_fail bad_marshal (codec.marshal_header hdr) >>= λ js. ok (ascii "\"header\":" ++ js)

  -- The member `"protected"`.
  unfoldable pub write_protected : Option H → Outcome Error Bytes
  unfolding quoted
  write_protected none = ok []
  write_protected (some hdr) = or_fail bad_marshal (codec.marshal_header hdr) >>= λ js.
      ok (quoted "protected" (codec.encode js))

  -- What is written in front of a member, if anything was written before.
  abbrev pub comma_after : Bytes → Bytes
  comma_after [] = []
  comma_after (b ∷ bs) = b',' ∷ []

  -- `marshalFlattened`
  unfoldable pub marshal_flattened : Bytes → Signature H → Outcome Error Bytes
  unfolding write_header write_protected quoted
  marshal_flattened payload sig = write_header sig.headers >>= λ header.
      write_protected sig.protected >>= λ protected. ok (
        b'{'
        ∷ (header
            ++ (comma_after header
                ++ (quoted "payload" (codec.encode payload)
                    ++ ((elim protected [ [] ↦ [] | b ∷ bs ↦ b',' ∷ (b ∷ bs) ])
                        ++ (b','
                            ∷ (quoted "signature" (codec.encode sig.signature) ++ b'}' ∷ [])))))))

  -- The loop of `marshalFull`.
  unfoldable pub write_signatures : Bool → List (Signature H) → Outcome Error Bytes
  unfolding write_header write_protected quoted
  write_signatures first [] = ok []
  write_signatures first (sig ∷ sigs) = write_header sig.headers >>= λ header.
      write_protected sig.protected >>= λ protected. write_signatures false sigs >>= λ rest. ok (
        (if first then [] else b',' ∷ [])
        ++ (b'{'
            ∷ (header
                ++ ((elim protected [ [] ↦ [] | b ∷ bs ↦ comma_after header ++ (b ∷ bs) ])
                    ++ (comma_after (header ++ protected)
                        ++ (quoted "signature" (codec.encode sig.signature) ++ (b'}' ∷ rest)))))))

  -- `MarshalJSON`
  unfoldable pub marshal_message : Message H → Outcome Error Bytes
  unfolding marshal_flattened write_signatures ascii quoted
  marshal_message msg =
      let full = write_signatures true msg.signatures >>= λ body. ok (
        b'{'
        ∷ (quoted "payload" (codec.encode msg.payload)
            ++ (ascii ",\"signatures\":[" ++ (body ++ ascii "]}")))) in
      elim msg.signatures [
        | [] ↦ full
        | sig ∷ more ↦ elim more [ [] ↦ marshal_flattened msg.payload sig | _ ∷ _ ↦ full ]
      ]

  -- `json.Marshal` of a header that may be nil.
  unfoldable pub json_of : Option H → Outcome Error Bytes
  unfolding ascii
  json_of none = ok (ascii "null")
  json_of (some hdr) = or_fail bad_marshal (codec.json_header hdr)

  -- The payload as it stands in the signed and in the compact text. Dots are only looked for where the
  -- payload is not detached.
  unfoldable pub payload_text : Bool → Bool → Bytes → Outcome Error Bytes
  unfolding has_dot
  payload_text detached b64 payload =
      if b64
      then ok (codec.encode payload)
      else if detached
      then ok payload
      else if has_dot payload
      then err dot_in_payload
      else ok payload

  -- `Compact`
  unfoldable pub compact : Message H → Bool → Outcome Error Bytes
  compact msg detached = elim msg.signatures [
    | [] ↦ err not_one_signature
    | sig ∷ more ↦ elim more [
      | _ ∷ _ ↦ err not_one_signature
      | [] ↦ json_of sig.protected >>= λ hdrbuf.
          (if detached
            then ok []
            else b64_value sig.protected >>= λ b64. payload_text false b64 msg.payload)
          >>= λ payload.
              ok (codec.encode hdrbuf ++ (b'.' ∷ (payload ++ (b'.' ∷ codec.encode sig.signature))))
    ]
  ]
