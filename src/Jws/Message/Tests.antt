-- ===== src/Jws/Message/Tests.antt =====
-- Concrete JSON messages, and the theorems at them. The JSON is what the probes say.
use jwx.Common.{
  ◌<◌, ◌≡◌, ◌⊎◌, inl, refl, true, false, none, some, List, [], ◌∷◌, ok, panic, ◌==◌, if◌then◌else◌,
  length, All,
}
use jwx.Common.Bytes.{Bytes}
use jwx.Jws.Message.{
  Signature, Message, SignatureProbe, MessageProbe, MessageCodec, b64_value, unmarshal_message,
  unmarshal_signature, read_signatures, read_full, more_signatures, read_protected, read_payload,
  marshal_message, marshal_flattened, write_header, write_protected, quoted, ascii, compact,
  json_of, lookup_signature, payload_text,
}
use jwx.Jws.Message.Decoded.{
  AsksPresent, PayloadOf, signature_count, unmarshal_message-Uniform, unmarshal_message_panics,
}

-- Two signatures for the buffer 1, and one without a protected header for any other.
abbrev probe : Bytes → MessageProbe Bytes
probe buf = record {
  payload = some (7 ∷ []);
  signatures = if length buf == 1 then (1 ∷ []) ∷ (1 ∷ []) ∷ [] else (2 ∷ 2 ∷ []) ∷ [];
  header = none;
  protected = none;
  signature = none;
}

abbrev signature_probe : Bytes → SignatureProbe Bytes
signature_probe raw = record {
  header = none;
  protected = if length raw == 1 then some (5 ∷ []) else none;
  signature = if length raw == 1 then some (9 ∷ []) else none;
}

abbrev codec : MessageCodec Bytes
codec = record {
  decode = λ bs. some bs;
  encode = λ bs. bs;
  read_signature = λ raw. some (signature_probe raw);
  read_message = λ buf. some (probe buf);
  unmarshal_header = λ bs. some bs;
  marshal_header = λ h. some h;
  json_header = λ h. some h;
  get_b64 = λ h. some (some false);
  key_id = λ h. "k";
}

abbrev signed : Signature Bytes
signed = record { headers = none; protected = some (5 ∷ []); signature = 9 ∷ []; detached = false }

abbrev message : Message Bytes
message = record { payload = 7 ∷ []; signatures = signed ∷ signed ∷ []; b64 = false }

read_message : unmarshal_message codec (1 ∷ []) ≡ ok message
unfolding unmarshal_message read_signatures read_full more_signatures unmarshal_signature
    read_protected b64_value read_payload
read_message = refl

unmarshal_message-Uniform_example :
    (mup : MessageProbe Bytes) × (codec.read_message (1 ∷ []) ≡ some mup)
    × (length message.signatures ≡ signature_count codec mup)
    × (0 < length message.signatures)
    × All (AsksPresent codec message.b64) message.signatures
    × PayloadOf codec mup.payload message.b64 message.payload
unmarshal_message-Uniform_example = unmarshal_message-Uniform codec (1 ∷ []) message read_message

unmarshal_message_panics_example :
    ((raw : Bytes) (raws : List Bytes) (sup : SignatureProbe Bytes)
      → (probe []).signature ≡ none
      → (probe []).signatures ≡ raw ∷ raws
      → codec.read_signature raw ≡ some sup
      → sup.protected ≡ none
      → ((sup.signature ≡ none)
          ⊎ ((src : Bytes) × (sg : Bytes) × (sup.signature ≡ some src)
              × (codec.decode src ≡ some sg)))
      → unmarshal_message codec [] ≡ panic)
    × ((src sg : Bytes)
        → (probe []).signature ≡ some src
        → (probe []).signatures ≡ []
        → (probe []).protected ≡ none
        → codec.decode src ≡ some sg
        → unmarshal_message codec [] ≡ panic)
unmarshal_message_panics_example = unmarshal_message_panics codec [] (probe []) refl

panic_run : unmarshal_message codec [] ≡ panic
panic_run =
    unmarshal_message_panics_example.0 (2 ∷ 2 ∷ []) [] (signature_probe (2 ∷ 2 ∷ [])) refl refl refl
      refl (inl refl)

-- A flattened message, {"payload":"A","protected":"B","signature":"C"}.
marshal_run :
    marshal_message codec (record {
      payload = b'A' ∷ [];
      signatures = record signed { protected = some (b'B' ∷ []); signature = b'C' ∷ [] } ∷ [];
      b64 = true;
    })
    ≡ ok (ascii "{\"payload\":\"A\",\"protected\":\"B\",\"signature\":\"C\"}")
unfolding marshal_message marshal_flattened write_header write_protected quoted ascii
marshal_run = refl

-- A payload with "b64" false stands as it is.
compact_run :
    compact codec (record { payload = 7 ∷ []; signatures = signed ∷ []; b64 = true }) false
    ≡ ok (5 ∷ b'.' ∷ 7 ∷ b'.' ∷ 9 ∷ [])
unfolding compact json_of b64_value payload_text jwx.Jws.Message.has_dot
compact_run = refl

lookup_run : lookup_signature codec "k" (signed ∷ []) ≡ signed ∷ []
unfolding lookup_signature
lookup_run = refl
