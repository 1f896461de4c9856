-- ===== src/Jws/Verify/Tests.antt =====
-- A concrete message, and the theorems at concrete inputs. Base64 is doubling of every byte here.
use jwx.Common.{
  ℕ, ◌≡◌, refl, true, false, none, some, List, [], ◌∷◌, ok, err, arith, ◌==◌, ltb, length, ap, ◌*◌,
  ◌/◌, ◌+◌, if◌then◌else◌,
}
use jwx.Common.Bytes.{Bytes}
use jwx.Format.Compact.{join}
use jwx.Jws.Verify.{
  Message, Codec, Settings, Verified, invalid_segments, with_key_option, no_settings, read_options,
  parse, parse_from, parse_compact, parse_segments, get_b64_value, split, split_compact, attach,
  header_bytes, try_keys, try_providers, try_signatures, fetch_keys, succeed, signed_payload,
  verify,
}
use jwx.Jws.Verify.Sound.{SignatureAccepted, verify_sound}
use jwx.Jws.Verify.Segments.{Dotless, split_compact-join, parse_compact-join}

-- A byte `b` is written as 2 b + 1, which is no dot.
encode : Bytes → Bytes
encode [] = []
encode (b ∷ bs) = (b * 2 + 1) ∷ encode bs

decode : Bytes → Bytes
decode [] = []
decode (b ∷ bs) = b / 2 ∷ decode bs

decode-encode : (bs : Bytes) → decode (encode bs) ≡ bs
unfolding decode encode
decode-encode [] = refl
decode-encode (b ∷ bs) = grind (arith, decode-encode bs)

encode-Dotless : (bs : Bytes) → Dotless (encode bs)
unfolding encode
encode-Dotless [] = tt
encode-Dotless (b ∷ bs) = ((λ e. absurd (omega arith)), encode-Dotless bs)

-- A signature holds if its first byte is the key; a header is its bytes.
abbrev codec : Codec Bytes ℕ ℕ
codec = record {
  decode = λ bs. some (decode bs);
  encode = encode;
  unmarshal_header = λ bs. some bs;
  unmarshal_message = λ bs. none;
  get_b64 = λ h. if length h == 0 then some (some false) else none;
  raw_buffer = λ h. some h;
  marshal_header = λ h. some h;
  new_verifier = λ alg. some (λ buf sig key. elim sig [ [] ↦ false | b ∷ bs ↦ b == key ]);
  assign_key = λ key. true;
}

-- The header 1, the payload 2, the signature 3.
abbrev signed : Bytes
signed = 3 ∷ b'.' ∷ 5 ∷ b'.' ∷ 7 ∷ []

abbrev result : Verified Bytes ℕ
result = record { payload = 2 ∷ []; stored_message = none; stored_key = none }

verify_run : verify codec signed (with_key_option (some 0) 3 ∷ []) ≡ ok result
unfolding verify read_options parse parse_from parse_compact parse_segments get_b64_value
    split_compact split attach header_bytes try_signatures try_providers try_keys fetch_keys succeed
    encode decode
verify_run = refl

verify_sound_example :
    (s : Settings Bytes ℕ ℕ) × (parsed : Message Bytes) × (msg : Message Bytes) × (read_options
        codec no_settings
        (with_key_option (some 0) 3 ∷ [])
      ≡ ok s)
    × (parse codec signed ≡ ok parsed)
    × (attach codec s parsed ≡ ok msg)
    × (result.payload ≡ msg.payload)
    × SignatureAccepted codec s msg (signed_payload codec msg) msg.signatures
verify_sound_example = verify_sound codec signed (with_key_option (some 0) 3 ∷ []) result verify_run

split_compact-join_example :
    ((payload signature : Bytes) (more : List Bytes)
      → (2 ∷ []) ∷ (3 ∷ []) ∷ (4 ∷ []) ∷ [] ≡ payload ∷ signature ∷ more
      → split_compact (join (1 ∷ []) ((2 ∷ []) ∷ (3 ∷ []) ∷ (4 ∷ []) ∷ []))
        ≡ ok (1 ∷ [], payload, signature))
    × (ltb (length {A = Bytes} ((2 ∷ []) ∷ (3 ∷ []) ∷ (4 ∷ []) ∷ [])) 2 ≡ true
        → split_compact (join (1 ∷ []) ((2 ∷ []) ∷ (3 ∷ []) ∷ (4 ∷ []) ∷ []))
          ≡ err invalid_segments)
split_compact-join_example = split_compact-join (1 ∷ []) ((2 ∷ []) ∷ (3 ∷ []) ∷ (4 ∷ []) ∷ []) (
  ((λ e. absurd (omega arith)), tt),
  (
    ((λ e. absurd (omega arith)), tt),
    (((λ e. absurd (omega arith)), tt), (((λ e. absurd (omega arith)), tt), tt)),
  ),
)

parse_compact-join_example :
    ((get_b64_value codec (1 ∷ []) ≡ true)
      → parse_compact codec (join (encode (1 ∷ [])) (encode (2 ∷ []) ∷ encode (3 ∷ []) ∷ []))
        ≡ ok (record {
          payload = 2 ∷ [];
          signatures = record { protected = 1 ∷ []; signature = 3 ∷ [] } ∷ [];
          b64 = true;
        }))
    × (Dotless (2 ∷ [])
        → get_b64_value codec (1 ∷ []) ≡ false
        → parse_compact codec (join (encode (1 ∷ [])) ((2 ∷ []) ∷ encode (3 ∷ []) ∷ []))
          ≡ ok (record {
            payload = 2 ∷ [];
            signatures = record { protected = 1 ∷ []; signature = 3 ∷ [] } ∷ [];
            b64 = false;
          }))
parse_compact-join_example =
    parse_compact-join codec (1 ∷ []) (2 ∷ []) (3 ∷ []) (1 ∷ []) (λ bs. ap some (decode-encode bs))
      encode-Dotless refl
