-- ===== src/Jws/Sign/Tests.antt =====
-- A concrete key of `Sign`, and the theorems at it. A byte `b` is encoded as `b` times an `a`, and a `b`.
use jwx.Common.{
  ℕ, zero, suc, ◌+◌, ◌≡◌, refl, ap, ◌∙◌, true, false, none, some, String, List, [], ◌∷◌, ok, arith,
  ◌==◌, eq_iff, if◌then◌else◌,
}
use jwx.Common.Bytes.{Bytes}
use jwx.Common.Assoc.{lookup, insert}
use jwx.Common.Assoc.Sorted.{sort_pairs, insert_sorted}
use jwx.Format.Compact.{IsSegment}
use jwx.Fields.{
  no_fields, open_brace, close_brace, member, merge_headers, copy_pairs, set_field, get_field,
  make_pairs, marshal_json, write_members,
}
use jwx.Fields.Values.{Value, text, algorithm, Decoders, one_of}
use jwx.Fields.Built.{fresh}
use jwx.Jws.Headers.{
  signature_algorithms, Headers, is_standard, accept_header, accept_signature_algorithm,
  algorithm_name, decode_header, get, set, merge,
}
use jwx.Jws.Signers.{Signer, Registry, make_signer}
use jwx.Jws.Message.{b64_value, payload_text}
use jwx.Jws.Sign.{
  Services, Store, Signed, update, stamp, sign_signature, sign_all, sign, marshal_header,
  header_json, get_b64, with_key,
}
use jwx.Jws.Sign.Shared.{Turn, shares, shared_header}
use jwx.Jws.Sign.RoundTrip.Text.{Signs}
use jwx.Jws.Sign.RoundTrip.Verified.{Verifying, IsBase64, Accepts, verify_codec, verify-sign}
use jwx.Jws.Verify.{with_key_option, verify}

encode_byte : ℕ → Bytes → Bytes
encode_byte zero rest = b'b' ∷ rest
encode_byte (suc n) rest = b'a' ∷ encode_byte n rest

encode : Bytes → Bytes
encode [] = []
encode (b ∷ bs) = encode_byte b (encode bs)

decode : ℕ → Bytes → Bytes
decode acc [] = []
decode acc (c ∷ cs) =
    let more = decode (suc acc) cs in
    let next = acc ∷ decode 0 cs in if c == b'b' then next else more

decode-encode_byte :
    (acc n : ℕ) (rest : Bytes) → decode acc (encode_byte n rest) ≡ (acc + n) ∷ decode 0 rest
unfolding decode encode_byte
decode-encode_byte acc zero rest = ap (λ m. m ∷ decode 0 rest) (omega arith)
decode-encode_byte acc (suc n) rest =
    decode-encode_byte (suc acc) n rest ∙ ap (λ m. m ∷ decode 0 rest) (omega arith)

decode-encode : (bs : Bytes) → decode 0 (encode bs) ≡ bs
unfolding encode decode
decode-encode [] = refl
decode-encode (b ∷ bs) = decode-encode_byte 0 b (encode bs) ∙ ground (arith, decode-encode bs)

encode_byte-IsSegment : (n : ℕ) (rest : Bytes) → IsSegment rest → IsSegment (encode_byte n rest)
unfolding encode_byte
encode_byte-IsSegment zero rest s =
    ((omega arith, omega arith, (λ e. absurd (omega arith)), λ e. absurd (omega arith)), s)
encode_byte-IsSegment (suc n) rest s = (
  (omega arith, omega arith, (λ e. absurd (omega arith)), λ e. absurd (omega arith)),
  encode_byte-IsSegment n rest s,
)

encode-IsSegment : (bs : Bytes) → IsSegment (encode bs)
unfolding encode
encode-IsSegment [] = tt
encode-IsSegment (b ∷ bs) = encode_byte-IsSegment b (encode bs) (encode-IsSegment bs)

base64 : IsBase64 encode (λ bs. some (decode 0 bs))
unfolding encode
base64 = record {
  decode_encode = λ bs. ap some (decode-encode bs);
  segments = encode-IsSegment;
  encode_nil = refl;
}

abbrev Raw : Type 0
Raw = Value ℕ ℕ ℕ

abbrev decoders : Decoders ℕ ℕ ℕ Raw
decoders = record {
  as_text = λ raw. elim raw [ text s ↦ some s | algorithm s ↦ some s | _ ↦ none ];
  as_texts = λ raw. none;
  as_bytes = λ raw. none;
  as_key = λ raw. none;
  as_chain = λ raw. none;
  registry = λ n raw. some raw;
}

abbrev hmac : Signer ℕ
hmac = record { algorithm = "HS256"; sign = λ buf key. some (key ∷ []) }

abbrev services : Services ℕ ℕ ℕ ℕ
services = record {
  encode = encode;
  name_bytes = λ n. [];
  encode_value = λ v. some [];
  normalize = λ js. some (1 ∷ []);
  indent = λ js. none;
  as_bool = λ x. none;
  key_id = λ key. none;
}

abbrev verifying : Verifying decoders ℕ
verifying = record {
  decode = λ bs. some (decode 0 bs);
  tokens = λ bs. open_brace ∷ member "alg" (algorithm "HS256") ∷ close_brace ∷ [];
  unmarshal_message = λ bs. none;
  new_verifier = λ alg. some (λ buf sig key. elim sig [ [] ↦ false | b ∷ bs ↦ b == key ]);
  assign_key = λ key. true;
}

abbrev registry : Registry ℕ
registry = record { signer_db = ("HS256", some hmac) ∷ []; signers = ("HS256", hmac) ∷ [] }

abbrev store : Store decoders services
store = record { header = λ q. no_fields; next = 1 }

abbrev stamped_header : Headers decoders
stamped_header = record { standard = ("alg", algorithm "HS256") ∷ []; private_params = none }

-- The payload 2, the key 3.
hmac-Signs :
    Signs decoders services hmac 3 no_fields stamped_header false true
      (2 ∷ [])
      (1 ∷ [])
      (encode (2 ∷ []))
      (3 ∷ [])
unfolding stamp set set_field is_standard one_of accept_header accept_signature_algorithm
    algorithm_name insert marshal_header header_json marshal_json write_members make_pairs
    sort_pairs insert_sorted b64_value get_b64 get get_field lookup payload_text
hmac-Signs = record {
  known = refl;
  built = fresh;
  stamps = refl;
  json = refl;
  asks = refl;
  shows = refl;
  signs = refl;
}

sole_name :
    (n : String) (v : Value ℕ ℕ ℕ)
    → get decoders stamped_header n ≡ some v
    → ("alg" ≡ n) × (algorithm "HS256" ≡ v)
unfolding get get_field lookup
sole_name n v e = ground (arith, eq_iff "alg" n)

hmac-Accepts :
    Accepts decoders services verifying stamped_header (1 ∷ []) (encode (2 ∷ [])) (3 ∷ []) "HS256" 3
unfolding encode encode_byte make_pairs sort_pairs insert_sorted is_standard one_of decode_header
hmac-Accepts = record {
  raw_of = λ n v. v;
  filled = omega arith;
  reads = refl;
  decodes = λ n v e. let (name, value) = sole_name n v e in rw (← name, ← value) refl;
  accepts = λ buf sig key. elim sig [ [] ↦ false | b ∷ bs ↦ b == key ];
  made = refl;
  good = refl;
}

found_signer : make_signer registry "HS256" ≡ (registry, some hmac)
unfolding make_signer lookup
found_signer = refl

verify-sign_example :
    (out : Bytes) × (sign decoders services registry store
        (some (2 ∷ []))
        (with_key (some "HS256") 3 none (some 0) ∷ [])
      ≡ (registry, ok (update decoders services store 0 stamped_header, out)))
    × (verify (verify_codec decoders services verifying) out (with_key_option (some "HS256") 3 ∷ [])
        ≡ ok (record { payload = 2 ∷ []; stored_message = none; stored_key = none }))
verify-sign_example =
    verify-sign decoders services verifying registry registry store store 0 (some 0) "HS256" 3 3
      hmac stamped_header false true (2 ∷ []) (1 ∷ []) (encode (2 ∷ [])) (3 ∷ []) found_signer refl
      hmac-Signs base64 hmac-Accepts

-- Two keys for one protected header, which the first run leaves with "HS256" and the second with "HS384".
abbrev hmac384 : Signer ℕ
hmac384 = record { algorithm = "HS384"; sign = λ buf key. some (key ∷ []) }

abbrev header384 : Headers decoders
header384 = record { standard = ("alg", algorithm "HS384") ∷ []; private_params = none }

abbrev signatures : List (Signed decoders services)
signatures =
    record { headers = none; protected = 0; signature = 3 ∷ [] }
    ∷ record { headers = none; protected = 0; signature = 4 ∷ [] }
    ∷ []

abbrev left : Store decoders services
left = update decoders services (update decoders services store 0 stamped_header) 0 header384

known256 : one_of "HS256" signature_algorithms ≡ true
unfolding one_of
known256 = refl

known384 : one_of "HS384" signature_algorithms ≡ true
unfolding one_of
known384 = refl

shared_run :
    sign_all decoders services (2 ∷ []) false store (
      shares decoders services (2 ∷ []) false 0 hmac 3
      ∷ shares decoders services (2 ∷ []) false 0 hmac384 4
      ∷ [])
    ≡ ok (left, signatures)
unfolding sign_all sign_signature update merge merge_headers copy_pairs stamp set set_field
    is_standard one_of accept_header accept_signature_algorithm algorithm_name insert marshal_header
    header_json marshal_json write_members make_pairs sort_pairs insert_sorted b64_value get_b64 get
    get_field lookup payload_text
shared_run = refl

shared_header_example :
    (g1 : Headers decoders) × (g2 : Headers decoders) × (sig1 : Signed decoders services)
    × (sig2 : Signed decoders services) × (signatures ≡ sig1 ∷ sig2 ∷ [])
    × Turn decoders services (2 ∷ []) false 0 store hmac 3 sig1 g1
    × Turn decoders services
        (2 ∷ [])
        false
        0
        (update decoders services store 0 g1)
        hmac384
        4
        sig2
        g2
    × (stamp decoders services hmac384 4 g1 ≡ ok g2)
    × (left.header sig1.protected ≡ g2)
    × (left.header sig2.protected ≡ g2)
    × (get decoders g1 "alg" ≡ some (algorithm "HS256"))
    × (get decoders g2 "alg" ≡ some (algorithm "HS384"))
shared_header_example =
    shared_header decoders services (2 ∷ []) false 0 store left hmac hmac384 3 4 signatures known256
      known384 shared_run
