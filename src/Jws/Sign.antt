-- ===== src/Jws/Sign.antt =====
-- `Sign` of jws/jws.go and `Signature.Sign` of jws/message.go, over the headers of jws.
pub mod Stamped
pub mod RoundTrip
pub mod Shared
mod Tests
use jwx.Common.{
  ℕ, suc, ◌+◌, ◌≡◌, Bool, true, false, ◌&&◌, not, Option, none, some, String, List, [], ◌∷◌, ◌++◌,
  Outcome, ok, err, panic, ◌>>=◌, ◌==◌, str_eq, if◌then◌else◌, length,
}
use jwx.Common.Bytes.{Bytes}
use jwx.Fields.{no_fields, marshal_json}
use jwx.Fields as FieldsModule
use jwx.Fields.Values.{Value, text, algorithm, other, Decoders}
use jwx.Jws.Headers.{Headers, get, set, merge, get_text}
use jwx.Jws.Signers.{Signer, Registry, make_signer}
use jwx.Jws.Message.{
  Signature, Message, SignatureProbe, MessageProbe, MessageCodec, b64_value, payload_text, compact,
  marshal_message,
}
use jwx.Jws.Message as MessageModule

pub data Error : Type 0 where
  wrong_algorithm_kind no_signer payload_given no_keys many_keys bad_header : Error
  sign_failed bad_json invalid_format : Error
  message_failed : MessageModule.Error → Error

-- What the code calls: base64, the encoder of a JSON value, what `json.Marshal` makes of the JSON that
-- `MarshalJSON` gives, with or without indentation, and the key ID of a `jwk.Key` (`none` for any other
-- key). `as_bool` is the type assertion of `getB64Value`.
pub record Services (K C X S : Type 0) : Type 0 where
  pub encode : Bytes → Bytes
  pub name_bytes : String → Bytes
  pub encode_value : Value K C X → Option Bytes
  pub normalize : Bytes → Option Bytes
  pub indent : Bytes → Option Bytes
  pub as_bool : X → Option Bool
  pub key_id : S → Option String

-- A header is an address: `Sign` changes the protected header that it was given.
abbrev pub Address : Type 0
Address = ℕ

-- `none` is an algorithm of another kind than a signature's; a payload may be nil.
pub data SignOption (S : Type 0) : Type 0 where
  with_serialization : ℕ → SignOption S
  with_key : Option String → S → Option Address → Option Address → SignOption S
  with_detached_payload : Option Bytes → SignOption S
  with_other : SignOption S

pub record PayloadSigner (S : Type 0) : Type 0 where
  pub signer : Signer S
  pub key : S
  pub public : Option Address
  pub protected : Option Address

-- The variables of `Sign` that the options set.
pub record Settings (S : Type 0) : Type 0 where
  pub format : ℕ
  pub signers : List (PayloadSigner S)
  pub detached : Bool
  pub payload : Option Bytes

abbrev fmt_compact : ℕ
fmt_compact = 1

abbrev fmt_json : ℕ
fmt_json = 2

abbrev fmt_json_pretty : ℕ
fmt_json_pretty = 3

abbrev pub initial : {S : Type 0} → Option Bytes → Settings S
initial payload = record { format = fmt_compact; signers = []; detached = false; payload = payload }

-- The loop over the options, with the globals that `makeSigner` changes.
unfoldable pub read_options :
    {S : Type 0}
    → Registry S
    → Settings S
    → List (SignOption S)
    → Registry S × Outcome Error (Settings S)
read_options reg s [] = (reg, ok s)
read_options reg s (with_serialization n ∷ os) = read_options reg (record s { format = n }) os
read_options reg s (with_other ∷ os) = read_options reg s os
read_options reg s (with_key none key public protected ∷ os) = (reg, err wrong_algorithm_kind)
read_options reg s (with_key (some alg) key public protected ∷ os) =
    elim ((make_signer reg alg).1) [
      | none ↦ ((make_signer reg alg).0, err no_signer)
      | some signer ↦
          read_options (make_signer reg alg).0
            (record s {
              signers =
                  s.signers
                  ++ record { signer = signer; key = key; public = public; protected = protected }
                    ∷ [];
            })
            os
    ]
read_options reg s (with_detached_payload p ∷ os) = elim s.payload [
  | none ↦ read_options reg (record s { detached = true; payload = p }) os
  | some given ↦ (reg, err payload_given)
]

abbrev pub payload_bytes : Option Bytes → Bytes
payload_bytes none = []
payload_bytes (some bs) = bs

abbrev pub or_error : {A : Type 0} → Error → Option A → Outcome Error A
or_error e none = err e
or_error e (some a) = ok a

abbrev pub as_header_error : {A : Type 0} → Outcome FieldsModule.Error A → Outcome Error A
as_header_error panic = panic
as_header_error (err e) = err bad_header
as_header_error (ok a) = ok a

abbrev pub as_message_error : {A : Type 0} → Outcome MessageModule.Error A → Outcome Error A
as_message_error panic = panic
as_message_error (err e) = err (message_failed e)
as_message_error (ok a) = ok a

abbrev pub to_option : {E A : Type 0} → Outcome E A → Option A
to_option panic = none
to_option (err e) = none
to_option (ok a) = some a

module _ {K C X Raw S : Type 0} (decoders : Decoders K C X Raw) (services : Services K C X S) where
  -- The headers that the addresses stand for, and the next address that is free.
  pub record Store : Type 0 where
    pub header : Address → Headers decoders
    pub next : Address

  unfoldable pub update : Store → Address → Headers decoders → Store
  update store at h = record store { header = λ q. if q == at then h else store.header q }

  -- `NewHeaders`
  unfoldable pub allocate : Store → Store
  allocate store = record {
    header = λ q. if q == store.next then no_fields else store.header q;
    next = suc store.next;
  }

  -- `MarshalJSON` of a header, and `json.Marshal` of it.
  unfoldable pub header_json : Headers decoders → Option Bytes
  header_json h = to_option (marshal_json services.name_bytes services.encode_value h)

  unfoldable pub marshal_header : Headers decoders → Option Bytes
  unfolding header_json
  marshal_header h = elim (header_json h) [ none ↦ none | some js ↦ services.normalize js ]

  -- `hdr.Get("b64")`, and whether it is a `bool`.
  unfoldable pub get_b64 : Headers decoders → Option (Option Bool)
  unfolding get
  get_b64 h = elim (get decoders h "b64") [
    | none ↦ none
    | some (other x) ↦ some (services.as_bool x)
    | _ ↦ some none
  ]

  -- `Sign` decodes nothing.
  abbrev pub codec : MessageCodec (Headers decoders)
  codec = record {
    decode = λ bs. none;
    encode = services.encode;
    read_signature = λ bs. none;
    read_message = λ bs. none;
    unmarshal_header = λ bs. none;
    marshal_header = header_json;
    json_header = marshal_header;
    get_b64 = get_b64;
    key_id = λ h. get_text decoders h "kid";
  }

  -- `"alg"` of the signer and `"kid"` of a `jwk.Key`, which both functions set.
  unfoldable pub stamp : Signer S → S → Headers decoders → Outcome Error (Headers decoders)
  unfolding set
  stamp signer key h = as_header_error (set decoders h "alg" (algorithm signer.algorithm)) >>= λ h.
      elim (services.key_id key) [
        | none ↦ ok h
        | some kid ↦
            if str_eq kid "" then ok h else as_header_error (set decoders h "kid" (text kid))
      ]

  -- `Signature.Sign`: the signature, and the compact text.
  unfoldable pub sign_signature :
      Signature (Headers decoders) → Bytes → Signer S → S → Outcome Error (Bytes × Bytes)
  sign_signature sig payload signer key =
      as_header_error (merge decoders sig.headers sig.protected) >>= λ merged.
      stamp signer key merged >>= λ hdrs. or_error bad_json (marshal_header hdrs) >>= λ hdrbuf.
      as_message_error (b64_value codec (some hdrs)) >>= λ b64.
      as_message_error (payload_text codec sig.detached b64 payload) >>= λ shown.
      or_error sign_failed (signer.sign (services.encode hdrbuf ++ (b'.' ∷ shown)) key)
      >>= λ signature. ok (
        signature,
        services.encode hdrbuf
            ++ (b'.'
                ∷ ((if sig.detached then [] else shown) ++ (b'.' ∷ services.encode signature))),
      )

  -- A signature of `Sign`, with the addresses of its headers.
  pub record Signed : Type 0 where
    pub headers : Option Address
    pub protected : Address
    pub signature : Bytes

  abbrev pub resolve_optional : Store → Option Address → Option (Headers decoders)
  resolve_optional store none = none
  resolve_optional store (some at) = some (store.header at)

  abbrev pub resolve : Store → Bool → Signed → Signature (Headers decoders)
  resolve store detached sig = record {
    headers = resolve_optional store sig.headers;
    protected = some (store.header sig.protected);
    signature = sig.signature;
    detached = detached;
  }

  abbrev pub resolve_all : Store → Bool → List Signed → List (Signature (Headers decoders))
  resolve_all store detached [] = []
  resolve_all store detached (sig ∷ sigs) =
      resolve store detached sig ∷ resolve_all store detached sigs

  -- The protected header of a signer, a new one if it has none.
  abbrev pub protected_of : Store → Option Address → Store × Address
  protected_of store none = (allocate store, store.next)
  protected_of store (some at) = (store, at)

  -- The loop over the signers.
  unfoldable pub sign_all :
      Bytes → Bool → Store → List (PayloadSigner S) → Outcome Error (Store × List Signed)
  sign_all payload detached store [] = ok (store, [])
  sign_all payload detached store (ps ∷ pss) =
      let (store, at) = protected_of store ps.protected in
      stamp ps.signer ps.key (store.header at) >>= λ h.
      sign_signature
        (resolve (update store at h) detached
          (record { headers = ps.public; protected = at; signature = [] }))
        payload ps.signer ps.key
      >>= λ (signature, shown).
          sign_all payload detached (update store at h) pss >>= λ (store, sigs).
          ok (store, record { headers = ps.public; protected = at; signature = signature } ∷ sigs)

  -- The text of the message in the format. The `b64` of the message is not set, nor read.
  unfoldable pub serialize :
      ℕ → Bool → Bytes → List (Signature (Headers decoders)) → Outcome Error Bytes
  serialize format detached payload sigs =
      let msg : Message (Headers decoders) = record {
        payload = payload;
        signatures = sigs;
        b64 = false;
      } in
      if format == fmt_json
      then (as_message_error (marshal_message codec msg) >>= λ js.
          or_error bad_json (services.normalize js))
      else if format == fmt_json_pretty
      then (as_message_error (marshal_message codec msg) >>= λ js.
          or_error bad_json (services.indent js))
      else if format == fmt_compact
      then as_message_error (compact codec msg detached)
      else err invalid_format

  -- `Sign` behind its options.
  unfoldable pub sign_with : Store → Settings S → Outcome Error (Store × Bytes)
  sign_with store s =
      if length s.signers == 0
      then err no_keys
      else if s.format == fmt_compact && not (length s.signers == 1)
      then err many_keys
      else sign_all (payload_bytes s.payload) s.detached store s.signers >>= λ (store, sigs).
          serialize s.format s.detached (payload_bytes s.payload)
            (resolve_all store s.detached sigs)
          >>= λ out. ok (store, out)

  -- `Sign`, with the globals and the headers after the call.
  unfoldable pub sign :
      Registry S
      → Store
      → Option Bytes
      → List (SignOption S)
      → Registry S × Outcome Error (Store × Bytes)
  sign reg store payload options =
      let (reg, settings) = read_options reg (initial payload) options in
      (reg, settings >>= λ s. sign_with store s)
