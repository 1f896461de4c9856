-- ===== src/Jwe/Decrypt/Tests.antt =====
-- A concrete message: the first byte of the ciphertext is the key, and the rest the plaintext.
use jwx.Common.{ℕ, ◌≡◌, refl, true, none, some, String, List, [], ◌∷◌, ok, err, ◌==◌, if◌then◌else◌}
use jwx.Common.Bytes.{Bytes}
use jwx.Common.Assoc.{lookup, insert}
use jwx.Common.Assoc.Sorted.{sort_pairs, insert_sorted}
use jwx.Fields.{get_field, set_field, merge_headers, copy_pairs, make_pairs}
use jwx.Fields.Values.{algorithm, encryption, Decoders, one_of}
use jwx.Jws.Verify.Sound.{Among}
use jwx.Jwe.Headers.{
  Headers, is_standard, accept_header, accept_algorithm, accept_encryption, get, merge, clone,
}
use jwx.Jwe.Decrypt.{
  not_decrypted, Message, Recipient, Services, Provider, with_key, no_providers, key_providers,
  static_provider, key_parameters, inflate, decrypt_key, try_keys, try_providers, try_recipients,
  wants_key_used, recipients_of, computed_aad, encoded_aad, decrypt,
}
use jwx.Jwe.Decrypt.Sound.{IsMerged, Opened, decrypt_sound}

abbrev decoders : Decoders ℕ ℕ ℕ ℕ
decoders = record {
  as_text = λ raw. none;
  as_texts = λ raw. none;
  as_bytes = λ raw. none;
  as_key = λ raw. none;
  as_chain = λ raw. none;
  registry = λ n raw. none;
}

abbrev direct : Headers decoders
direct = record {
  standard = ("alg", algorithm "dir") ∷ ("enc", encryption "A128GCM") ∷ [];
  private_params = none;
}

abbrev message : Message decoders
message = record {
  protected_headers = direct;
  unprotected_headers = none;
  raw_protected_headers = 1 ∷ [];
  authenticated_data = none;
  recipients = [];
  initialization_vector = [];
  tag = [];
  cipher_text = 7 ∷ 2 ∷ [];
}

abbrev services : Services decoders ℕ ℕ
services = record {
  parse = λ bs. some message;
  encode = λ bs. bs;
  decode = λ s. none;
  raw_key = λ k. some k;
  epk = λ k. none;
  count = λ x. none;
  decrypt = λ d ek ct. elim ct [
    | [] ↦ err not_decrypted
    | b ∷ bs ↦ if b == d.key then ok (some bs) else err not_decrypted
  ];
  uncompress = λ bs. none;
  encode_headers = λ h. none;
  assign_key = λ k. true;
}

run : decrypt decoders services [] (with_key (some "dir") 7 ∷ []) ≡ ok (2 ∷ [])
unfolding decrypt key_providers clone merge merge_headers copy_pairs set_field get get_field
    is_standard one_of accept_header accept_algorithm accept_encryption make_pairs sort_pairs
    insert_sorted insert lookup decrypt_key key_parameters inflate try_recipients try_providers
    try_keys wants_key_used
run = refl

no_key : decrypt decoders services [] [] ≡ err no_providers
unfolding decrypt key_providers
no_key = refl

decrypt_sound_example :
    (kps : List (Provider decoders ℕ ℕ)) × (msg : Message decoders) × (computed : Bytes)
    × (shared : Headers decoders) × (r : Recipient decoders) × (kp : Provider decoders ℕ ℕ)
    × (pairs : List (String × ℕ)) × (alg : String) × (k : ℕ) × (key_providers
          (static_provider decoders services)
          (with_key (some "dir") 7 ∷ [])
        ≡ ok kps)
    × (services.parse [] ≡ some msg)
    × (computed_aad decoders services msg ≡ ok computed)
    × IsMerged decoders services msg.protected_headers msg.unprotected_headers shared
    × Among r (recipients_of decoders services msg)
    × Among kp kps
    × (kp r msg ≡ some pairs)
    × Among (alg, k) pairs
    × Opened decoders services msg shared
        (encoded_aad decoders services msg)
        computed
        r
        alg
        k
        (2 ∷ [])
decrypt_sound_example =
    decrypt_sound decoders services [] (2 ∷ []) (with_key (some "dir") 7 ∷ []) run
