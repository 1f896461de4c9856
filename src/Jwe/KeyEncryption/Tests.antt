-- ===== src/Jwe/KeyEncryption/Tests.antt =====
-- The encrypters of jwe/internal/keyenc with concrete libraries.
use jwx.Common.{◌<◌, ◌≡◌, refl, [], ◌∷◌, ok, arith, replicate, All-replicate}
use jwx.Common.Bytes.{Bytes}
use jwx.Jwe.KeyEncryption.{
  ecdsa_key, ecdsa_public, agreed_size, derive_z, ecdhes_encrypt, ecdhes_decrypt,
}
use jwx.Jwe.KeyEncryption.Agreed.{IsWrappable, ecdhes_decrypt-ecdhes_encrypt}
use jwx.Jwe.Samples.{primitives, primitives-IsLawful}

abbrev cek : Bytes
cek = replicate 16 7

cek-IsWrappable : IsWrappable cek
cek-IsWrappable = record { blocks = refl; bytes = All-replicate (λ b. b < 256) 16 7 (omega arith) }

named : agreed_size "ECDH-ES+A128KW" "A128GCM" ≡ ok ("ECDH-ES+A128KW", 16)
unfolding agreed_size
named = refl

sent : derive_z primitives (ecdsa_key 1) (ecdsa_public 2) ≡ ok (replicate 32 5)
unfolding derive_z
sent = refl

received : derive_z primitives (ecdsa_key 2) (ecdsa_public 1) ≡ ok (replicate 32 5)
unfolding derive_z
received = refl

ecdhes_decrypt-ecdhes_encrypt_example :
    (w : Bytes) × (ecdhes_encrypt primitives "ECDH-ES+A128KW" "A128GCM" 16
        (ecdsa_public 2)
        (1 ∷ [])
        (2 ∷ [])
        (ecdsa_key 1)
        cek
      ≡ ok w)
    × (ecdhes_decrypt primitives "ECDH-ES+A128KW" "A128GCM"
          (ecdsa_public 1)
          (1 ∷ [])
          (2 ∷ [])
          (ecdsa_key 2)
          w
        ≡ ok cek)
ecdhes_decrypt-ecdhes_encrypt_example =
    ecdhes_decrypt-ecdhes_encrypt primitives primitives-IsLawful "ECDH-ES+A128KW" "A128GCM"
      "ECDH-ES+A128KW" 16 (ecdsa_public 2) (ecdsa_public 1) (1 ∷ []) (2 ∷ []) (replicate 32 5) cek
      (ecdsa_key 1) (ecdsa_key 2) named tt sent received cek-IsWrappable
