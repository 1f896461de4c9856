-- ===== src/Jwe/Content/Recovered.antt =====
-- The deferred `recover` of jwe/internal/cipher/cipher.go.
use jwx.Common.{
  ℕ, ◌<◌, ◌≡◌, ◌≢◌, refl, sym, [], ◌++◌, Outcome, ok, err, panic, ◌>>=◌, arith, length,
  Option-cases, inl, inr,
}
use jwx.Common.Bytes.{Bytes}
use jwx.Jwe.AesCbc.{Hmac, new, compute_auth_tag}
use jwx.Jwe.AesCbc.Setup.{new_sizes, new_returns, open_empty_panics}
use jwx.Jwe.Content.{
  Crypto, Fetcher, gcm, cbc, AesContentCipher, Error, fetch_aead, encrypt, decrypt, recovered,
  as_error, aead_of, no_aead, not_opened, not_sealed,
}

recovered_returns : {A : Type 0} (e : Error) (m : Outcome Error A) → recovered e m ≢ panic
recovered_returns e panic h = cc
recovered_returns e (err inner) h = cc
recovered_returns e (ok a) h = cc

as_error_returns : {E A : Type 0} (e : Error) (m : Outcome E A) → m ≢ panic → as_error e m ≢ panic
as_error_returns e panic n h = n refl
as_error_returns e (err inner) n h = cc
as_error_returns e (ok a) n h = cc

chain_returns :
    {A B : Type 0} (m : Outcome Error A) (f : A → Outcome Error B)
    → m ≢ panic
    → ((a : A) → f a ≢ panic)
    → (m >>= f) ≢ panic
chain_returns panic f n k h = n refl
chain_returns (err e) f n k h = cc
chain_returns (ok a) f n k h = k a h

module _ (crypto : Crypto) where
  fetch_returns : (f : Fetcher) (key : Bytes) → fetch_aead crypto f key ≢ panic
  unfolding fetch_aead
  fetch_returns gcm key h = elim (Option-cases (crypto.new_cipher key)) [
    | inl none_made ↦ ground (arith, none_made)
    | inr (block, made) ↦ elim (Option-cases (crypto.new_gcm block)) [
      | inl no_gcm ↦ ground (arith, made, no_gcm)
      | inr (aead, wrapped) ↦ ground (arith, made, wrapped)
    ]
  ]
  fetch_returns cbc key h =
      chain_returns (as_error no_aead (new key crypto.new_cipher)) (λ c. ok (aead_of crypto c))
        (as_error_returns no_aead (new key crypto.new_cipher) (new_returns key crypto.new_cipher))
        (λ c e. cc) h

  encrypt_returns :
      {F : Type 0} (c : AesContentCipher) (generate : ℕ → Outcome F Bytes)
      (cek plaintext aad : Bytes)
      → encrypt crypto c generate cek plaintext aad ≢ panic
  unfolding encrypt
  encrypt_returns c generate cek plaintext aad =
      chain_returns (fetch_aead crypto c.fetch cek) _ (fetch_returns c.fetch cek)
        (λ aead. recovered_returns not_sealed _)

  -- Nothing but the tag of an empty ciphertext, on which `Open` of aescbc panics, is refused with an error.
  opened_empty :
      (c : AesContentCipher) (cek iv aad : Bytes) (h : Hmac)
      → c.fetch ≡ cbc
      → new cek crypto.new_cipher ≡ ok h
      → length (compute_auth_tag crypto.mac h aad iv []) ≡ h.tagsize
      → 0 < h.block_cipher.block_size
      → length iv ≡ h.block_cipher.block_size
      → decrypt crypto c cek iv [] (compute_auth_tag crypto.mac h aad iv []) aad ≡ err not_opened
  unfolding decrypt fetch_aead
  opened_empty c cek iv aad h is_cbc made fits pos block =
      let same = (new_sizes cek crypto.new_cipher h made).1 in
      let panics = open_empty_panics crypto.mac h [] iv aad fits (sym same) pos block in
      rw (decrypt, is_cbc, fetch_aead, made, panics) refl

  -- `Encrypt` and `Decrypt` of every content cipher never panic, for all arguments and whatever the AEADs
  -- and the nonce generator do, panics among it.
  pub content_returns :
      {F : Type 0} (c : AesContentCipher) (generate : ℕ → Outcome F Bytes)
      (cek iv plaintext ciphertext tag aad : Bytes)
      → (encrypt crypto c generate cek plaintext aad ≢ panic)
        × (decrypt crypto c cek iv ciphertext tag aad ≢ panic)
  unfolding decrypt
  content_returns c generate cek iv plaintext ciphertext tag aad = (
    encrypt_returns c generate cek plaintext aad,
    chain_returns (fetch_aead crypto c.fetch cek) _ (fetch_returns c.fetch cek)
        (λ aead. recovered_returns not_opened (aead.open_sealed iv (ciphertext ++ tag) aad)),
  )
