-- ===== src/Jwe/Recipients/Names.antt =====
-- The names of the algorithms in jwe/jwe.go and jwe/decrypt.go.
use jwx.Common.{
  ℕ, ◌≡◌, ap, Bool, true, false, ◌||◌, not, Option, none, some, String, List, [], ◌∷◌, arith,
  str_eq, eq_iff, All, Bool-cases, inl, inr,
}
use jwx.Crypto.{HashFunc}
use jwx.Fields.Values.{one_of}
use jwx.Jwe.KeyEncryption.{pbes2_parameters}
use jwx.Jwe.Decrypter.{key_wrap_names, agreement_names, gcm_names, is_symmetric}
use jwx.Jwe.Recipients.{shared_key_names, pbes2_names}

abbrev pub has : {A : Type 0} → Option A → Bool
has none = false
has (some a) = true

-- How the two sides read the name of an algorithm for a shared key.
pub record NamedAs (alg : String) (wraps : Bool) (derives : Option (HashFunc × ℕ)) (direct : Bool)
    : Type 0 where
  pub pkcs1 : str_eq alg "RSA1_5" ≡ false
  pub oaep : (str_eq alg "RSA-OAEP" || str_eq alg "RSA-OAEP-256") ≡ false
  pub shares : one_of alg shared_key_names ≡ not direct
  pub agreement : one_of alg agreement_names ≡ false
  pub key_wrap : one_of alg key_wrap_names ≡ wraps
  pub pbes2 : one_of alg pbes2_names ≡ has derives
  pub parameters : pbes2_parameters alg ≡ derives
  pub agrees : str_eq alg "ECDH-ES" ≡ false
  pub dir : str_eq alg "dir" ≡ direct
  pub symmetric : is_symmetric alg ≡ true
  pub gcm : one_of alg gcm_names ≡ not (wraps || (has derives || direct))

abbrev pub reading : String → List Bool × Option (HashFunc × ℕ)
reading alg = (
  str_eq alg "RSA1_5"
      ∷ (str_eq alg "RSA-OAEP" || str_eq alg "RSA-OAEP-256")
      ∷ one_of alg shared_key_names
      ∷ one_of alg agreement_names
      ∷ one_of alg key_wrap_names
      ∷ one_of alg pbes2_names
      ∷ str_eq alg "ECDH-ES"
      ∷ str_eq alg "dir"
      ∷ is_symmetric alg
      ∷ one_of alg gcm_names
      ∷ [],
  pbes2_parameters alg,
)

pub named_as :
    (alg : String) {wraps direct : Bool} {derives : Option (HashFunc × ℕ)}
    → reading alg ≡ (
      false
          ∷ false
          ∷ not direct
          ∷ false
          ∷ wraps
          ∷ has derives
          ∷ false
          ∷ direct
          ∷ true
          ∷ not (wraps || (has derives || direct))
          ∷ [],
      derives,
    )
    → NamedAs alg wraps derives direct
named_as alg {wraps} {direct} {derives} e =
    let l = ap (λ r. r.0) e in
    record {
      pkcs1 = cc;
      oaep = cc;
      shares = cc;
      agreement = cc;
      key_wrap = cc;
      pbes2 = cc;
      parameters = ap (λ r. r.1) e;
      agrees = cc;
      dir = cc;
      symmetric = cc;
      gcm = cc;
    }

abbrev pub symmetric_names : List String
symmetric_names =
    "A128GCMKW" ∷ "A128KW" ∷ "A192GCMKW" ∷ "A192KW" ∷ "A256GCMKW" ∷ "A256KW" ∷ "dir"
    ∷ "PBES2-HS256+A128KW" ∷ "PBES2-HS384+A192KW" ∷ "PBES2-HS512+A256KW" ∷ []

pub one_of_elim :
    (P : String → Type 0) (names : List String) (n : String)
    → All P names
    → one_of n names ≡ true
    → P n
unfolding one_of
one_of_elim P [] n each e = absurd (ground arith)
one_of_elim P (m ∷ names) n each e = elim (Bool-cases (str_eq n m)) [
  | inl same ↦ rw ((eq_iff n m).0 same) each.0
  | inr apart ↦ one_of_elim P names n each.1 (rw apart at e)
]
