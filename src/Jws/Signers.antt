-- ===== src/Jws/Signers.antt =====
-- jws/signer.go, and `makeSigner` of jws/jws.go: the signers that are registered, and the cache of those
-- that were made.
pub mod Cache
mod Tests
use jwx.Common.{Option, none, some, String, List, [], Outcome, ok, err, panic}
use jwx.Common.Bytes.{Bytes}
use jwx.Common.Assoc.{lookup, insert}

-- `S` is a key. `none` is the error of `Sign`.
pub record Signer (S : Type 0) : Type 0 where
  pub algorithm : String
  pub sign : Bytes → S → Option Bytes

-- `signerDB` and `signers`. A factory is what its `Create` returns; `none` is its error.
pub record Registry (S : Type 0) : Type 0 where
  pub signer_db : List (String × Option (Signer S))
  pub signers : List (String × Signer S)

module _ {S : Type 0} where
  -- `RegisterSigner`
  unfoldable pub register_signer : String → Option (Signer S) → Registry S → Registry S
  register_signer alg factory reg = record reg { signer_db = insert alg factory reg.signer_db }

  -- `NewSigner`; `none` is an unsupported algorithm, or the error of the factory.
  unfoldable pub new_signer : Registry S → String → Option (Signer S)
  new_signer reg alg = elim (lookup alg reg.signer_db) [ none ↦ none | some made ↦ made ]

  -- The signer in the result of `makeSigner`, and the globals after the call.
  unfoldable pub make_signer : Registry S → String → Registry S × Option (Signer S)
  unfolding new_signer
  make_signer reg alg = elim (lookup alg reg.signers) [
    | some signer ↦ (reg, some signer)
    | none ↦ elim (new_signer reg alg) [
      | none ↦ (reg, none)
      | some signer ↦ (record reg { signers = insert alg signer reg.signers }, some signer)
    ]
  ]
