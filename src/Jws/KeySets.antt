-- ===== src/Jws/KeySets.antt =====
-- jws/key_provider.go: the providers of `WithKeySet` and `WithVerifyAuto`; `AlgorithmsForKey` of jws/jws.go.
pub mod Selected
pub mod Fetched
pub mod Panics
pub mod Url
mod Tests
use jwx.Common.{
  ℕ, Bool, true, false, ◌&&◌, ◌||◌, not, Option, none, some, String, List, [], ◌∷◌, ◌++◌, map,
  Outcome, ok, err, panic, ◌>>=◌, ltb, str_eq, if◌then◌else◌,
}
use jwx.Common.Int.{pos}
use jwx.Fields.Values.{one_of}
use jwx.Jwk.KeySet.{KeyLike, KeySet, len, key_at, lookup_key_id}
use jwx.Jws.Headers.{signature_algorithms}

-- What the providers read of a key: `KeyUsage()`, the string of `Algorithm()`, and `KeyType()`.
pub record KeyInfo (K : Type 0) : Type 0 where
  pub usage : K → String
  pub algorithm : K → String
  pub key_type : K → String

-- What they read of the protected header: `KeyID()`, `Algorithm()` and `JWKSetURL()`.
pub record HeaderInfo : Type 0 where
  pub kid : String
  pub alg : String
  pub jku : String

pub data ProviderError : Type 0 where
  invalid_algorithm no_algorithms other_algorithm no_key_id many_keys key_not_found : ProviderError
  empty_url bad_url not_https not_fetched : ProviderError

-- `keySetProvider`
pub record KeySetProvider (K V : Type 0) : Type 0 where
  pub set : KeySet K V
  pub require_kid : Bool
  pub use_default : Bool
  pub infer_algorithm : Bool
  pub multiple_keys_per_key_id : Bool

-- `AlgorithmsForKey`, by the type of the key.
unfoldable pub algorithms_for_key : String → Option (List String)
algorithms_for_key kty =
    if str_eq kty "OKP"
    then some ("EdDSA" ∷ [])
    else if str_eq kty "oct"
    then some ("HS256" ∷ "HS384" ∷ "HS512" ∷ [])
    else if str_eq kty "RSA"
    then some ("RS256" ∷ "RS384" ∷ "RS512" ∷ "PS256" ∷ "PS384" ∷ "PS512" ∷ [])
    else if str_eq kty "EC"
    then some ("ES256" ∷ "ES384" ∷ "ES512" ∷ [])
    else none

-- `sink.Key` of each algorithm.
unfoldable pub pair_all : {K : Type 0} → List String → K → List (String × K)
pair_all [] key = []
pair_all (alg ∷ algs) key = (alg, key) ∷ pair_all algs key

-- What the body of the loop for a key ID adds to the rest: the Boolean is `ok`.
abbrev pub add_sent : {P : Type 0} → Outcome ProviderError (List P) → Bool × List P → Bool × List P
add_sent panic rest = rest
add_sent (err e) rest = rest
add_sent (ok sent) rest = (true, sent ++ rest.1)

module _ {K V : Type 0} (like : KeyLike K) (info : KeyInfo K) (kp : KeySetProvider K V) where
  -- The case of `selectKey` for a key without an algorithm.
  unfoldable pub select_inferred : K → HeaderInfo → Outcome ProviderError (List (String × K))
  unfolding algorithms_for_key one_of pair_all
  select_inferred key header = elim (algorithms_for_key (info.key_type key)) [
    | none ↦ err no_algorithms
    | some algs ↦
        if str_eq header.alg ""
        then ok (pair_all algs key)
        else if one_of header.alg algs
        then ok ((header.alg, key) ∷ [])
        else err other_algorithm
  ]

  -- `selectKey` behind the test of the usage.
  unfoldable pub select_usable : K → HeaderInfo → Outcome ProviderError (List (String × K))
  unfolding select_inferred
  select_usable key header =
      if not (str_eq (info.algorithm key) "")
      then (if one_of (info.algorithm key) signature_algorithms
          then ok ((info.algorithm key, key) ∷ [])
          else err invalid_algorithm)
      else if kp.infer_algorithm
      then select_inferred key header
      else ok []

  -- The result is what is sent to the sink.
  unfoldable pub select_key : K → HeaderInfo → Outcome ProviderError (List (String × K))
  unfolding select_usable
  select_key key header =
      if not (str_eq (info.usage key) "") && not (str_eq (info.usage key) "sig")
      then ok []
      else select_usable key header

  -- The two loops over the set, which go on after an error.
  unfoldable pub select_matching : HeaderInfo → List K → Bool × List (String × K)
  unfolding select_key
  select_matching header [] = (false, [])
  select_matching header (key ∷ keys) =
      let rest = select_matching header keys in
      if str_eq (like.key_id key) header.kid then add_sent (select_key key header) rest else rest

  unfoldable pub select_each : HeaderInfo → List K → List (String × K)
  unfolding select_key
  select_each header [] = []
  select_each header (key ∷ keys) =
      let rest = select_each header keys in
      elim (select_key key header) [ ok sent ↦ sent ++ rest | _ ↦ rest ]

  -- The case without a key ID. `selectKey` of a nil key panics.
  unfoldable pub select_default : HeaderInfo → Outcome ProviderError (List (String × K))
  unfolding select_key
  select_default header =
      if not kp.use_default
      then err no_key_id
      else if ltb 1 (len kp.set)
      then err many_keys
      else elim (key_at kp.set (pos 0)) [ none ↦ panic | some key ↦ select_key key header ]

  unfoldable pub fetch_from_set : HeaderInfo → Outcome ProviderError (List (String × K))
  unfolding select_default select_matching select_each
  fetch_from_set header =
      if not kp.require_kid
      then ok (select_each header kp.set.keys)
      else if str_eq header.kid ""
      then select_default header
      else if not kp.multiple_keys_per_key_id
      then elim (lookup_key_id like kp.set header.kid) [
        | none ↦ err key_not_found
        | some key ↦ select_key key header
      ]
      else (let found = select_matching header kp.set.keys in
          if found.0 then ok (found.1) else err key_not_found)

-- `jkuProvider`: `scheme` is `url.Parse`, `fetch` the fetcher with its whitelist.
module _ {K V : Type 0} (like : KeyLike K) (info : KeyInfo K) (scheme : String → Option String)
    (fetch : String → Option (KeySet K V)) where
  -- The loop over the algorithms.
  unfoldable pub first_algorithm : List String → K → HeaderInfo → List (String × K)
  first_algorithm [] key header = []
  first_algorithm (alg ∷ algs) key header =
      let rest = first_algorithm algs key header in
      if not (str_eq header.alg "") && not (str_eq header.alg alg) then rest else (alg, key) ∷ []

  unfoldable pub keys_of_url : HeaderInfo → KeySet K V → Outcome ProviderError (List (String × K))
  unfolding algorithms_for_key first_algorithm
  keys_of_url header set = elim (lookup_key_id like set header.kid) [
    | none ↦ ok []
    | some key ↦ elim (algorithms_for_key (info.key_type key)) [
      | none ↦ err no_algorithms
      | some algs ↦ ok (first_algorithm algs key header)
    ]
  ]

  unfoldable pub fetch_from_url : HeaderInfo → Outcome ProviderError (List (String × K))
  unfolding keys_of_url
  fetch_from_url header =
      if str_eq header.kid ""
      then err no_key_id
      else if str_eq header.jku ""
      then err empty_url
      else elim (scheme header.jku) [
        | none ↦ err bad_url
        | some s ↦ if not (str_eq s "https") then err not_https else elim (fetch header.jku) [
          | none ↦ err not_fetched
          | some set ↦ keys_of_url header set
        ]
      ]
