-- ===== src/Jws/KeySets/Panics.antt =====
-- When the provider of `WithKeySet` panics.
use jwx.Common.{
  ◌≡◌, ◌≢◌, ◌↔◌, inl, inr, refl, Bool, true, false, ◌&&◌, not, Option, none, some, String, List, [],
  ◌∷◌, Outcome, ok, err, panic, arith, str_eq, eq_iff, if◌then◌else◌, Bool-cases, Option-cases, ltb,
  length, get_elem?,
}
use jwx.Fields.Values.{one_of}
use jwx.Jwk.KeySet.{KeyLike, len, key_at, lookup_key_id}
use jwx.Jws.Headers.{signature_algorithms}
use jwx.Jws.KeySets.{
  KeyInfo, HeaderInfo, ProviderError, KeySetProvider, select_inferred, select_usable, select_key,
  select_matching, select_default, fetch_from_set, no_key_id, many_keys, key_not_found,
}

-- A conditional does not panic if neither of its branches does.
either_returns :
    {A E : Type 0} {x y : Outcome E A} (b : Bool)
    → x ≢ panic
    → y ≢ panic
    → (if b then x else y) ≢ panic
either_returns true p q = p
either_returns false p q = q

-- An empty list is what has no first element, and then only the default is tried.
no_first :
    {K A : Type 0} (keys : List K) (default : Bool)
    → get_elem? keys 0 ≡ none
    → ◌≡◌ {A = Outcome ProviderError A}
        (if not default
          then err no_key_id
          else if ltb 1 (length keys)
          then err many_keys
          else panic)
        panic
    → (default ≡ true) × (keys ≡ [])
no_first [] true at e = (refl, refl)
no_first [] false at e = cc
no_first (k ∷ keys) default at e = cc

module _ {K V : Type 0} (like : KeyLike K) (info : KeyInfo K) (kp : KeySetProvider K V)
    (header : HeaderInfo) where
  inferred_returns : (key : K) → select_inferred like info kp key header ≢ panic
  unfolding select_inferred
  inferred_returns key = λ e. ground arith

  usable_returns : (key : K) → select_usable like info kp key header ≢ panic
  unfolding select_usable
  usable_returns key =
      either_returns (not (str_eq (info.algorithm key) ""))
        (either_returns (one_of (info.algorithm key) signature_algorithms) (λ e. cc) (λ e. cc))
        (either_returns kp.infer_algorithm (inferred_returns key) (λ e. cc))

  select_key_returns : (key : K) → select_key like info kp key header ≢ panic
  unfolding select_key
  select_key_returns key =
      either_returns (not (str_eq (info.usage key) "") && not (str_eq (info.usage key) "sig"))
        (λ e. cc) (usable_returns key)

  default_returns :
      (key : K) (few : Bool)
      → (if not kp.use_default
          then err no_key_id
          else if few
          then err many_keys
          else select_key like info kp key header)
        ≢ panic
  default_returns key few =
      either_returns (not kp.use_default) (λ e. cc)
        (either_returns few (λ e. cc) (select_key_returns key))

  default_panics :
      (select_default like info kp header ≡ panic) ↔ ((kp.use_default ≡ true) × (kp.set.keys ≡ []))
  unfolding select_default len key_at
  default_panics = (
    λ e. elim (Option-cases (get_elem? kp.set.keys 0)) [
      | inl nothing ↦ no_first kp.set.keys kp.use_default nothing (rw nothing at e)
      | inr (key, found) ↦ absurd (default_returns key (ltb 1 (length kp.set.keys)) (rw found at e))
    ],
    λ (default, empty). rw (default, empty) refl,
  )

  named_returns :
      (o : Option K) (found : Bool × List (String × K))
      → (if not kp.multiple_keys_per_key_id
          then elim o [ none ↦ err key_not_found | some key ↦ select_key like info kp key header ]
          else if found.0
          then ok (found.1)
          else err key_not_found)
        ≢ panic
  named_returns none found =
      either_returns (not kp.multiple_keys_per_key_id) (λ e. cc)
        (either_returns (found.0) (λ e. cc) (λ e. cc))
  named_returns (some key) found =
      either_returns (not kp.multiple_keys_per_key_id) (select_key_returns key)
        (either_returns (found.0) (λ e. cc) (λ e. cc))

  -- The provider panics exactly if a key ID is required, the header has none, the default is allowed, and the
  -- set is empty: its first key is then nil.
  pub fetch_from_set_panics :
      (fetch_from_set like info kp header ≡ panic)
      ↔ ((kp.require_kid ≡ true) × (header.kid ≡ "") × (kp.use_default ≡ true) × (kp.set.keys ≡ []))
  unfolding fetch_from_set
  fetch_from_set_panics = (
    λ e. elim (Bool-cases kp.require_kid) [
      | inr free ↦ absurd (ground (arith, free))
      | inl required ↦ elim (Bool-cases (str_eq header.kid "")) [
        | inl no_kid ↦
            let (default, empty) = default_panics.0 (ground (arith, required, no_kid)) in
            (required, (eq_iff header.kid "").0 no_kid, default, empty)
        | inr named ↦ absurd (
            named_returns (lookup_key_id like kp.set header.kid)
              (select_matching like info kp header kp.set.keys) (rw (required, named) at e))
      ]
    ],
    λ (required, no_kid, default, empty).
        let blank : str_eq header.kid "" ≡ true = (eq_iff header.kid "").1 no_kid in
        rw (required, blank) (default_panics.1 (default, empty)),
  )
