-- ===== src/Jws/KeySets/Url.antt =====
-- What the provider of `WithVerifyAuto` of jws/key_provider.go hands to `Verify`.
use jwx.Common.{
  ◌≡◌, ◌⊎◌, inl, inr, sym, ap, ◌∙◌, true, ◌&&◌, not, Option, some, String, List, [], ◌∷◌, ok, arith,
  str_eq, eq_iff, Bool-cases, Option-cases,
}
use jwx.Fields.Values.{one_of}
use jwx.Jwk.KeySet.{KeyLike, KeySet, lookup_key_id}
use jwx.Jws.Verify.Sound.{Among}
use jwx.Jws.KeySets.Selected.{Among-sole}
use jwx.Jws.KeySets.{
  KeyInfo, HeaderInfo, algorithms_for_key, first_algorithm, keys_of_url, fetch_from_url,
}

module _ {K V : Type 0} (like : KeyLike K) (info : KeyInfo K) (scheme : String → Option String)
    (fetch : String → Option (KeySet K V)) (header : HeaderInfo) where
  first_algorithm_lem :
      (algs : List String) (key k : K) (alg : String)
      → Among (alg, k) (first_algorithm like info scheme fetch algs key header)
      → (k ≡ key) × (one_of alg algs ≡ true) × ((header.alg ≡ "") ⊎ (header.alg ≡ alg))
  unfolding first_algorithm one_of
  first_algorithm_lem [] key k alg among = elim among [ ]
  first_algorithm_lem (a ∷ algs) key k alg among =
      elim (Bool-cases (not (str_eq header.alg "") && not (str_eq header.alg a))) [
        | inl other ↦
            let (same, listed, agrees) = first_algorithm_lem algs key k alg (rw other at among) in
            (same, ground (arith, listed), agrees)
        | inr taken ↦
            let sole : (alg, k) ≡ (a, key) = Among-sole (rw taken at among) in
            let name : a ≡ alg = ap (λ p. p.0) (sym sole) in
            let agrees : (header.alg ≡ "") ⊎ (header.alg ≡ a) =
              ground (arith, eq_iff header.alg "", eq_iff header.alg a, taken) in
            (ap (λ p. p.1) sole, ground (arith, eq_iff alg a, name), rw name at agrees)
      ]

  -- What comes of the set that was fetched.
  abbrev pub OfSet : KeySet K V → String → K → Type 0
  OfSet set alg k =
      (lookup_key_id like set header.kid ≡ some k)
      × (algs : List String) × (algorithms_for_key (info.key_type k) ≡ some algs)
      × (one_of alg algs ≡ true)
      × ((header.alg ≡ "") ⊎ (header.alg ≡ alg))

  keys_of_url_lem :
      (set : KeySet K V) (sent : List (String × K)) (alg : String) (k : K)
      → keys_of_url like info scheme fetch header set ≡ ok sent
      → Among (alg, k) sent
      → OfSet set alg k
  unfolding keys_of_url
  keys_of_url_lem set sent alg k e among = elim (Option-cases (lookup_key_id like set header.kid)) [
    | inl missing ↦
        let empty : sent ≡ [] = ground (arith, missing) in
        let none_left : Among (alg, k) [] = rw empty at among in elim none_left [ ]
    | inr (key, found) ↦ elim (Option-cases (algorithms_for_key (info.key_type key))) [
      | inl unknown ↦ absurd (ground (arith, found, unknown))
      | inr (algs, known) ↦
          let all : sent ≡ first_algorithm like info scheme fetch algs key header =
            ground (arith, found, known) in
          let (same, listed, agrees) = first_algorithm_lem algs key k alg (rw all at among) in
          let back : key ≡ k = sym same in
          (found ∙ ap some back, algs, rw back at known, listed, agrees)
    ]
  ]

  -- A key and an algorithm that come from the set at `url`.
  abbrev pub FromUrl : KeySet K V → String → K → Type 0
  FromUrl set alg k =
      (scheme header.jku ≡ some "https") × (fetch header.jku ≡ some set) × OfSet set alg k

  -- What the provider of `WithVerifyAuto` sends: the first key with the header's key ID of the set that
  -- the fetcher gives for the header's URL, which has the scheme "https", with an algorithm for keys of its
  -- type, which is that of the header if this names one.
  pub fetch_from_url-FromUrl :
      (sent : List (String × K)) (alg : String) (k : K)
      → fetch_from_url like info scheme fetch header ≡ ok sent
      → Among (alg, k) sent
      → (set : KeySet K V) × FromUrl set alg k
  unfolding fetch_from_url
  fetch_from_url-FromUrl sent alg k e among = elim (Option-cases (scheme header.jku)) [
    | inl bad ↦ absurd (ground (arith, bad))
    | inr (s, parsed) ↦ elim (Option-cases (fetch header.jku)) [
      | inl missing ↦ absurd (ground (arith, parsed, missing))
      | inr (set, fetched) ↦
          let secure : str_eq s "https" ≡ true = ground (arith, parsed, fetched) in
          let from_set : keys_of_url like info scheme fetch header set ≡ ok sent =
            ground (arith, parsed, fetched, secure) in
          (
            set,
            (
              parsed ∙ ap some ((eq_iff s "https").0 secure),
              fetched,
              keys_of_url_lem set sent alg k from_set among,
            ),
          )
    ]
  ]
