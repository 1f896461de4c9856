-- ===== src/Jws/KeySets/Fetched.antt =====
-- Which keys and algorithms the provider of `WithKeySet` hands to `Verify`.
use jwx.Common.{
  ◌≡◌, ◌⊎◌, inl, inr, sym, ap, ◌∙◌, Bool, true, false, some, String, List, [], ◌∷◌, ◌++◌, ok, arith,
  str_eq, eq_iff, Bool-cases, Option-cases, ltb, length, get_elem?,
}
use jwx.Jwk.KeySet.{KeyLike, len, key_at, lookup_key_id}
use jwx.Jwk.KeySet.Search.{lookup_key_id_lem}
use jwx.Jws.Verify.Sound.{Among, here}
use jwx.Jws.KeySets.{
  KeyInfo, HeaderInfo, KeySetProvider, select_key, select_matching, select_each, select_default,
  fetch_from_set,
}
use jwx.Jws.KeySets.Selected.{
  Among-middle, Allowed, select_key-Sends, select_each-Selected, select_matching-Matching,
}

module _ {K V : Type 0} (like : KeyLike K) (info : KeyInfo K) (kp : KeySetProvider K V)
    (header : HeaderInfo) where
  -- The only key of the set, where there is at most one.
  sole_key :
      (keys : List K) (key : K)
      → ltb 1 (length keys) ≡ false
      → get_elem? keys 0 ≡ some key
      → keys ≡ key ∷ []
  sole_key [] key few at = cc
  sole_key (k ∷ []) key few at = ground arith
  sole_key (k ∷ j ∷ keys) key few at = absurd (ground arith)

  -- `k` is the key that `kid` asks for, or without a `kid` the only key of the set, as the default.
  abbrev pub Wanted : K → Type 0
  Wanted k =
      (like.key_id k ≡ header.kid)
      ⊎ ((header.kid ≡ "") × (kp.use_default ≡ true) × (kp.set.keys ≡ k ∷ []))

  abbrev pub Fetched : List (String × K) → Type 0
  Fetched sent =
      (alg : String) (k : K)
      → Among (alg, k) sent
      → Among k kp.set.keys
        × (Allowed like info kp header alg k × (kp.require_kid ≡ true → Wanted k))

  default_Fetched :
      (sent : List (String × K))
      → header.kid ≡ ""
      → select_default like info kp header ≡ ok sent
      → Fetched sent
  unfolding select_default len key_at
  default_Fetched sent no_kid e = elim (Option-cases (get_elem? kp.set.keys 0)) [
    | inl nothing ↦ absurd (ground (arith, nothing))
    | inr (key, found) ↦
        let few : ltb 1 (length kp.set.keys) ≡ false = ground (arith, found) in
        let default : kp.use_default ≡ true = ground (arith, found) in
        let chosen : select_key like info kp key header ≡ ok sent =
          ground (arith, found, few, default) in
        let sole : kp.set.keys ≡ key ∷ [] = sole_key kp.set.keys key few found in
        λ alg k among.
          let (same, allowed) = select_key-Sends like info kp header key sent chosen alg k among in
          let back : key ≡ k = sym same in
          let alone : kp.set.keys ≡ k ∷ [] = sole ∙ ap (λ x. x ∷ []) back in
          (rw alone here, (rw back at allowed, λ required. inr (no_kid, default, alone)))
  ]

  looked_up_Fetched :
      (sent : List (String × K)) (key : K)
      → lookup_key_id like kp.set header.kid ≡ some key
      → select_key like info kp key header ≡ ok sent
      → Fetched sent
  looked_up_Fetched sent key found e alg k among =
      let (same, allowed) = select_key-Sends like info kp header key sent e alg k among in
      elim (lookup_key_id_lem like header.kid kp.set) [
        | inl (missing, _) ↦ absurd (ground (arith, found, missing))
        | inr (front, first, back, is_first, split, id, _) ↦
            let it : first ≡ k = ground (arith, found, is_first, same) in
            let name : key ≡ k = sym same in
            let parts : kp.set.keys ≡ front ++ k ∷ back = split ∙ ap (λ x. front ++ x ∷ back) it in
            (
              rw parts (Among-middle k front back),
              (rw name at allowed, λ required. inl (ap like.key_id (sym it) ∙ id)),
            )
      ]

  -- What the provider of `WithKeySet` sends: each key is one of the set, for signatures or without a usage,
  -- with its own algorithm whatever the header says, or, if it has none and algorithms are inferred, with
  -- one for its type that is the header's if this names one. If a key ID is required the key has the one of
  -- the header, or the header has none, the default is allowed, and the key is the only one of the set.
  pub fetch_from_set-Fetched :
      (sent : List (String × K)) → fetch_from_set like info kp header ≡ ok sent → Fetched sent
  unfolding fetch_from_set
  fetch_from_set-Fetched sent e = elim (Bool-cases kp.require_kid) [
    | inr free ↦ λ alg k among.
        let each : sent ≡ select_each like info kp header kp.set.keys = ground (arith, free) in
        let (present, allowed) =
          select_each-Selected like info kp header kp.set.keys alg k (rw each at among) in
        (present, (allowed, λ required. absurd (ground (arith, free))))
    | inl required ↦ elim (Bool-cases (str_eq header.kid "")) [
      | inl no_kid ↦
          default_Fetched sent ((eq_iff header.kid "").0 no_kid) (ground (arith, required, no_kid))
      | inr named ↦ elim (Bool-cases kp.multiple_keys_per_key_id) [
        | inl several ↦
            let found : Bool × List (String × K) =
              select_matching like info kp header kp.set.keys in
            elim (Bool-cases (found.0)) [
              | inl some_key ↦ λ alg k among.
                  let all : sent ≡ found.1 = ground (arith, required, named, several, some_key) in
                  let (present, (allowed, id)) =
                    select_matching-Matching like info kp header kp.set.keys alg k
                      (rw all at among) in
                  (present, (allowed, λ required. inl id))
              | inr no_key ↦ absurd (ground (arith, required, named, several, no_key))
            ]
        | inr one ↦ elim (Option-cases (lookup_key_id like kp.set header.kid)) [
          | inl missing ↦ absurd (ground (arith, required, named, one, missing))
          | inr (key, found) ↦
              looked_up_Fetched sent key found (ground (arith, required, named, one, found))
        ]
      ]
    ]
  ]
