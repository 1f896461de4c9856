-- ===== src/Jws/KeySets/Selected.antt =====
-- What `selectKey` of jws/key_provider.go sends, and the loops that call it.
use jwx.Common.{
  ◌≡◌, ◌≢◌, ◌⊎◌, inl, inr, refl, sym, ap, ◌∙◌, Bool, true, false, some, String, List, [], ◌∷◌, ◌++◌,
  Outcome, ok, err, panic, arith, str_eq, eq_iff, Bool-cases, Option-cases,
}
use jwx.Fields.Values.{one_of}
use jwx.Jwk.KeySet.{KeyLike}
use jwx.Jws.Headers.{signature_algorithms}
use jwx.Jws.Verify.Sound.{Among, here, there}
use jwx.Jws.KeySets.{
  KeyInfo, HeaderInfo, ProviderError, KeySetProvider, algorithms_for_key, pair_all, add_sent,
  select_inferred, select_usable, select_key, select_matching, select_each,
}

pub Among-sole : {X : Type 0} {x y : X} → Among x (y ∷ []) → x ≡ y
Among-sole here = refl
Among-sole (there none_left) = elim none_left [ ]

Among-append : {X : Type 0} (x : X) (xs ys : List X) → Among x (xs ++ ys) → Among x xs ⊎ Among x ys
Among-append x [] ys a = inr a
Among-append x (y ∷ xs) ys here = inl here
Among-append x (y ∷ xs) ys (there a) = elim (Among-append x xs ys a) [
  | inl front ↦ inl (there front)
  | inr back ↦ inr back
]

pub Among-middle : {X : Type 0} (x : X) (front back : List X) → Among x (front ++ x ∷ back)
Among-middle x [] back = here
Among-middle x (y ∷ front) back = there (Among-middle x front back)

pair_all_lem :
    {K : Type 0} (algs : List String) (key k : K) (alg : String)
    → Among (alg, k) (pair_all algs key)
    → (k ≡ key) × (one_of alg algs ≡ true)
unfolding pair_all one_of
pair_all_lem [] key k alg at = elim at [ ]
pair_all_lem (a ∷ algs) key k alg here = (refl, ground (arith, eq_iff a a))
pair_all_lem (a ∷ algs) key k alg (there at) =
    let (same, listed) = pair_all_lem algs key k alg at in (same, ground (arith, listed))

module _ {K V : Type 0} (like : KeyLike K) (info : KeyInfo K) (kp : KeySetProvider K V)
    (header : HeaderInfo) where
  -- The algorithm is that of the key itself.
  abbrev pub Own : String → K → Type 0
  Own alg key = (info.algorithm key ≡ alg) × (alg ≢ "") × (one_of alg signature_algorithms ≡ true)

  -- The key has none, and the algorithm is one for keys of its type, and that of the header if this has one.
  abbrev pub Inferred : String → K → Type 0
  Inferred alg key =
      (info.algorithm key ≡ "")
      × (kp.infer_algorithm ≡ true)
      × (algs : List String) × (algorithms_for_key (info.key_type key) ≡ some algs)
      × (one_of alg algs ≡ true)
      × ((header.alg ≡ "") ⊎ (header.alg ≡ alg))

  abbrev pub Allowed : String → K → Type 0
  Allowed alg key =
      ((info.usage key ≡ "") ⊎ (info.usage key ≡ "sig")) × (Own alg key ⊎ Inferred alg key)

  -- All that is sent is the key, with an algorithm that it may be used with.
  abbrev pub Sends : K → List (String × K) → Type 0
  Sends key sent = (alg : String) (k : K) → Among (alg, k) sent → (k ≡ key) × Allowed alg key

  sole_lem : (key : K) (a : String) → Allowed a key → Sends key ((a, key) ∷ [])
  sole_lem key a allowed alg k at =
      let same : (alg, k) ≡ (a, key) = Among-sole at in
      let name : a ≡ alg = ap (λ p. p.0) (sym same) in (ap (λ p. p.1) same, rw name at allowed)

  inferred_Sends :
      (key : K) (sent : List (String × K))
      → (info.usage key ≡ "") ⊎ (info.usage key ≡ "sig")
      → info.algorithm key ≡ ""
      → kp.infer_algorithm ≡ true
      → select_inferred like info kp key header ≡ ok sent
      → Sends key sent
  unfolding select_inferred
  inferred_Sends key sent used own infer e =
      elim (Option-cases (algorithms_for_key (info.key_type key))) [
        | inl nothing ↦ absurd (ground (arith, nothing))
        | inr (algs, found) ↦ elim (Bool-cases (str_eq header.alg "")) [
          | inl any ↦ λ alg k among.
              let all : sent ≡ pair_all algs key = ground (arith, found, any) in
              let (same, listed) = pair_all_lem algs key k alg (rw all at among) in
              (
                same,
                (used, inr (own, infer, algs, found, listed, inl ((eq_iff header.alg "").0 any))),
              )
          | inr named ↦ elim (Bool-cases (one_of header.alg algs)) [
            | inl listed ↦
                let sole : (header.alg, key) ∷ [] ≡ sent = ground (arith, found, named, listed) in
                let sends : Sends key ((header.alg, key) ∷ []) =
                  sole_lem key header.alg (used, inr (own, infer, algs, found, listed, inr refl)) in
                rw sole at sends
            | inr other ↦ absurd (ground (arith, found, named, other))
          ]
        ]
      ]

  nothing_Sends : (key : K) → Sends key []
  nothing_Sends key alg k at = elim at [ ]

  own_Sends :
      (key : K) (sent : List (String × K))
      → (info.usage key ≡ "") ⊎ (info.usage key ≡ "sig")
      → str_eq (info.algorithm key) "" ≡ false
      → select_usable like info kp key header ≡ ok sent
      → Sends key sent
  unfolding select_usable
  own_Sends key sent used named e =
      elim (Bool-cases (one_of (info.algorithm key) signature_algorithms)) [
        | inl listed ↦
            let sole : (info.algorithm key, key) ∷ [] ≡ sent = ground (arith, named, listed) in
            let filled : info.algorithm key ≢ "" =
              λ e. ground (arith, named, eq_iff (info.algorithm key) "") in
            let sends : Sends key ((info.algorithm key, key) ∷ []) =
              sole_lem key (info.algorithm key) (used, inl (refl, filled, listed)) in
            rw sole at sends
        | inr other ↦ absurd (ground (arith, named, other))
      ]

  unnamed_Sends :
      (key : K) (sent : List (String × K))
      → (info.usage key ≡ "") ⊎ (info.usage key ≡ "sig")
      → str_eq (info.algorithm key) "" ≡ true
      → select_usable like info kp key header ≡ ok sent
      → Sends key sent
  unfolding select_usable
  unnamed_Sends key sent used unnamed e = elim (Bool-cases kp.infer_algorithm) [
    | inl infer ↦
        inferred_Sends key sent used ((eq_iff (info.algorithm key) "").0 unnamed) infer
          (ground (arith, unnamed, infer))
    | inr never ↦
        let empty : [] ≡ sent = ground (arith, unnamed, never) in rw empty at (nothing_Sends key)
  ]

  usable_Sends :
      (key : K) (sent : List (String × K))
      → (info.usage key ≡ "") ⊎ (info.usage key ≡ "sig")
      → select_usable like info kp key header ≡ ok sent
      → Sends key sent
  usable_Sends key sent used e = elim (Bool-cases (str_eq (info.algorithm key) "")) [
    | inl unnamed ↦ unnamed_Sends key sent used unnamed e
    | inr named ↦ own_Sends key sent used named e
  ]

  pub select_key-Sends :
      (key : K) (sent : List (String × K))
      → select_key like info kp key header ≡ ok sent
      → Sends key sent
  unfolding select_key
  select_key-Sends key sent e = elim (Bool-cases (str_eq (info.usage key) "")) [
    | inl unset ↦
        usable_Sends key sent (inl ((eq_iff (info.usage key) "").0 unset)) (ground (arith, unset))
    | inr set ↦ elim (Bool-cases (str_eq (info.usage key) "sig")) [
      | inl sig ↦
          usable_Sends key sent (inr ((eq_iff (info.usage key) "sig").0 sig)) (ground (arith, sig))
      | inr other ↦
          let empty : [] ≡ sent = ground (arith, set, other) in rw empty at (nothing_Sends key)
    ]
  ]

  -- The pairs go back to keys of the list that may be used so, and have the key ID if `kid` is one.
  abbrev pub Selected : List K → List (String × K) → Type 0
  Selected keys sent = (alg : String) (k : K) → Among (alg, k) sent → Among k keys × Allowed alg k

  -- A pair behind the key `key` of a loop comes from it, or from the rest.
  from_either :
      (o : Outcome ProviderError (List (String × K))) (rest : List (String × K)) (key k : K)
      (alg : String)
      → ((sent : List (String × K)) → o ≡ ok sent → Sends key sent)
      → Among (alg, k) (elim o [ ok sent ↦ sent ++ rest | _ ↦ rest ])
      → ((k ≡ key) × Allowed alg k) ⊎ Among (alg, k) rest
  from_either panic rest key k alg s among = inr among
  from_either (err e) rest key k alg s among = inr among
  from_either (ok sent) rest key k alg s among = elim (Among-append (alg, k) sent rest among) [
    | inl own ↦
        let (same, allowed) = s sent refl alg k own in
        let back : key ≡ k = sym same in inl (same, rw back at allowed)
    | inr later ↦ inr later
  ]

  pub select_each-Selected : (keys : List K) → Selected keys (select_each like info kp header keys)
  unfolding select_each
  select_each-Selected [] alg k among = elim among [ ]
  select_each-Selected (key ∷ keys) alg k among =
      elim (from_either (select_key like info kp key header) (select_each like info kp header keys)
        key k alg (select_key-Sends key) among) [
          | inl (same, allowed) ↦ let back : key ≡ k = sym same in (rw same here, allowed)
          | inr later ↦
              let (in_rest, allowed) = select_each-Selected keys alg k later in
              (there in_rest, allowed)
        ]

  -- The key ID of the key is the one asked for.
  abbrev pub Matching : List K → List (String × K) → Type 0
  Matching keys sent =
      (alg : String) (k : K)
      → Among (alg, k) sent
      → Among k keys × (Allowed alg k × (like.key_id k ≡ header.kid))

  Matching-step :
      (key : K) (keys : List K) (o : Outcome ProviderError (List (String × K)))
      (rest : Bool × List (String × K))
      → ((sent : List (String × K)) → o ≡ ok sent → Sends key sent)
      → like.key_id key ≡ header.kid
      → Matching keys (rest.1)
      → Matching (key ∷ keys) ((add_sent o rest).1)
  Matching-step key keys panic rest s id m alg k among =
      let (in_rest, more) = m alg k among in (there in_rest, more)
  Matching-step key keys (err e) rest s id m alg k among =
      let (in_rest, more) = m alg k among in (there in_rest, more)
  Matching-step key keys (ok sent) rest s id m alg k among =
      elim (Among-append (alg, k) sent (rest.1) among) [
        | inl own ↦
            let (same, allowed) = s sent refl alg k own in
            let back : key ≡ k = sym same in
            (rw same here, (rw back at allowed, ap like.key_id same ∙ id))
        | inr later ↦ let (in_rest, more) = m alg k later in (there in_rest, more)
      ]

  skip_step :
      (key : K) (keys : List K) (sent : List (String × K))
      → Matching keys sent
      → Matching (key ∷ keys) sent
  skip_step key keys sent m alg k among =
      let (in_rest, more) = m alg k among in (there in_rest, more)

  pub select_matching-Matching :
      (keys : List K) → Matching keys ((select_matching like info kp header keys).1)
  unfolding select_matching
  select_matching-Matching [] = λ alg k among. elim among [ ]
  select_matching-Matching (key ∷ keys) = elim (Bool-cases (str_eq (like.key_id key) header.kid)) [
    | inl equal ↦ rw equal (
        Matching-step key keys (select_key like info kp key header)
          (select_matching like info kp header keys) (select_key-Sends key)
          ((eq_iff (like.key_id key) header.kid).0 equal) (select_matching-Matching keys))
    | inr differs ↦ rw differs (
        skip_step key keys ((select_matching like info kp header keys).1)
          (select_matching-Matching keys))
  ]
