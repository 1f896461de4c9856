-- ===== src/Jws/Sign/Stamped.antt =====
-- The headers that `Sign` of jws/jws.go stores, and those that `Signature.Sign` signs: without a public
-- header they are the same.
use jwx.Common.{
  ◌≡◌, ◌⊎◌, inl, inr, refl, sym, ap, ◌∙◌, true, false, Option, none, some, String, ok, arith,
  str_eq, eq_iff, if◌then◌else◌, Bool-cases, Option-cases,
}
use jwx.Fields.{no_fields, Schema, merge_headers}
use jwx.Fields.Values.{Value, text, algorithm, Decoders, one_of, accept_text}
use jwx.Fields.Laws.{IsValid, store, store-IsValid, set_field_lem, get-store, no_fields-IsValid}
use jwx.Fields.Merge.{copy_lem, get-no_fields}
use jwx.Fields.Built.{Built, after_set, Built-IsValid, Built-Settable}
use jwx.Fields.Pairs.{marshal_canonical}
use jwx.Jws.Headers.{
  Headers, header_schema, get, set, merge, signature_algorithms, is_standard, accept_header,
  accept_signature_algorithm, algorithm_name,
}
use jwx.Jws.Headers.Laws.{header_Idempotent}
use jwx.Jws.Signers.{Signer}
use jwx.Jws.Sign.{Services, stamp, header_json, marshal_header, get_b64}

module _ {K C X : Type 0} where
  alg_accepted :
      (alg : String)
      → one_of alg signature_algorithms ≡ true
      → accept_header {K = K} {C = C} {X = X} "alg" (algorithm alg) ≡ some (some (algorithm alg))
  unfolding accept_header accept_signature_algorithm algorithm_name
  alg_accepted alg known = rw known refl

  kid_accepted :
      (kid : String)
      → accept_header {K = K} {C = C} {X = X} "kid" (text kid) ≡ some (some (text kid))
  unfolding accept_header accept_text
  kid_accepted kid = refl

module _ {K C X Raw S : Type 0} (decoders : Decoders K C X Raw) (services : Services K C X S) where
  abbrev schema : Schema (Value K C X) Raw
  schema = header_schema decoders

  -- What `get` returns after "alg" and "kid" are set.
  abbrev pub overlay : Signer S → S → String → Option (Value K C X) → Option (Value K C X)
  overlay signer key n v =
      let base = if str_eq "alg" n then some (algorithm signer.algorithm) else v in
      elim (services.key_id key) [
        | none ↦ base
        | some kid ↦
            if str_eq kid "" then base else if str_eq "kid" n then some (text kid) else base
      ]

  overlay_again :
      (signer : Signer S) (key : S) (n : String) (v : Option (Value K C X))
      → overlay signer key n (overlay signer key n v) ≡ overlay signer key n v
  overlay_again signer key n v = ground arith

  -- `g` is `h` with the two set.
  pub record IsStamped (signer : Signer S) (key : S) (h g : Headers decoders) : Type 0 where
    pub stamp_eq : stamp decoders services signer key h ≡ ok g
    pub built : Built schema h → Built schema g
    pub valid : IsValid schema h → IsValid schema g
    pub looks : (n : String) → get decoders g n ≡ overlay signer key n (get decoders h n)

  set_alg :
      (h : Headers decoders) (alg : String)
      → one_of alg signature_algorithms ≡ true
      → (set decoders h "alg" (algorithm alg) ≡ ok (store schema h "alg" (some (algorithm alg))))
        × ((n : String)
            → get decoders (store schema h "alg" (some (algorithm alg))) n
              ≡ (if str_eq "alg" n then some (algorithm alg) else get decoders h n))
  unfolding set get is_standard
  set_alg h alg known =
      let taken = alg_accepted alg known in
      (
        set_field_lem schema h "alg" (algorithm alg) ∙ rw taken refl,
        λ n. get-store schema h "alg" n (some (algorithm alg)) (algorithm alg) taken,
      )

  set_kid :
      (h : Headers decoders) (kid : String)
      → (set decoders h "kid" (text kid) ≡ ok (store schema h "kid" (some (text kid))))
        × ((n : String)
            → get decoders (store schema h "kid" (some (text kid))) n
              ≡ (if str_eq "kid" n then some (text kid) else get decoders h n))
  unfolding set get is_standard
  set_kid h kid =
      let taken = kid_accepted kid in
      (
        set_field_lem schema h "kid" (text kid) ∙ rw taken refl,
        λ n. get-store schema h "kid" n (some (text kid)) (text kid) taken,
      )

  -- The three cases of the key ID.
  stamp_alg :
      (signer : Signer S) (key : S) (h : Headers decoders)
      → one_of signer.algorithm signature_algorithms ≡ true
      → (services.key_id key ≡ none) ⊎ (services.key_id key ≡ some "")
      → IsStamped signer key h (store schema h "alg" (some (algorithm signer.algorithm)))
  unfolding stamp get
  stamp_alg signer key h known how =
      let (is_set, looks) = set_alg h signer.algorithm known in
      record {
        stamp_eq = elim how [
          | inl bare ↦ rw (is_set, bare) refl
          | inr empty ↦ rw (is_set, empty) refl
        ];
        built = λ b.
            after_set "alg" (algorithm signer.algorithm)
              (store schema h "alg" (some (algorithm signer.algorithm))) b is_set;
        valid = λ v. store-IsValid schema h "alg" (some (algorithm signer.algorithm)) v;
        looks = λ n. looks n ∙ elim how [
          | inl bare ↦ rw (overlay, bare) refl
          | inr empty ↦ rw (overlay, empty) refl
        ];
      }

  stamp_kid :
      (signer : Signer S) (key : S) (h : Headers decoders) (kid : String)
      → one_of signer.algorithm signature_algorithms ≡ true
      → services.key_id key ≡ some kid
      → str_eq kid "" ≡ false
      → IsStamped signer key h (
          store schema
            (store schema h "alg" (some (algorithm signer.algorithm)))
            "kid"
            (some (text kid)))
  unfolding stamp get
  stamp_kid signer key h kid known named filled =
      let (is_set, looks) = set_alg h signer.algorithm known in
      let first = store schema h "alg" (some (algorithm signer.algorithm)) in
      let (again, looks2) = set_kid first kid in
      record {
        stamp_eq = rw (is_set, named, filled, again) refl;
        built = λ b.
            after_set "kid" (text kid) (store schema first "kid" (some (text kid)))
              (after_set "alg" (algorithm signer.algorithm) first b is_set) again;
        valid = λ v.
            store-IsValid schema first "kid" (some (text kid))
              (store-IsValid schema h "alg" (some (algorithm signer.algorithm)) v);
        looks = λ n. looks2 n ∙ rw (looks n, overlay, named, filled) refl;
      }

  pub stamp_lem :
      (signer : Signer S) (key : S) (h : Headers decoders)
      → one_of signer.algorithm signature_algorithms ≡ true
      → (g : Headers decoders) × IsStamped signer key h g
  stamp_lem signer key h known = elim (Option-cases (services.key_id key)) [
    | inl bare ↦ (_, stamp_alg signer key h known (inl bare))
    | inr (kid, named) ↦ elim (Bool-cases (str_eq kid "")) [
      | inl empty ↦
          (_, stamp_alg signer key h known (inr (named ∙ ap some ((eq_iff kid "").0 empty))))
      | inr filled ↦ (_, stamp_kid signer key h kid known named filled)
    ]
  ]

  -- Headers in which `Get` returns the same have the same JSON and the same "b64".
  pub same_text :
      (f g : Headers decoders)
      → IsValid schema f
      → IsValid schema g
      → ((n : String) → get decoders f n ≡ get decoders g n)
      → (marshal_header decoders services f ≡ marshal_header decoders services g)
        × (get_b64 decoders services f ≡ get_b64 decoders services g)
  unfolding marshal_header header_json get_b64 get
  same_text f g v w same = (
    rw
        (
          marshal_header,
          header_json,
          (marshal_canonical schema services.name_bytes services.encode_value f g v w same).1,
        )
        refl,
    rw (get_b64, same "b64") refl,
  )

  -- `Signature.Sign` without a public header signs a header that has the JSON and the "b64" of the
  -- protected one, if that was stamped before.
  pub merged_IsStamped :
      (signer : Signer S) (key : S) (h g : Headers decoders)
      → one_of signer.algorithm signature_algorithms ≡ true
      → Built schema h
      → IsStamped signer key h g
      → (m : Headers decoders) × (f : Headers decoders) × (merge decoders none (some g) ≡ ok m)
        × (stamp decoders services signer key m ≡ ok f)
        × (marshal_header decoders services f ≡ marshal_header decoders services g)
        × (get_b64 decoders services f ≡ get_b64 decoders services g)
  unfolding merge merge_headers get
  merged_IsStamped signer key h g known b stamped =
      let built_g = stamped.built b in
      let valid_g = Built-IsValid schema built_g in
      let (m, copied, valid_m, looks_m) =
        copy_lem schema g no_fields valid_g
          (Built-Settable schema (header_Idempotent decoders) built_g) (no_fields-IsValid schema) in
      let (f, again) = stamp_lem signer key m known in
      let same_m : (n : String) → get decoders m n ≡ get decoders g n =
        λ n. looks_m n ∙ ground (arith, get-no_fields schema n) in
      let same : (n : String) → get decoders f n ≡ get decoders g n = λ n.
        again.looks n
        ∙ ap (overlay signer key n) (same_m n ∙ stamped.looks n)
        ∙ overlay_again signer key n (get decoders h n)
        ∙ sym (stamped.looks n) in
      let (json, b64) = same_text f g (again.valid valid_m) valid_g same in
      (m, f, copied, again.stamp_eq, json, b64)
