-- ===== src/Jwk/Keys/Parsed.antt =====
-- What `ParseKey` of jwk/jwk.go and `UnmarshalJSON` of the keys return, and `cloneKey` of it.
use jwx.Common.{
  ◌≡◌, ◌≢◌, inl, inr, refl, sym, ap, ◌∙◌, Bool, true, false, none, some, String, List, [], ◌∷◌,
  ◌++◌, arith, Outcome, ok, err, panic, str_eq, eq_iff, ◌&&◌, not, Bool-cases, Option-cases,
  >>=-eq-ok,
}
use jwx.Common.Assoc.{lookup}
use jwx.Common.Assoc.Distinct.{Distinct}
use jwx.Fields.{
  Error, Token, open_brace, close_brace, other_delimiter, not_a_name, member, no_fields, params,
  get_field, set_field, decode_member,
}
use jwx.Fields.Values.{one_of}
use jwx.Fields.Laws.{stored, store, set_field_lem}
use jwx.Fields.Merge.{store_all, get-store_all, Accepted, get-no_fields}
use jwx.Fields.Pairs.{Distinct-all, lookup-all}
use jwx.Jwk.Values.{Value}
use jwx.Jwk.Keys.{
  KeyKind, KeyError, shape_of, KeyDecoders, key_schema, KeyFields, decode_key, check_required,
  unmarshal, get, set, set_all, make_pairs, clone_key, parse_key, kind_of_hint, bad_member,
}
use jwx.Jwk.Keys.Decoded.{IsKey, no_fields-IsKey, decode_member-IsKey, KtyAgrees}

-- The member that was decoded, when the rest succeeds.
decoded_ok :
    {A B : Type 0} (o : Outcome Error A) (f : A → Outcome KeyError B) (b : B)
    → (elim o [ panic ↦ panic | err e ↦ err (bad_member e) | ok a ↦ f a ]) ≡ ok b
    → (a : A) × (o ≡ ok a) × (f a ≡ ok b)
decoded_ok panic f b e = cc
decoded_ok (err x) f b e = cc
decoded_ok (ok a) f b e = (a, refl, e)

module _ {C X Raw : Type 0} (decoders : KeyDecoders C X Raw) (k : KeyKind) where
  decode_kty :
      (n : String) (raw : Raw) (ts : List (Token Raw)) (h g : KeyFields decoders)
      → str_eq n "kty" ≡ true
      → decode_key decoders k h (member n raw ∷ ts) ≡ ok g
      → (decoders.as_text raw ≡ some (shape_of k).kty) × (decode_key decoders k h ts ≡ ok g)
  unfolding decode_key
  decode_kty n raw ts h g at e = elim (Option-cases (decoders.as_text raw)) [
    | inl nothing ↦ absurd (ground (arith, nothing))
    | inr (s, found) ↦ elim (Bool-cases (str_eq s (shape_of k).kty)) [
      | inl same ↦
          (found ∙ ap some ((eq_iff s (shape_of k).kty).0 same), ground (arith, found, same))
      | inr wrong ↦ absurd (ground (arith, found, wrong))
    ]
  ]

  decode_other :
      (n : String) (raw : Raw) (ts : List (Token Raw)) (h g : KeyFields decoders)
      → str_eq n "kty" ≡ false
      → decode_key decoders k h (member n raw ∷ ts) ≡ ok g
      → (f : KeyFields decoders) × (decode_member (key_schema decoders k) h n raw ≡ ok f)
        × (decode_key decoders k f ts ≡ ok g)
  unfolding decode_key
  decode_other n raw ts h g other e =
      decoded_ok (decode_member (key_schema decoders k) h n raw) (λ f. decode_key decoders k f ts) g
        (rw other at e)

  decode_key-IsKey :
      (ts : List (Token Raw)) (h g : KeyFields decoders)
      → decode_key decoders k h ts ≡ ok g
      → IsKey decoders k h
      → IsKey decoders k g × KtyAgrees decoders k ts
  unfolding decode_key
  decode_key-IsKey [] h g e key = cc
  decode_key-IsKey (open_brace ∷ ts) h g e key = decode_key-IsKey ts h g e key
  decode_key-IsKey (close_brace ∷ ts) h g e key =
      let same : h ≡ g = ground arith in (rw (sym same) key, tt)
  decode_key-IsKey (other_delimiter ∷ ts) h g e key = cc
  decode_key-IsKey (not_a_name ∷ ts) h g e key = cc
  decode_key-IsKey (member n raw ∷ ts) h g e key = elim (Bool-cases (str_eq n "kty")) [
    | inl is_kty ↦
        let (agrees, rest) = decode_kty n raw ts h g is_kty e in
        let (is_key, others) = decode_key-IsKey ts h g rest key in
        (is_key, ((λ at. agrees), others))
    | inr other ↦
        let (f, decoded, rest) = decode_other n raw ts h g other e in
        let (is_key, others) =
          decode_key-IsKey ts f g rest
            (decode_member-IsKey decoders k h f n raw other decoded key) in
        (is_key, ((λ at. absurd (ground (arith, eq_iff n "kty"))), others))
  ]

  -- The names are all there.
  abbrev pub AllPresent : KeyFields decoders → List String → Type 0
  AllPresent h names =
      (n : String) → one_of n names ≡ true → get_field (key_schema decoders k) h n ≢ none

  check_required-AllPresent :
      (names : List String) (h g : KeyFields decoders)
      → check_required decoders k h names ≡ ok g
      → (h ≡ g) × AllPresent h names
  unfolding check_required one_of
  check_required-AllPresent [] h g e = (ground arith, λ n at. absurd (ground arith))
  check_required-AllPresent (m ∷ names) h g e =
      elim (Option-cases (get_field (key_schema decoders k) h m)) [
        | inl nothing ↦ absurd (ground (arith, nothing))
        | inr (v, found) ↦
            let (same, rest) = check_required-AllPresent names h g (ground (arith, found)) in
            (
              same,
              λ n at. elim (Bool-cases (str_eq n m)) [
                | inl here ↦ λ missing.
                    let name : n ≡ m = (eq_iff n m).0 here in
                    absurd (ground (arith, found, rw name at missing))
                | inr there ↦ rest n (ground (arith, there))
              ],
            )
      ]

  set_lem :
      (dst : KeyFields decoders) (n : String) (v : Value C X)
      → str_eq n "kty" ≡ false
      → stored (key_schema decoders k) n v ≡ some (some v)
      → set decoders k dst n v ≡ ok (store (key_schema decoders k) dst n (some v))
  unfolding set
  set_lem dst n v other own =
      let schema = key_schema decoders k in
      let taken : set_field schema dst n v ≡ ok (store schema dst n (some v)) =
        set_field_lem schema dst n v ∙ rw own refl in
      rw other taken

  same_get :
      (h g : KeyFields decoders) (n : String)
      → get_field (key_schema decoders k) g n ≡ get_field (key_schema decoders k) h n
      → get decoders k g n ≡ get decoders k h n
  unfolding get
  same_get h g n e = rw e refl

  -- The loop of `cloneKey` stores every pair whose value `Set` takes as it is.
  set_all_lem :
      (pairs : List (String × Value C X)) (dst : KeyFields decoders)
      → Distinct pairs
      → lookup "kty" pairs ≡ none
      → Accepted (key_schema decoders k) pairs
      → set_all decoders k pairs dst ≡ ok (store_all (key_schema decoders k) pairs dst)
  unfolding set_all set store_all lookup
  set_all_lem [] dst d no_kty a = refl
  set_all_lem ((n, v) ∷ pairs) dst d no_kty a =
      let schema = key_schema decoders k in
      let own : stored schema n v ≡ some (some v) = a n v (ground (arith, eq_iff n n)) in
      rw (set_lem dst n v (ground arith) own) (
        set_all_lem pairs (store schema dst n (some v)) (d.1) (ground arith)
          (λ m w e. a m w (ground (arith, eq_iff n m, d.0, e))))

  clone_key_lem :
      (h : KeyFields decoders)
      → IsKey decoders k h
      → (g : KeyFields decoders) × (clone_key decoders k h ≡ ok g)
        × ((n : String) → get decoders k g n ≡ get decoders k h n)
  unfolding clone_key set_all set make_pairs
  clone_key_lem h key =
      let schema = key_schema decoders k in
      let pairs = h.standard ++ params h in
      let distinct : Distinct pairs = Distinct-all schema h key.valid in
      let looks : (n : String) → lookup n pairs ≡ get_field schema h n =
        λ n. lookup-all schema h n key.valid in
      (
        store_all schema pairs no_fields,
        set_all_lem pairs no_fields distinct (looks "kty" ∙ key.no_kty)
            (λ n v e. key.settable n v (sym (looks n) ∙ e)),
        λ n. same_get h (store_all schema pairs no_fields) n (
            get-store_all schema n pairs no_fields distinct
            ∙ ground (arith, looks n, get-no_fields schema n)),
      )

  -- A key that `UnmarshalJSON` of a new key returns: every "kty" of the JSON object named the type; each
  -- required field is there; and `cloneKey` succeeds, with a key for which `Get` returns the same.
  pub unmarshal-clone_key :
      (ts : List (Token Raw)) (h : KeyFields decoders)
      → unmarshal decoders k no_fields ts ≡ ok h
      → KtyAgrees decoders k ts
        × AllPresent h (shape_of k).required
        × (g : KeyFields decoders) × (clone_key decoders k h ≡ ok g)
        × ((n : String) → get decoders k g n ≡ get decoders k h n)
  unfolding unmarshal
  unmarshal-clone_key ts h e =
      let (f, decoded, checked) = >>=-eq-ok (decode_key decoders k no_fields ts) _ e in
      let (is_key, agrees) = decode_key-IsKey ts no_fields f decoded (no_fields-IsKey decoders k) in
      let (same, present) = check_required-AllPresent (shape_of k).required f h checked in
      let (g, cloned, looks) = clone_key_lem h (rw same at is_key) in
      (agrees, rw same at present, g, cloned, looks)

named_once : (n a b : String) → str_eq n a ≡ true → str_eq a b ≡ false → str_eq n b ≡ false
named_once n a b is_a apart = ap (λ m. str_eq m b) ((eq_iff n a).0 is_a) ∙ apart

kind_of_hint_lem :
    {C X Raw : Type 0} (decoders : KeyDecoders C X Raw) (kty : String) (has_d : Bool) (k : KeyKind)
    → kind_of_hint decoders kty has_d ≡ some k
    → ((shape_of k).kty ≡ kty)
      × (one_of "d" (shape_of k).required ≡ (has_d && not (str_eq kty "oct")))
unfolding kind_of_hint one_of
kind_of_hint_lem decoders kty has_d k e = ground (
  arith,
  eq_iff kty "RSA",
  eq_iff kty "EC",
  eq_iff kty "oct",
  eq_iff kty "OKP",
  λ (is_rsa : str_eq kty "RSA" ≡ true). named_once kty "RSA" "oct" is_rsa refl,
  λ (is_ec : str_eq kty "EC" ≡ true). named_once kty "EC" "oct" is_ec refl,
)

module _ {C X Raw : Type 0} (decoders : KeyDecoders C X Raw) where
  -- A key that `ParseKey` returns for JSON is of the type that "kty" names, a private one of RSA, EC or OKP
  -- exactly if "d" is not empty; its required fields are there, "d" among them where it is private, and
  -- every "kty" of the object is the name of the type.
  pub parse_key_sound :
      (kty : String) (has_d : Bool) (ts : List (Token Raw)) (k : KeyKind) (h : KeyFields decoders)
      → parse_key decoders (some (kty, has_d)) ts ≡ ok (k, h)
      → ((shape_of k).kty ≡ kty)
        × (one_of "d" (shape_of k).required ≡ (has_d && not (str_eq kty "oct")))
        × KtyAgrees decoders k ts
        × AllPresent decoders k h (shape_of k).required
  unfolding parse_key
  parse_key_sound kty has_d ts k h e = elim (Option-cases (kind_of_hint decoders kty has_d)) [
    | inl nothing ↦ absurd (ground (arith, nothing))
    | inr (j, hinted) ↦
        let (f, decoded, last) =
          >>=-eq-ok (unmarshal decoders j no_fields ts) (λ f. ok (j, f))
            (rw (hinted, parse_key) at e) in
        let kind : j ≡ k = ground arith in
        let fields : f ≡ h = ground arith in
        let (named, private_key) = kind_of_hint_lem decoders kty has_d k (hinted ∙ ap some kind) in
        let (agrees, present, _, _, _) =
          unmarshal-clone_key decoders k ts h (rw kind at (rw fields at decoded)) in
        (named, private_key, agrees, present)
  ]
