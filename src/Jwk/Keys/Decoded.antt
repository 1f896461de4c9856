-- ===== src/Jwk/Keys/Decoded.antt =====
-- Keys that `UnmarshalJSON` decodes: their fields are those that `Set` would take.
use jwx.Common.{
  ◌≡◌, refl, ◌∙◌, Bool, true, false, Option, none, some, String, List, [], ◌∷◌, arith, ok, str_eq,
  if◌then◌else◌,
}
use jwx.Fields.{
  Token, open_brace, close_brace, other_delimiter, not_a_name, member, no_fields, get_field,
  decode_member,
}
use jwx.Fields.Values.{one_of}
use jwx.Fields.Laws.{IsValid, no_fields-IsValid}
use jwx.Fields.Merge.{Settable, get-no_fields}
use jwx.Fields.Recovered.{
  Recoverable, Stores, decode_member-Stores, Stores-IsValid, get-Stores, Stores-Settable,
}
use jwx.Jwk.Values.{
  signature_alg, key_encryption_alg, invalid_alg, text, key_algorithm_from, accept_algorithm,
  accept_text, accept_bytes, accept_curve, accept_chain, accept_usage, accept_operations,
  operations, chain, curve, bytes, key_encryption_algorithms,
}
use jwx.Jws.Headers.{signature_algorithms}
use jwx.Jwk.Keys.{
  KeyKind, shape_of, KeyDecoders, field_of, accept_field, decode_field, key_schema, KeyFields,
}

-- The value in `w` is one that `f` takes as it is.
abbrev Taken : {V : Type 0} → Option V → (V → Option (Option V)) → Type 0
Taken {V} w f = (v : V) × (w ≡ some v) × (f v ≡ some (some v))

Taken-if :
    {V : Type 0} {x y : Option (Option V)} {f g : V → Option (Option V)} (w : Option V) (b : Bool)
    → (x ≡ some w → Taken w f)
    → (y ≡ some w → Taken w g)
    → (if b then x else y) ≡ some w
    → Taken w (λ v. if b then f v else g v)
Taken-if w true p q e = p e
Taken-if w false p q e = q e

Taken-field :
    {A V : Type 0} (wrap : A → V) (f : V → Option (Option V)) (o : Option A) (w : Option V)
    → ((a : A) → f (wrap a) ≡ some (some (wrap a)))
    → field_of wrap o ≡ some w
    → Taken w f
Taken-field wrap f none w r e = cc
Taken-field wrap f (some a) w r e = (wrap a, ground arith, r a)

module _ {C X : Type 0} where
  named_again :
      (sig enc : Bool) (s : String)
      → one_of s signature_algorithms ≡ sig
      → one_of s key_encryption_algorithms ≡ enc
      → accept_algorithm {C = C} {X = X}
          (if sig then signature_alg s else if enc then key_encryption_alg s else invalid_alg s)
        ≡ some (
            some (
              if sig then signature_alg s else if enc then key_encryption_alg s else invalid_alg s))
  unfolding accept_algorithm key_algorithm_from
  named_again true enc s p q = refl
  named_again false true s p q = rw p (rw q refl)
  named_again false false s p q = rw p (rw q refl)

  algorithm_again :
      (s : String)
      → accept_algorithm {C = C} {X = X} (key_algorithm_from s) ≡ some (some (key_algorithm_from s))
  unfolding key_algorithm_from
  algorithm_again s =
      named_again (one_of s signature_algorithms) (one_of s key_encryption_algorithms) s refl refl

module _ {C X Raw : Type 0} (decoders : KeyDecoders C X Raw) (k : KeyKind) where
  decode-accept : Recoverable (key_schema decoders k)
  unfolding decode_field accept_field accept_operations accept_text accept_bytes accept_curve
      accept_chain accept_usage
  decode-accept n raw w =
      Taken-if w (str_eq n "alg")
        (Taken-field key_algorithm_from accept_algorithm (decoders.as_text raw) w algorithm_again)
        (Taken-if w (str_eq n "key_ops")
          (Taken-field operations accept_operations (decoders.as_operations raw) w (λ l. refl))
          (Taken-if w (str_eq n "use")
            (Taken-field text accept_usage (decoders.as_text raw) w (λ s. refl))
            (Taken-if w (str_eq n "x5c")
              (Taken-field chain accept_chain (decoders.as_chain raw) w (λ c. refl))
              (Taken-if w (str_eq n "crv")
                (Taken-field curve accept_curve (decoders.as_text raw) w (λ s. refl))
                (Taken-if w (one_of n (shape_of k).byte_names)
                  (Taken-field bytes accept_bytes (decoders.as_bytes raw) w (λ b. refl))
                  (Taken-field text accept_text (decoders.as_text raw) w (λ s. refl)))))))

  -- The fields are valid, `Set` would take each of them as it is, and none is called "kty".
  pub record IsKey (h : KeyFields decoders) : Type 0 where
    pub valid : IsValid (key_schema decoders k) h
    pub settable : Settable (key_schema decoders k) h
    pub no_kty : get_field (key_schema decoders k) h "kty" ≡ none

  pub no_fields-IsKey : IsKey no_fields
  no_fields-IsKey = record {
    valid = no_fields-IsValid (key_schema decoders k);
    settable = λ n v e. cc (get-no_fields (key_schema decoders k) n);
    no_kty = get-no_fields (key_schema decoders k) "kty";
  }

  pub decode_member-IsKey :
      (h g : KeyFields decoders) (n : String) (raw : Raw)
      → str_eq n "kty" ≡ false
      → decode_member (key_schema decoders k) h n raw ≡ ok g
      → IsKey h
      → IsKey g
  decode_member-IsKey h g n raw other e key =
      let schema = key_schema decoders k in
      let stores : Stores schema h n g = decode_member-Stores schema h g n raw decode-accept e in
      record {
        valid = Stores-IsValid schema h g n stores key.valid;
        settable = Stores-Settable schema h g n stores key.settable;
        no_kty = get-Stores schema h g n "kty" stores other ∙ key.no_kty;
      }

  -- Every "kty" among the members up to the first closing brace has the name of the type of key.
  abbrev pub KtyAgrees : List (Token Raw) → Type 0
  KtyAgrees [] = Unit
  KtyAgrees (open_brace ∷ ts) = KtyAgrees ts
  KtyAgrees (close_brace ∷ ts) = Unit
  KtyAgrees (other_delimiter ∷ ts) = Unit
  KtyAgrees (not_a_name ∷ ts) = Unit
  KtyAgrees (member n raw ∷ ts) =
      (n ≡ "kty" → decoders.as_text raw ≡ some (shape_of k).kty) × KtyAgrees ts
