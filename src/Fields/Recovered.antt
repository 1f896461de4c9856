-- ===== src/Fields/Recovered.antt =====
-- Objects that `UnmarshalJSON` of the generated files decodes: what it stores, `Set` takes.
use jwx.Common.{
  ◌≡◌, inl, inr, sym, ap, ◌∙◌, true, false, Option, some, String, arith, ok, str_eq, eq_iff,
  Bool-cases, Option-cases,
}
use jwx.Fields.{Schema, Fields, get_field, decode_member}
use jwx.Fields.Laws.{IsValid, stored, store, store-IsValid}
use jwx.Fields.Merge.{Settable, get-store-some}

module _ {V Raw : Type 0} (schema : Schema V Raw) where
  -- What is decoded for a standard name is no nil, and `Set` keeps it as it is.
  abbrev pub Recoverable : Type 0
  Recoverable =
      (n : String) (raw : Raw) (w : Option V)
      → schema.decode n raw ≡ some w
      → (v : V) × (w ≡ some v) × (schema.accept n v ≡ some (some v))

  -- A member that is decoded is stored as a value that `Set` keeps.
  abbrev pub Stores : Fields V → String → Fields V → Type 0
  Stores h n g = (v : V) × (g ≡ store schema h n (some v)) × (stored schema n v ≡ some (some v))

  known_Stores :
      (h g : Fields V) (n : String) (raw : Raw)
      → Recoverable
      → schema.known n ≡ true
      → decode_member schema h n raw ≡ ok g
      → Stores h n g
  unfolding decode_member
  known_Stores h g n raw r known e = elim (Option-cases (schema.decode n raw)) [
    | inl nothing ↦ absurd (ground (arith, nothing))
    | inr (w, decoded) ↦
        let (v, is_v, taken) = r n raw w decoded in
        (v, ground (arith, decoded, is_v), ground (arith, taken))
  ]

  unknown_Stores :
      (h g : Fields V) (n : String) (raw : Raw)
      → schema.known n ≡ false
      → decode_member schema h n raw ≡ ok g
      → Stores h n g
  unfolding decode_member
  unknown_Stores h g n raw unknown e = elim (Option-cases (schema.registry n raw)) [
    | inl nothing ↦ absurd (ground (arith, nothing))
    | inr (v, decoded) ↦ (v, ground (arith, decoded), ground arith)
  ]

  pub decode_member-Stores :
      (h g : Fields V) (n : String) (raw : Raw)
      → Recoverable
      → decode_member schema h n raw ≡ ok g
      → Stores h n g
  decode_member-Stores h g n raw r e = elim (Bool-cases (schema.known n)) [
    | inl known ↦ known_Stores h g n raw r known e
    | inr unknown ↦ unknown_Stores h g n raw unknown e
  ]

  pub Stores-IsValid :
      (h g : Fields V) (n : String) → Stores h n g → IsValid schema h → IsValid schema g
  Stores-IsValid h g n (v, same, taken) valid = rw same (store-IsValid schema h n (some v) valid)

  pub get-Stores :
      (h g : Fields V) (n m : String)
      → Stores h n g
      → str_eq n m ≡ false
      → get_field schema g m ≡ get_field schema h m
  get-Stores h g n m (v, same, taken) apart =
      rw same (ground (arith, get-store-some schema h n m v))

  pub Stores-Settable :
      (h g : Fields V) (n : String) → Stores h n g → Settable schema h → Settable schema g
  Stores-Settable h g n (v, same, taken) s m x look =
      let at : get_field schema (store schema h n (some v)) m ≡ some x = rw same at look in
      elim (Bool-cases (str_eq n m)) [
        | inl equal ↦
            let name : n ≡ m = (eq_iff n m).0 equal in
            let value : v ≡ x = ground (arith, get-store-some schema h n m v) in
            sym (ap (λ p. stored schema p x) name) ∙ rw value at taken
        | inr apart ↦ s m x (ground (arith, get-store-some schema h n m v))
      ]
