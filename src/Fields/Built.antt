-- ===== src/Fields/Built.antt =====
-- Objects of the generated files that are built by `Set` and `Remove` from an empty one.
use jwx.Common.{
  ◌≡◌, Option, some, String, arith, ok, str_eq, eq_iff, Bool-cases, Option-cases, inl, inr,
}
use jwx.Fields.{Schema, Fields, no_fields, set_field, remove_field}
use jwx.Fields.Laws.{
  IsValid, stored, store, get-store, no_fields-IsValid, set_field_lem, set_field-IsValid,
  remove_field-IsValid, get-remove_field,
}
use jwx.Fields.Merge.{Settable, get-no_fields}

module _ {V Raw : Type 0} (schema : Schema V Raw) where
  -- What a standard name stores for a value, it takes back as it is.
  abbrev pub Idempotent : Type 0
  Idempotent =
      (n : String) (v w : V) → schema.accept n v ≡ some (some w) → schema.accept n w ≡ some (some w)

  pub data Built : Fields V → Type 0 where
    fresh : Built no_fields
    after_set :
        {h : Fields V} (n : String) (v : V) (g : Fields V)
        → Built h
        → set_field schema h n v ≡ ok g
        → Built g
    after_remove : {h : Fields V} (n : String) → Built h → Built (remove_field schema h n)

  pub Built-IsValid : {h : Fields V} → Built h → IsValid schema h
  Built-IsValid fresh = no_fields-IsValid schema
  Built-IsValid (after_set {h} n v g b e) = set_field-IsValid schema h g n v e (Built-IsValid b)
  Built-IsValid (after_remove {h} n b) = remove_field-IsValid schema h n (Built-IsValid b)

  module _ (idem : Idempotent) where
    stored_again :
        (k : String) (v w : V)
        → stored schema k v ≡ some (some w)
        → stored schema k w ≡ some (some w)
    stored_again k v w e = ground (arith, idem k v w)

    store-Settable :
        (h : Fields V) (k : String) (v : V) (w : Option V)
        → stored schema k v ≡ some w
        → Settable schema h
        → Settable schema (store schema h k w)
    store-Settable h k v w e s n x look = elim (Bool-cases (str_eq k n)) [
      | inl same ↦
          let at : k ≡ n = (eq_iff k n).0 same in
          let kept : w ≡ some x = ground (arith, get-store schema h k n w v e) in
          rw at at (stored_again k v x (rw kept at e))
      | inr apart ↦ s n x (ground (arith, get-store schema h k n w v e))
    ]

    pub Built-Settable : {h : Fields V} → Built h → Settable schema h
    Built-Settable fresh = λ n v e. cc (get-no_fields schema n)
    Built-Settable (after_set {h} n v g b e) = elim (Option-cases (stored schema n v)) [
      | inl refused ↦ absurd (ground (arith, set_field_lem schema h n v, refused))
      | inr (w, taken) ↦
          let same : g ≡ store schema h n w = ground (arith, set_field_lem schema h n v, taken) in
          rw same (store-Settable h n v w taken (Built-Settable b))
    ]
    Built-Settable (after_remove {h} n b) =
        λ m v e. Built-Settable b m v (ground (arith, get-remove_field schema h n m))
