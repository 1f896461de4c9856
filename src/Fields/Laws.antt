-- ===== src/Fields/Laws.antt =====
-- `Get`, `Set` and `Remove` of the generated objects.
use jwx.Common.{
  ◌≡◌, inl, inr, refl, ◌∙◌, true, false, Option, none, some, String, List, ok, err, arith, str_eq,
  eq_iff, if◌then◌else◌, Bool-cases, Option-cases,
}
use jwx.Common.Assoc.{lookup, insert, delete, lookup-insert, lookup-delete}
use jwx.Common.Assoc.Distinct.{Distinct, Distinct-insert, Distinct-delete}
use jwx.Fields.{
  Schema, Fields, no_fields, params, assign, get_field, set_field, remove_field, invalid_value,
}

module _ {V Raw : Type 0} (schema : Schema V Raw) where
  -- The fields have standard names and the map has others, and no name stands twice.
  pub record IsValid (h : Fields V) : Type 0 where
    pub fields_distinct : Distinct h.standard
    pub params_distinct : Distinct (params h)
    pub fields_known : (n : String) → schema.known n ≡ false → lookup n h.standard ≡ none
    pub params_unknown : (n : String) → schema.known n ≡ true → lookup n (params h) ≡ none

  pub no_fields-IsValid : IsValid no_fields
  unfolding lookup
  no_fields-IsValid = record {
    fields_distinct = tt;
    params_distinct = tt;
    fields_known = λ n k. refl;
    params_unknown = λ n k. refl;
  }

  pub lookup-assign :
      (k n : String) (w : Option V) (m : List (String × V))
      → lookup n (assign k w m) ≡ (if str_eq k n then w else lookup n m)
  lookup-assign k n none m = lookup-delete k n m
  lookup-assign k n (some v) m = lookup-insert k n v m

  pub Distinct-assign :
      (k : String) (w : Option V) (m : List (String × V)) → Distinct m → Distinct (assign k w m)
  Distinct-assign k none m d = Distinct-delete k m d
  Distinct-assign k (some v) m d = Distinct-insert k v m d

  -- Setting a standard field to a value or to nil, and a private one to a value.
  pub assign-IsValid :
      (h : Fields V) (k : String) (w : Option V)
      → schema.known k ≡ true
      → IsValid h
      → IsValid (record h { standard = assign k w h.standard })
  assign-IsValid h k w known v = record {
    fields_distinct = Distinct-assign k w h.standard v.fields_distinct;
    params_distinct = v.params_distinct;
    fields_known =
        λ n u. ground (arith, lookup-assign k n w h.standard, eq_iff k n, v.fields_known n u);
    params_unknown = v.params_unknown;
  }

  pub insert-IsValid :
      (h : Fields V) (k : String) (w : V)
      → schema.known k ≡ false
      → IsValid h
      → IsValid (record h { private_params = some (insert k w (params h)) })
  insert-IsValid h k w unknown v = record {
    fields_distinct = v.fields_distinct;
    params_distinct = Distinct-insert k w (params h) v.params_distinct;
    fields_known = v.fields_known;
    params_unknown =
        λ n u. ground (arith, lookup-insert k n w (params h), eq_iff k n, v.params_unknown n u);
  }

  -- What is stored for a value: that which the standard name accepts, or the value itself.
  abbrev pub stored : String → V → Option (Option V)
  stored k v = if schema.known k then schema.accept k v else some (some v)

  -- The object with `w` under the name: a nil only ever for a standard one.
  abbrev pub store : Fields V → String → Option V → Fields V
  store h k w = if schema.known k then record h { standard = assign k w h.standard } else record h {
    private_params = elim w [ none ↦ h.private_params | some v ↦ some (insert k v (params h)) ];
  }

  insert_optional-IsValid :
      (h : Fields V) (k : String) (w : Option V)
      → schema.known k ≡ false
      → IsValid h
      → IsValid (record h {
        private_params = elim w [ none ↦ h.private_params | some v ↦ some (insert k v (params h)) ];
      })
  insert_optional-IsValid h k none unknown v = v
  insert_optional-IsValid h k (some x) unknown v = insert-IsValid h k x unknown v

  pub store-IsValid : (h : Fields V) (k : String) (w : Option V) → IsValid h → IsValid (store h k w)
  store-IsValid h k w v = elim (Bool-cases (schema.known k)) [
    | inl known ↦ rw known (assign-IsValid h k w known v)
    | inr unknown ↦ rw unknown (insert_optional-IsValid h k w unknown v)
  ]

  pub get-store :
      (h : Fields V) (k n : String) (w : Option V) (v : V)
      → stored k v ≡ some w
      → get_field schema (store h k w) n ≡ (if str_eq k n then w else get_field schema h n)
  unfolding get_field
  get-store h k n w v e =
      ground (arith, eq_iff k n, lookup-assign k n w h.standard, lookup-insert k n v (params h))

  -- `Set` fails exactly if the value is not one for the standard name.
  pub set_field_lem :
      (h : Fields V) (k : String) (v : V)
      → set_field schema h k v
        ≡ elim (stored k v) [ none ↦ err invalid_value | some w ↦ ok (store h k w) ]
  unfolding set_field
  set_field_lem h k v = ground arith

  pub set_field-IsValid :
      (h g : Fields V) (k : String) (v : V) → set_field schema h k v ≡ ok g → IsValid h → IsValid g
  set_field-IsValid h g k v e valid = elim (Option-cases (stored k v)) [
    | inl refused ↦ absurd (ground (arith, set_field_lem h k v, refused))
    | inr (w, taken) ↦
        let same : g ≡ store h k w = ground (arith, set_field_lem h k v, taken) in
        rw same (store-IsValid h k w valid)
  ]

  delete_param-IsValid :
      (fields : List (String × V)) (m : Option (List (String × V))) (k : String)
      → schema.known k ≡ false
      → IsValid (record { standard = fields; private_params = m })
      → IsValid (record {
        standard = fields;
        private_params = elim m [ none ↦ none | some l ↦ some (delete k l) ];
      })
  delete_param-IsValid fields none k unknown v = v
  delete_param-IsValid fields (some l) k unknown v = record {
    fields_distinct = v.fields_distinct;
    params_distinct = Distinct-delete k l v.params_distinct;
    fields_known = v.fields_known;
    params_unknown = λ n u. ground (arith, lookup-delete k n l, v.params_unknown n u);
  }

  pub remove_field-IsValid :
      (h : Fields V) (k : String) → IsValid h → IsValid (remove_field schema h k)
  unfolding remove_field
  remove_field-IsValid h k v = elim (Bool-cases (schema.known k)) [
    | inl known ↦ rw known (assign-IsValid h k none known v)
    | inr unknown ↦ rw unknown (delete_param-IsValid h.standard h.private_params k unknown v)
  ]

  pub get-remove_field :
      (h : Fields V) (k n : String)
      → get_field schema (remove_field schema h k) n
        ≡ (if str_eq k n then none else get_field schema h n)
  unfolding remove_field get_field lookup
  get-remove_field h k n =
      ground (arith, eq_iff k n, lookup-delete k n h.standard, lookup-delete k n (params h))

  -- `Set` and `Remove` as `Get` sees them. `Set` fails exactly if the value is not one for a standard name; else `Get` of the name returns what is stored for
  -- the value, and `Get` of the other names what it did. `Remove` makes the name absent and leaves the others.
  pub get-set-remove :
      (h : Fields V) (k : String) (v : V)
      → (stored k v ≡ none → set_field schema h k v ≡ err invalid_value)
        × ((w : Option V)
            → stored k v ≡ some w
            → (g : Fields V) × (set_field schema h k v ≡ ok g)
              × ((n : String)
                  → get_field schema g n ≡ (if str_eq k n then w else get_field schema h n)))
        × ((n : String)
            → get_field schema (remove_field schema h k) n
              ≡ (if str_eq k n then none else get_field schema h n))
  unfolding remove_field
  get-set-remove h k v = (
    (λ refused. set_field_lem h k v ∙ rw refused refl),
    (λ w taken. (store h k w, set_field_lem h k v ∙ rw taken refl, λ n. get-store h k n w v taken)),
    λ n. get-remove_field h k n,
  )
