-- ===== src/Fields/Tests.antt =====
-- Concrete objects with one standard name, and the theorems at them. The value 0 stands for a nil, and 9
-- for a value of another type.
use jwx.Common.{
  ℕ, ◌≡◌, refl, true, false, ◌||◌, Option, none, some, String, str_eq, eq_iff, [], ◌∷◌, ok, err,
  ◌==◌, if◌then◌else◌, arith, Bool-cases, inl, inr, sym, ap,
}
use jwx.Common.Bytes.{Bytes}
use jwx.Common.Assoc.{lookup, insert}
use jwx.Common.Assoc.Distinct.{or_else}
use jwx.Common.Assoc.Sorted.{IsSorted, sort_pairs, insert_sorted}
use jwx.Fields.{
  Schema, Fields, open_brace, close_brace, invalid_value, no_fields, make_pairs, get_field,
  set_field, remove_field, unmarshal_json, marshal_json, write_members,
}
use jwx.Fields.Laws.{IsValid, stored, store, store-IsValid, no_fields-IsValid, get-set-remove}
use jwx.Fields.Pairs.{make_pairs_lem, marshal_canonical}
use jwx.Fields.Decode.{members, unmarshal-marshal}

abbrev schema : Schema ℕ ℕ
schema = record {
  known = λ n. str_eq n "alg";
  accept = λ n v. if v == 0 then some none else if v == 9 then none else some (some v);
  decode = λ n raw. some (some raw);
  registry = λ n raw. some raw;
  clears_private = false;
}

abbrev header : Fields ℕ
header = store schema (store schema no_fields "x" (some 2)) "alg" (some 1)

header-IsValid : IsValid schema header
header-IsValid =
    store-IsValid schema (store schema no_fields "x" (some 2)) "alg" (some 1)
      (store-IsValid schema no_fields "x" (some 2) (no_fields-IsValid schema))

-- An object with the private names "y" and "x", which were set in this order.
abbrev first_y : Fields ℕ
first_y = store schema (store schema no_fields "y" (some 3)) "x" (some 2)

abbrev first_x : Fields ℕ
first_x = store schema (store schema no_fields "x" (some 2)) "y" (some 3)

first_y-IsValid : IsValid schema first_y
first_y-IsValid =
    store-IsValid schema (store schema no_fields "y" (some 3)) "x" (some 2)
      (store-IsValid schema no_fields "y" (some 3) (no_fields-IsValid schema))

first_x-IsValid : IsValid schema first_x
first_x-IsValid =
    store-IsValid schema (store schema no_fields "x" (some 2)) "y" (some 3)
      (store-IsValid schema no_fields "x" (some 2) (no_fields-IsValid schema))

get-set-remove_example :
    (stored schema "alg" 0 ≡ none → set_field schema header "alg" 0 ≡ err invalid_value)
    × ((w : Option ℕ)
        → stored schema "alg" 0 ≡ some w
        → (g : Fields ℕ) × (set_field schema header "alg" 0 ≡ ok g)
          × ((n : String)
              → get_field schema g n ≡ (if str_eq "alg" n then w else get_field schema header n)))
    × ((n : String)
        → get_field schema (remove_field schema header "alg") n
          ≡ (if str_eq "alg" n then none else get_field schema header n))
get-set-remove_example = get-set-remove schema header "alg" 0

make_pairs_lem_example :
    IsSorted (make_pairs first_y)
    × ((n : String) → lookup n (make_pairs first_y) ≡ get_field schema first_y n)
make_pairs_lem_example = make_pairs_lem schema first_y first_y-IsValid

pairs_run : make_pairs first_y ≡ ("x", 2) ∷ ("y", 3) ∷ []
unfolding make_pairs sort_pairs insert_sorted insert
pairs_run = refl

abbrev name_bytes : String → Bytes
name_bytes n = if str_eq n "x" then b'x' ∷ [] else b'y' ∷ []

abbrev digit : ℕ → Option Bytes
digit v = if v == 2 then some (b'2' ∷ []) else some (b'3' ∷ [])

marshal_run :
    marshal_json name_bytes digit first_y
    ≡ ok (
        b'{' ∷ b'"' ∷ b'x' ∷ b'"' ∷ b':' ∷ b'2' ∷ b',' ∷ b'"' ∷ b'y' ∷ b'"' ∷ b':' ∷ b'3' ∷ b'}'
        ∷ [])
unfolding marshal_json write_members make_pairs sort_pairs insert_sorted insert
marshal_run = refl

not_both : (n : String) → str_eq "x" n ≡ true → str_eq "y" n ≡ false
not_both n e = ap (str_eq "y") (sym ((eq_iff "x" n).0 e))

same_fields : (n : String) → get_field schema first_y n ≡ get_field schema first_x n
unfolding get_field insert lookup
same_fields n = ground (arith, not_both n)

marshal_canonical_example :
    (make_pairs first_y ≡ make_pairs first_x)
    × (marshal_json name_bytes digit first_y ≡ marshal_json name_bytes digit first_x)
marshal_canonical_example =
    marshal_canonical schema name_bytes digit first_y first_x first_y-IsValid first_x-IsValid
      same_fields

all_decode :
    (n : String) (v : ℕ)
    → get_field schema header n ≡ some v
    → if schema.known n then some (some v) ≡ some (some v) else some v ≡ some v
all_decode n v e = elim (Bool-cases (str_eq n "alg")) [
  | inl known ↦ rw known refl
  | inr unknown ↦ rw unknown refl
]

-- The private name "y" of the old object stays.
unmarshal-marshal_example :
    (g : Fields ℕ) × (unmarshal_json schema first_y
        (open_brace ∷ members schema (λ n v. v) (make_pairs header) (close_brace ∷ []))
      ≡ ok g)
    × IsValid schema g
    × ((n : String)
        → get_field schema g n
          ≡ or_else
              (get_field schema header n)
              (if str_eq n "alg" || false then none else get_field schema first_y n))
unmarshal-marshal_example =
    unmarshal-marshal schema (λ n v. v) header first_y [] header-IsValid first_y-IsValid all_decode
