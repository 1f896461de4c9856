-- ===== src/Jwk/KeySet/Tests.antt =====
-- Concrete runs of the key set, and the theorems at concrete inputs.
use jwx.Common.{
  ℕ, ◌≡◌, ◌≢◌, refl, ◌⊎◌, false, String, Option, none, some, List, [], ◌∷◌, ◌++◌, map, ok, err,
  panic, arith, ◌==◌, ==_iff, str_eq, eq_iff, if◌then◌else◌,
}
use jwx.Common.Int.{pos, negsuc}
use jwx.Common.Assoc.{insert}
use jwx.Jwk.KeySet.{
  KeyLike, KeySet, plain, key_exists, no_such_key, bad_key, bad_sole_key, delim, name, new_set,
  set_field, get_field, key_at, remove, clone, find_from, index_nl, add_key, remove_key,
  lookup_key_id, add_parsed, unmarshal_json,
}
use jwx.Jwk.KeySet.Search.{FirstAt, NoKeyId, lookup_key_id_lem}
use jwx.Jwk.KeySet.Updates.{key_present, key-Absent, set-remove_field, clone_has_no_fields}
use jwx.Jwk.KeySet.Reach.{Distinct, start, next, added, Reach-Distinct}
use jwx.Jwk.KeySet.Unmarshal.{member, unmarshal_sole_key}

-- Keys are numbers; the odd ones have the key ID "odd".
abbrev numbers : KeyLike ℕ
numbers = record {
  same = λ a b. a == b;
  same_iff = ==_iff;
  key_id = λ k. if k == 7 then "odd" else "even";
}

abbrev two_keys : KeySet ℕ ℕ
two_keys = record { keys = 4 ∷ 7 ∷ []; private_params = some (("x", plain 1) ∷ []) }

seven_FirstAt : FirstAt numbers 7 (4 ∷ 7 ∷ []) (4 ∷ []) []
seven_FirstAt = record { split = refl; absent = (refl, tt) }

key_present_example :
    (index_nl numbers two_keys 7 ≡ pos 1)
    × (key_at two_keys (pos 1) ≡ some 7)
    × (add_key numbers two_keys 7 ≡ err key_exists)
    × (remove_key numbers two_keys 7 ≡ ok (record two_keys { keys = 4 ∷ [] }))
key_present_example = key_present numbers two_keys seven_FirstAt

key-Absent_example :
    (index_nl numbers two_keys 9 ≡ negsuc 0)
    × (remove_key numbers two_keys 9 ≡ err no_such_key)
    × (t : KeySet ℕ ℕ) × (add_key numbers two_keys 9 ≡ ok t)
    × (t.keys ≡ 4 ∷ 7 ∷ 9 ∷ [])
    × (remove_key numbers t 9 ≡ ok two_keys)
key-Absent_example = key-Absent numbers two_keys 9 (refl, (refl, tt))

lookup_key_id_lem_example :
    ((lookup_key_id numbers two_keys "odd" ≡ none) × NoKeyId numbers "odd" two_keys.keys)
    ⊎ ((front : List ℕ) × (key : ℕ) × (back : List ℕ) × (lookup_key_id numbers two_keys "odd"
          ≡ some key)
        × (two_keys.keys ≡ front ++ key ∷ back)
        × (numbers.key_id key ≡ "odd")
        × NoKeyId numbers "odd" front)
lookup_key_id_lem_example = lookup_key_id_lem numbers "odd" two_keys

lookup_odd : lookup_key_id numbers two_keys "odd" ≡ some 7
unfolding lookup_key_id
lookup_odd = refl

y_ne_keys : ◌≢◌ {A = String} "y" "keys"
y_ne_keys = ground (arith, eq_iff "y" "keys")

set-remove_field_example :
    (t : KeySet ℕ ℕ) × (set_field two_keys "y" (plain 2) ≡ ok t)
    × (t.keys ≡ two_keys.keys)
    × ((j : String)
        → get_field t j ≡ (if str_eq "y" j then some (plain 2) else get_field two_keys j))
    × ((remove t "y").keys ≡ two_keys.keys)
    × ((j : String)
        → get_field (remove t "y") j ≡ (if str_eq "y" j then none else get_field two_keys j))
set-remove_field_example =
    set-remove_field two_keys "y" (plain 2) (("x", plain 1) ∷ []) y_ne_keys refl

clone_has_no_fields_example :
    ((clone two_keys).keys ≡ two_keys.keys)
    × (get_field (clone two_keys) "y" ≡ none)
    × (set_field (clone two_keys) "y" (plain 2) ≡ panic)
clone_has_no_fields_example = clone_has_no_fields two_keys "y" (plain 2) y_ne_keys

one_key :
    add_key numbers (new_set {K = ℕ} {V = ℕ}) 4
    ≡ ok (record { keys = 4 ∷ []; private_params = some [] })
unfolding add_key index_nl find_from new_set
one_key = refl

Reach-Distinct_example : Distinct numbers (4 ∷ [])
Reach-Distinct_example = Reach-Distinct numbers (next start (added 4 one_key))

-- Raw keys are numbers; those below 10 parse.
abbrev parse_small : ℕ → Option ℕ
parse_small n = if n == 99 then none else some n

unmarshal_strict :
    unmarshal_json {V = ℕ} parse_small false new_set
      (delim 123 ∷ name "keys" (some (4 ∷ 99 ∷ 7 ∷ [])) none ∷ delim 125 ∷ [])
      none
    ≡ (record { keys = 4 ∷ []; private_params = some [] }, err bad_key)
unfolding unmarshal_json add_parsed new_set
unmarshal_strict = refl

unmarshal_sole_key_example :
    (unmarshal_json parse_small false two_keys
        (delim 123 ∷ (map member (("y", 2) ∷ []) ++ delim 125 ∷ []))
        (some 5)
      ≡ (record { keys = 5 ∷ []; private_params = some (("y", plain 2) ∷ []) }, ok tt))
    × ((unmarshal_json parse_small false two_keys
          (delim 123 ∷ (map member (("y", 2) ∷ []) ++ delim 125 ∷ []))
          none).1
        ≡ err bad_sole_key)
unfolding insert
unmarshal_sole_key_example =
    unmarshal_sole_key parse_small false two_keys (("y", 2) ∷ []) 5 (y_ne_keys, tt)
