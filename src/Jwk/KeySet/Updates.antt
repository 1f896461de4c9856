-- ===== src/Jwk/KeySet/Updates.antt =====
-- `AddKey`, `RemoveKey`, `Set`, `Remove` and `Clone` of jwk/set.go.
use mathlib.Core.List.{append-nil}
use jwx.Common.{
  ◌≡◌, ◌≢◌, refl, ap, ◌∙◌, false, String, none, some, List, [], ◌∷◌, ◌++◌, ok, err, panic, arith,
  str_eq, eq_iff, if◌then◌else◌, length,
}
use jwx.Common.Int.{pos, negsuc}
use jwx.Common.Assoc.{insert, lookup-insert, lookup-delete}
use jwx.Jwk.KeySet.{
  KeyLike, KeySet, Value, keys_value, plain, keys_not_a_list, key_exists, no_such_key, set_field,
  get_field, key_at, index_nl, add_key, remove_key, remove_at, remove, clone,
}
use jwx.Jwk.KeySet.Search.{
  Absent, FirstAt, find_from-Absent, find_from_first, index_first, index-Absent, remove_at_lem,
}

pub remove_first :
    {K V : Type 0} (like : KeyLike K) (s : KeySet K V) {key : K} {front back : List K}
    → FirstAt like key s.keys front back
    → remove_key like s key ≡ ok (record s { keys = front ++ back })
unfolding remove_key
remove_first like s {key} {front} {back} f =
    rw (find_from_first like f, remove_key)
      (ap (λ ks. ok (record s { keys = ks }))
        (ap (λ ks. remove_at ks (length front)) f.split ∙ remove_at_lem front back key))

module _ {K V : Type 0} (like : KeyLike K) (s : KeySet K V) where
  -- A key that the set holds: `Index` is the position of its first occurrence, at which `Key`
  -- returns it; `AddKey` refuses it; `RemoveKey` takes out that occurrence and nothing else.
  pub key_present :
      {key : K} {front back : List K}
      → FirstAt like key s.keys front back
      → (index_nl like s key ≡ pos (length front))
        × (key_at s (pos (length front)) ≡ some key)
        × (add_key like s key ≡ err key_exists)
        × (remove_key like s key ≡ ok (record s { keys = front ++ back }))
  unfolding add_key
  key_present {key} {front} {back} f =
      let (at, here) = index_first like s f in (at, here, rw (at, add_key), remove_first like s f)

  -- A key that the set does not hold: `Index` is -1, `RemoveKey` refuses it, and `AddKey` appends
  -- it, after which `RemoveKey` restores the set.
  pub key-Absent :
      (key : K)
      → Absent like key s.keys
      → (index_nl like s key ≡ negsuc 0)
        × (remove_key like s key ≡ err no_such_key)
        × (t : KeySet K V) × (add_key like s key ≡ ok t)
        × (t.keys ≡ s.keys ++ key ∷ [])
        × (remove_key like t key ≡ ok s)
  unfolding add_key remove_key
  key-Absent key h =
      let missing = find_from-Absent like 0 key s.keys h in
      let t : KeySet K V = record s { keys = s.keys ++ key ∷ [] } in
      let last : FirstAt like key t.keys s.keys [] = record { split = refl; absent = h } in
      (
        index-Absent like s key h,
        rw (missing, remove_key),
        t,
        rw (index-Absent like s key h, add_key),
        refl,
        remove_first like t last ∙ ap (λ ks. ok (record s { keys = ks })) (append-nil s.keys),
      )

module _ {K V : Type 0} (s : KeySet K V) (name : String) where
  -- `Set` of a private field in a set that has its map: the keys stay, the field gets the value, and
  -- every other field stays. `Remove` then makes the field absent, and again no other.
  pub set-remove_field :
      (v : Value K V) (m : List (String × Value K V))
      → name ≢ "keys"
      → s.private_params ≡ some m
      → (t : KeySet K V) × (set_field s name v ≡ ok t)
        × (t.keys ≡ s.keys)
        × ((j : String) → get_field t j ≡ (if str_eq name j then some v else get_field s j))
        × ((remove t name).keys ≡ s.keys)
        × ((j : String)
            → get_field (remove t name) j ≡ (if str_eq name j then none else get_field s j))
  unfolding set_field get_field remove
  set-remove_field v m other has_map =
      let not_keys : str_eq name "keys" ≡ false = ground (arith, eq_iff name "keys") in
      let t : KeySet K V = record s { private_params = some (insert name v m) } in
      (
        t,
        rw (not_keys, has_map),
        refl,
        λ j. rw has_map (lookup-insert name j v m),
        refl,
        λ j.
            rw has_map
              (ground (arith, lookup-delete name j (insert name v m), lookup-insert name j v m)),
      )

  -- `Set` of "keys" takes a list of keys and refuses any other value; no private field changes.
  pub set_keys :
      (ks : List K) (v : V)
      → (set_field s "keys" (keys_value ks) ≡ ok (record s { keys = ks }))
        × (set_field s "keys" (plain v) ≡ err keys_not_a_list)
  unfolding set_field
  set_keys ks v = (refl, refl)

  -- `Clone` keeps the keys and loses the private fields, and a clone has no map for them: `Set` of
  -- any field but "keys" panics on it.
  pub clone_has_no_fields :
      (v : Value K V)
      → name ≢ "keys"
      → ((clone s).keys ≡ s.keys)
        × (get_field (clone s) name ≡ none)
        × (set_field (clone s) name v ≡ panic)
  unfolding clone get_field set_field
  clone_has_no_fields v other = (refl, refl, ground (arith, eq_iff name "keys"))

-- Only "keys" reaches the list of keys.
pub set-keys_field :
    {K V : Type 0} (s t : KeySet K V) (n : String) (v : Value K V)
    → n ≢ "keys"
    → set_field s n v ≡ ok t
    → t.keys ≡ s.keys
unfolding set_field
set-keys_field s t n v other h = ground (arith, eq_iff n "keys")
