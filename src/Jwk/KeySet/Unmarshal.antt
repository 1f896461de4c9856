-- ===== src/Jwk/KeySet/Unmarshal.antt =====
-- `UnmarshalJSON` of jwk/set.go, on the tokens of a JSON object.
use jwx.Common.{
  ◌≡◌, ◌≢◌, refl, Bool, true, false, String, Option, none, some, List, [], ◌∷◌, ◌++◌, map, ok, err,
  arith, str_eq, eq_iff, All,
}
use jwx.Common.Assoc.{insert}
use jwx.Jwk.KeySet.{
  KeySet, Value, plain, bad_sole_key, new_set, Token, delim, name, read_tokens, unmarshal_json,
}

module _ {K Raw : Type 0} (parse_key : Raw → Option K) (ignore : Bool) where
  -- The keys that a list stands for, in order. What does not parse is left out if errors are ignored.
  pub data Parsed : List Raw → List K → Type 0 where
    done : Parsed [] []
    taken :
        {raw : Raw} {list : List Raw} {key : K} {ks : List K}
        → parse_key raw ≡ some key
        → Parsed list ks
        → Parsed (raw ∷ list) (key ∷ ks)
    skipped :
        {raw : Raw} {list : List Raw} {ks : List K}
        → parse_key raw ≡ none
        → ignore ≡ true
        → Parsed list ks
        → Parsed (raw ∷ list) ks

-- A member of the object that is no key list.
abbrev pub member : {V Raw : Type 0} → String × V → Token Raw V
member (n, v) = name n none (some v)

abbrev pub IsPrivate : {V : Type 0} → String × V → Type 0
IsPrivate (n, v) = n ≢ "keys"

abbrev pub insert_all :
    {K V : Type 0} → List (String × V) → List (String × Value K V) → List (String × Value K V)
insert_all [] m = m
insert_all ((n, v) ∷ ms) m = insert_all ms (insert n (plain v) m)

module _ {K V Raw : Type 0} (parse_key : Raw → Option K) (ignore : Bool) where
  read_members :
      (ks : List K) (m : List (String × Value K V)) (saw : Bool) (ms : List (String × V))
      (ts : List (Token Raw V))
      → All IsPrivate ms
      → read_tokens parse_key ignore
          (record { keys = ks; private_params = some m })
          saw
          (map member ms ++ ts)
        ≡ read_tokens parse_key ignore
            (record { keys = ks; private_params = some (insert_all ms m) })
            saw
            ts
  unfolding read_tokens
  read_members ks m saw [] ts h = refl
  read_members ks m saw ((n, v) ∷ ms) ts h =
      let other : str_eq n "keys" ≡ false = ground (arith, eq_iff n "keys", h.0) in
      rw (other, read_tokens) (read_members ks (insert n (plain v) m) saw ms ts h.1)

  -- An object with no "keys" member is taken for one key, which stands beside its members; if it does
  -- not parse as a key, that is an error.
  pub unmarshal_sole_key :
      (s : KeySet K V) (ms : List (String × V)) (key : K)
      → All IsPrivate ms
      → (unmarshal_json parse_key ignore s
            (delim b'{' ∷ (map member ms ++ delim b'}' ∷ []))
            (some key)
          ≡ (record { keys = key ∷ []; private_params = some (insert_all ms []) }, ok tt))
        × ((unmarshal_json parse_key ignore s
              (delim b'{' ∷ (map member ms ++ delim b'}' ∷ []))
              none).1
            ≡ err bad_sole_key)
  unfolding unmarshal_json new_set
  unmarshal_sole_key s ms key h = (
    rw (read_members [] [] false ms (delim b'}' ∷ []) h, read_tokens),
    rw (read_members [] [] false ms (delim b'}' ∷ []) h, read_tokens),
  )
