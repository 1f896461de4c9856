-- ===== src/Jwk/KeySet/Search.antt =====
-- The searches of jwk/set.go: where a key stands in the list.
use mathlib.Core.Path.{ap₂}
use mathlib.Core.List.{append_assoc, append-nil}
use jwx.Common.{
  ℕ, suc, ◌+◌, ◌-◌, ◌≡◌, ◌≢◌, refl, sym, ap, ◌∙◌, ◌⊎◌, inl, inr, true, false, String, none, some,
  List, [], ◌∷◌, ◌++◌, arith, ◌==◌, ==_iff, str_eq, eq_iff, Bool-cases, length, take, drop,
  get_elem?, All, length-append, take-append, drop-append,
}
use jwx.Common.Int.{pos, negsuc}
use jwx.Jwk.KeySet.{
  KeyLike, KeySet, remove_at, find_from, first_with_id, index_nl, key_at, lookup_key_id,
}

module _ {K : Type 0} (like : KeyLike K) where
  -- No key of the list is `key`.
  abbrev pub Absent : K → List K → Type 0
  Absent key = All (λ k. like.same k key ≡ false)

  -- The first occurrence of `key`, at the end of `front`.
  pub record FirstAt (key : K) (ks front back : List K) : Type 0 where
    pub split : ks ≡ front ++ key ∷ back
    pub absent : Absent key front

  pub find_from-Absent :
      (i : ℕ) (key : K) (ks : List K) → Absent key ks → find_from like i key ks ≡ none
  unfolding find_from
  find_from-Absent i key [] h = refl
  find_from-Absent i key (k ∷ ks) h = rw h.0 (find_from-Absent (i + 1) key ks h.1)

  same_refl : (key : K) → like.same key key ≡ true
  same_refl key = (like.same_iff key key).1 refl

  find_from_present :
      (i : ℕ) (key : K) (front back : List K)
      → Absent key front
      → find_from like i key (front ++ key ∷ back) ≡ some (i + length front)
  unfolding find_from
  find_from_present i key [] back h = rw (same_refl key) (ap some (omega arith))
  find_from_present i key (k ∷ front) back h =
      rw h.0 (find_from_present (i + 1) key front back h.1 ∙ ap some (omega arith))

  pub find_from_first :
      {key : K} {ks front back : List K}
      → FirstAt key ks front back
      → find_from like 0 key ks ≡ some (length front)
  find_from_first {key} {ks} {front} {back} f =
      rw f.split (find_from_present 0 key front back f.absent ∙ ap some (omega arith))

  -- Every key is absent or has a first occurrence.
  pub presence :
      (key : K) (ks : List K)
      → Absent key ks ⊎ ((front : List K) × (back : List K) × FirstAt key ks front back)
  presence key [] = inl tt
  presence key (k ∷ ks) = elim (Bool-cases (like.same k key)) [
    | inl here ↦
        let e : k ∷ ks ≡ key ∷ ks = ap (λ x. x ∷ ks) ((like.same_iff k key).0 here) in
        inr ([], ks, record { split = e; absent = tt })
    | inr there ↦ elim (presence key ks) [
      | inl none_left ↦ inl (there, none_left)
      | inr (front, back, f) ↦
          inr (
            k ∷ front,
            back,
            record { split = ap (λ t. k ∷ t) f.split; absent = (there, f.absent) },
          )
    ]
  ]

get_elem?-append {ℓ} :
    {A : Type ℓ} (front back : List A) (x : A)
    → get_elem? (front ++ x ∷ back) (length front) ≡ some x
get_elem?-append [] back x = refl
get_elem?-append (y ∷ front) back x = get_elem?-append front back x

nil_of_length {ℓ} : {A : Type ℓ} (xs : List A) → length xs ≡ 0 → xs ≡ []
nil_of_length [] h = refl
nil_of_length (x ∷ xs) h = absurd (omega arith)

drop_past {ℓ} :
    {A : Type ℓ} (front back : List A) (x : A) → drop (length front + 1) (front ++ x ∷ back) ≡ back
drop_past front back x =
    ap (drop (length front + 1)) (sym (append_assoc front (x ∷ []) back))
    ∙ drop-append _ (front ++ x ∷ []) back (length-append front (x ∷ []))

-- Whichever slice expression `RemoveKey` takes, the element at the index goes and no other.
pub remove_at_lem :
    {K : Type 0} (front back : List K) (x : K)
    → remove_at (front ++ x ∷ back) (length front) ≡ front ++ back
unfolding remove_at
remove_at_lem [] back x = refl
remove_at_lem {K} (y ∷ front) back x =
    let all : List K = y ∷ (front ++ x ∷ back) in
    let i = suc (length front) in
    let kept : take i all ≡ y ∷ front = take-append i (y ∷ front) (x ∷ back) refl in
    let positive : (i == 0) ≡ false = ground arith in
    let size : length all ≡ i + suc (length back) = length-append (y ∷ front) (x ∷ back) in
    elim (Bool-cases (i == length all - 1)) [
      | inl last ↦
          let ends : back ≡ [] = nil_of_length back (omega (arith, (==_iff _ _).0 last)) in
          rw (positive, last)
            (kept ∙ sym (append-nil (y ∷ front)) ∙ ap (λ b. (y ∷ front) ++ b) (sym ends))
      | inr inner ↦ rw (positive, inner) (ap₂ (λ a b. a ++ b) kept (drop_past (y ∷ front) back x))
    ]

module _ {K V : Type 0} (like : KeyLike K) (s : KeySet K V) where
  -- The answers of the set about a key that it holds.
  pub index_first :
      {key : K} {front back : List K}
      → FirstAt like key s.keys front back
      → (index_nl like s key ≡ pos (length front)) × (key_at s (pos (length front)) ≡ some key)
  unfolding index_nl key_at
  index_first {key} {front} {back} f =
      (rw (find_from_first like f, index_nl), rw f.split (get_elem?-append front back key))

  pub index-Absent : (key : K) → Absent like key s.keys → index_nl like s key ≡ negsuc 0
  unfolding index_nl
  index-Absent key h = rw (find_from-Absent like 0 key s.keys h, index_nl)

module _ {K : Type 0} (like : KeyLike K) (kid : String) where
  -- No key of the list has the key ID.
  abbrev pub NoKeyId : List K → Type 0
  NoKeyId = All (λ k. like.key_id k ≢ kid)

  no_id : (ks : List K) → NoKeyId ks → first_with_id like ks kid ≡ none
  unfolding first_with_id
  no_id [] h = refl
  no_id (k ∷ ks) h = ground (arith, eq_iff (like.key_id k) kid, h.0, no_id ks h.1)

  first_id :
      (front back : List K) (key : K)
      → NoKeyId front
      → like.key_id key ≡ kid
      → first_with_id like (front ++ key ∷ back) kid ≡ some key
  unfolding first_with_id
  first_id [] back key h e = ground (arith, eq_iff (like.key_id key) kid)
  first_id (k ∷ front) back key h e =
      ground (arith, eq_iff (like.key_id k) kid, h.0, first_id front back key h.1 e)

  id_presence :
      (ks : List K)
      → NoKeyId ks
        ⊎ ((front : List K) × (key : K) × (back : List K) × (ks ≡ front ++ key ∷ back)
            × (like.key_id key ≡ kid)
            × NoKeyId front)
  id_presence [] = inl tt
  id_presence (k ∷ ks) = elim (Bool-cases (str_eq (like.key_id k) kid)) [
    | inl here ↦ inr ([], k, ks, refl, (eq_iff _ kid).0 here, tt)
    | inr there ↦
        let other : like.key_id k ≢ kid = λ e. cc (there, (eq_iff (like.key_id k) kid).1 e) in
        elim (id_presence ks) [
          | inl h ↦ inl (other, h)
          | inr (front, key, back, split, e, h) ↦
              inr (k ∷ front, key, back, ap (λ t. k ∷ t) split, e, (other, h))
        ]
  ]

  -- `LookupKeyID` returns the first key with the key ID, and nothing exactly when there is none.
  pub lookup_key_id_lem :
      {V : Type 0} (s : KeySet K V)
      → ((lookup_key_id like s kid ≡ none) × NoKeyId s.keys)
        ⊎ ((front : List K) × (key : K) × (back : List K) × (lookup_key_id like s kid ≡ some key)
            × (s.keys ≡ front ++ key ∷ back)
            × (like.key_id key ≡ kid)
            × NoKeyId front)
  unfolding lookup_key_id
  lookup_key_id_lem s = elim (id_presence s.keys) [
    | inl h ↦ inl (no_id s.keys h, h)
    | inr (front, key, back, split, e, h) ↦
        inr (front, key, back, rw split (first_id front back key h e), split, e, h)
  ]
