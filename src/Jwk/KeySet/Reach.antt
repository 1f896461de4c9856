-- ===== src/Jwk/KeySet/Reach.antt =====
-- Sets that are built by the methods for single keys and fields hold no key twice.
use mathlib.Core.Path.{subst}
use jwx.Common.{
  ◌≡◌, ◌≢◌, sym, ap, ◌∙◌, inl, inr, false, String, List, [], ◌∷◌, ◌++◌, ok, arith, All-append,
  All-append_left, All-append_right, Bool-cases,
}
use jwx.Jwk.KeySet.{
  KeyLike, KeySet, Value, new_set, set_field, add_key, remove_key, remove, clear, clone,
}
use jwx.Jwk.KeySet.Search.{Absent, presence}
use jwx.Jwk.KeySet.Updates.{key_present, key-Absent, set-keys_field}

module _ {K : Type 0} (like : KeyLike K) where
  -- No key stands twice in the list.
  abbrev pub Distinct : List K → Type 0
  Distinct [] = Unit
  Distinct (k ∷ ks) = Absent like k ks × Distinct ks

  flip : (k key : K) → like.same k key ≡ false → like.same key k ≡ false
  flip k key h = elim (Bool-cases (like.same key k)) [
    | inl e ↦ cc (h, (like.same_iff k key).1 (sym ((like.same_iff key k).0 e)))
    | inr e ↦ e
  ]

  Distinct-snoc :
      (ks : List K) (key : K) → Absent like key ks → Distinct ks → Distinct (ks ++ key ∷ [])
  Distinct-snoc [] key a d = (tt, tt)
  Distinct-snoc (k ∷ ks) key a d = (
    All-append (λ x. like.same x k ≡ false) ks (key ∷ []) d.0 (flip k key a.0, tt),
    Distinct-snoc ks key a.1 d.1,
  )

  Distinct-cut :
      (front back : List K) (key : K) → Distinct (front ++ key ∷ back) → Distinct (front ++ back)
  Distinct-cut [] back key d = d.1
  Distinct-cut (k ∷ front) back key d =
      let P : K → Type 0 = λ x. like.same x k ≡ false in
      (
        All-append P front back (All-append_left P front (key ∷ back) d.0)
            (All-append_right P front (key ∷ back) d.0).1,
        Distinct-cut front back key d.1,
      )

module _ {K V : Type 0} (like : KeyLike K) where
  -- A call of a method on the set. `Set("keys", …)` and `UnmarshalJSON` take any list of keys.
  pub data Step : KeySet K V → KeySet K V → Type 0 where
    added : {s t : KeySet K V} (key : K) → add_key like s key ≡ ok t → Step s t
    removed_key : {s t : KeySet K V} (key : K) → remove_key like s key ≡ ok t → Step s t
    set_private :
        {s t : KeySet K V} (n : String) (v : Value K V)
        → n ≢ "keys"
        → set_field s n v ≡ ok t
        → Step s t
    removed_field : {s : KeySet K V} (n : String) → Step s (remove s n)
    cleared : {s : KeySet K V} → Step s (clear s)
    cloned : {s : KeySet K V} → Step s (clone s)

  pub data Reach : KeySet K V → Type 0 where
    start : Reach new_set
    next : {s t : KeySet K V} → Reach s → Step s t → Reach t

  keys-remove : (s : KeySet K V) (n : String) → (remove s n).keys ≡ s.keys
  unfolding remove
  keys-remove s n = ground arith

  Step-Distinct : {s t : KeySet K V} → Step s t → Distinct like s.keys → Distinct like t.keys
  Step-Distinct {s} (added {t = t} key e) d = elim (presence like key s.keys) [
    | inl a ↦
        let (i, r, t', e', keys, back) = key-Absent like s key a in
        let same : t' ≡ t = cc (e, e') in
        subst (Distinct like) (sym keys ∙ ap (λ (x : KeySet K V). x.keys) same)
          (Distinct-snoc like s.keys key a d)
    | inr (front, back, f) ↦ cc (e, (key_present like s f).2)
  ]
  Step-Distinct {s} (removed_key {t = t} key e) d = elim (presence like key s.keys) [
    | inl a ↦ cc (e, (key-Absent like s key a).1)
    | inr (front, back, f) ↦
        let keys : front ++ back ≡ t.keys = ground (arith, (key_present like s f).3) in
        subst (Distinct like) keys
          (Distinct-cut like front back key (subst (Distinct like) f.split d))
  ]
  Step-Distinct {s} (set_private {t = t} n v other e) d =
      subst (Distinct like) (sym (set-keys_field s t n v other e)) d
  Step-Distinct {s} (removed_field n) d = subst (Distinct like) (sym (keys-remove s n)) d
  Step-Distinct cleared d = unfold clear new_set in tt
  Step-Distinct cloned d = unfold clone in d

  -- Every set that `NewSet`, `AddKey`, `RemoveKey`, `Set` of a private field, `Remove`, `Clear` and
  -- `Clone` build, in any order, holds no key twice.
  pub Reach-Distinct : {s : KeySet K V} → Reach s → Distinct like s.keys
  Reach-Distinct start = unfold new_set in tt
  Reach-Distinct (next r st) = Step-Distinct st (Reach-Distinct r)
