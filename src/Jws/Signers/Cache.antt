-- ===== src/Jws/Signers/Cache.antt =====
-- The cache of signers in jws/jws.go against the registered signers of jws/signer.go.
use jwx.Common.{
  ◌≡◌, inl, inr, refl, sym, ◌∙◌, Option, none, some, String, arith, eq_iff, Option-cases,
}
use jwx.Common.Assoc.{lookup, insert, lookup-insert}
use jwx.Jws.Signers.{Signer, Registry, register_signer, new_signer, make_signer}

module _ {S : Type 0} where
  -- Every signer in the cache is the one that `NewSigner` makes now.
  pub record IsFresh (reg : Registry S) : Type 0 where
    pub cached :
        (alg : String) (signer : Signer S)
        → lookup alg reg.signers ≡ some signer
        → new_signer reg alg ≡ some signer

  make_hit :
      (reg : Registry S) (alg : String) (signer : Signer S)
      → lookup alg reg.signers ≡ some signer
      → make_signer reg alg ≡ (reg, some signer)
  unfolding make_signer
  make_hit reg alg signer hit = rw (hit, make_signer) refl

  make_failed :
      (reg : Registry S) (alg : String)
      → lookup alg reg.signers ≡ none
      → new_signer reg alg ≡ none
      → make_signer reg alg ≡ (reg, none)
  unfolding make_signer
  make_failed reg alg miss failed = rw (make_signer, miss, failed) refl

  make_new :
      (reg : Registry S) (alg : String) (signer : Signer S)
      → lookup alg reg.signers ≡ none
      → new_signer reg alg ≡ some signer
      → make_signer reg alg ≡ (record reg { signers = insert alg signer reg.signers }, some signer)
  unfolding make_signer
  make_new reg alg signer miss made = rw (make_signer, miss, made) refl

  -- What the globals may be after further calls of `RegisterSigner` and `makeSigner`.
  pub data Later (reg : Registry S) : Registry S → Type 0 where
    now : Later reg reg
    registers :
        {later : Registry S} (alg : String) (factory : Option (Signer S))
        → Later reg later
        → Later reg (register_signer alg factory later)
    makes :
        {later : Registry S} (alg : String) → Later reg later → Later reg (make_signer later alg).0

  -- A call of `makeSigner` keeps what is in the cache.
  make-cached :
      (reg : Registry S) (n alg : String) (signer : Signer S)
      → lookup alg reg.signers ≡ some signer
      → lookup alg (make_signer reg n).0.signers ≡ some signer
  make-cached reg n alg signer hit = elim (Option-cases (lookup n reg.signers)) [
    | inr (other, cached) ↦ rw (make_hit reg n other cached) hit
    | inl miss ↦ elim (Option-cases (new_signer reg n)) [
      | inl failed ↦ rw (make_failed reg n miss failed) hit
      | inr (other, made) ↦
          rw (make_new reg n other miss made)
            (ground (arith, lookup-insert n alg other reg.signers, eq_iff n alg, hit, miss))
    ]
  ]

  later-cached :
      (reg later : Registry S) (alg : String) (signer : Signer S)
      → Later reg later
      → lookup alg reg.signers ≡ some signer
      → lookup alg later.signers ≡ some signer
  unfolding register_signer
  later-cached reg _ alg signer now hit = hit
  later-cached reg _ alg signer (registers n factory more) hit =
      later-cached reg _ alg signer more hit
  later-cached reg _ alg signer (makes {later} n more) hit =
      make-cached later n alg signer (later-cached reg later alg signer more hit)

  -- The signer that a call has made is in the cache.
  make-kept :
      (reg : Registry S) (alg : String) (signer : Signer S)
      → (make_signer reg alg).1 ≡ some signer
      → lookup alg (make_signer reg alg).0.signers ≡ some signer
  make-kept reg alg signer e = elim (Option-cases (lookup alg reg.signers)) [
    | inr (other, cached) ↦
        let same = rw (make_hit reg alg other cached) at e in
        rw (make_hit reg alg other cached) (cached ∙ same)
    | inl miss ↦ elim (Option-cases (new_signer reg alg)) [
      | inl failed ↦ let r = rw (make_failed reg alg miss failed) at e in cc
      | inr (other, made) ↦
          let same = rw (make_new reg alg other miss made) at e in
          rw (make_new reg alg other miss made)
            (lookup-insert alg alg other reg.signers ∙ rw ((eq_iff alg alg).1 refl) same)
    ]
  ]

  insert-IsFresh :
      (reg : Registry S) (alg : String) (signer : Signer S)
      → new_signer reg alg ≡ some signer
      → IsFresh reg
      → IsFresh (record reg { signers = insert alg signer reg.signers })
  unfolding new_signer
  insert-IsFresh reg alg signer made fresh = record {
    cached = λ n s e.
        ground (arith, lookup-insert alg n signer reg.signers, eq_iff alg n, fresh.cached n s);
  }

  make-IsFresh :
      (reg : Registry S) (alg : String)
      → IsFresh reg
      → ((make_signer reg alg).1 ≡ new_signer reg alg)
        × ((make_signer reg alg).0.signer_db ≡ reg.signer_db)
        × IsFresh (make_signer reg alg).0
  make-IsFresh reg alg fresh = elim (Option-cases (lookup alg reg.signers)) [
    | inr (signer, hit) ↦
        rw (make_hit reg alg signer hit) (sym (fresh.cached alg signer hit), refl, fresh)
    | inl miss ↦ elim (Option-cases (new_signer reg alg)) [
      | inl failed ↦ rw (make_failed reg alg miss failed) (sym failed, refl, fresh)
      | inr (signer, made) ↦
          rw (make_new reg alg signer miss made)
            (sym made, refl, insert-IsFresh reg alg signer made fresh)
    ]
  ]

  -- With a fresh cache, and an algorithm for which `NewSigner` succeeds: `makeSigner` gives the signer that
  -- `NewSigner` makes, leaves the registered signers alone, and keeps the cache fresh. After any further
  -- calls of `RegisterSigner` and `makeSigner`, for this algorithm or others, `makeSigner` still gives that
  -- signer for the algorithm.
  pub make_signer-new_signer :
      (reg later : Registry S) (alg : String) (signer : Signer S)
      → IsFresh reg
      → new_signer reg alg ≡ some signer
      → Later (make_signer reg alg).0 later
      → ((make_signer reg alg).1 ≡ some signer)
        × ((make_signer reg alg).0.signer_db ≡ reg.signer_db)
        × IsFresh (make_signer reg alg).0
        × ((make_signer later alg).1 ≡ some signer)
  make_signer-new_signer reg later alg signer fresh made more =
      let (same, db, still) = make-IsFresh reg alg fresh in
      let kept =
        later-cached (make_signer reg alg).0 later alg signer more
          (make-kept reg alg signer (same ∙ made)) in
      (same ∙ made, db, still, rw (make_hit later alg signer kept) refl)
