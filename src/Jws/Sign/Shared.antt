-- ===== src/Jws/Sign/Shared.antt =====
-- Two keys of `Sign` in jws/jws.go that share one protected header.
use jwx.Common.{
  ◌≡◌, refl, sym, ap, ◌∙◌, Bool, true, none, some, List, [], ◌∷◌, ok, >>=-eq-ok, arith, ==_iff,
}
use jwx.Common.Bytes.{Bytes}
use jwx.Fields.Values.{algorithm, one_of, Decoders}
use jwx.Jws.Headers.{Headers, get, signature_algorithms}
use jwx.Jws.Sign.Stamped.{stamp_lem}
use jwx.Jws.Signers.{Signer}
use jwx.Jws.Sign.{
  Services, Address, PayloadSigner, Store, Signed, update, stamp, sign_signature, sign_all,
}

module _ {K C X Raw S : Type 0} (decoders : Decoders K C X Raw) (services : Services K C X S)
    (payload : Bytes) (detached : Bool) (at : Address) where
  header-update :
      (store : Store decoders services) (g : Headers decoders)
      → (update decoders services store at g).header at ≡ g
  unfolding update
  header-update store g = rw ((==_iff at at).1 refl) refl

  -- A key whose protected header is at the address.
  abbrev pub shares : Signer S → S → PayloadSigner S
  shares signer key = record { signer = signer; key = key; public = none; protected = some at }

  -- One turn of the loop: the header is stamped to `g`, the signature made over `g`, and the header left so.
  pub record Turn (store : Store decoders services) (signer : Signer S) (key : S)
      (sig : Signed decoders services) (g : Headers decoders) : Type 0 where
    pub stamps : stamp decoders services signer key (store.header at) ≡ ok g
    pub address : sig.protected ≡ at
    pub shown : Bytes
    pub signs :
        sign_signature decoders services
          (record { headers = none; protected = some g; signature = []; detached = detached })
          payload
          signer
          key
        ≡ ok (sig.signature, shown)

  turn :
      (store : Store decoders services) (signer : Signer S) (key : S)
      (more : List (PayloadSigner S)) (st : Store decoders services)
      (sigs : List (Signed decoders services))
      → sign_all decoders services payload detached store (shares signer key ∷ more) ≡ ok (st, sigs)
      → (g : Headers decoders) × (sig : Signed decoders services) × (rest : List
          (Signed decoders services))
        × (sigs ≡ sig ∷ rest)
        × Turn store signer key sig g
        × (sign_all decoders services payload detached (update decoders services store at g) more
            ≡ ok (st, rest))
  unfolding sign_all
  turn store signer key more st sigs e =
      let (g, stamped, next) =
        >>=-eq-ok (stamp decoders services signer key (store.header at)) _ e in
      let ((sg, shown), signed, after) =
        >>=-eq-ok (sign_signature decoders services _ payload signer key) _ next in
      let ((last_store, rest), others, last) =
        >>=-eq-ok
          (sign_all decoders services payload detached (update decoders services store at g) more) _
          after in
      let same : last_store ≡ st = ground (arith, last) in
      (
        g,
        record { headers = none; protected = at; signature = sg },
        rest,
        ground arith,
        record {
          stamps = stamped;
          address = refl;
          shown = shown;
          signs = rw (header-update store g) at signed;
        },
        others ∙ ap (λ (x : Store decoders services). ok (x, rest)) same,
      )

  -- A header that is stamped names the algorithm of the signer.
  stamp-alg :
      (signer : Signer S) (key : S) (h g : Headers decoders)
      → one_of signer.algorithm signature_algorithms ≡ true
      → stamp decoders services signer key h ≡ ok g
      → get decoders g "alg" ≡ some (algorithm signer.algorithm)
  stamp-alg signer key h g known e =
      let (f, is_stamped) = stamp_lem decoders services signer key h known in
      let same : f ≡ g = let both = sym is_stamped.stamp_eq ∙ e in ground arith in
      ap (λ x. get decoders x "alg") (sym same) ∙ is_stamped.looks "alg" ∙ ground arith

  -- If two keys without public headers share a protected header, and the algorithms of their signers are
  -- algorithms of jws: the message shows the header of the second for both signatures, with the second
  -- algorithm, while the first signature was made over the header as it was stamped for the first key,
  -- with the first algorithm.
  pub shared_header :
      (store st : Store decoders services) (signer1 signer2 : Signer S) (key1 key2 : S)
      (sigs : List (Signed decoders services))
      → one_of signer1.algorithm signature_algorithms ≡ true
      → one_of signer2.algorithm signature_algorithms ≡ true
      → sign_all decoders services payload detached store
          (shares signer1 key1 ∷ shares signer2 key2 ∷ [])
        ≡ ok (st, sigs)
      → (g1 : Headers decoders) × (g2 : Headers decoders) × (sig1 : Signed decoders services)
        × (sig2 : Signed decoders services) × (sigs ≡ sig1 ∷ sig2 ∷ [])
        × Turn store signer1 key1 sig1 g1
        × Turn (update decoders services store at g1) signer2 key2 sig2 g2
        × (stamp decoders services signer2 key2 g1 ≡ ok g2)
        × (st.header sig1.protected ≡ g2)
        × (st.header sig2.protected ≡ g2)
        × (get decoders g1 "alg" ≡ some (algorithm signer1.algorithm))
        × (get decoders g2 "alg" ≡ some (algorithm signer2.algorithm))
  unfolding sign_all
  shared_header store st signer1 signer2 key1 key2 sigs known1 known2 e =
      let (g1, sig1, rest1, split1, turn1, next) =
        turn store signer1 key1 (shares signer2 key2 ∷ []) st sigs e in
      let store1 = update decoders services store at g1 in
      let (g2, sig2, rest2, split2, turn2, last) = turn store1 signer2 key2 [] st rest1 next in
      let ended : update decoders services store1 at g2 ≡ st = ground (arith, last) in
      let none_left : [] ≡ rest2 = ground (arith, last) in
      let shown : st.header at ≡ g2 =
        ap (λ (x : Store decoders services). x.header at) (sym ended) ∙ header-update store1 g2 in
      (
        g1,
        g2,
        sig1,
        sig2,
        split1 ∙ ap (λ l. sig1 ∷ l) (split2 ∙ ap (λ l. sig2 ∷ l) (sym none_left)),
        turn1,
        turn2,
        rw (header-update store g1) at turn2.stamps,
        ap st.header turn1.address ∙ shown,
        ap st.header turn2.address ∙ shown,
        stamp-alg signer1 key1 _ g1 known1 turn1.stamps,
        stamp-alg signer2 key2 _ g2 known2 turn2.stamps,
      )
