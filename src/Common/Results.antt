-- ===== src/Common/Results.antt =====
-- Go's `(value, error)` results, with a panic as a third outcome.
use mathlib.Core.Path.{◌≡◌, refl}

-- `E` is what the caller can tell about the error. `panic` is a run-time panic.
pub data Outcome {ℓ} (E : Type 0) (A : Type ℓ) : Type ℓ where
  panic : Outcome E A
  err : E → Outcome E A
  ok : A → Outcome E A

-- What `if err != nil { return err }` does between two calls.
infixl 5 ◌>>=◌
abbrev pub ◌>>=◌ {ℓ κ} :
    {E : Type 0} {A : Type ℓ} {B : Type κ} (first : Outcome E A) (rest : A → Outcome E B)
    → Outcome E B
panic >>= rest = panic
err failure >>= rest = err failure
ok value >>= rest = rest value

-- What a successful chain says of its parts.
pub >>=-eq-ok {ℓ κ} :
    {E : Type 0} {A : Type ℓ} {B : Type κ} (m : Outcome E A) (f : A → Outcome E B) {b : B}
    → (m >>= f) ≡ ok b
    → (a : A) × (m ≡ ok a) × (f a ≡ ok b)
>>=-eq-ok panic f h = cc
>>=-eq-ok (err e) f h = cc
>>=-eq-ok (ok a) f h = (a, refl, h)

-- A chain of successes.
pub >>=-of_ok {ℓ κ} :
    {E : Type 0} {A : Type ℓ} {B : Type κ} (m : Outcome E A) (f : A → Outcome E B) {a : A} {b : B}
    → m ≡ ok a
    → f a ≡ ok b
    → (m >>= f) ≡ ok b
>>=-of_ok m f first rest = rw first rest
