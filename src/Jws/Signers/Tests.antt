-- ===== src/Jws/Signers/Tests.antt =====
-- A concrete registry of signers, and the theorem at it.
use jwx.Common.{ℕ, ◌≡◌, refl, none, some, [], ◌∷◌}
use jwx.Common.Assoc.{lookup, insert}
use jwx.Jws.Signers.{Signer, Registry, register_signer, new_signer, make_signer}
use jwx.Jws.Signers.Cache.{IsFresh, now, registers, makes, make_signer-new_signer}

abbrev old : Signer ℕ
old = record { algorithm = "HS256"; sign = λ buf key. some [] }

abbrev later : Signer ℕ
later = record { algorithm = "HS256"; sign = λ buf key. none }

abbrev registry : Registry ℕ
registry = record { signer_db = ("HS256", some old) ∷ []; signers = [] }

registry-IsFresh : IsFresh registry
unfolding lookup
registry-IsFresh = record { cached = λ alg signer e. cc }

-- Another signer is registered, and another algorithm is made.
abbrev changed : Registry ℕ
changed =
    (make_signer (register_signer "HS256" (some later) (make_signer registry "HS256").0) "HS384").0

found : new_signer registry "HS256" ≡ some old
unfolding new_signer lookup
found = refl

make_signer-new_signer_example :
    ((make_signer registry "HS256").1 ≡ some old)
    × ((make_signer registry "HS256").0.signer_db ≡ registry.signer_db)
    × IsFresh (make_signer registry "HS256").0
    × ((make_signer changed "HS256").1 ≡ some old)
make_signer-new_signer_example =
    make_signer-new_signer registry changed "HS256" old registry-IsFresh found
      (makes "HS384" (registers "HS256" (some later) now))

-- The signer that is registered later is not used.
stale :
    (make_signer (register_signer "HS256" (some later) (make_signer registry "HS256").0) "HS256").1
    ≡ some old
unfolding make_signer new_signer lookup insert register_signer
stale = refl
