-- ===== src/Prelude/Stateful.antt =====
-- Fallible code whose writes outlive its errors: a state comes back with an error too. A module
-- takes these names or those of Prelude/Fallible for its do blocks.
use mathlib.Core.Path.{◌≡◌, refl}
use mathlib.Core.Logic.{◌⊎◌, inl, inr}
use native.Mathlib.Omega.{arith}
use watt_gateway.Prelude.Fallible.{Result, err, ok}

abbrev pub Stateful {ℓ κ μ} : Type ℓ → Type κ → Type μ → Type (ℓ ⊔ κ ⊔ μ)
Stateful S E A = S → S × Result E A

abbrev pub continue {ℓ κ μ ν} :
    {S : Type ℓ} {E : Type κ} {A : Type μ} {B : Type ν}
    → S × Result E A
    → (A → Stateful S E B)
    → S × Result E B
continue (s, err e) next = (s, err e)
continue (s, ok a) next = next a s

infixl 5 ◌>>=◌
abbrev pub ◌>>=◌ {ℓ κ μ ν} :
    {S : Type ℓ} {E : Type κ} {A : Type μ} {B : Type ν}
    → Stateful S E A
    → (A → Stateful S E B)
    → Stateful S E B
first >>= next = λ s. continue (first s) next

infixl 5 ◌>>◌
abbrev pub ◌>>◌ {ℓ κ μ} :
    {S : Type ℓ} {E : Type κ} {B : Type μ}
    → Stateful S E (Unit {0})
    → Stateful S E B
    → Stateful S E B
first >> next = first >>= λ done. next

-- A check that reads the state and changes nothing.
abbrev pub reading {ℓ κ μ} :
    {S : Type ℓ} {E : Type κ} {A : Type μ} → (S → Result E A) → Stateful S E A
reading check s = (s, check s)

-- A run that succeeds has run its first part with success, and the rest from there.
pub continue-ok {ℓ κ μ ν} :
    {S : Type ℓ} {E : Type κ} {A : Type μ} {B : Type ν} (ran : S × Result E A)
    (next : A → Stateful S E B) {s' : S} {b : B}
    → continue ran next ≡ (s', ok b)
    → (s : S) × (a : A) × (ran ≡ (s, ok a)) × (next a s ≡ (s', ok b))
continue-ok (s, err e) next h = cc
continue-ok (s, ok a) next h = (s, a, refl, h)

-- What each part keeps of the state, on success and on error, the whole keeps.
pub continue-keeps {ℓ κ μ ν ξ} :
    {S : Type ℓ} {E : Type κ} {A : Type μ} {B : Type ν} {P : S → Type ξ} (ran : S × Result E A)
    (next : A → Stateful S E B)
    → P ran.0
    → ((a : A) (s : S) → P s → P (next a s).0)
    → P (continue ran next).0
continue-keeps (s, err e) next here later = here
continue-keeps (s, ok a) next here later = later a s here

-- A run that fails has failed in its first part, or in the rest.
pub continue-err {ℓ κ μ ν} :
    {S : Type ℓ} {E : Type κ} {A : Type μ} {B : Type ν} (ran : S × Result E A)
    (next : A → Stateful S E B) {s' : S} {e : E}
    → continue ran next ≡ (s', err e)
    → (ran ≡ (s', err e)) ⊎ ((s : S) × (a : A) × (ran ≡ (s, ok a)) × (next a s ≡ (s', err e)))
continue-err (s, err f) next h = inl (ground (h, arith))
continue-err (s, ok a) next h = inr (s, a, refl, h)

-- The same of a check that only reads.
pub reading-ok {ℓ κ μ ν} :
    {S : Type ℓ} {E : Type κ} {A : Type μ} {B : Type ν} (s : S) (r : Result E A)
    (next : A → Stateful S E B) {s' : S} {b : B}
    → continue (s, r) next ≡ (s', ok b)
    → (a : A) × (r ≡ ok a) × (next a s ≡ (s', ok b))
reading-ok s (err e) next h = cc
reading-ok s (ok a) next h = (a, refl, h)
