-- ===== src/Base/Results.antt =====
-- Code that may throw: a result that is a value or the exception.
use mathlib.Core.Path.{◌≡◌, refl, subst}
use mathlib.Core.Logic.{◌⊎◌, inl, inr}
use mathlib.Core.Bool.{Bool, true, false}

pub data Result {ℓ κ} (E : Type κ) (A : Type ℓ) : Type (ℓ ⊔ κ) where
  ok : A → Result E A
  err : E → Result E A

infixl 5 ◌>>=◌ ◌>>◌
abbrev pub ◌>>=◌ {ℓ κ μ} :
    {E : Type μ} {A : Type ℓ} {B : Type κ} → Result E A → (A → Result E B) → Result E B
ok a >>= f = f a
err e >>= f = err e

abbrev pub ◌>>◌ {κ μ} : {E : Type μ} {B : Type κ} → Result E (Unit {0}) → Result E B → Result E B
m >> k = m >>= λ _. k

-- `if (b) throw e`
abbrev pub throw_if {μ} : {E : Type μ} → Bool → E → Result E (Unit {0})
throw_if true e = err e
throw_if false e = ok tt

pub Result-cases {ℓ μ} :
    {E : Type μ} {A : Type ℓ} (r : Result E A) → ((a : A) × (r ≡ ok a)) ⊎ ((e : E) × (r ≡ err e))
Result-cases (ok a) = inl (a, refl)
Result-cases (err e) = inr (e, refl)

-- Inversion of a successful bind.
pub >>=-eq-ok {ℓ κ μ} :
    {E : Type μ} {A : Type ℓ} {B : Type κ} (first : Result E A) (next : A → Result E B) {last : B}
    → (first >>= next) ≡ ok last
    → (middle : A) × (first ≡ ok middle) × (next middle ≡ ok last)
>>=-eq-ok (err e) next returned = cc
>>=-eq-ok (ok middle) next returned = (middle, refl, returned)

-- What the code returns, if it returns, satisfies `P`.
pub data Holds {ℓ κ μ} {E : Type μ} {A : Type ℓ} (P : A → Type κ)
    : Result E A → Type (ℓ ⊔ κ ⊔ μ) where
  returns : {a : A} → P a → Holds P (ok a)
  throws : {e : E} → Holds P (err e)

pub >>=-Holds {ℓ κ μ ν} :
    {E : Type μ} {A : Type ℓ} {B : Type ν} {P : B → Type κ} (m : Result E A) {f : A → Result E B}
    → ((a : A) → Holds P (f a))
    → Holds P (m >>= f)
>>=-Holds (ok a) h = h a
>>=-Holds (err e) h = throws

pub Holds-ok {ℓ κ μ} :
    {E : Type μ} {A : Type ℓ} {P : A → Type κ} {r : Result E A} {a : A} → Holds P r → r ≡ ok a → P a
Holds-ok {P} (returns p) h = subst P (cc) p
Holds-ok throws h = cc
