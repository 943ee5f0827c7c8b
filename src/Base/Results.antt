-- ===== src/Base/Results.antt =====
-- Go's pair of a value and an error: a value, or the sentinel error that `errors.Is` finds.

use mathlib.Core.Path.{◌≡◌, refl}
use mathlib.Core.Bool.{Bool, true, false}
use mathlib.Core.Logic.{◌⊎◌, inl, inr}

pub data Result {ℓ} (E A : Type ℓ) : Type ℓ where
  ok : A → Result E A
  err : E → Result E A

infixl 5 ◌>>=◌ ◌>>◌
abbrev pub ◌>>=◌ {ℓ} : {E A B : Type ℓ} → Result E A → (A → Result E B) → Result E B
ok a >>= f = f a
err e >>= f = err e

abbrev pub ◌>>◌ {ℓ} : {E B : Type ℓ} → Result E (Unit {ℓ}) → Result E B → Result E B
m >> k = m >>= λ _. k

-- `if test { return e }`.
abbrev pub reject {ℓ} : {E : Type ℓ} → Bool → E → Result E (Unit {ℓ})
reject true e = err e
reject false e = ok tt

pub Result-cases {ℓ} :
    {E A : Type ℓ} (r : Result E A) → ((a : A) × (r ≡ ok a)) ⊎ ((e : E) × (r ≡ err e))
Result-cases (ok a) = inl (a, refl)
Result-cases (err e) = inr (e, refl)

pub ok-injective {ℓ} : {E A : Type ℓ} {a b : A} → Path (Result E A) (ok a) (ok b) → a ≡ b
ok-injective h = cc

-- What a chain that succeeds went through.
pub bind_steps :
    {E A B : Type 0} (m : Result E A) (f : A → Result E B) (b : B)
    → (m >>= f) ≡ ok b
    → (a : A) × (m ≡ ok a) × (f a ≡ ok b)
bind_steps (ok a) f b h = (a, refl, h)
bind_steps (err e) f b h = cc

pub bind_ok :
    {E A B : Type 0} (m : Result E A) (f : A → Result E B) (a : A) → m ≡ ok a → (m >>= f) ≡ f a
bind_ok (ok b) f a h = cc
bind_ok (err e) f a h = cc

-- Equal results, chained with functions that agree, are equal.
pub bind_cong :
    {E A B : Type 0} (m n : Result E A) (f g : A → Result E B)
    → m ≡ n
    → ((a : A) → f a ≡ g a)
    → (m >>= f) ≡ (n >>= g)
bind_cong (ok a) n f g e h = rw (← e) (h a)
bind_cong (err x) n f g e h = rw (← e) refl
