-- ===== src/Base/Results.antt =====
-- A Go result `(A, error)`, where the value counts only if the error is nil.
use mathlib.Core.Path.{◌≡◌, refl}
use mathlib.Core.Logic.{◌⊎◌, inl, inr}
use mathlib.Core.Bool.{Bool, true, false}
use flowra.Base.Tests.{if◌then◌else◌}

pub data Result {ℓ κ} (E : Type κ) (A : Type ℓ) : Type (ℓ ⊔ κ) where
  ok : A → Result E A
  err : E → Result E A

infixl 5 ◌>>=◌ ◌>>◌
abbrev pub ◌>>=◌ {ℓ κ ι} :
    {E : Type ι} {A : Type ℓ} {B : Type κ} → Result E A → (A → Result E B) → Result E B
ok a >>= f = f a
err e >>= f = err e

abbrev pub ◌>>◌ {ℓ ι} : {E : Type ι} {B : Type ℓ} → Result E (Unit {0}) → Result E B → Result E B
m >> k = m >>= λ _. k

-- `if c { return e }`
abbrev pub fail_if {ι} : {E : Type ι} → Bool → E → Result E (Unit {0})
fail_if true e = err e
fail_if false e = ok tt

pub Result-cases {ℓ ι} :
    {E : Type ι} {A : Type ℓ} (r : Result E A) → ((a : A) × (r ≡ ok a)) ⊎ ((e : E) × (r ≡ err e))
Result-cases (ok a) = inl (a, refl)
Result-cases (err e) = inr (e, refl)

-- A chain that succeeds: the rest does, on the value of the first step.
pub chain_ok {ℓ κ ι} :
    {E : Type ι} {A : Type ℓ} {B : Type κ} (first : Result E A) (rest : A → Result E B) {out : B}
    → (first >>= rest) ≡ ok out
    → (v : A) × (rest v ≡ ok out) × (first ≡ ok v)
chain_ok (err e) rest h = cc
chain_ok (ok v) rest h = (v, h, refl)

pub ok-eq {ℓ ι} : {E : Type ι} {A : Type ℓ} {a b : A} → ◌≡◌ {A = Result E A} (ok a) (ok b) → a ≡ b
ok-eq h = cc

-- What `if c then err e else m` and `if c then m else err e` say where they succeed.
pub else-eq-ok {ℓ ι} :
    {E : Type ι} {A : Type ℓ} (c : Bool) (e : E) (m : Result E A) {a : A}
    → (if c then err e else m) ≡ ok a
    → (c ≡ false) × (m ≡ ok a)
else-eq-ok true e m h = cc
else-eq-ok false e m h = (refl, h)

pub then-eq-ok {ℓ ι} :
    {E : Type ι} {A : Type ℓ} (c : Bool) (e : E) (m : Result E A) {a : A}
    → (if c then m else err e) ≡ ok a
    → (c ≡ true) × (m ≡ ok a)
then-eq-ok true e m h = (refl, h)
then-eq-ok false e m h = cc
