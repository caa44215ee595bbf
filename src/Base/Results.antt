-- ===== src/Base/Results.antt =====
-- A Go pair `(value, error)` whose value counts only without an error.
use mathlib.Core.Path.{◌≡◌, refl}
use mathlib.Core.Bool.{Bool, true, false}
use mathlib.Core.Option.{Option, none, some}

pub data Result {ℓ} (E : Type 0) (A : Type ℓ) : Type ℓ where
  ok : A → Result E A
  err : E → Result E A

-- An early return with an error unless the test holds.
abbrev pub guard : {E : Type 0} → Bool → E → Result E (Unit {0})
guard false failure = err failure
guard true failure = ok tt

-- `if err != nil { return wrap }`
abbrev pub need {ℓ} : {E : Type 0} {A : Type ℓ} → E → Option A → Result E A
need e none = err e
need e (some a) = ok a

-- Going on with the value; an error ends the chain.
infixl 5 ◌>>=◌ ◌>>◌
abbrev pub ◌>>=◌ {ℓ κ} :
    {E : Type 0} {A : Type ℓ} {B : Type κ} → Result E A → (A → Result E B) → Result E B
err failure >>= next = err failure
ok value >>= next = next value

abbrev pub ◌>>◌ {ℓ} : {E : Type 0} {B : Type ℓ} → Result E (Unit {0}) → Result E B → Result E B
check >> next = check >>= λ unit. next

pub >>=-eq-ok {ℓ κ} :
    {E : Type 0} {A : Type ℓ} {B : Type κ} (first : Result E A) (next : A → Result E B) {result : B}
    → (first >>= next) ≡ ok result
    → (value : A) × (first ≡ ok value) × (next value ≡ ok result)
>>=-eq-ok (err failure) next done = cc
>>=-eq-ok (ok value) next done = (value, refl, done)

-- To split on a computed result and keep the equation.
pub Result-cases {ℓ} :
    {E : Type 0} {A : Type ℓ} (P : Result E A → Type 0) (r : Result E A)
    → ((a : A) → r ≡ ok a → P (ok a))
    → ((e : E) → r ≡ err e → P (err e))
    → P r
Result-cases P (ok a) f g = f a refl
Result-cases P (err e) f g = g e refl

-- Inversion of a guarded early return.
pub guard-eq-ok {ℓ} :
    {E : Type 0} {B : Type ℓ} (b : Bool) (e : E) (m : Result E B) {r : B}
    → (guard b e >> m) ≡ ok r
    → (b ≡ true) × (m ≡ ok r)
guard-eq-ok true e m h = (refl, h)
guard-eq-ok false e m h = cc

pub guard-true {ℓ} :
    {E : Type 0} {B : Type ℓ} (b : Bool) (e : E) (m : Result E B) {r : B}
    → b ≡ true
    → m ≡ ok r
    → (guard b e >> m) ≡ ok r
guard-true b e m t h = rw t h

pub ok-injective {ℓ} :
    {E : Type 0} {A : Type ℓ} {a b : A} → ◌≡◌ {A = Result E A} (ok a) (ok b) → a ≡ b
ok-injective {E} {A} {a} p = λ i. value (p i)
  where
    value : Result E A → A
    value (ok x) = x
    value (err e) = a
