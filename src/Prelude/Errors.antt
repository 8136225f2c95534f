-- ===== src/Prelude/Errors.antt =====
-- A call that may return an error.
use mathlib.Core.Path.{◌≡◌, refl}

pub data Result {ℓ κ} (Err : Type ℓ) (A : Type κ) : Type (ℓ ⊔ κ) where
  err : Err → Result Err A
  ok : A → Result Err A

infixl 5 ◌>>=◌
-- The next step, unless the one before it has failed.
abbrev pub ◌>>=◌ {ℓ κ μ} :
    {Err : Type ℓ} {A : Type κ} {B : Type μ} → Result Err A → (A → Result Err B) → Result Err B
err failure >>= next = err failure
ok value >>= next = next value

pub ok_eq {ℓ κ} : {E : Type ℓ} {A : Type κ} {a b : A} → ◌≡◌ {A = Result E A} (ok a) (ok b) → a ≡ b
ok_eq e = cc

-- Where a chain succeeds, its first step has given some value, from which the rest goes on.
pub >>=-eq-ok {ℓ κ μ} :
    {Err : Type ℓ} {A : Type κ} {B : Type μ} {result : B} (first : Result Err A)
    (next : A → Result Err B)
    → (first >>= next) ≡ ok result
    → (value : A) × (first ≡ ok value) × (next value ≡ ok result)
>>=-eq-ok (err failure) next e = cc
>>=-eq-ok (ok value) next e = (value, refl, e)

pub map-eq-err {ℓ κ μ} :
    {E : Type ℓ} {A : Type κ} {B : Type μ} (m : Result E A) (f : A → B) {e : E}
    → (m >>= λ a. ok (f a)) ≡ err e
    → m ≡ err e
map-eq-err (ok a) f h = cc
map-eq-err (err x) f h = cc
