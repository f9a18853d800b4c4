-- ===== src/Base/Outcome.antt =====
-- Results of the program's fallible calls, with `do`, and the inversion of a successful chain.
use mathlib.Core.Path.{◌≡◌, refl}
use mathlib.Core.Logic.{◌⊎◌, inl, inr}
use mathlib.Core.Bool.{Bool, true, false}
use mathlib.Core.Option.{Option, none, some}
use tidebook.Errors.{Error}

-- `anchor_lang::Result`.
pub data Result {κ} (T : Type κ) : Type κ where
  err : Error → Result T
  ok : T → Result T

-- `require!(test, error)`.
abbrev pub require : (test : Bool) → Error → Result (Unit {0})
require false failure = err failure
require true _ = ok tt

-- The `?` operator: the first failure ends the chain.
infixl 5 ◌>>=◌ ◌>>◌
abbrev pub ◌>>=◌ {κ μ} : {T : Type κ} {S : Type μ} → Result T → (T → Result S) → Result S
err failure >>= next = err failure
ok value >>= next = next value

abbrev pub ◌>>◌ {κ} : {T : Type κ} (check : Result (Unit {0})) → Result T → Result T
check >> rest = check >>= (λ _. rest)

-- `Option::ok_or`.
abbrev pub ok_or {ℓ} : {A : Type ℓ} → Option A → Error → Result A
ok_or none e = err e
ok_or (some a) e = ok a

abbrev pub is_ok {ℓ} : {A : Type ℓ} → Result A → Bool
is_ok (ok a) = true
is_ok (err e) = false

pub Result-cases {ℓ} :
    {A : Type ℓ} (r : Result A) → ((a : A) × (r ≡ ok a)) ⊎ ((e : Error) × (r ≡ err e))
Result-cases (ok a) = inl (a, refl)
Result-cases (err e) = inr (e, refl)

-- Inversion of a successful chain, step by step, into any goal.
module _ {ℓ κ μ} {A : Type ℓ} {B : Type κ} {P : Type μ} where
  pub bind_case :
      (m : Result A) (f : A → Result B) {b : B}
      → (m >>= f) ≡ ok b
      → ((a : A) → m ≡ ok a → f a ≡ ok b → P)
      → P
  bind_case (ok a) f h k = k a refl h
  bind_case (err e) f h k = absurd (cc h)

module _ {ℓ μ} {B : Type ℓ} {P : Type μ} where
  pub require_case :
      (t : Bool) (e : Error) (m : Result B) {b : B}
      → (require t e >> m) ≡ ok b
      → (t ≡ true → m ≡ ok b → P)
      → P
  require_case true e m h k = k refl h
  require_case false e m h k = absurd (cc h)
