-- ===== src/Base/Word.antt =====
-- Rust's machine integers: values are plain numbers, and the checked operations test their width.
use Prim.Native.Nat.{zero, suc, ℕ, ◌+◌, ◌-◌, ◌*◌, ◌/◌, ◌^◌, ◌≤◌}
use mathlib.Core.Path.{◌≡◌}
use mathlib.Core.Option.{Option, none, some}
use native.Mathlib.Omega.{arith}
use tidebook.Errors.{Error}
use tidebook.Base.Tests.{◌==◌, ltb, leb, if◌then◌else◌}
use tidebook.Base.Outcome.{ok, ok_or}

abbrev pub u64_max : ℕ
u64_max = 18446744073709551615

abbrev pub u128_max : ℕ
u128_max = 340282366920938463463374607431768211455

-- The range test that every checked operation of the width `top` ends in.
abbrev pub narrow : ℕ → ℕ → Option ℕ
narrow top n = if leb n top then some n else none

-- `u64::checked_add`, `checked_sub`, `checked_mul`, and `u64::try_from`.
unfoldable pub checked_add : ℕ → ℕ → Option ℕ
checked_add a b = narrow u64_max (a + b)

unfoldable pub checked_sub : ℕ → ℕ → Option ℕ
checked_sub a b = if leb b a then some (a - b) else none

unfoldable pub checked_mul : ℕ → ℕ → Option ℕ
checked_mul a b = narrow u64_max (a * b)

unfoldable pub checked_pow : ℕ → ℕ → Option ℕ
checked_pow a b = narrow u64_max (a ^ b)

-- `checked_ilog10`: the largest power of ten that a `u64` reaches, 10 ^ 19 at most.
unfoldable ilog10_from : ℕ → ℕ → ℕ
ilog10_from zero n = 0
ilog10_from (suc k) n = let rest = ilog10_from k n in if leb (10 ^ suc k) n then suc k else rest

unfoldable pub checked_ilog10 : ℕ → Option ℕ
unfolding ilog10_from
checked_ilog10 n = if n == 0 then none else some (ilog10_from 19 n)

unfoldable pub try_from_u64 : ℕ → Option ℕ
try_from_u64 n = narrow u64_max n

-- The same on `u128`; `checked_pow_u128` is on base 10 only where the program calls it.
unfoldable pub checked_add_u128 : ℕ → ℕ → Option ℕ
checked_add_u128 a b = narrow u128_max (a + b)

unfoldable pub checked_mul_u128 : ℕ → ℕ → Option ℕ
checked_mul_u128 a b = narrow u128_max (a * b)

unfoldable pub checked_pow_u128 : ℕ → ℕ → Option ℕ
checked_pow_u128 a b = narrow u128_max (a ^ b)

-- `checked_div` fails on a zero divisor only.
unfoldable pub checked_div : ℕ → ℕ → Option ℕ
checked_div a b = if ltb 0 b then some (a / b) else none

-- What a successful checked operation has found.
pub checked_add-ok :
    (a b : ℕ) (e : Error) {c : ℕ} → ok_or (checked_add a b) e ≡ ok c → (c ≡ a + b) × (c ≤ u64_max)
unfolding checked_add
checked_add-ok a b e h = ground arith

pub checked_sub-ok :
    (a b : ℕ) (e : Error) {c : ℕ} → ok_or (checked_sub a b) e ≡ ok c → (c + b ≡ a) × (b ≤ a)
unfolding checked_sub
checked_sub-ok a b e h = ground arith

pub checked_mul-ok :
    (a b : ℕ) (e : Error) {c : ℕ} → ok_or (checked_mul a b) e ≡ ok c → (c ≡ a * b) × (c ≤ u64_max)
unfolding checked_mul
checked_mul-ok a b e h = ground arith
