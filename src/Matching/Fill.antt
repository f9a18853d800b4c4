-- ===== src/Matching/Fill.antt =====
-- One fill against one maker: `calculate_fill` (programs/tidebook/src/matching.rs).
use native.Mathlib.Nat.{
  pow-suc, pow-le-pow_right, le_trans, le_refl, mul-le-mul, le-div_iff_mul-le, div-le_self,
  div-mul-le_self, mul-add, add-mul,
}
use tidebook.Base.{ℕ, zero, suc, ◌+◌, ◌*◌, ◌/◌, ◌^◌, ◌≤◌, ◌<◌, ◌≡◌, ◌⊎◌, min, ok, err, arith}
use tidebook.Base.Word.{u64_max, u128_max}
use tidebook.Errors.{program, order_notional_overflow}
use tidebook.Matching.{FillCalculation, quote_notional, calculate_fill}

pub pow10_pos : (d : ℕ) → 0 < 10 ^ d
pow10_pos zero = omega arith
pow10_pos (suc d) = rw pow-suc (omega (arith, pow10_pos d))

-- A scale of at most 38 digits fits a `u128`.
pub pow10-le_max : (d : ℕ) → d ≤ 38 → 10 ^ d ≤ u128_max
pow10-le_max d h = le_trans (pow-le-pow_right {n = 10} (omega arith) h) (omega arith)

product-le_max : (a b : ℕ) → a ≤ u64_max → b ≤ u64_max → a * b ≤ u128_max
product-le_max a b ha hb = le_trans (mul-le-mul ha hb) (omega arith)

-- `floor(price * quantity / 10^decimals)`, the amount that a trade is worth.
unfoldable pub notional : ℕ → ℕ → ℕ → ℕ
notional price quantity base_decimals = price * quantity / 10 ^ base_decimals

pub quote_notional-cases :
    (p q d : ℕ)
    → (quote_notional p q d ≡ ok (notional p q d))
      ⊎ (quote_notional p q d ≡ err (program order_notional_overflow))
unfolding quote_notional notional
quote_notional-cases p q d = ground (arith, pow10_pos d)

pub quote_notional-eq :
    (p q d : ℕ) → p ≤ u64_max → q ≤ u64_max → d ≤ 38 → quote_notional p q d ≡ ok (notional p q d)
unfolding quote_notional notional
quote_notional-eq p q d hp hq hd =
    ground (arith, product-le_max p q hp hq, pow10-le_max d hd, pow10_pos d)

abbrev pub fill_of : ℕ → ℕ → ℕ → ℕ → FillCalculation
fill_of p t m d = record {
  base_quantity = min t m;
  quote_quantity = notional p (min t m) d;
  execution_price = p;
}

pub calculate_fill-ok :
    (p t m d : ℕ) {f : FillCalculation}
    → calculate_fill p t m d ≡ ok f
    → (f ≡ fill_of p t m d)
      × (0 < min t m)
      × (0 < notional p (min t m) d)
      × (notional p (min t m) d ≤ u64_max)
unfolding calculate_fill
calculate_fill-ok p t m d h = ground (arith, quote_notional-cases p (min t m) d)

pub calculate_fill-eq :
    (p t m d : ℕ)
    → p ≤ u64_max
    → t ≤ u64_max
    → m ≤ u64_max
    → d ≤ 38
    → 0 < min t m
    → 0 < notional p (min t m) d
    → notional p (min t m) d ≤ u64_max
    → calculate_fill p t m d ≡ ok (fill_of p t m d)
unfolding calculate_fill
calculate_fill-eq p t m d hp ht hm hd b n top =
    rw (quote_notional-eq p (min t m) d hp (omega arith) hd) (ground arith)

div_mono : (a b s : ℕ) → 0 < s → a ≤ b → a / s ≤ b / s
div_mono a b s hs h = (le-div_iff_mul-le hs).1 (le_trans (div-mul-le_self a s) h)

div-super : (a b s : ℕ) → 0 < s → a / s + b / s ≤ (a + b) / s
div-super a b s hs =
    (le-div_iff_mul-le hs).1
      (omega (arith, div-mul-le_self a s, div-mul-le_self b s, add-mul (a / s) (b / s) s))

-- A better price is worth at least as much, and so is a larger quantity.
pub notional_mono : (p q b d : ℕ) → p ≤ q → notional p b d ≤ notional q b d
unfolding notional
notional_mono p q b d h = div_mono (p * b) (q * b) (10 ^ d) (pow10_pos d) (mul-le-mul h (le_refl b))

-- Two parts are together worth at most the whole: each rounds down.
pub notional-add-le : (p a b d : ℕ) → notional p a d + notional p b d ≤ notional p (a + b) d
unfolding notional
notional-add-le p a b d = rw (mul-add p a b) (div-super (p * a) (p * b) (10 ^ d) (pow10_pos d))

pub notional_mono_quantity : (p a b d : ℕ) → a ≤ b → notional p a d ≤ notional p b d
unfolding notional
notional_mono_quantity p a b d h =
    div_mono (p * a) (p * b) (10 ^ d) (pow10_pos d) (mul-le-mul (le_refl p) h)

pub notional-zero : (p d : ℕ) → notional p 0 d ≡ 0
unfolding notional
notional-zero p d = ground (arith, div-le_self (p * 0) (10 ^ d))
