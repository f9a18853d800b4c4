-- ===== src/Fees/Bounds.antt =====
-- What a taker pays under `calculate_taker_fee` (programs/tidebook/src/fees.rs).
use tidebook.Base.{ℕ, ◌+◌, ◌*◌, ◌/◌, ◌≤◌, ◌<◌, ◌≡◌, ok, err, arith}
use tidebook.Base.Word.{u64_max}
use tidebook.Errors.{program, fee_rate_too_high}
use tidebook.Fees.{calculate_taker_fee, max_taker_fee_bps, rounded_up_fee}

-- The fee as a mathematical function, the ceiling of `q * bps / 10000`.
unfoldable pub ceiling_fee : ℕ → ℕ → ℕ
ceiling_fee q bps = (q * bps + 9_999) / 10_000

product-le : (q bps : ℕ) → q ≤ u64_max → bps ≤ max_taker_fee_bps → q * bps ≤ u64_max * 1_000
product-le q bps hq hb = grind arith

product-le-mul : (q bps : ℕ) → bps ≤ max_taker_fee_bps → q * bps ≤ q * 1_000
product-le-mul q bps hb = grind arith

-- On every `u64` amount `calculate_taker_fee` succeeds exactly for a rate of at most 1,000 basis
-- points, with the ceiling of `q * bps / 10000`, and a higher rate is refused with
-- `FeeRateTooHigh`: no overflow error is ever reached.
pub calculate_taker_fee-eq :
    (q bps : ℕ)
    → q ≤ u64_max
    → ((bps ≤ max_taker_fee_bps → calculate_taker_fee q bps ≡ ok (ceiling_fee q bps))
        × (max_taker_fee_bps < bps → calculate_taker_fee q bps ≡ err (program fee_rate_too_high)))
unfolding calculate_taker_fee ceiling_fee
calculate_taker_fee-eq q bps hq = (λ hb. ground (arith, product-le q bps hq hb), λ hb. ground arith)

rounded_up_fee-ok : (q bps fee : ℕ) → rounded_up_fee q bps ≡ ok fee → fee ≡ ceiling_fee q bps
unfolding rounded_up_fee ceiling_fee
rounded_up_fee-ok q bps fee h = ground arith

-- A successful fee is the ceiling, also where the program returns zero early.
pub calculate_taker_fee-ok :
    (q bps fee : ℕ)
    → calculate_taker_fee q bps ≡ ok fee
    → (bps ≤ max_taker_fee_bps) × (fee ≡ ceiling_fee q bps)
unfolding calculate_taker_fee ceiling_fee
calculate_taker_fee-ok q bps fee h = ground (arith, rounded_up_fee-ok q bps fee)

-- A fee that is returned is the amount's share rounded up, and never more than the amount
-- itself.
pub calculate_taker_fee_bounds :
    (q bps fee : ℕ)
    → calculate_taker_fee q bps ≡ ok fee
    → (q * bps ≤ fee * 10_000) × (fee * 10_000 < q * bps + 10_000) × (fee ≤ q)
unfolding ceiling_fee
calculate_taker_fee_bounds q bps fee h =
    let (hb, e) = calculate_taker_fee-ok q bps fee h in
    (omega arith, omega arith, omega (arith, product-le-mul q bps hb))

-- Splitting one fill into two never lowers the total fee at the same rate.
pub calculate_taker_fee_subadditive :
    (a b bps whole first second : ℕ)
    → calculate_taker_fee (a + b) bps ≡ ok whole
    → calculate_taker_fee a bps ≡ ok first
    → calculate_taker_fee b bps ≡ ok second
    → whole ≤ first + second
calculate_taker_fee_subadditive a b bps whole first second hw hf hs = omega (
  arith,
  calculate_taker_fee_bounds (a + b) bps whole hw,
  calculate_taker_fee_bounds a bps first hf,
  calculate_taker_fee_bounds b bps second hs,
)
