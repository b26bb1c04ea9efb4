-- ===== src/Handlers/Payment/Amounts.antt =====
-- The amount of a payment: `cents_to_token_units` of src/handlers/payment.rs.
use pactum_codex.Base.{ℕ, zero, suc, ◌+◌, ◌*◌, ◌^◌, ◌≤◌, ◌<◌, ◌≡◌, some, arith}
use pactum_codex.Handlers.Payment.{cents_to_token_units}

pow-hundreds : (d : ℕ) → d ≤ 7 → (k : ℕ) × (10 ^ (d + 2) ≡ k * 100) × (k ≤ 10000000)
pow-hundreds zero h = (1, omega arith, omega arith)
pow-hundreds (suc zero) h = (10, omega arith, omega arith)
pow-hundreds (suc (suc zero)) h = (100, omega arith, omega arith)
pow-hundreds (suc (suc (suc zero))) h = (1000, omega arith, omega arith)
pow-hundreds (suc (suc (suc (suc zero)))) h = (10000, omega arith, omega arith)
pow-hundreds (suc (suc (suc (suc (suc zero))))) h = (100000, omega arith, omega arith)
pow-hundreds (suc (suc (suc (suc (suc (suc zero)))))) h = (1000000, omega arith, omega arith)
pow-hundreds (suc (suc (suc (suc (suc (suc (suc zero))))))) h = (10000000, omega arith, omega arith)
pow-hundreds (suc (suc (suc (suc (suc (suc (suc (suc d)))))))) h = absurd (omega arith)

product_bound : (cents k : ℕ) → cents < 2 ^ 32 → k ≤ 10000000 → cents * (k * 100) < 2 ^ 63
product_bound cents k h b = let most : cents * k ≤ 4294967296 * k = grind arith in omega arith

-- For every fee that fits a `u32` and every token of two to nine decimals the conversion neither
-- overflows an `i64` nor rounds: the units times 100 are the cents times 10 to the decimals.
pub cents_to_token_units_exact :
    (cents d : ℕ)
    → cents < 2 ^ 32
    → d ≤ 7
    → (units : ℕ) × (cents_to_token_units cents (d + 2) ≡ some units)
      × (units * 100 ≡ cents * 10 ^ (d + 2))
unfolding cents_to_token_units
cents_to_token_units_exact cents d h hd =
    let (k, e, bound) = pow-hundreds d hd in
    (cents * k, ground (arith, e, product_bound cents k h bound), rw e (omega arith))
