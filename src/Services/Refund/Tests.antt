-- ===== src/Services/Refund/Tests.antt =====
-- A payment of 1.99 dollars, of which ten cents are kept.
use pactum_codex.Base.{◌≡◌, ◌≤◌, ◌<◌, ◌+◌, ◌*◌, arith, refl}
use pactum_codex.Services.Refund.{calculate_refund_amount}
use pactum_codex.Services.Refund.Amount.{calculate_refund_amount_lem}

kept : calculate_refund_amount 1990000 10 199 ≡ 1890000
unfolding calculate_refund_amount
kept = refl

calculate_refund_amount_lem_example :
    let refund = calculate_refund_amount 1990000 10 199 in
    (refund * 199 ≤ 1990000 * 189) × (1990000 * 189 < (refund + 1) * 199) × (refund ≤ 1990000)
calculate_refund_amount_lem_example =
    calculate_refund_amount_lem 1990000 10 199 (ground arith) (ground arith)
