-- ===== src/Services/Refund/Amount.antt =====
-- The refundable share of a payment: `calculate_refund_amount` of src/services/refund.rs.
use pactum_codex.Base.{
  ℕ, ◌+◌, ◌-◌, ◌*◌, ◌/◌, ◌%◌, ◌^◌, ◌≤◌, ◌<◌, ◌≡◌, arith, ◌==◌, Bool-cases, inl, inr, ◌||◌,
}
use native.Mathlib.Nat.{
  mod-eq_of_lt, le_trans, lt_of_le_of_lt, lt_of_not-le, mul-le-mul_left, le_of_mul-le-mul_right,
  sub-le, div-mul-le_self, le-div_iff_mul-le,
}
use pactum_codex.Services.Refund.{calculate_refund_amount}

share_le : (x total : ℕ) → 0 < total → (x / total * total ≤ x) × (x < (x / total + 1) * total)
share_le x total h =
    let above = le-div_iff_mul-le {k = total} {x = x / total + 1} {y = x} h in
    (div-mul-le_self x total, lt_of_not-le (λ over. ground (arith, above.1 over)))

-- For a payment and a fee whose product fits a `u64`, and a fee that is not zero, the refund is the
-- payment's share (total - nonrefundable) / total, rounded down, with no overflow: it is at most
-- the payment, and less than one unit below the share.
pub calculate_refund_amount_lem :
    (paid nonrefundable total : ℕ)
    → paid * total < 2 ^ 64
    → 0 < total
    → let refund = calculate_refund_amount paid nonrefundable total in
      let share = paid * (total - nonrefundable) in
      (refund * total ≤ share) × (share < (refund + 1) * total) × (refund ≤ paid)
unfolding calculate_refund_amount
calculate_refund_amount_lem paid nonrefundable total fits h =
    let share = paid * (total - nonrefundable) in
    let part : share ≤ paid * total = mul-le-mul_left paid (sub-le total nonrefundable) in
    let whole : share % 2 ^ 64 ≡ share = mod-eq_of_lt (lt_of_le_of_lt part fits) in
    elim (Bool-cases (total == 0 || paid == 0)) [
      | inl nothing ↦ ground (arith, nothing)
      | inr something ↦
          rw (something, whole)
            (
              (share_le share total h).0,
              (share_le share total h).1,
              le_of_mul-le-mul_right (le_trans (share_le share total h).0 part) h,
            )
    ]
