-- ===== src/Services/SolanaPay.antt =====
-- Payment links and the confirmation of a payment: src/services/solana_pay.rs. A text is the list of
-- its bytes, an `i64` amount an integer.
pub mod Confirm
mod Tests
pub mod Percent
use Prim.Native.Char.{code}
use pactum_codex.Base.{
  ℕ, zero, suc, ◌+◌, ◌-◌, ◌/◌, ◌%◌, Bool, ◌&&◌, ◌||◌, String, List, [], ◌∷◌, ◌++◌, ◌==◌, leb, ltb,
  if◌then◌else◌, ℤ, pos, negsuc, true, false, Option, some, none, is_value, exists, update_where,
}
use pactum_codex.Error.{AppError}
use pactum_codex.State.Rows.{Payment, PaymentStatus}
use pactum_codex.State.World.{M, ◌>>=◌, pure, now, execute_returning}

-- The bytes of a text of the program, which are ASCII.
abbrev pub codes : String → List ℕ
codes String.[] = []
codes (String.◌∷◌ c s) = code c ∷ codes s

-- `byte.is_ascii_alphanumeric() || matches!(byte, b'-' | b'_' | b'.' | b'~')`
abbrev pub is_unreserved : ℕ → Bool
is_unreserved b =
    (leb b'0' b && leb b b'9')
    || (leb b'A' b && leb b b'Z')
    || (leb b'a' b && leb b b'z')
    || b == b'-'
    || b == b'_'
    || b == b'.'
    || b == b'~'

-- A digit of `{:X}`.
abbrev pub hex_upper : ℕ → ℕ
hex_upper d = if leb d 9 then d + b'0' else d - 10 + b'A'

unfoldable pub percent_encode_minimal : List ℕ → List ℕ
percent_encode_minimal [] = []
percent_encode_minimal (b ∷ bs) =
    let out = percent_encode_minimal bs in
    if is_unreserved b then b ∷ out else b'%' ∷ hex_upper (b / 16) ∷ hex_upper (b % 16) ∷ out

strip_last : ℕ → List ℕ → List ℕ
strip_last c [] = if c == b'0' then [] else c ∷ []
strip_last c (d ∷ ds) = c ∷ d ∷ ds

-- `frac.pop()` while the text ends with '0'
unfoldable pub strip_zeros : List ℕ → List ℕ
unfolding strip_last
strip_zeros [] = []
strip_zeros (c ∷ cs) = strip_last c (strip_zeros cs)

-- `{fractional:06}`
abbrev pub six_digits : ℕ → List ℕ
six_digits n =
    (n / 100000 % 10 + b'0')
    ∷ (n / 10000 % 10 + b'0')
    ∷ (n / 1000 % 10 + b'0')
    ∷ (n / 100 % 10 + b'0')
    ∷ (n / 10 % 10 + b'0')
    ∷ (n % 10 + b'0')
    ∷ []

-- `{whole}`: the decimal digits of a number, at most `fuel` of them, before `acc`. An `i64` has at
-- most 19 digits.
unfoldable pub decimal : ℕ → ℕ → List ℕ → List ℕ
decimal zero n acc = acc
decimal (suc fuel) n acc =
    let more = decimal fuel (n / 10) ((n % 10 + b'0') ∷ acc) in
    if ltb n 10 then (n + b'0') ∷ acc else more

abbrev pub format_abs : ℕ → List ℕ
format_abs n =
    let whole = decimal 19 (n / 1000000) [] in
    let fractional = n % 1000000 in
    if fractional == 0 then whole else whole ++ b'.' ∷ strip_zeros (six_digits fractional)

unfoldable pub format_amount_6dp : ℤ → List ℕ
format_amount_6dp (pos n) = format_abs n
format_amount_6dp (negsuc n) = b'-' ∷ format_abs (suc n)

unfoldable pub build_solana_pay_url : List ℕ → ℤ → List ℕ → List ℕ → List ℕ → List ℕ → List ℕ
build_solana_pay_url treasury_ata amount_units mint reference label memo =
    codes "solana:"
    ++ treasury_ata
    ++ codes "?amount="
    ++ format_amount_6dp amount_units
    ++ codes "&spl-token="
    ++ mint
    ++ codes "&reference="
    ++ reference
    ++ codes "&label="
    ++ percent_encode_minimal label
    ++ codes "&memo="
    ++ percent_encode_minimal memo

-- `status = 'pending'`, and so for the other texts.
abbrev pub has_status : PaymentStatus → Payment → Bool
has_status PaymentStatus.pending p = elim (p.status) [ PaymentStatus.pending ↦ true | _ ↦ false ]
has_status PaymentStatus.confirmed p = elim (p.status) [
  | PaymentStatus.confirmed ↦ true
  | _ ↦ false
]
has_status PaymentStatus.expired p = elim (p.status) [ PaymentStatus.expired ↦ true | _ ↦ false ]
has_status PaymentStatus.refund_pending p = elim (p.status) [
  | PaymentStatus.refund_pending ↦ true
  | _ ↦ false
]
has_status PaymentStatus.refunded p = elim (p.status) [ PaymentStatus.refunded ↦ true | _ ↦ false ]

-- `token_reference_pubkey = $1 AND status = 'pending'`
abbrev pub awaits : ℕ → Payment → Bool
awaits reference p =
    is_value p.token_reference_pubkey reference && has_status PaymentStatus.pending p

abbrev pub set_confirmed : ℕ → ℕ → ℕ → ℕ → Payment → Payment
set_confirmed tx_signature token_mint token_amount time p = record p {
  status = PaymentStatus.confirmed;
  token_tx_signature = some tx_signature;
  token_mint = some token_mint;
  token_amount = some token_amount;
  confirmed_at = some time;
}

unfoldable pub confirm_payment_atomic : ℕ → ℕ → ℕ → ℕ → M Bool
confirm_payment_atomic reference tx_signature token_mint token_amount = do
  time ← now
  execute_returning (λ db. exists (awaits reference) db.agreement_payments)
      (λ db. record db {
        agreement_payments =
            update_where (awaits reference)
              (set_confirmed tx_signature token_mint token_amount time) db.agreement_payments;
      })

-- `poll_payment_confirmation` is a placeholder.
unfoldable pub poll_payment_confirmation : ℕ → Option (ℕ × ℕ × ℕ)
poll_payment_confirmation reference = none
