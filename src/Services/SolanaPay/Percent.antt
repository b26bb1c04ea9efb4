-- ===== src/Services/SolanaPay/Percent.antt =====
-- The percent encoding of payment links: what `percent_encode_minimal` of src/services/solana_pay.rs
-- writes decodes to its input.
use pactum_codex.Base.{
  ℕ, ◌+◌, ◌-◌, ◌*◌, ◌/◌, ◌%◌, ◌<◌, ◌≡◌, refl, true, List, [], ◌∷◌, arith, ◌==◌, leb, All,
  if◌then◌else◌, false, ap, Bool-cases, inl, inr,
}
use pactum_codex.Services.SolanaPay.{is_unreserved, hex_upper, percent_encode_minimal}

-- An independent reader of percent encoding, as in RFC 3986.
abbrev pub hex_value : ℕ → ℕ
hex_value c = if leb c b'9' then c - b'0' else c - b'A' + 10

unfoldable pub percent_decode : List ℕ → List ℕ
percent_decode [] = []
percent_decode (c ∷ []) = c ∷ []
percent_decode (c ∷ d ∷ []) = c ∷ d ∷ []
percent_decode (c ∷ d ∷ e ∷ cs) =
    let plain = percent_decode (d ∷ e ∷ cs) in
    let coded = percent_decode cs in
    if c == b'%' then (hex_value d * 16 + hex_value e) ∷ coded else c ∷ plain

hex-value : (d : ℕ) → d < 16 → hex_value (hex_upper d) ≡ d
hex-value d h = ground arith

percent_decode-plain :
    (c : ℕ) (cs : List ℕ) → (c == b'%') ≡ false → percent_decode (c ∷ cs) ≡ c ∷ percent_decode cs
unfolding percent_decode
percent_decode-plain c [] h = refl
percent_decode-plain c (d ∷ []) h = refl
percent_decode-plain c (d ∷ e ∷ cs) h = rw h

unreserved_ne_percent : (b : ℕ) → is_unreserved b ≡ true → (b == b'%') ≡ false
unreserved_ne_percent b h = ground arith

escape_decodes :
    (b : ℕ) (cs : List ℕ)
    → b < 256
    → percent_decode (b'%' ∷ hex_upper (b / 16) ∷ hex_upper (b % 16) ∷ cs) ≡ b ∷ percent_decode cs
unfolding percent_decode
escape_decodes b cs h =
    rw (hex-value (b / 16) (omega arith), hex-value (b % 16) (omega arith))
      (ap (λ n. n ∷ percent_decode cs) (omega arith))

-- Reading back what the encoder wrote gives the bytes that it was given.
pub percent_decode-percent_encode_minimal :
    (bs : List ℕ) → All (λ b. b < 256) bs → percent_decode (percent_encode_minimal bs) ≡ bs
unfolding percent_encode_minimal
percent_decode-percent_encode_minimal [] h = unfold percent_decode in refl
percent_decode-percent_encode_minimal (b ∷ bs) h =
    let back = percent_decode-percent_encode_minimal bs h.1 in
    elim (Bool-cases (is_unreserved b)) [
      | inl plain ↦ rw (plain, percent_decode-plain b _ (unreserved_ne_percent b plain), back)
      | inr coded ↦ rw (coded, escape_decodes b _ h.0, back)
    ]
