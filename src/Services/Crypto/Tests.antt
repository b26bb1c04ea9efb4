-- ===== src/Services/Crypto/Tests.antt =====
-- A toy cipher, which seals texts of one letter.
use pactum_codex.Base.{ℕ, ◌≡◌, List, Option, some, none, [], ◌∷◌}
use pactum_codex.Services.Crypto.{Cipher}

abbrev one_letter : ℕ → ℕ → List ℕ → Option ℕ
one_letter key nonce [] = none
one_letter key nonce (c ∷ []) = some c
one_letter key nonce (c ∷ d ∷ cs) = none

pub open-one_letter :
    (key nonce box : ℕ) (plaintext : List ℕ)
    → one_letter key nonce plaintext ≡ some box
    → some (box ∷ []) ≡ some plaintext
open-one_letter key nonce box [] e = cc
open-one_letter key nonce box (c ∷ []) e = cc
open-one_letter key nonce box (c ∷ d ∷ cs) e = cc

abbrev pub toy : Cipher
toy = record {
  seal = one_letter;
  open_ = λ key nonce box. some (box ∷ []);
  hmac = λ key text. key;
  open-seal = open-one_letter;
}
