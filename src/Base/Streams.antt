-- ===== src/Base/Streams.antt =====
-- What an environment will answer to one call after another.
use Prim.Native.Nat.{ℕ, zero, suc}

abbrev pub Stream {ℓ} : Type ℓ → Type ℓ
Stream A = ℕ → A

module _ {ℓ} {A : Type ℓ} where
  abbrev pub head : Stream A → A
  head s = s 0

  abbrev pub rest : Stream A → Stream A
  rest s n = s (suc n)

  abbrev pub repeat : A → Stream A
  repeat a n = a

  abbrev pub cons : A → Stream A → Stream A
  cons a s zero = a
  cons a s (suc n) = s n
