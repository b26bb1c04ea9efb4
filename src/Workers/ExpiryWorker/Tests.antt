-- ===== src/Workers/ExpiryWorker/Tests.antt =====
-- The expiry of agreements on a small world.
use pactum_codex.Base.{
  ℕ, suc, zero, ◌≡◌, refl, some, none, List, [], ◌∷◌, length, true, false, cons, repeat,
}
use pactum_codex.Error.{AppError}
use pactum_codex.State.Sample.{calm}
use pactum_codex.State.World.{World}
use pactum_codex.Handlers.Auth.{SolanaSdk}
use pactum_codex.Handlers.Agreement.Onchain.{AccountReader}
use pactum_codex.Workers.EventListener.{new_party}
use pactum_codex.Workers.ExpiryWorker.{submit_expire_transaction, expire_agreement}
use pactum_codex.Workers.ExpiryWorker.Locked.{locked, IsPassedOver, expire_agreement_stuck}

abbrev bytes : ℕ → ℕ → List ℕ
bytes zero b = []
bytes (suc n) b = b ∷ bytes n b

abbrev sdk : SolanaSdk
sdk = record { parse_pubkey = λ k. some k; parse_signature = λ s. some s; verify = λ s k n. true }

-- An account of no bytes.
abbrev reader : AccountReader
reader = record { data_of = λ k. []; try_from_slice = λ b. none }

abbrev late : World
late = record calm {
  db = record calm.db { agreement_parties = new_party 5 900 5 1 ∷ [] };
  faults = cons false (repeat true);
}

expire_agreement_stuck_example :
    let w' = (expire_agreement sdk reader length (λ seeds. 7) 8 9 (900, 5) late).1 in
    (w'.db.agreement_parties ≡ locked 900 late.db.agreement_parties)
    × IsPassedOver 900 w'.db.agreement_parties 99000000
unfolding submit_expire_transaction
expire_agreement_stuck_example =
    expire_agreement_stuck sdk reader length (λ seeds. 7) 8 9 900 5 99000000 late
      AppError.internal_error refl refl refl refl
