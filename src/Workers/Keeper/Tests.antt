-- ===== src/Workers/Keeper/Tests.antt =====
-- The keeper on small worlds.
use pactum_codex.Base.{◌≡◌, refl, arith, some, [], ◌∷◌, find, true}
use pactum_codex.State.Sample.{calm, config}
use pactum_codex.State.World.{World}
use pactum_codex.Handlers.Auth.{SolanaSdk, is_live_nonce, is_live_token}
use pactum_codex.Workers.Policy.{WorkerStatus}
use pactum_codex.Workers.Keeper.{cleanup_expired_auth_records, run_cycles}
use pactum_codex.Workers.Keeper.Cleanup.{cleanup_expired_auth_records_lem}
use pactum_codex.Workers.Keeper.Tripped.{Tripped, run_cycles-Tripped}

abbrev sdk : SolanaSdk
sdk = record { parse_pubkey = λ k. some k; parse_signature = λ s. some s; verify = λ s k n. true }

abbrev old_and_new : World
old_and_new = record calm {
  db = record calm.db {
    siws_nonces =
        record { nonce = 8; created_at = 5 } ∷ record { nonce = 9; created_at = 999900 } ∷ [];
  };
}

cleanup_expired_auth_records_lem_example :
    let w' = (cleanup_expired_auth_records old_and_new).1 in
    (find (is_live_nonce 9 w'.now) w'.db.siws_nonces
      ≡ find (is_live_nonce 9 old_and_new.now) old_and_new.db.siws_nonces)
    × (find (is_live_token 4 w'.now) w'.db.refresh_tokens
        ≡ find (is_live_token 4 old_and_new.now) old_and_new.db.refresh_tokens)
cleanup_expired_auth_records_lem_example = cleanup_expired_auth_records_lem 9 4 old_and_new

run_cycles-Tripped_example : Tripped calm (run_cycles sdk config 3 WorkerStatus.healthy calm)
run_cycles-Tripped_example =
    run_cycles-Tripped sdk config 2 WorkerStatus.healthy calm 1 refl refl (omega arith)
