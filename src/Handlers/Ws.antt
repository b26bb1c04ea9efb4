-- ===== src/Handlers/Ws.antt =====
-- The channels of connected clients: src/handlers/ws.rs. The map holds one sender for a user; what
-- is sent to a user with a live channel is logged in `pushed`.
pub mod Channels
pub mod Connection
pub mod Admission
mod Tests
use pactum_codex.Base.{
  ℕ, Bool, true, false, List, [], ◌∷◌, ◌==◌, exists, delete_where, if◌then◌else◌, suc,
}
use pactum_codex.State.Events.{WsEvent}
use pactum_codex.State.World.{World, M, ok, ◌>>=◌, pure}

abbrev pub is_user : ℕ → ℕ → Bool
is_user user u = u == user

-- The part of `handle_upgrade` before the connection is served: a sender that is there is replaced.
unfoldable pub attach : ℕ → World → World
attach user w = record w { ws_channels = user ∷ delete_where (is_user user) w.ws_channels }

-- The part after it: whatever sender is there is removed.
unfoldable pub remove_user_channel : ℕ → World → World
remove_user_channel user w = record w { ws_channels = delete_where (is_user user) w.ws_channels }

unfoldable pub send_to_user : ℕ → WsEvent → M Bool
send_to_user user event w = elim (exists (is_user user) w.ws_channels) [
  | true ↦ (ok true, record w { pushed = (user, event) ∷ w.pushed })
  | false ↦ (ok false, w)
]

-- How many users were reached.
unfoldable pub send_to_users : List ℕ → WsEvent → M ℕ
send_to_users [] event = pure 0
send_to_users (u ∷ us) event = do
  delivered ← send_to_user u event
  n ← send_to_users us event
  pure (if delivered then suc n else n)
