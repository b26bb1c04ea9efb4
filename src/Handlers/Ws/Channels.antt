-- ===== src/Handlers/Ws/Channels.antt =====
-- Who hears of an event: the channels of src/handlers/ws.rs.
use pactum_codex.Base.{ℕ, ◌≡◌, ◌≢◌, refl, arith, List, [], ◌∷◌, true, false, exists, delete_where}
use pactum_codex.State.Events.{WsEvent}
use pactum_codex.State.World.{World, ok}
use pactum_codex.Handlers.Ws.{is_user, attach, remove_user_channel, send_to_user}

exists-delete_where :
    (u : ℕ) (us : List ℕ) → exists (is_user u) (delete_where (is_user u) us) ≡ false
exists-delete_where u [] = refl
exists-delete_where u (x ∷ us) = ground (arith, exists-delete_where u us)

exists_other :
    (u v : ℕ) (us : List ℕ)
    → v ≢ u
    → exists (is_user v) (delete_where (is_user u) us) ≡ exists (is_user v) us
exists_other u v [] h = refl
exists_other u v (x ∷ us) h = ground (arith, exists_other u v us h)

-- A user who connects is reached, and no other user is touched by it. The end of a connection takes
-- away whatever channel its user has: where the user has connected twice, the end of the first
-- connection leaves the second without events, and again no other user is touched.
pub send_to_user-attach :
    (u v : ℕ) (e : WsEvent) (w : World)
    → v ≢ u
    → ((send_to_user u e (attach u w)).0 ≡ ok true)
      × ((send_to_user v e (attach u w)).0 ≡ (send_to_user v e w).0)
      × ((send_to_user u e (remove_user_channel u (attach u (attach u w)))).0 ≡ ok false)
      × ((send_to_user v e (remove_user_channel u w)).0 ≡ (send_to_user v e w).0)
unfolding send_to_user attach remove_user_channel
send_to_user-attach u v e w h =
    let other = exists_other u v w.ws_channels h in
    let gone =
      exists-delete_where u
        (u ∷ delete_where (is_user u) (u ∷ delete_where (is_user u) w.ws_channels)) in
    (ground arith, ground arith, ground (arith, gone), ground arith)
