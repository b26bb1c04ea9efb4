-- ===== src/Workers/EventListener/Frames.antt =====
-- What the announcements of src/workers/event_listener.rs leave alone.
use pactum_codex.Base.{ℕ, suc, ◌≡◌, refl, arith, String, List, [], ◌∷◌, false}
use pactum_codex.State.Events.{WsEvent}
use pactum_codex.State.World.{World, M, Void, ok, fetch, for_each, bind_lem}
use pactum_codex.State.Keeps.{Keeps, Keeps-bind, Keeps-fetch, Keeps-for_each}
use pactum_codex.Handlers.Ws.{send_to_user}
use pactum_codex.Services.Notification.{enqueue_notification}
use pactum_codex.Workers.Retry.{lookup_user_id}
use pactum_codex.Workers.EventListener.{
  notify, broadcast, broadcast_to_parties, parties_of_agreement,
}

-- No call of the database fails from now on.
abbrev pub Fine : World → Type 0
Fine w = (n : ℕ) → w.faults n ≡ false

-- The tables of agreements and payments, the clock, the health and the transfers are as before.
abbrev pub Untouched : World → World → Type 0
Untouched w w' =
    (w'.db.agreement_parties ≡ w.db.agreement_parties)
    × (w'.db.agreement_payments ≡ w.db.agreement_payments)
    × (w'.now ≡ w.now)
    × (w'.process_health ≡ w.process_health)
    × (w'.transfers ≡ w.transfers)

module _ (w₀ : World) where
  notify-Untouched : (e : String) (pda p : ℕ) → Keeps (Untouched w₀) (notify e pda p)
  unfolding notify enqueue_notification
  notify-Untouched e pda p w h = ground arith

  broadcast-Untouched : (e : WsEvent) (p : ℕ) → Keeps (Untouched w₀) (broadcast e p)
  unfolding broadcast lookup_user_id send_to_user
  broadcast-Untouched e p w h = ground arith

  pub notify_all-Untouched :
      (e : String) (pda : ℕ) (ps : List ℕ) → Keeps (Untouched w₀) (for_each (notify e pda) ps)
  notify_all-Untouched e pda = Keeps-for_each (Untouched w₀) (notify e pda) (notify-Untouched e pda)

  pub broadcast_all-Untouched :
      (e : WsEvent) (ps : List ℕ) → Keeps (Untouched w₀) (for_each (broadcast e) ps)
  broadcast_all-Untouched e = Keeps-for_each (Untouched w₀) (broadcast e) (broadcast-Untouched e)

  pub broadcast_to_parties-Untouched :
      (pda : ℕ) (e : WsEvent) → Keeps (Untouched w₀) (broadcast_to_parties pda e)
  unfolding broadcast_to_parties
  broadcast_to_parties-Untouched pda e =
      Keeps-bind (Untouched w₀) (fetch (parties_of_agreement pda)) (λ ps. for_each (broadcast e) ps)
        (Keeps-fetch (Untouched w₀) (parties_of_agreement pda) (λ w fs h. h))
        (λ ps. broadcast_all-Untouched e ps)

notify-Fine : (e : String) (pda p : ℕ) → Keeps Fine (notify e pda p)
unfolding notify enqueue_notification
notify-Fine e pda p w h n = ground (arith, h (suc n))

broadcast-Fine : (e : WsEvent) (p : ℕ) → Keeps Fine (broadcast e p)
unfolding broadcast lookup_user_id send_to_user
broadcast-Fine e p w h n = ground (arith, h (suc n))

-- A computation that never fails.
abbrev pub IsQuiet : M Void → Type 0
IsQuiet m = (w : World) → (m w).0 ≡ ok tt

pub quiet : (m : M Void) (w : World) → IsQuiet m → m w ≡ (ok tt, (m w).1)
quiet m w h i = (h w i, (m w).1)

for_each-IsQuiet :
    (m : ℕ → M Void) → ((p : ℕ) → IsQuiet (m p)) → (ps : List ℕ) → IsQuiet (for_each m ps)
for_each-IsQuiet m h [] w = refl
for_each-IsQuiet m h (p ∷ ps) w =
    bind_lem (m p) (λ _. for_each m ps) (λ q. q.0 ≡ ok tt) w
      (λ _ _. for_each-IsQuiet m h ps (m p w).1) (λ e failed. ground (arith, failed, h p w))

notify-IsQuiet : (e : String) (pda p : ℕ) → IsQuiet (notify e pda p)
unfolding notify
notify-IsQuiet e pda p w = refl

broadcast-IsQuiet : (e : WsEvent) (p : ℕ) → IsQuiet (broadcast e p)
unfolding broadcast lookup_user_id send_to_user
broadcast-IsQuiet e p w = ground arith

pub notify_all-IsQuiet : (e : String) (pda : ℕ) (ps : List ℕ) → IsQuiet (for_each (notify e pda) ps)
notify_all-IsQuiet e pda = for_each-IsQuiet (notify e pda) (notify-IsQuiet e pda)

pub broadcast_all-IsQuiet : (e : WsEvent) (ps : List ℕ) → IsQuiet (for_each (broadcast e) ps)
broadcast_all-IsQuiet e = for_each-IsQuiet (broadcast e) (broadcast-IsQuiet e)

pub notify_all-Fine : (e : String) (pda : ℕ) (ps : List ℕ) → Keeps Fine (for_each (notify e pda) ps)
notify_all-Fine e pda = Keeps-for_each Fine (notify e pda) (notify-Fine e pda)

pub broadcast_all-Fine : (e : WsEvent) (ps : List ℕ) → Keeps Fine (for_each (broadcast e) ps)
broadcast_all-Fine e = Keeps-for_each Fine (broadcast e) (broadcast-Fine e)
