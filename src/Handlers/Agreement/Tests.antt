-- ===== src/Handlers/Agreement/Tests.antt =====
-- The creation of an agreement on a small world.
use pactum_codex.Base.{ℕ, ◌≡◌, refl, some, Option, [], ◌∷◌}
use pactum_codex.State.Sample.{calm, config, empty_db}
use pactum_codex.Base.{true}
use pactum_codex.State.World.{OnOk}
use pactum_codex.Services.Crypto.Tests.{toy}
use pactum_codex.Services.SolanaPay.{codes}
use pactum_codex.Handlers.Auth.{AuthUserWithWallet}
use pactum_codex.Handlers.Draft.Tests.{sdk, address}
use pactum_codex.Handlers.Agreement.{PartyInput, CreateAgreementRequest, email_hint, Slots}
use pactum_codex.Handlers.Agreement.Create.{create_agreement}
use pactum_codex.Handlers.Agreement.Matched.{IsMatched}
use pactum_codex.Handlers.Agreement.Placed.{Places}
use pactum_codex.Handlers.Agreement.Created.{Creates, create_agreement-Creates}

abbrev creator : AuthUserWithWallet
creator = record { user_id = 8; pubkey = 5 }

abbrev decode : ℕ → Option ℕ
decode text = some text

-- One party by its key and one by an email of one letter.
abbrev request : CreateAgreementRequest
request = record {
  title = "Lease";
  parties = PartyInput.pubkey 5 ∷ PartyInput.email (65 ∷ []) ∷ [];
  expires_in_secs = 900000;
}

create_agreement-Creates_example :
    let (r, w') = create_agreement sdk address 77 toy decode config creator request calm in
    OnOk r (λ x.
      (s : Slots) × IsMatched s
      × Places toy 3 empty_db request.parties s.party_slots s.invitation_rows
      × Creates sdk true creator request s empty_db w'.db x)
create_agreement-Creates_example =
    create_agreement-Creates sdk address 77 toy decode config creator request calm

hint : email_hint (codes "alice@pactum.app") ≡ codes "a***@pactum.app"
unfolding email_hint
hint = refl
