-- ===== src/Handlers/User/Tests.antt =====
-- Updates of the contacts, with texts of one letter.
use pactum_codex.Base.{refl, some, none, [], ◌∷◌}
use pactum_codex.State.World.{World, OnOk}
use pactum_codex.State.Sample.{calm, empty_db, config}
use pactum_codex.Services.Crypto.Tests.{toy}
use pactum_codex.Handlers.User.{UpdateContactsRequest, update_contacts}
use pactum_codex.Handlers.User.Contacts.{IsUpdated, row_of, update_contacts-IsUpdated}

abbrev known_user : World
known_user = record calm {
  db = record empty_db {
    user_accounts = record { id = 3; display_name = none } ∷ [];
    user_contacts =
        record {
          user_id = 3;
          email_enc = some 9;
          email_nonce = some 8;
          email_index = some 7;
          phone_enc = none;
          phone_nonce = none;
          push_token_enc = none;
          push_token_nonce = none;
        }
        ∷ [];
  };
}

-- A phone number of one digit, and no email.
abbrev a_phone : UpdateContactsRequest
a_phone = record { email = none; phone = some (53 ∷ []); push_token = none }

update_contacts-IsUpdated_example :
    OnOk (update_contacts toy (λ k. some 2) config 3 a_phone known_user).0 (λ _.
      IsUpdated toy 2 2 a_phone (row_of 3 known_user.db.user_contacts) (
        row_of 3
          (update_contacts toy (λ k. some 2) config 3 a_phone known_user).1.db.user_contacts))
update_contacts-IsUpdated_example =
    update_contacts-IsUpdated toy (λ k. some 2) config 3 a_phone 2 2 known_user refl refl
