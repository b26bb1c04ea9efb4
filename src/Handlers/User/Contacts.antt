-- ===== src/Handlers/User/Contacts.antt =====
-- What an update of the contacts stores: src/handlers/user.rs.
mod Columns
pub use Columns.*
use mathlib.Core.Option
use mathlib.Core.Path.{subst, sym}
use pactum_codex.Base.{
  ℕ, ◌≡◌, refl, true, false, Option, none, some, List, ◌∷◌, ◌||◌, not, find, exists, update_where,
  if◌then◌else◌, Bool-cases, Option-cases, inl, inr, head, ==_refl, is_some, ap, ◌∙◌, exists-find,
  find-update_found,
}
use pactum_codex.Error.{AppError}
use pactum_codex.Config.{Config}
use pactum_codex.State.Rows.{Contact}
use pactum_codex.State.World.{
  World, Result, ok, err, M, Void, OnOk-map, ◌>>=◌, OnOk, bind_lem, pure, execute_if,
}
use pactum_codex.Services.Crypto.{Cipher, encrypt, decrypt, decrypt-encrypt, hmac_index}
use pactum_codex.Handlers.User.{
  UpdateContactsRequest, coalesce, merge_contact, has_user_id, has_account_id, upsert_rows,
  upsert_contact, encrypt_given, contact_row, update_contacts, update_contacts_with,
}

-- The row after an update: each text that is given decrypts from its columns, the others keep
-- theirs, and the index is that of the email that is given.
pub record IsUpdated (cipher : Cipher) (key idx_key : ℕ) (body : UpdateContactsRequest)
    (old new : Contact) : Type 0 where
  pub email :
      Holds cipher key body.email (old.email_enc, old.email_nonce) (new.email_enc, new.email_nonce)
  pub phone :
      Holds cipher key body.phone (old.phone_enc, old.phone_nonce) (new.phone_enc, new.phone_nonce)
  pub push_token :
      Holds cipher key body.push_token
        (old.push_token_enc, old.push_token_nonce)
        (new.push_token_enc, new.push_token_nonce)
  pub index :
      new.email_index
      ≡ coalesce (Option.map (λ text. hmac_index cipher text idx_key) body.email) old.email_index

module _ (cipher : Cipher) where
  update_contacts_with-IsUpdated :
      (user : ℕ) (body : UpdateContactsRequest) (key idx_key : ℕ) (w : World)
      → let (r, w') = update_contacts_with cipher user body key idx_key w in
        OnOk r (λ _.
          IsUpdated cipher key idx_key body
            (row_of user w.db.user_contacts)
            (row_of user w'.db.user_contacts))
  unfolding update_contacts_with
  update_contacts_with-IsUpdated user body key idx_key w =
      let old = row_of user w.db.user_contacts in
      let P : Result Void × World → Type 0 = λ q.
        OnOk q.0 (λ _. IsUpdated cipher key idx_key body old (row_of user q.1.db.user_contacts)) in
      let index = Option.map (λ text. hmac_index cipher text idx_key) body.email in
      encrypt_given-bind cipher body.email key w
        (λ email. encrypt_given cipher body.phone key >>= λ phone.
          encrypt_given cipher body.push_token key >>= λ push.
          upsert_contact (contact_row cipher user index email phone push))
        P
        (λ email w₁ e₁ h₁.
          encrypt_given-bind cipher body.phone key w₁
            (λ phone. encrypt_given cipher body.push_token key >>= λ push.
              upsert_contact (contact_row cipher user index email phone push))
            P
            (λ phone w₂ e₂ h₂.
              encrypt_given-bind cipher body.push_token key w₂
                (λ push. upsert_contact (contact_row cipher user index email phone push)) P
                (λ push w₃ e₃ h₃.
                  let new = contact_row cipher user index email phone push in
                  OnOk-map (upsert_contact new w₃).0
                    (λ _ row.
                      subst (IsUpdated cipher key idx_key body old)
                        (sym (
                          row
                          ∙ ap (λ db. merge_contact new (row_of user db.user_contacts))
                              (e₃ ∙ e₂ ∙ e₁)))
                        (record {
                          email = h₁ (old.email_enc, old.email_nonce);
                          phone = h₂ (old.phone_enc, old.phone_nonce);
                          push_token = h₃ (old.push_token_enc, old.push_token_nonce);
                          index = refl;
                        }))
                    (upsert_contact-row new w₃))
                (λ _ _. tt))
            (λ _ _. tt))
        (λ _ _. tt)

  -- An update of the contacts that succeeds leaves, in the user's row, columns from which the
  -- configured key decrypts each text that was given (email, phone, push token), the old columns
  -- of each that was not, and the blind index of the email if one was given. It needs that both
  -- keys of the configuration decode.
  pub update_contacts-IsUpdated :
      (decode_hex_key : ℕ → Option ℕ) (config : Config) (user : ℕ) (body : UpdateContactsRequest)
      (key idx_key : ℕ) (w : World)
      → decode_hex_key config.encryption_key ≡ some key
      → decode_hex_key config.encryption_index_key ≡ some idx_key
      → let (r, w') = update_contacts cipher decode_hex_key config user body w in
        OnOk r (λ _.
          IsUpdated cipher key idx_key body
            (row_of user w.db.user_contacts)
            (row_of user w'.db.user_contacts))
  unfolding update_contacts
  update_contacts-IsUpdated decode_hex_key config user body key idx_key w k j =
      rw (k, j) (update_contacts_with-IsUpdated user body key idx_key w)
