-- ===== src/Handlers/User.antt =====
-- The user's own data: src/handlers/user.rs. A text is the list of its bytes.
pub mod Contacts
pub mod DisplayName
pub mod Profile
mod Tests
use mathlib.Core.Option
use pactum_codex.Base.{
  ℕ, Bool, true, false, Option, none, some, List, [], ◌∷◌, length, leb, not, ◌==◌, ◌||◌, exists,
  update_where, delete_where, if◌then◌else◌,
}
use pactum_codex.Error.{AppError}
use pactum_codex.Config.{Config}
use pactum_codex.State.Rows.{Db, Account, Contact}
use pactum_codex.State.World.{
  M, ◌>>=◌, ◌>>◌, pure, Void, Result, ok, err, execute, execute_if, ok_or,
}
use pactum_codex.Services.Crypto.{Cipher, encrypt, hmac_index}

pub record UpdateContactsRequest : Type 0 where
  pub email : Option (List ℕ)
  pub phone : Option (List ℕ)
  pub push_token : Option (List ℕ)

-- `<`, `>`, `"`, `'` and `&`.
abbrev pub is_html : ℕ → Bool
is_html c = c == 60 || c == 62 || c == 34 || c == 39 || c == 38

unfoldable pub sanitise_display_name : List ℕ → Result Void
sanitise_display_name name =
    if not (leb (length name) 64)
    then err AppError.display_name_too_long
    else if exists is_html name
    then err AppError.invalid_display_name
    else ok tt

-- SQL's COALESCE.
abbrev pub coalesce : Option ℕ → Option ℕ → Option ℕ
coalesce none old = old
coalesce (some new) old = some new

-- `ON CONFLICT (user_id) DO UPDATE SET`
abbrev pub merge_contact : Contact → Contact → Contact
merge_contact new old = record old {
  email_enc = coalesce new.email_enc old.email_enc;
  email_nonce = coalesce new.email_nonce old.email_nonce;
  email_index = coalesce new.email_index old.email_index;
  phone_enc = coalesce new.phone_enc old.phone_enc;
  phone_nonce = coalesce new.phone_nonce old.phone_nonce;
  push_token_enc = coalesce new.push_token_enc old.push_token_enc;
  push_token_nonce = coalesce new.push_token_nonce old.push_token_nonce;
}

abbrev pub has_user_id : ℕ → Contact → Bool
has_user_id user c = c.user_id == user

abbrev pub upsert_rows : Contact → List Contact → List Contact
upsert_rows new cs =
    if exists (has_user_id new.user_id) cs
    then update_where (has_user_id new.user_id) (merge_contact new) cs
    else new ∷ cs

abbrev pub has_account_id : ℕ → Account → Bool
has_account_id user a = a.id == user

-- A contact of no account breaks the column's foreign key.
abbrev pub upsert_contact : Contact → M Void
upsert_contact new =
    execute_if (λ w. exists (has_account_id new.user_id) w.db.user_accounts)
      (λ db. record db { user_contacts = upsert_rows new db.user_contacts })

-- The ciphertext and the nonce of a text that is given.
module _ (cipher : Cipher) where
  unfoldable pub encrypt_given : Option (List ℕ) → ℕ → M (Option (ℕ × ℕ))
  encrypt_given none key = pure none
  encrypt_given (some text) key = encrypt cipher text key >>= λ sealed. pure (some sealed)

  abbrev pub contact_row : ℕ → Option ℕ → Option (ℕ × ℕ) → Option (ℕ × ℕ) → Option (ℕ × ℕ) → Contact
  contact_row user index email phone push = record {
    user_id = user;
    email_enc = Option.map (λ s. s.0) email;
    email_nonce = Option.map (λ s. s.1) email;
    email_index = index;
    phone_enc = Option.map (λ s. s.0) phone;
    phone_nonce = Option.map (λ s. s.1) phone;
    push_token_enc = Option.map (λ s. s.0) push;
    push_token_nonce = Option.map (λ s. s.1) push;
  }

  unfoldable pub update_contacts_with : ℕ → UpdateContactsRequest → ℕ → ℕ → M Void
  update_contacts_with user body key idx_key = do
    email ← encrypt_given body.email key
    phone ← encrypt_given body.phone key
    push ← encrypt_given body.push_token key
    let index = Option.map (λ text. hmac_index cipher text idx_key) body.email in
        upsert_contact (contact_row user index email phone push)

  -- The keys are decoded from the configuration by `decode_hex_key_32`.
  unfoldable pub update_contacts : (ℕ → Option ℕ) → Config → ℕ → UpdateContactsRequest → M Void
  update_contacts decode_hex_key config user body = do
    key ← ok_or (decode_hex_key config.encryption_key) AppError.internal_error
    idx_key ← ok_or (decode_hex_key config.encryption_index_key) AppError.internal_error
    update_contacts_with user body key idx_key

unfoldable pub delete_contacts : ℕ → M Void
delete_contacts user =
    execute (λ db. record db { user_contacts = delete_where (has_user_id user) db.user_contacts })
