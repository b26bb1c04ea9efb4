-- ===== src/Handlers/Oauth.antt =====
-- Sign-in with an OAuth provider: src/handlers/auth.rs. `name` gives the number that stands for the
-- provider's id of a user in the tables.
pub mod Identity
pub mod Redirect
pub mod Linked
pub mod Claimed
pub mod Squatted
mod Tests
use mathlib.Core.Option
use pactum_codex.Base.{
  ℕ, String, Bool, true, false, Option, none, some, List, [], ◌∷◌, ◌==◌, ◌&&◌, not, is_value, find,
  exists, select, update_where, concat_map, if◌then◌else◌,
}
use pactum_codex.Error.{AppError}
use pactum_codex.Config.{Config}
use pactum_codex.State.Rows.{Db, OAuthProvider, OauthLink, Contact}
use pactum_codex.State.World.{
  M, Void, Result, ◌>>=◌, ◌>>◌, pure, ok_or, fresh, fetch, execute, execute_if,
}
use pactum_codex.Services.Crypto.{Cipher, encrypt, hmac_index}
use pactum_codex.Services.Jwt.{TokenLibrary, issue_access_token, issue_and_store_refresh_token}
use pactum_codex.Handlers.Auth.{AuthResponse}
use pactum_codex.Handlers.User.{has_account_id, contact_row, upsert_contact}
use pactum_codex.Handlers.Oauth.Identity.{
  OAuthHttpClient, validate_oauth_state_cookie, exchange_code_and_fetch_identity,
}

pub record EmailConflictDetails : Type 0 where
  pub existing_provider : OAuthProvider
  pub link_url : String

pub data OAuthUserResolution : Type 0 where
  user : ℕ → OAuthUserResolution
  conflict : EmailConflictDetails → OAuthUserResolution

pub data CallbackResponse : Type 0 where
  signed_in : AuthResponse → CallbackResponse
  email_already_registered : EmailConflictDetails → CallbackResponse

abbrev pub same_provider : OAuthProvider → OAuthProvider → Bool
same_provider OAuthProvider.google OAuthProvider.google = true
same_provider OAuthProvider.microsoft OAuthProvider.microsoft = true
same_provider OAuthProvider.google OAuthProvider.microsoft = false
same_provider OAuthProvider.microsoft OAuthProvider.google = false

abbrev pub is_link : OAuthProvider → ℕ → OauthLink → Bool
is_link provider provider_id l = same_provider l.provider provider && l.provider_id == provider_id

abbrev pub linked_user : OAuthProvider → ℕ → Db → Option ℕ
linked_user provider provider_id db =
    Option.map (λ l. l.user_id) (find (is_link provider provider_id) db.auth_oauth)

abbrev pub has_index : ℕ → Contact → Bool
has_index index c = is_value c.email_index index

-- `user_contacts uc INNER JOIN auth_oauth ao ON ao.user_id = uc.user_id WHERE uc.email_index = $1`
abbrev pub links_of_email : ℕ → Db → List OauthLink
links_of_email index db =
    concat_map (λ c. select (λ l. l.user_id == c.user_id) db.auth_oauth)
      (select (has_index index) db.user_contacts)

abbrev pub conflicting_provider : ℕ → OAuthProvider → Db → Option OAuthProvider
conflicting_provider index provider db =
    Option.map (λ l. l.provider)
      (find (λ l. not (same_provider l.provider provider)) (links_of_email index db))

abbrev pub same_provider_user : ℕ → OAuthProvider → Db → Option ℕ
same_provider_user index provider db =
    Option.map (λ l. l.user_id)
      (find (λ l. same_provider l.provider provider) (links_of_email index db))

unfoldable pub detect_email_conflict : OAuthProvider → OAuthProvider → Option EmailConflictDetails
detect_email_conflict existing current =
    if same_provider existing current
    then none
    else some (record { existing_provider = existing; link_url = "/auth/link/oauth" })

-- `if let Some(existing_provider) = conflicting_provider`
abbrev pub conflict_of : Option OAuthProvider → OAuthProvider → Option EmailConflictDetails
conflict_of none provider = none
conflict_of (some existing) provider = detect_email_conflict existing provider

abbrev pub link_rows : OauthLink → List OauthLink → List OauthLink
link_rows new ls =
    if exists (is_link new.provider new.provider_id) ls
    then update_where (is_link new.provider new.provider_id)
        (λ l. record l { user_id = new.user_id }) ls
    else new ∷ ls

-- `INSERT INTO auth_oauth … ON CONFLICT (provider, provider_id) DO UPDATE`
abbrev pub upsert_link : OauthLink → M Void
upsert_link new =
    execute_if (λ w. exists (has_account_id new.user_id) w.db.user_accounts)
      (λ db. record db { auth_oauth = link_rows new db.auth_oauth })

unfoldable pub create_oauth_account : M ℕ
create_oauth_account = do
  u ← fresh
  execute (λ db. record db {
    user_accounts = record { id = u; display_name = none } ∷ db.user_accounts;
  })
  pure u

-- `match existing_same_provider_user`
abbrev pub or_create : Option ℕ → M ℕ
or_create none = create_oauth_account
or_create (some u) = pure u

-- `match user_id_by_oauth`
unfoldable pub resolve_oauth_user : Option ℕ → ℕ → OAuthProvider → M ℕ
resolve_oauth_user (some u) index provider = pure u
resolve_oauth_user none index provider = do
  existing ← fetch (same_provider_user index provider)
  or_create existing

module _ (cipher : Cipher) (decode_hex_key : ℕ → Option ℕ) where
  -- The three columns are given and not NULL, so that `EXCLUDED` is what an update of the contacts
  -- with an email alone writes.
  unfoldable pub upsert_email_contact : Config → ℕ → List ℕ → M Void
  upsert_email_contact config u email = do
    key ← ok_or (decode_hex_key config.encryption_key) AppError.internal_error
    idx_key ← ok_or (decode_hex_key config.encryption_index_key) AppError.internal_error
    sealed ← encrypt cipher email key
    upsert_contact
        (contact_row cipher u (some (hmac_index cipher email idx_key)) (some sealed) none none)

  unfoldable pub link_oauth_user :
      Config → OAuthProvider → ℕ → List ℕ → Option ℕ → ℕ → M OAuthUserResolution
  link_oauth_user config provider provider_id email by_oauth index = do
    u ← resolve_oauth_user by_oauth index provider
    upsert_link (record { user_id = u; provider = provider; provider_id = provider_id })
    upsert_email_contact config u email
    pure (OAuthUserResolution.user u)

  abbrev pub or_link : Option EmailConflictDetails → M OAuthUserResolution → M OAuthUserResolution
  or_link none m = m
  or_link (some details) m = pure (OAuthUserResolution.conflict details)

  unfoldable pub resolve_or_create_oauth_user :
      Config → OAuthProvider → ℕ → List ℕ → M OAuthUserResolution
  resolve_or_create_oauth_user config provider provider_id email = do
    by_oauth ← fetch (linked_user provider provider_id)
    idx_key ← ok_or (decode_hex_key config.encryption_index_key) AppError.internal_error
    let index = hmac_index cipher email idx_key in
        do
          existing ← fetch (conflicting_provider index provider)
          or_link (conflict_of existing provider)
              (link_oauth_user config provider provider_id email by_oauth index)

  module _ (http : OAuthHttpClient) (name : List ℕ → ℕ) (lib : TokenLibrary) where
    unfoldable pub answer_resolution : Config → OAuthUserResolution → M CallbackResponse
    answer_resolution config (OAuthUserResolution.conflict details) =
        pure (CallbackResponse.email_already_registered details)
    answer_resolution config (OAuthUserResolution.user u) = do
      access_token ← issue_access_token lib config u none
      refresh_token ← issue_and_store_refresh_token lib u
      pure (
          CallbackResponse.signed_in
            (record { access_token = access_token; refresh_token = refresh_token }))

    unfoldable pub oauth_callback :
        Config → Option (List ℕ) → List ℕ → List ℕ → OAuthProvider → M CallbackResponse
    oauth_callback config cookie query_state code provider = do
      validate_oauth_state_cookie cookie query_state
      identity ← exchange_code_and_fetch_identity http name config provider code
      resolution ← resolve_or_create_oauth_user config provider identity.provider_id identity.email
      answer_resolution config resolution
