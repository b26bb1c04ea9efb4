-- ===== src/Handlers/Oauth/Identity.antt =====
-- The identity that a provider gives of a user: `OAuthProvider`, `validate_oauth_state_cookie` and
-- `exchange_code_and_fetch_identity` of src/handlers/auth.rs. The HTTP client is the trait's, and a
-- parameter; a JSON object is the list of its members.
use text.Mathlib.Text.{◌==◌ as str_eq}
use pactum_codex.Base.{ℕ, String, Option, none, some, List, [], ◌∷◌, ◌++◌, bytes_eq, if◌then◌else◌}
use pactum_codex.Error.{AppError}
use pactum_codex.Config.{Config}
use pactum_codex.State.Rows.{OAuthProvider}
use pactum_codex.State.World.{M, Void, ◌>>=◌, pure, ok_or, guard}
use pactum_codex.Services.SolanaPay.{codes}

pub data JsonValue : Type 0 where
  null other : JsonValue
  str : List ℕ → JsonValue

abbrev pub Json : Type 0
Json = List (String × JsonValue)

abbrev pub get : String → Json → Option JsonValue
get key [] = none
get key ((k, v) ∷ members) = if str_eq k key then some v else get key members

abbrev pub or_else : Option JsonValue → Option JsonValue → Option JsonValue
or_else none b = b
or_else (some a) b = some a

-- `.and_then(|value| value.as_str())`
abbrev pub as_str : Option JsonValue → Option (List ℕ)
as_str (some (JsonValue.str t)) = some t
as_str (some JsonValue.null) = none
as_str (some JsonValue.other) = none
as_str none = none

-- What the trait's two calls return: an error is `InternalError`.
pub record OAuthHttpClient : Type 0 where
  pub post_form : List ℕ → List (String × List ℕ) → Option Json
  pub get_json : String → List ℕ → Option Json

pub record OAuthIdentity : Type 0 where
  pub provider_id : ℕ
  pub email : List ℕ

abbrev pub client_id : OAuthProvider → Config → List ℕ
client_id OAuthProvider.google config = config.google_client_id
client_id OAuthProvider.microsoft config = config.microsoft_client_id

abbrev pub client_secret : OAuthProvider → Config → List ℕ
client_secret OAuthProvider.google config = config.google_client_secret
client_secret OAuthProvider.microsoft config = config.microsoft_client_secret

abbrev pub redirect_uri : OAuthProvider → Config → List ℕ
redirect_uri OAuthProvider.google config = config.google_redirect_uri
redirect_uri OAuthProvider.microsoft config = config.microsoft_redirect_uri

abbrev pub token_url : OAuthProvider → Config → List ℕ
token_url OAuthProvider.google config = codes "https://oauth2.googleapis.com/token"
token_url OAuthProvider.microsoft config =
    codes "https://login.microsoftonline.com/"
    ++ (config.microsoft_tenant ++ codes "/oauth2/v2.0/token")

abbrev pub profile_url : OAuthProvider → String
profile_url OAuthProvider.google = "https://openidconnect.googleapis.com/v1/userinfo"
profile_url OAuthProvider.microsoft = "https://graph.microsoft.com/oidc/userinfo"

-- The jar's cookie of the provider, if there is one, against the state of the query.
unfoldable pub validate_oauth_state_cookie : Option (List ℕ) → List ℕ → M Void
validate_oauth_state_cookie cookie query_state = do
  cookie_state ← ok_or cookie AppError.unauthorized
  guard (bytes_eq cookie_state query_state) AppError.unauthorized

module _ (http : OAuthHttpClient) (name : List ℕ → ℕ) where
  abbrev pub token_form : Config → OAuthProvider → List ℕ → List (String × List ℕ)
  token_form config provider code =
      ("client_id", client_id provider config)
      ∷ ("client_secret", client_secret provider config)
      ∷ ("grant_type", codes "authorization_code")
      ∷ ("code", code)
      ∷ ("redirect_uri", redirect_uri provider config)
      ∷ []

  -- The members of the profile that name the account and its email.
  abbrev pub profile_id : Json → Option (List ℕ)
  profile_id profile =
      as_str (or_else (or_else (get "sub" profile) (get "oid" profile)) (get "id" profile))

  abbrev pub profile_email : Json → Option (List ℕ)
  profile_email profile = as_str (
      or_else (or_else (get "email" profile) (get "mail" profile))
        (get "userPrincipalName" profile))

  unfoldable pub exchange_code_and_fetch_identity :
      Config → OAuthProvider → List ℕ → M OAuthIdentity
  exchange_code_and_fetch_identity config provider code = do
    token_json ←
        ok_or (http.post_form (token_url provider config) (token_form config provider code))
          AppError.internal_error
    access_token ← ok_or (as_str (get "access_token" token_json)) AppError.internal_error
    profile ← ok_or (http.get_json (profile_url provider) access_token) AppError.internal_error
    provider_id ← ok_or (profile_id profile) AppError.internal_error
    email ← ok_or (profile_email profile) AppError.email_required
    pure (record { provider_id = name provider_id; email = email })
