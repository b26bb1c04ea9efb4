-- ===== src/Handlers/Oauth/Redirect.antt =====
-- The way to a provider: `oauth_redirect`, `build_provider_auth_url` and `build_oauth_state_cookie`
-- of src/handlers/auth.rs. The oauth2 crate and the jar of cookies are parameters; the random state
-- is an argument.
use pactum_codex.Base.{
  ℕ, String, ◌≡◌, refl, ap, arith, Bool, true, false, Option, some, List, [], ◌∷◌, ◌++◌, ◌&&◌,
  bytes_eq, if◌then◌else◌, Bool-cases, inl, inr,
}
use mathlib.Core.Option
use pactum_codex.Error.{AppError}
use pactum_codex.Config.{Config}
use pactum_codex.State.Rows.{OAuthProvider}
use pactum_codex.State.World.{World, Result, ok, err}
use pactum_codex.Services.SolanaPay.{codes}
use pactum_codex.Handlers.Oauth.Identity.{
  client_id, client_secret, redirect_uri, token_url, validate_oauth_state_cookie,
}

pub record Cookie : Type 0 where
  pub name : List ℕ
  pub value : List ℕ
  pub http_only : Bool
  pub secure : Bool
  pub same_site : String
  pub path : String
  pub max_age : ℕ

-- The oauth2 crate. A URL is refused when it does not parse; `url` is the address of an authorization
-- request, of the three URLs, the id and the secret of the client, the scopes and the state.
pub record OauthLibrary : Type 0 where
  pub parses : List ℕ → Bool
  pub url : List ℕ → List ℕ → List ℕ → List ℕ → List ℕ → List String → List ℕ → List ℕ

-- The jar of axum_extra: a cookie that is added takes the place of the one of its name.
pub record CookieLibrary : Type 1 where
  pub Jar : Type 0
  pub get : List ℕ → Jar → Option Cookie
  pub add : Cookie → Jar → Jar
  pub get-add : (c : Cookie) (jar : Jar) → get c.name (add c jar) ≡ some c
  pub get-add_other :
      (name : List ℕ) (c : Cookie) (jar : Jar)
      → bytes_eq name c.name ≡ false
      → get name (add c jar) ≡ get name jar

abbrev pub auth_url : OAuthProvider → Config → List ℕ
auth_url OAuthProvider.google config = codes "https://accounts.google.com/o/oauth2/v2/auth"
auth_url OAuthProvider.microsoft config =
    codes "https://login.microsoftonline.com/"
    ++ (config.microsoft_tenant ++ codes "/oauth2/v2.0/authorize")

abbrev pub scopes : List String
scopes = "openid" ∷ "email" ∷ "profile" ∷ []

abbrev pub state_cookie_name : OAuthProvider → List ℕ
state_cookie_name OAuthProvider.google = codes "oauth_google_state"
state_cookie_name OAuthProvider.microsoft = codes "oauth_microsoft_state"

abbrev pub build_oauth_state_cookie : List ℕ → List ℕ → Cookie
build_oauth_state_cookie name state = record {
  name = name;
  value = state;
  http_only = true;
  secure = true;
  same_site = "Lax";
  path = "/";
  max_age = 600;
}

pub data RedirectResponse : Type 0 where
  to : List ℕ → RedirectResponse
  internal_error : RedirectResponse

abbrev pub other : OAuthProvider → OAuthProvider
other OAuthProvider.google = OAuthProvider.microsoft
other OAuthProvider.microsoft = OAuthProvider.google

names_differ :
    (provider : OAuthProvider)
    → bytes_eq (state_cookie_name (other provider)) (state_cookie_name provider) ≡ false
names_differ OAuthProvider.google = refl
names_differ OAuthProvider.microsoft = refl

module _ (lib : OauthLibrary) (cookies : CookieLibrary) (config : Config) where
  unfoldable pub build_provider_auth_url : OAuthProvider → List ℕ → Result (List ℕ × List ℕ)
  build_provider_auth_url provider csrf =
      if lib.parses (auth_url provider config)
        && lib.parses (token_url provider config)
        && lib.parses (redirect_uri provider config)
      then ok (
        lib.url (auth_url provider config) (token_url provider config)
            (redirect_uri provider config) (client_id provider config)
            (client_secret provider config) scopes csrf,
        csrf,
      )
      else err AppError.internal_error

  unfoldable pub oauth_redirect :
      cookies.Jar → OAuthProvider → List ℕ → RedirectResponse × cookies.Jar
  oauth_redirect jar provider csrf = elim (build_provider_auth_url provider csrf) [
    | err e ↦ (RedirectResponse.internal_error, jar)
    | ok (url, state) ↦ (
      RedirectResponse.to url,
      cookies.add (build_oauth_state_cookie (state_cookie_name provider) state) jar,
    )
  ]

  abbrev pub state_cookie : OAuthProvider → cookies.Jar → Option (List ℕ)
  state_cookie provider jar =
      Option.map (λ c. c.value) (cookies.get (state_cookie_name provider) jar)

  redirected :
      (jar : cookies.Jar) (provider : OAuthProvider) (csrf url : List ℕ)
      → (oauth_redirect jar provider csrf).0 ≡ RedirectResponse.to url
      → (oauth_redirect jar provider csrf).1
        ≡ cookies.add (build_oauth_state_cookie (state_cookie_name provider) csrf) jar
  unfolding oauth_redirect build_provider_auth_url
  redirected jar provider csrf url sent =
      elim (Bool-cases (
        lib.parses (auth_url provider config)
        && lib.parses (token_url provider config)
        && lib.parses (redirect_uri provider config))) [
          | inl parses ↦ rw (oauth_redirect, build_provider_auth_url, parses) refl
          | inr bad ↦ ground arith
        ]

  -- After a redirect to a provider, a callback of that provider passes the check of its state exactly
  -- with the state of the redirect, and a callback of the other provider is checked as before.
  pub oauth_redirect-validate_oauth_state_cookie :
      (jar : cookies.Jar) (provider : OAuthProvider) (csrf url query_state : List ℕ) (w : World)
      → (oauth_redirect jar provider csrf).0 ≡ RedirectResponse.to url
      → let jar' = (oauth_redirect jar provider csrf).1 in
        ((validate_oauth_state_cookie (state_cookie provider jar') query_state w).0
          ≡ (if bytes_eq csrf query_state then ok tt else err AppError.unauthorized))
        × (state_cookie (other provider) jar' ≡ state_cookie (other provider) jar)
  unfolding validate_oauth_state_cookie
  oauth_redirect-validate_oauth_state_cookie jar provider csrf url query_state w sent =
      let cookie = build_oauth_state_cookie (state_cookie_name provider) csrf in
      rw (redirected jar provider csrf url sent) (
        rw (cookies.get-add cookie jar) (ground arith),
        ap (Option.map (λ c. c.value)) (
            cookies.get-add_other (state_cookie_name (other provider)) cookie jar
              (names_differ provider)),
      )
