-- ===== src/Handlers/Oauth/Tests.antt =====
-- A user with a Google account and one who comes new; emails of one letter.
use pactum_codex.Base.{
  bytes_eq, true, false, List, arith, if◌then◌else◌, ℕ, ◌≡◌, refl, Option, none, some, [], ◌∷◌,
}
use pactum_codex.State.Rows.{OAuthProvider}
use pactum_codex.Error.{AppError}
use pactum_codex.State.World.{World, ok, err, OnOk}
use pactum_codex.State.Sample.{calm, empty_db, config}
use pactum_codex.Services.Crypto.{encrypt}
use pactum_codex.Services.Crypto.Tests.{toy}
use pactum_codex.Handlers.User.{
  UpdateContactsRequest, update_contacts, update_contacts_with, encrypt_given,
}
use pactum_codex.Handlers.Oauth.{
  linked_user, OAuthUserResolution, resolve_or_create_oauth_user, link_oauth_user,
  resolve_oauth_user, create_oauth_account, upsert_email_contact,
}
use pactum_codex.Handlers.Oauth.Identity.{validate_oauth_state_cookie}
use pactum_codex.Handlers.Oauth.Redirect.{
  Cookie, OauthLibrary, CookieLibrary, RedirectResponse, build_provider_auth_url, oauth_redirect,
  state_cookie, oauth_redirect-validate_oauth_state_cookie,
}
use pactum_codex.Handlers.Oauth.Linked.{Resolves, IsLinked, resolve_or_create_oauth_user-IsLinked}
use pactum_codex.Handlers.Oauth.Claimed.{resolve_again}
use pactum_codex.Handlers.Oauth.Squatted.{update_contacts-resolve}

abbrev decode : ℕ → Option ℕ
decode k = some 2

-- User 3 has a link.
abbrev one_user : World
one_user = record calm {
  db = record empty_db {
    user_accounts = record { id = 3; display_name = none } ∷ [];
    auth_oauth = record { user_id = 3; provider = OAuthProvider.google; provider_id = 21 } ∷ [];
  };
}

abbrev an_email : UpdateContactsRequest
an_email = record { email = some (97 ∷ []); phone = none; push_token = none }

-- User 3 has written the email of another person.
abbrev written : World
written = (update_contacts toy decode config 3 an_email one_user).1

resolve_or_create_oauth_user-IsLinked_example :
    let (r, w') =
      resolve_or_create_oauth_user toy decode config OAuthProvider.google 22 (97 ∷ []) one_user in
    OnOk r (Resolves (λ u. IsLinked toy 2 2 OAuthProvider.google 22 (97 ∷ []) u w'.db))
resolve_or_create_oauth_user-IsLinked_example =
    resolve_or_create_oauth_user-IsLinked toy decode config 2 2 refl refl OAuthProvider.google 22
      (97 ∷ []) one_user

resolve_again_example :
    let (r, w') =
      resolve_or_create_oauth_user toy decode config OAuthProvider.google 22 (97 ∷ []) one_user in
    OnOk r (
      Resolves (λ u.
        OnOk
          (resolve_or_create_oauth_user toy decode config OAuthProvider.google 22 (98 ∷ []) w').0
          (Resolves (λ u'. u' ≡ u))))
resolve_again_example =
    resolve_again toy decode config OAuthProvider.google 22 (98 ∷ []) 2 2 (97 ∷ []) one_user
      (resolve_or_create_oauth_user toy decode config OAuthProvider.google 22 (97 ∷ []) one_user).1
      refl refl refl

update_contacts-resolve_example :
    OnOk (update_contacts toy decode config 3 an_email one_user).0 (λ _.
      let (s, v') =
        resolve_or_create_oauth_user toy decode config OAuthProvider.google 22 (97 ∷ []) written in
      OnOk s (λ x.
        (x ≡ OAuthUserResolution.user 3) × (linked_user OAuthProvider.google 22 v'.db ≡ some 3)))
unfolding update_contacts update_contacts_with encrypt_given encrypt
update_contacts-resolve_example =
    update_contacts-resolve toy decode config 2 2 refl refl OAuthProvider.google 3 (97 ∷ [])
      an_email 22 one_user written refl (λ _. refl, tt) refl (λ _. refl, tt) refl refl

-- The newcomer does get a session of user 3, and without the update an account of their own.
newcomer_taken :
    (resolve_or_create_oauth_user toy decode config OAuthProvider.google 22 (97 ∷ []) written).0
    ≡ ok (OAuthUserResolution.user 3)
unfolding resolve_or_create_oauth_user update_contacts update_contacts_with encrypt_given encrypt
    link_oauth_user resolve_oauth_user upsert_email_contact
newcomer_taken = refl

newcomer_alone :
    (resolve_or_create_oauth_user toy decode config OAuthProvider.google 22 (97 ∷ []) one_user).0
    ≡ ok (OAuthUserResolution.user 7000)
unfolding resolve_or_create_oauth_user link_oauth_user resolve_oauth_user create_oauth_account
    upsert_email_contact encrypt
newcomer_alone = refl

-- A jar finds a cookie by its name; every URL parses, and the address is the state.
bytes_eq_refl : (xs : List ℕ) → bytes_eq xs xs ≡ true
bytes_eq_refl [] = refl
bytes_eq_refl (x ∷ xs) = ground (arith, bytes_eq_refl xs)

abbrev put : Cookie → (List ℕ → Option Cookie) → List ℕ → Option Cookie
put c jar name = if bytes_eq name c.name then some c else jar name

get-put : (c : Cookie) (jar : List ℕ → Option Cookie) → put c jar c.name ≡ some c
get-put c jar = rw (bytes_eq_refl c.name) refl

get-put_other :
    (name : List ℕ) (c : Cookie) (jar : List ℕ → Option Cookie)
    → bytes_eq name c.name ≡ false
    → put c jar name ≡ jar name
get-put_other name c jar h = rw h refl

abbrev jars : CookieLibrary
jars = record {
  Jar = List ℕ → Option Cookie;
  get = λ name jar. jar name;
  add = put;
  get-add = get-put;
  get-add_other = get-put_other;
}

abbrev direct : OauthLibrary
direct = record {
  parses = λ u. true;
  url = λ auth_url token_url redirect_uri client_id client_secret scopes state. state;
}

abbrev no_cookies : List ℕ → Option Cookie
no_cookies name = none

sent :
    (oauth_redirect direct jars config no_cookies OAuthProvider.google (7 ∷ [])).0
    ≡ RedirectResponse.to (7 ∷ [])
unfolding oauth_redirect build_provider_auth_url
sent = refl

oauth_redirect-validate_oauth_state_cookie_example :
    let jar' = (oauth_redirect direct jars config no_cookies OAuthProvider.google (7 ∷ [])).1 in
    ((validate_oauth_state_cookie
        (state_cookie direct jars config OAuthProvider.google jar')
        (8 ∷ [])
        calm).0
      ≡ err AppError.unauthorized)
    × (state_cookie direct jars config OAuthProvider.microsoft jar' ≡ none)
oauth_redirect-validate_oauth_state_cookie_example =
    oauth_redirect-validate_oauth_state_cookie direct jars config no_cookies OAuthProvider.google
      (7 ∷ []) (7 ∷ []) (8 ∷ []) calm sent
