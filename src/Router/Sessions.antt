-- ===== src/Router/Sessions.antt =====
-- Which handlers a request without a session can reach: src/router.rs and src/middleware/.
use pactum_codex.Base.{
  ℕ, String, ◌≡◌, refl, arith, Bool, true, false, Option, List, find, find-all, all, ◌||◌,
  Bool-cases, Option-cases, inl, inr,
}
use pactum_codex.Error.{AppError}
use pactum_codex.Config.{Config}
use pactum_codex.State.World.{World, err, Result-cases}
use pactum_codex.Services.Jwt.{TokenLibrary}
use pactum_codex.Handlers.Auth.{SolanaSdk, auth_user, auth_user_with_wallet}
use pactum_codex.Router.{
  PathMatcher, Method, Handler, Guard, Outcome, unrouted, refused, entered, build_router, answers,
  guard_of, admit, outcome, dispatch,
}

-- The handlers of the sign-in, the reading of an agreement and of an invitation, the health, and the
-- socket, which looks at the token itself.
abbrev pub is_public : Handler → Bool
is_public Handler.health_handler = true
is_public Handler.challenge = true
is_public Handler.verify = true
is_public Handler.refresh = true
is_public Handler.logout = true
is_public Handler.oauth_google = true
is_public Handler.oauth_google_callback = true
is_public Handler.oauth_microsoft = true
is_public Handler.oauth_microsoft_callback = true
is_public Handler.get_agreement = true
is_public Handler.get_invite = true
is_public Handler.ws_handler = true
is_public _ = false

-- The handler of a request that has entered one.
abbrev pub OnEntered : Outcome → (Handler → Type 0) → Type 0
OnEntered unrouted P = Unit
OnEntered (refused e) P = Unit
OnEntered (entered target) P = P target

abbrev asks : Guard → Bool
asks Guard.nobody = false
asks Guard.user = true
asks Guard.wallet = true

listed : all (λ r. is_public r.handler || asks (guard_of r.handler)) build_router ≡ true
unfolding guard_of
listed = refl

module _ (sdk : SolanaSdk) (lib : TokenLibrary) (config : Config) (header : Option ℕ)
    (axum : PathMatcher) where
  admit_refused :
      (g : Guard) (w : World) (e : AppError)
      → asks g ≡ true
      → (auth_user sdk lib config header w).0 ≡ err e
      → (admit axum sdk lib config header g w).0 ≡ err e
  unfolding auth_user_with_wallet
  admit_refused Guard.nobody w e asked h = absurd (ground arith)
  admit_refused Guard.user w e asked h = ground (arith, h)
  admit_refused Guard.wallet w e asked h = ground (arith, h)

  outcome-is_public :
      (target : Handler) (w : World) (e : AppError)
      → (is_public target || asks (guard_of target)) ≡ true
      → (auth_user sdk lib config header w).0 ≡ err e
      → OnEntered
          (outcome axum sdk lib config header target
            (admit axum sdk lib config header (guard_of target) w).0)
          (λ t. is_public t ≡ true)
  outcome-is_public target w e fine h = elim (Bool-cases (asks (guard_of target))) [
    | inl asked ↦ rw (admit_refused (guard_of target) w e asked h, outcome, OnEntered) tt
    | inr free ↦ elim (Result-cases (admit axum sdk lib config header (guard_of target) w).0) [
      | inl (u, admitted) ↦ rw (admitted, outcome, OnEntered) (ground arith)
      | inr (x, denied) ↦ rw (denied, outcome, OnEntered) tt
    ]
  ]

  -- A request whose session the middleware refuses enters no handler but those of the sign-in, of an
  -- agreement, an invitation and the health, and the one of the socket, which looks at the token.
  pub dispatch-is_public :
      (method : Method) (path : List String) (w : World) (e : AppError)
      → (auth_user sdk lib config header w).0 ≡ err e
      → OnEntered (dispatch axum sdk lib config header method path w) (λ t. is_public t ≡ true)
  unfolding dispatch
  dispatch-is_public method path w e h =
      elim (Option-cases (find (answers axum method path) build_router)) [
        | inl none_there ↦ rw (none_there, OnEntered) tt
        | inr (r, there) ↦
            rw (there, OnEntered)
              (outcome-is_public r.handler w e
                (find-all (answers axum method path)
                  (λ r. is_public r.handler || asks (guard_of r.handler)) build_router r listed
                  there)
                h)
      ]
