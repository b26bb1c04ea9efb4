-- ===== src/Router/Tests.antt =====
-- Requests to the routes, with a router that compares the segments of a path one by one.
use text.Mathlib.Text.{◌==◌ as str_eq}
use text.Mathlib.TextEquality.{eq_iff}
use text.Mathlib.TextPositions.{eq_refl}
use pactum_codex.Base.{
  String, ◌≡◌, ◌≤◌, refl, arith, Bool, true, false, ◌&&◌, none, some, List, [], ◌∷◌, map, find,
  count_where,
}
use pactum_codex.Error.{AppError}
use pactum_codex.State.World.{err}
use pactum_codex.State.Sample.{calm, config}
use pactum_codex.State.Rows.{OAuthProvider}
use pactum_codex.Handlers.Auth.{auth_user}
use pactum_codex.Handlers.Auth.Tests.{sdk, library}
use pactum_codex.Handlers.Oauth.{detect_email_conflict}
use pactum_codex.Router.{
  PathMatcher, Segment, Method, Handler, Fits, unrouted, refused, entered, guard_of, build_router,
  answers, dispatch,
}
use pactum_codex.Router.Sessions.{is_public, OnEntered, dispatch-is_public}
use pactum_codex.Router.Unambiguous.{count_where-build_router}
use pactum_codex.Router.Links.{url, detect_email_conflict_unrouted}

abbrev plain : List Segment → List String → Bool
plain [] [] = true
plain [] (_ ∷ _) = false
plain (_ ∷ _) [] = false
plain (Segment.lit s ∷ ps) (x ∷ xs) = str_eq s x && plain ps xs
plain (Segment.any ∷ ps) (x ∷ xs) = plain ps xs

plain-Fits : (ps : List Segment) (path : List String) → plain ps path ≡ true → Fits ps path
plain-Fits [] [] h = tt
plain-Fits [] (_ ∷ _) h = cc
plain-Fits (_ ∷ _) [] h = cc
plain-Fits (Segment.lit s ∷ ps) (x ∷ xs) h =
    ((eq_iff s x).0 (ground (arith, h)), plain-Fits ps xs (ground (arith, h)))
plain-Fits (Segment.any ∷ ps) (x ∷ xs) h = plain-Fits ps xs h

plain_self : (path : List String) → plain (map Segment.lit path) path ≡ true
plain_self [] = refl
plain_self (x ∷ xs) = rw (eq_refl x) (plain_self xs)

abbrev axum : PathMatcher
axum = record { fits = plain; fits-Fits = plain-Fits; fits_self = plain_self }

unsigned : (auth_user sdk library config none calm).0 ≡ err AppError.unauthorized
unfolding auth_user
unsigned = refl

conflicts :
    detect_email_conflict OAuthProvider.google OAuthProvider.microsoft
    ≡ some (record { existing_provider = OAuthProvider.google; link_url = "/auth/link/oauth" })
unfolding detect_email_conflict
conflicts = refl

count_where-build_router_example :
    count_where (answers axum Method.get ("draft" ∷ "31" ∷ [])) build_router ≤ 1
count_where-build_router_example = count_where-build_router axum Method.get ("draft" ∷ "31" ∷ [])

dispatch-is_public_example :
    OnEntered
      (dispatch axum sdk library config none Method.get ("draft" ∷ "31" ∷ []) calm)
      (λ t. is_public t ≡ true)
dispatch-is_public_example =
    dispatch-is_public sdk library config none axum Method.get ("draft" ∷ "31" ∷ []) calm
      AppError.unauthorized unsigned

detect_email_conflict_unrouted_example :
    ("/auth/link/oauth" ≡ url ("auth" ∷ "link" ∷ "oauth" ∷ []))
    × (find (answers axum Method.post ("auth" ∷ "link" ∷ "oauth" ∷ [])) build_router ≡ none)
detect_email_conflict_unrouted_example =
    detect_email_conflict_unrouted axum OAuthProvider.google OAuthProvider.microsoft
      (record { existing_provider = OAuthProvider.google; link_url = "/auth/link/oauth" })
      Method.post conflicts

reads :
    (dispatch axum sdk library config none Method.get ("draft" ∷ "31" ∷ []) calm
      ≡ refused AppError.unauthorized)
    × (dispatch axum sdk library config none Method.get ("agreement" ∷ "9" ∷ []) calm
        ≡ entered Handler.get_agreement)
    × (dispatch axum sdk library config none Method.put ("agreement" ∷ "9" ∷ []) calm ≡ unrouted)
unfolding dispatch guard_of auth_user
reads = (refl, refl, refl)
