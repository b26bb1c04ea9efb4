-- ===== src/Router.antt =====
-- The routes of the API: src/router.rs, with the session that each handler asks for by the types of
-- its arguments. How axum matches a path is a parameter, a path is the list of its segments.
pub mod Unambiguous
pub mod Sessions
pub mod Links
mod Tests
use pactum_codex.Base.{
  ℕ, String, ◌≡◌, Bool, true, false, ◌&&◌, Option, none, some, List, [], ◌∷◌, ◌++◌, map, find,
}
use pactum_codex.Error.{AppError}
use pactum_codex.Config.{Config}
use pactum_codex.State.World.{World, M, Void, Result, ok, err, ◌>>=◌, ◌>>◌, pure}
use pactum_codex.Services.Jwt.{TokenLibrary}
use pactum_codex.Handlers.Auth.{SolanaSdk, auth_user, auth_user_with_wallet}

pub data Method : Type 0 where
  get post put delete : Method

-- `:id` is `any`.
pub data Segment : Type 0 where
  lit : String → Segment
  any : Segment

pub data Handler : Type 0 where
  health_handler challenge verify link_wallet refresh logout : Handler
  oauth_google oauth_google_callback oauth_microsoft oauth_microsoft_callback : Handler
  upload_handler create_agreement get_agreement list_agreements sign_agreement : Handler
  cancel_agreement vote_revoke retract_revoke_vote : Handler
  get_draft delete_draft reinvite_draft submit_draft get_invite accept_invite : Handler
  initiate_payment payment_status get_profile update_profile : Handler
  update_contacts delete_contacts ws_handler : Handler

pub record Route : Type 0 where
  pub method : Method
  pub path : List Segment
  pub handler : Handler

abbrev pub same_method : Method → Method → Bool
same_method Method.get Method.get = true
same_method Method.post Method.post = true
same_method Method.put Method.put = true
same_method Method.delete Method.delete = true
same_method _ _ = false

-- What it is for a path to have the form of a pattern.
abbrev pub Fits : List Segment → List String → Type 0
Fits [] [] = Unit
Fits [] (_ ∷ _) = ⊥
Fits (_ ∷ _) [] = ⊥
Fits (Segment.lit s ∷ ps) (x ∷ xs) = (s ≡ x) × Fits ps xs
Fits (Segment.any ∷ ps) (x ∷ xs) = Fits ps xs

-- The router of axum: a path that it takes for a pattern has its form, and a path without parameters
-- is taken for itself.
pub record PathMatcher : Type 0 where
  pub fits : List Segment → List String → Bool
  pub fits-Fits : (ps : List Segment) (path : List String) → fits ps path ≡ true → Fits ps path
  pub fits_self : (path : List String) → fits (map Segment.lit path) path ≡ true

abbrev pub route : Method → List Segment → Handler → Route
route method path handler = record { method = method; path = path; handler = handler }

abbrev pub at : String → List Segment → List Segment
at s ps = Segment.lit s ∷ ps

abbrev pub auth_routes : List Route
auth_routes =
    route Method.get (at "auth" (at "challenge" [])) Handler.challenge
    ∷ route Method.post (at "auth" (at "verify" [])) Handler.verify
    ∷ route Method.get (at "auth" (at "oauth" (at "google" []))) Handler.oauth_google
    ∷ route Method.get (at "auth" (at "oauth" (at "google" (at "callback" []))))
        Handler.oauth_google_callback
    ∷ route Method.get (at "auth" (at "oauth" (at "microsoft" []))) Handler.oauth_microsoft
    ∷ route Method.get (at "auth" (at "oauth" (at "microsoft" (at "callback" []))))
        Handler.oauth_microsoft_callback
    ∷ route Method.post (at "auth" (at "link" (at "wallet" []))) Handler.link_wallet
    ∷ route Method.post (at "auth" (at "refresh" [])) Handler.refresh
    ∷ route Method.post (at "auth" (at "logout" [])) Handler.logout
    ∷ []

abbrev pub upload_routes : List Route
upload_routes = route Method.post (at "upload" []) Handler.upload_handler ∷ []

abbrev pub agreement_routes : List Route
agreement_routes =
    route Method.post (at "agreement" []) Handler.create_agreement
    ∷ route Method.get (at "agreement" (Segment.any ∷ [])) Handler.get_agreement
    ∷ route Method.get (at "agreements" []) Handler.list_agreements
    ∷ route Method.post (at "agreement" (Segment.any ∷ at "sign" [])) Handler.sign_agreement
    ∷ route Method.post (at "agreement" (Segment.any ∷ at "cancel" [])) Handler.cancel_agreement
    ∷ route Method.post (at "agreement" (Segment.any ∷ at "revoke" [])) Handler.vote_revoke
    ∷ route Method.post (at "agreement" (Segment.any ∷ at "retract" [])) Handler.retract_revoke_vote
    ∷ []

abbrev pub draft_routes : List Route
draft_routes =
    route Method.get (at "draft" (Segment.any ∷ [])) Handler.get_draft
    ∷ route Method.delete (at "draft" (Segment.any ∷ [])) Handler.delete_draft
    ∷ route Method.put (at "draft" (Segment.any ∷ at "reinvite" [])) Handler.reinvite_draft
    ∷ route Method.post (at "draft" (Segment.any ∷ at "submit" [])) Handler.submit_draft
    ∷ []

abbrev pub invite_routes : List Route
invite_routes =
    route Method.get (at "invite" (Segment.any ∷ [])) Handler.get_invite
    ∷ route Method.post (at "invite" (Segment.any ∷ at "accept" [])) Handler.accept_invite
    ∷ []

abbrev pub payment_routes : List Route
payment_routes =
    route Method.post (at "payment" (at "initiate" (Segment.any ∷ []))) Handler.initiate_payment
    ∷ route Method.get (at "payment" (at "status" (Segment.any ∷ []))) Handler.payment_status
    ∷ []

abbrev pub user_routes : List Route
user_routes =
    route Method.get (at "user" (at "me" [])) Handler.get_profile
    ∷ route Method.put (at "user" (at "me" [])) Handler.update_profile
    ∷ route Method.put (at "user" (at "contacts" [])) Handler.update_contacts
    ∷ route Method.delete (at "user" (at "contacts" [])) Handler.delete_contacts
    ∷ []

abbrev pub ws_routes : List Route
ws_routes = route Method.get (at "ws" []) Handler.ws_handler ∷ []

abbrev pub build_router : List Route
build_router =
    route Method.get (at "health" []) Handler.health_handler
    ∷ (auth_routes
        ++ (upload_routes
            ++ (agreement_routes
                ++ (draft_routes
                    ++ (invite_routes ++ (payment_routes ++ (user_routes ++ ws_routes)))))))

-- The session that a handler's arguments ask for.
pub data Guard : Type 0 where
  nobody user wallet : Guard

unfoldable pub guard_of : Handler → Guard
guard_of Handler.link_wallet = Guard.user
guard_of Handler.upload_handler = Guard.wallet
guard_of Handler.create_agreement = Guard.wallet
guard_of Handler.list_agreements = Guard.user
guard_of Handler.sign_agreement = Guard.wallet
guard_of Handler.cancel_agreement = Guard.wallet
guard_of Handler.vote_revoke = Guard.wallet
guard_of Handler.retract_revoke_vote = Guard.wallet
guard_of Handler.get_draft = Guard.user
guard_of Handler.delete_draft = Guard.user
guard_of Handler.reinvite_draft = Guard.user
guard_of Handler.submit_draft = Guard.wallet
guard_of Handler.accept_invite = Guard.wallet
guard_of Handler.initiate_payment = Guard.wallet
guard_of Handler.payment_status = Guard.user
guard_of Handler.get_profile = Guard.user
guard_of Handler.update_profile = Guard.user
guard_of Handler.update_contacts = Guard.user
guard_of Handler.delete_contacts = Guard.user
guard_of _ = Guard.nobody

-- What becomes of a request.
pub data Outcome : Type 0 where
  unrouted : Outcome
  refused : AppError → Outcome
  entered : Handler → Outcome

module _ (axum : PathMatcher) where
  abbrev pub answers : Method → List String → Route → Bool
  answers method path r = same_method method r.method && axum.fits r.path path

  module _ (sdk : SolanaSdk) (lib : TokenLibrary) (config : Config) (header : Option ℕ) where
    abbrev pub admit : Guard → M Void
    admit Guard.nobody = pure tt
    admit Guard.user = auth_user sdk lib config header >> pure tt
    admit Guard.wallet = auth_user_with_wallet sdk lib config header >> pure tt

    abbrev pub outcome : Handler → Result Void → Outcome
    outcome target (ok _) = entered target
    outcome target (err e) = refused e

    unfoldable pub dispatch : Method → List String → World → Outcome
    dispatch method path w = elim (find (answers method path) build_router) [
      | none ↦ unrouted
      | some r ↦ outcome r.handler (admit (guard_of r.handler) w).0
    ]
