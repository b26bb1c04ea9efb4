-- ===== src/Router/Links.antt =====
-- Where the link in the answer to a conflict of providers leads: src/handlers/auth.rs on the routes
-- of src/router.rs.
use Prim.Native.String.{◌++◌ as str_append}
use pactum_codex.Base.{String, ◌≡◌, refl, arith, none, some, List, [], ◌∷◌, find}
use pactum_codex.State.Rows.{OAuthProvider}
use pactum_codex.Handlers.Oauth.{EmailConflictDetails, detect_email_conflict}
use pactum_codex.Router.{PathMatcher, Method, build_router, answers}
use pactum_codex.Router.Unambiguous.{unfit}

-- The text of a path.
abbrev pub url : List String → String
url [] = ""
url (s ∷ ss) = str_append "/" (str_append s (url ss))

-- The path of the link.
abbrev pub link_path : List String
link_path = "auth" ∷ "link" ∷ "oauth" ∷ []

-- The link that a conflict of providers answers is the path of the three segments auth, link and
-- oauth, on which no route answers, whatever the method.
pub detect_email_conflict_unrouted :
    (axum : PathMatcher) (existing current : OAuthProvider) (details : EmailConflictDetails)
    (method : Method)
    → detect_email_conflict existing current ≡ some details
    → (details.link_url ≡ url link_path)
      × (find (answers axum method link_path) build_router ≡ none)
unfolding detect_email_conflict
detect_email_conflict_unrouted axum existing current details method e =
    (ground (arith, e), unfit axum method link_path build_router refl)
