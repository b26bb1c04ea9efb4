-- ===== src/Handlers/Ws/Admission.antt =====
-- Who may open a connection, and what is written to it: `ws_handler`, `ws_event_to_json` and the
-- helpers of src/handlers/ws.rs. A header is there when it is present and its value is text; `name`
-- gives the number that stands for a token's text in the rest of the model.
use pactum_codex.Base.{
  leb, ℕ, ◌+◌, ◌≡◌, refl, arith, String, Bool, false, Option, none, some, List, [], ◌∷◌, exists,
  bytes_eq, Option-cases, Bool-cases, inl, inr, if◌then◌else◌,
}
use mathlib.Core.Path.{subst}
use pactum_codex.Config.{Config}
use pactum_codex.State.Events.{WsEvent}
use pactum_codex.State.World.{World, Result, ok, err, OnOk}
use pactum_codex.Services.SolanaPay.{codes}
use pactum_codex.Services.ProgramLog.{strip_prefix}
use pactum_codex.Services.Jwt.{
  TokenLibrary, Claims, claims_at, issue_access_token, decode_access_token,
}

pub record HeaderMap : Type 0 where
  pub origin : Option (List ℕ)
  pub authorization : Option (List ℕ)

pub data Response : Type 0 where
  forbidden unauthorized : Response
  upgrade : ℕ → Response

abbrev pub ws_allowed_origins : List (List ℕ)
ws_allowed_origins = codes "https://pactum.app" ∷ codes "https://app.pactum.app" ∷ []

unfoldable pub is_allowed_origin : HeaderMap → Bool
is_allowed_origin headers = elim headers.origin [
  | none ↦ false
  | some origin ↦ exists (bytes_eq origin) ws_allowed_origins
]

abbrev pub bearer_token : HeaderMap → Option (List ℕ)
bearer_token headers = elim headers.authorization [
  | none ↦ none
  | some value ↦ strip_prefix (codes "Bearer ") value
]

-- An empty token of the query is passed over.
unfoldable pub extract_jwt_token : HeaderMap → Option (List ℕ) → Option (List ℕ)
extract_jwt_token headers (some (c ∷ cs)) = some (c ∷ cs)
extract_jwt_token headers (some []) = bearer_token headers
extract_jwt_token headers none = bearer_token headers

abbrev pub respond : Result Claims → Response
respond (ok claims) = Response.upgrade claims.sub
respond (err _) = Response.unauthorized

module _ (lib : TokenLibrary) (name : List ℕ → ℕ) where
  unfoldable pub ws_handler : Config → ℕ → HeaderMap → Option (List ℕ) → Response
  ws_handler config time headers query =
      if is_allowed_origin headers
      then elim (extract_jwt_token headers query) [
        | none ↦ Response.unauthorized
        | some token ↦ respond (decode_access_token lib config time (name token))
      ]
      else Response.forbidden

  issue_access_token-encode :
      (config : Config) (user : ℕ) (pubkey : Option ℕ) (w : World)
      → OnOk (issue_access_token lib config user pubkey w).0 (λ token.
        lib.encode config.jwt_secret (claims_at lib config user pubkey w.now (w.supply 0))
        ≡ some token)
  unfolding issue_access_token
  issue_access_token-encode config user pubkey w =
      elim (Option-cases
        (lib.encode config.jwt_secret (claims_at lib config user pubkey w.now (w.supply 0)))) [
          | inl refused ↦ rw (refused, OnOk) tt
          | inr (token, encoded) ↦ rw (encoded, OnOk) refl
        ]

  -- A token that was issued for a user opens that user's connection, from an allowed origin and
  -- until it expires; after that it is refused, and from any other origin nothing is accepted.
  pub ws_handler-issue_access_token :
      (config : Config) (user token : ℕ) (pubkey : Option ℕ) (w : World) (time : ℕ)
      (headers : HeaderMap) (query : Option (List ℕ)) (text : List ℕ)
      → (issue_access_token lib config user pubkey w).0 ≡ ok token
      → extract_jwt_token headers query ≡ some text
      → name text ≡ token
      → ws_handler config time headers query ≡ (
          if is_allowed_origin headers
          then if leb time (w.now + config.jwt_access_expiry_seconds)
            then Response.upgrade user
            else Response.unauthorized
          else Response.forbidden)
  unfolding ws_handler decode_access_token
  ws_handler-issue_access_token config user token pubkey w time headers query text issued there
        same =
      let claims = claims_at lib config user pubkey w.now (w.supply 0) in
      let encoded : lib.encode config.jwt_secret claims ≡ some token =
        subst (λ r. OnOk r (λ t. lib.encode config.jwt_secret claims ≡ some t)) issued
          (issue_access_token-encode config user pubkey w) in
      elim (Bool-cases (is_allowed_origin headers)) [
        | inr foreign ↦ rw foreign refl
        | inl allowed ↦ elim (Bool-cases (leb time (w.now + config.jwt_access_expiry_seconds))) [
          | inl soon ↦
              rw
                (
                  allowed,
                  there,
                  same,
                  soon,
                  lib.decode-encode config.jwt_secret time token claims encoded
                      (ground (arith, soon)),
                  decode_access_token,
                )
                refl
          | inr late ↦
              rw
                (
                  allowed,
                  there,
                  same,
                  late,
                  lib.decode_expired config.jwt_secret time token claims encoded
                      (ground (arith, late)),
                  decode_access_token,
                )
                refl
        ]
      ]

-- The event's name, the field of its payload, and the payload's number or text.
pub data Payload : Type 0 where
  agreement_pda draft_id : ℕ → Payload
  message : String → Payload

pub record WsMessage : Type 0 where
  pub event : String
  pub payload : Payload
  pub timestamp : ℕ

abbrev pub on_agreement : String → ℕ → ℕ → WsMessage
on_agreement event pda time = record {
  event = event;
  payload = Payload.agreement_pda pda;
  timestamp = time;
}

abbrev pub on_draft : String → ℕ → ℕ → WsMessage
on_draft event draft time = record {
  event = event;
  payload = Payload.draft_id draft;
  timestamp = time;
}

unfoldable pub ws_event_to_json : ℕ → WsEvent → WsMessage
ws_event_to_json t (WsEvent.agreement_created a) = on_agreement "agreement.created" a t
ws_event_to_json t (WsEvent.agreement_signed a) = on_agreement "agreement.signed" a t
ws_event_to_json t (WsEvent.agreement_completed a) = on_agreement "agreement.completed" a t
ws_event_to_json t (WsEvent.agreement_cancelled a) = on_agreement "agreement.cancelled" a t
ws_event_to_json t (WsEvent.agreement_expired a) = on_agreement "agreement.expired" a t
ws_event_to_json t (WsEvent.agreement_revoke_vote a) = on_agreement "agreement.revoke_vote" a t
ws_event_to_json t (WsEvent.agreement_revoked a) = on_agreement "agreement.revoked" a t
ws_event_to_json t (WsEvent.draft_ready d) = on_draft "draft.ready_to_submit" d t
ws_event_to_json t (WsEvent.draft_invitation_expired d) = on_draft "draft.invitation_expired" d t
ws_event_to_json t (WsEvent.payment_confirmed d) = on_draft "payment.confirmed" d t
ws_event_to_json t (WsEvent.refund_completed d) = on_draft "payment.refund_completed" d t
ws_event_to_json t (WsEvent.generic_notification m) = record {
  event = "notification.generic";
  payload = Payload.message m;
  timestamp = t;
}
