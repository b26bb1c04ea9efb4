-- ===== src/State/Events.antt =====
-- The events that are pushed to connected clients: `WsEvent` of src/state.rs. A payload is the
-- agreement's address or the draft's id. And the mails that the provider has taken.
use pactum_codex.Base.{ℕ, String, Option, List}

pub data WsEvent : Type 0 where
  agreement_created agreement_signed agreement_completed agreement_cancelled : ℕ → WsEvent
  agreement_expired agreement_revoke_vote agreement_revoked : ℕ → WsEvent
  draft_ready draft_invitation_expired payment_confirmed refund_completed : ℕ → WsEvent
  generic_notification : String → WsEvent

-- `agreement_pda` is what the texts of the body are made from.
pub record Mail : Type 0 where
  pub to : List ℕ
  pub subject : String
  pub agreement_pda : Option ℕ
