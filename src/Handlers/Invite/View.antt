-- ===== src/Handlers/Invite/View.antt =====
-- What an invitation shows before it is accepted: `get_invite` of src/handlers/invite.rs. The map of
-- the limiter is an argument, and is handed back.
use mathlib.Core.Option
use pactum_codex.Base.{
  ℕ, String, Bool, ◌&&◌, Option, none, some, List, [], ◌∷◌, ◌==◌, if◌then◌else◌, is_value, exists,
  find, ◌==◌,
}
use pactum_codex.Error.{AppError}
use pactum_codex.State.Rows.{Db, Account, Contact, Draft, Invitation}
use pactum_codex.State.World.{World, M, Result, ◌>>=◌, ◌>>◌, pure, ok_or, lift, fetch, now}
use pactum_codex.Services.SolanaPay.{codes}
use pactum_codex.Services.ProgramLog.{trim}
use pactum_codex.Handlers.Auth.{wallet_owner}
use pactum_codex.Handlers.Payment.{has_draft_id}
use pactum_codex.Handlers.User.{has_account_id}
use pactum_codex.Handlers.Invite.{
  Limiter, has_token, validate_pending_invitation, enforce_get_invite_rate_limit,
}

pub record GetInviteResponse : Type 0 where
  pub agreement_title : String
  pub creator_display : List ℕ
  pub expires_at : ℕ
  pub has_account : Bool
  pub has_wallet : Bool

-- The row of the query; the columns `id`, `draft_id`, `status` and `expires_at` are the invitation's.
pub record InviteViewRow : Type 0 where
  pub invite : Invitation
  pub agreement_title : String
  pub creator_display : Option (List ℕ)
  pub has_account : Bool
  pub has_wallet : Bool

abbrev pub is_contact_of : Invitation → Contact → Bool
is_contact_of i c = is_value c.email_index i.invited_email_index

-- `JOIN auth_wallet aw ON aw.user_id = uc.user_id`
abbrev pub has_wallet_row : Db → Contact → Bool
has_wallet_row db c = exists (λ w. w.user_id == c.user_id) db.auth_wallet

-- The two LEFT JOINs: the account of the wallet that created the draft.
abbrev pub display_of : Option Account → Option (List ℕ)
display_of none = none
display_of (some account) = account.display_name

abbrev pub account_of : Option ℕ → Db → Option Account
account_of none db = none
account_of (some user) db = find (has_account_id user) db.user_accounts

abbrev pub view_row : Db → Invitation → Draft → InviteViewRow
view_row db i d = record {
  invite = i;
  agreement_title = d.draft_payload.title;
  creator_display = display_of (account_of (wallet_owner d.creator_pubkey db) db);
  has_account = exists (is_contact_of i) db.user_contacts;
  has_wallet = exists (λ c. is_contact_of i c && has_wallet_row db c) db.user_contacts;
}

abbrev pub joined_row : Db → Option Invitation → Option InviteViewRow
joined_row db none = none
joined_row db (some i) =
    Option.map (view_row db i) (find (has_draft_id i.draft_id) db.agreement_drafts)

abbrev pub invite_row : ℕ → Db → Option InviteViewRow
invite_row token db = joined_row db (find (has_token token) db.party_invitations)

abbrev pub shown_name : Option (List ℕ) → List ℕ
shown_name none = codes "Unknown creator"
shown_name (some name) = name

unfoldable pub view_invite : ℕ → M GetInviteResponse
view_invite token = do
  found ← fetch (invite_row token)
  row ← ok_or found AppError.not_found
  time ← now
  validate_pending_invitation time row.invite
  pure (record {
    agreement_title = row.agreement_title;
    creator_display = shown_name row.creator_display;
    expires_at = row.invite.expires_at;
    has_account = row.has_account;
    has_wallet = row.has_wallet;
  })

-- The two headers, where they are there and are text.
pub record RequestHeaders : Type 0 where
  pub x_forwarded_for : Option (List ℕ)
  pub x_real_ip : Option (List ℕ)

-- `raw.split(',').next()`
abbrev pub before_comma : List ℕ → List ℕ
before_comma [] = []
before_comma (c ∷ cs) = let later = before_comma cs in if c == b',' then [] else c ∷ later

abbrev pub unless_blank : List ℕ → Option (List ℕ)
unless_blank [] = none
unless_blank (c ∷ cs) = some (c ∷ cs)

unfoldable pub parse_ip_header : Option (List ℕ) → Option (List ℕ)
parse_ip_header none = none
parse_ip_header (some raw) = unless_blank (trim (before_comma raw))

abbrev pub or_unknown : Option (List ℕ) → Option (List ℕ) → List ℕ
or_unknown (some ip) real = ip
or_unknown none (some ip) = ip
or_unknown none none = codes "unknown"

unfoldable pub extract_request_ip : RequestHeaders → List ℕ
extract_request_ip headers =
    or_unknown (parse_ip_header headers.x_forwarded_for) (parse_ip_header headers.x_real_ip)

-- `name` gives the number that stands for an address in the limiter.
unfoldable pub get_invite :
    (List ℕ → ℕ)
    → RequestHeaders
    → ℕ
    → Limiter
    → World
    → (Result GetInviteResponse × World) × Limiter
get_invite name headers token limiter w =
    let (granted, limiter') =
      enforce_get_invite_rate_limit (name (extract_request_ip headers)) w.now limiter in
    ((lift granted >> view_invite token) w, limiter')
