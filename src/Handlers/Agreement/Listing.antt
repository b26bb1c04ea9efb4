-- ===== src/Handlers/Agreement/Listing.antt =====
-- The list of a wallet's agreements: `list_agreements` of src/handlers/agreement.rs. The filters of
-- the query are lists of characters.
use pactum_codex.Base.{
  ℕ, ◌-◌, ◌*◌, Bool, true, ◌&&◌, ◌||◌, String, Option, none, some, List, [], ◌∷◌, ◌==◌, leb, ltb,
  unwrap_or, select, take, drop, min, bytes_eq, to_ascii_lowercase, if◌then◌else◌,
}
use pactum_codex.State.Rows.{Db, Party, PartyStatus}
use pactum_codex.State.World.{M, ◌>>=◌, pure, fetch}
use pactum_codex.Handlers.Auth.{AuthUser}
use pactum_codex.Services.SolanaPay.{codes}
use pactum_codex.Services.ProgramLog.{trim}

pub data AgreementListRole : Type 0 where
  creator party any : AgreementListRole

pub record ListAgreementsQuery : Type 0 where
  pub status : Option (List ℕ)
  pub role : Option (List ℕ)
  pub page : Option ℕ
  pub limit : Option ℕ

-- The items are the rows.
pub record ListAgreementsResponse : Type 0 where
  pub page : ℕ
  pub limit : ℕ
  pub items : List Party

-- `eq_ignore_ascii_case`
abbrev pub same_word : List ℕ → String → Bool
same_word value word = bytes_eq (to_ascii_lowercase value) (codes word)

unfoldable pub parse_role : Option (List ℕ) → AgreementListRole
parse_role none = AgreementListRole.any
parse_role (some value) =
    if same_word value "creator"
    then AgreementListRole.creator
    else if same_word value "party"
    then AgreementListRole.party
    else AgreementListRole.any

abbrev pub max : ℕ → ℕ → ℕ
max a b = if ltb a b then b else a

abbrev pub u32_max : ℕ
u32_max = 4294967295

-- A page and a limit of 32 bits; the page, the limit and the offset that are used.
unfoldable pub sanitize_pagination : Option ℕ → Option ℕ → ℕ × ℕ × ℕ
sanitize_pagination page limit =
    let p = max (unwrap_or page 1) 1 in
    let l = min (max (unwrap_or limit 20) 1) 100 in (p, l, min ((p - 1) * l) u32_max)

-- The texts of the column `status`.
abbrev pub status_text : PartyStatus → String
status_text PartyStatus.pending_signatures = "PendingSignatures"
status_text PartyStatus.expiring = "expiring"
status_text PartyStatus.cancelled = "Cancelled"
status_text PartyStatus.expired = "Expired"

abbrev pub unless_empty : List ℕ → Option (List ℕ)
unless_empty [] = none
unless_empty (c ∷ cs) = some (c ∷ cs)

abbrev pub status_filter : Option (List ℕ) → Option (List ℕ)
status_filter none = none
status_filter (some value) = unless_empty (trim value)

-- `$2::text IS NULL OR status = $2`
abbrev pub passes : Option (List ℕ) → Party → Bool
passes none a = true
passes (some t) a = bytes_eq (codes (status_text a.status)) t

abbrev pub has_role : AgreementListRole → ℕ → Party → Bool
has_role AgreementListRole.any pubkey a = a.party_pubkey == pubkey || a.creator_pubkey == pubkey
has_role AgreementListRole.creator pubkey a = a.creator_pubkey == pubkey
has_role AgreementListRole.party pubkey a = a.party_pubkey == pubkey

-- `ORDER BY created_at DESC`
abbrev pub insert_newest : Party → List Party → List Party
insert_newest a [] = a ∷ []
insert_newest a (b ∷ bs) =
    if leb b.created_at a.created_at then a ∷ b ∷ bs else b ∷ insert_newest a bs

abbrev pub newest_first : List Party → List Party
newest_first [] = []
newest_first (a ∷ as_) = insert_newest a (newest_first as_)

abbrev pub list_rows : AgreementListRole → ℕ → Option (List ℕ) → ℕ → ℕ → Db → List Party
list_rows role pubkey filter limit offset db = take limit (
    drop offset
      (newest_first (select (λ a. has_role role pubkey a && passes filter a) db.agreement_parties)))

abbrev pub list_for : ListAgreementsQuery → Option ℕ → ℕ × ℕ × ℕ → M ListAgreementsResponse
list_for q none (page, limit, offset) = pure (record { page = page; limit = limit; items = [] })
list_for q (some pubkey) (page, limit, offset) = do
  rows ← fetch (list_rows (parse_role q.role) pubkey (status_filter q.status) limit offset)
  pure (record { page = page; limit = limit; items = rows })

unfoldable pub list_agreements : AuthUser → ListAgreementsQuery → M ListAgreementsResponse
list_agreements auth q = list_for q auth.pubkey (sanitize_pagination q.page q.limit)
