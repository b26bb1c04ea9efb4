-- ===== src/Handlers/Agreement/Listed.antt =====
-- What `list_agreements` of src/handlers/agreement.rs shows, and how much.
use pactum_codex.Base.{
  head, ℕ, zero, suc, ◌≡◌, ◌≤◌, refl, arith, Bool, true, ◌&&◌, Option, none, some, List, [], ◌∷◌,
  leb, All, All-take, length, length-take, drop, select, Bool-cases, inl, inr,
}
use pactum_codex.State.Rows.{Db, Party}
use pactum_codex.State.World.{World, OnOk}
use pactum_codex.Handlers.Auth.{AuthUser}
use pactum_codex.Handlers.Agreement.Listing.{
  ListAgreementsQuery, ListAgreementsResponse, AgreementListRole, parse_role, sanitize_pagination,
  status_filter, passes, has_role, insert_newest, newest_first, list_rows, list_for,
  list_agreements,
}

pagination_within :
    (page limit : Option ℕ)
    → let (p, l, offset) = sanitize_pagination page limit in
      (1 ≤ p) × (1 ≤ l) × (l ≤ 100) × (offset ≤ 4294967295)
unfolding sanitize_pagination
pagination_within page limit = (ground arith, ground arith, ground arith, ground arith)

-- The caller is a party of the agreement or its creator, as the role asks, and the row passes the filter.
abbrev pub IsShown : AgreementListRole → ℕ → Option (List ℕ) → Party → Type 0
IsShown role pubkey filter a = (has_role role pubkey a && passes filter a) ≡ true

module _ (P : Party → Type 0) where
  All-drop : (n : ℕ) (xs : List Party) → All P xs → All P (drop n xs)
  All-drop zero xs h = h
  All-drop (suc n) [] h = tt
  All-drop (suc n) (x ∷ xs) h = All-drop n xs h.1

  insert_newest-All : (a : Party) (bs : List Party) → P a → All P bs → All P (insert_newest a bs)
  insert_newest-All a [] p h = (p, tt)
  insert_newest-All a (b ∷ bs) p h = elim (Bool-cases (leb b.created_at a.created_at)) [
    | inl newer ↦ rw newer (p, h)
    | inr older ↦ rw older (h.0, insert_newest-All a bs p h.1)
  ]

  newest_first-All : (bs : List Party) → All P bs → All P (newest_first bs)
  newest_first-All [] h = tt
  newest_first-All (b ∷ bs) h = insert_newest-All b (newest_first bs) h.0 (newest_first-All bs h.1)

select-All : (p : Party → Bool) (xs : List Party) → All (λ a. p a ≡ true) (select p xs)
select-All p [] = tt
select-All p (x ∷ xs) = elim (Bool-cases (p x)) [
  | inl holds ↦ rw holds (holds, select-All p xs)
  | inr fails ↦ rw fails (select-All p xs)
]

list_rows-IsShown :
    (role : AgreementListRole) (pubkey : ℕ) (filter : Option (List ℕ)) (limit offset : ℕ) (db : Db)
    → All (IsShown role pubkey filter) (list_rows role pubkey filter limit offset db)
list_rows-IsShown role pubkey filter limit offset db =
    let Shown = IsShown role pubkey filter in
    let p : Party → Bool = λ a. has_role role pubkey a && passes filter a in
    let rows = select p db.agreement_parties in
    All-take Shown limit (drop offset (newest_first rows)) (
      All-drop Shown offset (newest_first rows)
        (newest_first-All Shown rows (select-All p db.agreement_parties)))

abbrev pub AreShown : Option ℕ → AgreementListRole → Option (List ℕ) → List Party → Type 0
AreShown none role filter items = items ≡ []
AreShown (some pubkey) role filter items = All (IsShown role pubkey filter) items

-- What is said of an answer.
abbrev pub Lists : Option ℕ → ListAgreementsQuery → ListAgreementsResponse → Type 0
Lists pubkey q x =
    (1 ≤ x.page)
    × (1 ≤ x.limit)
    × (x.limit ≤ 100)
    × (length x.items ≤ x.limit)
    × AreShown pubkey (parse_role q.role) (status_filter q.status) x.items

list_for-Lists :
    (q : ListAgreementsQuery) (pubkey : Option ℕ) (page limit offset : ℕ) (w : World)
    → 1 ≤ page
    → 1 ≤ limit
    → limit ≤ 100
    → OnOk (list_for q pubkey (page, limit, offset) w).0 (Lists pubkey q)
list_for-Lists q none page limit offset w h k m = (h, k, m, ground arith, refl)
list_for-Lists q (some pubkey) page limit offset w h k m = elim (Bool-cases (head w.faults)) [
  | inl fails ↦ rw (fails, OnOk) tt
  | inr fine ↦
      let role = parse_role q.role in
      let filter = status_filter q.status in
      rw (fine, OnOk)
        (
          h,
          k,
          m,
          length-take limit (
              drop offset (
                newest_first (
                  select (λ a. has_role role pubkey a && passes filter a) w.db.agreement_parties))),
          list_rows-IsShown role pubkey filter limit offset w.db,
        )
]

-- The answer has a page from 1 on and a limit from 1 to 100; it holds at most as many items as the
-- limit, and each is an agreement of the caller's wallet, in the role and with the status that the
-- query asks for. Without a wallet there are none.
pub list_agreements-Lists :
    (auth : AuthUser) (q : ListAgreementsQuery) (w : World)
    → OnOk (list_agreements auth q w).0 (Lists auth.pubkey q)
unfolding list_agreements
list_agreements-Lists auth q w =
    let (page, limit, offset) = sanitize_pagination q.page q.limit in
    let b = pagination_within q.page q.limit in
    list_for-Lists q auth.pubkey page limit offset w b.0 b.1 b.2
