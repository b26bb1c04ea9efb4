-- ===== src/Handlers/User/Profile.antt =====
-- The user's profile: `get_profile` and `update_profile` of src/handlers/user.rs. A display name is
-- the list of its bytes.
use mathlib.Core.Option
use mathlib.Core.Path.{subst, sym}
use pactum_codex.Base.{
  ℕ, ◌≡◌, ◌∙◌, refl, ap, arith, Option, none, some, List, [], ◌∷◌, ◌++◌, map, rest, find,
  find-update_found, select, update_where, find-update_where, Option-cases, inl, inr, ◌==◌,
  if◌then◌else◌,
}
use pactum_codex.Error.{AppError}
use pactum_codex.State.Rows.{Db, Account, OAuthProvider}
use pactum_codex.State.World.{
  World, M, Void, Result, ok, ◌>>=◌, ◌>>◌, pure, ok_or, lift, fetch, execute, OnOk, OnOk-map,
  Result-cases, bind_ok, bind_err, execute-cases,
}
use pactum_codex.Handlers.Auth.{user_wallet}
use pactum_codex.Handlers.User.{has_account_id, sanitise_display_name}

-- `AuthMethod`, by its type.
pub data AuthMethod : Type 0 where
  wallet : ℕ → AuthMethod
  oauth : OAuthProvider → AuthMethod

pub record UserProfile : Type 0 where
  pub id : ℕ
  pub display_name : Option (List ℕ)
  pub linked_auth_methods : List AuthMethod

abbrev pub wallet_method : Option ℕ → List AuthMethod
wallet_method none = []
wallet_method (some pubkey) = AuthMethod.wallet pubkey ∷ []

abbrev pub providers_of : ℕ → Db → List OAuthProvider
providers_of user db = map (λ l. l.provider) (select (λ l. l.user_id == user) db.auth_oauth)

unfoldable pub get_profile : ℕ → M UserProfile
get_profile user = do
  row ← fetch (λ db. find (has_account_id user) db.user_accounts)
  account ← ok_or row AppError.internal_error
  wallet_row ← fetch (user_wallet user)
  oauth_rows ← fetch (providers_of user)
  pure (record {
    id = account.id;
    display_name = account.display_name;
    linked_auth_methods = wallet_method wallet_row ++ map AuthMethod.oauth oauth_rows;
  })

-- A name that is given is checked; one that is not clears the column.
abbrev pub check_name : Option (List ℕ) → Result Void
check_name none = ok tt
check_name (some name) = sanitise_display_name name

abbrev pub rename : ℕ → Option (List ℕ) → Db → Db
rename user name db = record db {
  user_accounts =
      update_where (has_account_id user) (λ a. record a { display_name = name }) db.user_accounts;
}

unfoldable pub update_profile : ℕ → Option (List ℕ) → M UserProfile
update_profile user name = do lift (check_name name); execute (rename user name); get_profile user

get_profile-name :
    (user : ℕ) (w : World)
    → OnOk (get_profile user w).0 (λ profile.
      Option.map (λ a. a.display_name) (find (has_account_id user) w.db.user_accounts)
      ≡ some profile.display_name)
unfolding get_profile
get_profile-name user w = elim (Option-cases (find (has_account_id user) w.db.user_accounts)) [
  | inl absent ↦ ground (arith, absent)
  | inr (a, there) ↦ ground (arith, there)
]

-- The name that a renaming leaves in the user's row, if there is one.
renamed :
    (user : ℕ) (name shown : Option (List ℕ)) (accounts : List Account)
    → Option.map
        (λ a. a.display_name)
        (find
          (has_account_id user)
          (update_where (has_account_id user) (λ a. record a { display_name = name }) accounts))
      ≡ some shown
    → shown ≡ name
renamed user name shown accounts e =
    let p = has_account_id user in
    let put : Account → Account = λ a. record a { display_name = name } in
    let dn : Option Account → Option (Option (List ℕ)) = Option.map (λ a. a.display_name) in
    elim (Option-cases (find p accounts)) [
      | inl absent ↦
          let h = sym (
            find-update_where p p put (λ _. refl) accounts
            ∙ ap (Option.map (λ x. if p x then put x else x)) absent) in
          absurd (cc (ap dn h ∙ e))
      | inr (a, there) ↦
          let h : some name ≡ some shown =
            sym (ap dn (find-update_found p put (λ _. refl) accounts a there)) ∙ e in
          cc h
    ]

rename-get_profile :
    (user : ℕ) (name : Option (List ℕ)) (w : World)
    → OnOk
        ((execute (rename user name) >> get_profile user) w).0
        (λ profile. profile.display_name ≡ name)
rename-get_profile user name w =
    let P : Result UserProfile × World → Type 0 =
      λ q. OnOk q.0 (λ profile. profile.display_name ≡ name) in
    elim (execute-cases (λ _. tt) (rename user name) w) [
      | inl failed ↦ bind_err (execute (rename user name)) (λ _. get_profile user) P w failed tt
      | inr done ↦
          let w' : World = record w { db = rename user name w.db; faults = rest w.faults } in
          bind_ok (execute (rename user name)) (λ _. get_profile user) P w done
            (OnOk-map (get_profile user w').0
              (λ profile shown. renamed user name profile.display_name w.db.user_accounts shown)
              (get_profile-name user w'))
    ]

-- A profile that is updated with success shows the name that was asked for, which the check has let
-- through, or no name if none was given.
pub update_profile-display_name :
    (user : ℕ) (name : Option (List ℕ)) (w : World)
    → OnOk
        (update_profile user name w).0
        (λ profile. (profile.display_name ≡ name) × (check_name name ≡ ok tt))
unfolding update_profile
update_profile-display_name user name w =
    let Q : UserProfile → Type 0 =
      λ profile. (profile.display_name ≡ name) × (check_name name ≡ ok tt) in
    let update = execute (rename user name) >> get_profile user in
    elim (Result-cases (check_name name)) [
      | inr (e, refused) ↦ subst (λ r. OnOk ((lift r >> update) w).0 Q) (sym refused) tt
      | inl (u, passed) ↦
          subst (λ r. OnOk ((lift r >> update) w).0 Q) (sym passed)
            (OnOk-map (update w).0 (λ profile e. (e, passed)) (rename-get_profile user name w))
    ]
