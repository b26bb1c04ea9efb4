-- ===== src/Handlers/Oauth/Linked.antt =====
-- What a sign-in with a provider leaves: src/handlers/auth.rs.
use mathlib.Core.Option
use mathlib.Core.Path.{subst}
use pactum_codex.Base.{
  ℕ, ◌≡◌, ◌∙◌, refl, ap, Bool, true, false, Option, none, some, List, ◌∷◌, ◌||◌, not, ==_refl, head,
  find, exists, is_some, update_where, if◌then◌else◌, exists-find, find-update_found, Bool-cases,
  Option-cases, inl, inr,
}
use pactum_codex.Config.{Config}
use pactum_codex.State.Rows.{Db, OAuthProvider, OauthLink, Contact}
use pactum_codex.State.World.{
  World, Result, ok, ◌>>=◌, ◌>>◌, pure, OnOk, OnOk-map, bind_lem, execute_if, fetch,
}
use pactum_codex.Services.Crypto.{Cipher, encrypt, decrypt, decrypt-encrypt, hmac_index}
use pactum_codex.Handlers.User.{has_account_id, contact_row, upsert_contact}
use pactum_codex.Handlers.User.Contacts.{row_of, upsert_contact-row, encrypt-db}
use pactum_codex.Handlers.Oauth.{
  OAuthUserResolution, EmailConflictDetails, same_provider, is_link, linked_user, link_rows,
  upsert_link, resolve_oauth_user, upsert_email_contact, link_oauth_user, or_link, conflict_of,
  conflicting_provider, resolve_or_create_oauth_user,
}

pub same_provider_refl : (p : OAuthProvider) → same_provider p p ≡ true
same_provider_refl OAuthProvider.google = refl
same_provider_refl OAuthProvider.microsoft = refl

-- The row that a link leaves under its key is the user's.
find-link_rows :
    (new : OauthLink) (ls : List OauthLink)
    → Option.map (λ l. l.user_id) (find (is_link new.provider new.provider_id) (link_rows new ls))
      ≡ some new.user_id
find-link_rows new ls =
    let p = is_link new.provider new.provider_id in
    let put : OauthLink → OauthLink = λ l. record l { user_id = new.user_id } in
    let by : (b : Bool)
        → exists p ls ≡ b
        → link_rows new ls ≡ (if b then update_where p put ls else new ∷ ls) =
      λ b e. ap (λ c. if c then update_where p put ls else new ∷ ls) e in
    let uid : Option OauthLink → Option ℕ = Option.map (λ l. l.user_id) in
    elim (Option-cases (find p ls)) [
      | inl absent ↦
          ap (λ xs. uid (find p xs)) (by false (exists-find p ls ∙ ap is_some absent))
          ∙ rw (same_provider_refl new.provider, ==_refl new.provider_id) refl
      | inr (l, there) ↦
          ap (λ xs. uid (find p xs)) (by true (exists-find p ls ∙ ap is_some there))
          ∙ ap uid (find-update_found p put (λ _. refl) ls l there)
    ]

upsert_link-linked_user :
    (new : OauthLink) (w : World)
    → OnOk
        (upsert_link new w).0
        (λ _. linked_user new.provider new.provider_id (upsert_link new w).1.db ≡ some new.user_id)
upsert_link-linked_user new w =
    elim (Bool-cases
      (head w.faults || not (exists (has_account_id new.user_id) w.db.user_accounts))) [
        | inl fails ↦ rw (fails, execute_if, OnOk) tt
        | inr fine ↦ rw (fine, execute_if, OnOk) (find-link_rows new w.db.auth_oauth)
      ]

upsert_contact-auth_oauth :
    (new : Contact) (w : World) → (upsert_contact new w).1.db.auth_oauth ≡ w.db.auth_oauth
upsert_contact-auth_oauth new w =
    elim (Bool-cases
      (head w.faults || not (exists (has_account_id new.user_id) w.db.user_accounts))) [
        | inl fails ↦ rw (fails, execute_if) refl
        | inr fine ↦ rw (fine, execute_if) refl
      ]

-- The provider's id is the user's, and the columns of the user's contact are the email's: what the
-- key decrypts to it, and its blind index.
pub record IsLinked (cipher : Cipher) (key idx_key : ℕ) (provider : OAuthProvider) (provider_id : ℕ)
    (email : List ℕ) (u : ℕ) (db : Db) : Type 0 where
  pub linked : linked_user provider provider_id db ≡ some u
  pub sealed :
      let c = row_of u db.user_contacts in
      (s : ℕ × ℕ) × (c.email_enc ≡ some s.0)
      × (c.email_nonce ≡ some s.1)
      × (decrypt cipher s.0 s.1 key ≡ ok email)
  pub index : (row_of u db.user_contacts).email_index ≡ some (hmac_index cipher email idx_key)

abbrev pub Resolves : (ℕ → Type 0) → OAuthUserResolution → Type 0
Resolves P (OAuthUserResolution.user u) = P u
Resolves P (OAuthUserResolution.conflict _) = Unit

module _ (cipher : Cipher) (decode_hex_key : ℕ → Option ℕ) (config : Config) (key idx_key : ℕ)
    (k : decode_hex_key config.encryption_key ≡ some key)
    (j : decode_hex_key config.encryption_index_key ≡ some idx_key) (provider : OAuthProvider)
    (provider_id : ℕ) (email : List ℕ) where
  upsert_email_contact-IsLinked :
      (u : ℕ) (w : World)
      → linked_user provider provider_id w.db ≡ some u
      → let (r, w') = upsert_email_contact cipher decode_hex_key config u email w in
        OnOk r (λ _. IsLinked cipher key idx_key provider provider_id email u w'.db)
  unfolding upsert_email_contact
  upsert_email_contact-IsLinked u w e =
      let new = λ (s : ℕ × ℕ).
        contact_row cipher u (some (hmac_index cipher email idx_key)) (some s) none none in
      rw (k, j)
        (bind_lem (encrypt cipher email key) (λ s. upsert_contact (new s))
          (λ q. OnOk q.0 (λ _. IsLinked cipher key idx_key provider provider_id email u q.1.db)) w
          (λ s done.
            let w₁ = (encrypt cipher email key w).1 in
            OnOk-map (upsert_contact (new s) w₁).0
              (λ _ row. record {
                linked =
                    ap (λ ls. Option.map (λ l. l.user_id) (find (is_link provider provider_id) ls))
                      (upsert_contact-auth_oauth (new s) w₁
                        ∙ ap (λ db. db.auth_oauth) (encrypt-db cipher email key w))
                    ∙ e;
                sealed = (
                  s,
                  ap (λ c. c.email_enc) row,
                  ap (λ c. c.email_nonce) row,
                  subst (λ r. OnOk r (λ c. decrypt cipher c.0 c.1 key ≡ ok email)) done
                      (decrypt-encrypt cipher email key w),
                );
                index = ap (λ c. c.email_index) row;
              })
              (upsert_contact-row (new s) w₁))
          (λ _ _. tt))

  link_oauth_user-IsLinked :
      (by_oauth : Option ℕ) (index : ℕ) (w : World)
      → let (r, w') =
          link_oauth_user cipher decode_hex_key config provider provider_id email by_oauth index
            w in
        OnOk r (Resolves (λ u. IsLinked cipher key idx_key provider provider_id email u w'.db))
  unfolding link_oauth_user
  link_oauth_user-IsLinked by_oauth index w =
      let P : Result OAuthUserResolution × World → Type 0 = λ q.
        OnOk q.0
          (Resolves (λ u. IsLinked cipher key idx_key provider provider_id email u q.1.db)) in
      let link : ℕ → OauthLink =
        λ u. record { user_id = u; provider = provider; provider_id = provider_id } in
      bind_lem (resolve_oauth_user by_oauth index provider)
        (λ u.
          upsert_link (link u)
          >> (upsert_email_contact cipher decode_hex_key config u email
              >> pure (OAuthUserResolution.user u)))
        P w
        (λ u _.
          let w₁ = (resolve_oauth_user by_oauth index provider w).1 in
          bind_lem (upsert_link (link u))
            (λ _.
              upsert_email_contact cipher decode_hex_key config u email
              >> pure (OAuthUserResolution.user u))
            P w₁
            (λ _ e.
              let w₂ = (upsert_link (link u) w₁).1 in
              let there =
                subst (λ r. OnOk r (λ _. linked_user provider provider_id w₂.db ≡ some u)) e
                  (upsert_link-linked_user (link u) w₁) in
              bind_lem (upsert_email_contact cipher decode_hex_key config u email)
                (λ _. pure (OAuthUserResolution.user u)) P w₂
                (λ _ d.
                  subst
                    (λ r. OnOk r (λ _.
                      IsLinked cipher key idx_key provider provider_id email u
                        (upsert_email_contact cipher decode_hex_key config u email w₂).1.db))
                    d (upsert_email_contact-IsLinked u w₂ there))
                (λ _ _. tt))
            (λ _ _. tt))
        (λ _ _. tt)

  or_link-IsLinked :
      (c : Option EmailConflictDetails) (by_oauth : Option ℕ) (index : ℕ) (w : World)
      → let (r, w') =
          or_link cipher decode_hex_key c
            (link_oauth_user cipher decode_hex_key config provider provider_id email by_oauth index)
            w in
        OnOk r (Resolves (λ u. IsLinked cipher key idx_key provider provider_id email u w'.db))
  or_link-IsLinked none by_oauth index w = link_oauth_user-IsLinked by_oauth index w
  or_link-IsLinked (some details) by_oauth index w = tt

  -- A sign-in with a provider that succeeds, and not with a conflict, leaves the provider's id linked
  -- to the user who is signed in, and the email in that user's contact: encrypted under the key of
  -- the configuration, with its blind index. Both keys of the configuration decode.
  pub resolve_or_create_oauth_user-IsLinked :
      (w : World)
      → let (r, w') =
          resolve_or_create_oauth_user cipher decode_hex_key config provider provider_id email w in
        OnOk r (Resolves (λ u. IsLinked cipher key idx_key provider provider_id email u w'.db))
  unfolding resolve_or_create_oauth_user
  resolve_or_create_oauth_user-IsLinked w =
      let P : Result OAuthUserResolution × World → Type 0 = λ q.
        OnOk q.0
          (Resolves (λ u. IsLinked cipher key idx_key provider provider_id email u q.1.db)) in
      let index = hmac_index cipher email idx_key in
      let after = λ (by_oauth : Option ℕ) (existing : Option OAuthProvider).
        or_link cipher decode_hex_key (conflict_of existing provider) (
          link_oauth_user cipher decode_hex_key config provider provider_id email by_oauth index) in
      rw j (
        bind_lem (fetch (linked_user provider provider_id))
          (λ by_oauth. fetch (conflicting_provider index provider) >>= after by_oauth) P w
          (λ by_oauth _.
            let w₁ = (fetch (linked_user provider provider_id) w).1 in
            bind_lem (fetch (conflicting_provider index provider)) (after by_oauth) P w₁
              (λ existing _.
                or_link-IsLinked (conflict_of existing provider) by_oauth index
                  (fetch (conflicting_provider index provider) w₁).1)
              (λ _ _. tt))
          (λ _ _. tt))
