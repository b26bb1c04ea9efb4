-- ===== src/Handlers/Oauth/Claimed.antt =====
-- Whose account a sign-in with a provider reaches: src/handlers/auth.rs, with the contacts that
-- src/handlers/user.rs writes.
use mathlib.Core.Option
use mathlib.Core.Path.{subst, sym}
use pactum_codex.Base.{
  ℕ, ◌≡◌, ◌∙◌, refl, ap, Option, none, some, List, head, rest, find, Bool-cases, Option-cases, inl,
  inr,
}
use pactum_codex.Error.{AppError}
use pactum_codex.Config.{Config}
use pactum_codex.State.Rows.{Db, OAuthProvider, OauthLink}
use pactum_codex.State.World.{
  World, Result, err, M, ◌>>=◌, ◌>>◌, pure, OnOk, OnOk-map, bind_lem, bind_ok, bind_err, fetch,
  fetch-answered,
}
use pactum_codex.Services.Crypto.{Cipher, hmac_index}
use pactum_codex.Handlers.Oauth.{
  OAuthUserResolution, EmailConflictDetails, is_link, linked_user, conflicting_provider,
  same_provider_user, conflict_of, upsert_link, resolve_oauth_user, or_create, upsert_email_contact,
  link_oauth_user, or_link, resolve_or_create_oauth_user,
}
use pactum_codex.Handlers.Oauth.Linked.{Resolves, resolve_or_create_oauth_user-IsLinked}

bind_fetch :
    {A B : Type 0} (q : Db → A) (f : A → M B) (P : Result B × World → Type 0) (w : World)
    → P (f (q w.db) (record w { faults = rest w.faults }))
    → P (err AppError.internal_error, record w { faults = rest w.faults })
    → P ((fetch q >>= f) w)
bind_fetch q f P w h k = elim (Bool-cases (head w.faults)) [
  | inl fails ↦ bind_err (fetch q) f P w (rw (fails, fetch) refl) k
  | inr fine ↦ bind_ok (fetch q) f P w (fetch-answered q w fine) h
]

Resolves-map :
    {P Q : ℕ → Type 0} (x : OAuthUserResolution)
    → ((u : ℕ) → P u → Q u)
    → Resolves P x
    → Resolves Q x
Resolves-map (OAuthUserResolution.user u) f p = f u p
Resolves-map (OAuthUserResolution.conflict _) f p = tt

module _ (cipher : Cipher) (decode_hex_key : ℕ → Option ℕ) (config : Config)
    (provider : OAuthProvider) (provider_id : ℕ) (email : List ℕ) where
  -- Whom the links are made for is who is signed in.
  link_oauth_user_is :
      (by_oauth : Option ℕ) (index u : ℕ) (w : World)
      → OnOk (resolve_oauth_user by_oauth index provider w).0 (λ v. v ≡ u)
      → OnOk
          (link_oauth_user cipher decode_hex_key config provider provider_id email by_oauth index
            w).0
          (λ x. x ≡ OAuthUserResolution.user u)
  unfolding link_oauth_user
  link_oauth_user_is by_oauth index u w h =
      let P : Result OAuthUserResolution × World → Type 0 =
        λ q. OnOk q.0 (λ x. x ≡ OAuthUserResolution.user u) in
      let link : ℕ → OauthLink =
        λ v. record { user_id = v; provider = provider; provider_id = provider_id } in
      let last = λ (v : ℕ).
        upsert_email_contact cipher decode_hex_key config v email
        >> pure (OAuthUserResolution.user v) in
      bind_lem (resolve_oauth_user by_oauth index provider) (λ v. upsert_link (link v) >> last v) P
        w
        (λ v e.
          let is : v ≡ u = subst (λ r. OnOk r (λ v. v ≡ u)) e h in
          let w₁ = (resolve_oauth_user by_oauth index provider w).1 in
          bind_lem (upsert_link (link v)) (λ _. last v) P w₁
            (λ _ _.
              bind_lem (upsert_email_contact cipher decode_hex_key config v email)
                (λ _. pure (OAuthUserResolution.user v)) P (upsert_link (link v) w₁).1
                (λ _ _. ap OAuthUserResolution.user is) (λ _ _. tt))
            (λ _ _. tt))
        (λ _ _. tt)

  or_link_is :
      (c : Option EmailConflictDetails) (by_oauth : Option ℕ) (index u : ℕ) (w : World)
      → OnOk (resolve_oauth_user by_oauth index provider w).0 (λ v. v ≡ u)
      → OnOk
          (or_link cipher decode_hex_key c
            (link_oauth_user cipher decode_hex_key config provider provider_id email by_oauth index)
            w).0
          (Resolves (λ v. v ≡ u))
  or_link_is none by_oauth index u w h =
      OnOk-map
        (link_oauth_user cipher decode_hex_key config provider provider_id email by_oauth index w).0
        (λ x e. subst (Resolves (λ v. v ≡ u)) (sym e) refl)
        (link_oauth_user_is by_oauth index u w h)
  or_link_is (some details) by_oauth index u w h = tt

  -- A provider's id that is linked signs its user in, or nobody.
  resolve_linked :
      (u : ℕ) (w : World)
      → linked_user provider provider_id w.db ≡ some u
      → OnOk
          (resolve_or_create_oauth_user cipher decode_hex_key config provider provider_id email w).0
          (Resolves (λ v. v ≡ u))
  unfolding resolve_or_create_oauth_user resolve_oauth_user
  resolve_linked u w e =
      let P : Result OAuthUserResolution × World → Type 0 = λ q. OnOk q.0 (Resolves (λ v. v ≡ u)) in
      elim (Option-cases (decode_hex_key config.encryption_index_key)) [
        | inl missing ↦ rw missing (
            bind_fetch (linked_user provider provider_id) (λ _ v. (err AppError.internal_error, v))
              P w tt tt)
        | inr (idx_key, j) ↦
            let index = hmac_index cipher email idx_key in
            let after = λ (by_oauth : Option ℕ) (existing : Option OAuthProvider).
              or_link cipher decode_hex_key (conflict_of existing provider) (
                link_oauth_user cipher decode_hex_key config provider provider_id email by_oauth
                  index) in
            rw j (
              bind_fetch (linked_user provider provider_id)
                (λ by_oauth. fetch (conflicting_provider index provider) >>= after by_oauth) P w
                (bind_fetch (conflicting_provider index provider)
                  (after (linked_user provider provider_id w.db)) P
                  (record w { faults = rest w.faults })
                  (or_link_is (conflict_of (conflicting_provider index provider w.db) provider)
                    (linked_user provider provider_id w.db) index u
                    (record w { faults = rest (rest w.faults) }) (rw e refl))
                  tt)
                tt)
      ]

  -- A provider's id with no link is linked to the user whom the email leads to.
  pub resolve_newcomer :
      (idx_key u : ℕ) (w : World)
      → decode_hex_key config.encryption_index_key ≡ some idx_key
      → linked_user provider provider_id w.db ≡ none
      → conflicting_provider (hmac_index cipher email idx_key) provider w.db ≡ none
      → same_provider_user (hmac_index cipher email idx_key) provider w.db ≡ some u
      → OnOk
          (resolve_or_create_oauth_user cipher decode_hex_key config provider provider_id email w).0
          (λ x. x ≡ OAuthUserResolution.user u)
  unfolding resolve_or_create_oauth_user resolve_oauth_user
  resolve_newcomer idx_key u w j free no_conflict leads =
      let index = hmac_index cipher email idx_key in
      let P : Result OAuthUserResolution × World → Type 0 =
        λ q. OnOk q.0 (λ x. x ≡ OAuthUserResolution.user u) in
      let w₁ : World = record w { faults = rest w.faults } in
      let w₂ : World = record w₁ { faults = rest w₁.faults } in
      let w₃ : World = record w₂ { faults = rest w₂.faults } in
      let link = λ (by_oauth : Option ℕ).
        link_oauth_user cipher decode_hex_key config provider provider_id email by_oauth index in
      let after = λ (by_oauth : Option ℕ) (existing : Option OAuthProvider).
        or_link cipher decode_hex_key (conflict_of existing provider) (link by_oauth) in
      let chosen : OnOk (resolve_oauth_user none index provider w₂).0 (λ v. v ≡ u) =
        bind_fetch (same_provider_user index provider) or_create (λ q. OnOk q.0 (λ v. v ≡ u)) w₂
          (subst (λ o. OnOk (or_create o w₃).0 (λ v. v ≡ u)) (sym leads) refl) tt in
      rw j (
        bind_fetch (linked_user provider provider_id)
          (λ by_oauth. fetch (conflicting_provider index provider) >>= after by_oauth) P w
          (bind_fetch (conflicting_provider index provider)
            (after (linked_user provider provider_id w.db)) P w₁
            (subst (λ o. P (after (linked_user provider provider_id w.db) o w₂)) (sym no_conflict)
              (subst (λ o. P (link o w₂)) (sym free) (link_oauth_user_is none index u w₂ chosen)))
            tt)
          tt)

  -- A sign-in that links a provider's id to a user binds it: every later sign-in with that id, with
  -- whatever email, signs in the same user, ends in a conflict or fails, as long as the links are as
  -- the first one left them.
  pub resolve_again :
      (key idx_key : ℕ) (email' : List ℕ) (w v : World)
      → decode_hex_key config.encryption_key ≡ some key
      → decode_hex_key config.encryption_index_key ≡ some idx_key
      → let (r, w') =
          resolve_or_create_oauth_user cipher decode_hex_key config provider provider_id email' w in
        v.db.auth_oauth ≡ w'.db.auth_oauth
        → OnOk r (
            Resolves (λ u.
              OnOk
                (resolve_or_create_oauth_user cipher decode_hex_key config provider provider_id
                  email v).0
                (Resolves (λ u'. u' ≡ u))))
  resolve_again key idx_key email' w v k j same =
      let (r, w') =
        resolve_or_create_oauth_user cipher decode_hex_key config provider provider_id email' w in
      OnOk-map r
        (λ x. Resolves-map x (λ u linked. resolve_linked u v (
          ap (λ ls. Option.map (λ l. l.user_id) (find (is_link provider provider_id) ls)) same
          ∙ linked.linked)))
        (resolve_or_create_oauth_user-IsLinked cipher decode_hex_key config key idx_key k j provider
          provider_id email' w)
