-- ===== src/Handlers/Oauth/Squatted.antt =====
-- The sign-in of a newcomer whose email another user has written into the contacts:
-- src/handlers/auth.rs with src/handlers/user.rs.
use mathlib.Core.Option
use mathlib.Core.Path.{sym, subst}
use pactum_codex.Base.{
  ℕ, ◌≡◌, ◌∙◌, refl, ap, arith, Bool, true, Option, none, some, List, [], ◌∷◌, ◌==◌, not, ==_refl,
  find, exists, select, concat_map, All, All-append, All-select, exists-append, exists-select_self,
  exists-found, is_value, ◌||◌, Option-cases, inl, inr,
}
use pactum_codex.Config.{Config}
use pactum_codex.State.Rows.{Db, OAuthProvider, OauthLink, Contact}
use pactum_codex.State.World.{World, Result, ok, err, OnOk, OnOk-map}
use pactum_codex.Services.Crypto.{Cipher, hmac_index}
use pactum_codex.Handlers.User.{UpdateContactsRequest, update_contacts, has_user_id, coalesce}
use pactum_codex.Handlers.User.Contacts.{row_of, or_empty, update_contacts-IsUpdated}
use pactum_codex.Handlers.Oauth.{
  OAuthUserResolution, same_provider, linked_user, has_index, links_of_email, same_provider_user,
  resolve_or_create_oauth_user,
}
use pactum_codex.Handlers.Oauth.Linked.{
  IsLinked, Resolves, same_provider_refl, resolve_or_create_oauth_user-IsLinked,
}
use pactum_codex.Handlers.Oauth.Claimed.{resolve_newcomer}

module _ (index holder : ℕ) (provider : OAuthProvider) where
  -- No contact but the holder's has the index, and the holder's links are with the provider.
  abbrev pub IsHolders : Contact → Type 0
  IsHolders c = has_index index c ≡ true → c.user_id ≡ holder

  abbrev pub WithProvider : OauthLink → Type 0
  WithProvider l = l.user_id ≡ holder → l.provider ≡ provider

  abbrev Own : OauthLink → Type 0
  Own l = (l.user_id ≡ holder) × (l.provider ≡ provider)

  module _ (ls : List OauthLink) (own : All WithProvider ls) where
    links-Own :
        (cs : List Contact)
        → All (λ c. c.user_id ≡ holder) cs
        → All Own (concat_map (λ c. select (λ l. l.user_id == c.user_id) ls) cs)
    links-Own [] h = tt
    links-Own (c ∷ cs) h =
        All-append Own (select (λ l. l.user_id == c.user_id) ls)
          (concat_map (λ d. select (λ l. l.user_id == d.user_id) ls) cs)
          (All-select (λ l. l.user_id == c.user_id)
            (λ l with_provider e.
              let mine : l.user_id ≡ holder = ground arith in (mine, with_provider mine))
            ls own)
          (links-Own cs h.1)

    links-exists :
        (cs : List Contact)
        → All (λ c. c.user_id ≡ holder) cs
        → exists (λ c. c.user_id == holder) cs ≡ true
        → exists (λ l. l.user_id == holder) ls ≡ true
        → exists
            (λ l. l.user_id == holder)
            (concat_map (λ c. select (λ l. l.user_id == c.user_id) ls) cs)
          ≡ true
    links-exists [] h e l = cc
    links-exists (c ∷ cs) h e l =
        exists-append (λ l. l.user_id == holder) (select (λ l. l.user_id == c.user_id) ls)
          (concat_map (λ d. select (λ l. l.user_id == d.user_id) ls) cs)
        ∙ rw h.0 (
            ap
              (λ b.
                b
                || exists (λ l. l.user_id == holder)
                    (concat_map (λ d. select (λ l. l.user_id == d.user_id) ls) cs))
              (exists-select_self (λ l. l.user_id == holder) ls ∙ l))

  find_writer :
      (ls : List OauthLink)
      → All Own ls
      → exists (λ l. l.user_id == holder) ls ≡ true
      → Option.map (λ l. l.user_id) (find (λ l. same_provider l.provider provider) ls) ≡ some holder
  find_writer [] h e = cc
  find_writer (l ∷ ls) h e =
      rw (ap (λ p. same_provider p provider) h.0.1 ∙ same_provider_refl provider) (ap some h.0.0)

  find-foreign :
      (ls : List OauthLink)
      → All Own ls
      → find (λ l. not (same_provider l.provider provider)) ls ≡ none
  find-foreign [] h = refl
  find-foreign (l ∷ ls) h =
      rw (ap (λ p. same_provider p provider) h.0.1 ∙ same_provider_refl provider)
        (find-foreign ls h.1)

-- A sign-in that is answered with the holder has linked the provider's id to the holder.
resolved_linked :
    (cipher : Cipher) (key idx_key : ℕ) (provider : OAuthProvider) (provider_id : ℕ)
    (email : List ℕ) (holder : ℕ) (db : Db) (r : Result OAuthUserResolution)
    → OnOk r (λ x. x ≡ OAuthUserResolution.user holder)
    → OnOk r (Resolves (λ u. IsLinked cipher key idx_key provider provider_id email u db))
    → OnOk r (λ x.
      (x ≡ OAuthUserResolution.user holder) × (linked_user provider provider_id db ≡ some holder))
resolved_linked cipher key idx_key provider provider_id email holder db (err e) h l = tt
resolved_linked cipher key idx_key provider provider_id email holder db (ok x) h l = (
  h,
  (subst (Resolves (λ u. IsLinked cipher key idx_key provider provider_id email u db)) h l).linked,
)

module _ (cipher : Cipher) (decode_hex_key : ℕ → Option ℕ) (config : Config) (key idx_key : ℕ)
    (k : decode_hex_key config.encryption_key ≡ some key)
    (j : decode_hex_key config.encryption_index_key ≡ some idx_key) (provider : OAuthProvider)
    (holder : ℕ) (email : List ℕ) where
  -- The row that has the index is there.
  exists-row :
      (index : ℕ) (cs : List Contact)
      → (row_of holder cs).email_index ≡ some index
      → exists (has_index index) cs ≡ true
  exists-row index cs e = elim (Option-cases (find (has_user_id holder) cs)) [
    | inl absent ↦ absurd (cc (sym (ap (λ o. (or_empty holder o).email_index) absent) ∙ e))
    | inr (c, there) ↦ exists-found (has_user_id holder) (has_index index) cs c there (
        let i : c.email_index ≡ some index =
          sym (ap (λ o. (or_empty holder o).email_index) there) ∙ e in
        ap (λ o. is_value o index) i ∙ ==_refl index)
  ]

  any-holder :
      (q : Contact → Bool) (cs : List Contact)
      → All (λ c. c.user_id ≡ holder) cs
      → exists q cs ≡ true
      → exists (λ c. c.user_id == holder) cs ≡ true
  any-holder q [] h e = cc
  any-holder q (c ∷ cs) h e =
      rw h.0 (ap (λ b. b || exists (λ d. d.user_id == holder) cs) (==_refl holder))

  module _ (db : Db)
      (own : All (WithProvider (hmac_index cipher email idx_key) holder provider) db.auth_oauth)
      (linked : exists (λ l. l.user_id == holder) db.auth_oauth ≡ true)
      (sole : All
        (IsHolders (hmac_index cipher email idx_key) holder provider)
        db.user_contacts) where
    links_of_holder :
        All
          (λ l. (l.user_id ≡ holder) × (l.provider ≡ provider))
          (links_of_email (hmac_index cipher email idx_key) db)
    links_of_holder =
        let index = hmac_index cipher email idx_key in
        links-Own index holder provider db.auth_oauth own
          (select (has_index index) db.user_contacts)
          (All-select (has_index index) (λ c mine e. mine e) db.user_contacts sole)

    -- The tables lead from the email to the holder.
    same_provider_user-holder :
        exists (has_index (hmac_index cipher email idx_key)) db.user_contacts ≡ true
        → same_provider_user (hmac_index cipher email idx_key) provider db ≡ some holder
    same_provider_user-holder there =
        let index = hmac_index cipher email idx_key in
        let chosen : All (λ c. c.user_id ≡ holder) (select (has_index index) db.user_contacts) =
          All-select (has_index index) (λ c mine e. mine e) db.user_contacts sole in
        find_writer index holder provider (links_of_email index db) links_of_holder (
          links-exists index holder provider db.auth_oauth own
            (select (has_index index) db.user_contacts) chosen
            (any-holder (has_index index) (select (has_index index) db.user_contacts) chosen
              (exists-select_self (has_index index) db.user_contacts ∙ there))
            linked)

  -- A user with a link to the provider who writes an email into the contacts takes the sign-in of a
  -- newcomer with that email, if both calls succeed: the sign-in is answered with the writer's
  -- account, and the newcomer's id, which had no link, is linked to that account afterwards. Both
  -- keys of the configuration decode, the writer has no link to another provider, no other contact
  -- has the email's index, and the contacts are unchanged between the two calls.
  pub update_contacts-resolve :
      (body : UpdateContactsRequest) (provider_id : ℕ) (w v : World)
      → body.email ≡ some email
      → All (WithProvider (hmac_index cipher email idx_key) holder provider) v.db.auth_oauth
      → exists (λ l. l.user_id == holder) v.db.auth_oauth ≡ true
      → All (IsHolders (hmac_index cipher email idx_key) holder provider) v.db.user_contacts
      → linked_user provider provider_id v.db ≡ none
      → let (r, w') = update_contacts cipher decode_hex_key config holder body w in
        v.db.user_contacts ≡ w'.db.user_contacts
        → OnOk r (λ _.
          let (s, v') =
            resolve_or_create_oauth_user cipher decode_hex_key config provider provider_id email
              v in
          OnOk s (λ x.
            (x ≡ OAuthUserResolution.user holder)
            × (linked_user provider provider_id v'.db ≡ some holder)))
  update_contacts-resolve body provider_id w v given own linked sole free same =
      let index = hmac_index cipher email idx_key in
      let (r, w') = update_contacts cipher decode_hex_key config holder body w in
      OnOk-map r
        (λ _ updated.
          let there : exists (has_index index) v.db.user_contacts ≡ true =
            exists-row index v.db.user_contacts (
              ap (λ cs. (row_of holder cs).email_index) same
              ∙ updated.index
              ∙ ap
                  (λ o.
                    coalesce (Option.map (λ text. hmac_index cipher text idx_key) o)
                      (row_of holder w.db.user_contacts).email_index)
                  given) in
          let (s, v') =
            resolve_or_create_oauth_user cipher decode_hex_key config provider provider_id email
              v in
          resolved_linked cipher key idx_key provider provider_id email holder v'.db s
            (resolve_newcomer cipher decode_hex_key config provider provider_id email idx_key holder
              v j free
              (ap (Option.map (λ l. l.provider)) (
                find-foreign index holder provider (links_of_email index v.db)
                  (links_of_holder v.db own linked sole)))
              (same_provider_user-holder v.db own linked sole there))
            (resolve_or_create_oauth_user-IsLinked cipher decode_hex_key config key idx_key k j
              provider provider_id email v))
        (update_contacts-IsUpdated cipher decode_hex_key config holder body key idx_key w k j)
