-- ===== src/Handlers/Agreement/Created.antt =====
-- What `create_agreement` of src/handlers/agreement.rs saves.
use pactum_codex.Base.{
  ℕ, ◌+◌, ◌≡◌, refl, ◌∙◌, Bool, true, false, ◌&&◌, List, [], ◌∷◌, ◌++◌, arith, head, rest, Option,
  Option-cases, Bool-cases, inl, inr,
}
use mathlib.Core.Path.{subst, sym}
use pactum_codex.Config.{Config}
use pactum_codex.State.Rows.{Db}
use pactum_codex.State.World.{
  World, Finds, Result, ok, OnOk, OnOk-map, bind_lem, fetch, M, now, ◌>>=◌, Result-cases,
}
use pactum_codex.Services.Crypto.{Cipher}
use pactum_codex.Services.Solana.{Seed, build_create_agreement_tx, calculate_vault_deposit}
use pactum_codex.Handlers.Auth.{AuthUserWithWallet, SolanaSdk}
use pactum_codex.Handlers.Payment.{free_used_by, within_free_tier}
use pactum_codex.Handlers.Draft.{try_i64}
use pactum_codex.Handlers.Agreement.{
  CreateAgreementRequest, CreateAgreementResponse, submitted, awaiting_party_wallets, Slots,
  add_parties, validate_invite_window,
}
use pactum_codex.Handlers.Agreement.Create.{
  new_draft, save_draft, submit_now, answer_request, create_with_keys, create_agreement,
}
use pactum_codex.Handlers.Agreement.Matched.{IsMatched, add_parties-IsMatched}
use pactum_codex.Handlers.Agreement.Placed.{Places, Added, add_parties-Added}
use pactum_codex.Handlers.Draft.Submit.{resolved_keys}
use pactum_codex.Handlers.Draft.Submitted.{parties_of}
use pactum_codex.Handlers.Agreement.Saved.{saved, insert_invitations-ok}

-- What an answer says of the tables.
abbrev pub Creates :
    SolanaSdk
    → Bool
    → AuthUserWithWallet
    → CreateAgreementRequest
    → Slots
    → Db
    → Db
    → CreateAgreementResponse
    → Type 0
Creates sdk is_free auth req s db db' (submitted t pda) =
    (s.all_parties_resolved && is_free ≡ true)
    × (parties_of t ≡ resolved_keys sdk.parse_pubkey s.party_slots)
    × (db' ≡ db)
Creates sdk is_free auth req s db db' (awaiting_party_wallets id pending) =
    (s.all_parties_resolved && is_free ≡ false)
    × (db'.agreement_drafts
        ≡ db.agreement_drafts ++ new_draft id auth.pubkey req s.party_slots ∷ [])
    × (db'.party_invitations ≡ db.party_invitations ++ saved id s.invitation_rows)

save_draft-Creates :
    (sdk : SolanaSdk) (is_free : Bool) (auth : AuthUserWithWallet) (req : CreateAgreementRequest)
    (s : Slots) (w : World)
    → s.all_parties_resolved && is_free ≡ false
    → let (r, w') = save_draft auth req s w in OnOk r (Creates sdk is_free auth req s w.db w'.db)
unfolding save_draft
save_draft-Creates sdk is_free auth req s w h =
    let w₁ : World = record w {
      supply = rest w.supply;
      faults = rest w.faults;
      db = record (w.db) {
        agreement_drafts =
            w.db.agreement_drafts ++ new_draft (head w.supply) auth.pubkey req s.party_slots ∷ [];
      };
    } in
    ground (arith, insert_invitations-ok (head w.supply) s.invitation_rows w₁)

module _ (sdk : SolanaSdk) (find_program_address : List Seed → ℕ) (vault : ℕ) where
  submit_now-Creates :
      (is_free : Bool) (auth : AuthUserWithWallet) (req : CreateAgreementRequest) (s : Slots)
      (w : World)
      → s.all_parties_resolved && is_free ≡ true
      → let (r, w') = submit_now sdk find_program_address vault auth req s w in
        OnOk r (Creates sdk is_free auth req s w.db w'.db)
  unfolding submit_now build_create_agreement_tx calculate_vault_deposit
  submit_now-Creates is_free auth req s w h = ground arith

  answer_request-Creates :
      (config : Config) (auth : AuthUserWithWallet) (req : CreateAgreementRequest) (free_used : ℕ)
      (s : Slots) (db : Db) (w : World)
      → w.db ≡ db
      → let (r, w') = answer_request sdk find_program_address vault config auth req free_used s w in
        OnOk r (
          Creates sdk
            (within_free_tier free_used config.platform_fee_free_tier)
            auth
            req
            s
            db
            w'.db)
  unfolding answer_request
  answer_request-Creates config auth req free_used s db w same =
      let is_free = within_free_tier free_used config.platform_fee_free_tier in
      elim (Bool-cases (s.all_parties_resolved && is_free)) [
        | inl now ↦ ground (arith, submit_now-Creates is_free auth req s w now)
        | inr saving ↦ ground (arith, save_draft-Creates sdk is_free auth req s w saving)
      ]

  -- The slots are matched, and the tables are as the answer says.
  abbrev pub IsCreated :
      Cipher
      → ℕ
      → Config
      → AuthUserWithWallet
      → CreateAgreementRequest
      → World
      → Result CreateAgreementResponse × World
      → Type 0
  IsCreated cipher index_key config auth req w (r, w') = OnOk r (λ x.
      (s : Slots) × IsMatched s
      × Places cipher index_key w.db req.parties s.party_slots s.invitation_rows
      × Creates sdk
          (within_free_tier (free_used_by auth.user_id w.db) config.platform_fee_free_tier) auth req
          s w.db w'.db x)

  fetch-db : (user : ℕ) (w : World) → (fetch (free_used_by user) w).1.db ≡ w.db
  fetch-db user w = ground arith

  fetch_value :
      (user n : ℕ) (w : World) → (fetch (free_used_by user) w).0 ≡ ok n → free_used_by user w.db ≡ n
  fetch_value user n w h = ground arith

  try_i64-db : (n : ℕ) (w : World) → (try_i64 n w).1.db ≡ w.db
  try_i64-db n w = ground arith

  abbrev start : Slots
  start = record { all_parties_resolved = true; party_slots = []; invitation_rows = [] }

  -- From the loop on, with a number of free uses that was read before.
  loop-IsCreated :
      (cipher : Cipher) (config : Config) (auth : AuthUserWithWallet) (req : CreateAgreementRequest)
      (key index_key t e n : ℕ) (w w₁ : World)
      → w₁.db ≡ w.db
      → free_used_by auth.user_id w.db ≡ n
      → IsCreated cipher index_key config auth req w (
          (add_parties cipher key index_key t e start req.parties
              >>= answer_request sdk find_program_address vault config auth req n)
            w₁)
  loop-IsCreated cipher config auth req key index_key t e n w w₁ same used =
      let loop = add_parties cipher key index_key t e start req.parties in
      let matched =
        add_parties-IsMatched cipher key index_key t e start req.parties w₁ (refl, refl) in
      bind_lem loop (answer_request sdk find_program_address vault config auth req n)
        (IsCreated cipher index_key config auth req w) w₁
        (λ s done.
          let added =
            subst (λ r. OnOk r (Added cipher index_key w.db start req.parties)) done
              (add_parties-Added cipher key index_key t e w.db start req.parties w₁ same
                (refl, refl)) in
          let placed : Places cipher index_key w.db req.parties s.party_slots s.invitation_rows =
            subst (λ xs. Places cipher index_key w.db req.parties xs s.invitation_rows)
              (sym added.party_slots)
              (subst (λ ys. Places cipher index_key w.db req.parties added.slots ys)
                (sym added.invitation_rows) added.placed) in
          let answered =
            answer_request-Creates config auth req n s w.db (loop w₁).1 (matched.1 ∙ same) in
          OnOk-map (answer_request sdk find_program_address vault config auth req n s (loop w₁).1).0
            (λ x c. (s, subst (λ r. OnOk r IsMatched) done matched.0, placed, rw used c)) answered)
        (λ x refused. tt)

  create_with_keys-IsCreated :
      (cipher : Cipher) (config : Config) (auth : AuthUserWithWallet) (req : CreateAgreementRequest)
      (key index_key : ℕ) (w : World)
      → IsCreated cipher index_key config auth req w
          (create_with_keys sdk find_program_address vault cipher config auth req key index_key w)
  unfolding create_with_keys
  create_with_keys-IsCreated cipher config auth req key index_key w =
      let P = IsCreated cipher index_key config auth req w in
      let query : M ℕ = fetch (free_used_by auth.user_id) in
      let w₁ = (query w).1 in
      bind_lem query
        (λ n. now >>= λ t. try_i64 config.invite_expiry_seconds >>= λ window.
          add_parties cipher key index_key t (t + window) start req.parties
          >>= answer_request sdk find_program_address vault config auth req n)
        P w
        (λ n got.
          bind_lem (try_i64 config.invite_expiry_seconds)
            (λ window.
              add_parties cipher key index_key w₁.now (w₁.now + window) start req.parties
              >>= answer_request sdk find_program_address vault config auth req n)
            P w₁
            (λ window fits.
              loop-IsCreated cipher config auth req key index_key w₁.now (w₁.now + window) n w
                (try_i64 config.invite_expiry_seconds w₁).1
                (try_i64-db config.invite_expiry_seconds w₁ ∙ fetch-db auth.user_id w)
                (fetch_value auth.user_id n w got))
            (λ x refused. tt))
        (λ x failed. tt)

  -- An answer that is no error rests on the slots that the request's parties become, one for each, in
  -- their order: a key is its slot, an email with a known wallet that wallet's slot, and any other
  -- email a slot that awaits an invitation with the email's blind index. The agreement is submitted
  -- at once when every slot has a key and a use of the free tier is left: its parties are the keys
  -- of the slots, and no table changes, so that the use is not counted. Otherwise one draft is
  -- saved, whose status is `AwaitingPartyWallets` and whose payload repeats the slots, with exactly
  -- the invitations that they await, in their order.
  pub create_agreement-Creates :
      (cipher : Cipher) (decode_hex_key : ℕ → Option ℕ) (config : Config)
      (auth : AuthUserWithWallet) (req : CreateAgreementRequest) (w : World)
      → let is_free =
          within_free_tier (free_used_by auth.user_id w.db) config.platform_fee_free_tier in
        let (r, w') =
          create_agreement sdk find_program_address vault cipher decode_hex_key config auth req w in
        OnOk r (λ x.
          (s : Slots) × IsMatched s
          × Finds (decode_hex_key config.encryption_index_key) (λ index_key.
            Places cipher index_key w.db req.parties s.party_slots s.invitation_rows)
          × Creates sdk is_free auth req s w.db w'.db x)
  unfolding create_agreement
  create_agreement-Creates cipher decode_hex_key config auth req w =
      elim (Result-cases
        (validate_invite_window config.invite_expiry_seconds req.expires_in_secs)) [
          | inr (e, narrow) ↦ rw (narrow, OnOk) tt
          | inl (v, wide) ↦ elim (Option-cases (decode_hex_key config.encryption_key)) [
            | inl missing ↦ rw (wide, missing, OnOk) tt
            | inr (key, k) ↦ elim (Option-cases (decode_hex_key config.encryption_index_key)) [
              | inl missing ↦ rw (wide, k, missing, OnOk) tt
              | inr (index_key, j) ↦
                  rw (wide, k, j)
                    (create_with_keys-IsCreated cipher config auth req key index_key w)
            ]
          ]
        ]
