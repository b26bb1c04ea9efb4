-- ===== src/Workers/EventListener/Replayed.antt =====
-- An event that is delivered again: `handle_create_agreement` of src/workers/event_listener.rs.
use pactum_codex.Base.{ℕ, ◌≡◌, refl, sym, ◌∙◌, arith, Bool, List, [], ◌∷◌, ◌++◌, true, exists, All}
use mathlib.Core.Path.{subst}
use pactum_codex.State.Rows.{Party}
use pactum_codex.State.Events.{WsEvent}
use pactum_codex.State.Keeps.{Keeps, Keeps-bind, Keeps-for_each}
use pactum_codex.State.World.{
  World, M, Void, ok, ◌>>◌, for_each, OnOk, OnOk-map, OnOk-always, bind_lem,
}
use pactum_codex.Services.ProgramLog.{ParsedEvent}
use pactum_codex.Workers.EventListener.{
  has_key, new_party, insert_party, notify, broadcast, handle_create_agreement, known,
}
use pactum_codex.Workers.EventListener.Frames.{
  Untouched, notify_all-Untouched, broadcast_all-Untouched,
}

-- The party has a row for the agreement.
abbrev pub IsListed : ℕ → List Party → ℕ → Type 0
IsListed pda rows party = exists (has_key party pda) rows ≡ true

exists-append :
    (p : Party → Bool) (rows : List Party) (a : Party)
    → exists p rows ≡ true
    → exists p (rows ++ a ∷ []) ≡ true
exists-append p [] a h = ground arith
exists-append p (r ∷ rows) a h = ground (arith, exists-append p rows a)

exists-last :
    (p : Party → Bool) (rows : List Party) (a : Party)
    → p a ≡ true
    → exists p (rows ++ a ∷ []) ≡ true
exists-last p [] a h = ground arith
exists-last p (r ∷ rows) a h = ground (arith, exists-last p rows a h)

module _ (pda creator : ℕ) where
  insert_party_keeps :
      (p q : ℕ) (w : World)
      → IsListed pda w.db.agreement_parties q
      → IsListed pda (insert_party pda creator p w).1.db.agreement_parties q
  unfolding insert_party
  insert_party_keeps p q w h = ground (
    arith,
    exists-append (has_key q pda) w.db.agreement_parties (new_party p pda creator w.now) h,
  )

  insert_party_adds :
      (p : ℕ) (w : World)
      → let (r, w') = insert_party pda creator p w in
        OnOk r (λ _. IsListed pda w'.db.agreement_parties p)
  unfolding insert_party
  insert_party_adds p w =
      ground
        (arith, exists-last (has_key p pda) w.db.agreement_parties (new_party p pda creator w.now))

  -- A party that is listed is not added again.
  insert_party_same :
      (p : ℕ) (w : World)
      → IsListed pda w.db.agreement_parties p
      → (insert_party pda creator p w).1.db.agreement_parties ≡ w.db.agreement_parties
  unfolding insert_party
  insert_party_same p w h = ground arith

  inserts_keep :
      (ps : List ℕ) (q : ℕ) (w : World)
      → IsListed pda w.db.agreement_parties q
      → IsListed pda (for_each (insert_party pda creator) ps w).1.db.agreement_parties q
  inserts_keep ps q w h =
      Keeps-for_each (λ v. IsListed pda v.db.agreement_parties q) (insert_party pda creator)
        (λ p v k. insert_party_keeps p q v k) ps w h

  inserts_add :
      (ps : List ℕ) (w : World)
      → let (r, w') = for_each (insert_party pda creator) ps w in
        OnOk r (λ _. All (IsListed pda w'.db.agreement_parties) ps)
  inserts_add [] w = tt
  inserts_add (p ∷ ps) w =
      let m = insert_party pda creator p in
      let w' = (m w).1 in
      bind_lem m (λ _. for_each (insert_party pda creator) ps)
        (λ q. OnOk q.0 (λ _. All (IsListed pda q.1.db.agreement_parties) (p ∷ ps))) w
        (λ a e.
          let here : IsListed pda w'.db.agreement_parties p =
            subst (λ r. OnOk r (λ _. IsListed pda w'.db.agreement_parties p)) e
              (insert_party_adds p w) in
          OnOk-map (for_each (insert_party pda creator) ps w').0
            (λ _ there. (inserts_keep ps p w' here, there)) (inserts_add ps w'))
        (λ _ _. tt)

  inserts_same :
      (ps : List ℕ) (w : World)
      → All (IsListed pda w.db.agreement_parties) ps
      → (for_each (insert_party pda creator) ps w).1.db.agreement_parties ≡ w.db.agreement_parties
  inserts_same [] w h = refl
  inserts_same (p ∷ ps) w h =
      let m = insert_party pda creator p in
      let same = insert_party_same p w h.0 in
      bind_lem m (λ _. for_each (insert_party pda creator) ps)
        (λ q. q.1.db.agreement_parties ≡ w.db.agreement_parties) w
        (λ _ _.
          inserts_same ps (m w).1 (subst (λ rows. All (IsListed pda rows) ps) (sym same) h.1)
          ∙ same)
        (λ _ _. same)

module _ (name : List ℕ → ℕ) (event : ParsedEvent) where
  abbrev inserts : M Void
  inserts = for_each (insert_party event.agreement_pda (known name event.creator)) event.parties

  abbrev announce : M Void
  announce =
      for_each (notify "AgreementCreated" event.agreement_pda) event.parties
      >> for_each (broadcast (WsEvent.agreement_created event.agreement_pda)) event.parties

  announce-Untouched : (w₀ : World) → Keeps (Untouched w₀) announce
  announce-Untouched w₀ =
      Keeps-bind (Untouched w₀)
        (for_each (notify "AgreementCreated" event.agreement_pda) event.parties)
        (λ _. for_each (broadcast (WsEvent.agreement_created event.agreement_pda)) event.parties)
        (notify_all-Untouched w₀ "AgreementCreated" event.agreement_pda event.parties)
        (λ _.
          broadcast_all-Untouched w₀ (WsEvent.agreement_created event.agreement_pda) event.parties)

  handled_parties :
      (w : World)
      → (handle_create_agreement name event w).1.db.agreement_parties
        ≡ (inserts w).1.db.agreement_parties
  unfolding handle_create_agreement
  handled_parties w =
      let w' = (inserts w).1 in
      bind_lem inserts (λ _. announce) (λ q. q.1.db.agreement_parties ≡ w'.db.agreement_parties) w
        (λ _ _. (announce-Untouched w' w' (refl, refl, refl, refl, refl)).0) (λ _ _. refl)

  handled_adds :
      (w : World)
      → OnOk
          (handle_create_agreement name event w).0
          (λ _. All (IsListed event.agreement_pda (inserts w).1.db.agreement_parties) event.parties)
  unfolding handle_create_agreement
  handled_adds w =
      let w' = (inserts w).1 in
      let goal = All (IsListed event.agreement_pda w'.db.agreement_parties) event.parties in
      bind_lem inserts (λ _. announce) (λ q. OnOk q.0 (λ _. goal)) w
        (λ a e. OnOk-always (announce w').0 (λ _.
          subst (λ r. OnOk r (λ _. goal)) e
            (inserts_add event.agreement_pda (known name event.creator) event.parties w)))
        (λ _ _. tt)

  -- Once the creation of an agreement has been handled with success, each of its parties has a row
  -- for it; and handling the same event again, in any world with the same rows, changes none of
  -- them, whatever it returns.
  pub handle_create_agreement_twice :
      (w w' : World)
      → (handle_create_agreement name event w).0 ≡ ok tt
      → w'.db.agreement_parties ≡ (handle_create_agreement name event w).1.db.agreement_parties
      → All (IsListed event.agreement_pda w'.db.agreement_parties) event.parties
        × ((handle_create_agreement name event w').1.db.agreement_parties ≡ w'.db.agreement_parties)
  handle_create_agreement_twice w w' e f =
      let rows = f ∙ handled_parties w in
      let listed : All (IsListed event.agreement_pda w'.db.agreement_parties) event.parties =
        subst (λ t. All (IsListed event.agreement_pda t) event.parties) (sym rows)
          (subst
            (λ r. OnOk r (λ _.
              All (IsListed event.agreement_pda (inserts w).1.db.agreement_parties) event.parties))
            e (handled_adds w)) in
      (
        listed,
        handled_parties w'
            ∙ inserts_same event.agreement_pda (known name event.creator) event.parties w' listed,
      )
