-- ===== src/Workers/EventListener/Cancelled.antt =====
-- A cancelled or expired agreement: `handle_cancellation` of src/workers/event_listener.rs.
use pactum_codex.Base.{
  ℕ, suc, ◌≡◌, ◌⊎◌, inl, inr, refl, arith, String, Option, none, some, List, rest, find,
  update_where,
}
use pactum_codex.State.Rows.{Db, Payment, PartyStatus}
use pactum_codex.State.Events.{WsEvent}
use pactum_codex.State.World.{
  World, M, Void, ok, ◌>>=◌, ◌>>◌, pure, attempt, fetch, execute, for_each, OnOk, bind_lem, Result,
  OnOk-always, bind_ok, bind_err, fetch-world, fetch-answered, execute-cases, execute-answered,
}
use pactum_codex.Services.ProgramLog.{ParsedEvent}
use pactum_codex.Workers.EventListener.{
  of_agreement, set_party_status, is_paid_for, has_payment_id, set_refund_pending, mark_for_refund,
  mark_found, initiate_refund_if_eligible, notify, broadcast, parties_of_agreement,
  handle_cancellation,
}
use pactum_codex.Workers.EventListener.Frames.{
  Untouched, Fine, notify_all-Untouched, broadcast_all-Untouched, quiet, notify_all-Fine,
  broadcast_all-Fine, notify_all-IsQuiet, broadcast_all-IsQuiet,
}

abbrev pub refund_started : ℕ → World → Option Payment → List Payment
refund_started pda w none = w.db.agreement_payments
refund_started pda w (some p) =
    update_where (has_payment_id p.id) (set_refund_pending w.now) w.db.agreement_payments

-- The confirmed payment of the agreement, if there is one, waits for its refund.
abbrev pub Started : ℕ → World → World → Type 0
Started pda w w' =
    w'.db.agreement_payments ≡ refund_started pda w (find (is_paid_for pda) w.db.agreement_payments)

abbrev pub MayStart : ℕ → World → World → Type 0
MayStart pda w w' = (w'.db.agreement_payments ≡ w.db.agreement_payments) ⊎ Started pda w w'

-- The rows of the agreement, and no others, have the status.
abbrev pub Closed : ℕ → PartyStatus → World → World → Type 0
Closed pda status w w' =
    w'.db.agreement_parties
    ≡ update_where (of_agreement pda) (set_party_status status) w.db.agreement_parties

initiate-MayStart :
    (pda : ℕ) (w₀ w : World)
    → Untouched w₀ w
    → let w' = (attempt (initiate_refund_if_eligible pda) w).1 in
      (w'.db.agreement_parties ≡ w₀.db.agreement_parties) × MayStart pda w₀ w'
unfolding initiate_refund_if_eligible mark_found mark_for_refund
initiate-MayStart pda w₀ w h = ground arith

initiate-Started :
    (pda : ℕ) (w₀ w : World)
    → Untouched w₀ w
    → Fine w
    → let w' = (attempt (initiate_refund_if_eligible pda) w).1 in
      (w'.db.agreement_parties ≡ w₀.db.agreement_parties) × Started pda w₀ w'
unfolding initiate_refund_if_eligible mark_found mark_for_refund
initiate-Started pda w₀ w h fine = ground (arith, fine 0, fine 1)

abbrev Leaves : ℕ → World → World → Type 0
Leaves pda w₀ w = (w.db.agreement_parties ≡ w₀.db.agreement_parties) × MayStart pda w₀ w

abbrev Restarts : ℕ → World → Result Void × World → Type 0
Restarts pda w₀ q =
    (q.0 ≡ ok tt) × (q.1.db.agreement_parties ≡ w₀.db.agreement_parties) × Started pda w₀ q.1

-- What follows once the agreement's parties have been read.
abbrev announced : ℕ → String → WsEvent → List ℕ → M Void
announced pda event_type event ps =
    for_each (notify event_type pda) ps
    >> (for_each (broadcast event) ps
        >> (attempt (initiate_refund_if_eligible pda) >>= λ refund. pure tt))

module _ (pda : ℕ) (event_type : String) (event : WsEvent) where
  announced-MayStart :
      (ps : List ℕ) (w₀ w : World)
      → Untouched w₀ w
      → let w' = (announced pda event_type event ps w).1 in
        (w'.db.agreement_parties ≡ w₀.db.agreement_parties) × MayStart pda w₀ w'
  announced-MayStart ps w₀ w h =
      let w₁ = (for_each (notify event_type pda) ps w).1 in
      let w₂ = (for_each (broadcast event) ps w₁).1 in
      let h₁ : Untouched w₀ w₁ = notify_all-Untouched w₀ event_type pda ps w h in
      let h₂ : Untouched w₀ w₂ = broadcast_all-Untouched w₀ event ps w₁ h₁ in
      bind_lem (for_each (notify event_type pda) ps)
        (λ _.
          for_each (broadcast event) ps
          >> (attempt (initiate_refund_if_eligible pda) >>= λ refund. pure tt))
        (λ q. Leaves pda w₀ q.1) w
        (λ _ _.
          bind_lem (for_each (broadcast event) ps)
            (λ _. attempt (initiate_refund_if_eligible pda) >>= λ refund. pure tt)
            (λ q. Leaves pda w₀ q.1) w₁ (λ _ _. initiate-MayStart pda w₀ w₂ h₂)
            (λ _ _. (h₂.0, inl h₂.1)))
        (λ _ _. (h₁.0, inl h₁.1))

  announced-Started :
      (ps : List ℕ) (w₀ w : World)
      → Untouched w₀ w
      → Fine w
      → let (r, w') = announced pda event_type event ps w in
        (r ≡ ok tt) × (w'.db.agreement_parties ≡ w₀.db.agreement_parties) × Started pda w₀ w'
  announced-Started ps w₀ w h fine =
      let w₁ = (for_each (notify event_type pda) ps w).1 in
      let w₂ = (for_each (broadcast event) ps w₁).1 in
      let h₁ : Untouched w₀ w₁ = notify_all-Untouched w₀ event_type pda ps w h in
      let h₂ : Untouched w₀ w₂ = broadcast_all-Untouched w₀ event ps w₁ h₁ in
      let fine₂ : Fine w₂ =
        broadcast_all-Fine event ps w₁ (notify_all-Fine event_type pda ps w fine) in
      let last : M Void = attempt (initiate_refund_if_eligible pda) >>= λ refund. pure tt in
      bind_ok (for_each (notify event_type pda) ps) (λ _. for_each (broadcast event) ps >> last)
        (Restarts pda w₀) w
        (quiet (for_each (notify event_type pda) ps) w (notify_all-IsQuiet event_type pda ps))
        (bind_ok (for_each (broadcast event) ps) (λ _. last) (Restarts pda w₀) w₁
          (quiet (for_each (broadcast event) ps) w₁ (broadcast_all-IsQuiet event ps))
          (let started = initiate-Started pda w₀ w₂ h₂ fine₂ in (refl, started.0, started.1)))

module _ (status : PartyStatus) (event_type : String) (ws_event : ℕ → WsEvent)
    (event : ParsedEvent) where
  abbrev close_rows : Db → Db
  close_rows db = record db {
    agreement_parties =
        update_where (of_agreement event.agreement_pda) (set_party_status status)
          db.agreement_parties;
  }

  abbrev closing : M Void
  closing = execute close_rows

  abbrev reading : M Void
  reading =
      fetch (parties_of_agreement event.agreement_pda)
      >>= announced event.agreement_pda event_type (ws_event event.agreement_pda)

  reading-Leaves : (w₀ w : World) → Untouched w₀ w → Leaves event.agreement_pda w₀ (reading w).1
  reading-Leaves w₀ w h =
      let q = parties_of_agreement event.agreement_pda in
      let h₁ : Untouched w₀ (fetch q w).1 = rw (fetch-world q w) h in
      bind_lem (fetch q) (announced event.agreement_pda event_type (ws_event event.agreement_pda))
        (λ r. Leaves event.agreement_pda w₀ r.1) w
        (λ ps _.
          announced-MayStart event.agreement_pda event_type (ws_event event.agreement_pda) ps w₀
            (fetch q w).1 h₁)
        (λ _ _. (h₁.0, inl h₁.1))

  reading-Restarts :
      (w₀ w : World) → Untouched w₀ w → Fine w → Restarts event.agreement_pda w₀ (reading w)
  reading-Restarts w₀ w h fine =
      let q = parties_of_agreement event.agreement_pda in
      bind_ok (fetch q) (announced event.agreement_pda event_type (ws_event event.agreement_pda))
        (Restarts event.agreement_pda w₀) w (fetch-answered q w (fine 0))
        (announced-Started event.agreement_pda event_type (ws_event event.agreement_pda) (q w.db) w₀
          (record w { faults = rest w.faults }) h (λ n. fine (suc n)))

  -- A cancellation or an expiry that is handled with success gives every row of the agreement, and
  -- no other, the status; of the payments at most one changes, the confirmed one of the agreement,
  -- which then waits for its refund.
  pub handle_cancellation-Closed :
      (w : World)
      → let (r, w') = handle_cancellation status event_type ws_event event w in
        OnOk r (λ _. Closed event.agreement_pda status w w') × MayStart event.agreement_pda w w'
  unfolding handle_cancellation
  handle_cancellation-Closed w =
      let Goal : Result Void × World → Type 0 = λ q.
        OnOk q.0 (λ _. Closed event.agreement_pda status w q.1)
        × MayStart event.agreement_pda w q.1 in
      elim (execute-cases (λ _. tt) close_rows w) [
        | inl fails ↦ bind_err closing (λ _. reading) Goal w fails (tt, inl refl)
        | inr fine ↦
            let w₁ : World = record w { db = close_rows w.db; faults = rest w.faults } in
            let leaves = reading-Leaves w₁ w₁ (refl, refl, refl, refl, refl) in
            bind_ok closing (λ _. reading) Goal w fine
              (OnOk-always (reading w₁).0 (λ _. leaves.0), leaves.1)
      ]

  -- While the database answers, it is handled with success, and the payment does wait for its refund.
  pub handle_cancellation-Started :
      (w : World)
      → Fine w
      → let (r, w') = handle_cancellation status event_type ws_event event w in
        (r ≡ ok tt) × Closed event.agreement_pda status w w' × Started event.agreement_pda w w'
  unfolding handle_cancellation
  handle_cancellation-Started w fine =
      let Goal : Result Void × World → Type 0 = λ q.
        (q.0 ≡ ok tt)
        × Closed event.agreement_pda status w q.1
        × Started event.agreement_pda w q.1 in
      let w₁ : World = record w { db = close_rows w.db; faults = rest w.faults } in
      bind_ok closing (λ _. reading) Goal w (execute-answered (λ _. tt) close_rows w (fine 0))
        (reading-Restarts w₁ w₁ (refl, refl, refl, refl, refl) (λ n. fine (suc n)))
