-- ===== src/Workers/ExpiryWorker/Locked.antt =====
-- The lock of src/workers/expiry_worker.rs: what a try at the expiry of an agreement leaves.
use pactum_codex.Base.{
  ℕ, ◌∙◌, ap, ltb, rest, length-drop, length-append, drop_past, drop_within, take_past, take_within,
  ◌+◌, ◌≡◌, refl, arith, true, false, some, List, [], ◌∷◌, ◌++◌, take, drop, length, ◌&&◌, head,
  exists, update_where, Bool-cases, inl, inr,
}
use mathlib.Core.Path.{subst}
use pactum_codex.Error.{AppError}
use pactum_codex.State.Rows.{Party, PartyStatus}
use pactum_codex.State.World.{World, Void, Result, ok, err, attempt, execute_returning, bind_ok}
use pactum_codex.Handlers.Auth.{SolanaSdk}
use pactum_codex.Handlers.Agreement.Onchain.{AccountReader}
use pactum_codex.Services.Solana.{Seed}
use pactum_codex.Services.Solana.Builders.{assemble, build_expire_agreement_tx}
use pactum_codex.Workers.EventListener.{of_agreement, set_party_status}
use pactum_codex.Workers.RefundWorker.{status_for_reason}
use pactum_codex.Workers.ExpiryWorker.{
  locks, lock_agreement_for_expiry, unlock_agreement_from_expiry, after_submit, after_lock,
  id_bytes, submit_expire_transaction, expire_agreement, is_overdue,
}

abbrev pub locked : ℕ → List Party → List Party
locked pda rows = update_where (locks pda) (set_party_status PartyStatus.expiring) rows

-- Of an account with the discriminator, the creator and the id at its start, the bytes that are
-- taken for the id are the last eight of the creator and the first eight of the id.
pub id_bytes_misplaced :
    (disc creator id more : List ℕ)
    → length disc ≡ 8
    → length creator ≡ 32
    → length id ≡ 16
    → id_bytes (disc ++ (creator ++ (id ++ more))) ≡ some (drop 24 creator ++ take 8 id)
id_bytes_misplaced disc creator id more d c i =
    let half = drop 24 creator in
    let rest = creator ++ (id ++ more) in
    let eight : length half ≡ 8 = ground (arith, length-drop 24 creator, c) in
    let whole : ltb (length (disc ++ rest)) 48 ≡ false = ground (
      arith,
      length-append disc rest,
      length-append creator (id ++ more),
      length-append id more,
      d,
      c,
      i,
    ) in
    let start : drop 32 (disc ++ rest) ≡ half ++ (id ++ more) =
      subst (λ n. drop (n + 24) (disc ++ rest) ≡ half ++ (id ++ more)) d
        (drop_past disc rest 24 ∙ drop_within 24 creator (id ++ more) (ground (arith, c))) in
    let taken : take 16 (half ++ (id ++ more)) ≡ half ++ take 8 id =
      subst (λ n. take (n + 8) (half ++ (id ++ more)) ≡ half ++ take 8 id) eight
        (take_past half (id ++ more) 8
          ∙ ap (λ t. half ++ t) (take_within 8 id more (ground (arith, i)))) in
    rw whole (ap some (ap (take 16) start ∙ taken))

-- A row that is locked is not locked again.
locked-none : (pda : ℕ) (rows : List Party) → exists (locks pda) (locked pda rows) ≡ false
locked-none pda [] = refl
locked-none pda (a ∷ rows) = elim (Bool-cases (locks pda a)) [
  | inl holds ↦ rw holds (ground (arith, locked-none pda rows))
  | inr fails ↦ rw (fails, fails) (locked-none pda rows)
]

-- The agreement's rows are not among those that a cycle takes.
abbrev pub IsPassedOver : ℕ → List Party → ℕ → Type 0
IsPassedOver pda rows time = exists (λ a. of_agreement pda a && is_overdue time a) rows ≡ false

none_overdue :
    (pda time : ℕ) (rows : List Party)
    → exists (locks pda) rows ≡ false
    → IsPassedOver pda rows time
none_overdue pda time [] h = refl
none_overdue pda time (a ∷ rows) h = ground (arith, h, none_overdue pda time rows)

lock_taken :
    (pda : ℕ) (w : World)
    → head w.faults ≡ false
    → exists (locks pda) w.db.agreement_parties ≡ true
    → lock_agreement_for_expiry pda w ≡ (
      ok true,
      record w {
        faults = rest w.faults;
        db = record w.db { agreement_parties = locked pda w.db.agreement_parties };
      },
    )
unfolding lock_agreement_for_expiry
lock_taken pda w fine there = rw (fine, execute_returning) (rw there refl)

unlock_fails :
    (pda : ℕ) (e : AppError) (w : World)
    → head w.faults ≡ true
    → (after_submit pda (err e) w).1.db ≡ w.db
unfolding after_submit unlock_agreement_from_expiry status_for_reason
unlock_fails pda e w h = ground arith

module _ (sdk : SolanaSdk) (reader : AccountReader) (id_of : List ℕ → ℕ)
    (find_program_address : List Seed → ℕ) (mpl_core_program_id : ℕ) (vault : ℕ) where
  submit-db :
      (pda creator : ℕ) (w : World)
      → let w' =
          (submit_expire_transaction sdk reader id_of find_program_address mpl_core_program_id vault
            pda creator w).1 in
        (w'.db ≡ w.db) × (w'.faults ≡ w.faults)
  unfolding submit_expire_transaction build_expire_agreement_tx assemble
  submit-db pda creator w = (ground arith, ground arith)

  -- Where a try at the expiry of an agreement has locked its rows, its submission fails and the
  -- statement that takes the lock back fails too, the rows stay locked, and then no cycle at any
  -- later time takes the agreement up again: a row that waits for signatures has become one that
  -- never expires.
  pub expire_agreement_stuck :
      (pda creator time : ℕ) (w : World) (e : AppError)
      → head w.faults ≡ false
      → exists (locks pda) w.db.agreement_parties ≡ true
      → w.faults 1 ≡ true
      → let w₁ : World = record w {
        faults = rest w.faults;
        db = record w.db { agreement_parties = locked pda w.db.agreement_parties };
      } in
        (submit_expire_transaction sdk reader id_of find_program_address mpl_core_program_id vault
            pda creator w₁).0
          ≡ err e
        → let w' =
            (expire_agreement sdk reader id_of find_program_address mpl_core_program_id vault
              (pda, creator)
              w).1 in
          (w'.db.agreement_parties ≡ locked pda w.db.agreement_parties)
          × IsPassedOver pda w'.db.agreement_parties time
  unfolding expire_agreement after_lock after_submit lock_agreement_for_expiry
      unlock_agreement_from_expiry status_for_reason
  expire_agreement_stuck pda creator time w e fine there again failed =
      let w₁ : World = record w {
        faults = rest w.faults;
        db = record w.db { agreement_parties = locked pda w.db.agreement_parties };
      } in
      let submit =
        submit_expire_transaction sdk reader id_of find_program_address mpl_core_program_id vault
          pda creator in
      let v = (submit w₁).1 in
      let kept = submit-db pda creator w₁ in
      let Rows : Result Void × World → Type 0 =
        λ q. q.1.db.agreement_parties ≡ locked pda w.db.agreement_parties in
      let still : (after_submit pda (err e) v).1.db ≡ v.db =
        unlock_fails pda e v (ap (λ fs. fs 0) kept.1 ∙ again) in
      let rows : Rows (
          expire_agreement sdk reader id_of find_program_address mpl_core_program_id vault
            (pda, creator) w) =
        bind_ok (attempt (lock_agreement_for_expiry pda))
          (after_lock sdk reader id_of find_program_address mpl_core_program_id vault
            (pda, creator))
          Rows w {w' = w₁}
          (λ j. (ok ((lock_taken pda w fine there j).0), (lock_taken pda w fine there j).1))
          (bind_ok (attempt submit) (after_submit pda) Rows w₁ {w' = v} (λ j. (ok (failed j), v))
            (ap (λ d. d.agreement_parties) (still ∙ kept.0))) in
      (
        rows,
        rw rows (
            none_overdue pda time (locked pda w.db.agreement_parties)
              (locked-none pda w.db.agreement_parties)),
      )
