-- ===== src/State/World/Monad.antt =====
-- The world on which a handler or a worker runs, and the statements that they are made of.
use pactum_codex.Base.{
  ℕ, Bool, true, false, Option, none, some, List, [], ◌∷◌, Stream, head, rest, ◌||◌, not,
}
use pactum_codex.Error.{AppError}
use pactum_codex.State.Health.{HealthState}
use pactum_codex.State.Events.{WsEvent, Mail}
use pactum_codex.State.Rows.{Db, Schema}

-- A transaction with one SPL transfer out of the treasury, which the RPC node has accepted. Whether
-- the chain confirms it is not known; with another blockhash it is another transaction.
pub record Transfer : Type 0 where
  pub to : ℕ
  pub mint : ℕ
  pub amount : ℕ
  pub recent_blockhash : ℕ

pub record World : Type 0 where
  pub db : Db
  pub schema : Schema
  pub now : ℕ
  -- whether the next call of the database fails
  pub faults : Stream Bool
  -- the next random identifier (`Uuid::new_v4`, `OsRng`)
  pub supply : Stream ℕ
  -- the next reply of the Solana RPC node: `none` is a failure
  pub rpc : Stream (Option ℕ)
  -- whether the mail provider takes the next message
  pub mail : Stream Bool
  pub process_health : HealthState
  -- the users with a live channel
  pub ws_channels : List ℕ
  -- what has been pushed to clients, submitted to the node and mailed, newest first
  pub pushed : List (ℕ × WsEvent)
  pub transfers : List Transfer
  pub mailed : List Mail

pub data Result {ℓ} (A : Type ℓ) : Type ℓ where
  ok : A → Result A
  err : AppError → Result A

abbrev pub M : Type 0 → Type 0
M A = World → Result A × World

infixl 5 ◌>>=◌ ◌>>◌
abbrev pub ◌>>=◌ : {A B : Type 0} → M A → (A → M B) → M B
◌>>=◌ m f w = let (r, w') = m w in elim r [ ok a ↦ f a w' | err e ↦ (err e, w') ]

abbrev pub ◌>>◌ : {A B : Type 0} → M A → M B → M B
m >> k = m >>= λ _. k

abbrev pub Void : Type 0
Void = Unit

module _ {A : Type 0} where
  abbrev pub pure : A → M A
  pure a w = (ok a, w)

  abbrev pub throw : AppError → M A
  throw e w = (err e, w)

  -- `.ok_or(e)?`
  abbrev pub ok_or : Option A → AppError → M A
  ok_or none e = throw e
  ok_or (some a) e = pure a

  abbrev pub gets : (World → A) → M A
  gets f w = (ok (f w), w)

  -- Run `m` and hand its result on as a value, for a caller that matches on it.
  abbrev pub attempt : M A → M (Result A)
  attempt m w = let (r, w') = m w in (ok r, w')

  -- A query: a value read from the tables.
  abbrev pub fetch : (Db → A) → M A
  fetch q w =
      let w' = record w { faults = rest w.faults } in
      elim (head w.faults) [ true ↦ (err AppError.internal_error, w') | false ↦ (ok (q w.db), w') ]

  -- A statement that changes the tables and returns a value.
  abbrev pub execute_returning : (Db → A) → (Db → Db) → M A
  execute_returning q f w =
      let w' = record w { faults = rest w.faults } in
      elim (head w.faults) [
        | true ↦ (err AppError.internal_error, w')
        | false ↦ (ok (q w.db), record w' { db = f w.db })
      ]

abbrev pub execute : (Db → Db) → M Void
execute f = execute_returning (λ _. tt) f

-- An INSERT that breaks a key of the table is an error of the database.
abbrev pub insert_unique : (Db → Bool) → (Db → Db) → M Void
insert_unique taken f w =
    let w' = record w { faults = rest w.faults } in
    elim (head w.faults || taken w.db) [
      | true ↦ (err AppError.internal_error, w')
      | false ↦ (ok tt, record w' { db = f w.db })
    ]

-- An INSERT or an UPDATE that does not fit the table's columns is an error of the database.
abbrev pub execute_if : (World → Bool) → (Db → Db) → M Void
execute_if fits f w =
    let w' = record w { faults = rest w.faults } in
    elim (head w.faults || not (fits w)) [
      | true ↦ (err AppError.internal_error, w')
      | false ↦ (ok tt, record w' { db = f w.db })
    ]

abbrev pub guard : Bool → AppError → M Void
guard true e = pure tt
guard false e = throw e

-- `if c { m } else { k }`
abbrev pub choose : {A : Type 0} → Bool → M A → M A → M A
choose true m k = m
choose false m k = k

-- `for x in xs { m(x)? }`
abbrev pub for_each : {A : Type 0} → (A → M Void) → List A → M Void
for_each m [] = pure tt
for_each m (x ∷ xs) = m x >> for_each m xs

-- A fresh random identifier.
abbrev pub fresh : M ℕ
fresh w = (ok (head w.supply), record w { supply = rest w.supply })

-- A call of the Solana RPC node, with the error that a failure becomes.
abbrev pub call_rpc : AppError → M ℕ
call_rpc e w =
    let w' = record w { rpc = rest w.rpc } in
    elim (head w.rpc) [ none ↦ (err e, w') | some reply ↦ (ok reply, w') ]

-- The mail provider takes a mail or refuses it.
abbrev pub deliver : Mail → M Void
deliver mail w =
    let w' = record w { mail = rest w.mail } in
    elim (head w.mail) [
      | true ↦ (ok tt, record w' { mailed = mail ∷ w.mailed })
      | false ↦ (err AppError.internal_error, w')
    ]

abbrev pub now : M ℕ
now = gets (λ w. w.now)

abbrev pub lift : {A : Type 0} → Result A → M A
lift (ok a) = pure a
lift (err e) = throw e

-- `begin` … `commit`: a transaction. An error inside, or of the commit, undoes its statements.
abbrev pub transaction : {A : Type 0} → M A → M A
transaction m w =
    let (r, w') = m w in
    elim r [
      | err e ↦ (err e, record w' { db = w.db })
      | ok a ↦ elim (head w'.faults) [
        | true ↦ (err AppError.internal_error, record w' { db = w.db; faults = rest w'.faults })
        | false ↦ (ok a, record w' { faults = rest w'.faults })
      ]
    ]
