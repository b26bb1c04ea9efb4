-- ===== src/State/World.antt =====
-- What a handler or a worker runs on: the tables, the clock, the process's health, the connected
-- clients, and what the outside world will answer. A call of the database fails or takes effect as
-- the stream `faults` says; a failed statement changes nothing.
mod Monad
pub use Monad.*
use pactum_codex.Base.{
  ℕ, Bool, true, false, Option, none, some, List, [], ◌∷◌, Stream, head, rest, ◌||◌, not, ◌≡◌, refl,
  ◌⊎◌, inl, inr, Bool-cases, Option-cases,
}
use mathlib.Core.Path.{subst, sym}
use pactum_codex.Error.{AppError}
use pactum_codex.State.Health.{HealthState}
use pactum_codex.State.Events.{WsEvent, Mail}
use pactum_codex.State.Rows.{Db, Schema}

-- The property of a successful result; nothing is said of an error.
abbrev pub OnOk {ℓ κ} : {A : Type ℓ} → Result A → (A → Type κ) → Type κ
OnOk (ok a) P = P a
OnOk (err _) P = Unit

pub OnOk-map {ℓ κ} :
    {A : Type ℓ} {P Q : A → Type κ} (r : Result A) → ((a : A) → P a → Q a) → OnOk r P → OnOk r Q
OnOk-map (ok a) f p = f a p
OnOk-map (err e) f p = tt

pub OnOk-always {ℓ κ} : {A : Type ℓ} {P : A → Type κ} (r : Result A) → ((a : A) → P a) → OnOk r P
OnOk-always (ok a) f = f a
OnOk-always (err e) f = tt

-- The result is a success with the property.
abbrev pub Succeeds {ℓ} : {A : Type ℓ} → Result A → (A → Type 0) → Type 0
Succeeds (ok a) P = P a
Succeeds (err _) P = ⊥

-- There is a value, with the property.
abbrev pub Finds {ℓ} : {A : Type ℓ} → Option A → (A → Type 0) → Type 0
Finds none P = ⊥
Finds (some a) P = P a

pub Finds-map {ℓ} :
    {A : Type ℓ} {P Q : A → Type 0} (o : Option A) → ((a : A) → P a → Q a) → Finds o P → Finds o Q
Finds-map none f p = elim p [ ]
Finds-map (some a) f p = f a p

pub Result-cases {ℓ} :
    {A : Type ℓ} (r : Result A) → ((a : A) × (r ≡ ok a)) ⊎ ((e : AppError) × (r ≡ err e))
Result-cases (ok a) = inl (a, refl)
Result-cases (err e) = inr (e, refl)

elim_result :
    {A B : Type 0} (f : A → M B) (P : Result B × World → Type 0) (r : Result A) (w : World)
    → ((a : A) → r ≡ ok a → P (f a w))
    → ((e : AppError) → r ≡ err e → P (err e, w))
    → P (elim r [ ok a ↦ f a w | err e ↦ (err e, w) ])
elim_result f P (ok a) w h k = h a refl
elim_result f P (err e) w h k = k e refl

-- A property of a sequence of two calls, from what the first one did.
pub bind_lem :
    {A B : Type 0} (m : M A) (f : A → M B) (P : Result B × World → Type 0) (w : World)
    → ((a : A) → (m w).0 ≡ ok a → P (f a (m w).1))
    → ((e : AppError) → (m w).0 ≡ err e → P (err e, (m w).1))
    → P ((m >>= f) w)
bind_lem m f P w h k = elim_result f P (m w).0 (m w).1 h k

-- A query changes no table, whatever it returns.
pub fetch-world :
    {A : Type 0} (q : Db → A) (w : World) → (fetch q w).1 ≡ record w { faults = rest w.faults }
fetch-world q w = elim (Bool-cases (head w.faults)) [
  | inl fails ↦ rw (fails, fetch) refl
  | inr fine ↦ rw (fine, fetch) refl
]

pub fetch-OnOk {κ} :
    {A : Type 0} (q : Db → A) (P : A → Type κ) (w : World) → P (q w.db) → OnOk (fetch q w).0 P
fetch-OnOk q P w h = elim (Bool-cases (head w.faults)) [
  | inl fails ↦ rw (fails, OnOk) tt
  | inr fine ↦ rw (fine, OnOk) h
]

abbrev continue : {A B : Type 0} → (A → M B) → Result A × World → Result B × World
continue f q = let (r, w') = q in elim r [ ok a ↦ f a w' | err e ↦ (err e, w') ]

-- The same for a first call of which the result and the world are known.
pub bind_ok :
    {A B : Type 0} (m : M A) (f : A → M B) (P : Result B × World → Type 0) (w : World) {a : A}
    {w' : World}
    → m w ≡ (ok a, w')
    → P (f a w')
    → P ((m >>= f) w)
bind_ok m f P w e p = subst (λ q. P (continue f q)) (sym e) p

pub bind_err :
    {A B : Type 0} (m : M A) (f : A → M B) (P : Result B × World → Type 0) (w : World)
    {x : AppError} {w' : World}
    → m w ≡ (err x, w')
    → P (err x, w')
    → P ((m >>= f) w)
bind_err m f P w e p = subst (λ q. P (continue f q)) (sym e) p

-- What a call of the database does when it is answered.
pub fetch-answered :
    {A : Type 0} (q : Db → A) (w : World)
    → head w.faults ≡ false
    → fetch q w ≡ (ok (q w.db), record w { faults = rest w.faults })
fetch-answered q w fine = rw (fine, fetch) refl

pub execute-answered :
    {A : Type 0} (q : Db → A) (f : Db → Db) (w : World)
    → head w.faults ≡ false
    → execute_returning q f w ≡ (ok (q w.db), record w { db = f w.db; faults = rest w.faults })
execute-answered q f w fine = rw (fine, execute_returning) refl

-- And what it leaves in any case.
pub execute-cases :
    {A : Type 0} (q : Db → A) (f : Db → Db) (w : World)
    → (execute_returning q f w ≡ (err AppError.internal_error, record w { faults = rest w.faults }))
      ⊎ (execute_returning q f w ≡ (ok (q w.db), record w { db = f w.db; faults = rest w.faults }))
execute-cases q f w = elim (Bool-cases (head w.faults)) [
  | inl fails ↦ inl (rw (fails, execute_returning) refl)
  | inr fine ↦ inr (execute-answered q f w fine)
]

pub call_rpc-world : (e : AppError) (w : World) → (call_rpc e w).1 ≡ record w { rpc = rest w.rpc }
call_rpc-world e w = elim (Option-cases (head w.rpc)) [
  | inl silent ↦ rw (silent, call_rpc) refl
  | inr (reply, there) ↦ rw (there, call_rpc) refl
]
