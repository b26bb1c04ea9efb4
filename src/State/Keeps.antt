-- ===== src/State/Keeps.antt =====
-- A property of the world that a computation keeps, whatever it returns, through the monad of
-- State/World.
use pactum_codex.Base.{Bool, true, false, List, [], ◌∷◌, Stream, head, rest, Bool-cases, inl, inr}
use pactum_codex.State.Rows.{Db}
use pactum_codex.State.World.{
  World, M, ◌>>=◌, Void, choose, for_each, fetch, execute_returning, bind_lem, fetch-world,
}

abbrev pub Keeps : (World → Type 0) → {A : Type 0} → M A → Type 0
Keeps P m = (w : World) → P w → P (m w).1

-- The property does not speak of the faults to come.
abbrev pub Faultless : (World → Type 0) → Type 0
Faultless P = (w : World) (fs : Stream Bool) → P w → P (record w { faults = fs })

module _ (P : World → Type 0) where
  pub Keeps-bind :
      {A B : Type 0} (m : M A) (f : A → M B)
      → Keeps P m
      → ((a : A) → Keeps P (f a))
      → Keeps P (m >>= f)
  Keeps-bind m f h k w p = bind_lem m f (λ q. P q.1) w (λ a _. k a (m w).1 (h w p)) (λ _ _. h w p)

  pub Keeps-choose :
      {A : Type 0} (b : Bool) (m k : M A) → Keeps P m → Keeps P k → Keeps P (choose b m k)
  Keeps-choose true m k h g = h
  Keeps-choose false m k h g = g

  pub Keeps-fetch : {A : Type 0} (q : Db → A) → Faultless P → Keeps P (fetch q)
  Keeps-fetch q h w p = rw (fetch-world q w) (h w (rest w.faults) p)

  pub Keeps-execute :
      {A : Type 0} (q : Db → A) (f : Db → Db)
      → Faultless P
      → ((w : World) → P w → P (record w { db = f w.db }))
      → Keeps P (execute_returning q f)
  Keeps-execute q f h k w p = elim (Bool-cases (head w.faults)) [
    | inl fails ↦ rw (fails, execute_returning) (h w (rest w.faults) p)
    | inr fine ↦
        rw (fine, execute_returning)
          (k (record w { faults = rest w.faults }) (h w (rest w.faults) p))
  ]

  pub Keeps-for_each :
      {A : Type 0} (m : A → M Void)
      → ((x : A) → Keeps P (m x))
      → (xs : List A) → Keeps P (for_each m xs)
  Keeps-for_each m h [] = λ w p. p
  Keeps-for_each m h (x ∷ xs) =
      Keeps-bind (m x) (λ _. for_each m xs) (h x) (λ _. Keeps-for_each m h xs)
