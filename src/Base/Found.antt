-- ===== src/Base/Found.antt =====
-- What a query still finds after a deletion or an update of the table. No code of the repository is
-- modelled here.
use mathlib.Core.Option
use mathlib.Core.Option.{Option, none, some}
use mathlib.Core.Path.{◌≡◌, refl, ap, ◌∙◌}
use mathlib.Core.Logic.{inl, inr}
use mathlib.Core.Bool.{Bool, true, false, ◌||◌}
use mathlib.Core.List.{List, [], ◌∷◌, ◌++◌}
use Prim.Native.Nat.{ℕ, ◌≤◌, ◌<◌}
use native.Mathlib.Omega.{arith}
use pactum_codex.Base.Tests.{if◌then◌else◌, Bool-cases, is_some}
use pactum_codex.Base.Lists.{
  length, bytes_eq, all, find, exists, delete_where, update_where, find-update_where, find-eq_some,
  select, All,
}

module _ {ℓ} {A : Type ℓ} where
  pub exists-delete_where-false :
      (p q : A → Bool) (xs : List A) → exists p xs ≡ false → exists p (delete_where q xs) ≡ false
  exists-delete_where-false p q [] h = refl
  exists-delete_where-false p q (x ∷ xs) h = ground (arith, exists-delete_where-false p q xs)

  pub exists-delete_where_other :
      (p q : A → Bool)
      → ((x : A) → p x ≡ true → q x ≡ false)
      → (xs : List A) → exists p (delete_where q xs) ≡ exists p xs
  exists-delete_where_other p q h [] = refl
  exists-delete_where_other p q h (x ∷ xs) = ground (arith, h x, exists-delete_where_other p q h xs)

  -- A weaker condition that nothing meets.
  pub exists_weaker :
      (p q : A → Bool)
      → ((x : A) → p x ≡ true → q x ≡ true)
      → (xs : List A) → exists q xs ≡ false
      → exists p xs ≡ false
  exists_weaker p q h [] e = refl
  exists_weaker p q h (x ∷ xs) e = ground (arith, h x, exists_weaker p q h xs)

  pub find-none : (p : A → Bool) (xs : List A) → find p xs ≡ none → exists p xs ≡ false
  find-none p [] e = refl
  find-none p (x ∷ xs) e = ground (arith, find-none p xs)

  pub delete_where-le : (q : A → Bool) (xs : List A) → length (delete_where q xs) ≤ length xs
  delete_where-le q [] = omega arith
  delete_where-le q (x ∷ xs) = ground (arith, delete_where-le q xs)

  -- A row that is found is deleted.
  pub delete_where-lt :
      (p q : A → Bool) (xs : List A) (a : A)
      → find p xs ≡ some a
      → q a ≡ true
      → length (delete_where q xs) < length xs
  delete_where-lt p q [] a e h = cc
  delete_where-lt p q (x ∷ xs) a e h = elim (Bool-cases (p x)) [
    | inl here ↦
        let e' : x ≡ a = ground arith in
        let hx : q x ≡ true = ap q e' ∙ h in ground (arith, delete_where-le q xs)
    | inr later ↦ ground (arith, delete_where-lt p q xs a, delete_where-le q xs)
  ]

  pub deleted : (q : A → Bool) (xs : List A) → exists q (delete_where q xs) ≡ false
  deleted q [] = refl
  deleted q (x ∷ xs) = ground (arith, deleted q xs)

  pub find-all :
      (p q : A → Bool) (xs : List A) (a : A) → all q xs ≡ true → find p xs ≡ some a → q a ≡ true
  find-all p q [] a every found = cc
  find-all p q (x ∷ xs) a every found = elim (Bool-cases (p x)) [
    | inl this ↦ ground (arith, this)
    | inr later ↦ find-all p q xs a (ground arith) (ground (arith, later))
  ]

  pub exists-find : (p : A → Bool) (xs : List A) → exists p xs ≡ is_some (find p xs)
  exists-find p [] = refl
  exists-find p (x ∷ xs) = ground (arith, exists-find p xs)

  -- The row that an update changes, where the condition does not see the change.
  pub find-update_found :
      (p : A → Bool) (f : A → A)
      → ((x : A) → p (f x) ≡ p x)
      → (xs : List A) (c : A) → find p xs ≡ some c
      → find p (update_where p f xs) ≡ some (f c)
  find-update_found p f h xs c e =
      find-update_where p p f h xs
      ∙ ap (Option.map (λ x. if p x then f x else x)) e
      ∙ ap (λ b. some (if b then f c else c)) (find-eq_some p xs c e)

  pub exists-found :
      (p q : A → Bool) (xs : List A) (a : A) → find p xs ≡ some a → q a ≡ true → exists q xs ≡ true
  exists-found p q [] a e h = cc
  exists-found p q (x ∷ xs) a e h = elim (Bool-cases (p x)) [
    | inl here ↦ let e' : x ≡ a = ground arith in let hx : q x ≡ true = ap q e' ∙ h in ground arith
    | inr later ↦ ground (arith, exists-found p q xs a)
  ]

  pub exists-append :
      (p : A → Bool) (xs ys : List A) → exists p (xs ++ ys) ≡ (exists p xs || exists p ys)
  exists-append p [] ys = refl
  exists-append p (x ∷ xs) ys = ground (arith, exists-append p xs ys)

  pub exists-select_self : (p : A → Bool) (xs : List A) → exists p (select p xs) ≡ exists p xs
  exists-select_self p [] = refl
  exists-select_self p (x ∷ xs) = ground (arith, exists-select_self p xs)

  pub All-select {κ} :
      {P Q : A → Type κ} (p : A → Bool)
      → ((x : A) → P x → p x ≡ true → Q x)
      → (xs : List A) → All P xs
      → All Q (select p xs)
  All-select p f [] h = tt
  All-select p f (x ∷ xs) h = elim (Bool-cases (p x)) [
    | inl kept ↦ rw kept (f x h.0 kept, All-select p f xs h.1)
    | inr left ↦ rw left (All-select p f xs h.1)
  ]

-- Byte strings that the test finds equal are equal.
pub bytes_eq→eq : (xs ys : List ℕ) → bytes_eq xs ys ≡ true → xs ≡ ys
bytes_eq→eq [] [] h = refl
bytes_eq→eq [] (y ∷ ys) h = cc
bytes_eq→eq (x ∷ xs) [] h = cc
bytes_eq→eq (x ∷ xs) (y ∷ ys) h = ground (arith, bytes_eq→eq xs ys)
