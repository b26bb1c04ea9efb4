-- ===== src/Base/Lists.antt =====
-- Lists as the rows of a table: what a query with a Boolean condition selects, updates and deletes.
use Prim.Native.Nat.{ℕ, zero, suc, ◌+◌, ◌-◌, ◌≤◌}
use mathlib.Core.Path.{◌≡◌, refl, ap, ◌∙◌}
use mathlib.Core.Bool.{Bool, true, false, ◌&&◌, ◌||◌}
use mathlib.Core.Option
use mathlib.Core.Option.{Option, none, some}
use mathlib.Core.List.{List, [], ◌∷◌, ◌++◌}
use native.Mathlib.Omega.{arith}
use mathlib.Core.Logic.{inl, inr}
use pactum_codex.Base.Tests.{leb, ◌==◌, if◌then◌else◌, Bool-cases}

module _ {ℓ} {A : Type ℓ} where
  abbrev pub length : List A → ℕ
  length [] = 0
  length (_ ∷ xs) = suc (length xs)

  abbrev pub take : ℕ → List A → List A
  take zero xs = []
  take (suc n) [] = []
  take (suc n) (x ∷ xs) = x ∷ take n xs

  abbrev pub drop : ℕ → List A → List A
  drop zero xs = xs
  drop (suc n) [] = []
  drop (suc n) (x ∷ xs) = drop n xs

  -- The first row that meets the condition.
  abbrev pub find : (A → Bool) → List A → Option A
  find p [] = none
  find p (x ∷ xs) = if p x then some x else find p xs

  -- Every row that meets the condition, in the table's order.
  abbrev pub select : (A → Bool) → List A → List A
  select p [] = []
  select p (x ∷ xs) = if p x then x ∷ select p xs else select p xs

  abbrev pub delete_where : (A → Bool) → List A → List A
  delete_where p [] = []
  delete_where p (x ∷ xs) = if p x then delete_where p xs else x ∷ delete_where p xs

  abbrev pub update_where : (A → Bool) → (A → A) → List A → List A
  update_where p f [] = []
  update_where p f (x ∷ xs) = (if p x then f x else x) ∷ update_where p f xs

  abbrev pub exists : (A → Bool) → List A → Bool
  exists p [] = false
  exists p (x ∷ xs) = p x || exists p xs

  abbrev pub all : (A → Bool) → List A → Bool
  all p [] = true
  all p (x ∷ xs) = p x && all p xs

  abbrev pub count_where : (A → Bool) → List A → ℕ
  count_where p [] = 0
  count_where p (x ∷ xs) = if p x then suc (count_where p xs) else count_where p xs

  -- The lists that `f` makes of the elements, one after another.
  abbrev pub concat_map {κ} : {B : Type κ} → (B → List A) → List B → List A
  concat_map f [] = []
  concat_map f (y ∷ ys) = f y ++ concat_map f ys

  -- Every element has the property.
  abbrev pub All {κ} : (A → Type κ) → List A → Type κ
  All P [] = Unit
  All P (x ∷ xs) = P x × All P xs

  -- What a condition has deleted, no stronger condition finds.
  pub find-delete_where :
      (p q : A → Bool)
      → ((x : A) → q x ≡ true → p x ≡ true)
      → (xs : List A) → find q (delete_where p xs) ≡ none
  find-delete_where p q h [] = refl
  find-delete_where p q h (x ∷ xs) = ground (arith, h x, find-delete_where p q h xs)

  -- What a condition deletes, a condition that excludes it does not miss.
  pub find-delete_other :
      (p q : A → Bool)
      → ((x : A) → q x ≡ true → p x ≡ false)
      → (xs : List A) → find q (delete_where p xs) ≡ find q xs
  find-delete_other p q h [] = refl
  find-delete_other p q h (x ∷ xs) = ground (arith, h x, find-delete_other p q h xs)

  pub find-eq_some : (p : A → Bool) (xs : List A) (a : A) → find p xs ≡ some a → p a ≡ true
  find-eq_some p [] a e = cc
  find-eq_some p (x ∷ xs) a e = ground (arith, find-eq_some p xs a)

  -- An update that a condition does not see moves the row that the condition finds.
  pub find-update_where :
      (p q : A → Bool) (f : A → A)
      → ((x : A) → p (f x) ≡ p x)
      → (xs : List A)
      → find p (update_where q f xs) ≡ Option.map (λ x. if q x then f x else x) (find p xs)
  find-update_where p q f h [] = refl
  find-update_where p q f h (x ∷ xs) = ground (arith, h x, find-update_where p q f h xs)

  -- A row added at the end is found when no earlier row is.
  pub find-append :
      (p : A → Bool) (xs : List A) (y : A)
      → exists p xs ≡ false
      → p y ≡ true
      → find p (xs ++ y ∷ []) ≡ some y
  find-append p [] y h e = ground arith
  find-append p (x ∷ xs) y h e = ground (arith, find-append p xs y)

  pub All-append {κ} : (P : A → Type κ) (xs ys : List A) → All P xs → All P ys → All P (xs ++ ys)
  All-append P [] ys h k = k
  All-append P (x ∷ xs) ys h k = (h.0, All-append P xs ys h.1 k)

  pub All-take {κ} : (P : A → Type κ) (n : ℕ) (xs : List A) → All P xs → All P (take n xs)
  All-take P zero xs h = tt
  All-take P (suc n) [] h = tt
  All-take P (suc n) (x ∷ xs) h = (h.0, All-take P n xs h.1)

  pub length-take : (n : ℕ) (xs : List A) → length (take n xs) ≤ n
  length-take zero xs = ground arith
  length-take (suc n) [] = ground arith
  length-take (suc n) (x ∷ xs) = ground (arith, length-take n xs)

  -- An update that keeps a property of the rows.
  pub All-update_where {κ} :
      (P : A → Type κ) (p : A → Bool) (f : A → A)
      → ((x : A) → P x → P (f x))
      → (xs : List A) → All P xs
      → All P (update_where p f xs)
  All-update_where P p f keep [] h = tt
  All-update_where P p f keep (x ∷ xs) h = elim (Bool-cases (p x)) [
    | inl holds ↦ rw holds (keep x h.0, All-update_where P p f keep xs h.1)
    | inr fails ↦ rw fails (h.0, All-update_where P p f keep xs h.1)
  ]

  pub drop_past : (xs ys : List A) (m : ℕ) → drop (length xs + m) (xs ++ ys) ≡ drop m ys
  drop_past [] ys m = ap (λ k. drop k ys) (omega arith)
  drop_past (x ∷ xs) ys m =
      let e : suc (length xs) + m ≡ suc (length xs + m) = omega arith in
      ap (λ k. drop k (x ∷ (xs ++ ys))) e ∙ drop_past xs ys m

  pub drop_within : (n : ℕ) (xs ys : List A) → n ≤ length xs → drop n (xs ++ ys) ≡ drop n xs ++ ys
  drop_within zero xs ys h = refl
  drop_within (suc n) [] ys h = ground arith
  drop_within (suc n) (x ∷ xs) ys h = drop_within n xs ys (ground (arith, h))

  pub take_past : (xs ys : List A) (m : ℕ) → take (length xs + m) (xs ++ ys) ≡ xs ++ take m ys
  take_past [] ys m = ap (λ k. take k ys) (omega arith)
  take_past (x ∷ xs) ys m =
      let e : suc (length xs) + m ≡ suc (length xs + m) = omega arith in
      ap (λ k. take k (x ∷ (xs ++ ys))) e ∙ ap (λ t. x ∷ t) (take_past xs ys m)

  pub take_within : (n : ℕ) (xs ys : List A) → n ≤ length xs → take n (xs ++ ys) ≡ take n xs
  take_within zero xs ys h = refl
  take_within (suc n) [] ys h = ground arith
  take_within (suc n) (x ∷ xs) ys h = rw (take_within n xs ys (ground (arith, h))) refl

  pub length-append : (xs ys : List A) → length (xs ++ ys) ≡ length xs + length ys
  length-append [] ys = omega arith
  length-append (x ∷ xs) ys = ground (arith, length-append xs ys)

  pub length-drop : (n : ℕ) (xs : List A) → length (drop n xs) ≡ length xs - n
  length-drop zero xs = ground arith
  length-drop (suc n) [] = ground arith
  length-drop (suc n) (x ∷ xs) = ground (arith, length-drop n xs)

-- Two texts or byte strings that are equal.
abbrev pub bytes_eq : List ℕ → List ℕ → Bool
bytes_eq [] [] = true
bytes_eq [] (_ ∷ _) = false
bytes_eq (_ ∷ _) [] = false
bytes_eq (c ∷ cs) (d ∷ ds) = c == d && bytes_eq cs ds

-- Rust's `to_ascii_lowercase`.
abbrev pub to_ascii_lowercase : List ℕ → List ℕ
to_ascii_lowercase [] = []
to_ascii_lowercase (c ∷ cs) =
    (if leb b'A' c && leb c b'Z' then c + 32 else c) ∷ to_ascii_lowercase cs
