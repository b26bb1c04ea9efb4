-- ===== src/Lifecycle/Updates.antt =====
-- What a statement of the program does to the table of payments, along the machine of Lifecycle.
use pactum_codex.Base.{
  ℕ, ◌≡◌, refl, ◌∙◌, arith, Bool, true, false, some, List, [], ◌∷◌, ◌==◌, exists, All, find, select,
  update_where, Bool-cases, inl, inr,
}
use mathlib.Core.Path.{subst}
use pactum_codex.State.Rows.{Payment, PaymentStatus}
use pactum_codex.Lifecycle.{Reaches, here, Advances, Follows, has_id, Distinct}

exists-update_where :
    (k : ℕ) (p : Payment → Bool) (f : Payment → Payment)
    → ((x : Payment) → (f x).id ≡ x.id)
    → (xs : List Payment) → exists (has_id k) (update_where p f xs) ≡ exists (has_id k) xs
exists-update_where k p f h [] = refl
exists-update_where k p f h (x ∷ xs) = ground (arith, h x, exists-update_where k p f h xs)

pub Distinct-update_where :
    (p : Payment → Bool) (f : Payment → Payment)
    → ((x : Payment) → (f x).id ≡ x.id)
    → (xs : List Payment) → Distinct xs
    → Distinct (update_where p f xs)
Distinct-update_where p f h [] d = tt
Distinct-update_where p f h (x ∷ xs) d = elim (Bool-cases (p x)) [
  | inl holds ↦
      rw (holds, h x) (exists-update_where x.id p f h xs ∙ d.0, Distinct-update_where p f h xs d.1)
  | inr fails ↦
      rw fails (exists-update_where x.id p f h xs ∙ d.0, Distinct-update_where p f h xs d.1)
]

-- An update by a condition: each row that meets it advances.
pub Follows-update_where :
    (p : Payment → Bool) (f : Payment → Payment) (xs : List Payment)
    → All (λ x. p x ≡ true → Advances x (f x)) xs
    → Follows xs (update_where p f xs)
Follows-update_where p f [] h = tt
Follows-update_where p f (x ∷ xs) h = elim (Bool-cases (p x)) [
  | inl holds ↦ rw holds (h.0 holds, Follows-update_where p f xs h.1)
  | inr fails ↦ rw fails ((refl, here), Follows-update_where p f xs h.1)
]

pub All-every {ℓ} : {P : Payment → Type ℓ} → ((x : Payment) → P x) → (xs : List Payment) → All P xs
All-every f [] = tt
All-every f (x ∷ xs) = (f x, All-every f xs)

-- Every row with the id may come to wait for a refund.
abbrev pub Refundable : ℕ → List Payment → Type 0
Refundable id xs = All (λ x. (x.id == id) ≡ true → Reaches x.status PaymentStatus.refund_pending) xs

Refundable-absent : (id : ℕ) (xs : List Payment) → exists (has_id id) xs ≡ false → Refundable id xs
Refundable-absent id [] h = tt
Refundable-absent id (x ∷ xs) h =
    (λ there. ground (arith, there, h), Refundable-absent id xs (ground (arith, h)))

Refundable-only :
    (x : Payment) (xs : List Payment)
    → Reaches x.status PaymentStatus.refund_pending
    → exists (has_id x.id) xs ≡ false
    → Refundable x.id (x ∷ xs)
Refundable-only x xs r h = (λ _. r, Refundable-absent x.id xs h)

-- A refund that starts for an id keeps every other id refundable, and its own.
pub Refundable-update :
    (f : Payment → Payment) (id k : ℕ)
    → ((x : Payment) → (f x).id ≡ x.id)
    → ((x : Payment) → (f x).status ≡ PaymentStatus.refund_pending)
    → (xs : List Payment) → Refundable k xs
    → Refundable k (update_where (has_id id) f xs)
Refundable-update f id k same to [] h = tt
Refundable-update f id k same to (x ∷ xs) h = elim (Bool-cases (x.id == id)) [
  | inl holds ↦ rw holds ((λ _. rw (to x) here), Refundable-update f id k same to xs h.1)
  | inr fails ↦ rw fails (h.0, Refundable-update f id k same to xs h.1)
]

module _ (p : Payment → Bool) where
  find-exists :
      (xs : List Payment) (a : Payment) → find p xs ≡ some a → exists (has_id a.id) xs ≡ true
  find-exists [] a e = cc
  find-exists (x ∷ xs) a e = ground (arith, find-exists xs a)

  select-apart :
      (k : ℕ) (xs : List Payment)
      → exists (has_id k) xs ≡ false
      → All (λ q. (q.id == k) ≡ false) (select p xs)
  select-apart k [] e = tt
  select-apart k (x ∷ xs) e = elim (Bool-cases (p x)) [
    | inl holds ↦ rw holds (ground (arith, e), select-apart k xs (ground (arith, e)))
    | inr fails ↦ rw fails (select-apart k xs (ground (arith, e)))
  ]

-- A row with another id does not matter.
Refundable-extend :
    (x : Payment) (xs qs : List Payment)
    → All (λ q. Refundable q.id xs) qs
    → All (λ q. (q.id == x.id) ≡ false) qs
    → All (λ q. Refundable q.id (x ∷ xs)) qs
Refundable-extend x xs [] h a = tt
Refundable-extend x xs (q ∷ qs) h a =
    ((λ there. ground (arith, there, a.0), h.0), Refundable-extend x xs qs h.1 a.1)

module _ (p : Payment → Bool)
    (h : (x : Payment) → p x ≡ true → Reaches x.status PaymentStatus.refund_pending) where
  -- With ids that are a key, a row that the condition has selected is the only one with its id.
  pub find-Refundable :
      (xs : List Payment) (a : Payment) → Distinct xs → find p xs ≡ some a → Refundable a.id xs
  find-Refundable [] a d e = tt
  find-Refundable (x ∷ xs) a d e = elim (Bool-cases (p x)) [
    | inl holds ↦
        let same : x ≡ a = ground (arith, holds, e) in
        subst (λ y. Refundable y.id (x ∷ xs)) same (Refundable-only x xs (h x holds) d.0)
    | inr fails ↦
        let later : find p xs ≡ some a = ground (arith, fails, e) in
        (
          λ there. ground (arith, there, d.0, find-exists p xs a later),
          find-Refundable xs a d.1 later,
        )
  ]

  pub select-Refundable :
      (xs : List Payment) → Distinct xs → All (λ q. Refundable q.id xs) (select p xs)
  select-Refundable [] d = tt
  select-Refundable (x ∷ xs) d =
      let rest =
        Refundable-extend x xs (select p xs) (select-Refundable xs d.1)
          (select-apart p x.id xs d.0) in
      elim (Bool-cases (p x)) [
        | inl holds ↦ rw holds (Refundable-only x xs (h x holds) d.0, rest)
        | inr fails ↦ rw fails rest
      ]
