-- ===== src/Lifecycle.antt =====
-- The life of a payment, as an abstract machine over the statuses of `agreement_payments`, and when
-- one state of the table follows another. The moves are those that the comments of
-- migrations/20240306120002_drafts_and_payments.sql and the workers' names speak of.
pub mod Updates
pub mod Operations
pub mod Late
pub mod Opened
pub mod Running
pub mod Unset
pub mod Submitted
mod Tests
use pactum_codex.Base.{ℕ, ◌≡◌, refl, ◌∙◌, Bool, true, false, List, [], ◌∷◌, ◌==◌, exists}
use pactum_codex.State.Rows.{Payment, PaymentStatus}
use pactum_codex.State.World.{World}

pub data Move : PaymentStatus → PaymentStatus → Type 0 where
  confirm : Move PaymentStatus.pending PaymentStatus.confirmed
  time_out : Move PaymentStatus.pending PaymentStatus.expired
  cancel : Move PaymentStatus.confirmed PaymentStatus.refund_pending
  arrive_late : Move PaymentStatus.expired PaymentStatus.refund_pending
  pay_back : Move PaymentStatus.refund_pending PaymentStatus.refunded

-- Any number of moves.
pub data Reaches : PaymentStatus → PaymentStatus → Type 0 where
  here : {s : PaymentStatus} → Reaches s s
  move : {s t u : PaymentStatus} → Move s t → Reaches t u → Reaches s u

-- The same payment, with a status that the machine reaches.
abbrev pub Advances : Payment → Payment → Type 0
Advances p q = (q.id ≡ p.id) × Reaches p.status q.status

abbrev pub Started : Payment → Type 0
Started p = Reaches PaymentStatus.pending p.status

-- Every payment has advanced, and the new ones, which come last, began as pending.
abbrev pub Follows : List Payment → List Payment → Type 0
Follows [] [] = Unit
Follows [] (q ∷ qs) = Started q × Follows [] qs
Follows (p ∷ ps) [] = ⊥
Follows (p ∷ ps) (q ∷ qs) = Advances p q × Follows ps qs

abbrev pub has_id : ℕ → Payment → Bool
has_id id p = p.id == id

-- The ids are a key of the table.
abbrev pub Distinct : List Payment → Type 0
Distinct [] = Unit
Distinct (p ∷ ps) = (exists (has_id p.id) ps ≡ false) × Distinct ps

-- The table of `w` follows `ps`, and its ids are still a key.
abbrev pub Tracks : List Payment → World → Type 0
Tracks ps w = Distinct w.db.agreement_payments × Follows ps w.db.agreement_payments

pub Reaches-trans : {s t u : PaymentStatus} → Reaches s t → Reaches t u → Reaches s u
Reaches-trans here r = r
Reaches-trans (move m q) r = move m (Reaches-trans q r)

pub Follows-refl : (ps : List Payment) → Follows ps ps
Follows-refl [] = tt
Follows-refl (p ∷ ps) = ((refl, here), Follows-refl ps)

pub Follows-trans : (ps qs rs : List Payment) → Follows ps qs → Follows qs rs → Follows ps rs
Follows-trans [] [] rs f g = g
Follows-trans [] (q ∷ qs) [] f g = elim g [ ]
Follows-trans [] (q ∷ qs) (r ∷ rs) f g = (Reaches-trans f.0 g.0.1, Follows-trans [] qs rs f.1 g.1)
Follows-trans (p ∷ ps) [] rs f g = elim f [ ]
Follows-trans (p ∷ ps) (q ∷ qs) [] f g = elim g [ ]
Follows-trans (p ∷ ps) (q ∷ qs) (r ∷ rs) f g =
    ((g.0.0 ∙ f.0.0, Reaches-trans f.0.1 g.0.1), Follows-trans ps qs rs f.1 g.1)
