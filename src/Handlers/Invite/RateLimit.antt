-- ===== src/Handlers/Invite/RateLimit.antt =====
-- The rate limit of `get_invite`: `enforce_get_invite_rate_limit` of src/handlers/invite.rs.
use pactum_codex.Base.{
  ℕ, suc, ◌+◌, ◌≤◌, ◌<◌, ◌≡◌, refl, true, ◌&&◌, ◌==◌, ◌∙◌, ap, List, [], ◌∷◌, ◌++◌, ltb, leb,
  length, select, count_where, All, arith, if◌then◌else◌, Bool-cases, inl, inr,
}
use pactum_codex.State.World.{ok, err}
use pactum_codex.Handlers.Invite.{
  Limiter, entry_of, set_entry, enforce_get_invite_rate_limit, limit_entry, in_window,
  rate_limit_max_requests,
}

-- One entry of the limiter by itself: the requests let through, newest first, and the entry, after
-- requests at these times, newest first.
abbrev pub serve : List ℕ → List ℕ × List ℕ
serve [] = ([], [])
serve (t ∷ ts) =
    let (granted, entry) = serve ts in
    let (let_through, entry') = limit_entry t entry in
    (if let_through then t ∷ granted else granted, entry')

-- No request comes before an older one.
abbrev pub IsOrdered : List ℕ → Type 0
IsOrdered [] = Unit
IsOrdered (t ∷ ts) = All (λ s. s ≤ t) ts × IsOrdered ts

-- How many of these times lie in the window of 60 seconds from `t`, or from `t` on.
abbrev pub within : ℕ → List ℕ → ℕ
within t xs = count_where (λ s. leb t s && ltb s (t + 60)) xs

abbrev pub since : ℕ → List ℕ → ℕ
since t xs = count_where (leb t) xs

within_le_since : (t : ℕ) (xs : List ℕ) → within t xs ≤ since t xs
within_le_since t [] = ground arith
within_le_since t (x ∷ xs) = ground (arith, within_le_since t xs)

since_le_length : (t : ℕ) (xs : List ℕ) → since t xs ≤ length xs
since_le_length t [] = ground arith
since_le_length t (x ∷ xs) = ground (arith, since_le_length t xs)

since-append : (t x : ℕ) (xs : List ℕ) → since t (xs ++ x ∷ []) ≡ since t xs + since t (x ∷ [])
since-append t x [] = ground arith
since-append t x (y ∷ xs) = ground (arith, since-append t x xs)

length-append : (x : ℕ) (xs : List ℕ) → length (xs ++ x ∷ []) ≡ suc (length xs)
length-append x [] = refl
length-append x (y ∷ xs) = rw (length-append x xs) refl

-- What is dropped from an entry lies before the window.
since-select :
    (time t : ℕ) (xs : List ℕ) → time < t + 60 → since t (select (in_window time) xs) ≡ since t xs
since-select time t [] h = refl
since-select time t (x ∷ xs) h = ground (arith, since-select time t xs h)

All-weaken : (t x : ℕ) (ts : List ℕ) → x < t + 60 → All (λ s. s ≤ x) ts → All (λ s. s < t + 60) ts
All-weaken t x [] h all = tt
All-weaken t x (s ∷ ts) h all = (omega arith, All-weaken t x ts h all.1)

-- A request that is let through is the last of at most five in its entry; any other changes nothing
-- of what is counted.
limit_entry-since :
    (time t : ℕ) (entry granted : List ℕ)
    → time < t + 60
    → since t granted ≤ since t entry
    → let (let_through, entry') = limit_entry time entry in
      since t (if let_through then time ∷ granted else granted) ≤ since t entry'
unfolding limit_entry
limit_entry-since time t entry granted h le =
    ground (arith, since-select time t entry h, since-append t time (select (in_window time) entry))

limit_entry-length :
    (time : ℕ) (entry : List ℕ)
    → let (let_through, entry') = limit_entry time entry in let_through ≡ true → length entry' ≤ 5
unfolding limit_entry
limit_entry-length time entry =
    λ h. ground (arith, length-append time (select (in_window time) entry))

serve-since :
    (t : ℕ) (ts : List ℕ) → All (λ s. s < t + 60) ts → since t (serve ts).0 ≤ since t (serve ts).1
serve-since t [] h = ground arith
serve-since t (x ∷ ts) h =
    limit_entry-since x t (serve ts).1 (serve ts).0 h.0 (serve-since t ts h.1)

-- Of one entry's requests that are let through, at most five lie in any window.
serve-within :
    (ts : List ℕ) (t : ℕ) → IsOrdered ts → within t (serve ts).0 ≤ rate_limit_max_requests
serve-within [] t h = ground arith
serve-within (x ∷ ts) t h =
    let back = serve-within ts t h.1 in
    let entry = (serve ts).1 in
    elim (Bool-cases (limit_entry x entry).0) [
      | inr refused ↦ rw refused back
      | inl granted ↦ elim (Bool-cases (leb t x && ltb x (t + 60))) [
        | inr outside ↦ rw (granted, outside) back
        | inl inside ↦
            let counted =
              serve-since t (x ∷ ts) (ground arith, All-weaken t x ts (ground arith) h.0) in
            let short = limit_entry-length x entry granted in
            ground
              (arith, within_le_since t (serve (x ∷ ts)).0, since_le_length t (serve (x ∷ ts)).1)
      ]
    ]

-- The requests of all clients, newest first, each with its address and its time: those that the
-- handler lets through, and the limiter afterwards.
abbrev pub admit : List (ℕ × ℕ) → List (ℕ × ℕ) × Limiter
admit [] = ([], [])
admit ((ip, time) ∷ rs) =
    let (granted, limiter) = admit rs in
    let (answer, limiter') = enforce_get_invite_rate_limit ip time limiter in
    (elim answer [ ok _ ↦ (ip, time) ∷ granted | err _ ↦ granted ], limiter')

-- The times of one address.
abbrev pub times_of : ℕ → List (ℕ × ℕ) → List ℕ
times_of ip [] = []
times_of ip ((k, time) ∷ rs) = if k == ip then time ∷ times_of ip rs else times_of ip rs

entry_of-set_entry :
    (ip k : ℕ) (entry : List ℕ) (m : Limiter)
    → entry_of ip (set_entry k entry m) ≡ (if k == ip then entry else entry_of ip m)
entry_of-set_entry ip k entry [] = refl
entry_of-set_entry ip k entry ((j, e) ∷ m) = ground (arith, entry_of-set_entry ip k entry m)

admit-granted :
    (k time : ℕ) (rs : List (ℕ × ℕ))
    → let (granted, limiter) = admit rs in
      (admit ((k, time) ∷ rs)).0
      ≡ (if (limit_entry time (entry_of k limiter)).0 then (k, time) ∷ granted else granted)
unfolding enforce_get_invite_rate_limit
admit-granted k time rs = ground arith

admit-entry :
    (ip k time : ℕ) (rs : List (ℕ × ℕ))
    → let limiter = (admit rs).1 in
      entry_of ip (admit ((k, time) ∷ rs)).1
      ≡ (if k == ip then (limit_entry time (entry_of k limiter)).1 else entry_of ip limiter)
unfolding enforce_get_invite_rate_limit
admit-entry ip k time rs =
    entry_of-set_entry ip k (limit_entry time (entry_of k (admit rs).1)).1 (admit rs).1

-- One request of the address, or of another.
served :
    (ip k time : ℕ) (granted rs : List (ℕ × ℕ)) (entry other : List ℕ)
    → times_of ip granted ≡ (serve (times_of ip rs)).0
    → other ≡ (serve (times_of ip rs)).1
    → ((k == ip) ≡ true → entry ≡ other)
    → (times_of ip (if (limit_entry time entry).0 then (k, time) ∷ granted else granted)
        ≡ (serve (times_of ip ((k, time) ∷ rs))).0)
      × ((if k == ip then (limit_entry time entry).1 else other)
          ≡ (serve (times_of ip ((k, time) ∷ rs))).1)
served ip k time granted rs entry other g o h = elim (Bool-cases (k == ip)) [
  | inl own ↦
      rw (own, h own, o)
        (elim (Bool-cases (limit_entry time (serve (times_of ip rs)).1).0) [
          | inl let_through ↦ rw (let_through, own) (ap (λ xs. time ∷ xs) g, refl)
          | inr refused ↦ rw refused (g, refl)
        ])
  | inr foreign ↦ rw foreign (elim (Bool-cases (limit_entry time entry).0) [
    | inl let_through ↦ rw (let_through, foreign) (g, o)
    | inr refused ↦ rw refused (g, o)
  ])
]

-- The limiter treats each address as if it were the only one.
admit-serve :
    (ip : ℕ) (rs : List (ℕ × ℕ))
    → (times_of ip (admit rs).0 ≡ (serve (times_of ip rs)).0)
      × (entry_of ip (admit rs).1 ≡ (serve (times_of ip rs)).1)
admit-serve ip [] = (refl, refl)
admit-serve ip ((k, time) ∷ rs) =
    let (granted, limiter) = admit rs in
    let before = admit-serve ip rs in
    let one =
      served ip k time granted rs (entry_of k limiter) (entry_of ip limiter) before.0 before.1
        (λ own. ap (λ j. entry_of j limiter) (ground (arith, own))) in
    (ap (times_of ip) (admit-granted k time rs) ∙ one.0, admit-entry ip k time rs ∙ one.1)

-- Whatever other clients do, of one client's requests that the handler lets through at most five lie
-- in any window of 60 seconds, as long as the clock does not go back for this client. A client is
-- the address under which the limiter keeps it.
pub enforce_get_invite_rate_limit-within :
    (ip : ℕ) (rs : List (ℕ × ℕ)) (t : ℕ)
    → IsOrdered (times_of ip rs)
    → within t (times_of ip (admit rs).0) ≤ rate_limit_max_requests
enforce_get_invite_rate_limit-within ip rs t h =
    rw ((admit-serve ip rs).0) (serve-within (times_of ip rs) t h)
