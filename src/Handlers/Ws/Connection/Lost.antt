-- ===== src/Handlers/Ws/Connection/Lost.antt =====
-- Two connections of one user: src/handlers/ws.rs.
use pactum_codex.Base.{
  ℕ, zero, suc, ◌+◌, ◌≤◌, ◌≡◌, ◌≢◌, ◌⊎◌, ◌∙◌, refl, ap, arith, Bool, true, false, none, List, [],
  ◌∷◌, ◌==◌, not, find, exists, delete_where, length, Bool-cases, Option-cases, inl, inr,
  exists-delete_where-false, exists-delete_where_other, exists_weaker, find-none, delete_where-lt,
  deleted,
}
use pactum_codex.Handlers.Ws.Connection.{
  Connection, Server, same, of_user, upgrade, finish, is_orphan, settle,
}

same_refl : (c : Connection) → same c c ≡ true
same_refl c = ground arith

find_empty : (p : Connection → Bool) (xs : List Connection) → length xs ≤ 0 → find p xs ≡ none
find_empty p [] h = refl
find_empty p (x ∷ xs) h = absurd (omega arith)

-- As many rounds as there are connections are enough: none is left that has lost its sender.
pub settle_quiet :
    (n : ℕ) (s : Server)
    → length s.live ≤ n
    → exists (is_orphan (settle n s)) (settle n s).live ≡ false
unfolding settle finish
settle_quiet zero s h = find-none (is_orphan s) s.live (find_empty (is_orphan s) s.live h)
settle_quiet (suc n) s h = elim (Option-cases (find (is_orphan s) s.live)) [
  | inl quiet ↦ rw (quiet, settle) (find-none (is_orphan s) s.live quiet)
  | inr (c, e) ↦
      rw (e, settle)
        (settle_quiet n (finish c s)
          (omega (arith, delete_where-lt (is_orphan s) (same c) s.live c e (same_refl c))))
]

-- A connection that has lost its sender ends, or has taken the sender of its user with it.
record IsLost (c : Connection) (s : Server) : Type 0 where
  unsent : exists (same c) s.channels ≡ false
  ended : (exists (same c) s.live ≡ true) ⊎ (exists (of_user c.user) s.channels ≡ false)

other_user : (c d x : Connection) → (d.user == c.user) ≡ false → same c x ≡ true → same d x ≡ false
other_user c d x h e = ground arith

finish-IsLost : (c d : Connection) (s : Server) → IsLost c s → IsLost c (finish d s)
unfolding finish
finish-IsLost c d s l = record {
  unsent = exists-delete_where-false (same c) (of_user d.user) s.channels l.unsent;
  ended = elim (Bool-cases (d.user == c.user)) [
    | inl own ↦ inr (
        exists_weaker (of_user c.user) (of_user d.user) (λ x e. ground arith)
          (delete_where (of_user d.user) s.channels) (deleted (of_user d.user) s.channels))
    | inr other ↦ elim l.ended [
      | inl there ↦ inl (
          exists-delete_where_other (same c) (same d) (λ x e. other_user c d x other e) s.live
          ∙ there)
      | inr gone ↦ inr (exists-delete_where-false (of_user c.user) (of_user d.user) s.channels gone)
    ]
  ];
}

settle-IsLost : (n : ℕ) (c : Connection) (s : Server) → IsLost c s → IsLost c (settle n s)
unfolding settle
settle-IsLost zero c s l = l
settle-IsLost (suc n) c s l = elim (Option-cases (find (is_orphan s) s.live)) [
  | inl quiet ↦ rw (quiet, settle) l
  | inr (d, e) ↦ rw (e, settle) (settle-IsLost n c (finish d s) (finish-IsLost c d s l))
]

-- Where no connection that has lost its sender runs, the loss is complete.
quiet-gone :
    (c : Connection) (s : Server)
    → IsLost c s
    → exists (is_orphan s) s.live ≡ false
    → (exists (of_user c.user) s.channels ≡ false) × (exists (of_user c.user) s.live ≡ false)
quiet-gone c s l quiet =
    let idle : exists (same c) s.live ≡ false =
      exists_weaker (same c) (is_orphan s)
        (λ x e. ap not (exists_weaker (same x) (same c) (λ y k. ground arith) s.channels l.unsent))
        s.live quiet in
    let gone : exists (of_user c.user) s.channels ≡ false = elim l.ended [
      | inl there ↦ absurd (ground arith)
      | inr gone ↦ gone
    ] in
    (
      gone,
      exists_weaker (of_user c.user) (is_orphan s)
          (λ x e.
            ap not (exists_weaker (same x) (of_user c.user) (λ y k. ground arith) s.channels gone))
          s.live quiet,
    )

-- Where a user has a connection and opens a second one, both end: once the connections that have
-- lost their sender have ended, the user has no connection and no channel.
pub second_connection_lost :
    (c d : Connection) (s : Server)
    → exists (same c) s.live ≡ true
    → d.user ≡ c.user
    → d.id ≢ c.id
    → let t = settle (length s.live + 1) (upgrade d s) in
      (exists (of_user c.user) t.channels ≡ false) × (exists (of_user c.user) t.live ≡ false)
unfolding upgrade
second_connection_lost c d s there own distinct =
    quiet-gone c (settle (length s.live + 1) (upgrade d s))
      (settle-IsLost (length s.live + 1) c (upgrade d s) (record {
        unsent = ground (
          arith,
          exists_weaker (same c) (of_user d.user) (λ x e. ground arith)
              (delete_where (of_user d.user) s.channels) (deleted (of_user d.user) s.channels),
        );
        ended = inl (ground arith);
      }))
      (settle_quiet (length s.live + 1) (upgrade d s) (omega arith))
