-- ===== src/Handlers/User/DisplayName.antt =====
-- The test of a display name: src/handlers/user.rs.
use pactum_codex.Base.{
  ℕ, ◌≡◌, refl, arith, List, length, leb, exists, Bool-cases, inl, inr, ◌≤◌, false,
}
use pactum_codex.State.World.{OnOk}
use pactum_codex.Handlers.User.{is_html, sanitise_display_name}

-- A name that passes has at most 64 bytes and none of the five that HTML gives a meaning.
sanitise_display_name-ok :
    (name : List ℕ)
    → OnOk (sanitise_display_name name) (λ _. (length name ≤ 64) × (exists is_html name ≡ false))
unfolding sanitise_display_name
sanitise_display_name-ok name = elim (Bool-cases (leb (length name) 64)) [
  | inl short ↦ elim (Bool-cases (exists is_html name)) [
    | inl html ↦ rw (short, html, OnOk) tt
    | inr plain ↦ rw (short, plain, OnOk) (ground arith, refl)
  ]
  | inr long ↦ rw (long, OnOk) tt
]
