-- ===== src/Config/Tests.antt =====
-- An environment in which every variable has the same text.
use text.Mathlib.Text.{◌==◌ as str_eq}
use pactum_codex.Base.{ℕ, ◌≡◌, refl, true, is_some, if◌then◌else◌, Option, none, some, List}
use pactum_codex.Services.SolanaPay.{codes}
use pactum_codex.Config.Environment.{
  Environment, scan, parse_uint, database_url, stablecoin, stablecoin_registry, from_env,
}

abbrev pub sevens : Environment
sevens v = if str_eq v "PGPASSWORD_FILE" then none else some (codes "7")

abbrev none_there : List ℕ → Option (List ℕ)
none_there path = some (codes "secret")

numbers :
    (parse_uint 65535 (codes "8080") ≡ some 8080)
    × (parse_uint 65535 (codes "+8080") ≡ some 8080)
    × (parse_uint 65535 (codes "65536") ≡ none)
    × (parse_uint 65535 (codes "-1") ≡ none)
unfolding parse_uint scan
numbers = (refl, refl, refl, refl)

-- Such a process starts.
starts : is_some (from_env (λ t. 1) (λ t. some 1) none_there sevens) ≡ true
unfolding from_env database_url stablecoin_registry stablecoin parse_uint scan
starts = refl
