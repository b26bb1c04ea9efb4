-- ===== src/Startup/Tests.antt =====
-- A start in which every variable and every key is the same text.
use pactum_codex.Base.{◌≡◌, refl, true, some, [], ◌∷◌}
use pactum_codex.Config.Tests.{sevens}
use pactum_codex.Config.Environment.{
  scan, parse_uint, database_url, stablecoin, stablecoin_registry, from_env,
}
use pactum_codex.Services.SolanaPay.{codes}
use pactum_codex.Startup.{
  Outside, Task, main, bootstrap_state, load_required_config, load_required_keypair, load_keypair,
  validate_keypair_pubkeys,
}
use pactum_codex.Startup.Ready.{OnServing, IsReady, main-IsReady}

abbrev out : Outside
out = record {
  env = sevens;
  read_to_string = λ path. some [];
  parse_bytes =
      λ json. some (codes "0123456789abcdef0123456789abcdef0123456789abcdef0123456789abcdef");
  try_from = λ bytes. some (codes "7");
  describe = λ path. "";
  connects = λ url. true;
  migrates = true;
  binds = λ host port. true;
  schedule = λ k. Task.starts k ∷ [];
  name = λ t. 1;
  parse_sol = λ t. some 1;
}

main-IsReady_example : OnServing (main out) (IsReady out)
main-IsReady_example = main-IsReady out

-- Such a process serves.
serves : OnServing (main out) (λ state s. state.vault_pubkey ≡ codes "7")
unfolding main bootstrap_state load_required_config load_required_keypair load_keypair
    validate_keypair_pubkeys from_env database_url stablecoin_registry stablecoin parse_uint scan
serves = refl
