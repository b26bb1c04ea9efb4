-- ===== src/Services/ProgramLog/Tests.antt =====
-- The parser on small logs.
use pactum_codex.Base.{ℕ, ◌≡◌, refl, none, some, List, [], ◌∷◌, ◌++◌, length}
use pactum_codex.Services.SolanaPay.{codes}
use pactum_codex.Services.ProgramLog.{InstructionType, LogData, parse_logs, from_str}
use pactum_codex.Services.ProgramLog.Parsed.{
  instruction_line, print_event, parse_logs_hidden, parse_logs-print_event,
}
use pactum_codex.Base.{Option}

abbrev no_json : List ℕ → Option LogData
no_json s = none

abbrev signing : List (List ℕ)
signing = print_event InstructionType.sign_agreement (codes "A1") (codes "C1") (codes "S1")

parse_logs_hidden_example :
    parse_logs length no_json 7 (signing ++ instruction_line (codes "MintTo") ∷ []) ≡ none
unfolding from_str
parse_logs_hidden_example = parse_logs_hidden length no_json 7 signing (codes "MintTo") refl

parse_logs-print_event_example :
    parse_logs length no_json 7 signing
    ≡ some (record {
      instruction = InstructionType.sign_agreement;
      agreement_pda = 2;
      creator = some 2;
      signer = some 2;
      parties = [];
    })
parse_logs-print_event_example =
    parse_logs-print_event length no_json 7 InstructionType.sign_agreement (codes "A1") (codes "C1")
      (codes "S1") refl refl refl
