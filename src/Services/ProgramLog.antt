-- ===== src/Services/ProgramLog.antt =====
-- The parser of the on-chain program's logs: src/services/program_log.rs. A line is the list of its
-- characters' codes. The JSON parser is serde's, and a parameter, as is `name`, which gives the
-- number that stands for a text in the rest of the model.
pub mod Parsed
mod Tests
use pactum_codex.Base.{
  bytes_eq, ℕ, zero, suc, Bool, true, false, ◌&&◌, ◌||◌, String, Option, none, some, List, [], ◌∷◌,
  ◌==◌, leb, length, if◌then◌else◌, is_some, unwrap_or,
}
use pactum_codex.Services.SolanaPay.{codes}

pub data InstructionType : Type 0 where
  create_agreement sign_agreement cancel_agreement expire_agreement vote_revoke : InstructionType

pub record ParsedEvent : Type 0 where
  pub instruction : InstructionType
  pub agreement_pda : ℕ
  pub creator : Option ℕ
  pub signer : Option ℕ
  pub parties : List ℕ

-- `LogData`
pub record LogData : Type 0 where
  pub agreement_pda : Option ℕ
  pub creator : Option ℕ
  pub signer : Option ℕ
  pub parties : Option (List ℕ)

-- One log as `logsSubscribe` delivers it.
pub record ProgramLog : Type 0 where
  pub signature : ℕ
  pub logs : List (List ℕ)

abbrev pub strip_prefix : List ℕ → List ℕ → Option (List ℕ)
strip_prefix [] s = some s
strip_prefix (c ∷ cs) [] = none
strip_prefix (c ∷ cs) (d ∷ ds) = if c == d then strip_prefix cs ds else none

abbrev pub starts_with : List ℕ → List ℕ → Bool
starts_with prefix s = is_some (strip_prefix prefix s)

-- The prefix is taken away as often as it is there, `fuel` times at most.
unfoldable pub trim_start : ℕ → List ℕ → List ℕ → List ℕ
trim_start zero prefix s = s
trim_start (suc fuel) prefix s = elim (strip_prefix prefix s) [
  | none ↦ s
  | some t ↦ trim_start fuel prefix t
]

-- `trim_start_matches`: a prefix that is not empty is there no more often than the text has characters.
abbrev pub trim_start_matches : List ℕ → List ℕ → List ℕ
trim_start_matches prefix s = trim_start (length s) prefix s

-- `char::is_whitespace`
abbrev pub is_whitespace : ℕ → Bool
is_whitespace c =
    (leb 9 c && leb c 13)
    || c == 32
    || c == 133
    || c == 160
    || c == 5760
    || (leb 8192 c && leb c 8202)
    || c == 8232
    || c == 8233
    || c == 8239
    || c == 8287
    || c == 12288

abbrev pub trim_left : List ℕ → List ℕ
trim_left [] = []
trim_left (c ∷ cs) = if is_whitespace c then trim_left cs else c ∷ cs

-- A character before a text that has been trimmed at its end.
abbrev pub trim_cons : ℕ → List ℕ → List ℕ
trim_cons c [] = if is_whitespace c then [] else c ∷ []
trim_cons c (d ∷ ds) = c ∷ d ∷ ds

abbrev pub trim_right : List ℕ → List ℕ
trim_right [] = []
trim_right (c ∷ cs) = trim_cons c (trim_right cs)

abbrev pub trim : List ℕ → List ℕ
trim s = trim_right (trim_left s)

unfoldable pub from_str : List ℕ → Option InstructionType
from_str s =
    if bytes_eq s (codes "CreateAgreement")
    then some InstructionType.create_agreement
    else if bytes_eq s (codes "SignAgreement")
    then some InstructionType.sign_agreement
    else if bytes_eq s (codes "CancelAgreement")
    then some InstructionType.cancel_agreement
    else if bytes_eq s (codes "ExpireAgreement")
    then some InstructionType.expire_agreement
    else if bytes_eq s (codes "VoteRevoke")
    then some InstructionType.vote_revoke
    else none

-- The variables of the loop of `parse_logs`.
pub record Parsing : Type 0 where
  pub instruction : Option InstructionType
  pub agreement_pda : Option ℕ
  pub creator : Option ℕ
  pub signer : Option ℕ
  pub parties : List ℕ

-- `if let Some(x) = new { old = Some(x) }`
abbrev pub or_keep : Option ℕ → Option ℕ → Option ℕ
or_keep none old = old
or_keep (some x) old = some x

abbrev pub set_data : Option LogData → Parsing → Parsing
set_data none p = p
set_data (some d) p = record p {
  agreement_pda = or_keep d.agreement_pda p.agreement_pda;
  creator = or_keep d.creator p.creator;
  signer = or_keep d.signer p.signer;
  parties = unwrap_or d.parties p.parties;
}

abbrev pub log_prefix : List ℕ
log_prefix = codes "Program log: "

module _ (name : List ℕ → ℕ) (from_json : List ℕ → Option LogData) where
  -- `key=value`, the prefix of the line taken off.
  unfoldable pub parse_key_value : List ℕ → Parsing → Parsing
  parse_key_value kv p =
      if starts_with (codes "agreement_pda=") kv
      then record p { agreement_pda = some (name (trim_start_matches (codes "agreement_pda=") kv)) }
      else if starts_with (codes "creator=") kv
      then record p { creator = some (name (trim_start_matches (codes "creator=") kv)) }
      else if starts_with (codes "signer=") kv
      then record p { signer = some (name (trim_start_matches (codes "signer=") kv)) }
      else p

  abbrev pub parse_json : List ℕ → Parsing → Parsing
  parse_json log p =
      if starts_with (codes "Program log: {") log
      then set_data (from_json (trim_start_matches log_prefix log)) p
      else p

  abbrev pub parse_rest : List ℕ → Option (List ℕ) → Parsing → Parsing
  parse_rest log none p = p
  parse_rest log (some kv) p = parse_key_value kv p

  -- The body of the loop. `o` is what follows the words that introduce an instruction.
  abbrev pub parse_line_from : List ℕ → Option (List ℕ) → Parsing → Parsing
  parse_line_from log (some instr_str) p = record p { instruction = from_str (trim instr_str) }
  parse_line_from log none p = parse_rest log (strip_prefix log_prefix log) (parse_json log p)

  unfoldable pub parse_line : List ℕ → Parsing → Parsing
  parse_line log p = parse_line_from log (strip_prefix (codes "Program log: Instruction: ") log) p

  unfoldable pub parse_lines : List (List ℕ) → Parsing → Parsing
  parse_lines [] p = p
  parse_lines (log ∷ logs) p = parse_lines logs (parse_line log p)

  abbrev pub event_of : ℕ → Parsing → Option InstructionType → Option ParsedEvent
  event_of signature p none = none
  event_of signature p (some instr) = some (record {
    instruction = instr;
    agreement_pda = unwrap_or p.agreement_pda signature;
    creator = p.creator;
    signer = p.signer;
    parties = p.parties;
  })

  abbrev pub initial : Parsing
  initial = record {
    instruction = none;
    agreement_pda = none;
    creator = none;
    signer = none;
    parties = [];
  }

  unfoldable pub parse_logs : ℕ → List (List ℕ) → Option ParsedEvent
  parse_logs signature logs = let p = parse_lines logs initial in event_of signature p p.instruction
