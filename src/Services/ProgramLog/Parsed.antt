-- ===== src/Services/ProgramLog/Parsed.antt =====
-- What `parse_logs` of src/services/program_log.rs reads: a written event, and a log with a further
-- instruction.
use pactum_codex.Base.{
  ℕ, zero, suc, ◌+◌, ◌≤◌, ◌≡◌, refl, arith, String, Option, none, some, List, [], ◌∷◌, ◌++◌, length,
  inl, inr, Option-cases, false,
}
use pactum_codex.Services.SolanaPay.{codes}
use pactum_codex.Services.ProgramLog.{
  InstructionType, LogData, Parsing, strip_prefix, starts_with, trim_start, trim_start_matches,
  trim, from_str, parse_key_value, parse_line, parse_lines, parse_logs, initial,
}

-- The words of the on-chain program for an instruction.
abbrev pub instruction_name : InstructionType → String
instruction_name InstructionType.create_agreement = "CreateAgreement"
instruction_name InstructionType.sign_agreement = "SignAgreement"
instruction_name InstructionType.cancel_agreement = "CancelAgreement"
instruction_name InstructionType.expire_agreement = "ExpireAgreement"
instruction_name InstructionType.vote_revoke = "VoteRevoke"

abbrev pub instruction_line : List ℕ → List ℕ
instruction_line words = codes "Program log: Instruction: " ++ words

-- The log of an event in the format `key=value`.
abbrev pub print_event : InstructionType → List ℕ → List ℕ → List ℕ → List (List ℕ)
print_event i pda creator signer =
    instruction_line (codes (instruction_name i))
    ∷ (codes "Program log: agreement_pda=" ++ pda)
    ∷ (codes "Program log: creator=" ++ creator)
    ∷ (codes "Program log: signer=" ++ signer)
    ∷ []

from_str-trim : (i : InstructionType) → from_str (trim (codes (instruction_name i))) ≡ some i
unfolding from_str
from_str-trim InstructionType.create_agreement = refl
from_str-trim InstructionType.sign_agreement = refl
from_str-trim InstructionType.cancel_agreement = refl
from_str-trim InstructionType.expire_agreement = refl
from_str-trim InstructionType.vote_revoke = refl

shorter :
    (prefix s t : List ℕ) → strip_prefix prefix s ≡ some t → length t + length prefix ≤ length s
shorter [] s t e = ground arith
shorter (c ∷ cs) [] t e = ground arith
shorter (c ∷ cs) (d ∷ ds) t e = ground (arith, shorter cs ds t)

module _ (c : ℕ) (cs : List ℕ) where
  trim_start-none :
      (fuel : ℕ) (s : List ℕ)
      → length s ≤ fuel
      → strip_prefix (c ∷ cs) (trim_start fuel (c ∷ cs) s) ≡ none
  unfolding trim_start
  trim_start-none zero [] h = refl
  trim_start-none zero (d ∷ ds) h = ground arith
  trim_start-none (suc fuel) s h = elim (Option-cases (strip_prefix (c ∷ cs) s)) [
    | inl absent ↦ rw (absent, trim_start) absent
    | inr (t, there) ↦
        rw (there, trim_start) (trim_start-none fuel t (ground (arith, shorter (c ∷ cs) s t there)))
  ]

  -- The text that is left does not begin with the prefix: the recursion on the text's length goes on
  -- until the prefix is gone.
  pub trim_start_matches-none :
      (s : List ℕ) → starts_with (c ∷ cs) (trim_start_matches (c ∷ cs) s) ≡ false
  trim_start_matches-none s = rw (trim_start-none (length s) s (ground arith)) refl

module _ (name : List ℕ → ℕ) (from_json : List ℕ → Option LogData) where
  parse_lines-append :
      (logs more : List (List ℕ)) (p : Parsing)
      → parse_lines name from_json (logs ++ more) p
        ≡ parse_lines name from_json more (parse_lines name from_json logs p)
  unfolding parse_lines
  parse_lines-append [] more p = refl
  parse_lines-append (l ∷ logs) more p =
      parse_lines-append logs more (parse_line name from_json l p)

  -- A log that ends with an instruction that is not the program's own, as that of another program
  -- which it calls, is read as no event, whatever stands before.
  pub parse_logs_hidden :
      (signature : ℕ) (logs : List (List ℕ)) (words : List ℕ)
      → from_str (trim words) ≡ none
      → parse_logs name from_json signature (logs ++ instruction_line words ∷ []) ≡ none
  unfolding parse_logs parse_lines parse_line
  parse_logs_hidden signature logs words e =
      rw (parse_lines-append logs (instruction_line words ∷ []) (initial name from_json))
        (rw e refl)

  -- An event that is written line by line is read back, where no text begins with its own key.
  pub parse_logs-print_event :
      (signature : ℕ) (i : InstructionType) (pda creator signer : List ℕ)
      → strip_prefix (codes "agreement_pda=") pda ≡ none
      → strip_prefix (codes "creator=") creator ≡ none
      → strip_prefix (codes "signer=") signer ≡ none
      → parse_logs name from_json signature (print_event i pda creator signer)
        ≡ some (record {
          instruction = i;
          agreement_pda = name pda;
          creator = some (name creator);
          signer = some (name signer);
          parties = [];
        })
  unfolding parse_logs parse_lines parse_line parse_key_value trim_start
  parse_logs-print_event signature i pda creator signer e f g = rw (from_str-trim i, e, f, g) refl
