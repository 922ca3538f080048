-- ===== src/Verification/Examples.antt =====
-- A submission with one supported claim and one Python block, and a critic's finding on it.
use agent_coordination.Prelude.{
  All, Bool, List, Option, Text, [], all_of, codes, false, inl, inr, is_space, keep_if, lstrip,
  none, refl, some, true, ℕ, ◌↔◌, ◌∷◌, ◌≡◌,
}
use agent_coordination.Verification.Fences.Found.{
  IsSection, Section, document, python_blocks-document,
}
use agent_coordination.Verification.Fences.{python_blocks}
use agent_coordination.Verification.Gate.{PassesGate, verify-passed}
use agent_coordination.Verification.{corpus, overall_status, verify}
use agent_coordination.Testing.Paths.{contains_text, starts_with}
use agent_coordination.Domain.Enums.{failed, passed}
use agent_coordination.Domain.Research.{ClaimDraft, CriticFinding, Submission, VerificationResult}

abbrev supported_claim : ClaimDraft ℕ
supported_claim = record {
  statement = codes "n is even";
  confidence = some 900;
  support = some (codes "by parity");
}

abbrev candidate : Submission ℕ
candidate = record {
  agent_id = 4;
  summary = codes "s";
  approach = codes "a";
  claims = supported_claim ∷ [];
  evidence = codes "```Python\nx = 1```" ∷ [];
  discoveries = [];
  failed_attempts = [];
  open_questions = [];
  final_answer = some (codes "42");
  raw_response = [];
  id = 9;
}

abbrev harmless : CriticFinding ℕ
harmless = record {
  generation_id = 2;
  critic_agent_id = 5;
  submission_id = 9;
  fatal_error = false;
  confidence = 800;
  critique = codes "no error found";
  counterexample = none;
  id = 11;
}

-- A compiler that refuses the empty block alone.
abbrev refuses_empty : Text → Option Text
refuses_empty [] = some (codes "invalid syntax")
refuses_empty (c ∷ s) = none

program : Bool
unfolding verify overall_status is_space keep_if
program = true

blocks_of_candidate : python_blocks (corpus candidate) ≡ codes "x = 1" ∷ []
unfolding program
blocks_of_candidate = refl

candidate_passes :
    overall_status (verify 1 2 candidate refuses_empty 21 22 23 (harmless ∷ [])) ≡ passed
unfolding program
candidate_passes = refl

-- tests/unit/test_verification_engine.py: a fatal finding wins over the other checks.
fatal_finding_fails :
    overall_status
      (verify 1 2 candidate refuses_empty 21 22 23 (record harmless { fatal_error = true } ∷ []))
    ≡ failed
unfolding program
fatal_finding_fails = refl

abbrev two_sections : List Section
two_sections =
    record {
      prose = codes "Try `x`: ";
      tag = codes "Python";
      space = codes " ";
      block = codes "x = 1";
    }
    ∷ record { prose = codes " or "; tag = codes "python"; space = []; block = codes "y" }
    ∷ []

two_sections-All : All IsSection two_sections
unfolding contains_text starts_with all_of is_space lstrip
two_sections-All = (
  record {
    plain_prose = refl;
    python_tag = (inr refl, (inl refl, (inl refl, (inl refl, (inl refl, (inl refl, tt))))));
    blank_space = refl;
    no_lead = refl;
    plain_block = refl;
  },
  (
    record {
      plain_prose = refl;
      python_tag = (inl refl, (inl refl, (inl refl, (inl refl, (inl refl, (inl refl, tt))))));
      blank_space = refl;
      no_lead = refl;
      plain_block = refl;
    },
    tt,
  ),
)

plain_ending : contains_text (codes "```") (codes " done.") ≡ false
unfolding contains_text starts_with
plain_ending = refl

python_blocks-document_example :
    python_blocks (document two_sections (codes " done.")) ≡ codes "x = 1" ∷ codes "y" ∷ []
python_blocks-document_example =
    python_blocks-document two_sections (codes " done.") two_sections-All plain_ending

abbrev sample_results : List VerificationResult
sample_results = verify 1 2 candidate refuses_empty 21 22 23 (harmless ∷ [])

verify-passed_example :
    (overall_status (verify 1 2 candidate refuses_empty 21 22 23 (harmless ∷ [])) ≡ passed)
    ↔ PassesGate 1 2 candidate refuses_empty (harmless ∷ [])
verify-passed_example = verify-passed 1 2 candidate refuses_empty 21 22 23 (harmless ∷ [])
