-- ===== src/Verification.antt =====
-- packages/core/verification/engine.py. The Python compiler and the search for fenced blocks by a
-- regular expression are the standard library's: `Fences` says what `_PYTHON_BLOCK` matches, and the
-- compiler is a parameter.
pub mod Fences
pub mod Verdicts
pub mod Gate
mod Examples
use agent_coordination.Prelude.{
  All, Bool, List, Option, String, Text, [], all_of, any_of, codes, if◌then◌else◌, is_empty, join,
  keep_if, length, map, nat_beq, nat_eq, none, not, or_empty, some, string_eq, strip, take, true, ℕ,
  ◌&&◌, ◌+◌, ◌==◌, ◌||◌, ◌∷◌,
}
use agent_coordination.Domain.Data.{
  Fields, Format, arr, critic, end, field, formats, idents, num, number, quote, texts, word,
}
use agent_coordination.Domain.Enums.{
  VerificationKind, VerificationStatus, VerificationStatus-discrete, adversarial_check, failed,
  inconclusive, passed, python_compile, structured_evidence, verification_status_eq,
}
use agent_coordination.Domain.Research.{ClaimDraft, CriticFinding, Submission, VerificationResult}
use agent_coordination.Verification.Fences.{python_blocks}

-- `not text or not text.strip()`
unfoldable pub is_blank : Option Text → Bool
unfolding strip
is_blank none = true
is_blank (some t) = is_empty t || is_empty (strip t)

unfoldable pub unsupported_claims : {F : Type 0} → List (ClaimDraft F) → List Text
unfolding is_blank
unsupported_claims claims = map (λ c. c.statement) (keep_if (λ c. is_blank c.support) claims)

-- `"\n".join([final_answer or "", *evidence])`
unfoldable pub corpus : {F : Type 0} → Submission F → Text
unfolding join or_empty
corpus submission = join (codes "\n") (or_empty submission.final_answer ∷ submission.evidence)

-- The loop over the blocks. `syntax_error` is the text of the SyntaxError of `compile`, if it raises one.
module _ (syntax_error : Text → Option Text) where
  unfoldable pub block_errors : ℕ → List Text → List Format
  block_errors index [] = []
  block_errors index (block ∷ blocks) =
      let rest = block_errors (index + 1) blocks in
      elim (syntax_error block) [
        | none ↦ rest
        | some message ↦ (word "block " ∷ num index ∷ word ": " ∷ quote message ∷ []) ∷ rest
      ]

-- The results to which `results.append(python_result)` adds, if there is one.
abbrev pub option_list : Option VerificationResult → List VerificationResult
option_list none = []
option_list (some r) = r ∷ []

-- A VerificationResult before the database numbers it. `metadata` is kept as JSON.
module _ {F : Type 0} (run_id generation_id : ℕ) (submission : Submission F) where
  -- The fields that every result of one call shares. `id` is the fresh `uuid4()`.
  abbrev pub result_of :
      ℕ → VerificationKind → VerificationStatus → String → Fields → VerificationResult
  result_of id kind status detail metadata = record {
    run_id = run_id;
    generation_id = generation_id;
    submission_id = submission.id;
    kind = kind;
    status = status;
    detail = word detail ∷ [];
    metadata = metadata;
    id = id;
  }

  unfoldable pub verify_adversarial : ℕ → List (CriticFinding F) → VerificationResult
  verify_adversarial id findings =
      let relevant = keep_if (λ f. nat_beq f.submission_id submission.id) findings in
      let fatal = keep_if (λ f. f.fatal_error) relevant in
      if not (is_empty fatal)
      then result_of id adversarial_check failed "A dedicated critic reported a fatal error."
          (field "critic_finding_ids" (arr (idents (map (λ f. f.id) fatal))) end)
      else if not (is_empty relevant)
      then result_of id adversarial_check passed
          "Configured adversarial critics found no fatal error."
          (field "critic_finding_ids" (arr (idents (map (λ f. f.id) relevant))) end)
      else result_of id adversarial_check inconclusive "No dedicated critic finding is available."
          end

  unfoldable pub verify_structured_evidence : ℕ → VerificationResult
  unfolding unsupported_claims
  verify_structured_evidence id =
      if is_blank submission.final_answer
      then result_of id structured_evidence inconclusive "Candidate has no explicit final answer."
          end
      else let unsupported = unsupported_claims submission.claims in
        if not (is_empty unsupported)
        then result_of id structured_evidence inconclusive
            "One or more structured claims lack explicit support."
            (field "unsupported_claims" (arr (texts (take 8 unsupported))) end)
        else result_of id structured_evidence passed
            "Candidate has an explicit answer and all structured claims have support."
            (field "claim_count" (number (length submission.claims))
              (field "evidence_count" (number (length submission.evidence)) end))

  -- `compile(block, ...)` as the text of its SyntaxError, if it raises one.
  module _ (syntax_error : Text → Option Text) where
    -- The result for the blocks that were found.
    unfoldable pub blocks_result : ℕ → List Text → Option VerificationResult
    unfolding block_errors
    blocks_result id blocks =
        if is_empty blocks
        then none
        else let errors = block_errors syntax_error 0 blocks in
          if not (is_empty errors)
          then some (
              result_of id python_compile failed "Candidate Python snippet failed compilation."
                (field "errors" (arr (formats errors)) end))
          else some (
              result_of id python_compile passed "All candidate Python snippets compile."
                (field "block_count" (number (length blocks)) end))

    unfoldable pub verify_python : ℕ → Option VerificationResult
    unfolding blocks_result corpus python_blocks
    verify_python id = blocks_result id (python_blocks (corpus submission))

    -- The three ids are the fresh ones of the results, in order.
    unfoldable pub verify : ℕ → ℕ → ℕ → List (CriticFinding F) → List VerificationResult
    unfolding verify_adversarial verify_structured_evidence verify_python
    verify id id' id'' findings =
        verify_adversarial id findings
        ∷ verify_structured_evidence id'
        ∷ option_list (verify_python id'')

unfoldable pub overall_status : List VerificationResult → VerificationStatus
unfolding VerificationStatus-discrete any_of all_of
overall_status results =
    if any_of (λ r. r.status == failed) results
    then failed
    else if not (is_empty results) && all_of (λ r. r.status == passed) results
    then passed
    else inconclusive
