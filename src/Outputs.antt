-- ===== src/Outputs.antt =====
-- packages/core/structured_outputs.py: the answer of a judge. Validation by pydantic is a parameter.
pub mod Judged
mod Examples
use agent_coordination.Prelude.{
  Bool, List, String, Text, [], all_of, count_where, if◌then◌else◌, is_empty, keep_if, ltb, map,
  not, sort, ◌&&◌, ◌++◌, ◌∷◌,
}
use agent_coordination.Errors.{Error, Result, err, ok, value_error}
use agent_coordination.Domain.Data.{Format, judge, quote, word}
use agent_coordination.Domain.Keys.{text_beq}
use agent_coordination.Testing.{text_leb}
use agent_coordination.Selection.Similarity.{set_of, text_in}

pub record CandidateEvaluationOutput (F : Type 0) : Type 0 where
  pub candidate_id : Text
  pub correctness : F
  pub rigor : F
  pub novelty : F
  pub research_progress : F
  pub verifiability : F
  pub fatal_error : Bool
  pub judge_confidence : F
  pub critique : Text

pub record JudgeOutput (F : Type 0) : Type 0 where
  pub evaluations : List (CandidateEvaluationOutput F)

-- What `model_validate_json` does: it returns the model, or raises a ValidationError with a text.
pub data Validated (F : Type 0) : Type 0 where
  valid : JudgeOutput F → Validated F
  invalid : Text → Validated F

-- A StructuredOutputError is a ValueError with this message.
abbrev pub structured_output_error : String → Format → Error
structured_output_error output_kind detail =
    value_error (word "Invalid " ∷ word output_kind ∷ word " structured output: " ∷ detail)

abbrev pub candidate_ids : {F : Type 0} → JudgeOutput F → List Text
candidate_ids output = map (λ e. e.candidate_id) output.evaluations

-- `sorted(id for id, count in Counter(ids).items() if count > 1)`
unfoldable pub repeated_ids : List Text → List Text
unfolding keep_if count_where text_beq
repeated_ids ids = keep_if (λ id. ltb 1 (count_where (text_beq id) ids)) ids

unfoldable pub duplicate_ids : List Text → List Text
unfolding repeated_ids sort set_of text_leb
duplicate_ids ids = sort text_leb (set_of (repeated_ids ids))

-- `sorted(set(left) - set(right))`
unfoldable pub difference : List Text → List Text → List Text
unfolding sort set_of text_leb keep_if text_in
difference left right = sort text_leb (set_of (keep_if (λ id. not (text_in id right)) left))

-- `set(left) == set(right)`
unfoldable pub same_set : List Text → List Text → Bool
unfolding all_of text_in
same_set left right = all_of (λ id. text_in id right) left && all_of (λ id. text_in id left) right

module _ {F : Type 0} where
  -- What follows the validation. The lists in a message are written as their texts.
  unfoldable pub check_output : JudgeOutput F → List Text → Result (JudgeOutput F)
  unfolding duplicate_ids same_set difference
  check_output output expected_candidate_ids =
      let ids = candidate_ids output in
      if not (is_empty (duplicate_ids ids))
      then err (
          structured_output_error "judge"
            (word "duplicate candidate ids: " ∷ map quote (duplicate_ids ids)))
      else if not (same_set ids expected_candidate_ids)
      then err (
          structured_output_error "judge" (
            word "candidate set mismatch; missing="
            ∷ (map quote (difference expected_candidate_ids ids)
                ++ (word ", unexpected=" ∷ map quote (difference ids expected_candidate_ids)))))
      else ok output

  unfoldable pub parse_judge_output :
      (Text → Validated F) → Text → List Text → Result (JudgeOutput F)
  unfolding check_output
  parse_judge_output validate raw_response expected_candidate_ids = elim (validate raw_response) [
    | invalid message ↦ err (structured_output_error "judge" (quote message ∷ []))
    | valid output ↦ check_output output expected_candidate_ids
  ]
