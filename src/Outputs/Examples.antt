-- ===== src/Outputs/Examples.antt =====
-- A judge's answer on two candidates.
use agent_coordination.Prelude.{
  List, String, Text, [], all_of, codes, count_where, false, if◌then◌else◌, is_empty, keep_if, refl,
  sort, ℕ, ◌∷◌, ◌≡◌,
}
use agent_coordination.Errors.{ok}
use agent_coordination.Outputs.{
  CandidateEvaluationOutput, JudgeOutput, Validated, candidate_ids, check_output, duplicate_ids,
  invalid, parse_judge_output, repeated_ids, same_set, valid,
}
use agent_coordination.Outputs.Judged.{parse_judge_output_covers, times_expected}
use agent_coordination.Domain.Keys.{text_beq}
use agent_coordination.Selection.Similarity.{set_of, text_in}

abbrev judged : String → CandidateEvaluationOutput ℕ
judged id = record {
  candidate_id = codes id;
  correctness = 1;
  rigor = 1;
  novelty = 1;
  research_progress = 1;
  verifiability = 1;
  fatal_error = false;
  judge_confidence = 1;
  critique = codes "good";
}

abbrev answer : JudgeOutput ℕ
answer = record { evaluations = judged "b" ∷ judged "a" ∷ [] }

abbrev validate : Text → Validated ℕ
validate t = if is_empty t then invalid (codes "empty") else valid answer

abbrev expected : List Text
expected = codes "a" ∷ codes "b" ∷ []

accepted : parse_judge_output validate (codes "json") expected ≡ ok answer
unfolding parse_judge_output check_output duplicate_ids repeated_ids same_set keep_if count_where
    all_of text_in text_beq set_of sort
accepted = refl

parse_judge_output_covers_example :
    (validate (codes "json") ≡ valid answer)
    × ((id : Text) → count_where (text_beq id) (candidate_ids answer) ≡ times_expected id expected)
parse_judge_output_covers_example =
    parse_judge_output_covers validate (codes "json") expected answer accepted
