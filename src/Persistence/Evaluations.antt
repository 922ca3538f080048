-- ===== src/Persistence/Evaluations.antt =====
-- The tables of the evaluations and the decisions of a selection: packages/persistence/models.py, the mappers of
-- packages/persistence/mappers.py, and the repositories of packages/persistence/repositories.py.
use agent_coordination.Prelude.{
  Bool, List, Option, String, Text, any_of, nat_eq, refl, string_eq, ℕ, ◌&&◌, ◌==◌, ◌≡◌,
}
use agent_coordination.Errors.{Result, ok, ◌>>=◌}
use agent_coordination.Persistence.Sql.{Codec, insert_many, insert_one, select_in, select_rows}
use agent_coordination.Persistence.Columns.{selection_kind_of, selection_kind_of_value}
use agent_coordination.Persistence.Agents.{AgentRecord, is_agent_in}
use agent_coordination.Persistence.Submissions.{SubmissionRecord}
use agent_coordination.Domain.Data.{ScoreVector}
use agent_coordination.Domain.Values.{selection_kind_value}
use agent_coordination.Domain.Research.{Evaluation, SelectionDecision}
use agent_coordination.Floats.{by_number}

pub record EvaluationRecord (F : Type 0) : Type 0 where
  pub id : ℕ
  pub submission_id : ℕ
  pub judge_agent_id : ℕ
  pub correctness : F
  pub rigor : F
  pub novelty : F
  pub research_progress : F
  pub verifiability : F
  pub fatal_error : Bool
  pub judge_confidence : F
  pub critique : Text
  pub created_at : ℕ

pub record SelectionDecisionRecord (F : Type 0) : Type 0 where
  pub id : ℕ
  pub generation_id : ℕ
  pub submission_id : ℕ
  pub selected : Bool
  pub rank : ℕ
  pub score_vector : ScoreVector F
  pub reason : String
  pub selection_kind : String
  pub novelty_score : F
  pub redundant_with_submission_id : Option ℕ
  pub created_at : ℕ

module _ {F : Type 0} where
  -- The record that `add` makes.
  unfoldable pub evaluation_record : ℕ → Evaluation F → EvaluationRecord F
  evaluation_record now e = record {
    id = e.id;
    submission_id = e.submission_id;
    judge_agent_id = e.judge_agent_id;
    correctness = e.correctness;
    rigor = e.rigor;
    novelty = e.novelty;
    research_progress = e.research_progress;
    verifiability = e.verifiability;
    fatal_error = e.fatal_error;
    judge_confidence = e.judge_confidence;
    critique = e.critique;
    created_at = now;
  }

  unfoldable pub evaluation_from_record : EvaluationRecord F → Result (Evaluation F)
  evaluation_from_record r = ok (record {
    submission_id = r.submission_id;
    judge_agent_id = r.judge_agent_id;
    correctness = r.correctness;
    rigor = r.rigor;
    novelty = r.novelty;
    research_progress = r.research_progress;
    verifiability = r.verifiability;
    fatal_error = r.fatal_error;
    judge_confidence = r.judge_confidence;
    critique = r.critique;
    id = r.id;
  })

  pub evaluation_round_trip :
      (now : ℕ) (e : Evaluation F) → evaluation_from_record (evaluation_record now e) ≡ ok e
  unfolding evaluation_record evaluation_from_record
  evaluation_round_trip now e = refl

  pub evaluation_same_key :
      (now : ℕ) (e : Evaluation F)
      → ((evaluation_record now e).id ≡ e.id) × ((evaluation_record now e).created_at ≡ now)
  unfolding evaluation_record
  evaluation_same_key now e = (refl, refl)

  abbrev pub evaluation_codec : Codec (Evaluation F) (EvaluationRecord F)
  evaluation_codec = record {
    entity_id = λ e. e.id;
    record_id = λ r. r.id;
    created_at = λ r. r.created_at;
    to_record = evaluation_record;
    from_record = evaluation_from_record;
    same_id = λ now e. (evaluation_same_key now e).0;
    same_time = λ now e. (evaluation_same_key now e).1;
    round_trip = evaluation_round_trip;
  }

  unfoldable pub add_evaluation :
      ℕ
      → Evaluation F
      → List (EvaluationRecord F)
      → Result (Evaluation F × List (EvaluationRecord F))
  unfolding insert_one
  add_evaluation = insert_one evaluation_codec

  unfoldable pub list_evaluations_for_submission :
      ℕ → List (EvaluationRecord F) → Result (List (Evaluation F))
  unfolding select_rows
  list_evaluations_for_submission id = select_rows evaluation_codec (λ r. r.submission_id == id)

  -- The join with the submissions and their agents.
  unfoldable pub list_evaluations :
      ℕ
      → List AgentRecord
      → List (SubmissionRecord F)
      → List (EvaluationRecord F)
      → Result (List (Evaluation F))
  unfolding select_rows is_agent_in any_of
  list_evaluations generation agents submissions = select_rows evaluation_codec λ r.
      any_of (λ s. s.id == r.submission_id && is_agent_in generation agents s.agent_id) submissions

  -- The record that `add` makes.
  unfoldable pub selection_record : ℕ → SelectionDecision F → SelectionDecisionRecord F
  selection_record now s = record {
    id = s.id;
    generation_id = s.generation_id;
    submission_id = s.submission_id;
    selected = s.selected;
    rank = s.rank;
    score_vector = s.score_vector;
    reason = s.reason;
    selection_kind = selection_kind_value s.selection_kind;
    novelty_score = s.novelty_score;
    redundant_with_submission_id = s.redundant_with_submission_id;
    created_at = now;
  }

  unfoldable pub selection_from_record : SelectionDecisionRecord F → Result (SelectionDecision F)
  unfolding selection_kind_of
  selection_from_record r = do
    selection_kind ← selection_kind_of r.selection_kind
    ok (record {
      generation_id = r.generation_id;
      submission_id = r.submission_id;
      selected = r.selected;
      rank = r.rank;
      score_vector = r.score_vector;
      reason = r.reason;
      selection_kind = selection_kind;
      novelty_score = r.novelty_score;
      redundant_with_submission_id = r.redundant_with_submission_id;
      id = r.id;
    })

  pub selection_round_trip :
      (now : ℕ) (s : SelectionDecision F) → selection_from_record (selection_record now s) ≡ ok s
  unfolding selection_record selection_from_record
  selection_round_trip now s = rw (selection_kind_of_value s.selection_kind) refl

  pub selection_same_key :
      (now : ℕ) (s : SelectionDecision F)
      → ((selection_record now s).id ≡ s.id) × ((selection_record now s).created_at ≡ now)
  unfolding selection_record
  selection_same_key now s = (refl, refl)

  abbrev pub selection_codec : Codec (SelectionDecision F) (SelectionDecisionRecord F)
  selection_codec = record {
    entity_id = λ s. s.id;
    record_id = λ r. r.id;
    created_at = λ r. r.created_at;
    to_record = selection_record;
    from_record = selection_from_record;
    same_id = λ now s. (selection_same_key now s).0;
    same_time = λ now s. (selection_same_key now s).1;
    round_trip = selection_round_trip;
  }

  unfoldable pub add_selections :
      ℕ
      → List (SelectionDecision F)
      → List (SelectionDecisionRecord F)
      → Result (List (SelectionDecision F) × List (SelectionDecisionRecord F))
  unfolding insert_many
  add_selections = insert_many selection_codec

  unfoldable pub list_selections :
      ℕ → List (SelectionDecisionRecord F) → Result (List (SelectionDecision F))
  unfolding select_in
  list_selections generation =
      select_in selection_codec (by_number (λ (r : SelectionDecisionRecord F). r.rank))
        (λ r. r.generation_id == generation)
