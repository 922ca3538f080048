-- ===== src/Tournament/Decisions.antt =====
-- `TournamentOrchestrator.finalize_run` on a generation that is not the last: the survivors are
-- selected, and the events that say so.
use agent_coordination.Store.{Tx, for_each, gets, pure, ◌>>=◌, ◌>>◌}
use agent_coordination.Prelude.{
  List, Option, [], count_where, if◌then◌else◌, is_empty, is_some, length, nat_eq, none, some,
  string_eq, ℕ, ◌&&◌, ◌==◌, ◌∷◌,
}
use agent_coordination.Store.Repositories.{
  add_selections, append_event, candidate_states_for_generation, selections_for_generation,
}
use agent_coordination.Tournament.Cast.{Externals}
use agent_coordination.Tournament.Start.{value_json}
use agent_coordination.Tournament.Selecting.{refuted_of, select_for}
use agent_coordination.Domain.Research.{Generation, Run, SelectionDecision}
use agent_coordination.Domain.Enums.{
  SelectionKind-discrete, branch_eliminated, branch_selected, diversity_analyzed,
  redundancy_detected, selection_completed, selection_kind_eq, wildcard, wildcard_selected,
}
use agent_coordination.Domain.Values.{selection_kind_value}
use agent_coordination.Domain.Data.{
  Fields, Json, ScoreVector, bool, end, field, float, ident, null, number, obj,
}
use agent_coordination.Floats.{Floats}

abbrev pub ident_or_null : Option ℕ → Json
ident_or_null none = null
ident_or_null (some id) = ident id

abbrev pub redundant_count : {F : Type 0} → List (SelectionDecision F) → ℕ
redundant_count decisions = count_where (λ d. is_some d.redundant_with_submission_id) decisions

module _ {F : Type 0} where
  module _ ⦃o : Floats F⦄ where
    abbrev pub float_json : F → Json
    float_json x = float (o.bits x)

    abbrev novelty_sum : F → List (SelectionDecision F) → F
    novelty_sum total [] = total
    novelty_sum total (d ∷ rest) = novelty_sum (o.add total d.novelty_score) rest

    -- `sum(item.novelty_score for item in decisions) / len(decisions)`. There is a decision, since a
    -- generation without submissions is refused.
    unfoldable pub mean_novelty : List (SelectionDecision F) → F
    mean_novelty decisions = o.over (novelty_sum o.zero decisions) (length decisions)

    abbrev pub score_fields : ScoreVector F → Fields
    score_fields v = field "fatal_error" (bool v.fatal_error) (
        field "correctness" (float_json v.correctness) (
          field "rigor" (float_json v.rigor) (
            field "judge_novelty" (float_json v.judge_novelty) (
              field "research_progress" (float_json v.research_progress) (
                field "verifiability" (float_json v.verifiability) (
                  field "judge_confidence" (float_json v.judge_confidence) (
                    field "text_novelty" (float_json v.text_novelty)
                      (field "max_text_similarity" (float_json v.max_text_similarity) end))))))))

    unfoldable pub log_redundancy : ℕ → Generation → SelectionDecision F → Tx F (Unit {0})
    unfolding append_event
    log_redundancy run generation d = elim d.redundant_with_submission_id [
      | none ↦ pure tt
      | some other ↦ append_event run redundancy_detected (
          field "generation_id" (ident generation.id) (
            field "submission_id" (ident d.submission_id) (
              field "redundant_with_submission_id" (ident other)
                (field "novelty_score" (float_json d.novelty_score) end))))
    ]

    unfoldable pub log_wildcard : ℕ → Generation → SelectionDecision F → Tx F (Unit {0})
    unfolding append_event SelectionKind-discrete
    log_wildcard run generation d =
        if d.selected && d.selection_kind == wildcard
        then append_event run wildcard_selected (
            field "generation_id" (ident generation.id)
              (field "submission_id" (ident d.submission_id) (field "rank" (number d.rank) end)))
        else pure tt

    -- The events of one decision.
    unfoldable pub log_decision : ℕ → Generation → SelectionDecision F → Tx F (Unit {0})
    unfolding append_event log_redundancy log_wildcard
    log_decision run generation d = do
      log_redundancy run generation d
      log_wildcard run generation d
      append_event run (if d.selected then branch_selected else branch_eliminated) (
          field "generation_id" (ident generation.id) (
            field "submission_id" (ident d.submission_id) (
              field "rank" (number d.rank) (
                field "score_vector" (obj (score_fields d.score_vector)) (
                  field "selection_kind" (value_json (selection_kind_value d.selection_kind)) (
                    field "novelty_score" (float_json d.novelty_score) (
                      field "redundant_with_submission_id"
                        (ident_or_null d.redundant_with_submission_id) end)))))))

    unfoldable pub decide : Externals → Run F → Generation → Tx F (List (SelectionDecision F))
    unfolding candidate_states_for_generation refuted_of select_for add_selections append_event
        mean_novelty for_each log_decision count_where
    decide ext run generation = do
      states ← gets (candidate_states_for_generation generation.id)
      decisions ← select_for ext run generation (refuted_of states)
      add_selections decisions
      append_event run.id diversity_analyzed (
          field "generation_id" (ident generation.id) (
            field "redundancy_threshold" (float_json run.redundancy_threshold) (
              field "redundant_count" (number (redundant_count decisions))
                (field "mean_novelty" (float_json (mean_novelty decisions)) end))))
      for_each (log_decision run.id generation) decisions
      append_event run.id selection_completed (
          field "generation_id" (ident generation.id) (
            field "selected" (number (count_where (λ d. d.selected) decisions))
              (field "population" (number (length decisions)) end)))
      pure decisions

    -- The decisions of an earlier call, or those that are made now.
    unfoldable pub ensure_decisions :
        Externals → Run F → Generation → Tx F (List (SelectionDecision F))
    unfolding selections_for_generation decide
    ensure_decisions ext run generation = do
      stored ← gets (selections_for_generation generation.id)
      if is_empty stored then decide ext run generation else pure stored
