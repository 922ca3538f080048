-- ===== src/Tournament/Selecting.antt =====
-- The calls of `TournamentPolicy.select` in packages/core/orchestration/tournament.py, and the
-- survivors of its decisions.
use agent_coordination.Store.{Tx, after_draws, gets, pure, ◌>>=◌, ◌>>◌}
use agent_coordination.Prelude.{
  List, [], if◌then◌else◌, keep_if, length, map, nat_eq, none, some, sort, string_eq, suc, ℕ, ◌+◌,
  ◌==◌, ◌∷◌,
}
use agent_coordination.Store.Repositories.{
  append_event, candidate_state_for_submission, evaluations_for_generation,
  submissions_for_generation, update_candidate_status,
}
use agent_coordination.Tournament.Cast.{Externals}
use agent_coordination.Tournament.Start.{value_json}
use agent_coordination.Selection.Policy.{decisions, select}
use agent_coordination.Domain.Research.{
  CandidateState, Generation, Run, SelectionDecision, Submission,
}
use agent_coordination.Domain.Enums.{
  CandidateLifecycle, CandidateLifecycle-discrete, candidate_lifecycle_eq, candidate_status_changed,
  refuted,
}
use agent_coordination.Domain.Values.{candidate_value}
use agent_coordination.Domain.Data.{Fields, end, field, ident}
use agent_coordination.Floats.{Floats, by_number}

-- `{state.submission_id for state in states if state.status == CandidateLifecycle.REFUTED}`
unfoldable pub refuted_of : List CandidateState → List ℕ
unfolding keep_if CandidateLifecycle-discrete
refuted_of states = map (λ c. c.submission_id) (keep_if (λ c. c.status == refuted) states)

-- The payload of a CANDIDATE_STATUS_CHANGED event.
abbrev pub candidate_payload : ℕ → CandidateLifecycle → ℕ → Fields
candidate_payload submission status generation = field "submission_id" (ident submission) (
    field "status" (value_json (candidate_value status))
      (field "generation_id" (ident generation) end))

module _ {F : Type 0} where
  -- `sorted((item for item in decisions if item.selected), key=lambda item: item.rank)`
  unfoldable pub survivors : List (SelectionDecision F) → List (SelectionDecision F)
  unfolding sort keep_if
  survivors decisions =
      sort (by_number (λ (d : SelectionDecision F). d.rank)) (keep_if (λ d. d.selected) decisions)

  -- The place of a submission in a list.
  unfoldable pub place_of : ℕ → List (Submission F) → ℕ
  place_of id [] = 0
  place_of id (s ∷ rest) = if s.id == id then 0 else suc (place_of id rest)

  -- `self.policy.select(...)`. Each decision gets the fresh number of its submission's place.
  unfoldable pub select_for :
      ⦃o : Floats F⦄ → Externals → Run F → Generation → List ℕ → Tx F (List (SelectionDecision F))
  unfolding submissions_for_generation evaluations_for_generation select place_of after_draws
  select_for ext run generation refuted_ids s =
      let submissions = submissions_for_generation generation.id s.store in
      let evaluations = evaluations_for_generation generation.id s.store in
      let new_id = λ (id : ℕ). s.ids (s.drawn + place_of id submissions) in
      after_draws s (length submissions) (
        select ext.lower ext.digest generation.id run.redundancy_threshold submissions new_id
          evaluations run.survivor_count refuted_ids)

  -- A candidate's state is written when it is there and differs, with its event.
  unfoldable pub settle_candidate : ℕ → Generation → ℕ → CandidateLifecycle → Tx F (Unit {0})
  unfolding candidate_state_for_submission update_candidate_status append_event
      CandidateLifecycle-discrete
  settle_candidate run generation target status = do
    current ← gets (candidate_state_for_submission target)
    elim current [
      | none ↦ pure tt
      | some state ↦
          if state.status == status
          then pure tt
          else update_candidate_status target status
            >> append_event run candidate_status_changed
                (candidate_payload target status generation.id)
    ]
