-- ===== src/Tournament/Finish.antt =====
-- `TournamentOrchestrator.finalize_run` on the last generation: the winner is verified and the run
-- completed.
use agent_coordination.Store.{
  Store, Tx, after_draws, for_each, fresh_id, gets, lift, pure, ◌>>=◌, ◌>>◌,
}
use agent_coordination.Prelude.{
  Bool, List, Option, Text, [], if◌then◌else◌, is_empty, length, nat_eq, none, not, some, string_eq,
  suc, ℕ, ◌==◌, ◌||◌, ◌∷◌,
}
use agent_coordination.Errors.{Result, err, ok, runtime_error}
use agent_coordination.Store.Repositories.{
  add_candidate_states, add_verifications, append_event, candidate_state_for_submission,
  candidate_states_for_generation, findings_for_generation, get_submission, update_candidate_status,
  update_run_status, verifications_for_submission,
}
use agent_coordination.Tournament.Cast.{Externals}
use agent_coordination.Tournament.Start.{value_json}
use agent_coordination.Tournament.Selecting.{refuted_of, select_for, settle_candidate, survivors}
use agent_coordination.Verification.{overall_status, verify}
use agent_coordination.Domain.Research.{
  Generation, Run, SelectionDecision, Submission, VerificationResult,
}
use agent_coordination.Domain.Enums.{
  CandidateLifecycle, CandidateLifecycle-discrete, RunEventType, VerificationStatus,
  candidate_lifecycle_eq, completed, failed, inconclusive, passed, refuted, run_completed,
  verification, verification_failed, verification_inconclusive, verification_passed,
  verification_started, verified,
}
use agent_coordination.Domain.Values.{verification_kind_value, verification_status_value}
use agent_coordination.Domain.Data.{Json, end, field, ident, null, number, word}
use agent_coordination.Floats.{Floats}

-- Whether a status is one of a candidate that is being or has been verified.
unfoldable pub is_settled : CandidateLifecycle → Bool
unfolding CandidateLifecycle-discrete
is_settled status = status == refuted || status == verified || status == verification

abbrev pub verification_event : VerificationStatus → RunEventType
verification_event passed = verification_passed
verification_event failed = verification_failed
verification_event inconclusive = verification_inconclusive

-- The state of a candidate after its verification.
abbrev pub verified_state : VerificationStatus → CandidateLifecycle
verified_state passed = verified
verified_state failed = refuted
verified_state inconclusive = verification

abbrev pub status_json : Option VerificationStatus → Json
status_json none = null
status_json (some status) = value_json (verification_status_value status)

module _ {F : Type 0} where
  -- The finalist's state: it is added, or moved to verification unless it is settled.
  unfoldable pub ensure_state : Generation → ℕ → Tx F (Unit {0})
  unfolding candidate_state_for_submission add_candidate_states update_candidate_status is_settled
  ensure_state generation target = do
    current ← gets (candidate_state_for_submission target)
    elim current [
      | none ↦ do
        id ← fresh_id
        add_candidate_states (
            record {
              generation_id = generation.id;
              submission_id = target;
              status = verification;
              id = id;
            }
            ∷ [])
      | some state ↦
          if is_settled state.status then pure tt else update_candidate_status target verification
    ]

  -- `self.verification_engine.verify(...)`, which draws a number for each result.
  unfoldable pub run_checks :
      (Text → Option Text) → ℕ → Generation → Submission F → Tx F (List VerificationResult)
  unfolding findings_for_generation verify after_draws
  run_checks syntax_error run generation submission s =
      let results =
        verify run generation.id submission syntax_error (s.ids s.drawn) (s.ids (suc s.drawn))
          (s.ids (suc (suc s.drawn))) (findings_for_generation generation.id s.store) in
      after_draws s (length results) (ok results)

  unfoldable pub log_result : ℕ → ℕ → VerificationResult → Tx F (Unit {0})
  unfolding append_event
  log_result run target result = append_event run (verification_event result.status) (
      field "verification_id" (ident result.id) (
        field "submission_id" (ident target) (
          field "kind" (value_json (verification_kind_value result.kind))
            (field "status" (value_json (verification_status_value result.status)) end))))

  -- The verification of the finalist, unless an earlier call has done it.
  unfoldable pub verify_finalist :
      Externals → ℕ → Generation → Submission F → Tx F VerificationStatus
  unfolding verifications_for_submission overall_status append_event run_checks add_verifications
      for_each log_result
  verify_finalist ext run generation submission = do
    existing ← gets (verifications_for_submission submission.id)
    if not (is_empty existing) then pure (overall_status existing) else do
      append_event run verification_started (
          field "generation_id" (ident generation.id)
            (field "submission_id" (ident submission.id) end))
      results ← run_checks ext.syntax_error run generation submission
      add_verifications results
      for_each (log_result run submission.id) results
      pure (overall_status results)

  unfoldable pub check_finalist :
      Externals → Run F → Generation → Submission F → Tx F (Option VerificationStatus)
  unfolding verify_finalist settle_candidate
  check_finalist ext run generation submission =
      if not run.verification_enabled then pure none else do
        status ← verify_finalist ext run.id generation submission
        settle_candidate run.id generation submission.id (verified_state status)
        pure (some status)

  unfoldable pub complete_run : Run F → Generation → ℕ → Option VerificationStatus → Tx F (Unit {0})
  unfolding update_run_status append_event
  complete_run run generation target status = do
    update_run_status run.id completed
    append_event run.id run_completed (
        field "generation_id" (ident generation.id) (
          field "generation_index" (number generation.index) (
            field "final_submission_id" (ident target)
              (field "verification_status" (status_json status) end))))

  -- The submission of the finalist.
  unfoldable pub finalist_of : List (SelectionDecision F) → Store F → Result (Submission F)
  unfolding get_submission
  finalist_of [] store = err (runtime_error (word "Final generation has no viable candidate" ∷ []))
  finalist_of (winner ∷ others) store = elim (get_submission winner.submission_id store) [
    | none ↦ err (runtime_error (word "Final candidate submission is missing" ∷ []))
    | some submission ↦ ok submission
  ]

  unfoldable pub finish : ⦃o : Floats F⦄ → Externals → Run F → Generation → Tx F (Unit {0})
  unfolding candidate_states_for_generation refuted_of select_for survivors finalist_of ensure_state
      check_finalist complete_run
  finish ext run generation = do
    states ← gets (candidate_states_for_generation generation.id)
    preview ← select_for ext run generation (refuted_of states)
    submission ← lift (finalist_of (survivors preview))
    ensure_state generation submission.id
    status ← check_finalist ext run generation submission
    complete_run run generation submission.id status
