-- ===== src/Tournament/Critics.antt =====
-- `TournamentOrchestrator.maybe_schedule_finalize`: the critics' stage, if the run has critics.
use agent_coordination.Store.{
  Store, Tx, collect, for_each, fresh_id, gets, lift, pure, raise, ◌>>=◌, ◌>>◌,
}
use agent_coordination.Prelude.{
  Bool, List, Option, [], all_of, any_of, false, if◌then◌else◌, is_empty, keep_if, leb, length, map,
  nat_eq, none, not, some, string_eq, true, ℕ, ◌&&◌, ◌==◌, ◌∷◌,
}
use agent_coordination.Errors.{runtime_error}
use agent_coordination.Store.Repositories.{
  add_candidate_states, append_event, candidate_states_for_generation, findings_for_generation,
  submissions_for_generation,
}
use agent_coordination.Tournament.Cast.{
  Externals, critic_order, finalize_order, judge_count, new_agent, range_from,
}
use agent_coordination.Tournament.Queries.{
  all_in, any_in, critics_of, evaluations_complete, is_latest, judges_of, require_run,
  resolve_generation,
}
use agent_coordination.Tournament.Judging.{add_cast}
use agent_coordination.Tournament.Failure.{fail_run}
use agent_coordination.Tournament.Selecting.{
  candidate_payload, select_for, settle_candidate, survivors,
}
use agent_coordination.Domain.Research.{
  Agent, CandidateState, CriticFinding, Generation, Run, Submission,
}
use agent_coordination.Domain.Enums.{
  AgentStatus-discrete, CandidateLifecycle, CandidateLifecycle-discrete, RunStatus-discrete,
  agent_status_eq, candidate_lifecycle_eq, candidate_status_changed, completed, constructive,
  failed, initial, judging, promising, proposed, refuted, run_status_eq, under_attack, verification,
}
use agent_coordination.Domain.Data.{critic, word}
use agent_coordination.Queue.Orders.{Order}
use agent_coordination.Floats.{Floats}

-- The state that each submission is given when the critics begin.
unfoldable pub opening_status : ℕ → List ℕ → ℕ → CandidateLifecycle
unfolding any_of
opening_status target selected_ids submission =
    if submission == target
    then under_attack
    else if any_of (λ id. id == submission) selected_ids
    then promising
    else proposed

unfoldable pub first_attacked : List CandidateState → Option ℕ
unfolding CandidateLifecycle-discrete
first_attacked [] = none
first_attacked (c ∷ rest) =
    if c.status == under_attack then some c.submission_id else first_attacked rest

-- The end of the method: the critics' jobs, or the job that finalizes.
unfoldable pub finalize_orders : ℕ → Generation → Option (List Order) → Bool × List Order
finalize_orders id generation none = (false, [])
finalize_orders id generation (some jobs) =
    (true, if is_empty jobs then finalize_order id generation.id ∷ [] else jobs)

module _ {F : Type 0} where
  unfoldable pub opening_state : Generation → ℕ → List ℕ → Submission F → Tx F CandidateState
  unfolding opening_status
  opening_state generation target selected_ids submission = do
    id ← fresh_id
    pure (record {
      generation_id = generation.id;
      submission_id = submission.id;
      status = opening_status target selected_ids submission.id;
      id = id;
    })

  unfoldable pub add_states : ℕ → Generation → ℕ → List ℕ → List (Submission F) → Tx F (Unit {0})
  unfolding collect for_each opening_state add_candidate_states append_event
  add_states run generation target selected_ids submissions = do
    states ← collect (opening_state generation target selected_ids) submissions
    add_candidate_states states
    for_each
        (λ (c : CandidateState).
          append_event run candidate_status_changed
            (candidate_payload c.submission_id c.status generation.id))
        states

  unfoldable pub new_critic : Generation → ℕ → Tx F Agent
  new_critic generation index = do
    id ← fresh_id
    pure (new_agent generation.id (critic index) constructive initial id)

  -- No critic is there yet: the leader of a preview of the selection is put under attack.
  unfoldable pub call_critics : ⦃o : Floats F⦄ → Externals → ℕ → Run F → Generation → Tx F ℕ
  unfolding select_for survivors submissions_for_generation candidate_states_for_generation
      add_states add_cast new_critic range_from
  call_critics ext id run generation = do
    submissions ← gets (submissions_for_generation generation.id)
    states ← gets (candidate_states_for_generation generation.id)
    preview ← select_for ext run generation []
    elim (survivors preview) [
      | [] ↦ raise (runtime_error (word "Critic stage has no leading candidate" ∷ []))
      | leader ∷ others ↦ do
        if is_empty states
            then add_states id generation leader.submission_id
                (leader.submission_id ∷ map (λ d. d.submission_id) others) submissions
            else pure tt
        add_cast id generation (new_critic generation) (range_from 0 run.critic_count)
        pure leader.submission_id
    ]

  -- `findings[0]`, which is there when there are as many as critics.
  unfoldable pub first_found : ℕ → List Agent → List (CriticFinding F) → Option ℕ
  unfolding AgentStatus-discrete all_of
  first_found critic_count critics [] = none
  first_found critic_count critics (f ∷ findings) =
      if leb critic_count (length (f ∷ findings)) && all_in completed critics
      then some f.submission_id
      else none

  -- The critics are there: whom they attack.
  unfoldable pub attacked : Run F → Generation → List Agent → Store F → Option ℕ
  unfolding candidate_states_for_generation findings_for_generation first_attacked first_found
  attacked run generation critics store =
      elim (first_attacked (candidate_states_for_generation generation.id store)) [
        | some target ↦ some target
        | none ↦ first_found run.critic_count critics (findings_for_generation generation.id store)
      ]

  unfoldable pub critic_target :
      ⦃o : Floats F⦄ → Externals → ℕ → Run F → Generation → Tx F (Option ℕ)
  unfolding critics_of call_critics attacked
  critic_target ext id run generation = do
    critics ← gets (critics_of generation.id)
    if is_empty critics
        then (call_critics ext id run generation >>= λ (target : ℕ). pure (some target))
        else gets (attacked run generation critics)

  -- What the critics of the target found.
  unfoldable pub relevant_findings : ℕ → Generation → Store F → List (CriticFinding F)
  unfolding keep_if findings_for_generation
  relevant_findings target generation store =
      keep_if (λ (f : CriticFinding F). f.submission_id == target)
        (findings_for_generation generation.id store)

  unfoldable pub critics_verdict : List (CriticFinding F) → CandidateLifecycle
  unfolding any_of
  critics_verdict findings = if any_of (λ f. f.fatal_error) findings then refuted else verification

  -- The jobs of the critics that are not done: none when all are, and their verdict is written.
  -- Without an answer the method returns False.
  unfoldable pub critic_stage : ℕ → Run F → Generation → ℕ → Tx F (Option (List Order))
  unfolding critics_of AgentStatus-discrete any_of all_of keep_if fail_run relevant_findings
      critics_verdict settle_candidate
  critic_stage id run generation target = do
    critics ← gets (critics_of generation.id)
    relevant ← gets (relevant_findings target generation)
    if any_in failed critics
        then fail_run id (word "critic failed" ∷ []) none >> pure none
        else if not (all_in completed critics)
        then pure (
            some (
              map (critic_order id generation.id target)
                (keep_if (λ (a : Agent). not (a.status == completed)) critics)))
        else if not (length relevant == run.critic_count)
        then pure none
        else settle_candidate id generation target (critics_verdict relevant) >> pure (some [])

  unfoldable pub criticise :
      ⦃o : Floats F⦄ → Externals → ℕ → Run F → Generation → Tx F (Option (List Order))
  unfolding critic_target critic_stage
  criticise ext id run generation = if leb run.critic_count 0 then pure (some []) else do
    target ← critic_target ext id run generation
    elim target [ none ↦ pure none | some t ↦ critic_stage id run generation t ]

  unfoldable pub judges_verdict :
      ⦃o : Floats F⦄ → Externals → ℕ → Run F → Generation → Tx F (Bool × List Order)
  unfolding judges_of AgentStatus-discrete any_of all_of evaluations_complete fail_run criticise
      finalize_orders
  judges_verdict ext id run generation = do
    judges ← gets (judges_of generation.id)
    complete ← gets (evaluations_complete generation.id judges)
    if not (length judges == judge_count)
        then pure (false, [])
        else if any_in failed judges
        then fail_run id (word "judge failed" ∷ []) none >> pure (false, [])
        else if not (all_in completed judges)
        then pure (false, [])
        else if not complete
        then pure (false, [])
        else (criticise ext id run generation >>= λ (jobs : Option (List Order)).
            pure (finalize_orders id generation jobs))

  unfoldable pub maybe_schedule_finalize :
      ⦃o : Floats F⦄ → Externals → ℕ → Option ℕ → Tx F (Bool × List Order)
  unfolding RunStatus-discrete require_run resolve_generation is_latest judges_verdict
  maybe_schedule_finalize ext id generation_id = do
    run ← require_run id
    if not (run.status == judging) then pure (run.status == completed, []) else do
      generation ← lift (resolve_generation id generation_id)
      latest ← gets (is_latest id generation)
      if not latest then pure (false, []) else judges_verdict ext id run generation
