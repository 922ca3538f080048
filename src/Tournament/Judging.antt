-- ===== src/Tournament/Judging.antt =====
-- `TournamentOrchestrator.maybe_schedule_judging` and `start_judging`.
use agent_coordination.Store.{
  Store, Tx, collect, for_each, fresh_id, gets, lift, pure, raise, ◌>>=◌, ◌>>◌,
}
use agent_coordination.Prelude.{
  Bool, List, Option, [], all_of, any_of, false, if◌then◌else◌, is_empty, keep_if, length, map,
  nat_eq, none, not, string_eq, true, ℕ, ◌&&◌, ◌++◌, ◌==◌, ◌∷◌,
}
use agent_coordination.Errors.{runtime_error}
use agent_coordination.Store.Repositories.{
  add_agents, append_event, submissions_for_generation, update_run_status,
}
use agent_coordination.Tournament.Start.{spawned_payload}
use agent_coordination.Tournament.Cast.{
  agents_at, has_role, judge_count, judge_order, new_agent, range_from, start_judging_order,
}
use agent_coordination.Tournament.Queries.{
  all_in, any_in, is_latest, judges_of, require_run, researchers_of, resolve_generation,
}
use agent_coordination.Tournament.Failure.{fail_run}
use agent_coordination.Domain.Research.{Agent, Generation, Run}
use agent_coordination.Domain.Enums.{
  AgentStatus-discrete, RunStatus-discrete, agent_spawned, completed, constructive, failed, initial,
  judging, judging_started, researching, run_status_eq,
}
use agent_coordination.Domain.Data.{end, field, ident, judge, number, word}
use agent_coordination.RunLifecycle.{member, status_value}
use agent_coordination.Queue.Orders.{Order}

module _ {F : Type 0} where
  -- Whether every researcher of the generation is done and has submitted.
  unfoldable pub research_is_complete : Run F → Generation → Store F → Bool
  unfolding researchers_of submissions_for_generation AgentStatus-discrete all_of
  research_is_complete run generation store =
      let researchers = researchers_of generation.id store in
      length researchers == run.population_size
      && all_in completed researchers
      && length (submissions_for_generation generation.id store) == run.population_size

  -- The outcome once the generation is known to be the latest.
  unfoldable pub judging_verdict : ℕ → Run F → Generation → Tx F (Bool × List Order)
  unfolding researchers_of submissions_for_generation AgentStatus-discrete any_of all_of fail_run
  judging_verdict id run generation = do
    researchers ← gets (researchers_of generation.id)
    submissions ← gets (submissions_for_generation generation.id)
    if not (length researchers == run.population_size)
        then pure (false, [])
        else if any_in failed researchers
        then fail_run id (word "researcher failed" ∷ []) none >> pure (false, [])
        else if not (all_in completed researchers)
        then pure (false, [])
        else if not (length submissions == run.population_size)
        then pure (false, [])
        else pure (true, start_judging_order id generation.id ∷ [])

  unfoldable pub maybe_schedule_judging : ℕ → Option ℕ → Tx F (Bool × List Order)
  unfolding RunStatus-discrete require_run resolve_generation is_latest judging_verdict
  maybe_schedule_judging id generation_id = do
    run ← require_run id
    if not (run.status == researching) then pure (false, []) else do
      generation ← lift (resolve_generation id generation_id)
      latest ← gets (is_latest id generation)
      if not latest then pure (false, []) else judging_verdict id run generation

  unfoldable pub new_judge : Generation → ℕ → Tx F Agent
  new_judge generation index = do
    id ← fresh_id
    pure (new_agent generation.id (judge index) constructive initial id)

  unfoldable pub add_cast : ℕ → Generation → (ℕ → Tx F Agent) → List ℕ → Tx F (List Agent)
  unfolding collect for_each add_agents append_event
  add_cast run generation make missing = if is_empty missing then pure [] else do
    agents ← collect make missing
    added ← add_agents agents
    for_each (λ (a : Agent). append_event run agent_spawned (spawned_payload generation.id a end))
        added
    pure added

  unfoldable pub ensure_judges : ℕ → Generation → Tx F (List Agent)
  unfolding judges_of keep_if has_role range_from add_cast new_judge agents_at
  ensure_judges run generation = do
    existing ← gets (judges_of generation.id)
    let indices = range_from 0 judge_count
    let missing = keep_if (λ i. not (has_role (judge i) existing)) indices
    added ← add_cast run generation (new_judge generation) missing
    lift (λ _. agents_at judge indices (existing ++ added))

  unfoldable pub begin_judging : Run F → Generation → Tx F (Unit {0})
  unfolding RunStatus-discrete update_run_status append_event
  begin_judging run generation =
      if run.status == researching
      then update_run_status run.id judging
        >> append_event run.id judging_started (
            field "generation_id" (ident generation.id)
              (field "index" (number generation.index) end))
      else pure tt

  -- The judges of the latest generation, once its research is complete.
  unfoldable pub call_judges : ℕ → Run F → Generation → Tx F (List Agent × List Order)
  unfolding research_is_complete ensure_judges begin_judging
  call_judges id run generation = do
    complete ← gets (research_is_complete run generation)
    if not complete then raise (runtime_error (word "Research phase is not complete" ∷ [])) else do
      judges ← ensure_judges id generation
      begin_judging run generation
      pure (judges, map (judge_order id generation.id) judges)

  unfoldable pub start_judging : ℕ → Option ℕ → Tx F (List Agent × List Order)
  unfolding RunStatus-discrete member require_run resolve_generation is_latest call_judges
  start_judging id generation_id = do
    run ← require_run id
    if run.status == completed
        then pure ([], [])
        else if not (member run.status (researching ∷ judging ∷ []))
        then raise (
            runtime_error (word "Cannot start judging from " ∷ word (status_value run.status) ∷ []))
        else do
          generation ← lift (resolve_generation id generation_id)
          latest ← gets (is_latest id generation)
          if not latest then pure ([], []) else call_judges id run generation
