-- ===== src/Tournament/Start.antt =====
-- `TournamentOrchestrator.start_run` and `_ensure_researchers`.
use agent_coordination.Store.{Tx, collect, for_each, fresh_id, gets, lift, pure, raise, ◌>>=◌, ◌>>◌}
use agent_coordination.Prelude.{
  List, Option, String, [], if◌then◌else◌, is_empty, keep_if, nat_eq, none, not, some, string_eq, ℕ,
  ◌++◌, ◌+◌, ◌==◌, ◌∷◌,
}
use agent_coordination.Errors.{runtime_error}
use agent_coordination.Store.Repositories.{
  add_agents, add_generation, append_event, generation_for_run, update_run_status,
}
use agent_coordination.Tournament.Cast.{
  agents_at, has_role, new_agent, niche_at, range_from, research_orders, role_name,
}
use agent_coordination.Tournament.Queries.{require_run, researchers_of}
use agent_coordination.Domain.Research.{Agent, Generation, Run}
use agent_coordination.Domain.Enums.{
  RunStatus-discrete, agent_spawned, completed, created, generation_created, initial, judging,
  researching, run_started, run_status_eq,
}
use agent_coordination.Domain.Values.{niche_value, origin_value}
use agent_coordination.Domain.Data.{
  Fields, Json, end, field, float, formatted, ident, number, researcher, word,
}
use agent_coordination.RunLifecycle.{member, status_value}
use agent_coordination.Queue.Orders.{Order}
use agent_coordination.Floats.{Floats}

abbrev pub value_json : String → Json
value_json value = formatted (word value ∷ [])

-- The payload of an AGENT_SPAWNED event, and what it says of a researcher besides.
abbrev pub spawned_payload : ℕ → Agent → Fields → Fields
spawned_payload generation agent rest = field "agent_id" (ident agent.id) (
    field "role" (formatted (role_name agent.role)) (field "generation_id" (ident generation) rest))

abbrev pub birth_payload : Agent → Fields
birth_payload agent =
    field "niche" (value_json (niche_value agent.niche))
      (field "origin" (value_json (origin_value agent.origin)) end)

module _ {F : Type 0} where
  unfoldable pub create_generation : ℕ → ℕ → Tx F Generation
  unfolding add_generation append_event
  create_generation run index = do
    id ← fresh_id
    generation ← add_generation (record { run_id = run; index = index; id = id })
    append_event run generation_created
        (field "generation_id" (ident generation.id) (field "index" (number index) end))
    pure generation

  unfoldable pub found_or_created : ℕ → ℕ → Option Generation → Tx F Generation
  unfolding create_generation
  found_or_created run index (some generation) = pure generation
  found_or_created run index none = create_generation run index

  -- `uow.generations.get_for_run`, and the generation that is added if there is none.
  unfoldable pub ensure_generation : ℕ → ℕ → Tx F Generation
  unfolding generation_for_run found_or_created
  ensure_generation run index = gets (generation_for_run run index) >>= found_or_created run index

  unfoldable pub initial_agent : Generation → ℕ → Tx F Agent
  unfolding niche_at
  initial_agent generation index = do
    id ← fresh_id
    pure (
        new_agent generation.id (researcher index) (niche_at (generation.index + index)) initial id)

  unfoldable pub announce : ℕ → Generation → Agent → Tx F (Unit {0})
  unfolding append_event
  announce run generation agent =
      append_event run agent_spawned (spawned_payload generation.id agent (birth_payload agent))

  unfoldable pub add_researchers : ℕ → Generation → List ℕ → Tx F (List Agent)
  unfolding collect for_each initial_agent add_agents announce
  add_researchers run generation missing = if is_empty missing then pure [] else do
    agents ← collect (initial_agent generation) missing
    added ← add_agents agents
    for_each (announce run generation) added
    pure added

  -- `_ensure_researchers`
  unfoldable pub ensure_researchers : ℕ → Generation → ℕ → Tx F (List Agent)
  unfolding researchers_of keep_if has_role range_from add_researchers agents_at
  ensure_researchers run generation population_size = do
    existing ← gets (researchers_of generation.id)
    let indices = range_from 0 population_size
    let missing = keep_if (λ i. not (has_role (researcher i) existing)) indices
    added ← add_researchers run generation missing
    lift (λ _. agents_at researcher indices (existing ++ added))

  unfoldable pub started_payload : ⦃o : Floats F⦄ → Run F → Fields
  started_payload ⦃o⦄ run = field "max_generations" (number run.max_generations) (
      field "population_size" (number run.population_size) (
        field "survivor_count" (number run.survivor_count) (
          field "fresh_agent_count" (number run.fresh_agent_count) (
            field "redundancy_threshold" (float (o.bits run.redundancy_threshold))
              (field "critic_count" (number run.critic_count) end)))))

  -- The run is created and begins, or has begun already.
  unfoldable pub begin_run : ⦃o : Floats F⦄ → Run F → Tx F (Unit {0})
  unfolding RunStatus-discrete member update_run_status append_event started_payload
  begin_run run =
      if run.status == created
      then update_run_status run.id researching
        >> append_event run.id run_started (started_payload run)
      else if not (member run.status (researching ∷ judging ∷ completed ∷ []))
      then raise
          (runtime_error (word "Cannot start run from " ∷ word (status_value run.status) ∷ []))
      else pure tt

  -- The generation that is returned, and the jobs.
  unfoldable pub start_run : ⦃o : Floats F⦄ → ℕ → Tx F (Generation × List Order)
  unfolding RunStatus-discrete require_run ensure_generation ensure_researchers begin_run
      research_orders
  start_run id = do
    run ← require_run id
    generation ← ensure_generation id 0
    researchers ← ensure_researchers id generation run.population_size
    begin_run run
    pure (
      generation,
      if run.status == completed then [] else research_orders id generation researchers,
    )
