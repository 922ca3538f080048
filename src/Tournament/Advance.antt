-- ===== src/Tournament/Advance.antt =====
-- `TournamentOrchestrator.finalize_run`: the run is finished, or goes on to its next generation.
use agent_coordination.Store.{Store, Tx, gets, lift, pure, raise, ◌>>=◌, ◌>>◌}
use agent_coordination.Prelude.{
  Bool, List, Option, [], all_of, if◌then◌else◌, leb, length, ltb, nat_eq, none, not, some,
  string_eq, ℕ, ◌&&◌, ◌+◌, ◌==◌, ◌∷◌,
}
use agent_coordination.Errors.{runtime_error}
use agent_coordination.Store.Repositories.{append_event, update_run_status}
use agent_coordination.Tournament.Cast.{Externals, judge_count, research_orders}
use agent_coordination.Tournament.Queries.{
  all_in, evaluations_complete, judges_of, latest_generation, require_run, researchers_of,
  resolve_generation,
}
use agent_coordination.Tournament.Start.{ensure_generation}
use agent_coordination.Tournament.Selecting.{survivors}
use agent_coordination.Tournament.Decisions.{ensure_decisions}
use agent_coordination.Tournament.Breeding.{ensure_children}
use agent_coordination.Tournament.Finish.{finish}
use agent_coordination.Domain.Research.{Agent, Generation, Run}
use agent_coordination.Domain.Enums.{
  AgentStatus-discrete, RunStatus-discrete, completed, failed, generation_advanced, judging,
  researching, run_status_eq,
}
use agent_coordination.Domain.Data.{end, field, ident, number, word}
use agent_coordination.RunLifecycle.{member}
use agent_coordination.Queue.Orders.{Order}
use agent_coordination.Floats.{Floats}

module _ {F : Type 0} where
  module _ ⦃o : Floats F⦄ where
    unfoldable pub log_advance : ℕ → Generation → Generation → Tx F (Unit {0})
    unfolding append_event
    log_advance run generation next = append_event run generation_advanced (
        field "from_generation_id" (ident generation.id)
          (field "to_generation_id" (ident next.id) (field "to_index" (number next.index) end)))

    -- The next generation and its researchers.
    unfoldable pub advance : Externals → Run F → Generation → Tx F (Generation × List Agent)
    unfolding ensure_decisions survivors ensure_generation ensure_children update_run_status
        log_advance
    advance ext run generation = do
      decisions ← ensure_decisions ext run generation
      elim (survivors decisions) [
        | [] ↦ raise (runtime_error (word "Selection produced no survivors" ∷ []))
        | best ∷ others ↦ do
          next ← ensure_generation run.id (generation.index + 1)
          researchers ← ensure_children run next best (best ∷ others)
          update_run_status run.id researching
          log_advance run.id generation next
          pure (next, researchers)
      ]

    -- Whether the judges of the generation are done.
    unfoldable pub judging_is_complete : Run F → Generation → Store F → Bool
    unfolding RunStatus-discrete AgentStatus-discrete judges_of all_of evaluations_complete
    judging_is_complete run generation store =
        let judges = judges_of generation.id store in
        run.status == judging
        && length judges == judge_count
        && all_in completed judges
        && evaluations_complete generation.id judges store

    -- The generation is the last, or is followed by one that is bred now.
    unfoldable pub conclude : Externals → Run F → Generation → Tx F (List Order)
    unfolding judging_is_complete finish advance research_orders
    conclude ext run generation = do
      complete ← gets (judging_is_complete run generation)
      if not complete
          then raise (runtime_error (word "Run cannot advance before judging is complete" ∷ []))
          else if leb run.max_generations (generation.index + 1)
          then finish ext run generation >> pure []
          else (advance ext run generation >>= λ (bred : Generation × List Agent).
              pure (research_orders run.id bred.0 bred.1))

    -- A later generation is there already: its jobs are enqueued again.
    unfoldable pub resume : ℕ → Generation → Tx F (List Order)
    unfolding researchers_of research_orders
    resume run latest = do
      researchers ← gets (researchers_of latest.id)
      pure (research_orders run latest researchers)

    unfoldable pub finalize_run : Externals → ℕ → Option ℕ → Tx F (Unit {0} × List Order)
    unfolding RunStatus-discrete member require_run resolve_generation latest_generation conclude
        resume
    finalize_run ext id generation_id = do
      run ← require_run id
      generation ← lift (resolve_generation id generation_id)
      latest ← gets (latest_generation id)
      if member run.status (completed ∷ failed ∷ []) then pure (tt, []) else do
        orders ← elim latest [
          | none ↦ conclude ext run generation
          | some last ↦
              if ltb generation.index last.index
              then resume id last
              else conclude ext run generation
        ]
        pure (tt, orders)
