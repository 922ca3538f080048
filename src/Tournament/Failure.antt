-- ===== src/Tournament/Failure.antt =====
-- `TournamentOrchestrator.fail_run`.
use agent_coordination.Store.{Tx, gets, pure, ◌>>=◌, ◌>>◌}
use agent_coordination.Prelude.{
  Option, [], if◌then◌else◌, nat_eq, none, some, string_eq, ℕ, ◌==◌, ◌∷◌,
}
use agent_coordination.Store.Repositories.{
  append_event, get_agent, update_agent_status, update_run_status,
}
use agent_coordination.Tournament.Queries.{require_run}
use agent_coordination.Domain.Research.{Agent}
use agent_coordination.Domain.Enums.{
  AgentStatus-discrete, RunStatus-discrete, agent_failed, agent_status_eq, completed, failed,
  run_failed,
}
use agent_coordination.Domain.Data.{Format, end, field, formatted, ident}
use agent_coordination.RunLifecycle.{member}

module _ {F : Type 0} where
  -- The agent that is found is marked as failed, once.
  unfoldable pub fail_found : ℕ → Format → ℕ → Option Agent → Tx F (Unit {0})
  unfolding AgentStatus-discrete update_agent_status append_event
  fail_found run reason id none = pure tt
  fail_found run reason id (some agent) =
      if agent.status == failed
      then pure tt
      else update_agent_status id failed
        >> append_event run agent_failed
            (field "agent_id" (ident id) (field "reason" (formatted reason) end))

  unfoldable pub fail_agent : ℕ → Format → ℕ → Tx F (Unit {0})
  unfolding get_agent fail_found
  fail_agent run reason id = gets (get_agent id) >>= fail_found run reason id

  unfoldable pub fail_run : ℕ → Format → Option ℕ → Tx F (Unit {0})
  unfolding RunStatus-discrete member require_run fail_agent update_run_status append_event
  fail_run id reason agent = do
    run ← require_run id
    if member run.status (completed ∷ failed ∷ []) then pure tt else do
      elim agent [ none ↦ pure tt | some a ↦ fail_agent id reason a ]
      update_run_status id failed
      append_event id run_failed (field "reason" (formatted reason) end)
