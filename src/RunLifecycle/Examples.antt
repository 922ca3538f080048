-- ===== src/RunLifecycle/Examples.antt =====
-- A run that is being judged, and updates of it.
use agent_coordination.Prelude.{ℕ, [], ◌∷◌, ◌≡◌, refl, false, ◌↔◌, find_row, put_row}
use agent_coordination.Errors.{ok, err, value_error}
use agent_coordination.Domain.Data.{word}
use agent_coordination.Domain.Enums.{created, judging, completed}
use agent_coordination.Domain.Research.{Run}
use agent_coordination.RunLifecycle.{assert_run_transition, update_status}
use agent_coordination.RunLifecycle.Reachability.{
  ◌⟶◌, Updated, assert_run_transition-iff_⟶, update_status-Updated,
}

abbrev judged : Run ℕ
judged = record {
  problem_id = 3;
  status = judging;
  max_generations = 1;
  population_size = 4;
  survivor_count = 2;
  fresh_agent_count = 0;
  redundancy_threshold = 780;
  critic_count = 0;
  verification_enabled = false;
  id = 7;
}

-- The two tests of tests/unit/test_state_machine.py, the second with its own statuses.
skipping_is_refused :
    assert_run_transition created completed
    ≡ err (
        value_error
          (word "Invalid run transition: " ∷ word "CREATED" ∷ word " -> " ∷ word "COMPLETED" ∷ []))
unfolding assert_run_transition
skipping_is_refused = refl

assert_run_transition-iff_⟶_example :
    (assert_run_transition judging completed ≡ ok tt) ↔ (judging ⟶ completed)
assert_run_transition-iff_⟶_example = assert_run_transition-iff_⟶ judging completed

update_status-Updated_example :
    Updated 7 completed (judged ∷ []) (record judged { status = completed } ∷ [])
unfolding update_status find_row put_row assert_run_transition
update_status-Updated_example = update_status-Updated 7 completed (judged ∷ []) refl
