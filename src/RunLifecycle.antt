-- ===== src/RunLifecycle.antt =====
-- packages/core/orchestration/state_machine.py, and its caller `RunSqlRepository.update_status` of
-- packages/persistence/repositories.py.
pub mod Reachability
mod Examples
use agent_coordination.Prelude.{
  String, ℕ, Bool, true, false, ◌||◌, List, [], ◌∷◌, Option, none, some, ◌==◌, if◌then◌else◌, not,
  find_row, put_row,
}
use agent_coordination.Errors.{Result, ok, err, key_error, value_error, ◌>>=◌, ◌>>◌}
use agent_coordination.Domain.Data.{word, ident}
use agent_coordination.Domain.Enums.{
  RunStatus, created, researching, judging, completed, paused, failed, run_status_eq,
  RunStatus-discrete,
}
use agent_coordination.Domain.Research.{Run}

-- `_ALLOWED_TRANSITIONS`
abbrev pub allowed_transitions : RunStatus → List RunStatus
allowed_transitions created = researching ∷ paused ∷ failed ∷ []
allowed_transitions researching = judging ∷ paused ∷ failed ∷ []
allowed_transitions judging = researching ∷ completed ∷ paused ∷ failed ∷ []
allowed_transitions paused = researching ∷ judging ∷ failed ∷ []
allowed_transitions completed = []
allowed_transitions failed = []

-- The value of the StrEnum, which an f-string prints.
abbrev pub status_value : RunStatus → String
status_value created = "CREATED"
status_value researching = "RESEARCHING"
status_value judging = "JUDGING"
status_value completed = "COMPLETED"
status_value paused = "PAUSED"
status_value failed = "FAILED"

-- `target in statuses`
unfoldable pub member : RunStatus → List RunStatus → Bool
unfolding RunStatus-discrete
member target [] = false
member target (s ∷ rest) = s == target || member target rest

-- An InvalidRunTransition is a ValueError.
unfoldable pub assert_run_transition : RunStatus → RunStatus → Result (Unit {0})
unfolding member
assert_run_transition current target =
    if not (member target (allowed_transitions current))
    then err (
        value_error (
          word "Invalid run transition: "
          ∷ word (status_value current)
          ∷ word " -> "
          ∷ word (status_value target)
          ∷ []))
    else ok tt

module _ {F : Type 0} where
  abbrev pub run_id : Run F → ℕ
  run_id run = run.id

  unfoldable pub write_status :
      ℕ → RunStatus → List (Run F) → Option (Run F) → Result (List (Run F))
  write_status id target runs none = err (key_error (word "Run not found: " ∷ ident id ∷ []))
  write_status id target runs (some record') = do
    assert_run_transition record'.status target
    ok (put_row run_id id (record record' { status = target }) runs)

  -- `RunSqlRepository.update_status`
  unfoldable pub update_status : ℕ → RunStatus → List (Run F) → Result (List (Run F))
  unfolding write_status
  update_status id target runs = write_status id target runs (find_row run_id id runs)
