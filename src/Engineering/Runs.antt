-- ===== src/Engineering/Runs.antt =====
-- `EngineeringRunSqlRepository` of packages/persistence/repositories.py, on the table of the
-- engineering runs: the list of its rows, each a run.
use agent_coordination.Prelude.{
  Bool, List, Option, String, [], false, find_row, if◌then◌else◌, nat_eq, none, not, put_row, refl,
  some, string_eq, suc, true, ℕ, ◌==◌, ◌||◌, ◌∷◌, ◌≡◌,
}
use agent_coordination.Errors.{Error, Result, err, key_error, ok, value_error}
use agent_coordination.Domain.Data.{ident, word}
use agent_coordination.Domain.Enums.{
  EngineeringStatus, EngineeringStatus-discrete, completed, created, engineering_status_eq, failed,
  implementing, planning, repairing, reviewing, testing,
}
use agent_coordination.Domain.Service.{EngineeringRun}

abbrev pub allowed : EngineeringStatus → List EngineeringStatus
allowed created = planning ∷ failed ∷ []
allowed planning = implementing ∷ failed ∷ []
allowed implementing = testing ∷ failed ∷ []
allowed testing = reviewing ∷ failed ∷ []
allowed reviewing = repairing ∷ completed ∷ failed ∷ []
allowed repairing = testing ∷ failed ∷ []
allowed completed = []
allowed failed = []

-- The value of the StrEnum, which an f-string prints.
abbrev pub status_value : EngineeringStatus → String
status_value created = "CREATED"
status_value planning = "PLANNING"
status_value implementing = "IMPLEMENTING"
status_value testing = "TESTING"
status_value reviewing = "REVIEWING"
status_value repairing = "REPAIRING"
status_value completed = "COMPLETED"
status_value failed = "FAILED"

-- `status in statuses`
unfoldable pub status_in : EngineeringStatus → List EngineeringStatus → Bool
unfolding EngineeringStatus-discrete
status_in status [] = false
status_in status (s ∷ rest) = s == status || status_in status rest

abbrev pub run_key : EngineeringRun → ℕ
run_key run = run.id

abbrev pub not_found : ℕ → Error
not_found id = key_error (word "Engineering run not found: " ∷ ident id ∷ [])

unfoldable pub write_status :
    ℕ
    → EngineeringStatus
    → List EngineeringRun
    → Option EngineeringRun
    → Result (EngineeringRun × List EngineeringRun)
unfolding status_in
write_status id status runs none = err (not_found id)
write_status id status runs (some run) =
    if not (status_in status (allowed run.status))
    then err (
        value_error (
          word "Invalid engineering transition: "
          ∷ word (status_value run.status)
          ∷ word " -> "
          ∷ word (status_value status)
          ∷ []))
    else let changed = record run { status = status } in
      ok (changed, put_row run_key id changed runs)

unfoldable pub update_status :
    ℕ → EngineeringStatus → List EngineeringRun → Result (EngineeringRun × List EngineeringRun)
unfolding write_status
update_status id status runs = write_status id status runs (find_row run_key id runs)

unfoldable pub increment_repair :
    ℕ → List EngineeringRun → Result (EngineeringRun × List EngineeringRun)
increment_repair id runs = elim (find_row run_key id runs) [
  | none ↦ err (not_found id)
  | some run ↦
      let changed = record run { repair_count = suc run.repair_count } in
      ok (changed, put_row run_key id changed runs)
]

-- An allowed change of status writes the run and nothing else.
pub update_status_lem :
    (id : ℕ) (status : EngineeringStatus) (runs : List EngineeringRun) (run : EngineeringRun)
    → find_row run_key id runs ≡ some run
    → status_in status (allowed run.status) ≡ true
    → update_status id status runs
      ≡ ok
          (record run { status = status }, put_row run_key id (record run { status = status }) runs)
unfolding update_status write_status
update_status_lem id status runs run found legal =
    rw (found, update_status, write_status, legal) refl

pub increment_repair_lem :
    (id : ℕ) (runs : List EngineeringRun) (run : EngineeringRun)
    → find_row run_key id runs ≡ some run
    → increment_repair id runs
      ≡ ok (
        record run { repair_count = suc run.repair_count },
        put_row run_key id (record run { repair_count = suc run.repair_count }) runs,
      )
unfolding increment_repair
increment_repair_lem id runs run found = rw (found, increment_repair) refl
