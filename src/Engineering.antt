-- ===== src/Engineering.antt =====
-- packages/core/engineering/orchestration.py: the state machine that takes an engineering run from
-- its plan through tests, review and repairs. Each method is a database transaction and then, once it
-- is committed, the jobs it enqueues: the transaction is a function to what it commits, and the
-- method carries that out.
pub mod Runs
pub mod Orders
pub mod Moves
pub mod Operations
pub mod Histories
pub mod Progress
pub mod Retries
mod Examples
use agent_coordination.Prelude.{
  Bool, List, Option, [], all_of, any_of, false, find_row, if◌then◌else◌, keep_if, ltb, map, nat_eq,
  none, not, some, string_eq, suc, true, ℕ, ◌&&◌, ◌==◌, ◌∷◌,
}
use agent_coordination.Errors.{Result, err, ok, ◌>>=◌}
use agent_coordination.Engineering.Runs.{
  increment_repair, not_found, run_key, status_in, update_status,
}
use agent_coordination.Queue.Orders.{Draws, Order, enqueue_all}
use agent_coordination.Engineering.Orders.{
  cycle_order, implement_order, implementer_roles, plan_order, test_order,
}
use agent_coordination.Queue.Rows.{JobRecord}
use agent_coordination.Domain.Enums.{
  EngineeringStage, EngineeringStage-discrete, EngineeringStatus, EngineeringStatus-discrete,
  completed, created, engineering_repair, engineering_review, engineering_stage_eq,
  engineering_status_eq, failed, implementation, implementing, planning, repair, repairing, review,
  reviewing, testing,
}
use agent_coordination.Domain.Service.{EngineeringArtifact, EngineeringRun}

pub record State : Type 0 where
  pub runs : List EngineeringRun
  pub artifacts : List EngineeringArtifact
  pub jobs : List JobRecord

-- The runs that a transaction leaves, the jobs to enqueue after it, and what the method returns.
pub record Commit : Type 0 where
  pub runs : List EngineeringRun
  pub orders : List Order
  pub answer : Bool

-- `EngineeringArtifactSqlRepository.list_for_stage`
unfoldable pub list_for_stage :
    ℕ → EngineeringStage → ℕ → List EngineeringArtifact → List EngineeringArtifact
unfolding keep_if EngineeringStage-discrete
list_for_stage id stage repair_cycle artifacts =
    keep_if (λ a. a.engineering_run_id == id && a.stage == stage && a.repair_cycle == repair_cycle)
      artifacts

abbrev pub run_of : ℕ → List EngineeringRun → Result EngineeringRun
run_of id runs = elim (find_row run_key id runs) [ none ↦ err (not_found id) | some run ↦ ok run ]

-- The run moves on and the jobs are enqueued.
abbrev pub advance : ℕ → EngineeringStatus → List Order → Bool → List EngineeringRun → Result Commit
advance id status orders answer runs = update_status id status runs >>= λ written.
    ok (record { runs = written.1; orders = orders; answer = answer })

-- The transaction writes nothing, and the jobs are enqueued.
abbrev pub leave : List Order → Bool → List EngineeringRun → Result Commit
leave orders answer runs = ok (record { runs = runs; orders = orders; answer = answer })

unfoldable pub start_commit : ℕ → List EngineeringRun → Result Commit
unfolding EngineeringStatus-discrete
start_commit id runs = run_of id runs >>= λ run.
    if run.status == created
    then advance id planning (plan_order id ∷ []) true runs
    else if run.status == planning
    then leave (plan_order id ∷ []) true runs
    else leave [] true runs

unfoldable pub plan_completed_commit : ℕ → List EngineeringRun → Result Commit
unfolding EngineeringStatus-discrete
plan_completed_commit id runs = run_of id runs >>= λ run.
    let orders = map (implement_order id) implementer_roles in
    if run.status == planning
    then advance id implementing orders true runs
    else if run.status == implementing
    then leave orders true runs
    else leave [] true runs

unfoldable pub has_all_roles : List EngineeringArtifact → Bool
unfolding all_of any_of
has_all_roles artifacts =
    all_of (λ role. any_of (λ (a : EngineeringArtifact). a.role == role) artifacts)
      implementer_roles

unfoldable pub maybe_schedule_tests_commit :
    ℕ → List EngineeringArtifact → List EngineeringRun → Result Commit
unfolding EngineeringStatus-discrete status_in list_for_stage has_all_roles
maybe_schedule_tests_commit id artifacts runs = run_of id runs >>= λ run.
    if not (run.status == implementing)
    then leave [] (status_in run.status (testing ∷ reviewing ∷ repairing ∷ completed ∷ [])) runs
    else if not (has_all_roles (list_for_stage id implementation 0 artifacts))
    then leave [] false runs
    else advance id testing (test_order id 0 ∷ []) true runs

unfoldable pub tests_completed_commit : ℕ → List EngineeringRun → Result Commit
unfolding EngineeringStatus-discrete
tests_completed_commit id runs = run_of id runs >>= λ run.
    let orders =
      cycle_order engineering_review "review" id run.repair_count run.repair_count ∷ [] in
    if run.status == testing
    then advance id reviewing orders true runs
    else if run.status == reviewing
    then leave orders true runs
    else leave [] true runs

unfoldable pub review_completed_commit : ℕ → Bool → List EngineeringRun → Result Commit
unfolding EngineeringStatus-discrete
review_completed_commit id approved runs = run_of id runs >>= λ run.
    if not (run.status == reviewing)
    then leave [] true runs
    else if approved
    then advance id completed [] true runs
    else if ltb run.repair_count run.max_repairs
    then advance id repairing
        (cycle_order engineering_repair "repair" id run.repair_count (suc run.repair_count) ∷ [])
        true runs
    else advance id failed [] true runs

unfoldable pub repair_completed_commit : ℕ → List EngineeringRun → Result Commit
unfolding EngineeringStatus-discrete
repair_completed_commit id runs = run_of id runs >>= λ run.
    if not (run.status == repairing)
    then leave [] true runs
    else increment_repair id runs >>= λ written.
        advance id testing (test_order id written.0.repair_count ∷ []) true written.1

-- A run that is not there, or has ended, is left as it is.
abbrev pub fail_found : ℕ → List EngineeringRun → Option EngineeringRun → Result Commit
fail_found id runs none = leave [] true runs
fail_found id runs (some run) =
    if status_in run.status (completed ∷ failed ∷ [])
    then leave [] true runs
    else advance id failed [] true runs

unfoldable pub fail_commit : ℕ → List EngineeringRun → Result Commit
unfolding status_in
fail_commit id runs = fail_found id runs (find_row run_key id runs)

-- A method: its transaction, and then the jobs. `enqueue` raises only when it is
-- given no attempt, and here it is given three.
unfoldable pub carry_out : Draws → State → Result Commit → Result (Bool × State)
unfolding enqueue_all
carry_out draws state transaction = transaction >>= λ commit.
    enqueue_all draws 0 commit.orders state.jobs >>= λ jobs.
    ok (commit.answer, record state { runs = commit.runs; jobs = jobs })

module _ (draws : Draws) (id : ℕ) (state : State) where
  unfoldable pub start : Result (Bool × State)
  unfolding start_commit carry_out
  start = carry_out draws state (start_commit id state.runs)

  unfoldable pub plan_completed : Result (Bool × State)
  unfolding plan_completed_commit carry_out
  plan_completed = carry_out draws state (plan_completed_commit id state.runs)

  unfoldable pub maybe_schedule_tests : Result (Bool × State)
  unfolding maybe_schedule_tests_commit carry_out
  maybe_schedule_tests =
      carry_out draws state (maybe_schedule_tests_commit id state.artifacts state.runs)

  unfoldable pub tests_completed : Result (Bool × State)
  unfolding tests_completed_commit carry_out
  tests_completed = carry_out draws state (tests_completed_commit id state.runs)

  unfoldable pub review_completed : Bool → Result (Bool × State)
  unfolding review_completed_commit carry_out
  review_completed approved = carry_out draws state (review_completed_commit id approved state.runs)

  unfoldable pub repair_completed : Result (Bool × State)
  unfolding repair_completed_commit carry_out
  repair_completed = carry_out draws state (repair_completed_commit id state.runs)

  unfoldable pub fail : Result (Bool × State)
  unfolding fail_commit carry_out
  fail = carry_out draws state (fail_commit id state.runs)
