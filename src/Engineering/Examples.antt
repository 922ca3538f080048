-- ===== src/Engineering/Examples.antt =====
-- A run that is implemented and tested, and the theorems at its states.
use agent_coordination.Prelude.{
  Bool, String, [], all_of, any_of, arith, false, find_row, keep_if, none, put_row, refl, some,
  true, ℕ, ◌+◌, ◌∷◌, ◌≡◌,
}
use agent_coordination.Errors.{ok}
use agent_coordination.Engineering.Runs.{run_key, status_in, update_status, write_status}
use agent_coordination.Queue.Orders.{Draws}
use agent_coordination.Engineering.Orders.{cycle_order, test_order}
use agent_coordination.Engineering.{
  Commit, State, has_all_roles, list_for_stage, maybe_schedule_tests, maybe_schedule_tests_commit,
  review_completed_commit, start_commit,
}
use agent_coordination.Engineering.Moves.{Commits, Follows}
use agent_coordination.Engineering.Operations.{
  on_review, on_start, on_tests, on_work, perform, perform_returns, transaction,
  transaction-Commits,
}
use agent_coordination.Engineering.Histories.{
  History, History-RunsOk, RunsOk, followed, interrupted, nothing,
}
use agent_coordination.Engineering.Progress.{Advanced, History-Advanced, ended_stays}
use agent_coordination.Engineering.Retries.{
  Orders, interrupted_tests_lost, tests_completed_recovers,
}
use agent_coordination.Domain.Data.{end}
use agent_coordination.Domain.Enums.{
  EngineeringStage-discrete, EngineeringStatus, EngineeringStatus-discrete, completed, created,
  engineering_review, failed, implementation, implementing, planning, reviewing, testing,
}
use agent_coordination.Domain.Service.{EngineeringArtifact, EngineeringRun}

abbrev draws : Draws
draws = record { now = 10; ids = λ n. 100 + n }

abbrev begun : EngineeringRun
begun = record {
  title = "solver";
  objective = "solve";
  project_id = none;
  status = created;
  repair_count = 0;
  max_repairs = 1;
  id = 7;
}

abbrev at_status : EngineeringStatus → EngineeringRun
at_status status = record begun { status = status }

abbrev written_by : String → ℕ → EngineeringArtifact
written_by role id = record {
  engineering_run_id = 7;
  stage = implementation;
  role = role;
  content = end;
  raw_response = [];
  repair_cycle = 0;
  id = id;
}

abbrev system : EngineeringStatus → State
system status = record {
  runs = at_status status ∷ [];
  artifacts = written_by "primary" 1 ∷ written_by "test_specialist" 2 ∷ [];
  jobs = [];
}

abbrev system_at_work : State
system_at_work = system implementing

found :
    (status : EngineeringStatus) → find_row run_key 7 (system status).runs ≡ some (at_status status)
unfolding find_row
found status = refl

sound : (status : EngineeringStatus) → RunsOk (system status).runs
sound status = record {
  rows = (record { bounded = omega arith; left_over = λ e. omega arith }, tt);
  ids = (tt, tt);
}

-- A review that finds fault with the last repair fails the run.
last_review :
    review_completed_commit 7 false (record (at_status reviewing) { repair_count = 1 } ∷ [])
    ≡ ok (record {
      runs = record (at_status failed) { repair_count = 1 } ∷ [];
      orders = [];
      answer = true;
    })
unfolding review_completed_commit update_status write_status status_in find_row put_row
    EngineeringStatus-discrete
last_review = refl

transaction-Commits_example :
    Commits 7 (system reviewing).runs (transaction (on_review false) 7 (system reviewing))
transaction-Commits_example =
    transaction-Commits (on_review false) 7 (system reviewing) (at_status reviewing)
      (found reviewing)

perform_returns_example :
    (answer : Bool) × (after : State) × (perform on_start draws 7 (system created)
      ≡ ok (answer, after))
    × Follows 7 (system created).runs after.runs
perform_returns_example =
    perform_returns on_start draws 7 (system created) (at_status created) (found created)

abbrev tests_begin : Commit
tests_begin = record { runs = at_status testing ∷ []; orders = test_order 7 0 ∷ []; answer = true }

commits_tests : transaction on_work 7 system_at_work ≡ ok tests_begin
unfolding transaction maybe_schedule_tests_commit update_status write_status status_in find_row
    put_row list_for_stage has_all_roles keep_if all_of any_of EngineeringStatus-discrete
    EngineeringStage-discrete
commits_tests = refl

abbrev cut_short : History system_at_work (record system_at_work { runs = tests_begin.runs })
cut_short = followed nothing (interrupted on_work 7 tests_begin commits_tests)

History-RunsOk_example : RunsOk tests_begin.runs
History-RunsOk_example = History-RunsOk cut_short (sound implementing)

History-Advanced_example : Advanced 7 (at_status implementing) tests_begin.runs
History-Advanced_example =
    History-Advanced 7 (at_status implementing) cut_short (sound implementing) (found implementing)

leaves_failed :
    transaction on_start 7 (system failed)
    ≡ ok (record { runs = (system failed).runs; orders = []; answer = true })
unfolding transaction start_commit find_row EngineeringStatus-discrete
leaves_failed = refl

is_ended : status_in failed (completed ∷ failed ∷ []) ≡ true
unfolding status_in
is_ended = refl

ended_stays_example : find_row run_key 7 (system failed).runs ≡ some (at_status failed)
ended_stays_example =
    ended_stays {s = system failed} {s' = system failed} 7 (at_status failed)
      (followed nothing (interrupted on_start 7 _ leaves_failed)) (sound failed) (found failed)
      is_ended

is_planning : (s : EngineeringStatus) → status_in planning (planning ∷ s ∷ []) ≡ true
unfolding status_in
is_planning s = refl

is_left_planning : status_in planning (created ∷ planning ∷ []) ≡ true
unfolding status_in
is_left_planning = refl

is_left_reviewing : status_in reviewing (testing ∷ reviewing ∷ []) ≡ true
unfolding status_in
is_left_reviewing = refl

tests_completed_recovers_example :
    Orders draws on_tests 7 (system reviewing) (cycle_order engineering_review "review" 7 0 0 ∷ [])
tests_completed_recovers_example =
    tests_completed_recovers draws 7 (system reviewing) (at_status reviewing) (found reviewing)
      is_left_reviewing

all_are_done : has_all_roles (list_for_stage 7 implementation 0 system_at_work.artifacts) ≡ true
unfolding list_for_stage has_all_roles keep_if all_of any_of EngineeringStage-discrete
all_are_done = refl

interrupted_tests_lost_example :
    (commit : Commit) × (maybe_schedule_tests_commit 7 system_at_work.artifacts system_at_work.runs
      ≡ ok commit)
    × (commit.orders ≡ test_order 7 0 ∷ [])
    × (maybe_schedule_tests draws 7 (record system_at_work { runs = commit.runs })
        ≡ ok (true, record system_at_work { runs = commit.runs }))
interrupted_tests_lost_example =
    interrupted_tests_lost draws 7 system_at_work (at_status implementing) (found implementing) refl
      all_are_done
