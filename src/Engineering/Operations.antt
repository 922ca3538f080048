-- ===== src/Engineering/Operations.antt =====
-- The seven methods under one name each, and that a method on a run that is there returns.
use agent_coordination.Prelude.{
  Bool, List, Option-cases, ap, arith, find_row, inl, inr, none, refl, some, subst, sym, ℕ, ◌∙◌,
  ◌≡◌,
}
use agent_coordination.Errors.{Error, Result, Result-cases, err, ok}
use agent_coordination.Engineering.Runs.{run_key}
use agent_coordination.Queue.Orders.{Draws, enqueue_all, enqueue_all_returns}
use agent_coordination.Queue.Rows.{JobRecord}
use agent_coordination.Engineering.{
  Commit, State, carry_out, fail, fail_commit, maybe_schedule_tests, maybe_schedule_tests_commit,
  plan_completed, plan_completed_commit, repair_completed, repair_completed_commit,
  review_completed, review_completed_commit, start, start_commit, tests_completed,
  tests_completed_commit,
}
use agent_coordination.Engineering.Moves.{
  Commits, Follows, fail-Commits, maybe_schedule_tests-Commits, plan_completed-Commits,
  repair_completed-Commits, review_completed-Commits, start-Commits, tests_completed-Commits,
}
use agent_coordination.Domain.Service.{EngineeringRun}

pub data Operation : Type 0 where
  on_start on_plan on_work on_tests : Operation
  on_review : Bool → Operation
  on_repair on_failure : Operation

unfoldable pub transaction : Operation → ℕ → State → Result Commit
transaction on_start id state = start_commit id state.runs
transaction on_plan id state = plan_completed_commit id state.runs
transaction on_work id state = maybe_schedule_tests_commit id state.artifacts state.runs
transaction on_tests id state = tests_completed_commit id state.runs
transaction (on_review approved) id state = review_completed_commit id approved state.runs
transaction on_repair id state = repair_completed_commit id state.runs
transaction on_failure id state = fail_commit id state.runs

unfoldable pub perform : Operation → Draws → ℕ → State → Result (Bool × State)
unfolding start plan_completed maybe_schedule_tests tests_completed review_completed
    repair_completed fail
perform on_start draws id state = start draws id state
perform on_plan draws id state = plan_completed draws id state
perform on_work draws id state = maybe_schedule_tests draws id state
perform on_tests draws id state = tests_completed draws id state
perform (on_review approved) draws id state = review_completed draws id state approved
perform on_repair draws id state = repair_completed draws id state
perform on_failure draws id state = fail draws id state

-- On a run that is there, the transaction of every method commits: it either writes nothing, or
-- moves this run, and no other, along an edge of the state machine. So `update_status` never refuses
-- a change of status that a method asks for.
pub transaction-Commits :
    (op : Operation) (id : ℕ) (state : State) (run : EngineeringRun)
    → find_row run_key id state.runs ≡ some run
    → Commits id state.runs (transaction op id state)
unfolding transaction
transaction-Commits on_start id state run found = start-Commits id state.runs run found
transaction-Commits on_plan id state run found = plan_completed-Commits id state.runs run found
transaction-Commits on_work id state run found =
    maybe_schedule_tests-Commits id state.runs run found state.artifacts
transaction-Commits on_tests id state run found = tests_completed-Commits id state.runs run found
transaction-Commits (on_review approved) id state run found =
    review_completed-Commits id state.runs run found approved
transaction-Commits on_repair id state run found = repair_completed-Commits id state.runs run found
transaction-Commits on_failure id state run found = fail-Commits id state.runs run found

pub perform_lem :
    (op : Operation) (draws : Draws) (id : ℕ) (state : State)
    → perform op draws id state ≡ carry_out draws state (transaction op id state)
unfolding perform transaction
perform_lem on_start draws id state = refl
perform_lem on_plan draws id state = refl
perform_lem on_work draws id state = refl
perform_lem on_tests draws id state = refl
perform_lem (on_review approved) draws id state = refl
perform_lem on_repair draws id state = refl
perform_lem on_failure draws id state = refl

-- What a committed transaction leads to, when the method is not interrupted.
pub carry_out_returns :
    (draws : Draws) (state : State) (commit : Commit)
    → (jobs : List JobRecord) × (enqueue_all draws 0 commit.orders state.jobs ≡ ok jobs)
      × (carry_out draws state (ok commit)
          ≡ ok (commit.answer, record state { runs = commit.runs; jobs = jobs }))
unfolding carry_out
carry_out_returns draws state commit =
    let (jobs, e) = enqueue_all_returns draws 0 commit.orders state.jobs in
    (jobs, e, rw (e, carry_out) refl)

-- A method on a run that is there always returns, whatever the run's status: it raises neither for
-- the change of status nor for a job that is in the queue already.
pub perform_returns :
    (op : Operation) (draws : Draws) (id : ℕ) (state : State) (run : EngineeringRun)
    → find_row run_key id state.runs ≡ some run
    → (answer : Bool) × (after : State) × (perform op draws id state ≡ ok (answer, after))
      × Follows id state.runs after.runs
perform_returns op draws id state run found =
    let (commit, e, follows) = transaction-Commits op id state run found in
    let (jobs, _, h) = carry_out_returns draws state commit in
    (
      commit.answer,
      record state { runs = commit.runs; jobs = jobs },
      perform_lem op draws id state ∙ ap (carry_out draws state) e ∙ h,
      follows,
    )

-- A run that is not there: `fail` returns, and every other method raises.
transaction_missing :
    (op : Operation) (id : ℕ) (state : State) (commit : Commit)
    → find_row run_key id state.runs ≡ none
    → transaction op id state ≡ ok commit
    → commit.runs ≡ state.runs
unfolding transaction start_commit plan_completed_commit maybe_schedule_tests_commit
    tests_completed_commit review_completed_commit repair_completed_commit fail_commit
transaction_missing on_start id state commit missing e = ground (arith, missing, e)
transaction_missing on_plan id state commit missing e = ground (arith, missing, e)
transaction_missing on_work id state commit missing e = ground (arith, missing, e)
transaction_missing on_tests id state commit missing e = ground (arith, missing, e)
transaction_missing (on_review approved) id state commit missing e = ground (arith, missing, e)
transaction_missing on_repair id state commit missing e = ground (arith, missing, e)
transaction_missing on_failure id state commit missing e = ground (arith, missing, e)

ok_same : {A : Type 0} {a b : A} → ok a ≡ ok b → a ≡ b
ok_same e = cc

-- A transaction that commits, on any run at all, writes nothing or moves this run along an edge.
pub transaction-Follows :
    (op : Operation) (id : ℕ) (state : State) (commit : Commit)
    → transaction op id state ≡ ok commit
    → Follows id state.runs commit.runs
transaction-Follows op id state commit e = elim (Option-cases (find_row run_key id state.runs)) [
  | inl missing ↦ inl (transaction_missing op id state commit missing e)
  | inr (run, found) ↦
      let (c, k, follows) = transaction-Commits op id state run found in
      subst (λ (x : Commit). Follows id state.runs x.runs) (ok_same (sym k ∙ e)) follows
]

refused :
    (draws : Draws) (state : State) (x : Error) (answer : Bool) (after : State)
    → carry_out draws state (err x) ≡ ok (answer, after)
    → ⊥
unfolding carry_out
refused draws state x answer after e = ground (arith, e)

-- What a method leaves, likewise, when it returns.
pub perform-Follows :
    (op : Operation) (draws : Draws) (id : ℕ) (state after : State) (answer : Bool)
    → perform op draws id state ≡ ok (answer, after)
    → Follows id state.runs after.runs
perform-Follows op draws id state after answer e = elim (Result-cases (transaction op id state)) [
  | inl (commit, k) ↦
      let (jobs, _, h) = carry_out_returns draws state commit in
      let same : ok (commit.answer, record state { runs = commit.runs; jobs = jobs })
          ≡ ok (answer, after) =
        sym h ∙ ap (carry_out draws state) (sym k) ∙ sym (perform_lem op draws id state) ∙ e in
      subst (λ (x : Bool × State). Follows id state.runs x.1.runs) (ok_same same)
        (transaction-Follows op id state commit k)
  | inr (x, k) ↦ absurd (
      refused draws state x answer after
        (ap (carry_out draws state) (sym k) ∙ sym (perform_lem op draws id state) ∙ e))
]
