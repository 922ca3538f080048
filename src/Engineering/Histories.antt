-- ===== src/Engineering/Histories.antt =====
-- Any sequence of calls, interruptions and other writes, and what it keeps of the runs.
use agent_coordination.Prelude.{
  All, All-append, All-at, Bool, Distinct, Distinct-snoc, List, [], arith, false, find_row-Member,
  find_row-id, inl, inr, nat_beq, put_row-All, put_row-Distinct, refl, subst, sym, ℕ, ◌++◌, ◌<◌,
  ◌∙◌, ◌∷◌, ◌≡◌, ◌≤◌,
}
use agent_coordination.Errors.{ok}
use agent_coordination.Engineering.Runs.{run_key}
use agent_coordination.Queue.Orders.{Draws}
use agent_coordination.Queue.Rows.{JobRecord}
use agent_coordination.Engineering.{Commit, State}
use agent_coordination.Engineering.Moves.{
  Follows, Move, plan_begins, plan_is_done, repair_is_done, review_approves, review_rejects,
  run_fails, tests_are_done, work_is_done,
}
use agent_coordination.Engineering.Operations.{
  Operation, perform, perform-Follows, transaction, transaction-Follows,
}
use agent_coordination.Domain.Enums.{EngineeringStatus, created, repairing}
use agent_coordination.Domain.Service.{EngineeringArtifact, EngineeringRun}

-- One step of the system. A method can be interrupted after its transaction, and then no job of it
-- is enqueued. The handlers add artifacts, the queue's methods change the jobs, and the API adds runs.
pub data Step : State → State → Type 0 where
  called :
      {s s' : State} (op : Operation) (draws : Draws) (id : ℕ) (answer : Bool)
      → perform op draws id s ≡ ok (answer, s')
      → Step s s'
  interrupted :
      {s : State} (op : Operation) (id : ℕ) (commit : Commit)
      → transaction op id s ≡ ok commit
      → Step s (record s { runs = commit.runs })
  handled :
      {s : State} (artifacts : List EngineeringArtifact)
      → Step s (record s { artifacts = artifacts })
  queued : {s : State} (jobs : List JobRecord) → Step s (record s { jobs = jobs })
  added :
      {s : State} (run : EngineeringRun)
      → run.status ≡ created
      → run.repair_count ≡ 0
      → All (λ r. nat_beq r.id run.id ≡ false) s.runs
      → Step s (record s { runs = s.runs ++ run ∷ [] })

pub data History : State → State → Type 0 where
  nothing : {s : State} → History s s
  followed : {s t u : State} → History s t → Step t u → History s u

-- The repairs stay within the bound, and a run that is being repaired has one left.
pub record RunOk (run : EngineeringRun) : Type 0 where
  pub bounded : run.repair_count ≤ run.max_repairs
  pub left_over : run.status ≡ repairing → run.repair_count < run.max_repairs

pub record RunsOk (runs : List EngineeringRun) : Type 0 where
  pub rows : All RunOk runs
  pub ids : Distinct run_key runs

Move-RunOk :
    {max_repairs n n' : ℕ} {s s' : EngineeringStatus}
    → Move max_repairs s n s' n'
    → n ≤ max_repairs
    → (s ≡ repairing → n < max_repairs)
    → (n' ≤ max_repairs) × (s' ≡ repairing → n' < max_repairs)
Move-RunOk plan_begins h k = (h, λ e. absurd (cc))
Move-RunOk plan_is_done h k = (h, λ e. absurd (cc))
Move-RunOk work_is_done h k = (h, λ e. absurd (cc))
Move-RunOk tests_are_done h k = (h, λ e. absurd (cc))
Move-RunOk review_approves h k = (h, λ e. absurd (cc))
Move-RunOk (review_rejects l) h k = (h, λ e. l)
Move-RunOk repair_is_done h k = (k refl, λ e. absurd (cc))
Move-RunOk (run_fails f) h k = (h, λ e. absurd (cc))

Moved-RunsOk :
    (id : ℕ) (runs after : List EngineeringRun) → Follows id runs after → RunsOk runs → RunsOk after
Moved-RunsOk id runs after (inl same) h = subst RunsOk (sym same) h
Moved-RunsOk id runs after (inr m) h =
    let before = All-at RunOk (find_row-Member run_key id runs m.before_move m.found) h.rows in
    let (bounded, left_over) = Move-RunOk m.move before.bounded before.left_over in
    let key = m.same_id ∙ find_row-id run_key id runs m.before_move m.found in
    subst RunsOk (sym m.written) (record {
      rows =
          put_row-All run_key RunOk id m.after_move runs
            (record {
              bounded = subst (λ n. m.after_move.repair_count ≤ n) (sym m.same_bound) bounded;
              left_over =
                  λ e. subst (λ n. m.after_move.repair_count < n) (sym m.same_bound) (left_over e);
            })
            h.rows;
      ids = put_row-Distinct run_key id m.after_move runs key h.ids;
    })

Step-RunsOk : {s s' : State} → Step s s' → RunsOk s.runs → RunsOk s'.runs
Step-RunsOk {s} {s'} (called op draws id answer e) h =
    Moved-RunsOk id s.runs s'.runs (perform-Follows op draws id s s' answer e) h
Step-RunsOk {s} (interrupted op id commit e) h =
    Moved-RunsOk id s.runs commit.runs (transaction-Follows op id s commit e) h
Step-RunsOk (handled artifacts) h = h
Step-RunsOk (queued jobs) h = h
Step-RunsOk {s} (added run new none_yet other) h = record {
  rows =
      All-append RunOk s.runs (run ∷ []) h.rows
        (record { bounded = omega (arith, none_yet); left_over = λ e. absurd (cc) }, tt);
  ids = Distinct-snoc run_key run s.runs other h.ids;
}

-- From a table for which this holds, after whatever sequence of calls, of calls interrupted before their jobs are enqueued, and of writes by
-- the handlers, the queue and the API: no engineering run does more repairs than its `max_repairs`,
-- one that is being repaired has a repair left, and no two runs have the same id.
pub History-RunsOk : {s s' : State} → History s s' → RunsOk s.runs → RunsOk s'.runs
History-RunsOk nothing h = h
History-RunsOk (followed before step) h = Step-RunsOk step (History-RunsOk before h)
