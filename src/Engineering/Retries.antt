-- ===== src/Engineering/Retries.antt =====
-- What a repeated call does for the jobs of a call that was interrupted before it enqueued them.
use agent_coordination.Prelude.{
  All, Bool, Bool-cases, List, [], ap, arith, find_row, find_row-id, find_row-put_row,
  if◌then◌else◌, inl, inr, map, nat_eq, none, put_row, refl, some, string_eq, subst, suc, sym, true,
  ℕ, ◌==◌, ◌∙◌, ◌∷◌, ◌≡◌,
}
use agent_coordination.Errors.{Result-cases, ok}
use agent_coordination.Engineering.Runs.{
  allowed, run_key, status_in, update_status, update_status_lem,
}
use agent_coordination.Queue.Orders.{Draws, Order, enqueue_all}
use agent_coordination.Engineering.Orders.{
  cycle_order, implement_order, implementer_roles, plan_order, test_order,
}
use agent_coordination.Queue.Rows.{JobRecord}
use agent_coordination.Queue.Enqueue.{enqueue_inserts, insert_job-keeps}
use agent_coordination.Engineering.{
  Commit, State, advance, carry_out, has_all_roles, leave, list_for_stage, maybe_schedule_tests,
  maybe_schedule_tests_commit, plan_completed_commit, run_of, start_commit, tests_completed_commit,
}
use agent_coordination.Engineering.Operations.{
  Operation, carry_out_returns, on_plan, on_start, on_tests, perform, perform_lem, transaction,
  transaction-Commits,
}
use agent_coordination.Queue.{find_key, insert_job, new_record}
use agent_coordination.Domain.Enums.{
  EngineeringStatus, EngineeringStatus-discrete, created, engineering_review, engineering_status_eq,
  implementation, implementing, planning, reviewing, testing,
}
use agent_coordination.Domain.Service.{EngineeringRun}

-- The queue has a job with the key of the order.
abbrev pub Enqueued : Order → List JobRecord → Type 0
Enqueued o jobs = (r : JobRecord) × (find_key o.key jobs ≡ some r)

enqueue_all-keeps :
    (draws : Draws) (drawn : ℕ) (orders : List Order) (o : Order) (jobs after : List JobRecord)
    → enqueue_all draws drawn orders jobs ≡ ok after
    → Enqueued o jobs
    → Enqueued o after
unfolding enqueue_all
enqueue_all-keeps draws drawn [] o jobs after e (r, found) = (r, ground (arith, e, found))
enqueue_all-keeps draws drawn (x ∷ rest) o jobs after e (r, found) =
    let (s, k, _) =
      enqueue_inserts (draws.ids drawn) draws.now x.job_type x.payload x.key 3 none jobs
        (omega arith) in
    let row = new_record (draws.ids drawn) draws.now x.job_type x.payload x.key 3 none in
    enqueue_all-keeps draws (suc drawn) rest o (insert_job row jobs) after
      (rw (k, enqueue_all) at e) (r, insert_job-keeps row r o.key jobs found)

enqueue_all-Enqueued :
    (draws : Draws) (drawn : ℕ) (orders : List Order) (jobs after : List JobRecord)
    → enqueue_all draws drawn orders jobs ≡ ok after
    → All (λ o. Enqueued o after) orders
unfolding enqueue_all
enqueue_all-Enqueued draws drawn [] jobs after e = tt
enqueue_all-Enqueued draws drawn (x ∷ rest) jobs after e =
    let (s, k, found) =
      enqueue_inserts (draws.ids drawn) draws.now x.job_type x.payload x.key 3 none jobs
        (omega arith) in
    let row = new_record (draws.ids drawn) draws.now x.job_type x.payload x.key 3 none in
    let tail = rw (k, enqueue_all) at e in
    (
      enqueue_all-keeps draws (suc drawn) rest x (insert_job row jobs) after tail (s, found),
      enqueue_all-Enqueued draws (suc drawn) rest (insert_job row jobs) after tail,
    )

-- The method returns, with the runs that its transaction leaves and a job for each of its orders.
abbrev pub Orders : Draws → Operation → ℕ → State → List Order → Type 0
Orders draws op id state orders =
    (answer : Bool) × (after : State) × (perform op draws id state ≡ ok (answer, after))
    × All (λ o. Enqueued o after.jobs) orders

orders_lem :
    (draws : Draws) (op : Operation) (id : ℕ) (state : State) (commit : Commit)
    → transaction op id state ≡ ok commit
    → Orders draws op id state commit.orders
orders_lem draws op id state commit e =
    let (jobs, k, h) = carry_out_returns draws state commit in
    (
      commit.answer,
      record state { runs = commit.runs; jobs = jobs },
      perform_lem op draws id state ∙ ap (carry_out draws state) e ∙ h,
      enqueue_all-Enqueued draws 0 commit.orders state.jobs jobs k,
    )

same_commit : {a b : Commit} → ok a ≡ ok b → a ≡ b
same_commit e = cc

advance_orders :
    (id : ℕ) (status : EngineeringStatus) (orders : List Order) (answer : Bool)
    (runs : List EngineeringRun) (commit : Commit)
    → advance id status orders answer runs ≡ ok commit
    → commit.orders ≡ orders
advance_orders id status orders answer runs commit e =
    elim (Result-cases (update_status id status runs)) [
      | inl (written, k) ↦ ap (λ (c : Commit). c.orders) (sym (same_commit (rw k at e)))
      | inr (x, k) ↦ absurd (ground (arith, rw k at e))
    ]

leave_orders :
    (orders : List Order) (answer : Bool) (runs : List EngineeringRun) (commit : Commit)
    → leave orders answer runs ≡ ok commit
    → commit.orders ≡ orders
leave_orders orders answer runs commit e = ap (λ (c : Commit). c.orders) (sym (same_commit e))

found_run :
    (id : ℕ) (runs : List EngineeringRun) (run : EngineeringRun)
    → find_row run_key id runs ≡ some run
    → run_of id runs ≡ ok run
found_run id runs run found = rw (found, run_of) refl

-- The three methods that enqueue again when the run has moved already.
either_orders :
    (id : ℕ) (runs : List EngineeringRun) (s before next after : EngineeringStatus)
    (orders : List Order) (commit : Commit)
    → status_in s (before ∷ after ∷ []) ≡ true
    → (if s == before
        then advance id next orders true runs
        else if s == after
        then leave orders true runs
        else leave [] true runs)
      ≡ ok commit
    → commit.orders ≡ orders
unfolding status_in
either_orders id runs s before next after orders commit h e = elim (Bool-cases (s == before)) [
  | inl c ↦ advance_orders id next orders true runs commit (rw c at e)
  | inr c ↦ elim (Bool-cases (s == after)) [
    | inl p ↦ leave_orders orders true runs commit (rw (c, p) at e)
    | inr p ↦ absurd (ground arith)
  ]
]

module _ (draws : Draws) (id : ℕ) (state : State) (run : EngineeringRun)
    (found : find_row run_key id state.runs ≡ some run) where
  recovers :
      (op : Operation) (orders : List Order)
      → ((commit : Commit) → transaction op id state ≡ ok commit → commit.orders ≡ orders)
      → Orders draws op id state orders
  recovers op orders same =
      let (commit, e, _) = transaction-Commits op id state run found in
      subst (Orders draws op id state) (same commit e) (orders_lem draws op id state commit e)

  -- A call of `start` on a run that is created, or was left in planning by a call that was
  -- interrupted, returns and leaves the planning job in the queue.
  start_recovers :
      status_in run.status (created ∷ planning ∷ []) ≡ true
      → Orders draws on_start id state (plan_order id ∷ [])
  unfolding transaction start_commit EngineeringStatus-discrete
  start_recovers h = recovers on_start (plan_order id ∷ []) λ commit e.
      either_orders id state.runs run.status created planning planning (plan_order id ∷ []) commit h
        (rw (found_run id state.runs run found, start_commit) at e)

  -- A call of `plan_completed` on a run in planning, or one that was left in implementation by a call
  -- that was interrupted, returns and leaves the jobs of both implementers in the queue.
  plan_completed_recovers :
      status_in run.status (planning ∷ implementing ∷ []) ≡ true
      → Orders draws on_plan id state (map (implement_order id) implementer_roles)
  unfolding transaction plan_completed_commit EngineeringStatus-discrete
  plan_completed_recovers h =
      recovers on_plan (map (implement_order id) implementer_roles) λ commit e.
        either_orders id state.runs run.status planning implementing implementing
          (map (implement_order id) implementer_roles) commit h
          (rw (found_run id state.runs run found, plan_completed_commit) at e)

  -- A call of `tests_completed` on a run in tests, or one that was left in review by a call that was
  -- interrupted, returns and leaves the review job of the run's cycle in the queue.
  pub tests_completed_recovers :
      status_in run.status (testing ∷ reviewing ∷ []) ≡ true
      → Orders draws on_tests id state
          (cycle_order engineering_review "review" id run.repair_count run.repair_count ∷ [])
  unfolding transaction tests_completed_commit EngineeringStatus-discrete
  tests_completed_recovers h =
      let orders =
        cycle_order engineering_review "review" id run.repair_count run.repair_count ∷ [] in
      recovers on_tests orders λ commit e.
        either_orders id state.runs run.status testing reviewing reviewing orders commit h
          (rw (found_run id state.runs run found, tests_completed_commit) at e)

  -- When `maybe_schedule_tests` is interrupted between its commit, of a run whose implementers are
  -- all done, and its enqueue, then a repeated call returns True and changes nothing: it does not
  -- enqueue the tests of the run.
  pub interrupted_tests_lost :
      run.status ≡ implementing
      → has_all_roles (list_for_stage id implementation 0 state.artifacts) ≡ true
      → (commit : Commit) × (maybe_schedule_tests_commit id state.artifacts state.runs ≡ ok commit)
        × (commit.orders ≡ test_order id 0 ∷ [])
        × (maybe_schedule_tests draws id (record state { runs = commit.runs })
            ≡ ok (true, record state { runs = commit.runs }))
  unfolding maybe_schedule_tests_commit maybe_schedule_tests carry_out enqueue_all status_in
  interrupted_tests_lost at_work done =
      let changed = record run { status = testing } in
      let working = (engineering_status_eq.beq_iff run.status implementing).1 at_work in
      let legal = subst (λ s. status_in testing (allowed s) ≡ true) (sym at_work) refl in
      let key = find_row-id run_key id state.runs run found in
      let after = put_row run_key id changed state.runs in
      let again = find_row-put_row run_key id changed run state.runs found key in
      (
        record { runs = after; orders = test_order id 0 ∷ []; answer = true },
        rw
            (
              found_run id state.runs run found,
              maybe_schedule_tests_commit,
              working,
              done,
              update_status_lem id testing state.runs run found legal,
            )
            refl,
        refl,
        rw (found_run id after changed again, maybe_schedule_tests, maybe_schedule_tests_commit)
            refl,
      )
