-- ===== src/Engineering/Moves.antt =====
-- The edges of the state machine, and that each transaction follows one of them or writes nothing.
use agent_coordination.Prelude.{
  Bool, List, Option, [], arith, false, find_row, find_row-id, find_row-put_row, if◌then◌else◌, inl,
  inr, ltb, nat_eq, not, put_row, put_row_twice, refl, some, string_eq, subst, suc, sym, true, ℕ,
  ◌<◌, ◌==◌, ◌∷◌, ◌≡◌, ◌⊎◌,
}
use agent_coordination.Errors.{Result, ok, ◌>>=◌}
use agent_coordination.Engineering.Runs.{
  allowed, increment_repair, increment_repair_lem, run_key, status_in, update_status_lem,
}
use agent_coordination.Queue.Orders.{Order}
use agent_coordination.Engineering.Orders.{test_order}
use agent_coordination.Engineering.{
  Commit, advance, fail_commit, fail_found, has_all_roles, leave, list_for_stage,
  maybe_schedule_tests_commit, plan_completed_commit, repair_completed_commit,
  review_completed_commit, run_of, start_commit, tests_completed_commit,
}
use agent_coordination.Domain.Enums.{
  EngineeringStatus, completed, created, engineering_status_eq, failed, implementation,
  implementing, planning, repairing, reviewing, testing,
}
use agent_coordination.Domain.Service.{EngineeringArtifact, EngineeringRun}

-- A run in one status, with so many repairs done, moves to another.
pub data Move (max_repairs : ℕ) : EngineeringStatus → ℕ → EngineeringStatus → ℕ → Type 0 where
  plan_begins : {n : ℕ} → Move max_repairs created n planning n
  plan_is_done : {n : ℕ} → Move max_repairs planning n implementing n
  work_is_done : {n : ℕ} → Move max_repairs implementing n testing n
  tests_are_done : {n : ℕ} → Move max_repairs testing n reviewing n
  review_approves : {n : ℕ} → Move max_repairs reviewing n completed n
  review_rejects : {n : ℕ} → n < max_repairs → Move max_repairs reviewing n repairing n
  repair_is_done : {n : ℕ} → Move max_repairs repairing n testing (suc n)
  run_fails :
      {s : EngineeringStatus} {n : ℕ}
      → status_in s (completed ∷ failed ∷ []) ≡ false
      → Move max_repairs s n failed n

-- The run with the number `id` moves, and no other row changes.
pub record Moved (id : ℕ) (runs after : List EngineeringRun) : Type 0 where
  pub before_move : EngineeringRun
  pub after_move : EngineeringRun
  pub found : find_row run_key id runs ≡ some before_move
  pub same_id : after_move.id ≡ before_move.id
  pub same_bound : after_move.max_repairs ≡ before_move.max_repairs
  pub move :
      Move before_move.max_repairs before_move.status before_move.repair_count after_move.status
        after_move.repair_count
  pub written : after ≡ put_row run_key id after_move runs

abbrev pub Follows : ℕ → List EngineeringRun → List EngineeringRun → Type 0
Follows id runs after = (after ≡ runs) ⊎ Moved id runs after

-- A transaction on a run that is there commits, along an edge or with nothing written.
abbrev pub Commits : ℕ → List EngineeringRun → Result Commit → Type 0
Commits id runs transaction =
    (commit : Commit) × (transaction ≡ ok commit) × Follows id runs commit.runs

-- A run that has not ended may fail.
fails_legal :
    (s : EngineeringStatus)
    → status_in s (completed ∷ failed ∷ []) ≡ false
    → status_in failed (allowed s) ≡ true
unfolding status_in
fails_legal created e = refl
fails_legal planning e = refl
fails_legal implementing e = refl
fails_legal testing e = refl
fails_legal reviewing e = refl
fails_legal repairing e = refl
fails_legal completed e = sym e
fails_legal failed e = sym e

repairing_testing : status_in testing (allowed repairing) ≡ true
unfolding status_in
repairing_testing = refl

module _ (id : ℕ) (runs : List EngineeringRun) (run : EngineeringRun)
    (found : find_row run_key id runs ≡ some run) where
  abbrev moved_to : EngineeringStatus → EngineeringRun
  moved_to status = record run { status = status }

  advance-Commits :
      (status : EngineeringStatus) (orders : List Order) (answer : Bool)
      → status_in status (allowed run.status) ≡ true
      → Move run.max_repairs run.status run.repair_count status run.repair_count
      → Commits id runs (advance id status orders answer runs)
  advance-Commits status orders answer legal move = (
    record { runs = put_row run_key id (moved_to status) runs; orders = orders; answer = answer },
    rw (update_status_lem id status runs run found legal) refl,
    inr (record {
      before_move = run;
      after_move = moved_to status;
      found = found;
      same_id = refl;
      same_bound = refl;
      move = move;
      written = refl;
    }),
  )

  leave-Commits : (orders : List Order) (answer : Bool) → Commits id runs (leave orders answer runs)
  leave-Commits orders answer = (_, refl, inl refl)

  if-Commits :
      (c : Bool) {t f : Result Commit}
      → (c ≡ true → Commits id runs t)
      → (c ≡ false → Commits id runs f)
      → Commits id runs (if c then t else f)
  if-Commits true yes_case no_case = yes_case refl
  if-Commits false yes_case no_case = no_case refl

  -- From a status that a test has found.
  advance_from :
      (from status : EngineeringStatus) (orders : List Order) (answer : Bool)
      → (run.status == from) ≡ true
      → status_in status (allowed from) ≡ true
      → Move run.max_repairs from run.repair_count status run.repair_count
      → Commits id runs (advance id status orders answer runs)
  advance_from from status orders answer e legal move =
      let same = sym ((engineering_status_eq.beq_iff run.status from).0 e) in
      advance-Commits status orders answer
        (subst (λ s. status_in status (allowed s) ≡ true) same legal)
        (subst (λ s. Move run.max_repairs s run.repair_count status run.repair_count) same move)

  run_found : ok run ≡ run_of id runs
  run_found = rw (found, run_of) refl

  -- What follows the lookup of the run.
  from-Commits :
      (next : EngineeringRun → Result Commit)
      → Commits id runs (next run)
      → Commits id runs (run_of id runs >>= next)
  from-Commits next h =
      subst (λ (r : Result EngineeringRun). Commits id runs (r >>= next)) run_found h

  pub start-Commits : Commits id runs (start_commit id runs)
  unfolding start_commit status_in
  start-Commits = from-Commits _ (
      if-Commits (run.status == created) (λ e. advance_from created planning _ _ e refl plan_begins)
        λ e. if-Commits (run.status == planning) (λ k. leave-Commits _ _) λ k. leave-Commits _ _)

  pub plan_completed-Commits : Commits id runs (plan_completed_commit id runs)
  unfolding plan_completed_commit status_in
  plan_completed-Commits = from-Commits _ (
      if-Commits (run.status == planning)
        (λ e. advance_from planning implementing _ _ e refl plan_is_done)
        λ e.
          if-Commits (run.status == implementing) (λ k. leave-Commits _ _) λ k. leave-Commits _ _)

  pub maybe_schedule_tests-Commits :
      (artifacts : List EngineeringArtifact)
      → Commits id runs (maybe_schedule_tests_commit id artifacts runs)
  unfolding maybe_schedule_tests_commit status_in
  maybe_schedule_tests-Commits artifacts = from-Commits _ (
      if-Commits (not (run.status == implementing)) (λ e. leave-Commits _ _)
        λ e.
          if-Commits (not (has_all_roles (list_for_stage id implementation 0 artifacts)))
            (λ k. leave-Commits _ _)
            λ k. advance_from implementing testing _ _ (ground arith) refl work_is_done)

  pub tests_completed-Commits : Commits id runs (tests_completed_commit id runs)
  unfolding tests_completed_commit status_in
  tests_completed-Commits = from-Commits _ (
      if-Commits (run.status == testing)
        (λ e. advance_from testing reviewing _ _ e refl tests_are_done)
        λ e. if-Commits (run.status == reviewing) (λ k. leave-Commits _ _) λ k. leave-Commits _ _)

  pub review_completed-Commits :
      (approved : Bool) → Commits id runs (review_completed_commit id approved runs)
  unfolding review_completed_commit status_in
  review_completed-Commits approved = from-Commits _ (
      if-Commits (not (run.status == reviewing)) (λ e. leave-Commits _ _)
        λ e.
          let here : (run.status == reviewing) ≡ true = ground arith in
          if-Commits approved (λ k. advance_from reviewing completed _ _ here refl review_approves)
            λ k.
              if-Commits (ltb run.repair_count run.max_repairs)
                (λ l.
                  advance_from reviewing repairing _ _ here refl (review_rejects (ground arith)))
                λ l. advance_from reviewing failed _ _ here refl (run_fails refl))

  abbrev repaired : EngineeringRun
  repaired = record run { repair_count = suc run.repair_count }

  abbrev at_tests : EngineeringRun
  at_tests = record repaired { status = testing }

  -- Two writes of the same row leave the second one.
  advance_repaired :
      (orders : EngineeringRun → List Order)
      → (run.status == repairing) ≡ true
      → Commits id runs (
          increment_repair id runs >>= λ written.
          advance id testing (orders written.0) true written.1)
  advance_repaired orders e =
      let same = (engineering_status_eq.beq_iff run.status repairing).0 e in
      let key = find_row-id run_key id runs run found in
      let between = put_row run_key id repaired runs in
      let written = increment_repair_lem id runs run found in
      let found_again = find_row-put_row run_key id repaired run runs found key in
      let legal = subst (λ s. status_in testing (allowed s) ≡ true) (sym same) repairing_testing in
      let moved = update_status_lem id testing between repaired found_again legal in
      (
        record {
          runs = put_row run_key id at_tests between;
          orders = orders repaired;
          answer = true;
        },
        rw (written, moved) refl,
        inr (record {
          before_move = run;
          after_move = at_tests;
          found = found;
          same_id = refl;
          same_bound = refl;
          move =
              subst (λ s. Move run.max_repairs s run.repair_count testing (suc run.repair_count))
                (sym same) repair_is_done;
          written = put_row_twice run_key id repaired at_tests runs key;
        }),
      )

  pub fail-Commits : Commits id runs (fail_commit id runs)
  unfolding fail_commit status_in
  fail-Commits =
      subst (λ (r : Option EngineeringRun). Commits id runs (fail_found id runs r)) (sym found)
        (if-Commits (status_in run.status (completed ∷ failed ∷ [])) (λ e. leave-Commits _ _)
          λ e. advance-Commits failed _ _ (fails_legal run.status e) (run_fails e))

  pub repair_completed-Commits : Commits id runs (repair_completed_commit id runs)
  unfolding repair_completed_commit
  repair_completed-Commits = from-Commits _ (
      if-Commits (not (run.status == repairing)) (λ e. leave-Commits _ _)
        λ e. advance_repaired (λ r. test_order id r.repair_count ∷ []) (ground arith))
