-- ===== src/Engineering/Progress.antt =====
-- Every engineering run comes to an end.
use agent_coordination.Prelude.{
  All-at, Bool-cases, List, [], ap, arith, false, find_row, find_row-Member, find_row-id,
  find_row-put_row, find_row-put_row_other, inl, inr, nat_beq, nat_beq_iff, refl, some, subst, sym,
  true, ℕ, ◌*◌, ◌++◌, ◌+◌, ◌-◌, ◌<◌, ◌∙◌, ◌∷◌, ◌≡◌, ◌⊎◌,
}
use agent_coordination.Engineering.Runs.{run_key, status_in}
use agent_coordination.Engineering.{State}
use agent_coordination.Engineering.Moves.{
  Follows, Move, plan_begins, plan_is_done, repair_is_done, review_approves, review_rejects,
  run_fails, tests_are_done, work_is_done,
}
use agent_coordination.Engineering.Operations.{perform-Follows, transaction-Follows}
use agent_coordination.Engineering.Histories.{
  History, History-RunsOk, RunOk, RunsOk, Step, added, called, followed, handled, interrupted,
  nothing, queued,
}
use agent_coordination.Domain.Enums.{
  EngineeringStatus, completed, created, failed, implementing, planning, repairing, reviewing,
  testing,
}
use agent_coordination.Domain.Service.{EngineeringRun}

-- How many changes of status a run can still make, with so many repairs left: `3 * repairs + 5` when
-- it is created, and none when it has ended.
unfoldable pub changes_left : EngineeringStatus → ℕ → ℕ
changes_left created repairs = 3 * repairs + 5
changes_left planning repairs = 3 * repairs + 4
changes_left implementing repairs = 3 * repairs + 3
changes_left testing repairs = 3 * repairs + 2
changes_left reviewing repairs = 3 * repairs + 1
changes_left repairing repairs = 3 * repairs
changes_left completed repairs = 0
changes_left failed repairs = 0

abbrev pub steps_left : EngineeringRun → ℕ
steps_left run = changes_left run.status (run.max_repairs - run.repair_count)

fails_sooner :
    (s : EngineeringStatus) (max_repairs n : ℕ)
    → status_in s (completed ∷ failed ∷ []) ≡ false
    → (s ≡ repairing → n < max_repairs)
    → 0 < changes_left s (max_repairs - n)
unfolding changes_left status_in
fails_sooner created max_repairs n f k = omega arith
fails_sooner planning max_repairs n f k = omega arith
fails_sooner implementing max_repairs n f k = omega arith
fails_sooner testing max_repairs n f k = omega arith
fails_sooner reviewing max_repairs n f k = omega arith
fails_sooner repairing max_repairs n f k = omega (arith, k refl)
fails_sooner completed max_repairs n f k = absurd (cc)
fails_sooner failed max_repairs n f k = absurd (cc)

Move-decreases :
    {max_repairs n n' : ℕ} {s s' : EngineeringStatus}
    → Move max_repairs s n s' n'
    → (s ≡ repairing → n < max_repairs)
    → changes_left s' (max_repairs - n') < changes_left s (max_repairs - n)
unfolding changes_left
Move-decreases plan_begins k = omega arith
Move-decreases plan_is_done k = omega arith
Move-decreases work_is_done k = omega arith
Move-decreases tests_are_done k = omega arith
Move-decreases review_approves k = omega arith
Move-decreases (review_rejects l) k = omega (arith, l)
Move-decreases repair_is_done k = omega (arith, k refl)
Move-decreases {max_repairs} {n} {n'} {s} {s'} (run_fails f) k = fails_sooner s max_repairs n f k

-- A run in the table, after some steps: the same as before, or with fewer changes left.
abbrev pub Advanced : ℕ → EngineeringRun → List EngineeringRun → Type 0
Advanced id run after =
    (later_run : EngineeringRun) × (find_row run_key id after ≡ some later_run)
    × ((later_run ≡ run) ⊎ (steps_left later_run < steps_left run))

find_row-append :
    (id : ℕ) (runs more : List EngineeringRun) (run : EngineeringRun)
    → find_row run_key id runs ≡ some run
    → find_row run_key id (runs ++ more) ≡ some run
unfolding find_row
find_row-append id [] more run e = absurd (cc)
find_row-append id (r ∷ runs) more run e = ground (arith, find_row-append id runs more run, e)

same_some : {a b : EngineeringRun} → some a ≡ some b → a ≡ b
same_some e = cc

Follows-Advanced :
    (id other : ℕ) (runs after : List EngineeringRun) (run : EngineeringRun)
    → RunsOk runs
    → find_row run_key id runs ≡ some run
    → Follows other runs after
    → Advanced id run after
Follows-Advanced id other runs after run h e (inl same) =
    (run, ap (find_row run_key id) same ∙ e, inl refl)
Follows-Advanced id other runs after run h e (inr m) =
    let key = m.same_id ∙ find_row-id run_key other runs m.before_move m.found in
    elim (Bool-cases (nat_beq other id)) [
      | inr differs ↦ (
        run,
        ap (find_row run_key id) m.written
            ∙ find_row-put_row_other run_key other id m.after_move runs key differs
            ∙ e,
        inl refl,
      )
      | inl same ↦
          let here = (nat_beq_iff other id).0 same in
          let before : m.before_move ≡ run =
            same_some (sym m.found ∙ ap (λ i. find_row run_key i runs) here ∙ e) in
          let fewer =
            Move-decreases m.move
              (All-at RunOk (find_row-Member run_key other runs m.before_move m.found)
                h.rows).left_over in
          (
            m.after_move,
            subst (λ i. find_row run_key i after ≡ some m.after_move) here
                (ap (find_row run_key other) m.written
                  ∙ find_row-put_row run_key other m.after_move m.before_move runs m.found key),
            inr (
                subst (λ (r : EngineeringRun). steps_left m.after_move < steps_left r) before
                  (subst
                    (λ b.
                      changes_left m.after_move.status (b - m.after_move.repair_count)
                      < steps_left m.before_move)
                    (sym m.same_bound) fewer)),
          )
    ]

Step-Advanced :
    {s s' : State} (id : ℕ) (run : EngineeringRun)
    → Step s s'
    → RunsOk s.runs
    → find_row run_key id s.runs ≡ some run
    → Advanced id run s'.runs
Step-Advanced {s} {s'} id run (called op draws other answer k) h e =
    Follows-Advanced id other s.runs s'.runs run h e (perform-Follows op draws other s s' answer k)
Step-Advanced {s} id run (interrupted op other commit k) h e =
    Follows-Advanced id other s.runs commit.runs run h e (transaction-Follows op other s commit k)
Step-Advanced id run (handled artifacts) h e = (run, e, inl refl)
Step-Advanced id run (queued jobs) h e = (run, e, inl refl)
Step-Advanced {s} id run (added new status none_yet other) h e =
    (run, find_row-append id s.runs (new ∷ []) run e, inl refl)

further :
    {a b c : EngineeringRun}
    → (b ≡ a) ⊎ (steps_left b < steps_left a)
    → (c ≡ b) ⊎ (steps_left c < steps_left b)
    → (c ≡ a) ⊎ (steps_left c < steps_left a)
further (inl e) (inl f) = inl (f ∙ e)
further {a} {b} {c} (inl e) (inr l) =
    inr (subst (λ (r : EngineeringRun). steps_left c < steps_left r) e l)
further {a} {b} {c} (inr l) (inl f) =
    inr (subst (λ (r : EngineeringRun). steps_left r < steps_left a) (sym f) l)
further (inr k) (inr l) = inr (omega (arith, k, l))

-- A run in a table whose runs keep to their bounds stays there: after any history it is either
-- unchanged or has fewer changes of status left, by `changes_left`.
pub History-Advanced :
    {s s' : State} (id : ℕ) (run : EngineeringRun)
    → History s s'
    → RunsOk s.runs
    → find_row run_key id s.runs ≡ some run
    → Advanced id run s'.runs
History-Advanced id run nothing h e = (run, e, inl refl)
History-Advanced id run (followed before step) h e =
    let (middle, found, first_part) = History-Advanced id run before h e in
    let (last, k, second_part) = Step-Advanced id middle step (History-RunsOk before h) found in
    (last, k, further first_part second_part)

no_changes_left :
    (status : EngineeringStatus) (repairs : ℕ)
    → status_in status (completed ∷ failed ∷ []) ≡ true
    → changes_left status repairs ≡ 0
unfolding changes_left status_in
no_changes_left created repairs h = absurd (cc)
no_changes_left planning repairs h = absurd (cc)
no_changes_left implementing repairs h = absurd (cc)
no_changes_left testing repairs h = absurd (cc)
no_changes_left reviewing repairs h = absurd (cc)
no_changes_left repairing repairs h = absurd (cc)
no_changes_left completed repairs h = refl
no_changes_left failed repairs h = refl

-- In a table whose runs keep to their bounds, a run that is completed or has failed is never changed
-- again, whatever is called.
pub ended_stays :
    {s s' : State} (id : ℕ) (run : EngineeringRun)
    → History s s'
    → RunsOk s.runs
    → find_row run_key id s.runs ≡ some run
    → status_in run.status (completed ∷ failed ∷ []) ≡ true
    → find_row run_key id s'.runs ≡ some run
ended_stays id run history h e ended =
    let (last, k, more) = History-Advanced id run history h e in
    elim more [
      | inl same ↦ k ∙ ap some same
      | inr fewer ↦ absurd (
          omega
            (arith, fewer, no_changes_left run.status (run.max_repairs - run.repair_count) ended))
    ]
