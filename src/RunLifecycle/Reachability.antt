-- ===== src/RunLifecycle/Reachability.antt =====
-- The lifecycle of a run: which statuses a sequence of accepted updates can reach.
use agent_coordination.Prelude.{
  nat_beq, put_row, ℕ, false, List, some, ◌≡◌, refl, ◌≢◌, inl, inr, ◌↔◌, arith, find_row,
  find_row-put_row, find_row-put_row_other, find_row-id, Option-cases,
}
use agent_coordination.Errors.{ok}
use agent_coordination.Domain.Enums.{
  RunStatus, created, researching, judging, completed, paused, failed,
}
use agent_coordination.Domain.Research.{Run}
use agent_coordination.RunLifecycle.{assert_run_transition, update_status, write_status, run_id}

-- The lifecycle drawn as a relation, independently of the table.
infix 40 ◌⟶◌
pub data ◌⟶◌ : RunStatus → RunStatus → Type 0 where
  begin : created ⟶ researching
  judge : researching ⟶ judging
  advance : judging ⟶ researching
  finish : judging ⟶ completed
  pause_created : created ⟶ paused
  pause_researching : researching ⟶ paused
  pause_judging : judging ⟶ paused
  resume_researching : paused ⟶ researching
  resume_judging : paused ⟶ judging
  abort : {s : RunStatus} → s ≢ completed → s ≢ failed → s ⟶ failed

accepted-⟶ : (s t : RunStatus) → assert_run_transition s t ≡ ok tt → s ⟶ t
unfolding assert_run_transition
accepted-⟶ s t h = grind (
  arith, begin, judge, advance, finish, pause_created, pause_researching, pause_judging,
  resume_researching, resume_judging, abort,
)

⟶-accepted : {s t : RunStatus} → s ⟶ t → assert_run_transition s t ≡ ok tt
unfolding assert_run_transition
⟶-accepted begin = refl
⟶-accepted judge = refl
⟶-accepted advance = refl
⟶-accepted finish = refl
⟶-accepted pause_created = refl
⟶-accepted pause_researching = refl
⟶-accepted pause_judging = refl
⟶-accepted resume_researching = refl
⟶-accepted resume_judging = refl
⟶-accepted (abort {s} c f) = ground arith

-- `assert_run_transition` accepts exactly the steps of the lifecycle diagram: a run starts by
-- researching, judging follows research and leads to the next round or to completion, a run that
-- has begun can be paused and resumed, and every unfinished run can fail.
pub assert_run_transition-iff_⟶ : (s t : RunStatus) → (assert_run_transition s t ≡ ok tt) ↔ (s ⟶ t)
assert_run_transition-iff_⟶ s t = (accepted-⟶ s t, ⟶-accepted)

module _ {F : Type 0} (id : ℕ) (target : RunStatus) (runs : List (Run F)) where
  -- What an accepted update did to the table.
  pub record Updated (after : List (Run F)) : Type 0 where
    pub old : Run F
    pub found : find_row run_id id runs ≡ some old
    pub stepped : old.status ⟶ target
    pub written : find_row run_id id after ≡ some (record old { status = target })
    pub others :
        (other : ℕ)
        → nat_beq id other ≡ false
        → find_row run_id other after ≡ find_row run_id other runs

  write_status-Updated :
      (old : Run F) {after : List (Run F)}
      → find_row run_id id runs ≡ some old
      → write_status id target runs (some old) ≡ ok after
      → Updated after
  unfolding write_status
  write_status-Updated old {after} found h =
      let accepted : assert_run_transition old.status target ≡ ok tt = ground arith in
      let written : put_row run_id id (record old { status = target }) runs ≡ after =
        ground arith in
      let same = find_row-id run_id id runs old found in
      rw (← written) (record {
        old = old;
        found = found;
        stepped = accepted-⟶ old.status target accepted;
        written = find_row-put_row run_id id (record old { status = target }) old runs found same;
        others = λ other differs.
            find_row-put_row_other run_id id other (record old { status = target }) runs same
              differs;
      })

  -- An accepted `update_status` takes the run along an edge of the lifecycle diagram: it writes the
  -- new status of that run, nothing else of it, and leaves the row of every other run as it was.
  pub update_status-Updated :
      {after : List (Run F)} → update_status id target runs ≡ ok after → Updated after
  unfolding update_status
  update_status-Updated {after} h = elim (Option-cases (find_row run_id id runs)) [
    | inl missing ↦ absurd (cc (rw missing at h))
    | inr (old, found) ↦ write_status-Updated old found (rw found at h)
  ]
