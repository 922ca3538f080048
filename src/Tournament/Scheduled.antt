-- ===== src/Tournament/Scheduled.antt =====
-- `maybe_schedule_judging` of packages/core/orchestration/tournament.py and the job that it
-- schedules, which `start_judging` carries out.
use agent_coordination.Store.{Session, Store, Tx, gets, lift, pure, ◌>>=◌, ◌>>◌}
use agent_coordination.Store.Returns.{
  >>-Returns, >>=-Returns, Returns, append_event-Returns, pure-Returns,
}
use agent_coordination.Store.Effects.{Anything}
use agent_coordination.Prelude.{
  List, [], ap, find_row, find_row-id, map, refl, some, subst, sym, true, ℕ, ◌∙◌, ◌∷◌, ◌≡◌,
}
use agent_coordination.Store.Repositories.{get_run}
use agent_coordination.Tournament.Calls.{
  Called, accepted, ensure_judges-Returns, update_run_status-Returns,
}
use agent_coordination.Tournament.Ready.{Ready, numbered, schedule-Ready}
use agent_coordination.Tournament.Judging.{
  begin_judging, call_judges, ensure_judges, maybe_schedule_judging, research_is_complete,
  start_judging,
}
use agent_coordination.Tournament.Cast.{judge_count, judge_order, range_from, start_judging_order}
use agent_coordination.Tournament.Queries.{require_run}
use agent_coordination.Domain.Data.{judge}
use agent_coordination.Domain.Research.{Agent, Generation, Run}
use agent_coordination.Domain.Enums.{judging, researching, run_status_eq}
use agent_coordination.Errors.{ok}
use agent_coordination.RunLifecycle.{assert_run_transition, member, run_id}
use agent_coordination.Queue.Orders.{Order}
use agent_coordination.Store.{Session, Store, Tx, gets, lift, pure, ◌>>=◌, ◌>>◌}  -- What `start_judging` gives.

abbrev Judged : ℕ → Generation → List Agent × List Order → Type 0
Judged id generation r =
    Called judge (range_from 0 judge_count) r.0 × (r.1 ≡ map (judge_order id generation.id) r.0)

module _ {F : Type 0} where
  -- `begin_judging` of a run in research.
  judging_begins :
      {runs : List (Run F)} (run : Run F) (generation : Generation)
      → run.status ≡ researching
      → find_row run_id run.id runs ≡ some run
      → (after : List (Run F)) × Returns runs after (begin_judging run generation) Anything
        × (find_row run_id run.id after ≡ some (record run { status = judging }))
  unfolding begin_judging assert_run_transition
  judging_begins run generation is found =
      let (after, written, here) =
        accepted _ run judging found
          (subst (λ t. assert_run_transition t judging ≡ ok tt) (sym is) refl) in
      (
        after,
        rw ((run_status_eq.beq_iff run.status researching).1 is, begin_judging)
            (>>-Returns (update_run_status-Returns run.id judging written)
              (append_event-Returns run.id _ _)),
        here,
      )

  abbrev called_judges : ℕ → Run F → Generation → Tx F (List Agent × List Order)
  called_judges id run generation = ensure_judges id generation >>= λ judges.
      begin_judging run generation >> pure (judges, map (judge_order id generation.id) judges)

  called_judges-Returns :
      {runs after : List (Run F)} (id : ℕ) (run : Run F) (generation : Generation)
      → Returns runs after (begin_judging run generation) Anything
      → Returns runs after (called_judges id run generation) (Judged id generation)
  called_judges-Returns id run generation begins =
      >>=-Returns (ensure_judges-Returns id generation)
        λ judges called. >>-Returns begins (pure-Returns _ (called, refl))

  complete_calls :
      (id : ℕ) (run : Run F) (generation : Generation) (s : Session F)
      → research_is_complete run generation s.store ≡ true
      → call_judges id run generation s ≡ called_judges id run generation s
  unfolding call_judges ◌>>=◌ gets
  complete_calls id run generation s complete = rw complete refl

  begins_to_call :
      (id gid : ℕ) (s : Session F) (run : Run F) (generation : Generation)
      → Ready id gid s.store run generation
      → start_judging id (some gid) s ≡ call_judges id run generation s
  unfolding start_judging ◌>>=◌ gets lift require_run member
  begins_to_call id gid s run generation r =
      rw (r.found, ◌>>=◌, r.status, r.resolved, r.latest) refl

  -- When `maybe_schedule_judging` of a generation answers True, it enqueues one job, which is to
  -- start the judging of that generation. When that job is carried out on the same tables,
  -- `start_judging` returns the judges 0 and 1 in this order, with one job for each, and the run is
  -- in judging.
  pub scheduled_judging_returns :
      (id gid : ℕ) (s t at_job : Session F) (orders : List Order)
      → maybe_schedule_judging id (some gid) s ≡ ok ((true, orders), t)
      → at_job.store ≡ s.store
      → (orders ≡ start_judging_order id gid ∷ [])
        × (judges : List Agent) × (run : Run F) × (after : Session F) × (start_judging id
              (some gid)
              at_job
            ≡ ok ((judges, map (judge_order id gid) judges), after))
        × Called judge (range_from 0 judge_count) judges
        × (get_run id after.store ≡ some run)
        × (run.status ≡ judging)
  unfolding get_run
  scheduled_judging_returns id gid s t at_job orders h same =
      let (run, generation, ready, jobs) = schedule-Ready id gid s t orders h in
      let there : Ready id gid at_job.store run generation =
        subst (λ (x : Store F). Ready id gid x run generation) (sym same) ready in
      let number = numbered id gid at_job.store generation there.resolved in
      let is = find_row-id run_id id at_job.store.runs run there.found in
      let (after, begins, here) =
        judging_begins run generation there.status
          (subst (λ n. find_row run_id n at_job.store.runs ≡ some run) (sym is) there.found) in
      let ((judges, calls), u, e, kept, (called, each)) =
        (called_judges-Returns id run generation begins).apply at_job refl in
      (
        jobs ∙ ap (λ n. start_judging_order id n ∷ []) number,
        judges,
        record run { status = judging },
        u,
        begins_to_call id gid at_job run generation there
            ∙ complete_calls id run generation at_job there.complete
            ∙ e
            ∙ ap (λ os. ok ((judges, os), u))
                (each ∙ ap (λ n. map (judge_order id n) judges) number),
        called,
        ap (find_row run_id id) kept
            ∙ subst (λ n. find_row run_id n after ≡ some (record run { status = judging })) is here,
        refl,
      )
