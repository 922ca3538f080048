-- ===== src/Tournament/Calls.antt =====
-- The calls of a whole role in packages/core/orchestration/tournament.py run through: the agents that
-- are missing are added, and all are found.
use agent_coordination.Store.{Tx, lift}
use agent_coordination.Store.Returns.{
  >>-Returns, >>=-Returns, Returns, add_agents-Returns, append_event-Returns, collect-Returns,
  for_each-Returns, fresh-Returns, gets-Returns, lift-Returns, pure-Returns,
}
use agent_coordination.Store.Effects.{Anything}
use agent_coordination.Prelude.{
  List, [], ap, find_row, keep_if, map, not, put_row, refl, some, sym, ℕ, ◌++◌, ◌∙◌, ◌∷◌, ◌≡◌,
}
use agent_coordination.Store.Repositories.{update_run_status}
use agent_coordination.Tournament.Roles.{agents_at_returns, none_missing, role_of}
use agent_coordination.Tournament.Judging.{add_cast, ensure_judges, new_judge}
use agent_coordination.Tournament.Cast.{agents_at, has_role, judge_count, range_from}
use agent_coordination.Tournament.Queries.{judges_of}
use agent_coordination.Tournament.Evolution.{same_some}
use agent_coordination.Domain.Data.{Role, judge}
use agent_coordination.Domain.Research.{Agent, Generation, Run}
use agent_coordination.Domain.Enums.{RunStatus}
use agent_coordination.Errors.{ok}
use agent_coordination.RunLifecycle.{assert_run_transition, run_id, update_status, write_status}
use agent_coordination.RunLifecycle.Reachability.{update_status-Updated}

-- The agents have the roles of the numbers, in their order.
abbrev pub Called : (ℕ → Role) → List ℕ → List Agent → Type 0
Called role indices agents = map role_of agents ≡ map role indices

module _ {F : Type 0} where
  pub accepted :
      (runs : List (Run F)) (run : Run F) (target : RunStatus)
      → find_row run_id run.id runs ≡ some run
      → assert_run_transition run.status target ≡ ok tt
      → (after : List (Run F)) × (update_status run.id target runs ≡ ok after)
        × (find_row run_id run.id after ≡ some (record run { status = target }))
  unfolding update_status write_status
  accepted runs run target found allowed =
      let after = put_row run_id run.id (record run { status = target }) runs in
      let e : update_status run.id target runs ≡ ok after =
        rw (found, write_status, allowed, write_status) refl in
      let up = update_status-Updated run.id target runs e in
      let same = same_some (sym found ∙ up.found) in
      (after, e, up.written ∙ ap (λ (r : Run F). some (record r { status = target })) (sym same))

module _ {F : Type 0} {runs : List (Run F)} where
  add_cast-Returns :
      (run : ℕ) (generation : Generation) (make : ℕ → Tx F Agent) (role : ℕ → Role)
      → ((i : ℕ) → Returns runs runs (make i) (λ a. a.role ≡ role i))
      → (missing : List ℕ)
      → Returns runs runs (add_cast run generation make missing) (Called role missing)
  unfolding add_cast
  add_cast-Returns run generation make role h [] = pure-Returns [] refl
  add_cast-Returns run generation make role h (i ∷ is) =
      >>=-Returns (collect-Returns role_of role h (i ∷ is)) λ agents called.
        >>=-Returns (add_agents-Returns agents) λ added same.
          >>-Returns (for_each-Returns (λ a. append_event-Returns run _ _) added)
            (pure-Returns added (ap (map role_of) same ∙ called))

  pub agents_at-Returns :
      (role : ℕ → Role) (indices : List ℕ) (existing added : List Agent)
      → Called role (keep_if (λ i. not (has_role (role i) existing)) indices) added
      → Returns runs runs
          (lift (λ _. agents_at role indices (existing ++ added)))
          (Called role indices)
  agents_at-Returns role indices existing added called =
      let (found, e, same) =
        agents_at_returns role indices (existing ++ added)
          (none_missing role indices existing added called) in
      rw e (lift-Returns found same)

  pub ensure_judges-Returns :
      (run : ℕ) (generation : Generation)
      → Returns runs runs (ensure_judges run generation) (Called judge (range_from 0 judge_count))
  unfolding ensure_judges new_judge
  ensure_judges-Returns run generation =
      >>=-Returns (gets-Returns {P = Anything} (judges_of generation.id) (λ _. tt)) λ existing _.
        >>=-Returns
          (add_cast-Returns run generation _ judge
            (λ i. >>=-Returns fresh-Returns λ id _. pure-Returns _ refl) _)
          (agents_at-Returns judge (range_from 0 judge_count) existing)

  pub update_run_status-Returns :
      {after : List (Run F)} (id : ℕ) (target : RunStatus)
      → update_status id target runs ≡ ok after
      → Returns runs after (update_run_status id target) Anything
  unfolding update_run_status
  update_run_status-Returns {after} id target e = record {
    apply = λ s same. (
      tt,
      record s { store = record s.store { runs = after } },
      rw (ap (update_status id target) same ∙ e, update_run_status) refl,
      refl,
      tt,
    );
  }
