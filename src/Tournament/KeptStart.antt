-- ===== src/Tournament/KeptStart.antt =====
-- `fail_run`, `start_run`, `maybe_schedule_judging` and `start_judging` of
-- packages/core/orchestration/tournament.py keep whatever withstands the writes of Stable.
use agent_coordination.Store.{Store, Tx}
use agent_coordination.Store.Effects.{
  >>-Ensures, >>=-Ensures, Ensures, Keeps, collect-Ensures, elim-Ensures, for_each-Keeps,
  fresh-Keeps, gets-Keeps, if-Ensures, lift-Keeps, pure-Ensures, raise-Ensures,
}
use agent_coordination.Prelude.{
  List, Option, [], inl, is_empty, length, nat_eq, none, not, refl, some, string_eq, ℕ, ◌==◌, ◌∷◌,
  ◌≡◌,
}
use agent_coordination.Tournament.Stable.{
  IsPending, Stable, add_agents-Ensures, append_event-Keeps, ensure_generation-Keeps,
  fail_status-Keeps, require_run-Ensures, update_run_status-Keeps,
}
use agent_coordination.Tournament.Start.{
  add_researchers, announce, begin_run, ensure_researchers, initial_agent, start_run,
}
use agent_coordination.Tournament.Judging.{
  add_cast, begin_judging, call_judges, ensure_judges, judging_verdict, maybe_schedule_judging,
  new_judge, start_judging,
}
use agent_coordination.Tournament.Failure.{fail_agent, fail_found, fail_run}
use agent_coordination.Tournament.Queries.{all_in, any_in}
use agent_coordination.Domain.Research.{Agent, Generation, Run}
use agent_coordination.Domain.Enums.{
  agent_status_eq, completed, created, failed, judging, researching, run_status_eq,
}
use agent_coordination.Domain.Data.{Format}
use agent_coordination.RunLifecycle.{member}
use agent_coordination.Floats.{Floats}

module _ {F : Type 0} {id limit : ℕ} {P : Store F → Type 0} (stable : Stable id limit P) where
  fail_found-Keeps :
      (reason : Format) (agent : ℕ) (found : Option Agent)
      → Keeps P (fail_found id reason agent found)
  unfolding fail_found
  fail_found-Keeps reason agent none = pure-Ensures _ tt
  fail_found-Keeps reason agent (some a) =
      if-Ensures (a.status == failed) (λ _. pure-Ensures _ tt)
        λ _. >>-Ensures (fail_status-Keeps stable agent) (append_event-Keeps stable refl _ _)

  fail_agent-Keeps : (reason : Format) (agent : ℕ) → Keeps P (fail_agent id reason agent)
  unfolding fail_agent
  fail_agent-Keeps reason agent =
      >>=-Ensures (gets-Keeps _) λ found _. fail_found-Keeps reason agent found

  pub fail_run-Keeps : (reason : Format) (agent : Option ℕ) → Keeps P (fail_run id reason agent)
  unfolding fail_run
  fail_run-Keeps reason agent = >>=-Ensures (require_run-Ensures stable) λ run _.
      if-Ensures (member run.status (completed ∷ failed ∷ [])) (λ _. pure-Ensures _ tt)
        λ _.
          >>-Ensures
            (elim-Ensures agent (λ _. pure-Ensures _ tt) (λ a _. fail_agent-Keeps reason a))
            (>>-Ensures (update_run_status-Keeps stable refl failed)
              (append_event-Keeps stable refl _ _))

  initial_agent-Ensures :
      (generation : Generation) (index : ℕ) → Ensures P IsPending (initial_agent generation index)
  unfolding initial_agent
  initial_agent-Ensures generation index = >>=-Ensures fresh-Keeps λ n _. pure-Ensures _ refl

  announce-Keeps :
      {run : ℕ}
      → run ≡ id
      → (generation : Generation) (a : Agent) → Keeps P (announce run generation a)
  unfolding announce
  announce-Keeps same generation a = append_event-Keeps stable same _ _

  add_researchers-Keeps :
      (generation : Generation) (missing : List ℕ) → Keeps P (add_researchers id generation missing)
  unfolding add_researchers
  add_researchers-Keeps generation missing =
      if-Ensures (is_empty missing) (λ _. pure-Ensures _ tt)
        λ _.
          >>=-Ensures (collect-Ensures {Q = IsPending} (initial_agent-Ensures generation) missing)
            λ agents new. >>=-Ensures (add_agents-Ensures stable agents new) λ added ok'.
              >>-Ensures
                (for_each-Keeps {I = IsPending} (λ a _. announce-Keeps refl generation a) added ok')
                (pure-Ensures _ tt)

  ensure_researchers-Keeps :
      (generation : Generation) (size : ℕ) → Keeps P (ensure_researchers id generation size)
  unfolding ensure_researchers
  ensure_researchers-Keeps generation size =
      >>=-Ensures (gets-Keeps _)
        λ existing _. >>=-Ensures (add_researchers-Keeps generation _) λ added _. lift-Keeps _

  begin_run-Keeps : ⦃o : Floats F⦄ (run : Run F) → run.id ≡ id → Keeps P (begin_run run)
  unfolding begin_run
  begin_run-Keeps run same =
      if-Ensures (run.status == created)
        (λ _.
          >>-Ensures (update_run_status-Keeps stable same researching)
            (append_event-Keeps stable same _ _))
        λ _.
          if-Ensures (not (member run.status (researching ∷ judging ∷ completed ∷ [])))
            (λ _. raise-Ensures _) (λ _. pure-Ensures _ tt)

  pub start_run-Keeps : ⦃o : Floats F⦄ → Keeps P (start_run id)
  unfolding start_run
  start_run-Keeps = >>=-Ensures (require_run-Ensures stable) λ run is.
      >>=-Ensures (ensure_generation-Keeps stable refl 0 (inl refl)) λ generation _.
        >>=-Ensures (ensure_researchers-Keeps generation _)
          λ researchers _. >>-Ensures (begin_run-Keeps run is.same_id) (pure-Ensures _ tt)

  judging_verdict-Keeps :
      (run : Run F) (generation : Generation) → Keeps P (judging_verdict id run generation)
  unfolding judging_verdict
  judging_verdict-Keeps run generation = >>=-Ensures (gets-Keeps _) λ researchers _.
      >>=-Ensures (gets-Keeps _) λ submissions _.
        if-Ensures (not (length researchers == run.population_size)) (λ _. pure-Ensures _ tt)
          λ _.
            if-Ensures (any_in failed researchers)
              (λ _. >>-Ensures (fail_run-Keeps _ none) (pure-Ensures _ tt))
              λ _.
                if-Ensures (not (all_in completed researchers)) (λ _. pure-Ensures _ tt)
                  λ _.
                    if-Ensures (not (length submissions == run.population_size))
                      (λ _. pure-Ensures _ tt) (λ _. pure-Ensures _ tt)

  pub maybe_schedule_judging-Keeps :
      (generation_id : Option ℕ) → Keeps P (maybe_schedule_judging id generation_id)
  unfolding maybe_schedule_judging
  maybe_schedule_judging-Keeps generation_id = >>=-Ensures (require_run-Ensures stable) λ run is.
      if-Ensures (not (run.status == researching)) (λ _. pure-Ensures _ tt)
        λ _. >>=-Ensures (lift-Keeps _) λ generation _. >>=-Ensures (gets-Keeps _) λ latest _.
          if-Ensures (not latest) (λ _. pure-Ensures _ tt)
            (λ _. judging_verdict-Keeps run generation)

  new_judge-Ensures :
      (generation : Generation) (index : ℕ) → Ensures P IsPending (new_judge generation index)
  unfolding new_judge
  new_judge-Ensures generation index = >>=-Ensures fresh-Keeps λ n _. pure-Ensures _ refl

  pub add_cast-Keeps :
      (generation : Generation) (make : ℕ → Tx F Agent) (missing : List ℕ)
      → ((index : ℕ) → Ensures P IsPending (make index))
      → Keeps P (add_cast id generation make missing)
  unfolding add_cast
  add_cast-Keeps generation make missing made =
      if-Ensures (is_empty missing) (λ _. pure-Ensures _ tt)
        λ _. >>=-Ensures (collect-Ensures {Q = IsPending} made missing) λ agents new.
          >>=-Ensures (add_agents-Ensures stable agents new) λ added ok'.
            >>-Ensures
              (for_each-Keeps {I = IsPending} (λ a _. append_event-Keeps stable refl _ _) added ok')
              (pure-Ensures _ tt)

  ensure_judges-Keeps : (generation : Generation) → Keeps P (ensure_judges id generation)
  unfolding ensure_judges
  ensure_judges-Keeps generation = >>=-Ensures (gets-Keeps _) λ existing _.
      >>=-Ensures (add_cast-Keeps generation _ _ (new_judge-Ensures generation))
        λ added _. lift-Keeps _

  begin_judging-Keeps :
      (run : Run F) (generation : Generation) → run.id ≡ id → Keeps P (begin_judging run generation)
  unfolding begin_judging
  begin_judging-Keeps run generation same =
      if-Ensures (run.status == researching)
        (λ _.
          >>-Ensures (update_run_status-Keeps stable same judging)
            (append_event-Keeps stable same _ _))
        (λ _. pure-Ensures _ tt)

  call_judges-Keeps :
      (run : Run F) (generation : Generation)
      → run.id ≡ id
      → Keeps P (call_judges id run generation)
  unfolding call_judges
  call_judges-Keeps run generation same = >>=-Ensures (gets-Keeps _) λ complete _.
      if-Ensures (not complete) (λ _. raise-Ensures _)
        λ _.
          >>=-Ensures (ensure_judges-Keeps generation)
            λ judges _. >>-Ensures (begin_judging-Keeps run generation same) (pure-Ensures _ tt)

  pub start_judging-Keeps : (generation_id : Option ℕ) → Keeps P (start_judging id generation_id)
  unfolding start_judging
  start_judging-Keeps generation_id = >>=-Ensures (require_run-Ensures stable) λ run is.
      if-Ensures (run.status == completed) (λ _. pure-Ensures _ tt)
        λ _.
          if-Ensures (not (member run.status (researching ∷ judging ∷ []))) (λ _. raise-Ensures _)
            λ _. >>=-Ensures (lift-Keeps _) λ generation _. >>=-Ensures (gets-Keeps _) λ latest _.
              if-Ensures (not latest) (λ _. pure-Ensures _ tt)
                (λ _. call_judges-Keeps run generation is.same_id)
