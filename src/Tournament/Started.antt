-- ===== src/Tournament/Started.antt =====
-- `start_run` of packages/core/orchestration/tournament.py runs through, and calls all researchers.
use agent_coordination.Store.{Session, Tx, ◌>>=◌}
use agent_coordination.Store.Returns.{
  >>-Returns, >>=-Returns, Returns, add_agents-Returns, add_generation-Returns,
  append_event-Returns, collect-Returns, for_each-Returns, fresh-Returns, gets-Returns,
  pure-Returns,
}
use agent_coordination.Store.Effects.{Anything}
use agent_coordination.Prelude.{
  Bool-cases, List, Option, [], ap, arith, false, find_row, find_row-id, if◌then◌else◌, inl, inr,
  map, nat_eq, none, refl, some, string_eq, subst, sym, true, ℕ, ◌&&◌, ◌==◌, ◌∙◌, ◌∷◌, ◌≡◌,
}
use agent_coordination.Store.Repositories.{find_generation, generation_for_run, get_run}
use agent_coordination.Tournament.Roles.{role_of}
use agent_coordination.Tournament.Calls.{
  Called, accepted, agents_at-Returns, update_run_status-Returns,
}
use agent_coordination.Tournament.Start.{
  add_researchers, announce, begin_run, create_generation, ensure_generation, ensure_researchers,
  found_or_created, initial_agent, start_run,
}
use agent_coordination.Tournament.Cast.{range_from, research_orders}
use agent_coordination.Tournament.Queries.{require_run, researchers_of}
use agent_coordination.Tournament.Evolution.{same_some}
use agent_coordination.Domain.Data.{researcher}
use agent_coordination.Domain.Research.{Agent, Generation, Run}
use agent_coordination.Domain.Enums.{
  RunStatus, completed, created, judging, researching, run_status_eq,
}
use agent_coordination.Errors.{ok}
use agent_coordination.RunLifecycle.{assert_run_transition, member, run_id}
use agent_coordination.Queue.Orders.{Order}
use agent_coordination.Floats.{Floats}

found_index :
    (run index : ℕ) (gs : List Generation) (g : Generation)
    → find_generation run index gs ≡ some g
    → (g.run_id ≡ run) × (g.index ≡ index)
unfolding find_generation
found_index run index [] g h = absurd (cc)
found_index run index (x ∷ gs) g h = elim (Bool-cases (x.run_id == run && x.index == index)) [
  | inl e ↦
      let same : some x ≡ some g = rw (e, find_generation) at h in
      subst (λ (y : Generation). (y.run_id ≡ run) × (y.index ≡ index)) (same_some same)
        (ground (arith, e), ground (arith, e))
  | inr e ↦ found_index run index gs g (rw (e, find_generation) at h)
]

abbrev Numbered : ℕ → ℕ → Generation → Type 0
Numbered run index g = (g.run_id ≡ run) × (g.index ≡ index)

member_rest :
    (s t : RunStatus) (rest : List RunStatus)
    → (s == t) ≡ false
    → member s (t ∷ rest) ≡ true
    → member s rest ≡ true
unfolding member
member_rest s t rest e h = ground (arith, e, h)

module _ {F : Type 0} where
  -- The run once it has begun.
  abbrev pub begun : Run F → Run F
  begun run = if run.status == created then record run { status = researching } else run

  -- What `start_run` gives.
  abbrev Started : ℕ → Run F → Generation × List Order → Type 0
  Started id run r =
      Numbered id 0 r.0
      × (researchers : List Agent) × Called researcher (range_from 0 run.population_size)
          researchers
      × (r.1 ≡ (if run.status == completed then [] else research_orders id r.0 researchers))

module _ {F : Type 0} {runs : List (Run F)} where
  found_or_created-Returns :
      (run index : ℕ) (found : Option Generation)
      → ((g : Generation) → found ≡ some g → Numbered run index g)
      → Returns runs runs (found_or_created run index found) (Numbered run index)
  unfolding found_or_created create_generation
  found_or_created-Returns run index (some g) is = pure-Returns g (is g refl)
  found_or_created-Returns run index none is = >>=-Returns fresh-Returns λ id _.
      >>=-Returns (add_generation-Returns _) λ g same. >>-Returns (append_event-Returns run _ _) (
        pure-Returns g
          (ap (λ (x : Generation). x.run_id) same, ap (λ (x : Generation). x.index) same))

  ensure_generation-Returns :
      (run index : ℕ) → Returns runs runs (ensure_generation run index) (Numbered run index)
  unfolding ensure_generation generation_for_run
  ensure_generation-Returns run index =
      >>=-Returns
        (gets-Returns {P = λ found. (g : Generation) → found ≡ some g → Numbered run index g}
          (generation_for_run run index) (λ store g e. found_index run index store.generations g e))
        (found_or_created-Returns run index)

  add_researchers-Returns :
      (run : ℕ) (generation : Generation) (missing : List ℕ)
      → Returns runs runs (add_researchers run generation missing) (Called researcher missing)
  unfolding add_researchers initial_agent announce
  add_researchers-Returns run generation [] = pure-Returns [] refl
  add_researchers-Returns run generation (i ∷ is) =
      >>=-Returns
        (collect-Returns role_of researcher
          (λ j. >>=-Returns fresh-Returns λ id _. pure-Returns _ refl) (i ∷ is))
        λ agents called. >>=-Returns (add_agents-Returns agents) λ added same.
          >>-Returns (for_each-Returns (λ a. append_event-Returns run _ _) added)
            (pure-Returns added (ap (map role_of) same ∙ called))

  ensure_researchers-Returns :
      (run : ℕ) (generation : Generation) (size : ℕ)
      → Returns runs runs
          (ensure_researchers run generation size)
          (Called researcher (range_from 0 size))
  unfolding ensure_researchers
  ensure_researchers-Returns run generation size =
      >>=-Returns (gets-Returns {P = Anything} (researchers_of generation.id) (λ _. tt))
        λ existing _.
          >>=-Returns (add_researchers-Returns run generation _)
            (agents_at-Returns researcher (range_from 0 size) existing)

  begin_run-Returns :
      ⦃o : Floats F⦄ (run : Run F)
      → find_row run_id run.id runs ≡ some run
      → member run.status (created ∷ researching ∷ judging ∷ completed ∷ []) ≡ true
      → (after : List (Run F)) × Returns runs after (begin_run run) Anything
        × (find_row run_id run.id after ≡ some (begun run))
  unfolding begin_run assert_run_transition
  begin_run-Returns run found may_start = elim (Bool-cases (run.status == created)) [
    | inl e ↦
        let is = (run_status_eq.beq_iff run.status created).0 e in
        let (after, written, here) =
          accepted runs run researching found
            (subst (λ t. assert_run_transition t researching ≡ ok tt) (sym is) refl) in
        (
          after,
          rw (e, begin_run)
              (>>-Returns (update_run_status-Returns run.id researching written)
                (append_event-Returns run.id _ _)),
          rw e here,
        )
    | inr e ↦ (
      runs,
      rw (e, begin_run, member_rest run.status created _ e may_start) (pure-Returns tt tt),
      rw e found,
    )
  ]

  pub require_run-Returns :
      {B : Type 0} {after : List (Run F)} {Q : B → Type 0} (k : Run F → Tx F B) (id : ℕ)
      (run : Run F)
      → find_row run_id id runs ≡ some run
      → Returns runs after (k run) Q
      → Returns runs after (require_run id >>= k) Q
  unfolding require_run get_run ◌>>=◌
  require_run-Returns k id run found h = record {
    apply = λ s same.
        let here : find_row run_id id s.store.runs ≡ some run =
          ap (find_row run_id id) same ∙ found in
        let (b, t, e, there, q) = h.apply s same in
        (b, t, rw (here, require_run, ◌>>=◌) e, there, q);
  }

  start_run-Returns :
      ⦃o : Floats F⦄ {after : List (Run F)} (id : ℕ) (run : Run F)
      → find_row run_id id runs ≡ some run
      → Returns runs after (begin_run run) Anything
      → Returns runs after (start_run id) (Started id run)
  unfolding start_run
  start_run-Returns id run found begins = require_run-Returns _ id run found (
      >>=-Returns (ensure_generation-Returns id 0) λ generation is.
        >>=-Returns (ensure_researchers-Returns id generation run.population_size)
          λ researchers called. >>-Returns begins (pure-Returns _ (is, researchers, called, refl)))

module _ {F : Type 0} ⦃o : Floats F⦄ where
  -- `start_run` returns for every run that is there and is created, in research, in judging or
  -- completed. It gives the run's generation of index 0, and the jobs are one for each of as many
  -- researchers as the population has, numbered from 0 in order, but none when the run is completed.
  -- A created run is in research afterwards, and any other run stays as it is.
  pub start_run_returns :
      (id : ℕ) (run : Run F) (s : Session F)
      → get_run id s.store ≡ some run
      → member run.status (created ∷ researching ∷ judging ∷ completed ∷ []) ≡ true
      → (generation : Generation) × (researchers : List Agent) × (after : Session F) × (start_run id
            s
          ≡ ok (
            (
              generation,
              if run.status == completed then [] else research_orders id generation researchers,
            ),
            after,
          ))
        × (generation.run_id ≡ id)
        × (generation.index ≡ 0)
        × Called researcher (range_from 0 run.population_size) researchers
        × (get_run id after.store ≡ some (begun run))
  unfolding get_run
  start_run_returns id run s found may_start =
      let is = find_row-id run_id id s.store.runs run found in
      let (after, begins, here) =
        begin_run-Returns run
          (subst (λ n. find_row run_id n s.store.runs ≡ some run) (sym is) found) may_start in
      let ((generation, orders), t, e, there, ((owner, index), researchers, called, jobs)) =
        (start_run-Returns id run found begins).apply s refl in
      (
        generation,
        researchers,
        t,
        e ∙ ap (λ os. ok ((generation, os), t)) jobs,
        owner,
        index,
        called,
        ap (find_row run_id id) there
            ∙ subst (λ n. find_row run_id n after ≡ some (begun run)) is here,
      )
