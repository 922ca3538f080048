-- ===== src/Tournament/KeptFinal.antt =====
-- `finalize_run` of packages/core/orchestration/tournament.py keeps whatever withstands the writes of
-- Stable.
use agent_coordination.Store.{Session, Store, after_draws}
use agent_coordination.Store.Effects.{
  >>-Ensures, >>=-Ensures, Anything, Ensures, Keeps, collect-Ensures, elim-Ensures, everything,
  for_each-Keeps, fresh-Keeps, gets-Keeps, if-Ensures, lift-Keeps, list-Ensures, pure-Ensures,
  raise-Ensures, read-Ensures,
}
use agent_coordination.Prelude.{
  List, Option, Text, [], arith, inr, is_empty, leb, length, ltb, nat_eq, not, refl, string_eq,
  subst, suc, ℕ, ◌&&◌, ◌+◌, ◌<◌, ◌==◌, ◌∷◌, ◌≡◌,
}
use agent_coordination.Errors.{same_ok}
use agent_coordination.Tournament.Stable.{
  IsPending, IsRun, Stable, add_agents-Ensures, add_candidate_states-Keeps, add_lineages-Keeps,
  add_packets-Keeps, add_selections-Keeps, add_verifications-Keeps, append_event-Keeps,
  ensure_generation-Keeps, require_run-Ensures, update_candidate_status-Keeps,
  update_run_status-Keeps,
}
use agent_coordination.Tournament.KeptCritics.{select_for-Keeps, settle_candidate-Keeps}
use agent_coordination.Tournament.Start.{announce}
use agent_coordination.Tournament.Selecting.{survivors}
use agent_coordination.Tournament.Decisions.{
  decide, ensure_decisions, log_decision, log_redundancy, log_wildcard,
}
use agent_coordination.Tournament.Breeding.{
  add_children, breed, breed_clone, ensure_children, log_clone, log_fresh, make_packet, new_child,
  parent_at, pollinate,
}
use agent_coordination.Tournament.Finish.{
  check_finalist, complete_run, ensure_state, finish, is_settled, log_result, run_checks,
  verify_finalist,
}
use agent_coordination.Tournament.Advance.{advance, conclude, finalize_run, log_advance, resume}
use agent_coordination.Tournament.Cast.{Externals}
use agent_coordination.Domain.Research.{
  Agent, Generation, Run, SelectionDecision, Submission, VerificationResult,
}
use agent_coordination.Domain.Enums.{
  AgentOrigin, SelectionKind, agent_origin_eq, completed, failed, fresh, researching,
  selection_kind_eq, verification, wildcard,
}
use agent_coordination.RunLifecycle.{member}
use agent_coordination.Floats.{Floats}

module _ {F : Type 0} {id limit : ℕ} {P : Store F → Type 0} (stable : Stable id limit P) where
  ensure_state-Keeps :
      (generation : Generation) (target : ℕ) → Keeps P (ensure_state generation target)
  unfolding ensure_state
  ensure_state-Keeps generation target = >>=-Ensures (gets-Keeps _) λ current _.
      elim-Ensures current
        (λ _. >>=-Ensures fresh-Keeps λ n _. add_candidate_states-Keeps stable (
          record {
            generation_id = generation.id;
            submission_id = target;
            status = verification;
            id = n;
          }
          ∷ []))
        λ state _.
          if-Ensures (is_settled state.status) (λ _. pure-Ensures _ tt)
            (λ _. update_candidate_status-Keeps stable target verification)

  run_checks-Keeps :
      (syntax_error : Text → Option Text) (run : ℕ) (generation : Generation)
      (submission : Submission F)
      → Keeps P (run_checks syntax_error run generation submission)
  unfolding run_checks after_draws
  run_checks-Keeps syntax_error run generation submission = read-Ensures λ s s' a h. (
    subst (λ (r : List VerificationResult × Session F). r.1.store ≡ s.store) (same_ok h) refl,
    λ p. tt,
  )

  module _ {run : ℕ} (same : run ≡ id) where
    verify_finalist-Keeps :
        (ext : Externals) (generation : Generation) (submission : Submission F)
        → Keeps P (verify_finalist ext run generation submission)
    unfolding verify_finalist log_result
    verify_finalist-Keeps ext generation submission = >>=-Ensures (gets-Keeps _) λ existing _.
        if-Ensures (not (is_empty existing)) (λ _. pure-Ensures _ tt)
          λ _. >>-Ensures (append_event-Keeps stable same _ _) (
            >>=-Ensures (run_checks-Keeps ext.syntax_error run generation submission) λ results _.
              >>-Ensures (add_verifications-Keeps stable results) (
                >>-Ensures
                  (for_each-Keeps {I = Anything} (λ r _. append_event-Keeps stable same _ _) results
                    (everything results))
                  (pure-Ensures _ tt)))

    log_decision-Keeps :
        ⦃o : Floats F⦄ (generation : Generation) (d : SelectionDecision F)
        → Keeps P (log_decision run generation d)
    unfolding log_decision log_redundancy log_wildcard
    log_decision-Keeps generation d =
        >>-Ensures
          (elim-Ensures d.redundant_with_submission_id (λ _. pure-Ensures _ tt)
            (λ other _. append_event-Keeps stable same _ _))
          (>>-Ensures
            (if-Ensures (d.selected && ◌==◌ {A = SelectionKind} d.selection_kind wildcard)
              (λ _. append_event-Keeps stable same _ _) (λ _. pure-Ensures _ tt))
            (append_event-Keeps stable same _ _))

    make_packet-Keeps :
        (generation : Generation) (child : Agent) (kind : SelectionKind) (source : Submission F)
        → Keeps P (make_packet run generation child kind source)
    unfolding make_packet
    make_packet-Keeps generation child kind source =
        >>=-Ensures fresh-Keeps
          λ n _. >>-Ensures (append_event-Keeps stable same _ _) (pure-Ensures _ tt)

    pollinate-Keeps :
        (generation : Generation) (child : Agent) (parent source : SelectionDecision F)
        → Keeps P (pollinate run generation child parent source)
    unfolding pollinate
    pollinate-Keeps generation child parent source = >>=-Ensures (gets-Keeps _) λ found _.
        if-Ensures (source.submission_id == parent.submission_id) (λ _. pure-Ensures _ tt)
          λ _.
            elim-Ensures found (λ _. pure-Ensures _ tt)
              λ submission _.
                >>=-Ensures (make_packet-Keeps generation child source.selection_kind submission)
                  λ p _. pure-Ensures _ tt

    module _ (generation : Generation) (best : SelectionDecision F)
        (selected : List (SelectionDecision F)) where
      breed_clone-Keeps :
          (index : ℕ) (child : Agent)
          → Keeps P (breed_clone run generation best selected index child)
      unfolding breed_clone log_clone
      breed_clone-Keeps index child = >>=-Ensures fresh-Keeps λ n _.
          >>=-Ensures
            (if-Ensures (ltb 1 (length selected))
              (λ _.
                pollinate-Keeps generation child (parent_at best selected index)
                  (parent_at best selected (index + 1)))
              (λ _. pure-Ensures _ tt))
            λ packets _. >>-Ensures (append_event-Keeps stable same _ _) (pure-Ensures _ tt)

      breed-Keeps :
          (index : ℕ) (children : List Agent)
          → Keeps P (breed run generation best selected index children)
      unfolding breed announce log_fresh
      breed-Keeps index [] = pure-Ensures _ tt
      breed-Keeps index (child ∷ children) = >>-Ensures (append_event-Keeps stable same _ _) (
          if-Ensures (◌==◌ {A = AgentOrigin} child.origin fresh)
            (λ _.
              >>-Ensures (append_event-Keeps stable same _ _) (breed-Keeps (suc index) children))
            (λ _.
              >>=-Ensures (breed_clone-Keeps index child) λ bred _.
                >>=-Ensures (breed-Keeps (suc index) children) λ rest _. pure-Ensures _ tt))

  new_child-Ensures :
      (generation : Generation) (clone_count index : ℕ)
      → Ensures P IsPending (new_child generation clone_count index)
  unfolding new_child
  new_child-Ensures generation clone_count index =
      >>=-Ensures fresh-Keeps λ n _. pure-Ensures _ refl

  module _ (run : Run F) (is : IsRun id limit run) where
    check_finalist-Keeps :
        (ext : Externals) (generation : Generation) (submission : Submission F)
        → Keeps P (check_finalist ext run generation submission)
    unfolding check_finalist
    check_finalist-Keeps ext generation submission =
        if-Ensures (not run.verification_enabled) (λ _. pure-Ensures _ tt)
          λ _. >>=-Ensures (verify_finalist-Keeps is.same_id ext generation submission) λ status _.
            >>-Ensures (settle_candidate-Keeps stable is.same_id generation submission.id _)
              (pure-Ensures _ tt)

    finish-Keeps :
        ⦃o : Floats F⦄ (ext : Externals) (generation : Generation)
        → Keeps P (finish ext run generation)
    unfolding finish complete_run
    finish-Keeps ext generation = >>=-Ensures (gets-Keeps _) λ states _.
        >>=-Ensures (select_for-Keeps stable ext run generation _) λ preview _.
          >>=-Ensures (lift-Keeps _) λ submission _.
            >>-Ensures (ensure_state-Keeps generation submission.id) (
              >>=-Ensures (check_finalist-Keeps ext generation submission) λ status _.
                >>-Ensures (update_run_status-Keeps stable is.same_id completed)
                  (append_event-Keeps stable is.same_id _ _))

    ensure_decisions-Keeps :
        ⦃o : Floats F⦄ (ext : Externals) (generation : Generation)
        → Keeps P (ensure_decisions ext run generation)
    unfolding ensure_decisions decide
    ensure_decisions-Keeps ext generation = >>=-Ensures (gets-Keeps _) λ stored _.
        if-Ensures (is_empty stored)
          (λ _. >>=-Ensures (gets-Keeps _) λ states _.
            >>=-Ensures (select_for-Keeps stable ext run generation _) λ decisions _.
              >>-Ensures (add_selections-Keeps stable decisions) (
                >>-Ensures (append_event-Keeps stable is.same_id _ _) (
                  >>-Ensures
                    (for_each-Keeps {I = Anything}
                      (λ d _. log_decision-Keeps is.same_id generation d) decisions
                      (everything decisions))
                    (>>-Ensures (append_event-Keeps stable is.same_id _ _) (pure-Ensures _ tt)))))
          (λ _. pure-Ensures _ tt)

    ensure_children-Keeps :
        (generation : Generation) (best : SelectionDecision F)
        (selected : List (SelectionDecision F))
        → Keeps P (ensure_children run generation best selected)
    unfolding ensure_children add_children
    ensure_children-Keeps generation best selected = >>=-Ensures (gets-Keeps _) λ existing _.
        if-Ensures (is_empty existing)
          (λ _.
            >>=-Ensures (collect-Ensures {Q = IsPending} (new_child-Ensures generation _) _)
              λ children new. >>=-Ensures (add_agents-Ensures stable children new) λ researchers _.
                >>=-Ensures (breed-Keeps is.same_id generation best selected 0 researchers)
                  λ brood _.
                    >>-Ensures
                      (if-Ensures (is_empty brood.links) (λ _. pure-Ensures _ tt)
                        (λ _. add_lineages-Keeps stable brood.links))
                      (>>-Ensures
                        (if-Ensures (is_empty brood.packets) (λ _. pure-Ensures _ tt)
                          (λ _. add_packets-Keeps stable brood.packets))
                        (pure-Ensures _ tt)))
          (λ _. pure-Ensures _ tt)

    advance-Keeps :
        ⦃o : Floats F⦄ (ext : Externals) (generation : Generation)
        → generation.index + 1 < run.max_generations
        → Keeps P (advance ext run generation)
    unfolding advance log_advance
    advance-Keeps ext generation below =
        >>=-Ensures (ensure_decisions-Keeps ext generation) λ decisions _.
          list-Ensures (survivors decisions) (raise-Ensures _) λ best others _.
            >>=-Ensures
              (ensure_generation-Keeps stable is.same_id _
                (inr (subst (λ n. generation.index + 1 < n) is.bound below)))
              λ next _.
                >>=-Ensures (ensure_children-Keeps next best (best ∷ others)) λ researchers _.
                  >>-Ensures (update_run_status-Keeps stable is.same_id researching)
                    (>>-Ensures (append_event-Keeps stable is.same_id _ _) (pure-Ensures _ tt))

    conclude-Keeps :
        ⦃o : Floats F⦄ (ext : Externals) (generation : Generation)
        → Keeps P (conclude ext run generation)
    unfolding conclude
    conclude-Keeps ext generation = >>=-Ensures (gets-Keeps _) λ complete _.
        if-Ensures (not complete) (λ _. raise-Ensures _)
          λ _.
            if-Ensures (leb run.max_generations (generation.index + 1))
              (λ _. >>-Ensures (finish-Keeps ext generation) (pure-Ensures _ tt))
              (λ more.
                >>=-Ensures (advance-Keeps ext generation (ground (arith, more)))
                  λ bred _. pure-Ensures _ tt)

  pub finalize_run-Keeps :
      ⦃o : Floats F⦄ (ext : Externals) (generation_id : Option ℕ)
      → Keeps P (finalize_run ext id generation_id)
  unfolding finalize_run resume
  finalize_run-Keeps ext generation_id = >>=-Ensures (require_run-Ensures stable) λ run is.
      >>=-Ensures (lift-Keeps _) λ generation _. >>=-Ensures (gets-Keeps _) λ latest _.
        if-Ensures (member run.status (completed ∷ failed ∷ [])) (λ _. pure-Ensures _ tt)
          λ _.
            >>=-Ensures
              (elim-Ensures latest (λ _. conclude-Keeps run is ext generation)
                λ last _.
                  if-Ensures (ltb generation.index last.index)
                    (λ _. >>=-Ensures (gets-Keeps _) λ researchers _. pure-Ensures _ tt)
                    (λ _. conclude-Keeps run is ext generation))
              λ orders _. pure-Ensures _ tt
