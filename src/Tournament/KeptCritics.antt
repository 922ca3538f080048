-- ===== src/Tournament/KeptCritics.antt =====
-- `maybe_schedule_finalize` of packages/core/orchestration/tournament.py keeps whatever withstands
-- the writes of Stable.
use agent_coordination.Store.{Store}
use agent_coordination.Store.Effects.{
  >>-Ensures, >>=-Ensures, Anything, Ensures, Keeps, after_draws_reads, collect-Ensures,
  elim-Ensures, for_each-Keeps, fresh-Keeps, gets-Keeps, if-Ensures, lift-Keeps, list-Ensures,
  pure-Ensures, raise-Ensures, read-Ensures,
}
use agent_coordination.Prelude.{
  List, Option, [], is_empty, leb, length, map, nat_eq, none, not, refl, string_eq, ℕ, ◌==◌, ◌∷◌,
  ◌≡◌,
}
use agent_coordination.Tournament.Stable.{
  IsPending, Stable, add_candidate_states-Keeps, append_event-Keeps, require_run-Ensures,
  update_candidate_status-Keeps,
}
use agent_coordination.Tournament.KeptStart.{add_cast-Keeps, fail_run-Keeps}
use agent_coordination.Tournament.Selecting.{select_for, settle_candidate, survivors}
use agent_coordination.Tournament.Critics.{
  add_states, call_critics, critic_stage, critic_target, criticise, judges_verdict,
  maybe_schedule_finalize, new_critic, opening_state,
}
use agent_coordination.Tournament.Cast.{Externals, judge_count}
use agent_coordination.Tournament.Queries.{all_in, any_in}
use agent_coordination.Domain.Research.{Generation, Run, Submission}
use agent_coordination.Domain.Enums.{
  CandidateLifecycle, candidate_lifecycle_eq, completed, failed, judging, run_status_eq,
}
use agent_coordination.Floats.{Floats}

module _ {F : Type 0} {id limit : ℕ} {P : Store F → Type 0} (stable : Stable id limit P) where
  pub select_for-Keeps :
      ⦃o : Floats F⦄ (ext : Externals) (run : Run F) (generation : Generation)
      (refuted_ids : List ℕ)
      → Keeps P (select_for ext run generation refuted_ids)
  unfolding select_for
  select_for-Keeps ext run generation refuted_ids =
      read-Ensures λ s s' a h. (after_draws_reads s s' _ _ a h, λ p. tt)

  pub settle_candidate-Keeps :
      {run : ℕ}
      → run ≡ id
      → (generation : Generation) (target : ℕ) (status : CandidateLifecycle)
      → Keeps P (settle_candidate run generation target status)
  unfolding settle_candidate
  settle_candidate-Keeps same generation target status = >>=-Ensures (gets-Keeps _) λ current _.
      elim-Ensures current (λ _. pure-Ensures _ tt)
        λ state _.
          if-Ensures (◌==◌ {A = CandidateLifecycle} state.status status) (λ _. pure-Ensures _ tt)
            λ _.
              >>-Ensures (update_candidate_status-Keeps stable target status)
                (append_event-Keeps stable same _ _)

  opening_state-Keeps :
      (generation : Generation) (target : ℕ) (selected_ids : List ℕ) (submission : Submission F)
      → Keeps P (opening_state generation target selected_ids submission)
  unfolding opening_state
  opening_state-Keeps generation target selected_ids submission =
      >>=-Ensures fresh-Keeps λ n _. pure-Ensures _ tt

  add_states-Keeps :
      (generation : Generation) (target : ℕ) (selected_ids : List ℕ)
      (submissions : List (Submission F))
      → Keeps P (add_states id generation target selected_ids submissions)
  unfolding add_states
  add_states-Keeps generation target selected_ids submissions =
      >>=-Ensures
        (collect-Ensures {Q = Anything} (opening_state-Keeps generation target selected_ids)
          submissions)
        λ states any.
          >>-Ensures (add_candidate_states-Keeps stable states)
            (for_each-Keeps {I = Anything} (λ c _. append_event-Keeps stable refl _ _) states any)

  new_critic-Ensures :
      (generation : Generation) (index : ℕ) → Ensures P IsPending (new_critic generation index)
  unfolding new_critic
  new_critic-Ensures generation index = >>=-Ensures fresh-Keeps λ n _. pure-Ensures _ refl

  call_critics-Keeps :
      ⦃o : Floats F⦄ (ext : Externals) (run : Run F) (generation : Generation)
      → Keeps P (call_critics ext id run generation)
  unfolding call_critics
  call_critics-Keeps ext run generation = >>=-Ensures (gets-Keeps _) λ submissions _.
      >>=-Ensures (gets-Keeps _) λ states _.
        >>=-Ensures (select_for-Keeps ext run generation []) λ preview _.
          list-Ensures (survivors preview) (raise-Ensures _) λ leader others _.
            >>-Ensures
              (if-Ensures (is_empty states)
                (λ _.
                  add_states-Keeps generation leader.submission_id
                    (leader.submission_id ∷ map (λ d. d.submission_id) others) submissions)
                (λ _. pure-Ensures _ tt))
              (>>-Ensures (add_cast-Keeps stable generation _ _ (new_critic-Ensures generation))
                (pure-Ensures _ tt))

  critic_target-Keeps :
      ⦃o : Floats F⦄ (ext : Externals) (run : Run F) (generation : Generation)
      → Keeps P (critic_target ext id run generation)
  unfolding critic_target
  critic_target-Keeps ext run generation = >>=-Ensures (gets-Keeps _) λ critics _.
      if-Ensures (is_empty critics)
        (λ _. >>=-Ensures (call_critics-Keeps ext run generation) λ target _. pure-Ensures _ tt)
        (λ _. gets-Keeps _)

  critic_stage-Keeps :
      (run : Run F) (generation : Generation) (target : ℕ)
      → Keeps P (critic_stage id run generation target)
  unfolding critic_stage
  critic_stage-Keeps run generation target = >>=-Ensures (gets-Keeps _) λ critics _.
      >>=-Ensures (gets-Keeps _) λ relevant _.
        if-Ensures (any_in failed critics)
          (λ _. >>-Ensures (fail_run-Keeps stable _ none) (pure-Ensures _ tt))
          λ _.
            if-Ensures (not (all_in completed critics)) (λ _. pure-Ensures _ tt)
              λ _.
                if-Ensures (not (length relevant == run.critic_count)) (λ _. pure-Ensures _ tt)
                  λ _.
                    >>-Ensures (settle_candidate-Keeps refl generation target _) (pure-Ensures _ tt)

  criticise-Keeps :
      ⦃o : Floats F⦄ (ext : Externals) (run : Run F) (generation : Generation)
      → Keeps P (criticise ext id run generation)
  unfolding criticise
  criticise-Keeps ext run generation =
      if-Ensures (leb run.critic_count 0) (λ _. pure-Ensures _ tt)
        λ _. >>=-Ensures (critic_target-Keeps ext run generation) λ target _.
          elim-Ensures target (λ _. pure-Ensures _ tt) (λ t _. critic_stage-Keeps run generation t)

  judges_verdict-Keeps :
      ⦃o : Floats F⦄ (ext : Externals) (run : Run F) (generation : Generation)
      → Keeps P (judges_verdict ext id run generation)
  unfolding judges_verdict
  judges_verdict-Keeps ext run generation = >>=-Ensures (gets-Keeps _) λ judges _.
      >>=-Ensures (gets-Keeps _) λ complete _.
        if-Ensures (not (length judges == judge_count)) (λ _. pure-Ensures _ tt)
          λ _.
            if-Ensures (any_in failed judges)
              (λ _. >>-Ensures (fail_run-Keeps stable _ none) (pure-Ensures _ tt))
              λ _.
                if-Ensures (not (all_in completed judges)) (λ _. pure-Ensures _ tt)
                  λ _.
                    if-Ensures (not complete) (λ _. pure-Ensures _ tt)
                      λ _.
                        >>=-Ensures (criticise-Keeps ext run generation) λ jobs _. pure-Ensures _ tt

  pub maybe_schedule_finalize-Keeps :
      ⦃o : Floats F⦄ (ext : Externals) (generation_id : Option ℕ)
      → Keeps P (maybe_schedule_finalize ext id generation_id)
  unfolding maybe_schedule_finalize
  maybe_schedule_finalize-Keeps ext generation_id =
      >>=-Ensures (require_run-Ensures stable) λ run is.
        if-Ensures (not (run.status == judging)) (λ _. pure-Ensures _ tt)
          λ _. >>=-Ensures (lift-Keeps _) λ generation _. >>=-Ensures (gets-Keeps _) λ latest _.
            if-Ensures (not latest) (λ _. pure-Ensures _ tt)
              (λ _. judges_verdict-Keeps ext run generation)
