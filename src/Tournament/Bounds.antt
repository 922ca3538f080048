-- ===== src/Tournament/Bounds.antt =====
-- The generations that packages/core/orchestration/tournament.py makes: no more than the run allows,
-- each with its own index, as the unique constraint of the table demands.
use agent_coordination.Store.{Store}
use agent_coordination.Prelude.{
  All, All-append, Bool, Bool-cases, Distinct, Distinct-snoc, List, [], ap, arith, false, find_row,
  find_row-id, if◌then◌else◌, inl, inr, keep_if, nat_beq, nat_beq_iff, nat_eq, none, refl, some,
  string_eq, subst, sym, true, ℕ, ◌++◌, ◌<◌, ◌==◌, ◌∙◌, ◌∷◌, ◌≡◌,
}
use agent_coordination.Errors.{ok}
use agent_coordination.Store.Repositories.{find_generation, generation_for_run, get_run}
use agent_coordination.Tournament.Stable.{IsNext, Stable}
use agent_coordination.Tournament.Methods.{Method, World, perform}
use agent_coordination.Tournament.Evolution.{
  Evolves, Evolves-Stable, Evolves-refl, bound_kept, same_some,
}
use agent_coordination.Tournament.Changes.{perform-Stable}
use agent_coordination.Tournament.Cast.{Externals}
use agent_coordination.Domain.Research.{Generation, Run}
use agent_coordination.Domain.Enums.{RunStatus}
use agent_coordination.RunLifecycle.{run_id, update_status}
use agent_coordination.RunLifecycle.Reachability.{update_status-Updated}
use agent_coordination.Floats.{Floats}
use agent_coordination.Queue.Orders.{Draws}

abbrev pub of_run : ℕ → List Generation → List Generation
of_run run generations = keep_if (λ g. g.run_id == run) generations

abbrev pub index_of : Generation → ℕ
index_of g = g.index

module _ {F : Type 0} where
  -- What the database demands of one run and its generations.
  pub record IsSound (run : Run F) (generations : List Generation) : Type 0 where
    pub positive : 0 < run.max_generations
    pub below : All (λ (g : Generation). g.index < run.max_generations) (of_run run.id generations)
    pub distinct : Distinct index_of (of_run run.id generations)

  pub record AllSound (s : Store F) : Type 0 where
    pub each : (id : ℕ) (r : Run F) → get_run id s ≡ some r → IsSound r s.generations

keep_if_snoc :
    (run : ℕ) (gs : List Generation) (g : Generation)
    → of_run run (gs ++ g ∷ [])
      ≡ (if g.run_id == run then of_run run gs ++ g ∷ [] else of_run run gs)
unfolding keep_if
keep_if_snoc run [] g = ground arith
keep_if_snoc run (x ∷ gs) g = ground (arith, keep_if_snoc run gs g)

absent_indices :
    (run index : ℕ) (gs : List Generation)
    → find_generation run index gs ≡ none
    → All (λ g. nat_beq g.index index ≡ false) (of_run run gs)
unfolding find_generation keep_if
absent_indices run index [] h = tt
absent_indices run index (g ∷ gs) h = elim (Bool-cases (g.run_id == run)) [
  | inl mine ↦
      rw mine (ground (arith, mine, h), absent_indices run index gs (ground (arith, mine, h)))
  | inr other ↦ rw other (absent_indices run index gs (ground (arith, other, h)))
]

module _ {F : Type 0} where
  -- Only the bound and the number of the run are read.
  IsSound-same :
      (r r' : Run F) (gs : List Generation)
      → r.id ≡ r'.id
      → r.max_generations ≡ r'.max_generations
      → IsSound r gs
      → IsSound r' gs
  IsSound-same r r' gs same bound h = record {
    positive = subst (λ n. 0 < n) bound h.positive;
    below =
        subst (λ n. All (λ (g : Generation). g.index < r'.max_generations) (of_run n gs)) same
          (subst (λ n. All (λ (g : Generation). g.index < n) (of_run r.id gs)) bound h.below);
    distinct = subst (λ n. Distinct index_of (of_run n gs)) same h.distinct;
  }

  AllSound-status :
      (id : ℕ) (target : RunStatus) (s : Store F) (after : List (Run F))
      → AllSound s
      → update_status id target s.runs ≡ ok after
      → AllSound (record s { runs = after })
  unfolding get_run
  AllSound-status id target s after h e =
      let up = update_status-Updated id target s.runs e in
      record {
        each = λ i r found. elim (Bool-cases (nat_beq id i)) [
          | inl same ↦
              let here : find_row run_id id after ≡ some r =
                subst (λ (n : ℕ). find_row run_id n after ≡ some r)
                  (sym ((nat_beq_iff id i).0 same)) found in
              let is = same_some (sym up.written ∙ here) in
              IsSound-same up.old r s.generations (ap (λ (x : Run F). x.id) is)
                (ap (λ (x : Run F). x.max_generations) is) (h.each id up.old up.found)
          | inr other ↦ h.each i r (sym (up.others i other) ∙ found)
        ];
      }

  new_generation :
      (r : Run F) (gs : List Generation) (g : Generation) (b : Bool)
      → (g.run_id == r.id) ≡ b
      → (b ≡ true → g.index < r.max_generations)
      → (b ≡ true → find_generation r.id g.index gs ≡ none)
      → IsSound r gs
      → IsSound r (gs ++ g ∷ [])
  new_generation r gs g true mine next absent h =
      let kept = keep_if_snoc r.id gs g ∙ rw mine refl in
      record {
        positive = h.positive;
        below =
            subst (All (λ (x : Generation). x.index < r.max_generations)) (sym kept)
              (All-append _ (of_run r.id gs) (g ∷ []) h.below (next refl, tt));
        distinct = subst (Distinct index_of) (sym kept) (
            Distinct-snoc index_of g (of_run r.id gs) (absent_indices r.id g.index gs (absent refl))
              h.distinct);
      }
  new_generation r gs g false mine next absent h =
      let kept = keep_if_snoc r.id gs g ∙ rw mine refl in
      record {
        positive = h.positive;
        below = subst (All (λ (x : Generation). x.index < r.max_generations)) (sym kept) h.below;
        distinct = subst (Distinct index_of) (sym kept) h.distinct;
      }

  AllSound-runs_only :
      {s s' : Store F}
      → s'.runs ≡ s.runs
      → s'.generations ≡ s.generations
      → AllSound s
      → AllSound s'
  unfolding get_run
  AllSound-runs_only {s} {s'} runs generations h = record {
    each = λ i r found.
        subst (IsSound r) (sym generations)
          (h.each i r (subst (λ rs. find_row run_id i rs ≡ some r) runs found));
  }

  module _ (s0 : Store F) (id : ℕ) (run : Run F) (found : get_run id s0 ≡ some run) where
    abbrev Holds : Store F → Type 0
    Holds s = Evolves id s0 s × AllSound s

    AllSound-generation :
        (s : Store F) (g : Generation)
        → Holds s
        → g.run_id ≡ id
        → IsNext run.max_generations g.index
        → generation_for_run id g.index s ≡ none
        → AllSound (record s { generations = s.generations ++ g ∷ [] })
    unfolding get_run generation_for_run
    AllSound-generation s g h same next absent = record {
      each = λ i r here.
          let mine = find_row-id run_id i s.runs r here in
          let owner : (g.run_id == r.id) ≡ true → i ≡ id =
            λ e. sym mine ∙ sym ((nat_beq_iff g.run_id r.id).0 e) ∙ same in
          new_generation r s.generations g (g.run_id == r.id) refl
            (λ e.
              let bound =
                bound_kept s0 id run found s r h.0
                  (subst (λ n. get_run n s ≡ some r) (owner e) here) in
              let positive = (h.1.each i r here).positive in next_below r next positive bound)
            (λ e.
              subst (λ n. find_generation n g.index s.generations ≡ none) (sym (mine ∙ owner e))
                absent)
            (h.1.each i r here);
    }
      where
        next_below :
            (r : Run F)
            → IsNext run.max_generations g.index
            → 0 < r.max_generations
            → r.max_generations ≡ run.max_generations
            → g.index < r.max_generations
        next_below r (inl e) p b = omega arith
        next_below r (inr lt) p b = omega arith

    Holds-Stable : Stable id run.max_generations Holds
    Holds-Stable =
        let e = Evolves-Stable s0 id run found in
        record {
          limits = λ s r h here. e.limits s r h.0 here;
          on_run_status = λ s target after h k.
              (e.on_run_status s target after h.0 k, AllSound-status id target s after h.1 k);
          on_generation = λ s g h same next absent. (
            e.on_generation s g h.0 same next absent,
            AllSound-generation s g h same next absent,
          );
          on_agents = λ s now agents h new.
              (e.on_agents s now agents h.0 new, AllSound-runs_only refl refl h.1);
          on_agent_failed =
              λ s agent h. (e.on_agent_failed s agent h.0, AllSound-runs_only refl refl h.1);
          on_selections = λ s ds h. (e.on_selections s ds h.0, AllSound-runs_only refl refl h.1);
          on_lineages =
              λ s now links h. (e.on_lineages s now links h.0, AllSound-runs_only refl refl h.1);
          on_candidate_states = λ s now states h.
              (e.on_candidate_states s now states h.0, AllSound-runs_only refl refl h.1);
          on_candidate_status = λ s submission status h.
              (e.on_candidate_status s submission status h.0, AllSound-runs_only refl refl h.1);
          on_packets =
              λ s now packets h. (e.on_packets s now packets h.0, AllSound-runs_only refl refl h.1);
          on_verifications = λ s now results h.
              (e.on_verifications s now results h.0, AllSound-runs_only refl refl h.1);
          on_event = λ s now event h same.
              (e.on_event s now event h.0 same, AllSound-runs_only refl refl h.1);
        }

-- Whatever method returns, on a run that is there: when every run in the tables
-- has a positive bound and generations with distinct indices below it, this is so afterwards.
pub perform-AllSound :
    {F : Type 0} ⦃o : Floats F⦄ (ext : Externals) (method : Method) (id : ℕ) (draws : Draws)
    (world after : World F)
    → perform ext method id draws world ≡ ok after
    → (run : Run F) → get_run id world.store ≡ some run
    → AllSound world.store
    → AllSound after.store
perform-AllSound ext method id draws world after returns run found sound =
    (perform-Stable ext method id draws world after returns (Holds-Stable world.store id run found)
      (Evolves-refl id world.store, sound)).1
