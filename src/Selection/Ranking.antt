-- ===== src/Selection/Ranking.antt =====
-- `_aggregate`, `_quality_key` and `_diversity_signals`.
use agent_coordination.Prelude.{
  Bool, IsOrder, List, Option, Text, [], any_of, arith, false, find_row, if◌then◌else◌, is_empty,
  keep_if, lexi, lexi-IsOrder, ltb, map, nat_beq, none, some, sort, suc, true, ℕ, ◌&&◌, ◌||◌, ◌∷◌,
  ◌≡◌,
}
use agent_coordination.Errors.{Result, err, ok, value_error, ◌>>=◌}
use agent_coordination.Selection.Similarity.{fingerprint, jaccard}
use agent_coordination.Floats.{
  Floats, by_flag, by_flag-IsOrder, by_number, by_number-IsOrder, descending, descending-IsOrder,
  max_or_zero,
}
use agent_coordination.Domain.Data.{ident, word}
use agent_coordination.Domain.Research.{Evaluation, Submission}

pub record AggregateEvaluation (F : Type 0) : Type 0 where
  pub submission_id : ℕ
  pub fatal_error : Bool
  pub correctness : F
  pub rigor : F
  pub novelty : F
  pub research_progress : F
  pub verifiability : F
  pub judge_confidence : F

pub record DiversitySignal (F : Type 0) : Type 0 where
  pub novelty_score : F
  pub max_similarity : F
  pub redundant_with_submission_id : Option ℕ

-- `id in ids`
unfoldable pub id_in : ℕ → List ℕ → Bool
id_in id [] = false
id_in id (x ∷ xs) = nat_beq x id || id_in id xs

module _ {F : Type 0} ⦃o : Floats F⦄ where
  abbrev pub aggregate_id : AggregateEvaluation F → ℕ
  aggregate_id a = a.submission_id

  unfoldable pub aggregate_one : List ℕ → Submission F → List (Evaluation F) → AggregateEvaluation F
  unfolding id_in any_of
  aggregate_one refuted_ids submission judged = record {
    submission_id = submission.id;
    fatal_error = id_in submission.id refuted_ids || any_of (λ e. e.fatal_error) judged;
    correctness = o.fmean (map (λ e. e.correctness) judged);
    rigor = o.fmean (map (λ e. e.rigor) judged);
    novelty = o.fmean (map (λ e. e.novelty) judged);
    research_progress = o.fmean (map (λ e. e.research_progress) judged);
    verifiability = o.fmean (map (λ e. e.verifiability) judged);
    judge_confidence = o.fmean (map (λ e. e.judge_confidence) judged);
  }

  unfoldable pub aggregate :
      List ℕ → List (Evaluation F) → List (Submission F) → Result (List (AggregateEvaluation F))
  unfolding aggregate_one keep_if
  aggregate refuted_ids evaluations [] = ok []
  aggregate refuted_ids evaluations (submission ∷ rest) =
      let others = aggregate refuted_ids evaluations rest in
      let judged = keep_if (λ e. nat_beq e.submission_id submission.id) evaluations in
      if is_empty judged
      then err
          (value_error (word "Submission " ∷ ident submission.id ∷ word " has no evaluations" ∷ []))
      else others >>= λ items. ok (aggregate_one refuted_ids submission judged ∷ items)

  -- The order of the tuples `_quality_key`.
  unfoldable pub better : AggregateEvaluation F → AggregateEvaluation F → Bool
  better = lexi (by_flag (λ a. a.fatal_error)) (
      lexi (descending (λ a. a.correctness)) (
        lexi (descending (λ a. a.rigor)) (
          lexi (descending (λ a. a.research_progress)) (
            lexi (descending (λ a. a.verifiability)) (
              lexi (descending (λ a. a.novelty))
                (lexi (descending (λ a. a.judge_confidence)) (by_number aggregate_id)))))))

  pub better-IsOrder : IsOrder better
  unfolding better
  better-IsOrder = lexi-IsOrder (by_flag-IsOrder (λ a. a.fatal_error)) (
      lexi-IsOrder (descending-IsOrder (λ a. a.correctness)) (
        lexi-IsOrder (descending-IsOrder (λ a. a.rigor)) (
          lexi-IsOrder (descending-IsOrder (λ a. a.research_progress)) (
            lexi-IsOrder (descending-IsOrder (λ a. a.verifiability)) (
              lexi-IsOrder (descending-IsOrder (λ a. a.novelty)) (
                lexi-IsOrder (descending-IsOrder (λ a. a.judge_confidence))
                  (by_number-IsOrder aggregate_id)))))))

  -- A fatal error comes after every candidate without one.
  pub better-fatal :
      (a b : AggregateEvaluation F)
      → better a b ≡ true
      → a.fatal_error ≡ true
      → b.fatal_error ≡ true
  unfolding better
  better-fatal a b h e = ground arith

  -- `rank_by_id`, counted from 1: of the places that an id has, the dict keeps the last. Every id
  -- that is looked up has one, and 0 stands for none.
  unfoldable pub rank_of : ℕ → List (AggregateEvaluation F) → ℕ
  rank_of id [] = 0
  rank_of id (a ∷ rest) =
      let below = rank_of id rest in
      if ltb 0 below then suc below else if nat_beq a.submission_id id then 1 else 0

  module _ (lower : Text → Text) (ranked : List (AggregateEvaluation F)) (threshold : F) where
    abbrev pub similarities : Submission F → List (Submission F) → List (ℕ × F)
    similarities submission [] = []
    similarities submission (other ∷ rest) =
        let more = similarities submission rest in
        if nat_beq other.id submission.id
        then more
        else (other.id, jaccard (fingerprint lower submission) (fingerprint lower other)) ∷ more

    abbrev pub nearest_first : ℕ × F → ℕ × F → Bool
    nearest_first =
        lexi (descending (λ (p : ℕ × F). p.1))
          (lexi (by_number (λ (p : ℕ × F). rank_of p.0 ranked)) (by_number (λ (p : ℕ × F). p.0)))

    unfoldable pub diversity_signal : List (Submission F) → Submission F → DiversitySignal F
    unfolding rank_of keep_if sort max_or_zero
    diversity_signal submissions submission =
        let near = similarities submission submissions in
        let max_similarity = max_or_zero (map (λ p. p.1) near) in
        let higher_ranked =
          keep_if
            (λ p.
              ltb (rank_of p.0 ranked) (rank_of submission.id ranked) && o.at_most threshold p.1)
            near in
        record {
          novelty_score = o.round6 (o.sub o.one max_similarity);
          max_similarity = o.round6 max_similarity;
          redundant_with_submission_id = elim (sort nearest_first higher_ranked) [
            | [] ↦ none
            | p ∷ rest ↦ some p.0
          ];
        }

    -- `diversity[submission_id]`. Every id that is looked up is a submission's.
    unfoldable pub signal_of : List (Submission F) → ℕ → Option (DiversitySignal F)
    unfolding diversity_signal find_row
    signal_of submissions id = elim (find_row (λ s. s.id) id submissions) [
      | none ↦ none
      | some s ↦ some (diversity_signal submissions s)
    ]
