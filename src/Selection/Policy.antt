-- ===== src/Selection/Policy.antt =====
-- `TournamentPolicy.select`. `str.lower` and the sha256 digest of a text, as the number that its bytes
-- spell, are parameters.
use agent_coordination.Prelude.{
  Bool, List, Option, String, Text, [], any_of, false, find_row, if◌then◌else◌, is_empty, keep_if,
  leb, length, lexi, ltb, map, none, not, some, sort, true, ℕ, ◌&&◌, ◌||◌, ◌∷◌,
}
use agent_coordination.Errors.{Result, err, ok, value_error, ◌>>=◌}
use agent_coordination.Domain.Data.{Format, ident, word}
use agent_coordination.Domain.Enums.{SelectionKind, eliminated, elite, novelty, redundant, wildcard}
use agent_coordination.Domain.Research.{Evaluation, SelectionDecision, Submission}
use agent_coordination.Floats.{Floats, by_number, descending}
use agent_coordination.Selection.Similarity.{fingerprint, jaccard}
use agent_coordination.Selection.Ranking.{
  AggregateEvaluation, DiversitySignal, aggregate, aggregate_id, better, rank_of, signal_of,
}
use agent_coordination.Selection.Slots.{
  Selected, elite_slot, fill, ids, kind_of, novelty_slot, wildcard_slot,
}

abbrev reason_of : SelectionKind → String
reason_of elite = "selected as highest-quality viable elite"
reason_of novelty = "selected to preserve a textually novel branch"
reason_of wildcard = "selected as deterministic wildcard survivor"
reason_of _ = "selected by quality after diversity quotas"

module _ {F : Type 0} ⦃o : Floats F⦄ where
  unfoldable pub nonfatal_ids : List (AggregateEvaluation F) → List ℕ
  unfolding keep_if
  nonfatal_ids ranked = map aggregate_id (keep_if (λ a. not a.fatal_error) ranked)

  -- `nonfatal_ids or [item.submission_id for item in ranked]`
  unfoldable pub viable_ids : List (AggregateEvaluation F) → List ℕ
  unfolding nonfatal_ids
  viable_ids ranked =
      if is_empty (nonfatal_ids ranked) then map aggregate_id ranked else nonfatal_ids ranked

  module _ (lower : Text → Text) (digest : Format → ℕ) (generation_id : ℕ) (threshold : F)
      (submissions : List (Submission F)) where
    unfoldable pub fingerprint_of : ℕ → List Text
    unfolding fingerprint find_row
    fingerprint_of id = elim (find_row (λ s. s.id) id submissions) [
      | none ↦ []
      | some s ↦ fingerprint lower s
    ]

    -- `_redundant_with_selected`
    unfoldable pub redundant_with_selected : ℕ → Selected → Bool
    unfolding fingerprint_of any_of jaccard
    redundant_with_selected id selected =
        any_of (λ other. o.at_most threshold (jaccard (fingerprint_of id) (fingerprint_of other)))
          (ids selected)

    module _ (ranked : List (AggregateEvaluation F)) where
      -- A signal for each ranked candidate. Each of them is a submission, so there is one.
      unfoldable pub signal_for : ℕ → DiversitySignal F
      unfolding signal_of
      signal_for id = elim (signal_of lower ranked threshold submissions id) [
        | none ↦ record {
          novelty_score = o.zero;
          max_similarity = o.zero;
          redundant_with_submission_id = none;
        }
        | some signal ↦ signal
      ]

      unfoldable pub novelty_first : ℕ → ℕ → Bool
      unfolding signal_for rank_of
      novelty_first =
          lexi (descending (λ (id : ℕ). (signal_for id).novelty_score))
            (lexi (by_number (λ (id : ℕ). rank_of id ranked)) (by_number (λ (id : ℕ). id)))

      unfoldable pub wildcard_first : ℕ → ℕ → Bool
      wildcard_first =
          by_number
            λ (id : ℕ). digest (ident generation_id ∷ word ":" ∷ ident id ∷ word ":wildcard" ∷ [])

      -- `selected_kind` at the end of the method.
      unfoldable pub choose : ℕ → Selected
      unfolding viable_ids
      choose survivor_count =
          let viable = viable_ids ranked in
          let some_nonfatal = not (is_empty (nonfatal_ids ranked)) in
          let pass = fill survivor_count redundant_with_selected some_nonfatal in
          pass true ranked (
            pass false ranked (
              wildcard_slot survivor_count redundant_with_selected wildcard_first viable (
                novelty_slot survivor_count novelty_first viable
                  (elite_slot survivor_count viable))))

      -- The kind and the reason of a decision.
      unfoldable pub verdict_of :
          Option SelectionKind → DiversitySignal F → Bool × SelectionKind × String
      verdict_of (some kind) signal = (true, kind, reason_of kind)
      verdict_of none signal = elim signal.redundant_with_submission_id [
        | none ↦ (false, eliminated, "eliminated after quality and diversity selection")
        | some other ↦ (false, redundant, "eliminated as redundant with a higher-ranked branch")
      ]

      -- `new_id` gives the fresh `uuid4()` of the decision on a submission.
      unfoldable pub decide_one : (ℕ → ℕ) → Selected → AggregateEvaluation F → SelectionDecision F
      unfolding verdict_of rank_of signal_for
      decide_one new_id selected a =
          let signal = signal_for a.submission_id in
          let (chosen, kind, reason) = verdict_of (kind_of a.submission_id selected) signal in
          record {
            generation_id = generation_id;
            submission_id = a.submission_id;
            selected = chosen;
            rank = rank_of a.submission_id ranked;
            score_vector = record {
              fatal_error = a.fatal_error;
              correctness = a.correctness;
              rigor = a.rigor;
              judge_novelty = a.novelty;
              research_progress = a.research_progress;
              verifiability = a.verifiability;
              judge_confidence = a.judge_confidence;
              text_novelty = signal.novelty_score;
              max_text_similarity = signal.max_similarity;
            };
            reason = reason;
            selection_kind = kind;
            novelty_score = signal.novelty_score;
            redundant_with_submission_id = signal.redundant_with_submission_id;
            id = new_id a.submission_id;
          }

      unfoldable pub decisions : (ℕ → ℕ) → ℕ → List (SelectionDecision F)
      decisions new_id survivor_count = map (decide_one new_id (choose survivor_count)) ranked

    unfoldable pub select :
        (ℕ → ℕ) → List (Evaluation F) → ℕ → List ℕ → Result (List (SelectionDecision F))
    unfolding aggregate sort
    select new_id evaluations survivor_count refuted_ids =
        if is_empty submissions
        then err (value_error (word "Cannot select from an empty generation" ∷ []))
        else if leb survivor_count 0 || ltb (length submissions) survivor_count
        then err (value_error (word "survivor_count must be within the population" ∷ []))
        else if not (o.at_most o.zero threshold && o.at_most threshold o.one)
        then err (value_error (word "redundancy_threshold must be between 0 and 1" ∷ []))
        else aggregate refuted_ids evaluations submissions >>= λ aggregates.
            ok (decisions (sort better aggregates) new_id survivor_count)
