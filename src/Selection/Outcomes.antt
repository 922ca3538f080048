-- ===== src/Selection/Outcomes.antt =====
-- What `TournamentPolicy.select` decides.
use agent_coordination.Prelude.{
  All, All-at, All-imp, All-map, Bool-cases, Distinct, Distinct-same, IsSorted, List, Member,
  Member-image, Text, [], ap, arith, inl, inr, is_empty, is_empty-map, keep_if, keep_if-empty,
  keep_if_none, length, length-sort, map, min, nat_beq, nat_beq_iff, not, refl, some, sort-Distinct,
  sort-IsSorted, subst, sym, true, ℕ, ◌+◌, ◌∙◌, ◌∷◌, ◌≡◌,
}
use agent_coordination.Errors.{ok}
use agent_coordination.Selection.Policy.{
  choose, decide_one, decisions, nonfatal_ids, select, viable_ids,
}
use agent_coordination.Selection.Slots.{kind_of}
use agent_coordination.Selection.Ranking.{
  AggregateEvaluation, aggregate_id, better, better-IsOrder, better-fatal, rank_of,
}
use agent_coordination.Selection.Accepted.{
  Accepted, aggregate-Distinct, length-aggregate, select-Accepted, submission_key,
}
use agent_coordination.Selection.Survivors.{count_survivors, survivor_viable}
use agent_coordination.Selection.Elite.{choose-elite, count_up, ranks_count_up}
use agent_coordination.Selection.Viable.{viable_ids-nonfatal}
use agent_coordination.Floats.{Floats}
use agent_coordination.Domain.Data.{Format}
use agent_coordination.Domain.Enums.{elite}
use agent_coordination.Domain.Research.{Evaluation, SelectionDecision, Submission}

module _ {F : Type 0} ⦃o : Floats F⦄ (lower : Text → Text) (digest : Format → ℕ) (generation_id : ℕ)
    (threshold : F) (submissions : List (Submission F)) (new_id : ℕ → ℕ)
    (evaluations : List (Evaluation F)) (survivor_count : ℕ) (refuted_ids : List ℕ)
    (result : List (SelectionDecision F)) where
  abbrev Selects : Type 0
  Selects =
      select lower digest generation_id threshold submissions new_id evaluations survivor_count
        refuted_ids
      ≡ ok result

  abbrev IsAccepted : List (AggregateEvaluation F) → Type 0
  IsAccepted ranked =
      Accepted lower digest generation_id threshold submissions new_id evaluations survivor_count
        refuted_ids ranked result

  ranked-Distinct :
      (ranked : List (AggregateEvaluation F))
      → Distinct submission_key submissions
      → IsAccepted ranked
      → Distinct aggregate_id ranked
  ranked-Distinct ranked d a = subst (Distinct aggregate_id) (sym a.sorted) (
      sort-Distinct better aggregate_id a.items
        (aggregate-Distinct refuted_ids evaluations submissions a.items d a.judged))

  -- On submissions with distinct ids, `select` chooses exactly as many survivors as were asked for,
  -- or all viable candidates when there are fewer; a candidate is viable when it has no fatal error,
  -- and each is when all have one.
  pub select_survivors :
      Distinct submission_key submissions
      → Selects
      → (ranked : List (AggregateEvaluation F)) × IsAccepted ranked
        × (length (keep_if (λ d. d.selected) result)
            ≡ min survivor_count (length (viable_ids ranked)))
  select_survivors d h =
      let (ranked, a) =
        select-Accepted lower digest generation_id threshold submissions new_id evaluations
          survivor_count refuted_ids result h in
      (
        ranked,
        a,
        subst
            (λ (r : List (SelectionDecision F)).
              length (keep_if (λ d. d.selected) r)
              ≡ min survivor_count (length (viable_ids ranked)))
            (sym a.decided)
            (count_survivors lower digest generation_id threshold submissions ranked survivor_count
              new_id (ranked-Distinct ranked d a)),
      )

  accepted : Selects → (ranked : List (AggregateEvaluation F)) × IsAccepted ranked
  accepted h =
      select-Accepted lower digest generation_id threshold submissions new_id evaluations
        survivor_count refuted_ids result h

  -- The decision on a ranked candidate.
  abbrev decide : List (AggregateEvaluation F) → AggregateEvaluation F → SelectionDecision F
  decide ranked =
      decide_one lower digest generation_id threshold submissions ranked new_id
        (choose lower digest generation_id threshold submissions ranked survivor_count)

  result_lem :
      (ranked : List (AggregateEvaluation F))
      → IsAccepted ranked
      → result ≡ map (decide ranked) ranked
  unfolding decisions
  result_lem ranked a = a.decided

  map-rank :
      (ranked items : List (AggregateEvaluation F))
      → map (λ d. d.rank) (map (decide ranked) items)
        ≡ map (λ x. 0 + rank_of x.submission_id ranked) items
  unfolding decide_one
  map-rank ranked [] = refl
  map-rank ranked (x ∷ items) = ground (arith, map-rank ranked items)

  map-candidate :
      (ranked items : List (AggregateEvaluation F))
      → map (λ d. d.submission_id) (map (decide ranked) items) ≡ map aggregate_id items
  unfolding decide_one
  map-candidate ranked [] = refl
  map-candidate ranked (x ∷ items) = ground (arith, map-candidate ranked items)

  length-ranked :
      (ranked : List (AggregateEvaluation F))
      → IsAccepted ranked
      → length ranked ≡ length submissions
  length-ranked ranked a =
      ap length a.sorted
      ∙ length-sort better a.items
      ∙ length-aggregate refuted_ids evaluations submissions a.items a.judged

  -- The ranks are 1, 2, ... in the order of the decisions, and there is one for each submission.
  ranks :
      (ranked : List (AggregateEvaluation F))
      → Distinct submission_key submissions
      → IsAccepted ranked
      → map (λ d. d.rank) result ≡ count_up 1 (length submissions)
  ranks ranked d a =
      ap (map (λ d. d.rank)) (result_lem ranked a)
      ∙ map-rank ranked ranked
      ∙ ranks_count_up 0 ranked (ranked-Distinct ranked d a)
      ∙ ap (count_up 1) (length-ranked ranked a)

  viable_head :
      (x : AggregateEvaluation F) (rest : List (AggregateEvaluation F))
      → IsSorted better (x ∷ rest)
      → (more : List ℕ) × (viable_ids (x ∷ rest) ≡ x.submission_id ∷ more)
  unfolding viable_ids nonfatal_ids keep_if
  viable_head x rest sorted = elim (Bool-cases x.fatal_error) [
    | inr e ↦ rw (e, viable_ids, nonfatal_ids, keep_if) (_, refl)
    | inl e ↦
        let none_left : is_empty (keep_if (λ a. not a.fatal_error) rest) ≡ true =
          keep_if_none (λ a. not a.fatal_error) rest
            (All-imp rest (λ y b. let f = better-fatal x y b e in rw f refl) sorted.0) in
        (
          map aggregate_id rest,
          ground (
            arith,
            e,
            none_left,
            is_empty-map aggregate_id (keep_if (λ a. not a.fatal_error) rest),
          ),
        )
  ]

  decide-elite :
      (x : AggregateEvaluation F) (ranked : List (AggregateEvaluation F))
      → kind_of x.submission_id
          (choose lower digest generation_id threshold submissions ranked survivor_count)
        ≡ some elite
      → ((decide ranked x).selected ≡ true) × ((decide ranked x).selection_kind ≡ elite)
  unfolding decide_one
  decide-elite x ranked k = ground (arith, k)

  -- On submissions with distinct ids, there is a decision for each, in the order of quality and with
  -- the ranks 1, 2, ... in this order, and the first one is to keep its candidate, as the elite.
  pub select_elite :
      Distinct submission_key submissions
      → Selects
      → (ranked : List (AggregateEvaluation F)) × IsAccepted ranked
        × IsSorted better ranked
        × (map (λ d. d.submission_id) result ≡ map aggregate_id ranked)
        × (map (λ d. d.rank) result ≡ count_up 1 (length submissions))
        × (first_decision : SelectionDecision F) × (rest : List (SelectionDecision F)) × (result
            ≡ first_decision ∷ rest)
        × (first_decision.selected ≡ true)
        × (first_decision.selection_kind ≡ elite)
  select_elite d h = let (ranked, a) = accepted h in elite_of ranked a
    where
      elite_of :
          (ranked : List (AggregateEvaluation F)) (a : IsAccepted ranked)
          → (ranked : List (AggregateEvaluation F)) × IsAccepted ranked
            × IsSorted better ranked
            × (map (λ d. d.submission_id) result ≡ map aggregate_id ranked)
            × (map (λ d. d.rank) result ≡ count_up 1 (length submissions))
            × (first_decision : SelectionDecision F) × (rest : List (SelectionDecision F)) × (result
                ≡ first_decision ∷ rest)
            × (first_decision.selected ≡ true)
            × (first_decision.selection_kind ≡ elite)
      elite_of [] a = absurd (omega (arith, a.enough, a.within, length-ranked [] a))
      elite_of (x ∷ rest) a =
          let sorted =
            subst (IsSorted better) (sym a.sorted) (sort-IsSorted better better-IsOrder a.items) in
          let (more, v) = viable_head x rest sorted in
          let (e, k) = decide-elite x (x ∷ rest) (
            choose-elite lower digest generation_id threshold submissions (x ∷ rest) survivor_count
              x.submission_id more a.enough v) in
          (
            x ∷ rest,
            a,
            sorted,
            ap (map (λ d. d.submission_id)) (result_lem (x ∷ rest) a)
                ∙ map-candidate (x ∷ rest) (x ∷ rest),
            ranks (x ∷ rest) d a,
            _,
            _,
            result_lem (x ∷ rest) a,
            e,
            k,
          )

  decide-fatal :
      (ranked : List (AggregateEvaluation F)) (x : AggregateEvaluation F)
      → (decide ranked x).score_vector.fatal_error ≡ x.fatal_error
  unfolding decide_one
  decide-fatal ranked x = refl

  every_fatal :
      (ranked : List (AggregateEvaluation F))
      → IsAccepted ranked
      → is_empty (nonfatal_ids ranked) ≡ true
      → All (λ e. e.score_vector.fatal_error ≡ true) result
  unfolding nonfatal_ids
  every_fatal ranked a h =
      subst (All (λ e. e.score_vector.fatal_error ≡ true)) (sym (result_lem ranked a)) (
        All-map (decide ranked) (λ e. e.score_vector.fatal_error ≡ true) ranked
          (All-imp ranked (λ x k. decide-fatal ranked x ∙ ground arith)
            (keep_if-empty (λ x. not x.fatal_error) ranked
              (sym (is_empty-map aggregate_id (keep_if (λ x. not x.fatal_error) ranked)) ∙ h))))

  -- On submissions with distinct ids, a candidate with a fatal error is selected by `select` only in a
  -- generation where every candidate has one.
  pub select_fatal :
      Distinct submission_key submissions
      → Selects
      → (d : SelectionDecision F) → Member d result
      → d.selected ≡ true
      → d.score_vector.fatal_error ≡ true
      → All (λ e. e.score_vector.fatal_error ≡ true) result
  select_fatal distinct h d m e f =
      let (ranked, a) = accepted h in
      let (x, n, same) =
        Member-image (decide ranked) ranked (subst (Member d) (result_lem ranked a) m) in
      let kept = ap (λ (z : SelectionDecision F). z.selected) same ∙ e in
      let (y, k, id, viable) = viable_ids-nonfatal ranked x.submission_id (
        survivor_viable lower digest generation_id threshold submissions ranked survivor_count
          new_id x kept) in
      let one =
        All-at (λ z. nat_beq z.submission_id x.submission_id ≡ true → z ≡ x) k
          (Distinct-same aggregate_id ranked (ranked-Distinct ranked distinct a) n)
          ((nat_beq_iff y.submission_id x.submission_id).1 id) in
      let fatal =
        ap (λ (z : AggregateEvaluation F). z.fatal_error) one
        ∙ sym (decide-fatal ranked x)
        ∙ ap (λ (z : SelectionDecision F). z.score_vector.fatal_error) same
        ∙ f in
      every_fatal ranked a (ground (arith, fatal, viable))
