-- ===== src/Selection/Accepted.antt =====
-- What a call of `select` that raises nothing has checked, and what it decides on: one aggregate
-- for each submission.
use agent_coordination.Prelude.{
  All, Bool-cases, Different, Distinct, List, Text, [], ap, arith, false, inl, inr, is_empty,
  keep_if, leb, length, length-map, ltb, map, nat_beq, refl, sort, subst, sym, ℕ, ◌&&◌, ◌||◌, ◌∙◌,
  ◌∷◌, ◌≡◌, ◌≤◌,
}
use agent_coordination.Errors.{Result-cases, ok}
use agent_coordination.Domain.Data.{Format}
use agent_coordination.Domain.Research.{Evaluation, SelectionDecision, Submission}
use agent_coordination.Floats.{Floats}
use agent_coordination.Selection.Ranking.{
  AggregateEvaluation, aggregate, aggregate_id, aggregate_one, better,
}
use agent_coordination.Selection.Policy.{decisions, select}

module _ {A : Type 0} (f : A → ℕ) where
  Distinct-Different : (xs : List A) → Distinct f xs → Different (map f xs)
  Distinct-Different [] d = tt
  Distinct-Different (x ∷ xs) d = (heads xs d.0, Distinct-Different xs d.1)
    where
      heads :
          (ys : List A)
          → All (λ y. nat_beq (f x) (f y) ≡ false) ys
          → All (λ i. nat_beq (f x) i ≡ false) (map f ys)
      heads [] h = tt
      heads (y ∷ ys) h = (h.0, heads ys h.1)

  Different-Distinct : (xs : List A) → Different (map f xs) → Distinct f xs
  Different-Distinct [] d = tt
  Different-Distinct (x ∷ xs) d = (heads xs d.0, Different-Distinct xs d.1)
    where
      heads :
          (ys : List A)
          → All (λ i. nat_beq (f x) i ≡ false) (map f ys)
          → All (λ y. nat_beq (f x) (f y) ≡ false) ys
      heads [] h = tt
      heads (y ∷ ys) h = (h.0, heads ys h.1)

module _ {F : Type 0} ⦃o : Floats F⦄ where
  abbrev pub submission_key : Submission F → ℕ
  submission_key s = s.id

  -- The aggregates stand in the order of the submissions.
  map-aggregate :
      (refuted_ids : List ℕ) (evaluations : List (Evaluation F)) (submissions : List (Submission F))
      (items : List (AggregateEvaluation F))
      → aggregate refuted_ids evaluations submissions ≡ ok items
      → map aggregate_id items ≡ map submission_key submissions
  unfolding aggregate aggregate_one
  map-aggregate refuted_ids evaluations [] items h = ground arith
  map-aggregate refuted_ids evaluations (s ∷ rest) items h =
      elim (Bool-cases (is_empty (keep_if (λ e. nat_beq e.submission_id s.id) evaluations))) [
        | inl e ↦ absurd (ground (arith, h, e))
        | inr e ↦ elim (Result-cases (aggregate refuted_ids evaluations rest)) [
          | inl (more, k) ↦ ground (arith, h, map-aggregate refuted_ids evaluations rest more k)
          | inr (x, k) ↦ absurd (ground arith)
        ]
      ]

  pub length-aggregate :
      (refuted_ids : List ℕ) (evaluations : List (Evaluation F)) (submissions : List (Submission F))
      (items : List (AggregateEvaluation F))
      → aggregate refuted_ids evaluations submissions ≡ ok items
      → length items ≡ length submissions
  length-aggregate refuted_ids evaluations submissions items h =
      sym (length-map items aggregate_id)
      ∙ ap length (map-aggregate refuted_ids evaluations submissions items h)
      ∙ length-map submissions submission_key

  pub aggregate-Distinct :
      (refuted_ids : List ℕ) (evaluations : List (Evaluation F)) (submissions : List (Submission F))
      (items : List (AggregateEvaluation F))
      → Distinct submission_key submissions
      → aggregate refuted_ids evaluations submissions ≡ ok items
      → Distinct aggregate_id items
  aggregate-Distinct refuted_ids evaluations submissions items d h =
      Different-Distinct aggregate_id items (
        subst Different (sym (map-aggregate refuted_ids evaluations submissions items h))
          (Distinct-Different submission_key submissions d))

  module _ (lower : Text → Text) (digest : Format → ℕ) (generation_id : ℕ) (threshold : F)
      (submissions : List (Submission F)) (new_id : ℕ → ℕ) (evaluations : List (Evaluation F))
      (survivor_count : ℕ) (refuted_ids : List ℕ) where
    -- The arguments are accepted, and the decisions are those on the ranking `ranked`.
    pub record Accepted (ranked : List (AggregateEvaluation F))
        (result : List (SelectionDecision F)) : Type 0 where
      pub enough : 1 ≤ survivor_count
      pub within : survivor_count ≤ length submissions
      pub items : List (AggregateEvaluation F)
      pub judged : aggregate refuted_ids evaluations submissions ≡ ok items
      pub sorted : ranked ≡ sort better items
      pub decided :
          result
          ≡ decisions lower digest generation_id threshold submissions ranked new_id survivor_count

    pub select-Accepted :
        (result : List (SelectionDecision F))
        → select lower digest generation_id threshold submissions new_id evaluations survivor_count
            refuted_ids
          ≡ ok result
        → (ranked : List (AggregateEvaluation F)) × Accepted ranked result
    unfolding select
    select-Accepted result h = elim (Bool-cases (is_empty submissions)) [
      | inl e ↦ absurd (ground (arith, h, e))
      | inr e ↦
          elim (Bool-cases (leb survivor_count 0 || ltb (length submissions) survivor_count)) [
            | inl f ↦ absurd (ground (arith, h, e, f))
            | inr f ↦ elim (Bool-cases (o.at_most o.zero threshold && o.at_most threshold o.one)) [
              | inr g ↦ absurd (ground (arith, h, e, f, g))
              | inl g ↦ elim (Result-cases (aggregate refuted_ids evaluations submissions)) [
                | inr (x, k) ↦ absurd (ground (arith, h, e, f, g, k))
                | inl (items, k) ↦ (
                  sort better items,
                  record {
                    enough = ground arith;
                    within = ground arith;
                    items = items;
                    judged = k;
                    sorted = refl;
                    decided = ground (arith, h, e, f, g, k);
                  },
                )
              ]
            ]
          ]
    ]
