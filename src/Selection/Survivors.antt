-- ===== src/Selection/Survivors.antt =====
-- Who survives a generation.
use agent_coordination.Prelude.{
  All-at, Bool, Bool-cases, Distinct, List, Member, Member-cons, Member-head, Text, [], arith,
  false, inl, inr, is_empty, is_some, keep_if, keep_if-Distinct, keep_if-Member, keep_if-Member_of,
  later, length, length-le_of_Different, length-map, map, min, nat_beq, nat_beq_iff, not, refl,
  subst, sym, true, ℕ, ◌&&◌, ◌↔◌, ◌∙◌, ◌∷◌, ◌≡◌,
}
use agent_coordination.Domain.Data.{Format}
use agent_coordination.Domain.Enums.{elite}
use agent_coordination.Domain.Research.{SelectionDecision, Submission}
use agent_coordination.Floats.{Floats}
use agent_coordination.Selection.Ranking.{AggregateEvaluation, aggregate_id}
use agent_coordination.Selection.Slots.{Selected, elite_slot, ids, kind_of}
use agent_coordination.Selection.SlotLaws.{Good, add_first-Good, length-ids, novelty_slot-Good}
use agent_coordination.Selection.FillLaws.{Filled, fill-Filled, fill-Good, wildcard_slot-Good}
use agent_coordination.Selection.Policy.{
  choose, decide_one, decisions, nonfatal_ids, redundant_with_selected, viable_ids,
}
use agent_coordination.Selection.Viable.{
  Member-map, map-Different, map-Member, viable_ids-Allows, viable_ids-Different,
  viable_ids-nonfatal,
}

pub kind_of-Member : (id : ℕ) (s : Selected) → (is_some (kind_of id s) ≡ true) ↔ Member id (ids s)
kind_of-Member id [] = (λ h. absurd (cc), λ m. elim m [ ])
kind_of-Member id ((x, kind) ∷ s) = elim (Bool-cases (nat_beq x id)) [
  | inl e ↦ (λ h. Member-head ((nat_beq_iff x id).0 e), λ m. rw e)
  | inr e ↦ (
    λ h. later ((kind_of-Member id s).0 (rw e at h)),
    λ m. elim (Member-cons m) [
      | inl same ↦ absurd (ground (arith, nat_beq_iff x id))
      | inr n ↦ rw e ((kind_of-Member id s).1 n)
    ],
  )
]

module _ {F : Type 0} ⦃o : Floats F⦄ (lower : Text → Text) (digest : Format → ℕ) (generation_id : ℕ)
    (threshold : F) (submissions : List (Submission F)) (ranked : List (AggregateEvaluation F))
    (survivor_count : ℕ) where
  abbrev pub chosen : Selected
  chosen = choose lower digest generation_id threshold submissions ranked survivor_count

  choose-Good : Good survivor_count (viable_ids ranked) chosen
  unfolding choose elite_slot
  choose-Good =
      let viable = viable_ids ranked in
      fill-Good survivor_count viable _ _ true ranked _ (viable_ids-Allows ranked) (
        fill-Good survivor_count viable _ _ false ranked _ (viable_ids-Allows ranked) (
          wildcard_slot-Good survivor_count viable _ _ _ (
            novelty_slot-Good survivor_count viable _ _ (
              add_first-Good survivor_count viable viable elite [] (λ id m. m)
                (record { different = tt; viable = tt; fits = omega arith })))))

  chosen-Filled :
      Filled survivor_count
        (viable_ids ranked)
        (redundant_with_selected lower digest generation_id threshold submissions)
        (not (is_empty (nonfatal_ids ranked)))
        ranked
        chosen
  unfolding choose
  chosen-Filled = fill-Filled survivor_count (viable_ids ranked) _ _ ranked _

  -- As many candidates are chosen as there are slots, or as there are viable candidates.
  length-chosen :
      Distinct aggregate_id ranked → length chosen ≡ min survivor_count (length (viable_ids ranked))
  length-chosen d =
      let viable = viable_ids ranked in
      let g = choose-Good in
      let different = viable_ids-Different ranked d in
      let few =
        length-le_of_Different (ids chosen) viable g.different
          λ id m. All-at (λ i. Member i viable) m g.viable in
      elim chosen-Filled [
        | inl full ↦ omega (arith, g.fits, few, length-ids chosen, full)
        | inr all ↦
            let many = length-le_of_Different viable (ids chosen) different λ id m.
              let (a, k, same, f) = viable_ids-nonfatal ranked id m in
              subst (λ i. Member i (ids chosen)) same
                (All-at
                  (λ x.
                    (not (is_empty (nonfatal_ids ranked)) && x.fatal_error) ≡ false
                    → Member x.submission_id (ids chosen))
                  k all f) in
            omega (arith, g.fits, few, many, length-ids chosen)
      ]

  abbrev pub is_chosen : AggregateEvaluation F → Bool
  is_chosen a = is_some (kind_of a.submission_id chosen)

  pub decide_one-selected :
      (new_id : ℕ → ℕ) (a : AggregateEvaluation F)
      → (decide_one lower digest generation_id threshold submissions ranked new_id chosen
          a).selected
        ≡ is_chosen a
  unfolding decide_one
  decide_one-selected new_id a = ground arith

  count_selected :
      (new_id : ℕ → ℕ) (items : List (AggregateEvaluation F))
      → length (
          keep_if
            (λ d. d.selected)
            (map
              (decide_one lower digest generation_id threshold submissions ranked new_id chosen)
              items))
        ≡ length (keep_if is_chosen items)
  unfolding keep_if
  count_selected new_id [] = refl
  count_selected new_id (a ∷ items) =
      ground (arith, decide_one-selected new_id a, count_selected new_id items)

  length-keep_if-chosen :
      Distinct aggregate_id ranked → length (keep_if is_chosen ranked) ≡ length chosen
  length-keep_if-chosen d =
      let g = choose-Good in
      let kept = keep_if is_chosen ranked in
      let here =
        length-le_of_Different (map aggregate_id kept) (ids chosen)
          (map-Different kept (keep_if-Distinct aggregate_id is_chosen ranked d))
          λ id m.
            let (a, n, same) = Member-map id kept m in
            let (k, e) = keep_if-Member is_chosen ranked n in
            subst (λ i. Member i (ids chosen)) same ((kind_of-Member a.submission_id chosen).0 e) in
      let there = length-le_of_Different (ids chosen) (map aggregate_id kept) g.different λ id m.
        let (a, n, same, f) = viable_ids-nonfatal ranked id (All-at _ m g.viable) in
        let e =
          (kind_of-Member a.submission_id chosen).1
            (subst (λ i. Member i (ids chosen)) (sym same) m) in
        subst (λ i. Member i (map aggregate_id kept)) same
          (map-Member a kept (keep_if-Member_of is_chosen ranked n e)) in
      omega (arith, here, there, length-map kept aggregate_id, length-ids chosen)

  -- The survivors of the generation, among the decisions.
  abbrev pub decided : (ℕ → ℕ) → List (SelectionDecision F)
  decided new_id =
      decisions lower digest generation_id threshold submissions ranked new_id survivor_count

  pub count_survivors :
      (new_id : ℕ → ℕ)
      → Distinct aggregate_id ranked
      → length (keep_if (λ d. d.selected) (decided new_id))
        ≡ min survivor_count (length (viable_ids ranked))
  unfolding decisions
  count_survivors new_id d =
      count_selected new_id ranked ∙ length-keep_if-chosen d ∙ length-chosen d

  -- A survivor is viable.
  pub survivor_viable :
      (new_id : ℕ → ℕ) (a : AggregateEvaluation F)
      → (decide_one lower digest generation_id threshold submissions ranked new_id chosen
          a).selected
        ≡ true
      → Member a.submission_id (viable_ids ranked)
  survivor_viable new_id a e =
      All-at (λ id. Member id (viable_ids ranked))
        ((kind_of-Member a.submission_id chosen).0 (sym (decide_one-selected new_id a) ∙ e))
        choose-Good.viable
