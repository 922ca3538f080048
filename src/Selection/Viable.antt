-- ===== src/Selection/Viable.antt =====
-- The viable candidates of a ranking.
use agent_coordination.Prelude.{
  All, All-of, Bool, Bool-cases, Different, Distinct, List, Member, Member-cons, [], arith, false,
  first, inl, inr, is_empty, keep_if, keep_if-Distinct, keep_if-Member, keep_if-Member_of, later,
  map, nat_beq, not, ℕ, ◌&&◌, ◌∷◌, ◌≡◌,
}
use agent_coordination.Floats.{Floats}
use agent_coordination.Selection.Ranking.{AggregateEvaluation, aggregate_id}
use agent_coordination.Selection.FillLaws.{Allows}
use agent_coordination.Selection.Policy.{nonfatal_ids, viable_ids}

module _ {F : Type 0} ⦃o : Floats F⦄ where
  pub map-Member :
      (a : AggregateEvaluation F) (xs : List (AggregateEvaluation F))
      → Member a xs
      → Member a.submission_id (map aggregate_id xs)
  map-Member a (x ∷ xs) first = first
  map-Member a (x ∷ xs) (later m) = later (map-Member a xs m)
  map-Member a [] m = elim m [ ]

  pub Member-map :
      (id : ℕ) (xs : List (AggregateEvaluation F))
      → Member id (map aggregate_id xs)
      → (a : AggregateEvaluation F) × Member a xs × (a.submission_id ≡ id)
  Member-map id [] m = elim m [ ]
  Member-map id (x ∷ xs) m = elim (Member-cons m) [
    | inl same ↦ (x, first, same)
    | inr n ↦ let (a, k, e) = Member-map id xs n in (a, later k, e)
  ]

  pub map-Different :
      (xs : List (AggregateEvaluation F))
      → Distinct aggregate_id xs
      → Different (map aggregate_id xs)
  map-Different [] d = tt
  map-Different (x ∷ xs) d = (heads xs d.0, map-Different xs d.1)
    where
      heads :
          (ys : List (AggregateEvaluation F))
          → All (λ y. nat_beq x.submission_id y.submission_id ≡ false) ys
          → All (λ i. nat_beq x.submission_id i ≡ false) (map aggregate_id ys)
      heads [] h = tt
      heads (y ∷ ys) h = (h.0, heads ys h.1)

  nonfatal : AggregateEvaluation F → Bool
  nonfatal a = not a.fatal_error

  pub some_nonfatal : List (AggregateEvaluation F) → Bool
  some_nonfatal ranked = not (is_empty (nonfatal_ids ranked))

  -- A ranked candidate that has no fatal error, or any candidate when all have one, is viable.
  pub viable_ids-Allows :
      (ranked : List (AggregateEvaluation F))
      → Allows 0 (viable_ids ranked) (λ _ _. false) (not (is_empty (nonfatal_ids ranked))) ranked
  unfolding viable_ids
  viable_ids-Allows ranked = elim (Bool-cases (is_empty (nonfatal_ids ranked))) [
    | inl e ↦ All-of ranked λ a m f. rw e (map-Member a ranked m)
    | inr e ↦ All-of ranked λ a m f.
        rw e (map-Member a _ (keep_if-Member_of (λ x. not x.fatal_error) ranked m (ground arith)))
  ]

  pub viable_ids-nonfatal :
      (ranked : List (AggregateEvaluation F)) (id : ℕ)
      → Member id (viable_ids ranked)
      → (a : AggregateEvaluation F) × Member a ranked
        × (a.submission_id ≡ id)
        × ((not (is_empty (nonfatal_ids ranked)) && a.fatal_error) ≡ false)
  unfolding viable_ids
  viable_ids-nonfatal ranked id m = elim (Bool-cases (is_empty (nonfatal_ids ranked))) [
    | inl e ↦
        let (a, n, same) = Member-map id ranked (rw (e, viable_ids) at m) in (a, n, same, rw e)
    | inr e ↦
        let (a, n, same) =
          Member-map id (keep_if (λ x. not x.fatal_error) ranked) (rw (e, viable_ids) at m) in
        let (k, f) = keep_if-Member (λ x. not x.fatal_error) ranked n in (a, k, same, ground arith)
  ]

  pub viable_ids-Different :
      (ranked : List (AggregateEvaluation F))
      → Distinct aggregate_id ranked
      → Different (viable_ids ranked)
  unfolding viable_ids
  viable_ids-Different ranked d = elim (Bool-cases (is_empty (nonfatal_ids ranked))) [
    | inl e ↦ rw e (map-Different ranked d)
    | inr e ↦
        rw e (map-Different _ (keep_if-Distinct aggregate_id (λ x. not x.fatal_error) ranked d))
  ]
