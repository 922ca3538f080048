-- ===== src/Selection/FillLaws.antt =====
-- The wildcard slot and the two passes that fill the slots that are left.
use agent_coordination.Prelude.{
  All, Bool, Bool-cases, List, Member, [], arith, false, inl, inr, is_empty, keep_if,
  keep_if-Member, leb, leb→le, length, ltb, not, some, sort, sort-Member, subst, sym, true, ℕ, ◌&&◌,
  ◌∷◌, ◌≡◌, ◌≤◌, ◌⊎◌,
}
use agent_coordination.Domain.Enums.{quality, wildcard}
use agent_coordination.Selection.Ranking.{AggregateEvaluation, id_in}
use agent_coordination.Selection.Slots.{
  Selected, add, consider, fill, ids, wildcard_candidates, wildcard_slot,
}
use agent_coordination.Selection.SlotLaws.{
  Good, add-Good, add-Member, add-keeps, add_first-Good, id_in-Member,
}

module _ (survivor_count : ℕ) (viable_ids : List ℕ) (redundant : ℕ → Selected → Bool) where
  wildcard_candidates-Member :
      (s : Selected) (id : ℕ)
      → Member id (wildcard_candidates survivor_count redundant viable_ids s)
      → Member id viable_ids
  unfolding wildcard_candidates
  wildcard_candidates-Member s id m =
      let fitting = keep_if (λ id. not (id_in id (ids s)) && not (redundant id s)) viable_ids in
      elim (Bool-cases (is_empty fitting)) [
        | inl e ↦ (keep_if-Member _ viable_ids (rw (e, wildcard_candidates) at m)).0
        | inr e ↦ (keep_if-Member _ viable_ids (rw (e, wildcard_candidates) at m)).0
      ]

  pub wildcard_slot-Good :
      (wildcard_first : ℕ → ℕ → Bool) (s : Selected)
      → Good survivor_count viable_ids s
      → Good survivor_count viable_ids
          (wildcard_slot survivor_count redundant wildcard_first viable_ids s)
  unfolding wildcard_slot
  wildcard_slot-Good wildcard_first s g = elim (Bool-cases (leb 3 survivor_count)) [
    | inr few ↦ rw few g
    | inl many ↦ rw many (
        add_first-Good survivor_count viable_ids
          (sort wildcard_first (wildcard_candidates survivor_count redundant viable_ids s)) wildcard
          s (λ id m. wildcard_candidates-Member s id (sort-Member wildcard_first _ m)) g)
  ]

  module _ {F : Type 0} (some_nonfatal : Bool) where
    -- A candidate that the filling loop may select is viable.
    abbrev pub Allows : List (AggregateEvaluation F) → Type 0
    Allows ranked =
        All (λ a. (some_nonfatal && a.fatal_error) ≡ false → Member a.submission_id viable_ids)
          ranked

    consider-Good :
        (allow_redundant : Bool) (a : AggregateEvaluation F) (s : Selected)
        → ((some_nonfatal && a.fatal_error) ≡ false → Member a.submission_id viable_ids)
        → Good survivor_count viable_ids s
        → Good survivor_count viable_ids
            (consider survivor_count redundant some_nonfatal allow_redundant a s)
    unfolding consider
    consider-Good allow_redundant a s allowed g =
        let added = add survivor_count (some a.submission_id) quality s in
        elim (Bool-cases (id_in a.submission_id (ids s))) [
          | inl e ↦ rw e g
          | inr e ↦ elim (Bool-cases (some_nonfatal && a.fatal_error)) [
            | inl f ↦ rw (e, f) g
            | inr f ↦ elim (Bool-cases (not allow_redundant && redundant a.submission_id s)) [
              | inl r ↦ rw (e, f, r) g
              | inr r ↦
                  rw (e, f, r)
                    (add-Good survivor_count viable_ids a.submission_id quality s (allowed f) g)
            ]
          ]
        ]

    consider_keeps :
        (allow_redundant : Bool) (a : AggregateEvaluation F) (s : Selected) (x : ℕ)
        → Member x (ids s)
        → Member x (ids (consider survivor_count redundant some_nonfatal allow_redundant a s))
    unfolding consider
    consider_keeps allow_redundant a s x m = elim (Bool-cases (id_in a.submission_id (ids s))) [
      | inl e ↦ rw e m
      | inr e ↦ elim (Bool-cases (some_nonfatal && a.fatal_error)) [
        | inl f ↦ rw (e, f) m
        | inr f ↦ elim (Bool-cases (not allow_redundant && redundant a.submission_id s)) [
          | inl r ↦ rw (e, f, r) m
          | inr r ↦ rw (e, f, r) (add-keeps survivor_count viable_ids x _ quality s m)
        ]
      ]
    ]

    -- Where redundancy is allowed and there is room, a viable candidate is selected.
    consider_selects :
        (a : AggregateEvaluation F) (s : Selected)
        → (some_nonfatal && a.fatal_error) ≡ false
        → ltb (length s) survivor_count ≡ true
        → Member a.submission_id (ids (consider survivor_count redundant some_nonfatal true a s))
    unfolding consider
    consider_selects a s f room = elim (Bool-cases (id_in a.submission_id (ids s))) [
      | inl e ↦ rw e ((id_in-Member a.submission_id (ids s)).0 e)
      | inr e ↦ rw (e, f) (add-Member survivor_count viable_ids a.submission_id quality s room)
    ]

    pub fill-Good :
        (allow_redundant : Bool) (ranked : List (AggregateEvaluation F)) (s : Selected)
        → Allows ranked
        → Good survivor_count viable_ids s
        → Good survivor_count viable_ids
            (fill survivor_count redundant some_nonfatal allow_redundant ranked s)
    unfolding fill
    fill-Good allow_redundant [] s allowed g = g
    fill-Good allow_redundant (a ∷ rest) s allowed g =
        elim (Bool-cases (leb survivor_count (length s))) [
          | inl full ↦ rw full g
          | inr room ↦ rw room (
              fill-Good allow_redundant rest
                (consider survivor_count redundant some_nonfatal allow_redundant a s) allowed.1
                (consider-Good allow_redundant a s allowed.0 g))
        ]

    pub fill_keeps :
        (allow_redundant : Bool) (ranked : List (AggregateEvaluation F)) (s : Selected) (x : ℕ)
        → Member x (ids s)
        → Member x (ids (fill survivor_count redundant some_nonfatal allow_redundant ranked s))
    unfolding fill
    fill_keeps allow_redundant [] s x m = m
    fill_keeps allow_redundant (a ∷ rest) s x m =
        elim (Bool-cases (leb survivor_count (length s))) [
          | inl full ↦ rw full m
          | inr room ↦ rw room (
              fill_keeps allow_redundant rest
                (consider survivor_count redundant some_nonfatal allow_redundant a s) x
                (consider_keeps allow_redundant a s x m))
        ]

    -- Every slot is taken, or every viable candidate is selected.
    abbrev pub Filled : List (AggregateEvaluation F) → Selected → Type 0
    Filled ranked s =
        (survivor_count ≤ length s)
        ⊎ All (λ a. (some_nonfatal && a.fatal_error) ≡ false → Member a.submission_id (ids s))
            ranked

    -- The second pass fills the slots as far as it can.
    pub fill-Filled :
        (ranked : List (AggregateEvaluation F)) (s : Selected)
        → Filled ranked (fill survivor_count redundant some_nonfatal true ranked s)
    unfolding fill
    fill-Filled [] s = inr tt
    fill-Filled (a ∷ rest) s = elim (Bool-cases (leb survivor_count (length s))) [
      | inl full ↦ inl (rw full (leb→le survivor_count (length s) full))
      | inr room ↦
          let next = consider survivor_count redundant some_nonfatal true a s in
          let step : fill survivor_count redundant some_nonfatal true (a ∷ rest) s
              ≡ fill survivor_count redundant some_nonfatal true rest next =
            rw room in
          subst (Filled (a ∷ rest)) (sym step) (elim (fill-Filled rest next) [
            | inl full ↦ inl full
            | inr all ↦ inr (
              λ f.
                  fill_keeps true rest next a.submission_id (consider_selects a s f (ground arith)),
              all,
            )
          ])
    ]
