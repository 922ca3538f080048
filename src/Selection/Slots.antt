-- ===== src/Selection/Slots.antt =====
-- The survivor slots of `TournamentPolicy.select`: elite, novelty, wildcard, then quality.
use agent_coordination.Prelude.{
  Bool, List, Option, [], if◌then◌else◌, is_empty, keep_if, leb, length, ltb, nat_beq, none, not,
  some, sort, ℕ, ◌&&◌, ◌++◌, ◌∷◌,
}
use agent_coordination.Domain.Enums.{SelectionKind, elite, novelty, quality, wildcard}
use agent_coordination.Selection.Ranking.{AggregateEvaluation, id_in}

-- `selected_kind`, in the order of insertion.
abbrev pub Selected : Type 0
Selected = List (ℕ × SelectionKind)

abbrev pub ids : Selected → List ℕ
ids [] = []
ids ((id, kind) ∷ rest) = id ∷ ids rest

abbrev pub kind_of : ℕ → Selected → Option SelectionKind
kind_of id [] = none
kind_of id ((x, kind) ∷ rest) = if nat_beq x id then some kind else kind_of id rest

abbrev pub first_of_list : List ℕ → Option ℕ
first_of_list [] = none
first_of_list (x ∷ xs) = some x

-- `[id for id in viable_ids if id not in selected_kind]`
unfoldable pub unselected : Selected → List ℕ → List ℕ
unfolding keep_if id_in
unselected selected viable_ids = keep_if (λ id. not (id_in id (ids selected))) viable_ids

module _ (survivor_count : ℕ) where
  -- The local function `add`.
  unfoldable pub add : Option ℕ → SelectionKind → Selected → Selected
  unfolding id_in
  add none kind selected = selected
  add (some id) kind selected =
      if ltb (length selected) survivor_count
      then if id_in id (ids selected) then selected else selected ++ (id, kind) ∷ []
      else selected

  unfoldable pub elite_slot : List ℕ → Selected
  unfolding add
  elite_slot viable_ids = add (first_of_list viable_ids) elite []

  unfoldable pub novelty_slot : (ℕ → ℕ → Bool) → List ℕ → Selected → Selected
  unfolding add unselected sort
  novelty_slot novelty_first viable_ids selected =
      if leb 2 survivor_count
      then add (first_of_list (sort novelty_first (unselected selected viable_ids))) novelty
          selected
      else selected

  module _ (redundant : ℕ → Selected → Bool) where
    unfoldable pub wildcard_candidates : List ℕ → Selected → List ℕ
    unfolding unselected
    wildcard_candidates viable_ids selected =
        let fitting =
          keep_if (λ id. not (id_in id (ids selected)) && not (redundant id selected)) viable_ids in
        if is_empty fitting then unselected selected viable_ids else fitting

    unfoldable pub wildcard_slot : (ℕ → ℕ → Bool) → List ℕ → Selected → Selected
    unfolding add wildcard_candidates sort
    wildcard_slot wildcard_first viable_ids selected =
        if leb 3 survivor_count
        then add (first_of_list (sort wildcard_first (wildcard_candidates viable_ids selected)))
            wildcard selected
        else selected

    module _ {F : Type 0} (some_nonfatal : Bool) where
      -- The body of the inner loop, past the `break`.
      unfoldable pub consider : Bool → AggregateEvaluation F → Selected → Selected
      consider allow_redundant a selected =
          if id_in a.submission_id (ids selected)
          then selected
          else if some_nonfatal && a.fatal_error
          then selected
          else if not allow_redundant && redundant a.submission_id selected
          then selected
          else add (some a.submission_id) quality selected

      unfoldable pub fill : Bool → List (AggregateEvaluation F) → Selected → Selected
      unfolding consider
      fill allow_redundant [] selected = selected
      fill allow_redundant (a ∷ rest) selected =
          let next = fill allow_redundant rest (consider allow_redundant a selected) in
          if leb survivor_count (length selected) then selected else next
