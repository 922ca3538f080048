-- ===== src/Selection/Elite.antt =====
-- The best viable candidate keeps its slot, and the ranks are the places in the order of quality.
use agent_coordination.Prelude.{
  All, All-of, Bool, Bool-cases, Distinct, List, Member, Member-cons, Option, Text, [], arith,
  false, inl, inr, leb, length, ltb, map, nat_beq, nat_beq_refl, none, refl, some, sort, subst, suc,
  true, zero, ℕ, ◌++◌, ◌+◌, ◌<◌, ◌∷◌, ◌≡◌,
}
use agent_coordination.Selection.Policy.{choose, redundant_with_selected, viable_ids}
use agent_coordination.Selection.Slots.{
  Selected, add, consider, elite_slot, fill, first_of_list, ids, kind_of, novelty_slot, unselected,
  wildcard_candidates, wildcard_slot,
}
use agent_coordination.Selection.Ranking.{AggregateEvaluation, aggregate_id, id_in, rank_of}
use agent_coordination.Floats.{Floats}
use agent_coordination.Domain.Data.{Format}
use agent_coordination.Domain.Enums.{SelectionKind, elite, novelty, quality, wildcard}
use agent_coordination.Domain.Research.{Submission}

snoc-kind_of :
    (id x : ℕ) (kind k : SelectionKind) (s : Selected)
    → kind_of id s ≡ some kind
    → kind_of id (s ++ (x, k) ∷ []) ≡ some kind
snoc-kind_of id x kind k [] h = absurd (cc)
snoc-kind_of id x kind k ((y, j) ∷ s) h = ground (arith, snoc-kind_of id x kind k s)

module _ (survivor_count id : ℕ) (kind : SelectionKind) where
  abbrev Keeps : Selected → Type 0
  Keeps s = kind_of id s ≡ some kind

  add-Keeps :
      (x : Option ℕ) (k : SelectionKind) (s : Selected) → Keeps s → Keeps (add survivor_count x k s)
  unfolding add
  add-Keeps none k s h = h
  add-Keeps (some x) k s h = elim (Bool-cases (ltb (length s) survivor_count)) [
    | inr full ↦ rw (full, add) h
    | inl room ↦ elim (Bool-cases (id_in x (ids s))) [
      | inl old ↦ rw (room, old, add) h
      | inr new ↦ rw (room, new, add) (snoc-kind_of id x kind k s h)
    ]
  ]

  novelty_slot-Keeps :
      (first_key : ℕ → ℕ → Bool) (viable : List ℕ) (s : Selected)
      → Keeps s
      → Keeps (novelty_slot survivor_count first_key viable s)
  unfolding novelty_slot
  novelty_slot-Keeps first_key viable s h = elim (Bool-cases (leb 2 survivor_count)) [
    | inl many ↦
        rw many (add-Keeps (first_of_list (sort first_key (unselected s viable))) novelty s h)
    | inr few ↦ rw few h
  ]

  module _ (redundant : ℕ → Selected → Bool) where
    wildcard_slot-Keeps :
        (first_key : ℕ → ℕ → Bool) (viable : List ℕ) (s : Selected)
        → Keeps s
        → Keeps (wildcard_slot survivor_count redundant first_key viable s)
    unfolding wildcard_slot
    wildcard_slot-Keeps first_key viable s h = elim (Bool-cases (leb 3 survivor_count)) [
      | inl many ↦ rw many (
          add-Keeps
            (first_of_list (sort first_key (wildcard_candidates survivor_count redundant viable s)))
            wildcard s h)
      | inr few ↦ rw few h
    ]

    consider-Keeps :
        {F : Type 0} (fatal_skipped allow_redundant : Bool) (a : AggregateEvaluation F)
        (s : Selected)
        → Keeps s
        → Keeps (consider survivor_count redundant fatal_skipped allow_redundant a s)
    unfolding consider
    consider-Keeps fatal_skipped allow_redundant a s h =
        ground (arith, add-Keeps (some a.submission_id) quality s h)

    fill-Keeps :
        {F : Type 0} (fatal_skipped allow_redundant : Bool) (ranked : List (AggregateEvaluation F))
        (s : Selected)
        → Keeps s
        → Keeps (fill survivor_count redundant fatal_skipped allow_redundant ranked s)
    unfolding fill
    fill-Keeps fatal_skipped allow_redundant [] s h = h
    fill-Keeps fatal_skipped allow_redundant (a ∷ rest) s h =
        elim (Bool-cases (leb survivor_count (length s))) [
          | inl full ↦ rw full h
          | inr room ↦ rw room (
              fill-Keeps fatal_skipped allow_redundant rest _
                (consider-Keeps fatal_skipped allow_redundant a s h))
        ]

elite_slot_lem :
    (survivor_count id : ℕ) (rest : List ℕ)
    → 0 < survivor_count
    → kind_of id (elite_slot survivor_count (id ∷ rest)) ≡ some elite
unfolding elite_slot
elite_slot_lem survivor_count id rest h = ground (arith, nat_beq_refl id)

module _ {F : Type 0} ⦃o : Floats F⦄ (lower : Text → Text) (digest : Format → ℕ) (generation_id : ℕ)
    (threshold : F) (submissions : List (Submission F))
    (ranked : List (AggregateEvaluation F)) where
  pub choose-elite :
      (survivor_count id : ℕ) (rest : List ℕ)
      → 0 < survivor_count
      → viable_ids ranked ≡ id ∷ rest
      → kind_of id (choose lower digest generation_id threshold submissions ranked survivor_count)
        ≡ some elite
  unfolding choose
  choose-elite survivor_count id rest h e =
      let redundant = redundant_with_selected lower digest generation_id threshold submissions in
      let start : kind_of id (elite_slot survivor_count (viable_ids ranked)) ≡ some elite =
        rw e (elite_slot_lem survivor_count id rest h) in
      fill-Keeps survivor_count id elite redundant _ true ranked _ (
        fill-Keeps survivor_count id elite redundant _ false ranked _ (
          wildcard_slot-Keeps survivor_count id elite redundant _ _ _
            (novelty_slot-Keeps survivor_count id elite _ _ _ start)))

-- `n` numbers, from `from` on.
abbrev pub count_up : ℕ → ℕ → List ℕ
count_up from zero = []
count_up from (suc n) = from ∷ count_up (suc from) n

module _ {F : Type 0} ⦃o : Floats F⦄ where
  rank_of_unranked :
      (id : ℕ) (items : List (AggregateEvaluation F))
      → All (λ x. nat_beq id x.submission_id ≡ false) items
      → rank_of id items ≡ 0
  unfolding rank_of
  rank_of_unranked id [] d = refl
  rank_of_unranked id (x ∷ items) d = ground (arith, d.0, rank_of_unranked id items d.1)

  rank_of_ranked :
      (x : AggregateEvaluation F) (items : List (AggregateEvaluation F))
      → Member x items
      → 0 < rank_of x.submission_id items
  unfolding rank_of
  rank_of_ranked x [] m = elim m [ ]
  rank_of_ranked x (y ∷ items) m = elim (Member-cons m) [
    | inl same ↦
        subst (λ (z : AggregateEvaluation F). 0 < rank_of z.submission_id (y ∷ items)) same
          (ground (arith, nat_beq_refl y.submission_id))
    | inr n ↦ ground (arith, rank_of_ranked x items n)
  ]

  rank_of_later :
      (a : AggregateEvaluation F) (before : List (AggregateEvaluation F)) (k : ℕ)
      (items : List (AggregateEvaluation F))
      → All (λ x. 0 < rank_of x.submission_id before) items
      → map (λ x. k + rank_of x.submission_id (a ∷ before)) items
        ≡ map (λ x. suc k + rank_of x.submission_id before) items
  unfolding rank_of
  rank_of_later a before k [] d = refl
  rank_of_later a before k (x ∷ items) d = cc (rank_of_later a before k items d.1, step)
    where
      step : k + rank_of x.submission_id (a ∷ before) ≡ suc k + rank_of x.submission_id before
      step = ground (arith, d.0)

  pub ranks_count_up :
      (k : ℕ) (ranked : List (AggregateEvaluation F))
      → Distinct aggregate_id ranked
      → map (λ x. k + rank_of x.submission_id ranked) ranked ≡ count_up (suc k) (length ranked)
  unfolding rank_of
  ranks_count_up k [] d = refl
  ranks_count_up k (a ∷ ranked) d = cc (
    rank_of_later a ranked k ranked (All-of ranked (λ x m. rank_of_ranked x ranked m)),
    ranks_count_up (suc k) ranked d.1,
    head,
  )
    where
      head : k + rank_of a.submission_id (a ∷ ranked) ≡ suc k
      head =
          ground (arith, nat_beq_refl a.submission_id, rank_of_unranked a.submission_id ranked d.0)
