-- ===== src/Memory/Gather.antt =====
-- The loop of `build_memory_packet`.
use agent_coordination.Prelude.{
  All, All-imp, Bool, Bool-cases, IsSorted, List, Text, [], any_of, arith, false, inl, inr, leb,
  leb→le, length, refl, subst, suc, sym, true, ℕ, ◌+◌, ◌<◌, ◌||◌, ◌∷◌, ◌≡◌, ◌≤◌,
}
use agent_coordination.Memory.{comes_first, gather, normalize}
use agent_coordination.Selection.Similarity.{text_in}
use agent_coordination.Domain.Keys.{text_beq, text_beq_iff}
use agent_coordination.Domain.Research.{KnowledgeItem}
use agent_coordination.Floats.{Floats}

unseen_tail :
    (key other : Text) (seen : List Text)
    → text_in key (other ∷ seen) ≡ false
    → text_in key seen ≡ false
unfolding text_in
unseen_tail key other seen h = ground (arith, h)

unseen_head :
    (key other : Text) (seen : List Text)
    → text_in key (other ∷ seen) ≡ false
    → text_beq key other ≡ false
unfolding text_in
unseen_head key other seen h = ground (arith, h)

moved_key :
    (key other : Text) (seen : List Text) (b : Bool)
    → (text_in key (other ∷ seen) || b) ≡ true
    → (text_in key seen || (text_beq key other || b)) ≡ true
unfolding text_in
moved_key key other seen b h = ground (arith, h)

module _ (lower : Text → Text) {F : Type 0} ⦃o : Floats F⦄ where
  abbrev pub key_of : KnowledgeItem F → Text
  key_of item = normalize lower item.content

  -- No two items have the same normalised content.
  abbrev pub DistinctKeys : List (KnowledgeItem F) → Type 0
  DistinctKeys [] = Unit
  DistinctKeys (i ∷ rest) =
      All (λ j. text_beq (key_of j) (key_of i) ≡ false) rest × DistinctKeys rest

  -- An item of the packet has this normalised content.
  abbrev pub has_key : List (KnowledgeItem F) → Text → Bool
  has_key packet key = any_of (λ i. text_beq key (key_of i)) packet

  has_own_key :
      (seen : List Text) (i : KnowledgeItem F) (more : List (KnowledgeItem F))
      → (text_in (key_of i) seen || has_key (i ∷ more) (key_of i)) ≡ true
  unfolding any_of
  has_own_key seen i more = ground (arith, (text_beq_iff (key_of i) (key_of i)).1 refl)

  module _ (max_items : ℕ) where
    abbrev picked : ℕ → List Text → List (KnowledgeItem F) → List (KnowledgeItem F)
    picked = gather lower max_items

    pub gather-All :
        (P : KnowledgeItem F → Type 0) (count : ℕ) (seen : List Text)
        (items : List (KnowledgeItem F))
        → All P items
        → All P (picked count seen items)
    unfolding gather
    gather-All P count seen [] h = tt
    gather-All P count seen (i ∷ items) h = elim (Bool-cases (text_in (key_of i) seen)) [
      | inl old ↦ rw old (gather-All P count seen items h.1)
      | inr new ↦ elim (Bool-cases (leb max_items (suc count))) [
        | inl full ↦ rw (new, full) (h.0, tt)
        | inr room ↦ rw (new, room) (h.0, gather-All P (suc count) (key_of i ∷ seen) items h.1)
      ]
    ]

    pub gather-IsSorted :
        (count : ℕ) (seen : List Text) (items : List (KnowledgeItem F))
        → IsSorted (comes_first lower) items
        → IsSorted (comes_first lower) (picked count seen items)
    unfolding gather
    gather-IsSorted count seen [] h = tt
    gather-IsSorted count seen (i ∷ items) h = elim (Bool-cases (text_in (key_of i) seen)) [
      | inl old ↦ rw old (gather-IsSorted count seen items h.1)
      | inr new ↦ elim (Bool-cases (leb max_items (suc count))) [
        | inl full ↦ rw (new, full) (tt, tt)
        | inr room ↦
            rw (new, room)
              (
                gather-All (λ j. comes_first lower i j ≡ true) (suc count) (key_of i ∷ seen) items
                    h.0,
                gather-IsSorted (suc count) (key_of i ∷ seen) items h.1,
              )
      ]
    ]

    gather-unseen :
        (count : ℕ) (seen : List Text) (items : List (KnowledgeItem F))
        → All (λ i. text_in (key_of i) seen ≡ false) (picked count seen items)
    unfolding gather
    gather-unseen count seen [] = tt
    gather-unseen count seen (i ∷ items) = elim (Bool-cases (text_in (key_of i) seen)) [
      | inl old ↦ rw old (gather-unseen count seen items)
      | inr new ↦ elim (Bool-cases (leb max_items (suc count))) [
        | inl full ↦ rw (new, full) (new, tt)
        | inr room ↦
            rw (new, room)
              (
                new,
                All-imp (picked (suc count) (key_of i ∷ seen) items)
                    (λ j h. unseen_tail (key_of j) (key_of i) seen h)
                    (gather-unseen (suc count) (key_of i ∷ seen) items),
              )
      ]
    ]

    pub gather-DistinctKeys :
        (count : ℕ) (seen : List Text) (items : List (KnowledgeItem F))
        → DistinctKeys (picked count seen items)
    unfolding gather
    gather-DistinctKeys count seen [] = tt
    gather-DistinctKeys count seen (i ∷ items) = elim (Bool-cases (text_in (key_of i) seen)) [
      | inl old ↦ rw old (gather-DistinctKeys count seen items)
      | inr new ↦ elim (Bool-cases (leb max_items (suc count))) [
        | inl full ↦ rw (new, full) (tt, tt)
        | inr room ↦
            rw (new, room)
              (
                All-imp (picked (suc count) (key_of i ∷ seen) items)
                    (λ j h. unseen_head (key_of j) (key_of i) seen h)
                    (gather-unseen (suc count) (key_of i ∷ seen) items),
                gather-DistinctKeys (suc count) (key_of i ∷ seen) items,
              )
      ]
    ]

    pub length-gather :
        (count : ℕ) (seen : List Text) (items : List (KnowledgeItem F))
        → count < max_items
        → count + length (picked count seen items) ≤ max_items
    unfolding gather
    length-gather count seen [] h = omega arith
    length-gather count seen (i ∷ items) h = elim (Bool-cases (text_in (key_of i) seen)) [
      | inl old ↦ rw old (length-gather count seen items h)
      | inr new ↦ elim (Bool-cases (leb max_items (suc count))) [
        | inl full ↦ rw (new, full) (omega arith)
        | inr room ↦
            rw (new, room)
              (omega (arith, length-gather (suc count) (key_of i ∷ seen) items (ground arith)))
      ]
    ]

    module _ (count : ℕ) (seen : List Text) (i : KnowledgeItem F)
        (items : List (KnowledgeItem F)) where
      gather_old :
          text_in (key_of i) seen ≡ true → picked count seen (i ∷ items) ≡ picked count seen items
      unfolding gather
      gather_old old = rw old refl

      gather_last :
          text_in (key_of i) seen ≡ false
          → leb max_items (suc count) ≡ true
          → picked count seen (i ∷ items) ≡ i ∷ []
      unfolding gather
      gather_last new full = rw (new, full) refl

      gather_more :
          text_in (key_of i) seen ≡ false
          → leb max_items (suc count) ≡ false
          → picked count seen (i ∷ items) ≡ i ∷ picked (suc count) (key_of i ∷ seen) items
      unfolding gather
      gather_more new room = rw (new, room) refl

    abbrev Covers : List Text → List (KnowledgeItem F) → List (KnowledgeItem F) → Type 0
    Covers seen items packet =
        All (λ i. (text_in (key_of i) seen || has_key packet (key_of i)) ≡ true) items

    -- An item that is passed over has been seen, or has the content of one that is picked.
    pub gather-Covers :
        (count : ℕ) (seen : List Text) (items : List (KnowledgeItem F))
        → count + length (picked count seen items) < max_items
        → Covers seen items (picked count seen items)
    unfolding any_of text_beq
    gather-Covers count seen [] h = tt
    gather-Covers count seen (i ∷ items) h = elim (Bool-cases (text_in (key_of i) seen)) [
      | inl old ↦
          let same = gather_old count seen i items old in
          subst (Covers seen (i ∷ items)) (sym same)
            (ground (arith, old), gather-Covers count seen items (rw same at h))
      | inr new ↦ elim (Bool-cases (leb max_items (suc count))) [
        | inl full ↦ absurd (
            omega (
              arith,
              rw (gather_last count seen i items new full) at h,
              leb→le max_items (suc count) full,
            ))
        | inr room ↦
            let more = picked (suc count) (key_of i ∷ seen) items in
            let same = gather_more count seen i items new room in
            subst (Covers seen (i ∷ items)) (sym same) (
              has_own_key seen i more,
              All-imp items
                  (λ j k. moved_key (key_of j) (key_of i) seen (has_key more (key_of j)) k)
                  (gather-Covers (suc count) (key_of i ∷ seen) items (omega (arith, rw same at h))),
            )
      ]
    ]
