-- ===== src/Memory/Extraction.antt =====
-- What `extract_knowledge` keeps of a submission.
use agent_coordination.Prelude.{
  All, All-at, All-imp, Bool, Bool-cases, List, Member, Text, [], any_of, ap, arith, false, first,
  inl, inr, is_empty, later, nat_eq, refl, string_eq, subst, suc, sym, true, ℕ, ◌&&◌, ◌++◌, ◌==◌,
  ◌||◌, ◌∙◌, ◌∷◌, ◌≡◌,
}
use agent_coordination.Memory.{
  claim_items, claim_kind, collected, dedupe, extract_knowledge, key_in, normalize, numbered,
}
use agent_coordination.Domain.Keys.{text_beq, text_beq_iff}
use agent_coordination.Domain.Enums.{KnowledgeKind, knowledge_kind_eq}
use agent_coordination.Domain.Research.{ClaimDraft, KnowledgeItem, Submission}
use agent_coordination.Floats.{Floats}

module _ (lower : Text → Text) {F : Type 0} ⦃o : Floats F⦄ where
  abbrev pub norm_of : KnowledgeItem F → Text
  norm_of item = normalize lower item.content

  -- The key under which an item is deduplicated.
  abbrev pub same_key : KnowledgeItem F → KnowledgeItem F → Bool
  same_key i j = i.kind == j.kind && text_beq (norm_of i) (norm_of j)

  -- No two items have the same kind and the same normalised content.
  abbrev pub DistinctItems : List (KnowledgeItem F) → Type 0
  DistinctItems [] = Unit
  DistinctItems (i ∷ rest) = All (λ j. same_key i j ≡ false) rest × DistinctItems rest

  abbrev in_seen : KnowledgeItem F → List (KnowledgeKind × Text) → Bool
  in_seen i seen = key_in i.kind (norm_of i) seen

  abbrev IsNew : List (KnowledgeKind × Text) → KnowledgeItem F → Type 0
  IsNew seen i = (in_seen i seen ≡ false) × (is_empty (norm_of i) ≡ false)

  abbrev skips : List (KnowledgeKind × Text) → KnowledgeItem F → Bool
  skips seen i = is_empty (norm_of i) || in_seen i seen

  newer_tail :
      (seen : List (KnowledgeKind × Text)) (i j : KnowledgeItem F)
      → IsNew ((i.kind, norm_of i) ∷ seen) j
      → IsNew seen j
  unfolding key_in
  newer_tail seen i j h = (ground (arith, h.0), h.1)

  newer_head :
      (seen : List (KnowledgeKind × Text)) (i j : KnowledgeItem F)
      → IsNew ((i.kind, norm_of i) ∷ seen) j
      → same_key i j ≡ false
  unfolding key_in
  newer_head seen i j h = ground (arith, h.0)

  dedupe-IsNew :
      (seen : List (KnowledgeKind × Text)) (items : List (KnowledgeItem F))
      → All (IsNew seen) (dedupe lower seen items) × DistinctItems (dedupe lower seen items)
  unfolding dedupe
  dedupe-IsNew seen [] = (tt, tt)
  dedupe-IsNew seen (i ∷ items) = elim (Bool-cases (skips seen i)) [
    | inl skip ↦ rw skip (dedupe-IsNew seen items)
    | inr keep ↦
        let more = dedupe lower ((i.kind, norm_of i) ∷ seen) items in
        let (new, distinct) = dedupe-IsNew ((i.kind, norm_of i) ∷ seen) items in
        rw keep (
          (
            (ground (arith, keep), ground (arith, keep)),
            All-imp more (λ j. newer_tail seen i j) new,
          ),
          (All-imp more (λ j. newer_head seen i j) new, distinct),
        )
  ]

  -- Of what a submission yields, no item is blank once it is normalised, and no two have the same kind
  -- and normalised content.
  pub extract_knowledge_distinct :
      (run_id generation_id : ℕ) (submission : Submission F) (new_id : ℕ → ℕ)
      → All
          (λ i. is_empty (norm_of i) ≡ false)
          (extract_knowledge lower run_id generation_id submission new_id)
        × DistinctItems (extract_knowledge lower run_id generation_id submission new_id)
  unfolding extract_knowledge
  extract_knowledge_distinct run_id generation_id submission new_id =
      let items = collected lower run_id generation_id submission new_id in
      let (new, distinct) = dedupe-IsNew [] items in
      (All-imp (dedupe lower [] items) (λ i h. h.1) new, distinct)

  -- An item that is not blank keeps its key: it is kept, or one with the same key is.
  abbrev Kept : List (KnowledgeKind × Text) → List (KnowledgeItem F) → KnowledgeItem F → Type 0
  Kept seen result i = (skips seen i || any_of (λ j. same_key j i) result) ≡ true

  dedupe_skip :
      (seen : List (KnowledgeKind × Text)) (i : KnowledgeItem F) (items : List (KnowledgeItem F))
      → skips seen i ≡ true
      → dedupe lower seen (i ∷ items) ≡ dedupe lower seen items
  unfolding dedupe
  dedupe_skip seen i items skip = rw skip refl

  dedupe_take :
      (seen : List (KnowledgeKind × Text)) (i : KnowledgeItem F) (items : List (KnowledgeItem F))
      → skips seen i ≡ false
      → dedupe lower seen (i ∷ items) ≡ i ∷ dedupe lower ((i.kind, norm_of i) ∷ seen) items
  unfolding dedupe
  dedupe_take seen i items keep = rw keep refl

  Kept-tail :
      (seen : List (KnowledgeKind × Text)) (i j : KnowledgeItem F) (result : List (KnowledgeItem F))
      → Kept ((i.kind, norm_of i) ∷ seen) result j
      → Kept seen (i ∷ result) j
  unfolding any_of key_in
  Kept-tail seen i j result h = ground (arith, h)

  Kept-head :
      (seen : List (KnowledgeKind × Text)) (i : KnowledgeItem F) (result : List (KnowledgeItem F))
      → Kept seen (i ∷ result) i
  unfolding any_of
  Kept-head seen i result = ground (
    arith,
    (knowledge_kind_eq.beq_iff i.kind i.kind).1 refl,
    (text_beq_iff (norm_of i) (norm_of i)).1 refl,
  )

  dedupe_keeps :
      (seen : List (KnowledgeKind × Text)) (items : List (KnowledgeItem F))
      → All (Kept seen (dedupe lower seen items)) items
  dedupe_keeps seen [] = tt
  dedupe_keeps seen (i ∷ items) = elim (Bool-cases (skips seen i)) [
    | inl skip ↦
        subst (λ result. All (Kept seen result) (i ∷ items)) (sym (dedupe_skip seen i items skip))
          (ground (arith, skip), dedupe_keeps seen items)
    | inr keep ↦
        let more = dedupe lower ((i.kind, norm_of i) ∷ seen) items in
        subst (λ result. All (Kept seen result) (i ∷ items)) (sym (dedupe_take seen i items keep))
          (
            Kept-head seen i more,
            All-imp items (λ j. Kept-tail seen i j more)
                (dedupe_keeps ((i.kind, norm_of i) ∷ seen) items),
          )
  ]

  found_again_as :
      (result : List (KnowledgeItem F)) (i : KnowledgeItem F) (kind : KnowledgeKind)
      (content : Text)
      → Kept [] result i
      → i.kind ≡ kind
      → i.content ≡ content
      → is_empty (normalize lower content) ≡ false
      → any_of (λ j. j.kind == kind && text_beq (norm_of j) (normalize lower content)) result ≡ true
  unfolding key_in
  found_again_as result i kind content kept same_kind same_content e =
      let same = ap (normalize lower) same_content in
      let blank : is_empty (norm_of i) ≡ false = ap is_empty same ∙ e in
      let found : any_of (λ j. same_key j i) result ≡ true = ground (arith, kept, blank) in
      subst
        (λ t.
          any_of (λ (j : KnowledgeItem F). j.kind == kind && text_beq (norm_of j) t) result ≡ true)
        same
        (subst
          (λ k.
            any_of (λ (j : KnowledgeItem F). j.kind == k && text_beq (norm_of j) (norm_of i)) result
            ≡ true)
          same_kind found)

  module _ (run_id generation_id : ℕ) (submission : Submission F) (new_id : ℕ → ℕ) where
    claim_numbered :
        (n : ℕ) (claims : List (ClaimDraft F)) (more : List (KnowledgeItem F)) (c : ClaimDraft F)
        → Member c claims
        → (i : KnowledgeItem F) × Member i (
            numbered lower run_id generation_id submission new_id n
              (claim_items lower run_id generation_id submission claims ++ more))
          × (i.kind ≡ claim_kind lower run_id generation_id submission c)
          × (i.content ≡ c.statement)
    unfolding claim_items numbered
    claim_numbered n (_ ∷ claims) more c first = (_, first, refl, refl)
    claim_numbered n (x ∷ claims) more c (later m) =
        let (i, k, kind, content) = claim_numbered (suc n) claims more c m in
        (i, later k, kind, content)
    claim_numbered n [] more c m = elim m [ ]

    -- No claim is lost: unless its normalised statement is empty, an item with the claim's kind and
    -- that normalised content is extracted.
    pub extract_knowledge_keeps_claims :
        (c : ClaimDraft F)
        → Member c submission.claims
        → is_empty (normalize lower c.statement) ≡ false
        → any_of
            (λ j.
              j.kind == claim_kind lower run_id generation_id submission c
              && text_beq (norm_of j) (normalize lower c.statement))
            (extract_knowledge lower run_id generation_id submission new_id)
          ≡ true
    unfolding extract_knowledge collected
    extract_knowledge_keeps_claims c m e =
        let (i, k, kind, content) = claim_numbered 0 submission.claims _ c m in
        let items = collected lower run_id generation_id submission new_id in
        let kept = All-at (Kept [] (dedupe lower [] items)) k (dedupe_keeps [] items) in
        found_again_as (dedupe lower [] items) i
          (claim_kind lower run_id generation_id submission c) c.statement kept kind content e
