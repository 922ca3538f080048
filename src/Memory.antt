-- ===== src/Memory.antt =====
-- packages/core/research/memory.py: what a submission adds to the knowledge of a run, and the bounded
-- packet of knowledge that a prompt is given. `str.lower` is a parameter.
pub mod Gather
pub mod Order
pub mod Packets
pub mod Extraction
mod Examples
use agent_coordination.Prelude.{
  Bool, List, Option, String, Text, [], false, if◌then◌else◌, is_empty, is_space, keep_if, leb,
  lexi, map, nat_eq, none, not, or_empty, some, sort, string_eq, strip, suc, true, ℕ, ◌&&◌, ◌++◌,
  ◌==◌, ◌||◌, ◌∷◌,
}
use agent_coordination.Selection.Similarity.{text_in}
use agent_coordination.Domain.Data.{Fields, Json, end, field, formatted, null, text, word}
use agent_coordination.Domain.Keys.{text_beq}
use agent_coordination.Domain.Enums.{
  KnowledgeKind, KnowledgeKind-discrete, KnowledgeStatus, KnowledgeStatus-discrete, active,
  candidate_lemma, candidate_solution, contradiction, counterexample, failed_approach, hypothesis,
  knowledge_kind_eq, knowledge_status_eq, likely_fact, observation, promising_approach, refuted,
  unresolved_question, verified, verified_fact,
}
use agent_coordination.Domain.Research.{ClaimDraft, KnowledgeItem, Submission}
use agent_coordination.Floats.{Floats, by_flag, by_number, descending}

-- `_KIND_PRIORITY`
abbrev pub kind_priority : KnowledgeKind → ℕ
kind_priority verified_fact = 0
kind_priority counterexample = 1
kind_priority contradiction = 2
kind_priority candidate_lemma = 3
kind_priority likely_fact = 4
kind_priority promising_approach = 5
kind_priority observation = 6
kind_priority hypothesis = 7
kind_priority failed_approach = 8
kind_priority unresolved_question = 9
kind_priority candidate_solution = 10

-- `_WHITESPACE.sub(" ", ...)`: each longest run of white space becomes one space. `inside` says that
-- the run has begun before the text.
unfoldable pub collapse : Bool → Text → Text
unfolding is_space
collapse inside [] = []
collapse inside (c ∷ s) =
    let after_space = collapse true s in
    let after_other = collapse false s in
    if is_space c then if inside then after_space else b' ' ∷ after_space else c ∷ after_other

-- Whether an optional text is neither None nor empty.
abbrev pub is_given : Option Text → Bool
is_given none = false
is_given (some t) = not (is_empty t)

abbrev pub at_least : {F : Type 0} ⦃o : Floats F⦄ → F → Option F → Bool
at_least ⦃o⦄ bound none = false
at_least ⦃o⦄ bound (some confidence) = o.at_most bound confidence

abbrev pub json_of : Option Text → Json
json_of none = null
json_of (some t) = text t

abbrev pub source_of : String → Fields
source_of name = field "source" (formatted (word name ∷ [])) end

pub record PacketEntry (F : Type 0) : Type 0 where
  pub kind : KnowledgeKind
  pub status : KnowledgeStatus
  pub content : Text
  pub confidence : Option F
  pub provenance : Fields

-- The key of `_dedupe` is in `seen`.
unfoldable pub key_in : KnowledgeKind → Text → List (KnowledgeKind × Text) → Bool
unfolding KnowledgeKind-discrete text_beq
key_in kind content [] = false
key_in kind content ((k, c) ∷ seen) = (k == kind && text_beq c content) || key_in kind content seen

module _ (lower : Text → Text) where
  -- `_normalize`
  unfoldable pub normalize : Text → Text
  unfolding collapse strip
  normalize value = collapse false (lower (strip value))

  module _ {F : Type 0} ⦃o : Floats F⦄ where
    -- `_dedupe`
    unfoldable pub dedupe :
        List (KnowledgeKind × Text) → List (KnowledgeItem F) → List (KnowledgeItem F)
    unfolding key_in
    dedupe seen [] = []
    dedupe seen (item ∷ items) =
        let content = normalize item.content in
        let skipped = dedupe seen items in
        let kept = dedupe ((item.kind, content) ∷ seen) items in
        if is_empty content || key_in item.kind content seen then skipped else item ∷ kept

    module _ (run_id generation_id : ℕ) (submission : Submission F) where
      -- An item before it is numbered.
      abbrev pub item_of : KnowledgeKind → Text → Option F → Fields → KnowledgeItem F
      item_of kind content confidence provenance = record {
        run_id = run_id;
        generation_id = generation_id;
        submission_id = some submission.id;
        kind = kind;
        content = content;
        status = active;
        confidence = confidence;
        provenance = provenance;
        id = 0;
      }

      unfoldable pub claim_kind : ClaimDraft F → KnowledgeKind
      claim_kind claim =
          if at_least (o.ratio 9 10) claim.confidence && is_given claim.support
          then likely_fact
          else if is_given claim.support && at_least (o.ratio 7 10) claim.confidence
          then candidate_lemma
          else hypothesis

      unfoldable pub claim_items : List (ClaimDraft F) → List (KnowledgeItem F)
      unfolding claim_kind
      claim_items [] = []
      claim_items (claim ∷ claims) =
          item_of (claim_kind claim) claim.statement claim.confidence
            (field "support" (json_of claim.support) (source_of "researcher_claim"))
          ∷ claim_items claims

      -- The items of a list of texts: each that is not blank, stripped.
      unfoldable pub text_items : KnowledgeKind → String → List Text → List (KnowledgeItem F)
      unfolding strip
      text_items kind source [] = []
      text_items kind source (t ∷ ts) =
          let rest = text_items kind source ts in
          if is_empty (strip t) then rest else item_of kind (strip t) none (source_of source) ∷ rest

      -- The n-th item gets the n-th fresh `uuid4()`.
      unfoldable pub numbered : (ℕ → ℕ) → ℕ → List (KnowledgeItem F) → List (KnowledgeItem F)
      numbered new_id n [] = []
      numbered new_id n (item ∷ items) =
          record item { id = new_id n } ∷ numbered new_id (suc n) items

      -- The items before `_dedupe`.
      unfoldable pub collected : (ℕ → ℕ) → List (KnowledgeItem F)
      unfolding claim_items text_items numbered or_empty
      collected new_id = numbered new_id 0 (
          claim_items submission.claims
          ++ (text_items promising_approach "researcher_approach" (submission.approach ∷ [])
              ++ (text_items observation "researcher_discovery" submission.discoveries
                  ++ (text_items failed_approach "researcher_failed_attempt"
                        submission.failed_attempts
                      ++ (text_items unresolved_question "researcher_open_question"
                            submission.open_questions
                          ++ text_items candidate_solution "researcher_final_answer"
                              (or_empty submission.final_answer ∷ []))))))

      unfoldable pub extract_knowledge : (ℕ → ℕ) → List (KnowledgeItem F)
      unfolding collected dedupe
      extract_knowledge new_id = dedupe [] (collected new_id)

    unfoldable pub is_usable : KnowledgeItem F → Bool
    unfolding KnowledgeStatus-discrete strip
    is_usable item = not (item.status == refuted) && not (is_empty (strip item.content))

    abbrev pub confidence_or_zero : KnowledgeItem F → F
    confidence_or_zero item = elim item.confidence [ none ↦ o.zero | some c ↦ c ]

    -- The order of the tuples by which `usable` is sorted.
    unfoldable pub comes_first : KnowledgeItem F → KnowledgeItem F → Bool
    unfolding KnowledgeStatus-discrete
    comes_first = lexi (by_flag (λ (i : KnowledgeItem F). not (i.status == verified))) (
        lexi (by_number (λ (i : KnowledgeItem F). kind_priority i.kind))
          (lexi (descending confidence_or_zero) (by_number (λ (i : KnowledgeItem F). i.id))))

    -- The loop over `usable`: `count` is `len(packet)`.
    unfoldable pub gather : ℕ → ℕ → List Text → List (KnowledgeItem F) → List (KnowledgeItem F)
    unfolding normalize text_in
    gather max_items count seen [] = []
    gather max_items count seen (item ∷ items) =
        let key = normalize item.content in
        let skipped = gather max_items count seen items in
        let more = gather max_items (suc count) (key ∷ seen) items in
        if text_in key seen
        then skipped
        else item ∷ (if leb max_items (suc count) then [] else more)

    -- The items of the packet. The source keeps a dict of five fields of each.
    unfoldable pub packet_items : ℕ → List (KnowledgeItem F) → List (KnowledgeItem F)
    unfolding gather is_usable comes_first sort keep_if
    packet_items max_items items =
        if leb max_items 0
        then []
        else gather max_items 0 [] (sort comes_first (keep_if is_usable items))

    abbrev pub entry_of : KnowledgeItem F → PacketEntry F
    entry_of item = record {
      kind = item.kind;
      status = item.status;
      content = item.content;
      confidence = item.confidence;
      provenance = item.provenance;
    }

    unfoldable pub build_memory_packet : ℕ → List (KnowledgeItem F) → List (PacketEntry F)
    unfolding packet_items
    build_memory_packet max_items items = map entry_of (packet_items max_items items)
