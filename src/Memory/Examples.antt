-- ===== src/Memory/Examples.antt =====
-- The knowledge of a submission, and the packet made of it.
use agent_coordination.Prelude.{
  All, List, Text, [], any_of, ap, arith, codes, false, first, insert_sorted, is_empty, is_space,
  keep_if, later, leb, length, length-map, lstrip, map, nat_eq, none, or_empty, refl, some, sort,
  string_eq, strip, sym, true, ℕ, ◌&&◌, ◌*◌, ◌+◌, ◌-◌, ◌/◌, ◌<◌, ◌==◌, ◌∙◌, ◌∷◌, ◌≡◌, ◌≤◌,
}
use agent_coordination.Memory.Gather.{has_key, key_of}
use agent_coordination.Memory.Packets.{build_memory_packet_bounded, packet_items_complete}
use agent_coordination.Memory.Extraction.{
  DistinctItems, extract_knowledge_distinct, extract_knowledge_keeps_claims, norm_of,
}
use agent_coordination.Memory.{
  build_memory_packet, claim_items, claim_kind, collapse, collected, comes_first, dedupe,
  extract_knowledge, gather, is_usable, key_in, normalize, numbered, packet_items, text_items,
}
use agent_coordination.Selection.Similarity.{text_in}
use agent_coordination.Domain.Data.{end}
use agent_coordination.Domain.Keys.{format_eq, text_beq, text_eq}
use agent_coordination.Domain.Enums.{
  KnowledgeKind, KnowledgeKind-discrete, KnowledgeStatus-discrete, active, agent_origin_eq,
  agent_status_eq, candidate_lemma, candidate_lifecycle_eq, cross_pollination_kind_eq,
  engineering_stage_eq, engineering_status_eq, hypothesis, job_status_eq, job_type_eq,
  knowledge_kind_eq, knowledge_status_eq, model_call_status_eq, promising_approach, run_status_eq,
  selection_kind_eq, verification_kind_eq, verification_status_eq, verified, verified_fact,
}
use agent_coordination.Domain.Research.{ClaimDraft, KnowledgeItem, Submission}
use agent_coordination.Floats.{Floats, by_number-IsOrder}
use Prim.Native.Nat.{◌-◌, ◌/◌}

instance abbrev tenths : Floats ℕ
tenths = record {
  at_most = leb;
  order = by_number-IsOrder (λ (n : ℕ). n);
  zero = 0;
  one = 10;
  sub = λ a b. a - b;
  fmean = λ xs. 0;
  ratio = λ a b. a * 10 / b;
  round6 = λ a. a;
  add = λ a b. a + b;
  mul = λ a b. a * b;
  over = λ a n. a / n;
  bits = λ a. a;
  of_bits = λ a. a;
  bits_kept = λ a. refl;
}

abbrev lower : Text → Text
lower t = t

abbrev lemma_claim : ClaimDraft ℕ
lemma_claim = record {
  statement = codes "n  is even";
  confidence = some 8;
  support = some (codes "by cases");
}

abbrev submission : Submission ℕ
submission = record {
  agent_id = 1;
  summary = [];
  approach = codes " induction ";
  claims = lemma_claim ∷ lemma_claim ∷ [];
  evidence = [];
  discoveries = codes " " ∷ [];
  failed_attempts = [];
  open_questions = [];
  final_answer = none;
  raw_response = [];
  id = 3;
}

abbrev new_id : ℕ → ℕ
new_id n = 50 + n

abbrev kinds_and_ids : List (KnowledgeItem ℕ) → List (KnowledgeKind × ℕ)
kinds_and_ids items = map (λ i. (i.kind, i.id)) items

-- The second claim repeats the first, and the discovery is blank.
abbrev extracted : List (KnowledgeItem ℕ)
extracted = extract_knowledge lower 1 2 submission new_id

repeats_are_dropped :
    kinds_and_ids extracted ≡ (candidate_lemma, 50) ∷ (promising_approach, 52) ∷ []
unfolding extract_knowledge collected dedupe claim_items claim_kind text_items numbered normalize
    collapse key_in strip lstrip is_space text_beq or_empty KnowledgeKind-discrete
repeats_are_dropped = refl

abbrev fact : KnowledgeItem ℕ
fact = record {
  run_id = 1;
  generation_id = 2;
  submission_id = none;
  kind = verified_fact;
  content = codes "f";
  status = verified;
  confidence = none;
  provenance = end;
  id = 4;
}

abbrev doubtful : KnowledgeItem ℕ
doubtful = record fact { kind = hypothesis; status = active; content = codes "g"; id = 5 }

abbrev known : List (KnowledgeItem ℕ)
known = doubtful ∷ fact ∷ record fact { id = 6 } ∷ []

-- One fact is given twice, and comes before the hypothesis.
facts_first : map (λ i. i.id) (packet_items lower 3 known) ≡ 4 ∷ 5 ∷ []
unfolding packet_items gather is_usable comes_first sort insert_sorted keep_if normalize collapse
    strip lstrip is_space text_in text_beq KnowledgeStatus-discrete
facts_first = refl

room_is_left : length (packet_items lower 3 known) < 3
room_is_left =
    omega (arith, sym (length-map (packet_items lower 3 known) (λ i. i.id)) ∙ ap length facts_first)

usable_fact : is_usable lower fact ≡ true
unfolding is_usable strip lstrip is_space KnowledgeStatus-discrete
usable_fact = refl

claim_is_not_blank : is_empty (normalize lower lemma_claim.statement) ≡ false
unfolding normalize collapse strip lstrip is_space
claim_is_not_blank = refl

build_memory_packet_bounded_example : length (build_memory_packet lower 3 known) ≤ 3
build_memory_packet_bounded_example = build_memory_packet_bounded lower 3 known

packet_items_complete_example :
    has_key lower (packet_items lower 3 known) (key_of lower fact) ≡ true
packet_items_complete_example =
    packet_items_complete lower 3 known room_is_left fact (later first) usable_fact

extract_knowledge_distinct_example :
    All (λ i. is_empty (norm_of lower i) ≡ false) extracted × DistinctItems lower extracted
extract_knowledge_distinct_example = extract_knowledge_distinct lower 1 2 submission new_id

extract_knowledge_keeps_claims_example :
    any_of
      (λ j.
        j.kind == claim_kind lower 1 2 submission lemma_claim
        && text_beq (norm_of lower j) (normalize lower lemma_claim.statement))
      extracted
    ≡ true
extract_knowledge_keeps_claims_example =
    extract_knowledge_keeps_claims lower 1 2 submission new_id lemma_claim first claim_is_not_blank
