-- ===== src/Persistence/Findings.antt =====
-- The tables of the knowledge of a run, its packets and the results of verification: packages/persistence/models.py, the mappers of
-- packages/persistence/mappers.py, and the repositories of packages/persistence/repositories.py.
use agent_coordination.Prelude.{List, Option, String, Text, nat_eq, refl, string_eq, ℕ, ◌==◌, ◌≡◌}
use agent_coordination.Errors.{Result, ok, ◌>>=◌}
use agent_coordination.Persistence.Sql.{Codec, insert_many, select_rows}
use agent_coordination.Persistence.Columns.{
  knowledge_kind_of, knowledge_kind_of_value, knowledge_status_of, knowledge_status_of_value,
  packet_kind_of, packet_kind_of_value, verification_kind_of, verification_kind_of_value,
  verification_status_of, verification_status_of_value,
}
use agent_coordination.Domain.Data.{Fields, Format}
use agent_coordination.Domain.Values.{
  knowledge_kind_value, knowledge_status_value, packet_kind_value, verification_kind_value,
  verification_status_value,
}
use agent_coordination.Domain.Research.{CrossPollinationPacket, KnowledgeItem, VerificationResult}

pub record CrossPollinationPacketRecord : Type 0 where
  pub id : ℕ
  pub run_id : ℕ
  pub generation_id : ℕ
  pub target_agent_id : ℕ
  pub source_submission_id : ℕ
  pub kind : String
  pub payload : Fields
  pub created_at : ℕ

pub record KnowledgeItemRecord (F : Type 0) : Type 0 where
  pub id : ℕ
  pub run_id : ℕ
  pub generation_id : ℕ
  pub submission_id : Option ℕ
  pub kind : String
  pub content : Text
  pub status : String
  pub confidence : Option F
  pub provenance : Fields
  pub created_at : ℕ

pub record VerificationResultRecord : Type 0 where
  pub id : ℕ
  pub run_id : ℕ
  pub generation_id : ℕ
  pub submission_id : ℕ
  pub kind : String
  pub status : String
  pub detail : Format
  pub result_metadata : Fields
  pub created_at : ℕ

-- The record that `add` makes.
unfoldable pub cross_pollination_record : ℕ → CrossPollinationPacket → CrossPollinationPacketRecord
cross_pollination_record now c = record {
  id = c.id;
  run_id = c.run_id;
  generation_id = c.generation_id;
  target_agent_id = c.target_agent_id;
  source_submission_id = c.source_submission_id;
  kind = packet_kind_value c.kind;
  payload = c.payload;
  created_at = now;
}

unfoldable pub cross_pollination_from_record :
    CrossPollinationPacketRecord → Result CrossPollinationPacket
unfolding packet_kind_of
cross_pollination_from_record r = do
  kind ← packet_kind_of r.kind
  ok (record {
    run_id = r.run_id;
    generation_id = r.generation_id;
    target_agent_id = r.target_agent_id;
    source_submission_id = r.source_submission_id;
    kind = kind;
    payload = r.payload;
    id = r.id;
  })

pub cross_pollination_round_trip :
    (now : ℕ) (c : CrossPollinationPacket)
    → cross_pollination_from_record (cross_pollination_record now c) ≡ ok c
unfolding cross_pollination_record cross_pollination_from_record
cross_pollination_round_trip now c = rw (packet_kind_of_value c.kind) refl

pub cross_pollination_same_key :
    (now : ℕ) (c : CrossPollinationPacket)
    → ((cross_pollination_record now c).id ≡ c.id)
      × ((cross_pollination_record now c).created_at ≡ now)
unfolding cross_pollination_record
cross_pollination_same_key now c = (refl, refl)

abbrev pub cross_pollination_codec : Codec CrossPollinationPacket CrossPollinationPacketRecord
cross_pollination_codec = record {
  entity_id = λ c. c.id;
  record_id = λ r. r.id;
  created_at = λ r. r.created_at;
  to_record = cross_pollination_record;
  from_record = cross_pollination_from_record;
  same_id = λ now c. (cross_pollination_same_key now c).0;
  same_time = λ now c. (cross_pollination_same_key now c).1;
  round_trip = cross_pollination_round_trip;
}

unfoldable pub add_packets :
    ℕ
    → List CrossPollinationPacket
    → List CrossPollinationPacketRecord
    → Result (List CrossPollinationPacket × List CrossPollinationPacketRecord)
unfolding insert_many
add_packets = insert_many cross_pollination_codec

unfoldable pub list_packets_for_agent :
    ℕ → List CrossPollinationPacketRecord → Result (List CrossPollinationPacket)
unfolding select_rows
list_packets_for_agent id = select_rows cross_pollination_codec (λ r. r.target_agent_id == id)

unfoldable pub list_packets :
    ℕ → List CrossPollinationPacketRecord → Result (List CrossPollinationPacket)
unfolding select_rows
list_packets id = select_rows cross_pollination_codec (λ r. r.generation_id == id)

-- The record that `add` makes.
unfoldable pub verification_record : ℕ → VerificationResult → VerificationResultRecord
verification_record now v = record {
  id = v.id;
  run_id = v.run_id;
  generation_id = v.generation_id;
  submission_id = v.submission_id;
  kind = verification_kind_value v.kind;
  status = verification_status_value v.status;
  detail = v.detail;
  result_metadata = v.metadata;
  created_at = now;
}

unfoldable pub verification_from_record : VerificationResultRecord → Result VerificationResult
unfolding verification_kind_of verification_status_of
verification_from_record r = do
  kind ← verification_kind_of r.kind
  status ← verification_status_of r.status
  ok (record {
    run_id = r.run_id;
    generation_id = r.generation_id;
    submission_id = r.submission_id;
    kind = kind;
    status = status;
    detail = r.detail;
    metadata = r.result_metadata;
    id = r.id;
  })

pub verification_round_trip :
    (now : ℕ) (v : VerificationResult) → verification_from_record (verification_record now v) ≡ ok v
unfolding verification_record verification_from_record
verification_round_trip now v =
    rw (verification_kind_of_value v.kind, verification_status_of_value v.status) refl

pub verification_same_key :
    (now : ℕ) (v : VerificationResult)
    → ((verification_record now v).id ≡ v.id) × ((verification_record now v).created_at ≡ now)
unfolding verification_record
verification_same_key now v = (refl, refl)

abbrev pub verification_codec : Codec VerificationResult VerificationResultRecord
verification_codec = record {
  entity_id = λ v. v.id;
  record_id = λ r. r.id;
  created_at = λ r. r.created_at;
  to_record = verification_record;
  from_record = verification_from_record;
  same_id = λ now v. (verification_same_key now v).0;
  same_time = λ now v. (verification_same_key now v).1;
  round_trip = verification_round_trip;
}

unfoldable pub add_verifications :
    ℕ
    → List VerificationResult
    → List VerificationResultRecord
    → Result (List VerificationResult × List VerificationResultRecord)
unfolding insert_many
add_verifications = insert_many verification_codec

unfoldable pub list_verifications_for_submission :
    ℕ → List VerificationResultRecord → Result (List VerificationResult)
unfolding select_rows
list_verifications_for_submission id = select_rows verification_codec (λ r. r.submission_id == id)

unfoldable pub list_verifications :
    ℕ → List VerificationResultRecord → Result (List VerificationResult)
unfolding select_rows
list_verifications id = select_rows verification_codec (λ r. r.generation_id == id)

module _ {F : Type 0} where
  -- The record that `add` makes.
  unfoldable pub knowledge_record : ℕ → KnowledgeItem F → KnowledgeItemRecord F
  knowledge_record now k = record {
    id = k.id;
    run_id = k.run_id;
    generation_id = k.generation_id;
    submission_id = k.submission_id;
    kind = knowledge_kind_value k.kind;
    content = k.content;
    status = knowledge_status_value k.status;
    confidence = k.confidence;
    provenance = k.provenance;
    created_at = now;
  }

  unfoldable pub knowledge_from_record : KnowledgeItemRecord F → Result (KnowledgeItem F)
  unfolding knowledge_kind_of knowledge_status_of
  knowledge_from_record r = do
    kind ← knowledge_kind_of r.kind
    status ← knowledge_status_of r.status
    ok (record {
      run_id = r.run_id;
      generation_id = r.generation_id;
      submission_id = r.submission_id;
      kind = kind;
      content = r.content;
      status = status;
      confidence = r.confidence;
      provenance = r.provenance;
      id = r.id;
    })

  pub knowledge_round_trip :
      (now : ℕ) (k : KnowledgeItem F) → knowledge_from_record (knowledge_record now k) ≡ ok k
  unfolding knowledge_record knowledge_from_record
  knowledge_round_trip now k =
      rw (knowledge_kind_of_value k.kind, knowledge_status_of_value k.status) refl

  pub knowledge_same_key :
      (now : ℕ) (k : KnowledgeItem F)
      → ((knowledge_record now k).id ≡ k.id) × ((knowledge_record now k).created_at ≡ now)
  unfolding knowledge_record
  knowledge_same_key now k = (refl, refl)

  abbrev pub knowledge_codec : Codec (KnowledgeItem F) (KnowledgeItemRecord F)
  knowledge_codec = record {
    entity_id = λ k. k.id;
    record_id = λ r. r.id;
    created_at = λ r. r.created_at;
    to_record = knowledge_record;
    from_record = knowledge_from_record;
    same_id = λ now k. (knowledge_same_key now k).0;
    same_time = λ now k. (knowledge_same_key now k).1;
    round_trip = knowledge_round_trip;
  }

  unfoldable pub add_knowledge :
      ℕ
      → List (KnowledgeItem F)
      → List (KnowledgeItemRecord F)
      → Result (List (KnowledgeItem F) × List (KnowledgeItemRecord F))
  unfolding insert_many
  add_knowledge = insert_many knowledge_codec

  unfoldable pub list_knowledge_for_run :
      ℕ → List (KnowledgeItemRecord F) → Result (List (KnowledgeItem F))
  unfolding select_rows
  list_knowledge_for_run id = select_rows knowledge_codec (λ r. r.run_id == id)

  unfoldable pub list_knowledge : ℕ → List (KnowledgeItemRecord F) → Result (List (KnowledgeItem F))
  unfolding select_rows
  list_knowledge id = select_rows knowledge_codec (λ r. r.generation_id == id)
