-- ===== src/Persistence/Agents.antt =====
-- The tables of the agents, their lineage, the states of candidates and the critics' findings: packages/persistence/models.py, the mappers of
-- packages/persistence/mappers.py, and the repositories of packages/persistence/repositories.py.
use agent_coordination.Prelude.{
  Bool, List, Option, String, Text, [], any_of, nat_eq, refl, string_eq, ℕ, ◌&&◌, ◌==◌, ◌∷◌, ◌≡◌,
}
use agent_coordination.Errors.{Result, key_error, ok, ◌>>=◌}
use agent_coordination.Persistence.Sql.{
  Codec, fetch, fetch_where, insert_many, insert_one, select_rows, update_where_found,
}
use agent_coordination.Persistence.Columns.{
  agent_status_of, agent_status_of_value, candidate_of, candidate_of_value, mutation_of,
  mutation_of_value, niche_of, niche_of_value, origin_of, origin_of_value,
}
use agent_coordination.Domain.Data.{Role, ident, word}
use agent_coordination.Domain.Enums.{AgentStatus, CandidateLifecycle}
use agent_coordination.Domain.Values.{
  agent_status_value, candidate_value, mutation_value, niche_value, origin_value,
}
use agent_coordination.Domain.Research.{Agent, CandidateState, CriticFinding, LineageLink}

pub record AgentRecord : Type 0 where
  pub id : ℕ
  pub generation_id : ℕ
  pub role : Role
  pub status : String
  pub niche : String
  pub origin : String
  pub created_at : ℕ

pub record LineageLinkRecord : Type 0 where
  pub id : ℕ
  pub child_agent_id : ℕ
  pub parent_submission_id : ℕ
  pub mutation_type : String
  pub created_at : ℕ

pub record CandidateStateRecord : Type 0 where
  pub id : ℕ
  pub generation_id : ℕ
  pub submission_id : ℕ
  pub status : String
  pub created_at : ℕ

pub record CriticFindingRecord (F : Type 0) : Type 0 where
  pub id : ℕ
  pub generation_id : ℕ
  pub critic_agent_id : ℕ
  pub submission_id : ℕ
  pub fatal_error : Bool
  pub confidence : F
  pub critique : Text
  pub counterexample : Option Text
  pub created_at : ℕ

-- Whether a foreign key leads to an agent of the generation: the join with the agents.
unfoldable pub is_agent_in : ℕ → List AgentRecord → ℕ → Bool
unfolding any_of
is_agent_in generation agents id = any_of (λ a. a.id == id && a.generation_id == generation) agents

-- The record that `add` makes.
unfoldable pub agent_record : ℕ → Agent → AgentRecord
agent_record now a = record {
  id = a.id;
  generation_id = a.generation_id;
  role = a.role;
  status = agent_status_value a.status;
  niche = niche_value a.niche;
  origin = origin_value a.origin;
  created_at = now;
}

unfoldable pub agent_from_record : AgentRecord → Result Agent
unfolding agent_status_of niche_of origin_of
agent_from_record r = do
  status ← agent_status_of r.status
  niche ← niche_of r.niche
  origin ← origin_of r.origin
  ok (record {
    generation_id = r.generation_id;
    role = r.role;
    status = status;
    niche = niche;
    origin = origin;
    id = r.id;
  })

pub agent_round_trip : (now : ℕ) (a : Agent) → agent_from_record (agent_record now a) ≡ ok a
unfolding agent_record agent_from_record
agent_round_trip now a =
    rw (agent_status_of_value a.status, niche_of_value a.niche, origin_of_value a.origin) refl

pub agent_same_key :
    (now : ℕ) (a : Agent)
    → ((agent_record now a).id ≡ a.id) × ((agent_record now a).created_at ≡ now)
unfolding agent_record
agent_same_key now a = (refl, refl)

abbrev pub agent_codec : Codec Agent AgentRecord
agent_codec = record {
  entity_id = λ a. a.id;
  record_id = λ r. r.id;
  created_at = λ r. r.created_at;
  to_record = agent_record;
  from_record = agent_from_record;
  same_id = λ now a. (agent_same_key now a).0;
  same_time = λ now a. (agent_same_key now a).1;
  round_trip = agent_round_trip;
}

unfoldable pub add_agents :
    ℕ → List Agent → List AgentRecord → Result (List Agent × List AgentRecord)
unfolding insert_many
add_agents = insert_many agent_codec

unfoldable pub get_agent : ℕ → List AgentRecord → Result (Option Agent)
unfolding fetch
get_agent = fetch agent_codec

unfoldable pub list_agents : ℕ → List AgentRecord → Result (List Agent)
unfolding select_rows
list_agents id = select_rows agent_codec (λ r. r.generation_id == id)

unfoldable pub update_agent_status :
    ℕ → AgentStatus → List AgentRecord → Result (Agent × List AgentRecord)
unfolding update_where_found
update_agent_status id status =
    update_where_found agent_codec (key_error (word "Agent not found: " ∷ ident id ∷ []))
      (λ r. r.id == id) (λ r. record r { status = agent_status_value status })

-- The record that `add` makes.
unfoldable pub lineage_record : ℕ → LineageLink → LineageLinkRecord
lineage_record now l = record {
  id = l.id;
  child_agent_id = l.child_agent_id;
  parent_submission_id = l.parent_submission_id;
  mutation_type = mutation_value l.mutation_type;
  created_at = now;
}

unfoldable pub lineage_from_record : LineageLinkRecord → Result LineageLink
unfolding mutation_of
lineage_from_record r = do
  mutation_type ← mutation_of r.mutation_type
  ok (record {
    child_agent_id = r.child_agent_id;
    parent_submission_id = r.parent_submission_id;
    mutation_type = mutation_type;
    id = r.id;
  })

pub lineage_round_trip :
    (now : ℕ) (l : LineageLink) → lineage_from_record (lineage_record now l) ≡ ok l
unfolding lineage_record lineage_from_record
lineage_round_trip now l = rw (mutation_of_value l.mutation_type) refl

pub lineage_same_key :
    (now : ℕ) (l : LineageLink)
    → ((lineage_record now l).id ≡ l.id) × ((lineage_record now l).created_at ≡ now)
unfolding lineage_record
lineage_same_key now l = (refl, refl)

abbrev pub lineage_codec : Codec LineageLink LineageLinkRecord
lineage_codec = record {
  entity_id = λ l. l.id;
  record_id = λ r. r.id;
  created_at = λ r. r.created_at;
  to_record = lineage_record;
  from_record = lineage_from_record;
  same_id = λ now l. (lineage_same_key now l).0;
  same_time = λ now l. (lineage_same_key now l).1;
  round_trip = lineage_round_trip;
}

unfoldable pub add_lineages :
    ℕ
    → List LineageLink
    → List LineageLinkRecord
    → Result (List LineageLink × List LineageLinkRecord)
unfolding insert_many
add_lineages = insert_many lineage_codec

unfoldable pub get_lineage_for_child : ℕ → List LineageLinkRecord → Result (Option LineageLink)
unfolding fetch_where
get_lineage_for_child id = fetch_where lineage_codec (λ r. r.child_agent_id == id)

unfoldable pub list_lineages :
    ℕ → List AgentRecord → List LineageLinkRecord → Result (List LineageLink)
unfolding select_rows is_agent_in
list_lineages generation agents =
    select_rows lineage_codec (λ r. is_agent_in generation agents r.child_agent_id)

-- The record that `add` makes.
unfoldable pub candidate_state_record : ℕ → CandidateState → CandidateStateRecord
candidate_state_record now c = record {
  id = c.id;
  generation_id = c.generation_id;
  submission_id = c.submission_id;
  status = candidate_value c.status;
  created_at = now;
}

unfoldable pub candidate_state_from_record : CandidateStateRecord → Result CandidateState
unfolding candidate_of
candidate_state_from_record r = do
  status ← candidate_of r.status
  ok (record {
    generation_id = r.generation_id;
    submission_id = r.submission_id;
    status = status;
    id = r.id;
  })

pub candidate_state_round_trip :
    (now : ℕ) (c : CandidateState)
    → candidate_state_from_record (candidate_state_record now c) ≡ ok c
unfolding candidate_state_record candidate_state_from_record
candidate_state_round_trip now c = rw (candidate_of_value c.status) refl

pub candidate_state_same_key :
    (now : ℕ) (c : CandidateState)
    → ((candidate_state_record now c).id ≡ c.id) × ((candidate_state_record now c).created_at ≡ now)
unfolding candidate_state_record
candidate_state_same_key now c = (refl, refl)

abbrev pub candidate_state_codec : Codec CandidateState CandidateStateRecord
candidate_state_codec = record {
  entity_id = λ c. c.id;
  record_id = λ r. r.id;
  created_at = λ r. r.created_at;
  to_record = candidate_state_record;
  from_record = candidate_state_from_record;
  same_id = λ now c. (candidate_state_same_key now c).0;
  same_time = λ now c. (candidate_state_same_key now c).1;
  round_trip = candidate_state_round_trip;
}

unfoldable pub add_candidate_states :
    ℕ
    → List CandidateState
    → List CandidateStateRecord
    → Result (List CandidateState × List CandidateStateRecord)
unfolding insert_many
add_candidate_states = insert_many candidate_state_codec

unfoldable pub get_state_for_submission :
    ℕ → List CandidateStateRecord → Result (Option CandidateState)
unfolding fetch_where
get_state_for_submission id = fetch_where candidate_state_codec (λ r. r.submission_id == id)

unfoldable pub list_candidate_states : ℕ → List CandidateStateRecord → Result (List CandidateState)
unfolding select_rows
list_candidate_states id = select_rows candidate_state_codec (λ r. r.generation_id == id)

unfoldable pub update_candidate_status :
    ℕ
    → CandidateLifecycle
    → List CandidateStateRecord
    → Result (CandidateState × List CandidateStateRecord)
unfolding update_where_found
update_candidate_status submission status =
    update_where_found candidate_state_codec
      (key_error (word "Candidate state not found: " ∷ ident submission ∷ []))
      (λ r. r.submission_id == submission) (λ r. record r { status = candidate_value status })

module _ {F : Type 0} where
  -- The record that `add` makes.
  unfoldable pub critic_finding_record : ℕ → CriticFinding F → CriticFindingRecord F
  critic_finding_record now c = record {
    id = c.id;
    generation_id = c.generation_id;
    critic_agent_id = c.critic_agent_id;
    submission_id = c.submission_id;
    fatal_error = c.fatal_error;
    confidence = c.confidence;
    critique = c.critique;
    counterexample = c.counterexample;
    created_at = now;
  }

  unfoldable pub critic_finding_from_record : CriticFindingRecord F → Result (CriticFinding F)
  critic_finding_from_record r = ok (record {
    generation_id = r.generation_id;
    critic_agent_id = r.critic_agent_id;
    submission_id = r.submission_id;
    fatal_error = r.fatal_error;
    confidence = r.confidence;
    critique = r.critique;
    counterexample = r.counterexample;
    id = r.id;
  })

  pub critic_finding_round_trip :
      (now : ℕ) (c : CriticFinding F)
      → critic_finding_from_record (critic_finding_record now c) ≡ ok c
  unfolding critic_finding_record critic_finding_from_record
  critic_finding_round_trip now c = refl

  pub critic_finding_same_key :
      (now : ℕ) (c : CriticFinding F)
      → ((critic_finding_record now c).id ≡ c.id) × ((critic_finding_record now c).created_at ≡ now)
  unfolding critic_finding_record
  critic_finding_same_key now c = (refl, refl)

  abbrev pub critic_finding_codec : Codec (CriticFinding F) (CriticFindingRecord F)
  critic_finding_codec = record {
    entity_id = λ c. c.id;
    record_id = λ r. r.id;
    created_at = λ r. r.created_at;
    to_record = critic_finding_record;
    from_record = critic_finding_from_record;
    same_id = λ now c. (critic_finding_same_key now c).0;
    same_time = λ now c. (critic_finding_same_key now c).1;
    round_trip = critic_finding_round_trip;
  }

  unfoldable pub add_critic_finding :
      ℕ
      → CriticFinding F
      → List (CriticFindingRecord F)
      → Result (CriticFinding F × List (CriticFindingRecord F))
  unfolding insert_one
  add_critic_finding = insert_one critic_finding_codec

  unfoldable pub get_finding :
      ℕ → ℕ → List (CriticFindingRecord F) → Result (Option (CriticFinding F))
  unfolding fetch_where
  get_finding agent submission =
      fetch_where critic_finding_codec
        (λ r. r.critic_agent_id == agent && r.submission_id == submission)

  unfoldable pub list_findings : ℕ → List (CriticFindingRecord F) → Result (List (CriticFinding F))
  unfolding select_rows
  list_findings id = select_rows critic_finding_codec (λ r. r.generation_id == id)
