-- ===== src/Persistence/Kept.antt =====
-- What the repository of agents of packages/persistence/repositories.py keeps: the conditions, the
-- order and the columns of its queries, told of the agents and the times at which they were added.
use agent_coordination.Prelude.{
  All, List, Member, [], ap, arith, inl, inr, map, nat_eq, none, refl, some, string_eq, sym, true,
  ℕ, ◌++◌, ◌==◌, ◌↔◌, ◌∙◌, ◌∷◌, ◌≡◌, ◌⊎◌,
}
use agent_coordination.Errors.{err, key_error, ok}
use agent_coordination.Persistence.Listed.{
  Listing, find_where-cases, find_where-others, find_where-write_where, first_where-find_row,
  select_rows-Listing,
}
use agent_coordination.Persistence.Refinement.{codec-Refines, encode}
use agent_coordination.Persistence.Agents.{
  AgentRecord, add_agents, agent_codec, agent_from_record, agent_record, get_agent, list_agents,
  update_agent_status,
}
use agent_coordination.Persistence.Sql.{fetch, fetch_where, read_option}
use agent_coordination.Store.Rows.{
  Stamped, Table, find_where, insert_all, row_of, stamp, write_where,
}
use agent_coordination.Domain.Data.{ident, word}
use agent_coordination.Domain.Research.{Agent}
use agent_coordination.Domain.Enums.{AgentStatus}
use agent_coordination.Domain.Values.{agent_status_value}

abbrev pub agent_rows : Table Agent → List AgentRecord
agent_rows = encode agent_codec

get_agent_found :
    (id : ℕ) (rows : Table Agent)
    → get_agent id (agent_rows rows) ≡ ok (find_where (λ a. a.id == id) rows)
unfolding get_agent fetch fetch_where agent_record
get_agent_found id rows =
    ap (read_option agent_from_record) (first_where-find_row (λ r. r.id) id (agent_rows rows))
    ∙ (codec-Refines agent_codec).finds (λ r. r.id == id) (λ a. a.id == id) (λ now a. refl) rows

-- What the repository of agents does on the records of these agents.
pub record AgentsKept (rows : Table Agent) : Type 0 where
  pub adds :
      (now : ℕ) (agents : List Agent)
      → add_agents now agents (agent_rows rows)
        ≡ ok (agents, agent_rows (rows ++ map (stamp now) agents))
  pub lists :
      (generation : ℕ)
      → (found : Table Agent) × (list_agents generation (agent_rows rows) ≡ ok (map row_of found))
        × Listing agent_codec rows (λ a. a.generation_id ≡ generation) found
  pub gets :
      (id : ℕ)
      → (All (λ s. ¬ (s.row.id ≡ id)) rows × (get_agent id (agent_rows rows) ≡ ok none))
        ⊎ ((s : Stamped Agent) × Member s rows
            × (s.row.id ≡ id)
            × (get_agent id (agent_rows rows) ≡ ok (some s.row)))
  pub updates :
      (id : ℕ) (status : AgentStatus)
      → (All (λ s. ¬ (s.row.id ≡ id)) rows
          × (update_agent_status id status (agent_rows rows)
              ≡ err (key_error (word "Agent not found: " ∷ ident id ∷ []))))
        ⊎ ((a : Agent) × (rows' : Table Agent) × (get_agent id (agent_rows rows) ≡ ok (some a))
            × (update_agent_status id status (agent_rows rows)
                ≡ ok (record a { status = status }, agent_rows rows'))
            × (get_agent id (agent_rows rows') ≡ ok (some (record a { status = status })))
            × ((other : ℕ)
                → ¬ (other ≡ id)
                → get_agent other (agent_rows rows') ≡ get_agent other (agent_rows rows)))

module _ (rows : Table Agent) where
  has_id : (id : ℕ) (a : Agent) → ((a.id == id) ≡ true) ↔ (a.id ≡ id)
  has_id id a = nat_eq.beq_iff a.id id

  id_same : (id now : ℕ) (a : Agent) → ((agent_record now a).id == id) ≡ (a.id == id)
  unfolding agent_record
  id_same id now a = refl

  list_agents-Listing :
      (generation : ℕ)
      → (found : Table Agent) × (list_agents generation (agent_rows rows) ≡ ok (map row_of found))
        × Listing agent_codec rows (λ a. a.generation_id ≡ generation) found
  unfolding list_agents agent_record
  list_agents-Listing generation =
      select_rows-Listing agent_codec (λ r. r.generation_id == generation)
        (λ a. a.generation_id == generation) (λ now a. refl) (λ a. a.generation_id ≡ generation)
        (λ a. nat_eq.beq_iff a.generation_id generation) rows

  get_agent-cases :
      (id : ℕ)
      → (All (λ s. ¬ (s.row.id ≡ id)) rows × (get_agent id (agent_rows rows) ≡ ok none))
        ⊎ ((s : Stamped Agent) × Member s rows
            × (s.row.id ≡ id)
            × (get_agent id (agent_rows rows) ≡ ok (some s.row)))
  get_agent-cases id =
      elim (find_where-cases agent_codec (λ r. r.id == id) (λ a. a.id == id) (id_same id)
        (λ a. a.id ≡ id) (has_id id) rows) [
          | inl (absent, h) ↦ inl (absent, get_agent_found id rows ∙ ap ok h)
          | inr (s, m, e, h) ↦ inr (s, m, e, get_agent_found id rows ∙ ap ok h)
        ]

  module _ (id : ℕ) (status : AgentStatus) where
    abbrev with_status : Agent → Agent
    with_status a = record a { status = status }

    abbrev written_rows : Table Agent
    written_rows = write_where (λ a. a.id == id) with_status rows

    update_agent_status_run :
        update_agent_status id status (agent_rows rows) ≡ elim (find_where (λ a. a.id == id) rows) [
          | none ↦ err (key_error (word "Agent not found: " ∷ ident id ∷ []))
          | some a ↦ ok (with_status a, agent_rows written_rows)
        ]
    unfolding update_agent_status agent_record
    update_agent_status_run =
        (codec-Refines agent_codec).updates (λ r. r.id == id) (λ a. a.id == id) (λ now a. refl)
          (λ r. record r { status = agent_status_value status }) with_status (λ now a. refl)
          (key_error (word "Agent not found: " ∷ ident id ∷ [])) rows

    get_agent_written :
        (a : Agent)
        → find_where (λ b. b.id == id) rows ≡ some a
        → a.id ≡ id
        → get_agent id (agent_rows written_rows) ≡ ok (some (with_status a))
    get_agent_written a h e =
        get_agent_found id written_rows
        ∙ ap ok (find_where-write_where (λ b. b.id == id) with_status rows a h ((has_id id a).1 e))

    get_agent_other :
        (other : ℕ)
        → ¬ (other ≡ id)
        → get_agent other (agent_rows written_rows) ≡ get_agent other (agent_rows rows)
    get_agent_other other apart =
        get_agent_found other written_rows
        ∙ (ap ok (
              find_where-others (λ a. a.id == id) with_status (λ a. a.id == other)
                (λ a h. (ground (arith, h, apart), ground (arith, h, apart))) rows)
            ∙ sym (get_agent_found other rows))

    update_agent_status-cases :
        (All (λ s. ¬ (s.row.id ≡ id)) rows
          × (update_agent_status id status (agent_rows rows)
              ≡ err (key_error (word "Agent not found: " ∷ ident id ∷ []))))
        ⊎ ((a : Agent) × (rows' : Table Agent) × (get_agent id (agent_rows rows) ≡ ok (some a))
            × (update_agent_status id status (agent_rows rows)
                ≡ ok (record a { status = status }, agent_rows rows'))
            × (get_agent id (agent_rows rows') ≡ ok (some (record a { status = status })))
            × ((other : ℕ)
                → ¬ (other ≡ id)
                → get_agent other (agent_rows rows') ≡ get_agent other (agent_rows rows)))
    update_agent_status-cases =
        elim (find_where-cases agent_codec (λ r. r.id == id) (λ a. a.id == id) (id_same id)
          (λ a. a.id ≡ id) (has_id id) rows) [
            | inl (absent, h) ↦ inl (absent, update_agent_status_run ∙ rw h refl)
            | inr (s, m, e, h) ↦ inr (
              s.row,
              written_rows,
              get_agent_found id rows ∙ ap ok h,
              update_agent_status_run ∙ rw h refl,
              get_agent_written s.row h e,
              get_agent_other,
            )
          ]

  -- On the records of any agents, each with the time at which it was added: `add_many` appends the
  -- records of the new agents and returns them; `list_for_generation` returns the agents of the
  -- generation and no other, ordered by time and then by id, none twice where ids are unique; `get`
  -- returns an agent of that id, or None exactly when there is none; and `update_status` raises
  -- KeyError exactly when there is none, and else returns the agent with the new status, which `get`
  -- then reads back, while it reads each other agent as before.
  pub encode-AgentsKept : AgentsKept rows
  unfolding add_agents insert_all
  encode-AgentsKept = record {
    adds = λ now agents. (codec-Refines agent_codec).inserts now agents rows;
    lists = list_agents-Listing;
    gets = get_agent-cases;
    updates = update_agent_status-cases;
  }
