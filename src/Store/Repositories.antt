-- ===== src/Store/Repositories.antt =====
-- The repositories of packages/core/ports/repositories.py that the tournament uses, over the tables
-- of entities. A query is a function of the store, and a write is a transaction.
use agent_coordination.Store.{Store, Tx}
use agent_coordination.Prelude.{
  Bool, List, Option, [], any_of, find_row, if◌then◌else◌, keep_if, nat_eq, none, some, sort,
  string_eq, suc, ℕ, ◌&&◌, ◌++◌, ◌==◌, ◌∷◌,
}
use agent_coordination.Errors.{err, key_error, ok}
use agent_coordination.Store.Rows.{find_where, insert_all, list_where, write_where}
use agent_coordination.Domain.Research.{
  Agent, CandidateState, CriticFinding, CrossPollinationPacket, Evaluation, Generation, LineageLink,
  Run, SelectionDecision, Submission, VerificationResult,
}
use agent_coordination.Domain.Service.{RunEvent}
use agent_coordination.Domain.Enums.{AgentStatus, CandidateLifecycle, RunEventType, RunStatus}
use agent_coordination.Domain.Data.{Fields, ident, word}
use agent_coordination.RunLifecycle.{run_id, update_status}
use agent_coordination.Floats.{by_number}

unfoldable pub find_generation : ℕ → ℕ → List Generation → Option Generation
find_generation run index [] = none
find_generation run index (g ∷ rest) =
    if g.run_id == run && g.index == index then some g else find_generation run index rest

module _ {F : Type 0} where
  unfoldable pub get_run : ℕ → Store F → Option (Run F)
  unfolding find_row
  get_run id store = find_row run_id id store.runs

  -- `RunRepository.update_status`
  unfoldable pub update_run_status : ℕ → RunStatus → Tx F (Unit {0})
  unfolding update_status
  update_run_status id status s = elim (update_status id status s.store.runs) [
    | ok runs ↦ ok (tt, record s { store = record s.store { runs = runs } })
    | err e ↦ err e
  ]

  unfoldable pub add_generation : Generation → Tx F Generation
  add_generation generation s = ok (
    generation,
    record s { store = record s.store { generations = s.store.generations ++ generation ∷ [] } },
  )

  unfoldable pub get_generation : ℕ → Store F → Option Generation
  unfolding find_row
  get_generation id store = find_row (λ g. g.id) id store.generations

  -- `GenerationRepository.get_for_run`
  unfoldable pub generation_for_run : ℕ → ℕ → Store F → Option Generation
  unfolding find_generation
  generation_for_run run index store = find_generation run index store.generations

  -- `GenerationRepository.list_for_run`
  unfoldable pub generations_for_run : ℕ → Store F → List Generation
  unfolding sort keep_if
  generations_for_run run store =
      sort (by_number (λ (g : Generation). g.index))
        (keep_if (λ g. g.run_id == run) store.generations)

  unfoldable pub add_agents : List Agent → Tx F (List Agent)
  unfolding insert_all
  add_agents agents s = ok (
    agents,
    record s { store = record s.store { agents = insert_all s.now agents s.store.agents } },
  )

  unfoldable pub get_agent : ℕ → Store F → Option Agent
  unfolding find_where
  get_agent id store = find_where (λ a. a.id == id) store.agents

  unfoldable pub agents_for_generation : ℕ → Store F → List Agent
  unfolding list_where
  agents_for_generation generation store =
      list_where (λ a. a.id) (λ a. a.generation_id == generation) store.agents

  -- `AgentRepository.update_status`
  unfoldable pub update_agent_status : ℕ → AgentStatus → Tx F (Unit {0})
  unfolding write_where get_agent
  update_agent_status id status s = elim (get_agent id s.store) [
    | none ↦ err (key_error (word "Agent not found: " ∷ ident id ∷ []))
    | some _ ↦ ok (
      tt,
      record s {
        store = record s.store {
          agents = write_where (λ a. a.id == id) (λ a. record a { status = status }) s.store.agents;
        };
      },
    )
  ]

  unfoldable pub get_submission : ℕ → Store F → Option (Submission F)
  unfolding find_where
  get_submission id store = find_where (λ s. s.id == id) store.submissions

  -- The join of a submission with its agent, in the generation.
  unfoldable pub is_by_generation : ℕ → Store F → Submission F → Bool
  unfolding any_of
  is_by_generation generation store submission =
      any_of (λ a. a.row.id == submission.agent_id && a.row.generation_id == generation)
        store.agents

  unfoldable pub submissions_for_generation : ℕ → Store F → List (Submission F)
  unfolding list_where is_by_generation
  submissions_for_generation generation store =
      list_where (λ s. s.id) (is_by_generation generation store) store.submissions

  -- The join of an evaluation with its submission and the submission's agent.
  unfoldable pub evaluations_for_generation : ℕ → Store F → List (Evaluation F)
  unfolding list_where is_by_generation any_of
  evaluations_for_generation generation store =
      list_where (λ e. e.id)
        (λ e.
          any_of (λ s. s.row.id == e.submission_id && is_by_generation generation store s.row)
            store.submissions)
        store.evaluations

  unfoldable pub add_selections : List (SelectionDecision F) → Tx F (Unit {0})
  add_selections decisions s =
      ok (tt, record s { store = record s.store { selections = s.store.selections ++ decisions } })

  unfoldable pub selections_for_generation : ℕ → Store F → List (SelectionDecision F)
  unfolding sort keep_if
  selections_for_generation generation store =
      sort (by_number (λ (d : SelectionDecision F). d.rank))
        (keep_if (λ d. d.generation_id == generation) store.selections)

  unfoldable pub add_lineages : List LineageLink → Tx F (Unit {0})
  unfolding insert_all
  add_lineages links s = ok (
    tt,
    record s { store = record s.store { lineages = insert_all s.now links s.store.lineages } },
  )

  unfoldable pub add_candidate_states : List CandidateState → Tx F (Unit {0})
  unfolding insert_all
  add_candidate_states states s = ok (
    tt,
    record s {
      store = record s.store {
        candidate_states = insert_all s.now states s.store.candidate_states;
      };
    },
  )

  unfoldable pub candidate_state_for_submission : ℕ → Store F → Option CandidateState
  unfolding find_where
  candidate_state_for_submission submission store =
      find_where (λ c. c.submission_id == submission) store.candidate_states

  unfoldable pub candidate_states_for_generation : ℕ → Store F → List CandidateState
  unfolding list_where
  candidate_states_for_generation generation store =
      list_where (λ c. c.id) (λ c. c.generation_id == generation) store.candidate_states

  -- `CandidateStateRepository.update_status`
  unfoldable pub update_candidate_status : ℕ → CandidateLifecycle → Tx F (Unit {0})
  unfolding write_where candidate_state_for_submission
  update_candidate_status submission status s =
      elim (candidate_state_for_submission submission s.store) [
        | none ↦ err (key_error (word "Candidate state not found: " ∷ ident submission ∷ []))
        | some _ ↦ ok (
          tt,
          record s {
            store = record s.store {
              candidate_states =
                  write_where (λ c. c.submission_id == submission)
                    (λ c. record c { status = status }) s.store.candidate_states;
            };
          },
        )
      ]

  unfoldable pub findings_for_generation : ℕ → Store F → List (CriticFinding F)
  unfolding list_where
  findings_for_generation generation store =
      list_where (λ c. c.id) (λ c. c.generation_id == generation) store.critic_findings

  unfoldable pub add_packets : List CrossPollinationPacket → Tx F (Unit {0})
  unfolding insert_all
  add_packets packets s = ok (
    tt,
    record s {
      store = record s.store {
        cross_pollination = insert_all s.now packets s.store.cross_pollination;
      };
    },
  )

  unfoldable pub add_verifications : List VerificationResult → Tx F (Unit {0})
  unfolding insert_all
  add_verifications results s = ok (
    tt,
    record s {
      store = record s.store { verifications = insert_all s.now results s.store.verifications };
    },
  )

  unfoldable pub verifications_for_submission : ℕ → Store F → List VerificationResult
  unfolding list_where
  verifications_for_submission submission store =
      list_where (λ v. v.id) (λ v. v.submission_id == submission) store.verifications

  -- `uow.events.append(RunEvent(run_id=..., event_type=..., payload=...))`, which draws the event's
  -- number.
  unfoldable pub append_event : ℕ → RunEventType → Fields → Tx F (Unit {0})
  unfolding insert_all
  append_event run event_type payload s =
      let event : RunEvent = record {
        run_id = run;
        event_type = event_type;
        payload = payload;
        created_at = some s.now;
        id = s.ids s.drawn;
      } in
      ok (
        tt,
        record s {
          drawn = suc s.drawn;
          store = record s.store { events = insert_all s.now (event ∷ []) s.store.events };
        },
      )
