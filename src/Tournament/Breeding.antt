-- ===== src/Tournament/Breeding.antt =====
-- `TournamentOrchestrator.finalize_run`: the researchers of the next generation, which are clones of
-- the survivors and fresh agents, with their lineage and what they are told of other branches.
use agent_coordination.Store.{Tx, collect, fresh_id, gets, pure, ◌>>=◌, ◌>>◌}
use agent_coordination.Prelude.{
  List, [], if◌then◌else◌, is_empty, length, ltb, nat_eq, none, some, string_eq, suc, take, ℕ, ◌++◌,
  ◌+◌, ◌-◌, ◌==◌, ◌||◌, ◌∷◌,
}
use agent_coordination.Store.Repositories.{
  add_agents, add_lineages, add_packets, append_event, get_submission,
}
use agent_coordination.Tournament.Cast.{cycle_at, mutation_at, new_agent, niche_at, range_from}
use agent_coordination.Tournament.Queries.{researchers_of}
use agent_coordination.Tournament.Start.{announce, value_json}
use agent_coordination.Domain.Research.{
  Agent, CrossPollinationPacket, Generation, LineageLink, Run, SelectionDecision, Submission,
}
use agent_coordination.Domain.Enums.{
  AgentOrigin, AgentOrigin-discrete, CrossPollinationKind, MutationType, SelectionKind,
  SelectionKind-discrete, agent_cloned, agent_origin_eq, cloned, cross_pollination_created, fresh,
  fresh_agent_injected, novelty, promising, selection_kind_eq, try_it, wildcard,
}
use agent_coordination.Domain.Values.{mutation_value, niche_value, packet_kind_value}
use agent_coordination.Domain.Data.{Fields, arr, end, field, ident, researcher, text, texts}

unfoldable pub child_origin : ℕ → ℕ → AgentOrigin
child_origin clone_count index = if ltb index clone_count then cloned else fresh

unfoldable pub new_child : {F : Type 0} → Generation → ℕ → ℕ → Tx F Agent
unfolding niche_at child_origin
new_child generation clone_count index = do
  id ← fresh_id
  pure (
      new_agent generation.id (researcher index) (niche_at (generation.index + index))
        (child_origin clone_count index) id)

-- What the loop over the children has gathered.
pub record Brood : Type 0 where
  pub links : List LineageLink
  pub packets : List CrossPollinationPacket

unfoldable pub log_fresh : {F : Type 0} → ℕ → Generation → Agent → Tx F (Unit {0})
unfolding append_event
log_fresh run generation child = append_event run fresh_agent_injected (
    field "agent_id" (ident child.id) (
      field "generation_id" (ident generation.id)
        (field "niche" (value_json (niche_value child.niche)) end)))

unfoldable pub packet_kind : SelectionKind → CrossPollinationKind
unfolding SelectionKind-discrete
packet_kind kind = if kind == novelty || kind == wildcard then try_it else promising

module _ {F : Type 0} where
  unfoldable pub packet_payload : Submission F → Fields
  packet_payload source = field "summary" (text source.summary) (
      field "approach" (text source.approach) (
        field "discoveries" (arr (texts (take 3 source.discoveries)))
          (field "open_questions" (arr (texts (take 3 source.open_questions))) end)))

  unfoldable pub make_packet :
      ℕ → Generation → Agent → SelectionKind → Submission F → Tx F CrossPollinationPacket
  unfolding packet_kind packet_payload append_event
  make_packet run generation child kind source = do
    id ← fresh_id
    append_event run cross_pollination_created (
        field "packet_id" (ident id) (
          field "target_agent_id" (ident child.id) (
            field "source_submission_id" (ident source.id) (
              field "kind" (value_json (packet_kind_value (packet_kind kind)))
                (field "generation_id" (ident generation.id) end)))))
    pure (record {
      run_id = run;
      generation_id = generation.id;
      target_agent_id = child.id;
      source_submission_id = source.id;
      kind = packet_kind kind;
      payload = packet_payload source;
      id = id;
    })

  -- The packet from another survivor, if there is one and its submission is there.
  unfoldable pub pollinate :
      ℕ
      → Generation
      → Agent
      → SelectionDecision F
      → SelectionDecision F
      → Tx F (List CrossPollinationPacket)
  unfolding get_submission make_packet
  pollinate run generation child parent source = do
    found ← gets (get_submission source.submission_id)
    if source.submission_id == parent.submission_id then pure [] else elim found [
      | none ↦ pure []
      | some submission ↦
          (make_packet run generation child source.selection_kind submission
            >>= λ (p : CrossPollinationPacket). pure (p ∷ []))
    ]

  unfoldable pub log_clone :
      ℕ → Generation → Agent → SelectionDecision F → MutationType → Tx F (Unit {0})
  unfolding append_event
  log_clone run generation child parent mutation = append_event run agent_cloned (
      field "child_agent_id" (ident child.id) (
        field "parent_submission_id" (ident parent.submission_id) (
          field "mutation_type" (value_json (mutation_value mutation)) (
            field "generation_id" (ident generation.id)
              (field "niche" (value_json (niche_value child.niche)) end)))))

  -- `selected[index % len(selected)]`
  unfoldable pub parent_at :
      SelectionDecision F → List (SelectionDecision F) → ℕ → SelectionDecision F
  unfolding cycle_at
  parent_at first_selected selected index = cycle_at first_selected selected index

  module _ (run : ℕ) (generation : Generation) (first_selected : SelectionDecision F)
      (selected : List (SelectionDecision F)) where
    -- A clone: its link to its parent, and its packet.
    unfoldable pub breed_clone : ℕ → Agent → Tx F (LineageLink × List CrossPollinationPacket)
    unfolding parent_at mutation_at pollinate log_clone
    breed_clone index child = do
      id ← fresh_id
      let parent = parent_at first_selected selected index
      let mutation = mutation_at index
      packets ←
          if ltb 1 (length selected)
          then pollinate run generation child parent (parent_at first_selected selected (index + 1))
          else pure []
      log_clone run generation child parent mutation
      pure (
        record {
          child_agent_id = child.id;
          parent_submission_id = parent.submission_id;
          mutation_type = mutation;
          id = id;
        },
        packets,
      )

    -- The loop over the children.
    unfoldable pub breed : ℕ → List Agent → Tx F Brood
    unfolding AgentOrigin-discrete announce log_fresh breed_clone
    breed index [] = pure (record { links = []; packets = [] })
    breed index (child ∷ children) = do
      announce run generation child
      if child.origin == fresh
          then log_fresh run generation child >> breed (suc index) children
          else do
            (link, packets) ← breed_clone index child
            rest ← breed (suc index) children
            pure (record { links = link ∷ rest.links; packets = packets ++ rest.packets })

  -- The researchers of the next generation, if it has none.
  unfoldable pub add_children :
      Run F → Generation → SelectionDecision F → List (SelectionDecision F) → Tx F (List Agent)
  unfolding collect new_child range_from add_agents breed add_lineages add_packets
  add_children run generation first_selected selected = do
    children ←
        collect (new_child generation (run.population_size - run.fresh_agent_count))
          (range_from 0 run.population_size)
    researchers ← add_agents children
    brood ← breed run.id generation first_selected selected 0 researchers
    if is_empty brood.links then pure tt else add_lineages brood.links
    if is_empty brood.packets then pure tt else add_packets brood.packets
    pure researchers

  unfoldable pub ensure_children :
      Run F → Generation → SelectionDecision F → List (SelectionDecision F) → Tx F (List Agent)
  unfolding researchers_of add_children
  ensure_children run generation first_selected selected = do
    existing ← gets (researchers_of generation.id)
    if is_empty existing then add_children run generation first_selected selected else pure existing
