-- ===== src/Tournament/Stable.antt =====
-- The writes of packages/core/orchestration/tournament.py on the tables, one by one: what a property
-- of the tables must withstand for every method of the orchestrator to keep it.
use agent_coordination.Store.{Session, Store, Tx, fresh_id, gets, pure, ◌>>=◌, ◌>>◌}
use agent_coordination.Store.Rows.{insert_all, write_where}
use agent_coordination.Store.Effects.{Ensures, Keeps}
use agent_coordination.Prelude.{
  All, List, Option, Option-cases, [], find_row-id, inl, inr, nat_eq, none, refl, some, string_eq,
  subst, sym, ℕ, ◌++◌, ◌<◌, ◌==◌, ◌∙◌, ◌∷◌, ◌≡◌, ◌⊎◌,
}
use agent_coordination.Errors.{Result-cases, ok, same_ok}
use agent_coordination.Store.Repositories.{
  add_agents, add_candidate_states, add_generation, add_lineages, add_packets, add_selections,
  add_verifications, append_event, candidate_state_for_submission, generation_for_run, get_agent,
  get_run, update_agent_status, update_candidate_status, update_run_status,
}
use agent_coordination.Tournament.Queries.{require_run}
use agent_coordination.Tournament.Start.{create_generation, ensure_generation, found_or_created}
use agent_coordination.Domain.Research.{
  Agent, CandidateState, CrossPollinationPacket, Generation, LineageLink, Run, SelectionDecision,
  VerificationResult,
}
use agent_coordination.Domain.Service.{RunEvent}
use agent_coordination.Domain.Enums.{CandidateLifecycle, RunEventType, RunStatus, failed, pending}
use agent_coordination.Domain.Data.{Fields}
use agent_coordination.RunLifecycle.{run_id, update_status}

-- The index of a generation that a run may add: the first one, or one below its bound.
abbrev pub IsNext : ℕ → ℕ → Type 0
IsNext limit index = (index ≡ 0) ⊎ (index < limit)

abbrev pub IsPending : Agent → Type 0
IsPending a = a.status ≡ pending

-- The property withstands each write that the run `id`, of at most `limit` generations, makes.
pub record Stable {F : Type 0} (id limit : ℕ) (P : Store F → Type 0) : Type 0 where
  pub limits : (s : Store F) (r : Run F) → P s → get_run id s ≡ some r → r.max_generations ≡ limit
  pub on_run_status :
      (s : Store F) (target : RunStatus) (after : List (Run F))
      → P s
      → update_status id target s.runs ≡ ok after
      → P (record s { runs = after })
  pub on_generation :
      (s : Store F) (g : Generation)
      → P s
      → g.run_id ≡ id
      → IsNext limit g.index
      → generation_for_run id g.index s ≡ none
      → P (record s { generations = s.generations ++ g ∷ [] })
  pub on_agents :
      (s : Store F) (now : ℕ) (agents : List Agent)
      → P s
      → All IsPending agents
      → P (record s { agents = insert_all now agents s.agents })
  pub on_agent_failed :
      (s : Store F) (agent : ℕ)
      → P s
      → P (record s {
        agents = write_where (λ a. a.id == agent) (λ a. record a { status = failed }) s.agents;
      })
  pub on_selections :
      (s : Store F) (ds : List (SelectionDecision F))
      → P s
      → P (record s { selections = s.selections ++ ds })
  pub on_lineages :
      (s : Store F) (now : ℕ) (links : List LineageLink)
      → P s
      → P (record s { lineages = insert_all now links s.lineages })
  pub on_candidate_states :
      (s : Store F) (now : ℕ) (states : List CandidateState)
      → P s
      → P (record s { candidate_states = insert_all now states s.candidate_states })
  pub on_candidate_status :
      (s : Store F) (submission : ℕ) (status : CandidateLifecycle)
      → P s
      → P (record s {
        candidate_states =
            write_where
              (λ c. c.submission_id == submission)
              (λ c. record c { status = status })
              s.candidate_states;
      })
  pub on_packets :
      (s : Store F) (now : ℕ) (packets : List CrossPollinationPacket)
      → P s
      → P (record s { cross_pollination = insert_all now packets s.cross_pollination })
  pub on_verifications :
      (s : Store F) (now : ℕ) (results : List VerificationResult)
      → P s
      → P (record s { verifications = insert_all now results s.verifications })
  pub on_event :
      (s : Store F) (now : ℕ) (e : RunEvent)
      → P s
      → e.run_id ≡ id
      → P (record s { events = insert_all now (e ∷ []) s.events })

-- A run as `require_run` finds it.
pub record IsRun {F : Type 0} (id limit : ℕ) (r : Run F) : Type 0 where
  pub same_id : r.id ≡ id
  pub bound : r.max_generations ≡ limit

module _ {F : Type 0} {id limit : ℕ} {P : Store F → Type 0} (stable : Stable id limit P) where
  -- A step that returns one result and writes one table.
  writes :
      {A : Type 0} {Q : A → Type 0} {m : Tx F A} (result : Session F → A × Session F)
      → ((s : Session F) → m s ≡ ok (result s))
      → ((s : Session F) → P s.store → P (result s).1.store × Q (result s).0)
      → Ensures P Q m
  writes {A} {Q} result runs keeps = record {
    apply = λ s s' a h p.
        subst (λ (r : A × Session F). P r.1.store × Q r.0) (same_ok (sym (runs s) ∙ h)) (keeps s p);
  }

  pub append_event-Keeps :
      {run : ℕ}
      → run ≡ id
      → (event_type : RunEventType) (payload : Fields)
      → Keeps P (append_event run event_type payload)
  unfolding append_event
  append_event-Keeps same event_type payload =
      writes _ (λ s. refl) (λ s p. (stable.on_event s.store s.now _ p same, tt))

  pub add_agents-Ensures :
      (agents : List Agent) → All IsPending agents → Ensures P (All IsPending) (add_agents agents)
  unfolding add_agents
  add_agents-Ensures agents new =
      writes _ (λ s. refl) (λ s p. (stable.on_agents s.store s.now agents p new, new))

  pub add_selections-Keeps : (ds : List (SelectionDecision F)) → Keeps P (add_selections ds)
  unfolding add_selections
  add_selections-Keeps ds = writes _ (λ s. refl) (λ s p. (stable.on_selections s.store ds p, tt))

  pub add_lineages-Keeps : (links : List LineageLink) → Keeps P (add_lineages links)
  unfolding add_lineages
  add_lineages-Keeps links =
      writes _ (λ s. refl) (λ s p. (stable.on_lineages s.store s.now links p, tt))

  pub add_candidate_states-Keeps :
      (states : List CandidateState) → Keeps P (add_candidate_states states)
  unfolding add_candidate_states
  add_candidate_states-Keeps states =
      writes _ (λ s. refl) (λ s p. (stable.on_candidate_states s.store s.now states p, tt))

  pub add_packets-Keeps : (packets : List CrossPollinationPacket) → Keeps P (add_packets packets)
  unfolding add_packets
  add_packets-Keeps packets =
      writes _ (λ s. refl) (λ s p. (stable.on_packets s.store s.now packets p, tt))

  pub add_verifications-Keeps :
      (results : List VerificationResult) → Keeps P (add_verifications results)
  unfolding add_verifications
  add_verifications-Keeps results =
      writes _ (λ s. refl) (λ s p. (stable.on_verifications s.store s.now results p, tt))

  own_status-Keeps : (target : RunStatus) → Keeps P (update_run_status id target)
  unfolding update_run_status
  own_status-Keeps target = record {
    apply = λ s s' a h p. elim (Result-cases (update_status id target s.store.runs)) [
      | inl (after, e) ↦
          let same = same_ok (rw (e, update_run_status) at h) in
          subst (λ (r : Unit {0} × Session F). P r.1.store × Unit {0}) same
            (stable.on_run_status s.store target after p e, tt)
      | inr (x, e) ↦ cc (rw (e, update_run_status) at h)
    ];
  }

  pub update_run_status-Keeps :
      {run : ℕ} → run ≡ id → (target : RunStatus) → Keeps P (update_run_status run target)
  update_run_status-Keeps same target =
      subst (λ r. Keeps P (update_run_status r target)) (sym same) (own_status-Keeps target)

  pub fail_status-Keeps : (agent : ℕ) → Keeps P (update_agent_status agent failed)
  unfolding update_agent_status
  fail_status-Keeps agent = record {
    apply = λ s s' a h p. elim (Option-cases (get_agent agent s.store)) [
      | inl missing ↦ cc (rw (missing, update_agent_status) at h)
      | inr (found, e) ↦
          let same = same_ok (rw (e, update_agent_status) at h) in
          subst (λ (r : Unit {0} × Session F). P r.1.store × Unit {0}) same
            (stable.on_agent_failed s.store agent p, tt)
    ];
  }

  pub update_candidate_status-Keeps :
      (submission : ℕ) (status : CandidateLifecycle)
      → Keeps P (update_candidate_status submission status)
  unfolding update_candidate_status
  update_candidate_status-Keeps submission status = record {
    apply = λ s s' a h p. elim (Option-cases (candidate_state_for_submission submission s.store)) [
      | inl missing ↦ cc (rw (missing, update_candidate_status) at h)
      | inr (found, e) ↦
          let same = same_ok (rw (e, update_candidate_status) at h) in
          subst (λ (r : Unit {0} × Session F). P r.1.store × Unit {0}) same
            (stable.on_candidate_status s.store submission status p, tt)
    ];
  }

  -- The run that is found has the bound and the number.
  pub require_run-Ensures : Ensures P (IsRun id limit) (require_run id)
  unfolding require_run get_run
  require_run-Ensures = record {
    apply = λ s s' a h p. elim (Option-cases (get_run id s.store)) [
      | inl missing ↦ cc (rw (missing, require_run) at h)
      | inr (r, e) ↦
          let same = same_ok (rw (e, require_run) at h) in
          subst (λ (x : Run F × Session F). P x.1.store × IsRun id limit x.0) same
            (
              p,
              record {
                same_id = find_row-id run_id id s.store.runs r e;
                bound = stable.limits s.store r p e;
              },
            )
    ];
  }

  own_generation :
      (index : ℕ) (s s' : Session F) (g : Generation)
      → IsNext limit index
      → generation_for_run id index s.store ≡ none
      → create_generation id index s ≡ ok (g, s')
      → P s.store
      → P s'.store
  unfolding create_generation add_generation append_event ◌>>=◌ ◌>>◌ pure fresh_id
  own_generation index s s' g next absent h p =
      let added : Generation = record { run_id = id; index = index; id = s.ids s.drawn } in
      let before = record s.store { generations = s.store.generations ++ added ∷ [] } in
      subst (λ (r : Generation × Session F). P r.1.store) (same_ok h)
        (stable.on_event before s.now _ (stable.on_generation s.store added p refl next absent)
          refl)

  own_found :
      (index : ℕ) (s s' : Session F) (g : Generation) (found : Option Generation)
      → IsNext limit index
      → generation_for_run id index s.store ≡ found
      → found_or_created id index found s ≡ ok (g, s')
      → P s.store
      → P s'.store
  unfolding found_or_created pure
  own_found index s s' g none next absent h p = own_generation index s s' g next absent h p
  own_found index s s' g (some old) next e h p =
      subst (λ (r : Generation × Session F). P r.1.store) (same_ok h) p

  own_ensured : (index : ℕ) → IsNext limit index → Keeps P (ensure_generation id index)
  unfolding ensure_generation ◌>>=◌ gets
  own_ensured index next = record {
    apply = λ s s' g h p.
        (own_found index s s' g (generation_for_run id index s.store) next refl h p, tt);
  }

  pub ensure_generation-Keeps :
      {run : ℕ}
      → run ≡ id
      → (index : ℕ) → IsNext limit index
      → Keeps P (ensure_generation run index)
  ensure_generation-Keeps same index next =
      subst (λ r. Keeps P (ensure_generation r index)) (sym same) (own_ensured index next)
