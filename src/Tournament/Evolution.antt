-- ===== src/Tournament/Evolution.antt =====
-- What any method of packages/core/orchestration/tournament.py may do to the tables: they are added
-- to, statuses change, and nothing is lost.
use agent_coordination.Store.Rows.{Stamped, Table, insert_all, stamp, write_where}
use agent_coordination.Store.{Store}
use agent_coordination.Store.Effects.{Anything, everything}
use agent_coordination.Prelude.{
  All, All-append, Bool, Bool-cases, List, [], ap, append-nil, append_assoc, false, find_row, inl,
  inr, map, map-append, nat_beq, refl, some, subst, sym, ℕ, ◌++◌, ◌∙◌, ◌∷◌, ◌≡◌,
}
use agent_coordination.Errors.{ok}
use agent_coordination.Store.Repositories.{get_run}
use agent_coordination.Tournament.Stable.{Stable}
use agent_coordination.Domain.Research.{Agent, CandidateState, Generation, Run}
use agent_coordination.Domain.Service.{RunEvent}
use agent_coordination.Domain.Enums.{RunStatus, pending, proposed}
use agent_coordination.RunLifecycle.{run_id, update_status}
use agent_coordination.RunLifecycle.Reachability.{update_status-Updated, ◌⟶◌}

-- Statuses that a sequence of steps of the lifecycle diagram leads to.
infix 40 ◌⟶*◌
pub data ◌⟶*◌ (s : RunStatus) : RunStatus → Type 0 where
  stay : s ⟶* s
  step : {t u : RunStatus} → s ⟶* t → t ⟶ u → s ⟶* u

-- Rows are added at the end, and each new one is as said.
pub record Appended {A : Type 0} (P : A → Type 0) (before after : List A) : Type 0 where
  pub new : List A
  pub same : after ≡ before ++ new
  pub each : All P new

nothing_new : {A : Type 0} (P : A → Type 0) (xs : List A) → Appended P xs xs
nothing_new P xs = record { new = []; same = sym (append-nil xs); each = tt }

then_new :
    {A : Type 0} (P : A → Type 0) (xs ys more : List A)
    → Appended P xs ys
    → All P more
    → Appended P xs (ys ++ more)
then_new P xs ys more h new = record {
  new = h.new ++ more;
  same = ap (λ zs. zs ++ more) h.same ∙ append_assoc xs h.new more;
  each = All-append P h.new more h.each new;
}

pub same_some : {A : Type 0} {a b : A} → some a ≡ some b → a ≡ b
same_some e = cc

-- The agents without their statuses, and the candidates without theirs.
abbrev pub cast_of : Stamped Agent → Stamped Agent
cast_of a = record a { row = record a.row { status = pending } }

abbrev pub entry_of : Stamped CandidateState → Stamped CandidateState
entry_of c = record c { row = record c.row { status = proposed } }

insert_cast :
    (now : ℕ) (agents : List Agent) (table : Table Agent)
    → map cast_of (insert_all now agents table)
      ≡ map cast_of table ++ map cast_of (map (stamp now) agents)
unfolding insert_all
insert_cast now agents table = map-append cast_of table (map (stamp now) agents)

write_keeps :
    {A : Type 0} (key : Stamped A → Stamped A) (p : A → Bool) (f : A → A) (table : Table A)
    → ((a : Stamped A) → key (record a { row = f a.row }) ≡ key a)
    → map key (write_where p f table) ≡ map key table
unfolding write_where
write_keeps key p f [] same = refl
write_keeps key p f (a ∷ table) same = elim (Bool-cases (p a.row)) [
  | inl e ↦ rw e (ap (λ x. x ∷ map key table) (same a))
  | inr e ↦ rw e (ap (λ t. key a ∷ t) (write_keeps key p f table same))
]

module _ {F : Type 0} where
  -- The run goes along the lifecycle, and nothing else of it changes; no other run changes at all.
  pub record Advances (id : ℕ) (before after : List (Run F)) : Type 0 where
    pub own :
        (r : Run F)
        → find_row run_id id before ≡ some r
        → (t : RunStatus) × (r.status ⟶* t)
          × (find_row run_id id after ≡ some (record r { status = t }))
    pub others :
        (other : ℕ)
        → nat_beq id other ≡ false
        → find_row run_id other after ≡ find_row run_id other before

  pub record Evolves (id : ℕ) (before after : Store F) : Type 0 where
    pub runs : Advances id before.runs after.runs
    pub generations :
        Appended (λ (g : Generation). g.run_id ≡ id) before.generations after.generations
    pub agents :
        Appended
          (λ (a : Stamped Agent). Unit {0})
          (map cast_of before.agents)
          (map cast_of after.agents)
    pub submissions : after.submissions ≡ before.submissions
    pub evaluations : after.evaluations ≡ before.evaluations
    pub critic_findings : after.critic_findings ≡ before.critic_findings
    pub selections : Appended Anything before.selections after.selections
    pub lineages : Appended Anything before.lineages after.lineages
    pub candidate_states :
        Appended Anything
          (map entry_of before.candidate_states)
          (map entry_of after.candidate_states)
    pub cross_pollination : Appended Anything before.cross_pollination after.cross_pollination
    pub verifications : Appended Anything before.verifications after.verifications
    pub events : Appended (λ (e : Stamped RunEvent). e.row.run_id ≡ id) before.events after.events

  evolved :
      {id : ℕ} {before after : Store F}
      → Advances id before.runs after.runs
      → Appended (λ (g : Generation). g.run_id ≡ id) before.generations after.generations
      → Appended
          (λ (a : Stamped Agent). Unit {0})
          (map cast_of before.agents)
          (map cast_of after.agents)
      → after.submissions ≡ before.submissions
      → after.evaluations ≡ before.evaluations
      → after.critic_findings ≡ before.critic_findings
      → Appended Anything before.selections after.selections
      → Appended Anything before.lineages after.lineages
      → Appended Anything
          (map entry_of before.candidate_states)
          (map entry_of after.candidate_states)
      → Appended Anything before.cross_pollination after.cross_pollination
      → Appended Anything before.verifications after.verifications
      → Appended (λ (e : Stamped RunEvent). e.row.run_id ≡ id) before.events after.events
      → Evolves id before after
  evolved a b c d e f g h i j k l = record {
    runs = a;
    generations = b;
    agents = c;
    submissions = d;
    evaluations = e;
    critic_findings = f;
    selections = g;
    lineages = h;
    candidate_states = i;
    cross_pollination = j;
    verifications = k;
    events = l;
  }

  -- The run itself, before the method.
  pub Evolves-refl : (id : ℕ) (s : Store F) → Evolves id s s
  Evolves-refl id s = record {
    runs = record { own = λ r found. (r.status, stay, found); others = λ _ _. refl };
    generations = nothing_new _ _;
    agents = nothing_new _ _;
    submissions = refl;
    evaluations = refl;
    critic_findings = refl;
    selections = nothing_new _ _;
    lineages = nothing_new _ _;
    candidate_states = nothing_new _ _;
    cross_pollination = nothing_new _ _;
    verifications = nothing_new _ _;
    events = nothing_new _ _;
  }

  Advances-Updated :
      (id : ℕ) (target : RunStatus) (before between after : List (Run F))
      → Advances id before between
      → update_status id target between ≡ ok after
      → Advances id before after
  Advances-Updated id target before between after h e =
      let up = update_status-Updated id target between e in
      record {
        own = λ r found.
            let (t, way, here) = h.own r found in
            let same = same_some (sym up.found ∙ here) in
            (
              target,
              step way (subst (λ (x : Run F). x.status ⟶ target) same up.stepped),
              up.written ∙ ap (λ (x : Run F). some (record x { status = target })) same,
            );
        others = λ other n. up.others other n ∙ h.others other n;
      }

  module _ (s0 : Store F) (id : ℕ) (run : Run F) (found : get_run id s0 ≡ some run) where
    pub bound_kept :
        (s : Store F) (r : Run F)
        → Evolves id s0 s
        → get_run id s ≡ some r
        → r.max_generations ≡ run.max_generations
    unfolding get_run
    bound_kept s r h e =
        let (t, way, here) = h.runs.own run found in
        ap (λ (x : Run F). x.max_generations) (same_some (sym e ∙ here))

    -- Everything that a method writes is such a step.
    pub Evolves-Stable : Stable id run.max_generations (Evolves id s0)
    unfolding insert_all
    Evolves-Stable = record {
      limits = bound_kept;
      on_run_status = λ s target after h e.
          evolved (Advances-Updated id target s0.runs s.runs after h.runs e) h.generations h.agents
            h.submissions h.evaluations h.critic_findings h.selections h.lineages h.candidate_states
            h.cross_pollination h.verifications h.events;
      on_generation = λ s g h same next absent.
          evolved h.runs (then_new _ _ _ (g ∷ []) h.generations (same, tt)) h.agents h.submissions
            h.evaluations h.critic_findings h.selections h.lineages h.candidate_states
            h.cross_pollination h.verifications h.events;
      on_agents = λ s now agents h new.
          evolved h.runs h.generations
            (subst (Appended Anything (map cast_of s0.agents))
              (sym (insert_cast now agents s.agents)) (then_new _ _ _ _ h.agents (everything _)))
            h.submissions h.evaluations h.critic_findings h.selections h.lineages h.candidate_states
            h.cross_pollination h.verifications h.events;
      on_agent_failed = λ s agent h.
          evolved h.runs h.generations
            (subst (Appended Anything (map cast_of s0.agents))
              (sym (write_keeps cast_of _ _ s.agents (λ a. refl))) h.agents)
            h.submissions h.evaluations h.critic_findings h.selections h.lineages h.candidate_states
            h.cross_pollination h.verifications h.events;
      on_selections = λ s ds h.
          evolved h.runs h.generations h.agents h.submissions h.evaluations h.critic_findings
            (then_new _ _ _ ds h.selections (everything ds)) h.lineages h.candidate_states
            h.cross_pollination h.verifications h.events;
      on_lineages = λ s now links h.
          evolved h.runs h.generations h.agents h.submissions h.evaluations h.critic_findings
            h.selections (then_new _ _ _ _ h.lineages (everything _)) h.candidate_states
            h.cross_pollination h.verifications h.events;
      on_candidate_states = λ s now states h.
          evolved h.runs h.generations h.agents h.submissions h.evaluations h.critic_findings
            h.selections h.lineages
            (subst (Appended Anything (map entry_of s0.candidate_states))
              (sym (map-append entry_of s.candidate_states (map (stamp now) states)))
              (then_new _ _ _ _ h.candidate_states (everything _)))
            h.cross_pollination h.verifications h.events;
      on_candidate_status = λ s submission status h.
          evolved h.runs h.generations h.agents h.submissions h.evaluations h.critic_findings
            h.selections h.lineages
            (subst (Appended Anything (map entry_of s0.candidate_states))
              (sym (write_keeps entry_of _ _ s.candidate_states (λ a. refl))) h.candidate_states)
            h.cross_pollination h.verifications h.events;
      on_packets = λ s now packets h.
          evolved h.runs h.generations h.agents h.submissions h.evaluations h.critic_findings
            h.selections h.lineages h.candidate_states
            (then_new _ _ _ _ h.cross_pollination (everything _)) h.verifications h.events;
      on_verifications = λ s now results h.
          evolved h.runs h.generations h.agents h.submissions h.evaluations h.critic_findings
            h.selections h.lineages h.candidate_states h.cross_pollination
            (then_new _ _ _ _ h.verifications (everything _)) h.events;
      on_event = λ s now e h same.
          evolved h.runs h.generations h.agents h.submissions h.evaluations h.critic_findings
            h.selections h.lineages h.candidate_states h.cross_pollination h.verifications
            (then_new _ _ _ _ h.events (same, tt));
    }
