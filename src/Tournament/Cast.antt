-- ===== src/Tournament/Cast.antt =====
-- The agents of a generation in packages/core/orchestration/tournament.py: their roles, the niches
-- and mutations that they are given in turn, and the jobs that are enqueued for them.
use agent_coordination.Prelude.{
  Bool, List, Option, Text, [], any_of, false, if◌then◌else◌, length, map, nat_eq, none, some,
  string_eq, suc, true, zero, ℕ, ◌%◌, ◌==◌, ◌∷◌,
}
use agent_coordination.Errors.{Result, err, key_error, ok, ◌>>=◌}
use agent_coordination.Domain.Research.{Agent, Generation}
use agent_coordination.Domain.Enums.{
  AgentOrigin, MutationType, ResearchNiche, alternative_formulation, computational, constructive,
  counterexample, falsify, finalize_run, generalization, generalize, lemma_decomposition, pending,
  rederive, run_critic, run_judge, run_research_agent, skeptical, special_cases, start_judging,
  strengthen,
}
use agent_coordination.Domain.Data.{
  Fields, Format, Role, critic, end, field, ident, judge, num, researcher, word,
}
use agent_coordination.Queue.Orders.{Order}

-- What the orchestrator calls and does not implement: `str.lower`, the sha256 digest of a text as
-- the number that its bytes spell, and the text of the SyntaxError that `compile` raises, if any.
pub record Externals : Type 0 where
  pub lower : Text → Text
  pub digest : Format → ℕ
  pub syntax_error : Text → Option Text

abbrev pub judge_count : ℕ
judge_count = 2

-- `range(start, start + n)`
unfoldable pub range_from : ℕ → ℕ → List ℕ
range_from start zero = []
range_from start (suc n) = start ∷ range_from (suc start) n

module _ {A : Type 0} (default : A) where
  unfoldable pub nth_or : List A → ℕ → A
  nth_or [] i = default
  nth_or (x ∷ xs) zero = x
  nth_or (x ∷ xs) (suc i) = nth_or xs i

  -- `xs[i % len(xs)]`, of a list that is not empty.
  unfoldable pub cycle_at : List A → ℕ → A
  unfolding nth_or
  cycle_at xs i = nth_or xs (i % length xs)

-- `_MUTATION_CYCLE`
abbrev pub mutation_cycle : List MutationType
mutation_cycle = strengthen ∷ falsify ∷ rederive ∷ generalize ∷ []

-- `_NICHE_CYCLE`
abbrev pub niche_cycle : List ResearchNiche
niche_cycle =
    constructive ∷ skeptical ∷ counterexample ∷ computational ∷ special_cases ∷ generalization
    ∷ alternative_formulation ∷ lemma_decomposition ∷ []

unfoldable pub mutation_at : ℕ → MutationType
unfolding cycle_at
mutation_at index = cycle_at strengthen mutation_cycle index

unfoldable pub niche_at : ℕ → ResearchNiche
unfolding cycle_at
niche_at index = cycle_at constructive niche_cycle index

unfoldable pub role_beq : Role → Role → Bool
role_beq (researcher i) (researcher j) = i == j
role_beq (judge i) (judge j) = i == j
role_beq (critic i) (critic j) = i == j
role_beq _ _ = false

-- `agent.role.startswith("researcher:")`, and likewise.
abbrev pub is_researcher : Agent → Bool
is_researcher a = elim a.role [ researcher i ↦ true | _ ↦ false ]

abbrev pub is_judge : Agent → Bool
is_judge a = elim a.role [ judge i ↦ true | _ ↦ false ]

abbrev pub is_critic : Agent → Bool
is_critic a = elim a.role [ critic i ↦ true | _ ↦ false ]

-- `role in {agent.role: agent for agent in agents}`
unfoldable pub has_role : Role → List Agent → Bool
unfolding role_beq any_of
has_role role agents = any_of (λ a. role_beq a.role role) agents

-- What the dict has under the role: the last agent that was put there.
unfoldable pub last_with_role : Role → List Agent → Option Agent
unfolding role_beq
last_with_role role [] = none
last_with_role role (a ∷ rest) = elim (last_with_role role rest) [
  | some b ↦ some b
  | none ↦ if role_beq a.role role then some a else none
]

abbrev pub role_name : Role → Format
role_name (researcher i) = word "researcher:" ∷ num i ∷ []
role_name (judge i) = word "judge:" ∷ num i ∷ []
role_name (critic i) = word "critic:" ∷ num i ∷ []

unfoldable pub agent_at : Role → List Agent → Result Agent
unfolding last_with_role
agent_at role agents = elim (last_with_role role agents) [
  | none ↦ err (key_error (role_name role))
  | some a ↦ ok a
]

-- `[existing[f"...:{index}"] for index in range(n)]`
unfoldable pub agents_at : (ℕ → Role) → List ℕ → List Agent → Result (List Agent)
unfolding agent_at
agents_at role [] agents = ok []
agents_at role (i ∷ is) agents = do
  a ← agent_at (role i) agents
  rest ← agents_at role is agents
  ok (a ∷ rest)

-- An agent before it has run, and the niche and origin that an `Agent` has by default.
abbrev pub new_agent : ℕ → Role → ResearchNiche → AgentOrigin → ℕ → Agent
new_agent generation role niche origin id = record {
  generation_id = generation;
  role = role;
  status = pending;
  niche = niche;
  origin = origin;
  id = id;
}

abbrev pub generation_key : ℕ → ℕ → Format → Format
generation_key run generation rest =
    word "run:" ∷ ident run ∷ word ":generation:" ∷ ident generation ∷ rest

abbrev pub generation_payload : ℕ → ℕ → Fields → Fields
generation_payload run generation rest =
    field "run_id" (ident run) (field "generation_id" (ident generation) rest)

abbrev pub research_order : ℕ → ℕ → Agent → Order
research_order run generation agent = record {
  job_type = run_research_agent;
  payload = generation_payload run generation (field "agent_id" (ident agent.id) end);
  key = generation_key run generation (word ":research:" ∷ ident agent.id ∷ []);
}

-- `_enqueue_research_jobs`
unfoldable pub research_orders : ℕ → Generation → List Agent → List Order
research_orders run generation researchers = map (research_order run generation.id) researchers

abbrev pub start_judging_order : ℕ → ℕ → Order
start_judging_order run generation = record {
  job_type = start_judging;
  payload = generation_payload run generation end;
  key = generation_key run generation (word ":start-judging" ∷ []);
}

abbrev pub judge_order : ℕ → ℕ → Agent → Order
judge_order run generation agent = record {
  job_type = run_judge;
  payload = generation_payload run generation (field "agent_id" (ident agent.id) end);
  key = generation_key run generation (word ":judge:" ∷ ident agent.id ∷ []);
}

abbrev pub critic_order : ℕ → ℕ → ℕ → Agent → Order
critic_order run generation submission agent = record {
  job_type = run_critic;
  payload =
      generation_payload run generation
        (field "agent_id" (ident agent.id) (field "submission_id" (ident submission) end));
  key =
      generation_key run generation
        (word ":critic:" ∷ ident agent.id ∷ word ":submission:" ∷ ident submission ∷ []);
}

abbrev pub finalize_order : ℕ → ℕ → Order
finalize_order run generation = record {
  job_type = finalize_run;
  payload = generation_payload run generation end;
  key = generation_key run generation (word ":finalize" ∷ []);
}
