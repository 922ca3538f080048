-- ===== src/Tournament/Queries.antt =====
-- What the methods of packages/core/orchestration/tournament.py look up before they act.
use agent_coordination.Store.{Store, Tx}
use agent_coordination.Prelude.{
  Bool, List, Option, [], all_of, any_of, false, if◌then◌else◌, is_empty, keep_if, map, nat_eq,
  none, not, some, string_eq, ℕ, ◌&&◌, ◌++◌, ◌==◌, ◌∷◌,
}
use agent_coordination.Errors.{Error, Result, err, key_error, ok, runtime_error}
use agent_coordination.Store.Repositories.{
  agents_for_generation, evaluations_for_generation, generations_for_run, get_generation, get_run,
  submissions_for_generation,
}
use agent_coordination.Tournament.Cast.{is_critic, is_judge, is_researcher}
use agent_coordination.Domain.Research.{Agent, Evaluation, Generation, Run, Submission}
use agent_coordination.Domain.Enums.{AgentStatus, agent_status_eq}
use agent_coordination.Domain.Data.{ident, word}

-- `[... for item in values if agent.status == status]`, tested.
abbrev pub all_in : AgentStatus → List Agent → Bool
all_in status agents = all_of (λ (a : Agent). a.status == status) agents

abbrev pub any_in : AgentStatus → List Agent → Bool
any_in status agents = any_of (λ (a : Agent). a.status == status) agents

-- Whether a pair is in a set of pairs.
unfoldable pub pair_in : ℕ × ℕ → List (ℕ × ℕ) → Bool
unfolding any_of
pair_in p pairs = any_of (λ q. q.0 == p.0 && q.1 == p.1) pairs

-- Equality of the sets of the elements.
unfoldable pub same_pairs : List (ℕ × ℕ) → List (ℕ × ℕ) → Bool
unfolding pair_in all_of
same_pairs ps qs = all_of (λ p. pair_in p qs) ps && all_of (λ q. pair_in q ps) qs

abbrev pub last_or_none : {A : Type 0} → List A → Option A
last_or_none [] = none
last_or_none (x ∷ []) = some x
last_or_none (x ∷ y ∷ rest) = last_or_none (y ∷ rest)

abbrev pub run_missing : ℕ → Error
run_missing id = key_error (word "Run not found: " ∷ ident id ∷ [])

module _ {F : Type 0} where
  -- `_latest_generation`
  unfoldable pub latest_generation : ℕ → Store F → Option Generation
  unfolding generations_for_run
  latest_generation run store = last_or_none (generations_for_run run store)

  -- `_researchers`, `_judges` and `_critics`
  unfoldable pub researchers_of : ℕ → Store F → List Agent
  unfolding keep_if agents_for_generation
  researchers_of generation store = keep_if is_researcher (agents_for_generation generation store)

  unfoldable pub judges_of : ℕ → Store F → List Agent
  unfolding keep_if agents_for_generation
  judges_of generation store = keep_if is_judge (agents_for_generation generation store)

  unfoldable pub critics_of : ℕ → Store F → List Agent
  unfolding keep_if agents_for_generation
  critics_of generation store = keep_if is_critic (agents_for_generation generation store)

  -- `run = uow.runs.get(run_id)`, and the KeyError.
  unfoldable pub require_run : ℕ → Tx F (Run F)
  unfolding get_run
  require_run run s = elim (get_run run s.store) [
    | none ↦ err (run_missing run)
    | some r ↦ ok (r, s)
  ]

  -- `_resolve_generation`
  unfoldable pub resolve_generation : ℕ → Option ℕ → Store F → Result Generation
  unfolding get_generation latest_generation
  resolve_generation run none store = elim (latest_generation run store) [
    | none ↦ err (runtime_error (word "Run has no generations" ∷ []))
    | some g ↦ ok g
  ]
  resolve_generation run (some id) store = elim (get_generation id store) [
    | none ↦ err (key_error (word "Generation not found for run: " ∷ ident id ∷ []))
    | some g ↦
        if g.run_id == run
        then ok g
        else err (key_error (word "Generation not found for run: " ∷ ident id ∷ []))
  ]

  -- `latest is None or generation.id != latest.id`, negated.
  unfoldable pub is_latest : ℕ → Generation → Store F → Bool
  unfolding latest_generation
  is_latest run generation store = elim (latest_generation run store) [
    | none ↦ false
    | some latest ↦ generation.id == latest.id
  ]

  abbrev pub expected_pairs : List (Submission F) → List Agent → List (ℕ × ℕ)
  expected_pairs [] judges = []
  expected_pairs (s ∷ rest) judges =
      map (λ (j : Agent). (s.id, j.id)) judges ++ expected_pairs rest judges

  abbrev pub actual_pairs : List (Evaluation F) → List (ℕ × ℕ)
  actual_pairs evaluations =
      map (λ (e : Evaluation F). (e.submission_id, e.judge_agent_id)) evaluations

  -- `_evaluations_complete`
  unfoldable pub evaluations_complete : ℕ → List Agent → Store F → Bool
  unfolding submissions_for_generation evaluations_for_generation same_pairs
  evaluations_complete generation judges store =
      let submissions = submissions_for_generation generation store in
      let evaluations = evaluations_for_generation generation store in
      not (is_empty submissions)
      && same_pairs (actual_pairs evaluations) (expected_pairs submissions judges)
