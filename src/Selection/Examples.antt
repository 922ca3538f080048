-- ===== src/Selection/Examples.antt =====
-- A generation of three, with millionths for floats, and the theorems at it.
use agent_coordination.Prelude.{
  All, Bool, Distinct, IsSorted, List, Member, Text, [], codes, false, first, keep_if, leb, length,
  map, min, none, refl, sort, true, ℕ, ◌*◌, ◌+◌, ◌-◌, ◌/◌, ◌∷◌, ◌≡◌,
}
use agent_coordination.Errors.{Result, err, ok}
use agent_coordination.Selection.Policy.{choose, decide_one, decisions, select, viable_ids}
use agent_coordination.Selection.Slots.{elite_slot, fill, novelty_slot, wildcard_slot}
use agent_coordination.Selection.Ranking.{AggregateEvaluation, aggregate_id, aggregate_one, better}
use agent_coordination.Selection.Similarity.{fingerprint, jaccard}
use agent_coordination.Selection.Accepted.{Accepted, submission_key}
use agent_coordination.Selection.Outcomes.{select_elite, select_fatal, select_survivors}
use agent_coordination.Selection.Elite.{count_up}
use agent_coordination.Floats.{Floats, by_number-IsOrder}
use agent_coordination.Domain.Data.{Format}
use agent_coordination.Domain.Enums.{SelectionKind, elite, novelty, redundant}
use agent_coordination.Domain.Research.{Evaluation, SelectionDecision, Submission}
use Prim.Native.Nat.{◌-◌, ◌/◌}

-- The sum of whole numbers.
abbrev total : List ℕ → ℕ
total [] = 0
total (x ∷ xs) = x + total xs

instance abbrev millionths : Floats ℕ
millionths = record {
  at_most = leb;
  order = by_number-IsOrder (λ (n : ℕ). n);
  zero = 0;
  one = 1000000;
  sub = λ a b. a - b;
  fmean = λ xs. total xs / length xs;
  ratio = λ a b. a * 1000000 / b;
  round6 = λ a. a;
  add = λ a b. a + b;
  mul = λ a b. a * b;
  over = λ a n. a / n;
  bits = λ a. a;
  of_bits = λ a. a;
  bits_kept = λ a. refl;
}

abbrev submitted : ℕ → Text → Submission ℕ
submitted id summary = record {
  agent_id = id;
  summary = summary;
  approach = [];
  claims = [];
  discoveries = [];
  failed_attempts = [];
  evidence = [];
  open_questions = [];
  final_answer = none;
  raw_response = [];
  id = id;
}

abbrev evaluated : ℕ → ℕ → Bool → Evaluation ℕ
evaluated id score fatal = record {
  submission_id = id;
  judge_agent_id = 9;
  correctness = score;
  rigor = score;
  novelty = score;
  research_progress = score;
  verifiability = score;
  fatal_error = fatal;
  judge_confidence = score;
  critique = [];
  id = id;
}

abbrev submissions : List (Submission ℕ)
submissions =
    submitted 1 (codes "one proof")
    ∷ submitted 2 (codes "one proof")
    ∷ submitted 3 (codes "two")
    ∷ []

abbrev evaluations : List (Evaluation ℕ)
evaluations = evaluated 1 700000 false ∷ evaluated 2 900000 true ∷ evaluated 3 800000 false ∷ []

abbrev lower : Text → Text
lower t = t

abbrev digest : Format → ℕ
digest f = 0

abbrev new_id : ℕ → ℕ
new_id id = 100 + id

abbrev selected_of : Result (List (SelectionDecision ℕ)) → List (ℕ × SelectionKind)
selected_of (ok ds) = map (λ d. (d.submission_id, d.selection_kind)) ds
selected_of (err e) = []

abbrev decisions_of : Result (List (SelectionDecision ℕ)) → List (SelectionDecision ℕ)
decisions_of (ok ds) = ds
decisions_of (err e) = []

abbrev outcome : Result (List (SelectionDecision ℕ))
outcome = select lower digest 1 850000 submissions new_id evaluations 2 []

-- The candidate with a fatal error is left out, though it scored best.
fatal_is_eliminated : selected_of outcome ≡ (3, elite) ∷ (1, novelty) ∷ (2, redundant) ∷ []
unfolding select decisions better decide_one choose fill wildcard_slot novelty_slot elite_slot
    jaccard fingerprint
fatal_is_eliminated = refl

chosen_well : outcome ≡ ok (decisions_of outcome)
unfolding select
chosen_well = refl

distinct : Distinct submission_key submissions
distinct = ((refl, (refl, tt)), ((refl, tt), (tt, tt)))

select_survivors_example :
    (ranked : List (AggregateEvaluation ℕ)) × Accepted lower digest 1 850000 submissions new_id
      evaluations 2 [] ranked
      (decisions_of outcome)
    × (length (keep_if (λ d. d.selected) (decisions_of outcome))
        ≡ min 2 (length (viable_ids ranked)))
select_survivors_example =
    select_survivors lower digest 1 850000 submissions new_id evaluations 2 []
      (decisions_of outcome) distinct chosen_well

select_elite_example :
    (ranked : List (AggregateEvaluation ℕ)) × Accepted lower digest 1 850000 submissions new_id
      evaluations 2 [] ranked
      (decisions_of outcome)
    × IsSorted better ranked
    × (map (λ d. d.submission_id) (decisions_of outcome) ≡ map aggregate_id ranked)
    × (map (λ d. d.rank) (decisions_of outcome) ≡ count_up 1 3)
    × (first_decision : SelectionDecision ℕ) × (rest : List (SelectionDecision ℕ)) × (decisions_of
          outcome
        ≡ first_decision ∷ rest)
    × (first_decision.selected ≡ true)
    × (first_decision.selection_kind ≡ elite)
select_elite_example =
    select_elite lower digest 1 850000 submissions new_id evaluations 2 [] (decisions_of outcome)
      distinct chosen_well

-- A generation of one, whose candidate has a fatal error.
abbrev lone : Result (List (SelectionDecision ℕ))
lone = select lower digest 1 850000 (submitted 2 [] ∷ []) new_id (evaluated 2 5 true ∷ []) 1 []

lone_ok : lone ≡ ok (decisions_of lone)
unfolding select
lone_ok = refl

abbrev lone_decision : SelectionDecision ℕ
lone_decision =
    decide_one lower digest 1 850000 (submitted 2 [] ∷ [])
      (sort better (aggregate_one [] (submitted 2 []) (evaluated 2 5 true ∷ []) ∷ [])) new_id
      ((2, elite) ∷ []) (aggregate_one [] (submitted 2 []) (evaluated 2 5 true ∷ []))

lone_first : Member lone_decision (decisions_of lone)
unfolding select decide_one aggregate_one decisions choose fill wildcard_slot novelty_slot
    elite_slot
lone_first = first

lone_selected : lone_decision.selected ≡ true
unfolding select decide_one aggregate_one
lone_selected = refl

lone_fatal : lone_decision.score_vector.fatal_error ≡ true
unfolding select decide_one aggregate_one
lone_fatal = refl

select_fatal_example : All (λ e. e.score_vector.fatal_error ≡ true) (decisions_of lone)
select_fatal_example =
    select_fatal lower digest 1 850000 (submitted 2 [] ∷ []) new_id (evaluated 2 5 true ∷ []) 1 []
      (decisions_of lone) (tt, tt) lone_ok lone_decision lone_first lone_selected lone_fatal
