-- ===== src/Persistence/Projects.antt =====
-- The tables of the projects, problems, runs and generations: packages/persistence/models.py, the mappers of
-- packages/persistence/mappers.py, and the repositories of packages/persistence/repositories.py.
use agent_coordination.RunLifecycle.{status_value as run_status_value}
use agent_coordination.Prelude.{
  Bool, List, Option, String, [], find_row, nat_eq, none, refl, some, string_eq, true, ℕ, ◌&&◌,
  ◌==◌, ◌∷◌, ◌≡◌,
}
use agent_coordination.Errors.{Result, err, key_error, ok, ◌>>=◌, ◌>>◌}
use agent_coordination.Persistence.Sql.{
  Codec, fetch, fetch_where, insert_one, newest_first, select_in, select_rows, update_where_found,
}
use agent_coordination.Persistence.Columns.{run_status_of, run_status_of_value}
use agent_coordination.Domain.Data.{ident, word}
use agent_coordination.Domain.Enums.{RunStatus}
use agent_coordination.Domain.Research.{Generation, Problem, Project, Run}
use agent_coordination.Floats.{by_number}
use agent_coordination.RunLifecycle.{assert_run_transition}

pub record ProjectRecord : Type 0 where
  pub id : ℕ
  pub name : String
  pub description : String
  pub created_at : ℕ

pub record ProblemRecord : Type 0 where
  pub id : ℕ
  pub title : String
  pub prompt : String
  pub project_id : Option ℕ
  pub created_at : ℕ

pub record RunRecord (F : Type 0) : Type 0 where
  pub id : ℕ
  pub problem_id : ℕ
  pub status : String
  pub max_generations : ℕ
  pub population_size : ℕ
  pub survivor_count : ℕ
  pub fresh_agent_count : ℕ
  pub redundancy_threshold : F
  pub critic_count : ℕ
  pub verification_enabled : Bool
  pub created_at : ℕ

pub record GenerationRecord : Type 0 where
  pub id : ℕ
  pub run_id : ℕ
  pub index : ℕ
  pub created_at : ℕ

-- The record that `add` makes.
unfoldable pub project_record : ℕ → Project → ProjectRecord
project_record now p = record {
  id = p.id;
  name = p.name;
  description = p.description;
  created_at = now;
}

unfoldable pub project_from_record : ProjectRecord → Result Project
project_from_record r = ok (record { name = r.name; description = r.description; id = r.id })

pub project_round_trip : (now : ℕ) (p : Project) → project_from_record (project_record now p) ≡ ok p
unfolding project_record project_from_record
project_round_trip now p = refl

pub project_same_key :
    (now : ℕ) (p : Project)
    → ((project_record now p).id ≡ p.id) × ((project_record now p).created_at ≡ now)
unfolding project_record
project_same_key now p = (refl, refl)

abbrev pub project_codec : Codec Project ProjectRecord
project_codec = record {
  entity_id = λ p. p.id;
  record_id = λ r. r.id;
  created_at = λ r. r.created_at;
  to_record = project_record;
  from_record = project_from_record;
  same_id = λ now p. (project_same_key now p).0;
  same_time = λ now p. (project_same_key now p).1;
  round_trip = project_round_trip;
}

unfoldable pub add_project :
    ℕ → Project → List ProjectRecord → Result (Project × List ProjectRecord)
unfolding insert_one
add_project = insert_one project_codec

unfoldable pub get_project : ℕ → List ProjectRecord → Result (Option Project)
unfolding fetch
get_project = fetch project_codec

unfoldable pub list_projects : List ProjectRecord → Result (List Project)
unfolding select_rows
list_projects = select_rows project_codec (λ r. true)

-- The record that `add` makes.
unfoldable pub problem_record : ℕ → Problem → ProblemRecord
problem_record now p = record {
  id = p.id;
  title = p.title;
  prompt = p.prompt;
  project_id = p.project_id;
  created_at = now;
}

unfoldable pub problem_from_record : ProblemRecord → Result Problem
problem_from_record r =
    ok (record { title = r.title; prompt = r.prompt; project_id = r.project_id; id = r.id })

pub problem_round_trip : (now : ℕ) (p : Problem) → problem_from_record (problem_record now p) ≡ ok p
unfolding problem_record problem_from_record
problem_round_trip now p = refl

pub problem_same_key :
    (now : ℕ) (p : Problem)
    → ((problem_record now p).id ≡ p.id) × ((problem_record now p).created_at ≡ now)
unfolding problem_record
problem_same_key now p = (refl, refl)

abbrev pub problem_codec : Codec Problem ProblemRecord
problem_codec = record {
  entity_id = λ p. p.id;
  record_id = λ r. r.id;
  created_at = λ r. r.created_at;
  to_record = problem_record;
  from_record = problem_from_record;
  same_id = λ now p. (problem_same_key now p).0;
  same_time = λ now p. (problem_same_key now p).1;
  round_trip = problem_round_trip;
}

unfoldable pub add_problem :
    ℕ → Problem → List ProblemRecord → Result (Problem × List ProblemRecord)
unfolding insert_one
add_problem = insert_one problem_codec

unfoldable pub get_problem : ℕ → List ProblemRecord → Result (Option Problem)
unfolding fetch
get_problem = fetch problem_codec

-- The record that `add` makes.
unfoldable pub generation_record : ℕ → Generation → GenerationRecord
generation_record now g = record { id = g.id; run_id = g.run_id; index = g.index; created_at = now }

unfoldable pub generation_from_record : GenerationRecord → Result Generation
generation_from_record r = ok (record { run_id = r.run_id; index = r.index; id = r.id })

pub generation_round_trip :
    (now : ℕ) (g : Generation) → generation_from_record (generation_record now g) ≡ ok g
unfolding generation_record generation_from_record
generation_round_trip now g = refl

pub generation_same_key :
    (now : ℕ) (g : Generation)
    → ((generation_record now g).id ≡ g.id) × ((generation_record now g).created_at ≡ now)
unfolding generation_record
generation_same_key now g = (refl, refl)

abbrev pub generation_codec : Codec Generation GenerationRecord
generation_codec = record {
  entity_id = λ g. g.id;
  record_id = λ r. r.id;
  created_at = λ r. r.created_at;
  to_record = generation_record;
  from_record = generation_from_record;
  same_id = λ now g. (generation_same_key now g).0;
  same_time = λ now g. (generation_same_key now g).1;
  round_trip = generation_round_trip;
}

unfoldable pub add_generation :
    ℕ → Generation → List GenerationRecord → Result (Generation × List GenerationRecord)
unfolding insert_one
add_generation = insert_one generation_codec

unfoldable pub get_generation : ℕ → List GenerationRecord → Result (Option Generation)
unfolding fetch
get_generation = fetch generation_codec

unfoldable pub get_generation_for_run : ℕ → ℕ → List GenerationRecord → Result (Option Generation)
unfolding fetch_where
get_generation_for_run run index =
    fetch_where generation_codec (λ r. r.run_id == run && r.index == index)

unfoldable pub list_generations : ℕ → List GenerationRecord → Result (List Generation)
unfolding select_in
list_generations run =
    select_in generation_codec (by_number (λ (r : GenerationRecord). r.index))
      (λ r. r.run_id == run)

module _ {F : Type 0} where
  -- The record that `add` makes.
  unfoldable pub run_record : ℕ → Run F → RunRecord F
  run_record now r = record {
    id = r.id;
    problem_id = r.problem_id;
    status = run_status_value r.status;
    max_generations = r.max_generations;
    population_size = r.population_size;
    survivor_count = r.survivor_count;
    fresh_agent_count = r.fresh_agent_count;
    redundancy_threshold = r.redundancy_threshold;
    critic_count = r.critic_count;
    verification_enabled = r.verification_enabled;
    created_at = now;
  }

  unfoldable pub run_from_record : RunRecord F → Result (Run F)
  unfolding run_status_of
  run_from_record r = do
    status ← run_status_of r.status
    ok (record {
      problem_id = r.problem_id;
      status = status;
      max_generations = r.max_generations;
      population_size = r.population_size;
      survivor_count = r.survivor_count;
      fresh_agent_count = r.fresh_agent_count;
      redundancy_threshold = r.redundancy_threshold;
      critic_count = r.critic_count;
      verification_enabled = r.verification_enabled;
      id = r.id;
    })

  pub run_round_trip : (now : ℕ) (r : Run F) → run_from_record (run_record now r) ≡ ok r
  unfolding run_record run_from_record
  run_round_trip now r = rw (run_status_of_value r.status) refl

  pub run_same_key :
      (now : ℕ) (r : Run F) → ((run_record now r).id ≡ r.id) × ((run_record now r).created_at ≡ now)
  unfolding run_record
  run_same_key now r = (refl, refl)

  abbrev pub run_codec : Codec (Run F) (RunRecord F)
  run_codec = record {
    entity_id = λ r. r.id;
    record_id = λ r. r.id;
    created_at = λ r. r.created_at;
    to_record = run_record;
    from_record = run_from_record;
    same_id = λ now r. (run_same_key now r).0;
    same_time = λ now r. (run_same_key now r).1;
    round_trip = run_round_trip;
  }

  unfoldable pub add_run : ℕ → Run F → List (RunRecord F) → Result (Run F × List (RunRecord F))
  unfolding insert_one
  add_run = insert_one run_codec

  unfoldable pub get_run : ℕ → List (RunRecord F) → Result (Option (Run F))
  unfolding fetch
  get_run = fetch run_codec

  unfoldable pub list_runs : List (RunRecord F) → Result (List (Run F))
  unfolding select_in newest_first
  list_runs = select_in run_codec (newest_first run_codec) (λ r. true)

  unfoldable pub update_run_status :
      ℕ → RunStatus → List (RunRecord F) → Result (Run F × List (RunRecord F))
  unfolding find_row assert_run_transition update_where_found
  update_run_status id status table = elim (find_row (λ r. r.id) id table) [
    | none ↦ err (key_error (word "Run not found: " ∷ ident id ∷ []))
    | some r ↦ do
      current ← run_status_of r.status
      assert_run_transition current status
      update_where_found run_codec (key_error (word "Run not found: " ∷ ident id ∷ []))
          (λ r. r.id == id) (λ r. record r { status = run_status_value status }) table
  ]
