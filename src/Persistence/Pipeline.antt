-- ===== src/Persistence/Pipeline.antt =====
-- The tables of the engineering pipeline: its runs, artifacts and checks: packages/persistence/models.py, the mappers of
-- packages/persistence/mappers.py, and the repositories of packages/persistence/repositories.py.
use agent_coordination.Engineering.Runs.{status_value as engineering_status_value}
use agent_coordination.Prelude.{
  Bool, List, Option, String, Text, nat_eq, none, refl, some, string_eq, true, ℕ, ◌&&◌, ◌==◌, ◌≡◌,
}
use agent_coordination.Errors.{Result, ok, ◌>>=◌}
use agent_coordination.Persistence.Sql.{
  Codec, fetch, insert_many, insert_one, newest_first, select_in, select_rows,
}
use agent_coordination.Persistence.Columns.{
  engineering_status_of, engineering_status_of_value, stage_of, stage_of_value,
}
use agent_coordination.Domain.Data.{Fields, Format}
use agent_coordination.Domain.Enums.{EngineeringStage}
use agent_coordination.Domain.Values.{stage_value}
use agent_coordination.Domain.Service.{EngineeringArtifact, EngineeringCheck, EngineeringRun}

pub record EngineeringRunRecord : Type 0 where
  pub id : ℕ
  pub project_id : Option ℕ
  pub title : String
  pub objective : String
  pub status : String
  pub repair_count : ℕ
  pub max_repairs : ℕ
  pub created_at : ℕ

pub record EngineeringArtifactRecord : Type 0 where
  pub id : ℕ
  pub engineering_run_id : ℕ
  pub stage : String
  pub role : String
  pub content : Fields
  pub raw_response : Text
  pub repair_cycle : ℕ
  pub created_at : ℕ

pub record EngineeringCheckRecord : Type 0 where
  pub id : ℕ
  pub engineering_run_id : ℕ
  pub name : String
  pub passed : Bool
  pub detail : Format
  pub repair_cycle : ℕ
  pub created_at : ℕ

-- The record that `add` makes.
unfoldable pub engineering_run_record : ℕ → EngineeringRun → EngineeringRunRecord
engineering_run_record now e = record {
  id = e.id;
  project_id = e.project_id;
  title = e.title;
  objective = e.objective;
  status = engineering_status_value e.status;
  repair_count = e.repair_count;
  max_repairs = e.max_repairs;
  created_at = now;
}

unfoldable pub engineering_run_from_record : EngineeringRunRecord → Result EngineeringRun
unfolding engineering_status_of
engineering_run_from_record r = do
  status ← engineering_status_of r.status
  ok (record {
    title = r.title;
    objective = r.objective;
    project_id = r.project_id;
    status = status;
    repair_count = r.repair_count;
    max_repairs = r.max_repairs;
    id = r.id;
  })

pub engineering_run_round_trip :
    (now : ℕ) (e : EngineeringRun)
    → engineering_run_from_record (engineering_run_record now e) ≡ ok e
unfolding engineering_run_record engineering_run_from_record
engineering_run_round_trip now e = rw (engineering_status_of_value e.status) refl

pub engineering_run_same_key :
    (now : ℕ) (e : EngineeringRun)
    → ((engineering_run_record now e).id ≡ e.id) × ((engineering_run_record now e).created_at ≡ now)
unfolding engineering_run_record
engineering_run_same_key now e = (refl, refl)

abbrev pub engineering_run_codec : Codec EngineeringRun EngineeringRunRecord
engineering_run_codec = record {
  entity_id = λ e. e.id;
  record_id = λ r. r.id;
  created_at = λ r. r.created_at;
  to_record = engineering_run_record;
  from_record = engineering_run_from_record;
  same_id = λ now e. (engineering_run_same_key now e).0;
  same_time = λ now e. (engineering_run_same_key now e).1;
  round_trip = engineering_run_round_trip;
}

unfoldable pub add_engineering_run :
    ℕ
    → EngineeringRun
    → List EngineeringRunRecord
    → Result (EngineeringRun × List EngineeringRunRecord)
unfolding insert_one
add_engineering_run = insert_one engineering_run_codec

unfoldable pub get_engineering_run : ℕ → List EngineeringRunRecord → Result (Option EngineeringRun)
unfolding fetch
get_engineering_run = fetch engineering_run_codec

unfoldable pub list_engineering_runs : List EngineeringRunRecord → Result (List EngineeringRun)
unfolding select_in newest_first
list_engineering_runs =
    select_in engineering_run_codec (newest_first engineering_run_codec) (λ r. true)

-- The record that `add` makes.
unfoldable pub engineering_artifact_record : ℕ → EngineeringArtifact → EngineeringArtifactRecord
engineering_artifact_record now e = record {
  id = e.id;
  engineering_run_id = e.engineering_run_id;
  stage = stage_value e.stage;
  role = e.role;
  content = e.content;
  raw_response = e.raw_response;
  repair_cycle = e.repair_cycle;
  created_at = now;
}

unfoldable pub engineering_artifact_from_record :
    EngineeringArtifactRecord → Result EngineeringArtifact
unfolding stage_of
engineering_artifact_from_record r = do
  stage ← stage_of r.stage
  ok (record {
    engineering_run_id = r.engineering_run_id;
    stage = stage;
    role = r.role;
    content = r.content;
    raw_response = r.raw_response;
    repair_cycle = r.repair_cycle;
    id = r.id;
  })

pub engineering_artifact_round_trip :
    (now : ℕ) (e : EngineeringArtifact)
    → engineering_artifact_from_record (engineering_artifact_record now e) ≡ ok e
unfolding engineering_artifact_record engineering_artifact_from_record
engineering_artifact_round_trip now e = rw (stage_of_value e.stage) refl

pub engineering_artifact_same_key :
    (now : ℕ) (e : EngineeringArtifact)
    → ((engineering_artifact_record now e).id ≡ e.id)
      × ((engineering_artifact_record now e).created_at ≡ now)
unfolding engineering_artifact_record
engineering_artifact_same_key now e = (refl, refl)

abbrev pub engineering_artifact_codec : Codec EngineeringArtifact EngineeringArtifactRecord
engineering_artifact_codec = record {
  entity_id = λ e. e.id;
  record_id = λ r. r.id;
  created_at = λ r. r.created_at;
  to_record = engineering_artifact_record;
  from_record = engineering_artifact_from_record;
  same_id = λ now e. (engineering_artifact_same_key now e).0;
  same_time = λ now e. (engineering_artifact_same_key now e).1;
  round_trip = engineering_artifact_round_trip;
}

unfoldable pub add_artifact :
    ℕ
    → EngineeringArtifact
    → List EngineeringArtifactRecord
    → Result (EngineeringArtifact × List EngineeringArtifactRecord)
unfolding insert_one
add_artifact = insert_one engineering_artifact_codec

unfoldable pub list_artifacts :
    ℕ → List EngineeringArtifactRecord → Result (List EngineeringArtifact)
unfolding select_rows
list_artifacts id = select_rows engineering_artifact_codec (λ r. r.engineering_run_id == id)

unfoldable pub list_artifacts_for_stage :
    ℕ
    → EngineeringStage
    → Option ℕ
    → List EngineeringArtifactRecord
    → Result (List EngineeringArtifact)
unfolding select_rows
list_artifacts_for_stage id stage repair_cycle = select_rows engineering_artifact_codec λ r.
    r.engineering_run_id == id
    && r.stage == stage_value stage
    && elim repair_cycle [ none ↦ true | some cycle ↦ r.repair_cycle == cycle ]

-- The record that `add` makes.
unfoldable pub engineering_check_record : ℕ → EngineeringCheck → EngineeringCheckRecord
engineering_check_record now e = record {
  id = e.id;
  engineering_run_id = e.engineering_run_id;
  name = e.name;
  passed = e.passed;
  detail = e.detail;
  repair_cycle = e.repair_cycle;
  created_at = now;
}

unfoldable pub engineering_check_from_record : EngineeringCheckRecord → Result EngineeringCheck
engineering_check_from_record r = ok (record {
  engineering_run_id = r.engineering_run_id;
  name = r.name;
  passed = r.passed;
  detail = r.detail;
  repair_cycle = r.repair_cycle;
  id = r.id;
})

pub engineering_check_round_trip :
    (now : ℕ) (e : EngineeringCheck)
    → engineering_check_from_record (engineering_check_record now e) ≡ ok e
unfolding engineering_check_record engineering_check_from_record
engineering_check_round_trip now e = refl

pub engineering_check_same_key :
    (now : ℕ) (e : EngineeringCheck)
    → ((engineering_check_record now e).id ≡ e.id)
      × ((engineering_check_record now e).created_at ≡ now)
unfolding engineering_check_record
engineering_check_same_key now e = (refl, refl)

abbrev pub engineering_check_codec : Codec EngineeringCheck EngineeringCheckRecord
engineering_check_codec = record {
  entity_id = λ e. e.id;
  record_id = λ r. r.id;
  created_at = λ r. r.created_at;
  to_record = engineering_check_record;
  from_record = engineering_check_from_record;
  same_id = λ now e. (engineering_check_same_key now e).0;
  same_time = λ now e. (engineering_check_same_key now e).1;
  round_trip = engineering_check_round_trip;
}

unfoldable pub add_checks :
    ℕ
    → List EngineeringCheck
    → List EngineeringCheckRecord
    → Result (List EngineeringCheck × List EngineeringCheckRecord)
unfolding insert_many
add_checks = insert_many engineering_check_codec

unfoldable pub list_checks : ℕ → List EngineeringCheckRecord → Result (List EngineeringCheck)
unfolding select_rows
list_checks id = select_rows engineering_check_codec (λ r. r.engineering_run_id == id)

unfoldable pub list_checks_for_cycle :
    ℕ → ℕ → List EngineeringCheckRecord → Result (List EngineeringCheck)
unfolding select_rows
list_checks_for_cycle id repair_cycle =
    select_rows engineering_check_codec
      (λ r. r.engineering_run_id == id && r.repair_cycle == repair_cycle)
