-- ===== src/Domain/Service.antt =====
-- packages/core/domain/models.py, the entities of the engineering pipeline, the model router, the
-- job queue and the event log. A time is a count of seconds.
use agent_coordination.Prelude.{ℕ, Bool, String, List, Option, Text}
use agent_coordination.Domain.Data.{Format, Fields}
use agent_coordination.Domain.Enums.{
  EngineeringStatus, EngineeringStage, ModelCallStatus, JobType, JobStatus, RunEventType,
}

pub record EngineeringRun : Type 0 where
  pub title : String
  pub objective : String
  pub project_id : Option ℕ
  pub status : EngineeringStatus
  pub repair_count : ℕ
  pub max_repairs : ℕ
  pub id : ℕ

pub record EngineeringArtifact : Type 0 where
  pub engineering_run_id : ℕ
  pub stage : EngineeringStage
  pub role : String
  pub content : Fields
  pub raw_response : Text
  pub repair_cycle : ℕ
  pub id : ℕ

pub record EngineeringCheck : Type 0 where
  pub engineering_run_id : ℕ
  pub name : String
  pub passed : Bool
  pub detail : Format
  pub repair_cycle : ℕ
  pub id : ℕ

pub record ModelProfile : Type 0 where
  pub provider : String
  pub model : String
  pub enabled : Bool
  pub metadata : Fields
  pub id : ℕ

pub record ModelState (F : Type 0) : Type 0 where
  pub model_profile_id : ℕ
  pub quality_by_task : List (String × F)
  pub marginal_cash_cost : F
  pub credit_cost : F
  pub latency_ms : F
  pub scarcity : F
  pub failure_rate : F
  pub rate_limit_pressure : F
  pub available_concurrency : ℕ
  pub enabled : Bool
  pub id : ℕ

pub record ModelCall : Type 0 where
  pub model_profile_id : ℕ
  pub task_type : String
  pub status : ModelCallStatus
  pub run_id : Option ℕ
  pub engineering_run_id : Option ℕ
  pub agent_id : Option ℕ
  pub latency_ms : Option ℕ
  pub input_tokens : Option ℕ
  pub output_tokens : Option ℕ
  pub estimated_cost : Option ℕ
  pub retry_count : ℕ
  pub request_metadata : Fields
  pub response_metadata : Fields
  pub error : Option String
  pub id : ℕ

pub record Job : Type 0 where
  pub job_type : JobType
  pub payload : Fields
  pub idempotency_key : Format
  pub status : JobStatus
  pub attempt : ℕ
  pub max_attempts : ℕ
  pub available_at : Option ℕ
  pub claimed_at : Option ℕ
  pub lease_expires_at : Option ℕ
  pub claimed_by : Option String
  pub last_error : Option String
  pub completed_at : Option ℕ
  pub id : ℕ

pub record RunEvent : Type 0 where
  pub run_id : ℕ
  pub event_type : RunEventType
  pub payload : Fields
  pub created_at : Option ℕ
  pub id : ℕ
