-- ===== src/Domain/Research.antt =====
-- packages/core/domain/models.py, the entities of a research run. `F` is the type of floats.
use agent_coordination.Prelude.{ℕ, Bool, String, List, Option, Text}
use agent_coordination.Domain.Data.{Format, Fields, Role, ScoreVector}
use agent_coordination.Domain.Enums.{
  RunStatus, AgentStatus, AgentOrigin, ResearchNiche, MutationType, SelectionKind, KnowledgeKind,
  KnowledgeStatus, CrossPollinationKind, CandidateLifecycle, VerificationKind, VerificationStatus,
}

pub record Project : Type 0 where
  pub name : String
  pub description : String
  pub id : ℕ

pub record Problem : Type 0 where
  pub title : String
  pub prompt : String
  pub project_id : Option ℕ
  pub id : ℕ

pub record Run (F : Type 0) : Type 0 where
  pub problem_id : ℕ
  pub status : RunStatus
  pub max_generations : ℕ
  pub population_size : ℕ
  pub survivor_count : ℕ
  pub fresh_agent_count : ℕ
  pub redundancy_threshold : F
  pub critic_count : ℕ
  pub verification_enabled : Bool
  pub id : ℕ

pub record Generation : Type 0 where
  pub run_id : ℕ
  pub index : ℕ
  pub id : ℕ

pub record Agent : Type 0 where
  pub generation_id : ℕ
  pub role : Role
  pub status : AgentStatus
  pub niche : ResearchNiche
  pub origin : AgentOrigin
  pub id : ℕ

pub record ClaimDraft (F : Type 0) : Type 0 where
  pub statement : Text
  pub confidence : Option F
  pub support : Option Text

pub record Submission (F : Type 0) : Type 0 where
  pub agent_id : ℕ
  pub summary : Text
  pub approach : Text
  pub claims : List (ClaimDraft F)
  pub evidence : List Text
  pub discoveries : List Text
  pub failed_attempts : List Text
  pub open_questions : List Text
  pub final_answer : Option Text
  pub raw_response : Text
  pub id : ℕ

pub record Evaluation (F : Type 0) : Type 0 where
  pub submission_id : ℕ
  pub judge_agent_id : ℕ
  pub correctness : F
  pub rigor : F
  pub novelty : F
  pub research_progress : F
  pub verifiability : F
  pub fatal_error : Bool
  pub judge_confidence : F
  pub critique : Text
  pub id : ℕ

pub record SelectionDecision (F : Type 0) : Type 0 where
  pub generation_id : ℕ
  pub submission_id : ℕ
  pub selected : Bool
  pub rank : ℕ
  pub score_vector : ScoreVector F
  pub reason : String
  pub selection_kind : SelectionKind
  pub novelty_score : F
  pub redundant_with_submission_id : Option ℕ
  pub id : ℕ

pub record LineageLink : Type 0 where
  pub child_agent_id : ℕ
  pub parent_submission_id : ℕ
  pub mutation_type : MutationType
  pub id : ℕ

pub record KnowledgeItem (F : Type 0) : Type 0 where
  pub run_id : ℕ
  pub generation_id : ℕ
  pub submission_id : Option ℕ
  pub kind : KnowledgeKind
  pub content : Text
  pub status : KnowledgeStatus
  pub confidence : Option F
  pub provenance : Fields
  pub id : ℕ

pub record CrossPollinationPacket : Type 0 where
  pub run_id : ℕ
  pub generation_id : ℕ
  pub target_agent_id : ℕ
  pub source_submission_id : ℕ
  pub kind : CrossPollinationKind
  pub payload : Fields
  pub id : ℕ

pub record CandidateState : Type 0 where
  pub generation_id : ℕ
  pub submission_id : ℕ
  pub status : CandidateLifecycle
  pub id : ℕ

pub record CriticFinding (F : Type 0) : Type 0 where
  pub generation_id : ℕ
  pub critic_agent_id : ℕ
  pub submission_id : ℕ
  pub fatal_error : Bool
  pub confidence : F
  pub critique : Text
  pub counterexample : Option Text
  pub id : ℕ

pub record VerificationResult : Type 0 where
  pub run_id : ℕ
  pub generation_id : ℕ
  pub submission_id : ℕ
  pub kind : VerificationKind
  pub status : VerificationStatus
  pub detail : Format
  pub metadata : Fields
  pub id : ℕ
