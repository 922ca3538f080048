-- ===== src/Domain/Enums.antt =====
-- packages/core/domain/models.py, the enumerations. `status == X` is a decision, made by cases.
use agent_coordination.Prelude.{Eq, test, test_iff}

pub data RunStatus : Type 0 where
  created researching judging completed paused failed : RunStatus

unfoldable pub RunStatus-discrete : Discrete RunStatus
RunStatus-discrete = hlevel

instance abbrev pub run_status_eq : Eq RunStatus
run_status_eq = record {
  beq = λ a b. test (RunStatus-discrete a b);
  beq_iff = λ a b. test_iff (RunStatus-discrete a b);
}

pub data AgentStatus : Type 0 where
  pending running completed failed : AgentStatus

unfoldable pub AgentStatus-discrete : Discrete AgentStatus
AgentStatus-discrete = hlevel

instance abbrev pub agent_status_eq : Eq AgentStatus
agent_status_eq = record {
  beq = λ a b. test (AgentStatus-discrete a b);
  beq_iff = λ a b. test_iff (AgentStatus-discrete a b);
}

pub data AgentOrigin : Type 0 where
  initial cloned fresh : AgentOrigin

unfoldable pub AgentOrigin-discrete : Discrete AgentOrigin
AgentOrigin-discrete = hlevel

instance abbrev pub agent_origin_eq : Eq AgentOrigin
agent_origin_eq = record {
  beq = λ a b. test (AgentOrigin-discrete a b);
  beq_iff = λ a b. test_iff (AgentOrigin-discrete a b);
}

pub data ResearchNiche : Type 0 where
  constructive skeptical counterexample computational special_cases generalization
        alternative_formulation lemma_decomposition :
      ResearchNiche

pub data MutationType : Type 0 where
  strengthen falsify rederive generalize : MutationType

pub data SelectionKind : Type 0 where
  elite novelty wildcard quality redundant eliminated : SelectionKind

unfoldable pub SelectionKind-discrete : Discrete SelectionKind
SelectionKind-discrete = hlevel

instance abbrev pub selection_kind_eq : Eq SelectionKind
selection_kind_eq = record {
  beq = λ a b. test (SelectionKind-discrete a b);
  beq_iff = λ a b. test_iff (SelectionKind-discrete a b);
}

pub data KnowledgeKind : Type 0 where
  verified_fact likely_fact hypothesis candidate_lemma counterexample : KnowledgeKind
  contradiction failed_approach promising_approach unresolved_question : KnowledgeKind
  observation candidate_solution : KnowledgeKind

unfoldable pub KnowledgeKind-discrete : Discrete KnowledgeKind
KnowledgeKind-discrete = hlevel

instance abbrev pub knowledge_kind_eq : Eq KnowledgeKind
knowledge_kind_eq = record {
  beq = λ a b. test (KnowledgeKind-discrete a b);
  beq_iff = λ a b. test_iff (KnowledgeKind-discrete a b);
}

pub data KnowledgeStatus : Type 0 where
  active verified refuted : KnowledgeStatus

unfoldable pub KnowledgeStatus-discrete : Discrete KnowledgeStatus
KnowledgeStatus-discrete = hlevel

instance abbrev pub knowledge_status_eq : Eq KnowledgeStatus
knowledge_status_eq = record {
  beq = λ a b. test (KnowledgeStatus-discrete a b);
  beq_iff = λ a b. test_iff (KnowledgeStatus-discrete a b);
}

pub data CrossPollinationKind : Type 0 where
  verified promising refuted open_item try_it : CrossPollinationKind

unfoldable pub CrossPollinationKind-discrete : Discrete CrossPollinationKind
CrossPollinationKind-discrete = hlevel

instance abbrev pub cross_pollination_kind_eq : Eq CrossPollinationKind
cross_pollination_kind_eq = record {
  beq = λ a b. test (CrossPollinationKind-discrete a b);
  beq_iff = λ a b. test_iff (CrossPollinationKind-discrete a b);
}

pub data CandidateLifecycle : Type 0 where
  proposed promising leading under_attack verification verified refuted : CandidateLifecycle

unfoldable pub CandidateLifecycle-discrete : Discrete CandidateLifecycle
CandidateLifecycle-discrete = hlevel

instance abbrev pub candidate_lifecycle_eq : Eq CandidateLifecycle
candidate_lifecycle_eq = record {
  beq = λ a b. test (CandidateLifecycle-discrete a b);
  beq_iff = λ a b. test_iff (CandidateLifecycle-discrete a b);
}

pub data VerificationKind : Type 0 where
  structured_evidence python_compile adversarial_check : VerificationKind

unfoldable pub VerificationKind-discrete : Discrete VerificationKind
VerificationKind-discrete = hlevel

instance abbrev pub verification_kind_eq : Eq VerificationKind
verification_kind_eq = record {
  beq = λ a b. test (VerificationKind-discrete a b);
  beq_iff = λ a b. test_iff (VerificationKind-discrete a b);
}

pub data VerificationStatus : Type 0 where
  passed failed inconclusive : VerificationStatus

unfoldable pub VerificationStatus-discrete : Discrete VerificationStatus
VerificationStatus-discrete = hlevel

instance abbrev pub verification_status_eq : Eq VerificationStatus
verification_status_eq = record {
  beq = λ a b. test (VerificationStatus-discrete a b);
  beq_iff = λ a b. test_iff (VerificationStatus-discrete a b);
}

pub data EngineeringStatus : Type 0 where
  created planning implementing testing reviewing repairing completed failed : EngineeringStatus

unfoldable pub EngineeringStatus-discrete : Discrete EngineeringStatus
EngineeringStatus-discrete = hlevel

instance abbrev pub engineering_status_eq : Eq EngineeringStatus
engineering_status_eq = record {
  beq = λ a b. test (EngineeringStatus-discrete a b);
  beq_iff = λ a b. test_iff (EngineeringStatus-discrete a b);
}

pub data EngineeringStage : Type 0 where
  plan implementation repair review : EngineeringStage

unfoldable pub EngineeringStage-discrete : Discrete EngineeringStage
EngineeringStage-discrete = hlevel

instance abbrev pub engineering_stage_eq : Eq EngineeringStage
engineering_stage_eq = record {
  beq = λ a b. test (EngineeringStage-discrete a b);
  beq_iff = λ a b. test_iff (EngineeringStage-discrete a b);
}

pub data JobType : Type 0 where
  create_generation run_research_agent start_judging run_judge run_critic finalize_run
        engineering_plan engineering_implement engineering_test engineering_review
        engineering_repair :
      JobType

unfoldable pub JobType-discrete : Discrete JobType
JobType-discrete = hlevel

instance abbrev pub job_type_eq : Eq JobType
job_type_eq = record {
  beq = λ a b. test (JobType-discrete a b);
  beq_iff = λ a b. test_iff (JobType-discrete a b);
}

pub data JobStatus : Type 0 where
  pending running retry completed failed : JobStatus

unfoldable pub JobStatus-discrete : Discrete JobStatus
JobStatus-discrete = hlevel

instance abbrev pub job_status_eq : Eq JobStatus
job_status_eq = record {
  beq = λ a b. test (JobStatus-discrete a b);
  beq_iff = λ a b. test_iff (JobStatus-discrete a b);
}

pub data ModelCallStatus : Type 0 where
  pending running completed failed : ModelCallStatus

unfoldable pub ModelCallStatus-discrete : Discrete ModelCallStatus
ModelCallStatus-discrete = hlevel

instance abbrev pub model_call_status_eq : Eq ModelCallStatus
model_call_status_eq = record {
  beq = λ a b. test (ModelCallStatus-discrete a b);
  beq_iff = λ a b. test_iff (ModelCallStatus-discrete a b);
}

pub data RunEventType : Type 0 where
  run_created run_started generation_created agent_spawned agent_started agent_completed
        agent_failed judging_started evaluation_completed diversity_analyzed redundancy_detected
        selection_completed branch_selected branch_eliminated wildcard_selected agent_cloned
        fresh_agent_injected knowledge_created knowledge_compacted cross_pollination_created
        critic_started critic_completed candidate_status_changed verification_started
        verification_passed verification_failed verification_inconclusive routing_decision
        generation_advanced run_completed run_failed engineering_stage_changed
        engineering_check_completed :
      RunEventType
