-- ===== src/Domain/Values.antt =====
-- The values of the StrEnums of packages/core/domain/models.py, which the database and JSON keep,
-- and `X(value)`, which finds the member with a value or raises a ValueError.
use agent_coordination.Prelude.{List, String, [], ◌∷◌}
use agent_coordination.Domain.Enums.{
  AgentOrigin, AgentStatus, CandidateLifecycle, CrossPollinationKind, EngineeringStage, JobStatus,
  JobType, KnowledgeKind, KnowledgeStatus, ModelCallStatus, MutationType, ResearchNiche,
  RunEventType, SelectionKind, VerificationKind, VerificationStatus,
}

abbrev pub agent_status_value : AgentStatus → String
agent_status_value AgentStatus.pending = "PENDING"
agent_status_value AgentStatus.running = "RUNNING"
agent_status_value AgentStatus.completed = "COMPLETED"
agent_status_value AgentStatus.failed = "FAILED"

abbrev pub agent_status_members : List AgentStatus
agent_status_members =
    AgentStatus.pending ∷ AgentStatus.running ∷ AgentStatus.completed ∷ AgentStatus.failed ∷ []

abbrev pub origin_value : AgentOrigin → String
origin_value AgentOrigin.initial = "INITIAL"
origin_value AgentOrigin.cloned = "CLONED"
origin_value AgentOrigin.fresh = "FRESH"

abbrev pub origin_members : List AgentOrigin
origin_members = AgentOrigin.initial ∷ AgentOrigin.cloned ∷ AgentOrigin.fresh ∷ []

abbrev pub niche_value : ResearchNiche → String
niche_value ResearchNiche.constructive = "CONSTRUCTIVE"
niche_value ResearchNiche.skeptical = "SKEPTICAL"
niche_value ResearchNiche.counterexample = "COUNTEREXAMPLE"
niche_value ResearchNiche.computational = "COMPUTATIONAL"
niche_value ResearchNiche.special_cases = "SPECIAL_CASES"
niche_value ResearchNiche.generalization = "GENERALIZATION"
niche_value ResearchNiche.alternative_formulation = "ALTERNATIVE_FORMULATION"
niche_value ResearchNiche.lemma_decomposition = "LEMMA_DECOMPOSITION"

abbrev pub niche_members : List ResearchNiche
niche_members =
    ResearchNiche.constructive ∷ ResearchNiche.skeptical ∷ ResearchNiche.counterexample
    ∷ ResearchNiche.computational ∷ ResearchNiche.special_cases ∷ ResearchNiche.generalization
    ∷ ResearchNiche.alternative_formulation ∷ ResearchNiche.lemma_decomposition ∷ []

abbrev pub mutation_value : MutationType → String
mutation_value MutationType.strengthen = "STRENGTHEN"
mutation_value MutationType.falsify = "FALSIFY"
mutation_value MutationType.rederive = "REDERIVE"
mutation_value MutationType.generalize = "GENERALIZE"

abbrev pub mutation_members : List MutationType
mutation_members =
    MutationType.strengthen ∷ MutationType.falsify ∷ MutationType.rederive ∷ MutationType.generalize
    ∷ []

abbrev pub selection_kind_value : SelectionKind → String
selection_kind_value SelectionKind.elite = "ELITE"
selection_kind_value SelectionKind.novelty = "NOVELTY"
selection_kind_value SelectionKind.wildcard = "WILDCARD"
selection_kind_value SelectionKind.quality = "QUALITY"
selection_kind_value SelectionKind.redundant = "REDUNDANT"
selection_kind_value SelectionKind.eliminated = "ELIMINATED"

abbrev pub selection_kind_members : List SelectionKind
selection_kind_members =
    SelectionKind.elite ∷ SelectionKind.novelty ∷ SelectionKind.wildcard ∷ SelectionKind.quality
    ∷ SelectionKind.redundant ∷ SelectionKind.eliminated ∷ []

abbrev pub knowledge_kind_value : KnowledgeKind → String
knowledge_kind_value KnowledgeKind.verified_fact = "VERIFIED_FACT"
knowledge_kind_value KnowledgeKind.likely_fact = "LIKELY_FACT"
knowledge_kind_value KnowledgeKind.hypothesis = "HYPOTHESIS"
knowledge_kind_value KnowledgeKind.candidate_lemma = "CANDIDATE_LEMMA"
knowledge_kind_value KnowledgeKind.counterexample = "COUNTEREXAMPLE"
knowledge_kind_value KnowledgeKind.contradiction = "CONTRADICTION"
knowledge_kind_value KnowledgeKind.failed_approach = "FAILED_APPROACH"
knowledge_kind_value KnowledgeKind.promising_approach = "PROMISING_APPROACH"
knowledge_kind_value KnowledgeKind.unresolved_question = "UNRESOLVED_QUESTION"
knowledge_kind_value KnowledgeKind.observation = "OBSERVATION"
knowledge_kind_value KnowledgeKind.candidate_solution = "CANDIDATE_SOLUTION"

abbrev pub knowledge_kind_members : List KnowledgeKind
knowledge_kind_members =
    KnowledgeKind.verified_fact ∷ KnowledgeKind.likely_fact ∷ KnowledgeKind.hypothesis
    ∷ KnowledgeKind.candidate_lemma ∷ KnowledgeKind.counterexample ∷ KnowledgeKind.contradiction
    ∷ KnowledgeKind.failed_approach ∷ KnowledgeKind.promising_approach
    ∷ KnowledgeKind.unresolved_question ∷ KnowledgeKind.observation
    ∷ KnowledgeKind.candidate_solution ∷ []

abbrev pub knowledge_status_value : KnowledgeStatus → String
knowledge_status_value KnowledgeStatus.active = "ACTIVE"
knowledge_status_value KnowledgeStatus.verified = "VERIFIED"
knowledge_status_value KnowledgeStatus.refuted = "REFUTED"

abbrev pub knowledge_status_members : List KnowledgeStatus
knowledge_status_members =
    KnowledgeStatus.active ∷ KnowledgeStatus.verified ∷ KnowledgeStatus.refuted ∷ []

abbrev pub packet_kind_value : CrossPollinationKind → String
packet_kind_value CrossPollinationKind.verified = "VERIFIED"
packet_kind_value CrossPollinationKind.promising = "PROMISING"
packet_kind_value CrossPollinationKind.refuted = "REFUTED"
packet_kind_value CrossPollinationKind.open_item = "OPEN"
packet_kind_value CrossPollinationKind.try_it = "TRY"

abbrev pub packet_kind_members : List CrossPollinationKind
packet_kind_members =
    CrossPollinationKind.verified ∷ CrossPollinationKind.promising ∷ CrossPollinationKind.refuted
    ∷ CrossPollinationKind.open_item ∷ CrossPollinationKind.try_it ∷ []

abbrev pub candidate_value : CandidateLifecycle → String
candidate_value CandidateLifecycle.proposed = "PROPOSED"
candidate_value CandidateLifecycle.promising = "PROMISING"
candidate_value CandidateLifecycle.leading = "LEADING"
candidate_value CandidateLifecycle.under_attack = "UNDER_ATTACK"
candidate_value CandidateLifecycle.verification = "VERIFICATION"
candidate_value CandidateLifecycle.verified = "VERIFIED"
candidate_value CandidateLifecycle.refuted = "REFUTED"

abbrev pub candidate_members : List CandidateLifecycle
candidate_members =
    CandidateLifecycle.proposed ∷ CandidateLifecycle.promising ∷ CandidateLifecycle.leading
    ∷ CandidateLifecycle.under_attack ∷ CandidateLifecycle.verification
    ∷ CandidateLifecycle.verified ∷ CandidateLifecycle.refuted ∷ []

abbrev pub verification_kind_value : VerificationKind → String
verification_kind_value VerificationKind.structured_evidence = "STRUCTURED_EVIDENCE"
verification_kind_value VerificationKind.python_compile = "PYTHON_COMPILE"
verification_kind_value VerificationKind.adversarial_check = "ADVERSARIAL_CHECK"

abbrev pub verification_kind_members : List VerificationKind
verification_kind_members =
    VerificationKind.structured_evidence ∷ VerificationKind.python_compile
    ∷ VerificationKind.adversarial_check ∷ []

abbrev pub verification_status_value : VerificationStatus → String
verification_status_value VerificationStatus.passed = "PASSED"
verification_status_value VerificationStatus.failed = "FAILED"
verification_status_value VerificationStatus.inconclusive = "INCONCLUSIVE"

abbrev pub verification_status_members : List VerificationStatus
verification_status_members =
    VerificationStatus.passed ∷ VerificationStatus.failed ∷ VerificationStatus.inconclusive ∷ []

abbrev pub stage_value : EngineeringStage → String
stage_value EngineeringStage.plan = "PLAN"
stage_value EngineeringStage.implementation = "IMPLEMENTATION"
stage_value EngineeringStage.repair = "REPAIR"
stage_value EngineeringStage.review = "REVIEW"

abbrev pub stage_members : List EngineeringStage
stage_members =
    EngineeringStage.plan ∷ EngineeringStage.implementation ∷ EngineeringStage.repair
    ∷ EngineeringStage.review ∷ []

abbrev pub job_type_value : JobType → String
job_type_value JobType.create_generation = "create_generation"
job_type_value JobType.run_research_agent = "run_research_agent"
job_type_value JobType.start_judging = "start_judging"
job_type_value JobType.run_judge = "run_judge"
job_type_value JobType.run_critic = "run_critic"
job_type_value JobType.finalize_run = "finalize_run"
job_type_value JobType.engineering_plan = "engineering_plan"
job_type_value JobType.engineering_implement = "engineering_implement"
job_type_value JobType.engineering_test = "engineering_test"
job_type_value JobType.engineering_review = "engineering_review"
job_type_value JobType.engineering_repair = "engineering_repair"

abbrev pub job_type_members : List JobType
job_type_members =
    JobType.create_generation ∷ JobType.run_research_agent ∷ JobType.start_judging
    ∷ JobType.run_judge ∷ JobType.run_critic ∷ JobType.finalize_run ∷ JobType.engineering_plan
    ∷ JobType.engineering_implement ∷ JobType.engineering_test ∷ JobType.engineering_review
    ∷ JobType.engineering_repair ∷ []

abbrev pub job_status_value : JobStatus → String
job_status_value JobStatus.pending = "PENDING"
job_status_value JobStatus.running = "RUNNING"
job_status_value JobStatus.retry = "RETRY"
job_status_value JobStatus.completed = "COMPLETED"
job_status_value JobStatus.failed = "FAILED"

abbrev pub job_status_members : List JobStatus
job_status_members =
    JobStatus.pending ∷ JobStatus.running ∷ JobStatus.retry ∷ JobStatus.completed ∷ JobStatus.failed
    ∷ []

abbrev pub call_status_value : ModelCallStatus → String
call_status_value ModelCallStatus.pending = "PENDING"
call_status_value ModelCallStatus.running = "RUNNING"
call_status_value ModelCallStatus.completed = "COMPLETED"
call_status_value ModelCallStatus.failed = "FAILED"

abbrev pub call_status_members : List ModelCallStatus
call_status_members =
    ModelCallStatus.pending ∷ ModelCallStatus.running ∷ ModelCallStatus.completed
    ∷ ModelCallStatus.failed ∷ []

abbrev pub event_value : RunEventType → String
event_value RunEventType.run_created = "RUN_CREATED"
event_value RunEventType.run_started = "RUN_STARTED"
event_value RunEventType.generation_created = "GENERATION_CREATED"
event_value RunEventType.agent_spawned = "AGENT_SPAWNED"
event_value RunEventType.agent_started = "AGENT_STARTED"
event_value RunEventType.agent_completed = "AGENT_COMPLETED"
event_value RunEventType.agent_failed = "AGENT_FAILED"
event_value RunEventType.judging_started = "JUDGING_STARTED"
event_value RunEventType.evaluation_completed = "EVALUATION_COMPLETED"
event_value RunEventType.diversity_analyzed = "DIVERSITY_ANALYZED"
event_value RunEventType.redundancy_detected = "REDUNDANCY_DETECTED"
event_value RunEventType.selection_completed = "SELECTION_COMPLETED"
event_value RunEventType.branch_selected = "BRANCH_SELECTED"
event_value RunEventType.branch_eliminated = "BRANCH_ELIMINATED"
event_value RunEventType.wildcard_selected = "WILDCARD_SELECTED"
event_value RunEventType.agent_cloned = "AGENT_CLONED"
event_value RunEventType.fresh_agent_injected = "FRESH_AGENT_INJECTED"
event_value RunEventType.knowledge_created = "KNOWLEDGE_CREATED"
event_value RunEventType.knowledge_compacted = "KNOWLEDGE_COMPACTED"
event_value RunEventType.cross_pollination_created = "CROSS_POLLINATION_CREATED"
event_value RunEventType.critic_started = "CRITIC_STARTED"
event_value RunEventType.critic_completed = "CRITIC_COMPLETED"
event_value RunEventType.candidate_status_changed = "CANDIDATE_STATUS_CHANGED"
event_value RunEventType.verification_started = "VERIFICATION_STARTED"
event_value RunEventType.verification_passed = "VERIFICATION_PASSED"
event_value RunEventType.verification_failed = "VERIFICATION_FAILED"
event_value RunEventType.verification_inconclusive = "VERIFICATION_INCONCLUSIVE"
event_value RunEventType.routing_decision = "ROUTING_DECISION"
event_value RunEventType.generation_advanced = "GENERATION_ADVANCED"
event_value RunEventType.run_completed = "RUN_COMPLETED"
event_value RunEventType.run_failed = "RUN_FAILED"
event_value RunEventType.engineering_stage_changed = "ENGINEERING_STAGE_CHANGED"
event_value RunEventType.engineering_check_completed = "ENGINEERING_CHECK_COMPLETED"

abbrev pub event_members : List RunEventType
event_members =
    RunEventType.run_created ∷ RunEventType.run_started ∷ RunEventType.generation_created
    ∷ RunEventType.agent_spawned ∷ RunEventType.agent_started ∷ RunEventType.agent_completed
    ∷ RunEventType.agent_failed ∷ RunEventType.judging_started ∷ RunEventType.evaluation_completed
    ∷ RunEventType.diversity_analyzed ∷ RunEventType.redundancy_detected
    ∷ RunEventType.selection_completed ∷ RunEventType.branch_selected
    ∷ RunEventType.branch_eliminated ∷ RunEventType.wildcard_selected ∷ RunEventType.agent_cloned
    ∷ RunEventType.fresh_agent_injected ∷ RunEventType.knowledge_created
    ∷ RunEventType.knowledge_compacted ∷ RunEventType.cross_pollination_created
    ∷ RunEventType.critic_started ∷ RunEventType.critic_completed
    ∷ RunEventType.candidate_status_changed ∷ RunEventType.verification_started
    ∷ RunEventType.verification_passed ∷ RunEventType.verification_failed
    ∷ RunEventType.verification_inconclusive ∷ RunEventType.routing_decision
    ∷ RunEventType.generation_advanced ∷ RunEventType.run_completed ∷ RunEventType.run_failed
    ∷ RunEventType.engineering_stage_changed ∷ RunEventType.engineering_check_completed ∷ []
