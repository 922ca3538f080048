-- ===== src/Persistence/Columns.antt =====
-- Columns that keep the value of an enumeration of packages/core/domain/models.py, and how the
-- mappers of packages/persistence/mappers.py read them back.
use agent_coordination.RunLifecycle.{status_value as run_status_value}
use agent_coordination.Engineering.Runs.{status_value as engineering_status_value}
use agent_coordination.Prelude.{
  List, String, [], if◌then◌else◌, nat_eq, refl, string_eq, ◌==◌, ◌∷◌, ◌≡◌,
}
use agent_coordination.Errors.{Result, err, ok, value_error}
use agent_coordination.Domain.Data.{word}
use agent_coordination.Domain.Enums.{
  AgentOrigin, AgentStatus, CandidateLifecycle, CrossPollinationKind, EngineeringStage,
  EngineeringStatus, KnowledgeKind, KnowledgeStatus, ModelCallStatus, MutationType, ResearchNiche,
  RunStatus, SelectionKind, VerificationKind, VerificationStatus,
}
use agent_coordination.Domain.Values.{
  agent_status_members, agent_status_value, call_status_members, call_status_value,
  candidate_members, candidate_value, knowledge_kind_members, knowledge_kind_value,
  knowledge_status_members, knowledge_status_value, mutation_members, mutation_value, niche_members,
  niche_value, origin_members, origin_value, packet_kind_members, packet_kind_value,
  selection_kind_members, selection_kind_value, stage_members, stage_value,
  verification_kind_members, verification_kind_value, verification_status_members,
  verification_status_value,
}

-- `X(value)`: the member with the value, or a ValueError.
unfoldable pub from_value : {A : Type 0} → String → (A → String) → List A → String → Result A
from_value name value [] s = err (value_error (word s ∷ word " is not a valid " ∷ word name ∷ []))
from_value name value (m ∷ ms) s = if value m == s then ok m else from_value name value ms s

abbrev pub run_status_members : List RunStatus
run_status_members =
    RunStatus.created ∷ RunStatus.researching ∷ RunStatus.judging ∷ RunStatus.completed
    ∷ RunStatus.paused ∷ RunStatus.failed ∷ []

-- `RunStatus(value)`
unfoldable pub run_status_of : String → Result RunStatus
unfolding from_value
run_status_of = from_value "RunStatus" run_status_value run_status_members

pub run_status_of_value : (x : RunStatus) → run_status_of (run_status_value x) ≡ ok x
unfolding run_status_of
run_status_of_value RunStatus.created = refl
run_status_of_value RunStatus.researching = refl
run_status_of_value RunStatus.judging = refl
run_status_of_value RunStatus.completed = refl
run_status_of_value RunStatus.paused = refl
run_status_of_value RunStatus.failed = refl

-- `AgentStatus(value)`
unfoldable pub agent_status_of : String → Result AgentStatus
unfolding from_value
agent_status_of = from_value "AgentStatus" agent_status_value agent_status_members

pub agent_status_of_value : (x : AgentStatus) → agent_status_of (agent_status_value x) ≡ ok x
unfolding agent_status_of
agent_status_of_value AgentStatus.pending = refl
agent_status_of_value AgentStatus.running = refl
agent_status_of_value AgentStatus.completed = refl
agent_status_of_value AgentStatus.failed = refl

-- `AgentOrigin(value)`
unfoldable pub origin_of : String → Result AgentOrigin
unfolding from_value
origin_of = from_value "AgentOrigin" origin_value origin_members

pub origin_of_value : (x : AgentOrigin) → origin_of (origin_value x) ≡ ok x
unfolding origin_of
origin_of_value AgentOrigin.initial = refl
origin_of_value AgentOrigin.cloned = refl
origin_of_value AgentOrigin.fresh = refl

-- `ResearchNiche(value)`
unfoldable pub niche_of : String → Result ResearchNiche
unfolding from_value
niche_of = from_value "ResearchNiche" niche_value niche_members

pub niche_of_value : (x : ResearchNiche) → niche_of (niche_value x) ≡ ok x
unfolding niche_of
niche_of_value ResearchNiche.constructive = refl
niche_of_value ResearchNiche.skeptical = refl
niche_of_value ResearchNiche.counterexample = refl
niche_of_value ResearchNiche.computational = refl
niche_of_value ResearchNiche.special_cases = refl
niche_of_value ResearchNiche.generalization = refl
niche_of_value ResearchNiche.alternative_formulation = refl
niche_of_value ResearchNiche.lemma_decomposition = refl

-- `MutationType(value)`
unfoldable pub mutation_of : String → Result MutationType
unfolding from_value
mutation_of = from_value "MutationType" mutation_value mutation_members

pub mutation_of_value : (x : MutationType) → mutation_of (mutation_value x) ≡ ok x
unfolding mutation_of
mutation_of_value MutationType.strengthen = refl
mutation_of_value MutationType.falsify = refl
mutation_of_value MutationType.rederive = refl
mutation_of_value MutationType.generalize = refl

-- `SelectionKind(value)`
unfoldable pub selection_kind_of : String → Result SelectionKind
unfolding from_value
selection_kind_of = from_value "SelectionKind" selection_kind_value selection_kind_members

pub selection_kind_of_value :
    (x : SelectionKind) → selection_kind_of (selection_kind_value x) ≡ ok x
unfolding selection_kind_of
selection_kind_of_value SelectionKind.elite = refl
selection_kind_of_value SelectionKind.novelty = refl
selection_kind_of_value SelectionKind.wildcard = refl
selection_kind_of_value SelectionKind.quality = refl
selection_kind_of_value SelectionKind.redundant = refl
selection_kind_of_value SelectionKind.eliminated = refl

-- `KnowledgeKind(value)`
unfoldable pub knowledge_kind_of : String → Result KnowledgeKind
unfolding from_value
knowledge_kind_of = from_value "KnowledgeKind" knowledge_kind_value knowledge_kind_members

pub knowledge_kind_of_value :
    (x : KnowledgeKind) → knowledge_kind_of (knowledge_kind_value x) ≡ ok x
unfolding knowledge_kind_of
knowledge_kind_of_value KnowledgeKind.verified_fact = refl
knowledge_kind_of_value KnowledgeKind.likely_fact = refl
knowledge_kind_of_value KnowledgeKind.hypothesis = refl
knowledge_kind_of_value KnowledgeKind.candidate_lemma = refl
knowledge_kind_of_value KnowledgeKind.counterexample = refl
knowledge_kind_of_value KnowledgeKind.contradiction = refl
knowledge_kind_of_value KnowledgeKind.failed_approach = refl
knowledge_kind_of_value KnowledgeKind.promising_approach = refl
knowledge_kind_of_value KnowledgeKind.unresolved_question = refl
knowledge_kind_of_value KnowledgeKind.observation = refl
knowledge_kind_of_value KnowledgeKind.candidate_solution = refl

-- `KnowledgeStatus(value)`
unfoldable pub knowledge_status_of : String → Result KnowledgeStatus
unfolding from_value
knowledge_status_of = from_value "KnowledgeStatus" knowledge_status_value knowledge_status_members

pub knowledge_status_of_value :
    (x : KnowledgeStatus) → knowledge_status_of (knowledge_status_value x) ≡ ok x
unfolding knowledge_status_of
knowledge_status_of_value KnowledgeStatus.active = refl
knowledge_status_of_value KnowledgeStatus.verified = refl
knowledge_status_of_value KnowledgeStatus.refuted = refl

-- `CrossPollinationKind(value)`
unfoldable pub packet_kind_of : String → Result CrossPollinationKind
unfolding from_value
packet_kind_of = from_value "CrossPollinationKind" packet_kind_value packet_kind_members

pub packet_kind_of_value : (x : CrossPollinationKind) → packet_kind_of (packet_kind_value x) ≡ ok x
unfolding packet_kind_of
packet_kind_of_value CrossPollinationKind.verified = refl
packet_kind_of_value CrossPollinationKind.promising = refl
packet_kind_of_value CrossPollinationKind.refuted = refl
packet_kind_of_value CrossPollinationKind.open_item = refl
packet_kind_of_value CrossPollinationKind.try_it = refl

-- `CandidateLifecycle(value)`
unfoldable pub candidate_of : String → Result CandidateLifecycle
unfolding from_value
candidate_of = from_value "CandidateLifecycle" candidate_value candidate_members

pub candidate_of_value : (x : CandidateLifecycle) → candidate_of (candidate_value x) ≡ ok x
unfolding candidate_of
candidate_of_value CandidateLifecycle.proposed = refl
candidate_of_value CandidateLifecycle.promising = refl
candidate_of_value CandidateLifecycle.leading = refl
candidate_of_value CandidateLifecycle.under_attack = refl
candidate_of_value CandidateLifecycle.verification = refl
candidate_of_value CandidateLifecycle.verified = refl
candidate_of_value CandidateLifecycle.refuted = refl

-- `VerificationKind(value)`
unfoldable pub verification_kind_of : String → Result VerificationKind
unfolding from_value
verification_kind_of =
    from_value "VerificationKind" verification_kind_value verification_kind_members

pub verification_kind_of_value :
    (x : VerificationKind) → verification_kind_of (verification_kind_value x) ≡ ok x
unfolding verification_kind_of
verification_kind_of_value VerificationKind.structured_evidence = refl
verification_kind_of_value VerificationKind.python_compile = refl
verification_kind_of_value VerificationKind.adversarial_check = refl

-- `VerificationStatus(value)`
unfoldable pub verification_status_of : String → Result VerificationStatus
unfolding from_value
verification_status_of =
    from_value "VerificationStatus" verification_status_value verification_status_members

pub verification_status_of_value :
    (x : VerificationStatus) → verification_status_of (verification_status_value x) ≡ ok x
unfolding verification_status_of
verification_status_of_value VerificationStatus.passed = refl
verification_status_of_value VerificationStatus.failed = refl
verification_status_of_value VerificationStatus.inconclusive = refl

abbrev pub engineering_status_members : List EngineeringStatus
engineering_status_members =
    EngineeringStatus.created ∷ EngineeringStatus.planning ∷ EngineeringStatus.implementing
    ∷ EngineeringStatus.testing ∷ EngineeringStatus.reviewing ∷ EngineeringStatus.repairing
    ∷ EngineeringStatus.completed ∷ EngineeringStatus.failed ∷ []

-- `EngineeringStatus(value)`
unfoldable pub engineering_status_of : String → Result EngineeringStatus
unfolding from_value
engineering_status_of =
    from_value "EngineeringStatus" engineering_status_value engineering_status_members

pub engineering_status_of_value :
    (x : EngineeringStatus) → engineering_status_of (engineering_status_value x) ≡ ok x
unfolding engineering_status_of
engineering_status_of_value EngineeringStatus.created = refl
engineering_status_of_value EngineeringStatus.planning = refl
engineering_status_of_value EngineeringStatus.implementing = refl
engineering_status_of_value EngineeringStatus.testing = refl
engineering_status_of_value EngineeringStatus.reviewing = refl
engineering_status_of_value EngineeringStatus.repairing = refl
engineering_status_of_value EngineeringStatus.completed = refl
engineering_status_of_value EngineeringStatus.failed = refl

-- `EngineeringStage(value)`
unfoldable pub stage_of : String → Result EngineeringStage
unfolding from_value
stage_of = from_value "EngineeringStage" stage_value stage_members

pub stage_of_value : (x : EngineeringStage) → stage_of (stage_value x) ≡ ok x
unfolding stage_of
stage_of_value EngineeringStage.plan = refl
stage_of_value EngineeringStage.implementation = refl
stage_of_value EngineeringStage.repair = refl
stage_of_value EngineeringStage.review = refl

-- `ModelCallStatus(value)`
unfoldable pub call_status_of : String → Result ModelCallStatus
unfolding from_value
call_status_of = from_value "ModelCallStatus" call_status_value call_status_members

pub call_status_of_value : (x : ModelCallStatus) → call_status_of (call_status_value x) ≡ ok x
unfolding call_status_of
call_status_of_value ModelCallStatus.pending = refl
call_status_of_value ModelCallStatus.running = refl
call_status_of_value ModelCallStatus.completed = refl
call_status_of_value ModelCallStatus.failed = refl
