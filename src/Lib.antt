-- ===== src/Lib.antt =====
-- A verification library for Agent-coordination: a service that runs tournaments of research
-- agents over rounds of proposals, judging and selection, and a pipeline of agents that implement,
-- test, review and repair a program.
--
-- The parts, and the files that model them:
--
-- - packages/core/domain/models.py: Domain/Enums (the enumerations), Domain/Research and
--   Domain/Service (the dataclasses), Domain/Values (the texts of the enumerations), Domain/Data
--   (texts, f-strings, JSON) and Domain/Keys (their equality). A UUID is a number, a time a count
--   of seconds, an f-string the list of its pieces.
-- - packages/persistence/jobs.py, the durable queue that every other part hands its work to:
--   Queue, with the rows and clauses of its SQL statements in Queue/Rows. The table is the list of
--   its rows and each method is one transaction, a function of the worker, the clock and the
--   table. Queue/Orders has the jobs that an orchestrator enqueues. Queue/Invariant and
--   Queue/Steps hold the well-formedness of the table, Queue/Histories what any sequence of calls
--   keeps, Queue/Leases what a call leaves alone, Queue/Deliveries how often a job is handed out,
--   Queue/Outcomes, Queue/Enqueue and Queue/Delays what the methods return. Queue/Waiting says
--   which jobs may be handed out, without the clauses of the SQL statements.
-- - packages/core/orchestration/state_machine.py with RunSqlRepository.update_status of
--   packages/persistence/repositories.py: RunLifecycle, and its diagram in
--   RunLifecycle/Reachability.
-- - packages/core/orchestration/tournament_policy.py: Selection, with one file for each step of
--   TournamentPolicy.select: Similarity (_fingerprint, _jaccard), Ranking (_aggregate,
--   _quality_key, _diversity_signals), Slots (the survivor slots), Policy (select). SlotLaws,
--   FillLaws, Viable, Survivors, Elite and Accepted carry the proofs of Selection/Outcomes.
--   Python's floats are the record of Floats, of which only the order of `<=` is assumed and that
--   its bits determine it.
-- - packages/core/ports/repositories.py: Store, the tables of entities that a unit of work reads
--   and writes, with the monad of a transaction. Store/Rows has the SQL statements,
--   Store/Repositories the repositories that the tournament uses, and Store/Effects what a
--   transaction may do.
-- - packages/core/orchestration/tournament.py: Tournament, a method being a transaction on the
--   store and then the jobs that it enqueues (Tournament/Methods). Cast has the agents and jobs,
--   Queries what is looked up, Start start_run, Judging maybe_schedule_judging and start_judging,
--   Critics maybe_schedule_finalize, Failure fail_run, and Selecting, Finish, Decisions, Breeding
--   and Advance finalize_run. Stable says what the writes of a method may be, KeptStart,
--   KeptCritics and KeptFinal that each step only makes such writes, and Evolution, Changes and
--   Bounds what follows for the tables. Roles is about agents that are found by their roles; Calls,
--   Started, Ready, Scheduled and Failed are about methods that run through, by the rules of
--   Store/Returns.
-- - packages/persistence/models.py, mappers.py and repositories.py: Persistence, with the SQL
--   statements in Persistence/Sql, the enumerated columns in Columns, and the tables in Projects,
--   Agents, Submissions, Evaluations, Findings, Pipeline, Models and Events. Refinement relates
--   them to Store, Listed and Kept say what queries find and what the repository of agents keeps,
--   Pages is about reading the log of a run, Observations about the running
--   averages of a model.
-- - packages/core/verification/engine.py: Verification; Verification/Fences is the regular
--   expression for fenced blocks, with the texts in which it finds given blocks in Fences/Found,
--   Verdicts and Gate what the verdicts mean.
-- - packages/core/engineering/orchestration.py with EngineeringRunSqlRepository: Engineering,
--   Engineering/Orders (the jobs) and Engineering/Runs (the table). A method is a transaction on
--   the runs and then the jobs that it enqueues, in the model of the queue. Engineering/Moves is
--   the state machine, Engineering/Histories what any sequence of calls and interrupted calls
--   keeps, Engineering/Progress how many changes a run has left, and Engineering/Retries what a
--   repeated call does for an interrupted one.
-- - packages/core/research/memory.py: Memory, with the loop of build_memory_packet in
--   Memory/Gather, the order of a packet in Memory/Order, its packets in Memory/Packets and extract_knowledge in Memory/Extraction.
-- - packages/core/routing/adaptive.py: Routing, with what it chooses in Routing/Choice.
-- - packages/core/engineering/testing.py: Testing, with the paths in Testing/Paths and the verdict
--   of all checks in Testing/Verdict.
-- - packages/core/structured_outputs.py, the answers of a judge: Outputs, with what an accepted
--   answer covers in Outputs/Judged.
--
-- Prelude and Errors are shared by all: decisions, lists, tables, sorting and the exceptions that
-- the code raises, as values. The Examples files run the code on small inputs.
--
-- The only fuel is that of the search for fenced blocks: the length of the text, since each step
-- of the search drops a character of it. Fences/Fuel proves that more fuel finds the same blocks.
--
-- Parameters stand for what the code takes from elsewhere: the Python compiler (`syntax_error`),
-- the JSON parser, validation by pydantic, `str.lower`, sha256, floating-point arithmetic, fresh
-- UUIDs, the clock, and the rows that other database transactions hold locked.
--
-- Transactions run one after another, so that the lookups before a write meet the unique
-- constraints. Ids that the policy's decisions draw are numbered by the place of their submission.
-- A float in JSON is kept by its bits. The column `updated_at` is left out, since nothing reads
-- it.
--
-- Not modelled: the HTTP and worker services, the model providers and prompts, database migrations
-- and sessions, the baseline orchestrator and the web client.
pub mod Prelude
pub mod Domain
pub mod Errors
pub mod RunLifecycle
pub mod Queue
pub mod Verification
pub mod Floats
pub mod Selection
pub mod Store
pub mod Persistence
pub mod Tournament
pub mod Engineering
pub mod Memory
pub mod Routing
pub mod Testing
pub mod Outputs
