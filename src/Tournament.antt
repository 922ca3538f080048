-- ===== src/Tournament.antt =====
-- packages/core/orchestration/tournament.py: the orchestrator that takes a research run through its
-- generations. Each method is a transaction on the store, which returns the jobs that are enqueued
-- once it is committed; `carry_out` does both.
pub mod Cast
pub mod Queries
pub mod Failure
pub mod Start
pub mod Judging
pub mod Finish
pub mod Selecting
pub mod Critics
pub mod Decisions
pub mod Breeding
pub mod Advance
pub mod Stable
pub mod KeptStart
pub mod KeptCritics
pub mod KeptFinal
pub mod Methods
pub mod Evolution
pub mod Changes
pub mod Roles
pub mod Calls
pub mod Started
pub mod Ready
pub mod Scheduled
pub mod Failed
pub mod Bounds
mod Examples
