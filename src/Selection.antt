-- ===== src/Selection.antt =====
-- packages/core/orchestration/tournament_policy.py: how the survivors of a generation are chosen.
pub mod Similarity
pub mod Ranking
pub mod Slots
pub mod SlotLaws
pub mod FillLaws
pub mod Policy
pub mod Viable
pub mod Survivors
pub mod Accepted
pub mod Elite
pub mod Outcomes
mod Examples
