-- ===== src/Persistence.antt =====
-- packages/persistence: the tables, the mappers and the SQL repositories.
pub mod Columns
pub mod Sql
pub mod Projects
pub mod Agents
pub mod Submissions
pub mod Evaluations
pub mod Findings
pub mod Pipeline
pub mod Models
pub mod Refinement
pub mod Listed
pub mod Kept
pub mod Observations
pub mod Events
pub mod Pages
mod Examples
