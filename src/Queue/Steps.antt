-- ===== src/Queue/Steps.antt =====
-- The queue as a transition system: one step is a method call that returns, made by a worker at a
-- time, on the table that the calls before it left. PostgreSQL runs the transactions in some order.
use agent_coordination.Prelude.{Bool, List, Option, String, subst, ℕ, ◌≡◌}
use agent_coordination.Errors.{ok}
use agent_coordination.Domain.Data.{Fields, Format}
use agent_coordination.Domain.Enums.{JobType}
use agent_coordination.Domain.Service.{Job}
use agent_coordination.Queue.Rows.{Delay, JobRecord}
use agent_coordination.Queue.Invariant.{IsFresh, TableOk, enqueue-TableOk}
use agent_coordination.Queue.Claims.{claim_next-TableOk}
use agent_coordination.Queue.Results.{complete-TableOk, fail-TableOk, heartbeat-TableOk}
use agent_coordination.Queue

pub data Step (worker : String) (now : ℕ) (table after : List JobRecord) : Type 0 where
  enqueues :
      (id : ℕ) (job_type : JobType) (payload : Fields) (key : Format) (max_attempts : ℕ)
      (available_at : Option ℕ) (job : Job)
      → IsFresh id table
      → Queue.enqueue id now job_type payload key max_attempts available_at table ≡ ok (job, after)
      → Step worker now table after
  claims :
      (lease_seconds : ℕ) (locked : ℕ → Bool) (result : Option Job)
      → Queue.claim_next worker now lease_seconds locked table ≡ ok (result, after)
      → Step worker now table after
  beats :
      (job_id lease_seconds : ℕ) (held : Bool)
      → Queue.heartbeat worker now job_id lease_seconds table ≡ ok (held, after)
      → Step worker now table after
  completes :
      (job_id : ℕ)
      → (Queue.complete worker now job_id table).1 ≡ after
      → Step worker now table after
  fails :
      (job_id : ℕ) (error : String) (delay : Option Delay) (job : Job)
      → Queue.fail worker now job_id error delay table ≡ ok (job, after)
      → Step worker now table after

pub Step-TableOk :
    {worker : String} {now : ℕ} {table after : List JobRecord}
    → Step worker now table after
    → TableOk table
    → TableOk after
Step-TableOk {now = now} {table = table} {after = after}
      (enqueues id job_type payload key max_attempts available_at job unseen e) h =
    enqueue-TableOk id now job_type payload key max_attempts available_at table after job unseen h e
Step-TableOk {worker} {now} {table} {after} (claims lease_seconds locked result e) h =
    claim_next-TableOk worker now lease_seconds locked table after result h e
Step-TableOk {worker} {now} {table} {after} (beats job_id lease_seconds held e) h =
    heartbeat-TableOk worker now job_id table after lease_seconds held h e
Step-TableOk {worker} {now} {table} {after} (completes job_id e) h =
    subst TableOk e (complete-TableOk worker now job_id table after h)
Step-TableOk {worker} {now} {table} {after} (fails job_id error delay job e) h =
    fail-TableOk worker now job_id table after error delay job h e
