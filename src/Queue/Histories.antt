-- ===== src/Queue/Histories.antt =====
-- What holds of the queue after any sequence of calls.
use agent_coordination.Prelude.{All-at, List, Member, arith, refl, subst, ℕ, ◌≡◌, ◌≤◌}
use agent_coordination.Queue.Rows.{JobRecord}
use agent_coordination.Queue.Invariant.{RowOk, Spent, TableOk}
use agent_coordination.Queue.Deliveries.{
  Counted, History, beats, begin, claim_next-Counted, claims, complete-Counted, completes, count,
  enqueue-Counted, enqueues, fail-Counted, fails, heartbeat-Counted,
}
use agent_coordination.Queue.Steps.{Step, Step-TableOk}

-- After any sequence of enqueues, claims, heartbeats, completions and failures by any workers at any
-- times, whose new ids are fresh, the table is well-formed: ids are distinct, a job has a claimant, a
-- claim time and a lease exactly while it runs, an end time exactly when it is completed or failed,
-- and it has used no attempt while pending, fewer than its maximum while it waits for a retry, at
-- least one and at most its maximum while it runs or once it is completed, and all when it failed.
pub History-TableOk : {table : List JobRecord} {log : List ℕ} → History table log → TableOk table
History-TableOk begin = record { rows = tt; ids = tt }
History-TableOk (claims worker now lease_seconds locked result past e) =
    Step-TableOk {worker = worker} {now = now} (Step.claims lease_seconds locked result e)
      (History-TableOk past)
History-TableOk (enqueues id now job_type payload key max_attempts available_at job past unseen e) =
    Step-TableOk {worker = ""} {now = now}
      (Step.enqueues id job_type payload key max_attempts available_at job unseen e)
      (History-TableOk past)
History-TableOk (beats worker now job_id lease_seconds held past e) =
    Step-TableOk {worker = worker} {now = now} (Step.beats job_id lease_seconds held e)
      (History-TableOk past)
History-TableOk (completes worker now job_id past e) =
    Step-TableOk {worker = worker} {now = now} (Step.completes job_id e) (History-TableOk past)
History-TableOk (fails worker now job_id error delay job past e) =
    Step-TableOk {worker = worker} {now = now} (Step.fails job_id error delay job e)
      (History-TableOk past)

History-Counted : {table : List JobRecord} {log : List ℕ} → History table log → Counted table log
History-Counted begin = record { attempts = tt; known = λ id _. refl }
History-Counted
      (claims {table = table} {after = after} {log = log} worker now lease_seconds locked result
        past e) =
    claim_next-Counted worker now lease_seconds locked result table after log e
      (History-Counted past)
History-Counted
      (enqueues {table = table} {after = after} {log = log} id now job_type payload key max_attempts
        available_at job past unseen e) =
    enqueue-Counted id now job_type payload key max_attempts available_at job table after log unseen
      e (History-Counted past)
History-Counted
      (beats {table = table} {after = after} {log = log} worker now job_id lease_seconds held past
        e) =
    heartbeat-Counted worker now job_id lease_seconds held table after log e (History-Counted past)
History-Counted (completes {table = table} {log = log} worker now job_id past e) =
    subst (λ t. Counted t log) e
      (complete-Counted worker now job_id table log (History-Counted past))
History-Counted
      (fails {table = table} {after = after} {log = log} worker now job_id error delay job past e) =
    fail-Counted worker now job_id error delay job table after log e (History-TableOk past)
      (History-Counted past)

Spent-le : (r : JobRecord) → Spent r.status r.attempt r.max_attempts → r.attempt ≤ r.max_attempts
Spent-le r h = ground arith

-- After any sequence of calls, the number of times that `claim_next` handed a job to a worker is the
-- attempt count of its row, and is at most the job's maximum: crashes and lost leases included, no
-- job is run more often than `max_attempts` allows.
pub History_bounds :
    {table : List JobRecord} {log : List ℕ} (r : JobRecord)
    → History table log
    → Member r table
    → (count r.id log ≡ r.attempt) × (count r.id log ≤ r.max_attempts)
History_bounds {table} {log} r past m =
    let counts = All-at (λ x. count x.id log ≡ x.attempt) m (History-Counted past).attempts in
    let row = All-at RowOk m (History-TableOk past).rows in
    (counts, omega (arith, counts, Spent-le r row.spent))
