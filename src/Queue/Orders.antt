-- ===== src/Queue/Orders.antt =====
-- The jobs that an orchestrator enqueues once its transaction is committed: its calls of
-- `queue.enqueue`, of packages/persistence/jobs.py, with the default `max_attempts`.
use agent_coordination.Prelude.{List, [], arith, none, refl, suc, ℕ, ◌∷◌, ◌≡◌}
use agent_coordination.Domain.Data.{Fields, Format}
use agent_coordination.Domain.Enums.{JobType}
use agent_coordination.Errors.{Result, ok, ◌>>=◌}
use agent_coordination.Queue.{enqueue}
use agent_coordination.Queue.Rows.{JobRecord}
use agent_coordination.Queue.Enqueue.{enqueue_idempotent}

-- The arguments of one `queue.enqueue`.
pub record Order : Type 0 where
  pub job_type : JobType
  pub payload : Fields
  pub key : Format

-- The clock at a call, and the fresh `uuid4()`s that it draws.
pub record Draws : Type 0 where
  pub now : ℕ
  pub ids : ℕ → ℕ

-- `drawn` of the fresh ids are used up.
unfoldable pub enqueue_all : Draws → ℕ → List Order → List JobRecord → Result (List JobRecord)
unfolding enqueue
enqueue_all draws drawn [] jobs = ok jobs
enqueue_all draws drawn (o ∷ rest) jobs =
    enqueue (draws.ids drawn) draws.now o.job_type o.payload o.key 3 none jobs >>= λ written.
    enqueue_all draws (suc drawn) rest written.1

-- `enqueue` raises only when it is given no attempt, and here it is given three.
pub enqueue_all_returns :
    (draws : Draws) (drawn : ℕ) (orders : List Order) (jobs : List JobRecord)
    → (after : List JobRecord) × (enqueue_all draws drawn orders jobs ≡ ok after)
unfolding enqueue_all
enqueue_all_returns draws drawn [] jobs = (jobs, refl)
enqueue_all_returns draws drawn (o ∷ rest) jobs =
    let (job, after, e, key, again) =
      enqueue_idempotent (draws.ids drawn) 0 draws.now 0 o.job_type o.job_type o.payload o.payload
        o.key 3 3 none none jobs (omega arith) (omega arith) in
    let (final, h) = enqueue_all_returns draws (suc drawn) rest after in
    (final, rw (e, enqueue_all) h)
