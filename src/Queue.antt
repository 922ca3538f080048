-- ===== src/Queue.antt =====
-- packages/persistence/jobs.py, the durable job queue. The jobs table is the list of its rows, and
-- each method is one transaction: a function from the table, the worker's name and the clock, read
-- once at its start, to the new table and the method's result.
pub mod Rows
mod Earliest
pub mod Invariant
pub mod Claims
pub mod Results
pub mod Steps
pub mod Leases
pub mod Delays
pub mod Enqueue
pub mod Deliveries
pub mod Orders
pub mod Histories
pub mod Waiting
pub mod Outcomes
mod Examples
use agent_coordination.Prelude.{
  ℕ, zero, suc, ◌+◌, ◌-◌, ◌*◌, ◌^◌, min, String, Bool, true, false, not, ◌&&◌, ◌||◌, List, [], ◌∷◌,
  ◌++◌, Option, none, some, ◌==◌, nat_eq, string_eq, ltb, leb, if◌then◌else◌, update_where,
  count_where, keep_if, find_row,
}
use agent_coordination.Errors.{Result, ok, err, key_error, value_error, runtime_error}
use agent_coordination.Domain.Data.{Format, Fields, word, ident}
use agent_coordination.Domain.Keys.{format_beq}
use agent_coordination.Domain.Enums.{
  JobType, JobStatus, pending, running, retry, completed, failed, job_status_eq, JobStatus-discrete,
}
use agent_coordination.Domain.Service.{Job}
use agent_coordination.Queue.Rows.{
  JobRecord, job_from_record, is_expired, exhausted, fail_expired, retry_expired, is_claimable,
  is_free, earliest, claim, owns, Delay, seconds, negative, row_id,
}

unfoldable pub retry_delay_seconds : ℕ → ℕ → ℕ → ℕ
retry_delay_seconds zero base_seconds max_seconds = 0
retry_delay_seconds (suc n) base_seconds max_seconds = min (base_seconds * 2 ^ n) max_seconds

-- The row with the key, which the table's unique constraint makes the only one.
unfoldable pub find_key : Format → List JobRecord → Option JobRecord
find_key key [] = none
find_key key (r ∷ rs) = if format_beq r.idempotency_key key then some r else find_key key rs

-- INSERT ... ON CONFLICT (idempotency_key) DO NOTHING
unfoldable pub insert_job : JobRecord → List JobRecord → List JobRecord
unfolding find_key
insert_job r table = elim (find_key r.idempotency_key table) [
  | none ↦ table ++ r ∷ []
  | some _ ↦ table
]

unfoldable pub new_record : ℕ → ℕ → JobType → Fields → Format → ℕ → Option ℕ → JobRecord
new_record id now job_type payload key max_attempts available_at = record {
  id = id;
  job_type = job_type;
  payload = payload;
  status = pending;
  idempotency_key = key;
  attempt = 0;
  max_attempts = max_attempts;
  available_at = elim available_at [ none ↦ now | some t ↦ t ];
  claimed_at = none;
  lease_expires_at = none;
  claimed_by = none;
  last_error = none;
  completed_at = none;
  created_at = now;
}

-- `id` is the fresh `uuid4()`.
unfoldable pub enqueue :
    ℕ
    → ℕ
    → JobType
    → Fields
    → Format
    → ℕ
    → Option ℕ
    → List JobRecord
    → Result (Job × List JobRecord)
unfolding insert_job new_record
enqueue id now job_type payload key max_attempts available_at table =
    if leb max_attempts 0
    then err (value_error (word "max_attempts must be positive" ∷ []))
    else let r = new_record id now job_type payload key max_attempts available_at in
      let after = insert_job r table in
      elim (find_key key after) [
        | none ↦ err (runtime_error (word "No row was found when one was required" ∷ []))
        | some found ↦ ok (job_from_record found, after)
      ]

unfoldable pub requeue_expired_leases : ℕ → List JobRecord → List JobRecord
unfolding is_expired exhausted fail_expired retry_expired
requeue_expired_leases now table =
    update_where (λ r. is_expired now r && not (exhausted r)) (retry_expired now)
      (update_where (λ r. is_expired now r && exhausted r) (fail_expired now) table)

-- `locked` says which rows other transactions hold: SKIP LOCKED passes over them.
unfoldable pub claim_next :
    (worker : String) (now lease_seconds : ℕ) (locked : ℕ → Bool)
    → List JobRecord
    → Result (Option Job × List JobRecord)
unfolding requeue_expired_leases is_claimable is_free earliest claim
claim_next worker now lease_seconds locked table =
    if leb lease_seconds 0
    then err (value_error (word "lease_seconds must be positive" ∷ []))
    else let ready = requeue_expired_leases now table in
      elim (earliest (keep_if (is_free now locked) ready)) [
        | none ↦ ok (none, ready)
        | some r ↦
            let claimed = claim worker now lease_seconds r in
            ok (
              some (job_from_record claimed),
              update_where (λ x. x.id == r.id) (claim worker now lease_seconds) ready,
            )
      ]

unfoldable pub heartbeat :
    (worker : String) (now : ℕ) (job_id lease_seconds : ℕ)
    → List JobRecord
    → Result (Bool × List JobRecord)
unfolding owns
heartbeat worker now job_id lease_seconds table =
    if leb lease_seconds 0
    then err (value_error (word "lease_seconds must be positive" ∷ []))
    else ok (
      count_where (owns worker job_id) table == 1,
      update_where (owns worker job_id)
          (λ r. record r { lease_expires_at = some (now + lease_seconds) }) table,
    )

unfoldable pub complete :
    (worker : String) (now : ℕ) (job_id : ℕ) → List JobRecord → Bool × List JobRecord
unfolding owns
complete worker now job_id table = (
  count_where (owns worker job_id) table == 1,
  update_where (owns worker job_id)
      (λ r. record r {
        status = completed;
        completed_at = some now;
        claimed_at = none;
        lease_expires_at = none;
        claimed_by = none;
      })
      table,
)

-- The row as `fail` leaves it when no attempt is left.
unfoldable pub give_up : ℕ → String → JobRecord → JobRecord
give_up now error r = record r {
  status = failed;
  completed_at = some now;
  last_error = some error;
  claimed_at = none;
  lease_expires_at = none;
  claimed_by = none;
}

-- The row as `fail` leaves it when it is to be tried again.
unfoldable pub try_again : ℕ → String → ℕ → JobRecord → JobRecord
try_again now error delay r = record r {
  status = retry;
  available_at = now + delay;
  last_error = some error;
  claimed_at = none;
  lease_expires_at = none;
  claimed_by = none;
}

unfoldable pub delay_of : Option Delay → ℕ → Delay
unfolding retry_delay_seconds
delay_of none attempt = seconds (retry_delay_seconds attempt 2 300)
delay_of (some delay) attempt = delay

-- What `fail` makes of the row that it found.
unfoldable pub failed_row :
    (worker : String) (now : ℕ) (error : String) → Option Delay → JobRecord → Result JobRecord
unfolding give_up try_again delay_of
failed_row worker now error retry_delay r =
    if not (r.status == running)
    then err (runtime_error (word "Job is not running: " ∷ ident r.id ∷ []))
    else if not (elim r.claimed_by [ none ↦ false | some w ↦ w == worker ])
    then err (runtime_error (word "Job is claimed by another worker: " ∷ ident r.id ∷ []))
    else if leb r.max_attempts r.attempt
    then ok (give_up now error r)
    else elim (delay_of retry_delay r.attempt) [
      | negative _ ↦ err (value_error (word "retry_delay cannot be negative" ∷ []))
      | seconds delay ↦ ok (try_again now error delay r)
    ]

unfoldable pub fail :
    (worker : String) (now : ℕ) (job_id : ℕ) (error : String)
    → Option Delay
    → List JobRecord
    → Result (Job × List JobRecord)
unfolding failed_row
fail worker now job_id error retry_delay table = elim (find_row row_id job_id table) [
  | none ↦ err (key_error (word "Job not found: " ∷ ident job_id ∷ []))
  | some r ↦ elim (failed_row worker now error retry_delay r) [
    | err e ↦ err e
    | ok r' ↦ ok (job_from_record r', update_where (λ x. x.id == r.id) (λ _. r') table)
  ]
]

unfoldable pub get : ℕ → List JobRecord → Option Job
get job_id table = elim (find_row row_id job_id table) [
  | none ↦ none
  | some r ↦ some (job_from_record r)
]
