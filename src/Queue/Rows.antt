-- ===== src/Queue/Rows.antt =====
-- The rows of the jobs table, and the WHERE and SET clauses of packages/persistence/jobs.py.
use agent_coordination.Prelude.{
  ℕ, ◌+◌, String, Bool, true, false, ◌&&◌, ◌||◌, List, [], ◌∷◌, Option, none, some, ◌==◌, nat_eq,
  string_eq, ltb, leb, not, if◌then◌else◌,
}
use agent_coordination.Domain.Data.{Format, Fields}
use agent_coordination.Domain.Enums.{
  JobType, JobStatus, pending, running, retry, failed, job_status_eq, JobStatus-discrete,
}
use agent_coordination.Domain.Service.{Job}

pub record JobRecord : Type 0 where
  pub id : ℕ
  pub job_type : JobType
  pub payload : Fields
  pub status : JobStatus
  pub idempotency_key : Format
  pub attempt : ℕ
  pub max_attempts : ℕ
  pub available_at : ℕ
  pub claimed_at : Option ℕ
  pub lease_expires_at : Option ℕ
  pub claimed_by : Option String
  pub last_error : Option String
  pub completed_at : Option ℕ
  pub created_at : ℕ

abbrev pub row_id : JobRecord → ℕ
row_id r = r.id

unfoldable pub job_from_record : JobRecord → Job
job_from_record r = record {
  id = r.id;
  job_type = r.job_type;
  payload = r.payload;
  idempotency_key = r.idempotency_key;
  status = r.status;
  attempt = r.attempt;
  max_attempts = r.max_attempts;
  available_at = some r.available_at;
  claimed_at = r.claimed_at;
  lease_expires_at = r.lease_expires_at;
  claimed_by = r.claimed_by;
  last_error = r.last_error;
  completed_at = r.completed_at;
}

-- An `int` of Python that may be negative: `negative n` is -(n + 1).
pub data Delay : Type 0 where
  seconds : ℕ → Delay
  negative : ℕ → Delay

-- RUNNING with a lease that ended before `now`. A lease that is NULL fails both conditions.
unfoldable pub is_expired : ℕ → JobRecord → Bool
unfolding JobStatus-discrete
is_expired now r =
    r.status == running && elim r.lease_expires_at [ none ↦ false | some t ↦ ltb t now ]

unfoldable pub exhausted : JobRecord → Bool
exhausted r = leb r.max_attempts r.attempt

unfoldable pub fail_expired : ℕ → JobRecord → JobRecord
fail_expired now r = record r {
  status = failed;
  completed_at = some now;
  claimed_at = none;
  lease_expires_at = none;
  claimed_by = none;
  last_error = some "worker lease expired after maximum attempts";
}

unfoldable pub retry_expired : ℕ → JobRecord → JobRecord
retry_expired now r = record r {
  status = retry;
  available_at = now;
  claimed_at = none;
  lease_expires_at = none;
  claimed_by = none;
  last_error = some "worker lease expired";
}

-- PENDING or RETRY, and due.
unfoldable pub is_claimable : ℕ → JobRecord → Bool
unfolding JobStatus-discrete
is_claimable now r = (r.status == pending || r.status == retry) && leb r.available_at now

unfoldable pub is_free : ℕ → (ℕ → Bool) → JobRecord → Bool
unfolding is_claimable
is_free now locked r = is_claimable now r && not (locked r.id)

-- ORDER BY available_at, created_at, id: `r` does not come after `s`.
unfoldable pub not_after : JobRecord → JobRecord → Bool
not_after r s =
    if ltb r.available_at s.available_at
    then true
    else if ltb s.available_at r.available_at
    then false
    else if ltb r.created_at s.created_at
    then true
    else if ltb s.created_at r.created_at
    then false
    else leb r.id s.id

-- ORDER BY ... LIMIT 1
unfoldable pub earliest : List JobRecord → Option JobRecord
unfolding not_after
earliest [] = none
earliest (r ∷ rs) = elim (earliest rs) [
  | none ↦ some r
  | some s ↦ if not_after r s then some r else some s
]

unfoldable pub claim : String → ℕ → ℕ → JobRecord → JobRecord
claim worker now lease_seconds r = record r {
  status = running;
  attempt = r.attempt + 1;
  claimed_by = some worker;
  claimed_at = some now;
  lease_expires_at = some (now + lease_seconds);
  last_error = none;
}

-- The WHERE clause of `heartbeat` and `complete`.
unfoldable pub owns : String → ℕ → JobRecord → Bool
unfolding JobStatus-discrete
owns worker job_id r =
    r.id == job_id
    && (r.status == running && elim r.claimed_by [ none ↦ false | some w ↦ w == worker ])
