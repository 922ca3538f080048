-- ===== src/Queue/Enqueue.antt =====
-- `enqueue` is idempotent in its key.
use agent_coordination.Prelude.{
  List, Option, Option-cases, [], arith, if◌then◌else◌, inl, inr, none, refl, some, ℕ, ◌++◌, ◌<◌,
  ◌∙◌, ◌∷◌, ◌≡◌,
}
use agent_coordination.Errors.{ok}
use agent_coordination.Domain.Data.{Fields, Format}
use agent_coordination.Domain.Keys.{format_beq, format_beq_iff}
use agent_coordination.Domain.Enums.{JobType}
use agent_coordination.Domain.Service.{Job}
use agent_coordination.Queue.Rows.{JobRecord, job_from_record}
use agent_coordination.Queue.{enqueue, find_key, insert_job, new_record}

find_key-append :
    (key : Format) (table : List JobRecord) (r : JobRecord)
    → find_key key table ≡ none
    → find_key key (table ++ r ∷ []) ≡ (if format_beq r.idempotency_key key then some r else none)
unfolding find_key
find_key-append key [] r h = refl
find_key-append key (x ∷ xs) r h = ground (arith, find_key-append key xs r)

find_key-insert_job :
    (r : JobRecord) (table : List JobRecord)
    → (s : JobRecord) × (find_key r.idempotency_key (insert_job r table) ≡ some s)
unfolding insert_job
find_key-insert_job r table = elim (Option-cases (find_key r.idempotency_key table)) [
  | inl missing ↦ (
    r,
    rw (missing, insert_job)
        (find_key-append r.idempotency_key table r missing
          ∙ rw ((format_beq_iff r.idempotency_key r.idempotency_key).1 refl)),
  )
  | inr (s, found) ↦ (s, rw (found, insert_job) found)
]

find_key-key :
    (key : Format) (table : List JobRecord) (s : JobRecord)
    → find_key key table ≡ some s
    → s.idempotency_key ≡ key
unfolding find_key
find_key-key key [] s h = absurd (cc)
find_key-key key (x ∷ xs) s h =
    ground (arith, find_key-key key xs s, format_beq_iff x.idempotency_key key)

find_key-append_left :
    (key : Format) (table more : List JobRecord) (s : JobRecord)
    → find_key key table ≡ some s
    → find_key key (table ++ more) ≡ some s
unfolding find_key
find_key-append_left key [] more s h = absurd (cc)
find_key-append_left key (x ∷ table) more s h =
    ground (arith, h, find_key-append_left key table more s)

-- An insert keeps the rows that are found already.
pub insert_job-keeps :
    (r s : JobRecord) (key : Format) (table : List JobRecord)
    → find_key key table ≡ some s
    → find_key key (insert_job r table) ≡ some s
unfolding insert_job
insert_job-keeps r s key table h = elim (Option-cases (find_key r.idempotency_key table)) [
  | inl missing ↦ rw (missing, insert_job) (find_key-append_left key table (r ∷ []) s h)
  | inr (t, found) ↦ rw (found, insert_job) h
]

-- With at least one attempt allowed, `enqueue` inserts its row and finds the row of the key.
pub enqueue_inserts :
    (id now : ℕ) (job_type : JobType) (payload : Fields) (key : Format) (max_attempts : ℕ)
    (available_at : Option ℕ) (table : List JobRecord)
    → 0 < max_attempts
    → (s : JobRecord) × (enqueue id now job_type payload key max_attempts available_at table
        ≡ ok (
          job_from_record s,
          insert_job (new_record id now job_type payload key max_attempts available_at) table,
        ))
      × (find_key key
            (insert_job (new_record id now job_type payload key max_attempts available_at) table)
          ≡ some s)
unfolding enqueue new_record
enqueue_inserts id now job_type payload key max_attempts available_at table h =
    let r = new_record id now job_type payload key max_attempts available_at in
    let (s, found) = find_key-insert_job r table in (s, ground (arith, found), found)

-- A repeated insert with the same key changes nothing.
insert_job_same :
    (r s : JobRecord) (table : List JobRecord)
    → find_key r.idempotency_key table ≡ some s
    → insert_job r table ≡ table
unfolding insert_job
insert_job_same r s table found = rw (found, insert_job)

-- Enqueueing always succeeds when at least one attempt is allowed, and returns a job with the given
-- key. Enqueueing once more with that key, at any later time and with any other arguments, returns
-- the same job and leaves the table as the first call left it.
pub enqueue_idempotent :
    (id id' now now' : ℕ) (job_type job_type' : JobType) (payload payload' : Fields) (key : Format)
    (max_attempts max_attempts' : ℕ) (available_at available_at' : Option ℕ)
    (table : List JobRecord)
    → 0 < max_attempts
    → 0 < max_attempts'
    → (job : Job) × (after : List JobRecord) × (enqueue id now job_type payload key max_attempts
          available_at table
        ≡ ok (job, after))
      × (job.idempotency_key ≡ key)
      × (enqueue id' now' job_type' payload' key max_attempts' available_at' after
          ≡ ok (job, after))
unfolding enqueue new_record job_from_record
enqueue_idempotent id id' now now' job_type job_type' payload payload' key max_attempts
      max_attempts' available_at available_at' table h h' =
    let r = new_record id now job_type payload key max_attempts available_at in
    let r' = new_record id' now' job_type' payload' key max_attempts' available_at' in
    let after = insert_job r table in
    let (s, found) = find_key-insert_job r table in
    let again = insert_job_same r' s after found in
    (
      job_from_record s,
      after,
      ground (arith, found),
      find_key-key key after s found,
      ground (arith, found, again),
    )
