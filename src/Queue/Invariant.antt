-- ===== src/Queue/Invariant.antt =====
-- The well-formedness of the jobs table, and that every method of the queue preserves it.
use agent_coordination.Prelude.{
  All, All-append, All-at, All-both, All-update_where, Bool, Bool-cases, Distinct, Distinct-same,
  Distinct-snoc, Distinct-update_where, List, Member, Option, Option-cases, String, [], arith,
  false, inl, inr, is_some, leb, nat_beq, not, refl, subst, true, update_where, ℕ, ◌&&◌, ◌<◌, ◌∷◌,
  ◌≡◌, ◌≢◌, ◌≤◌,
}
use agent_coordination.Errors.{ok}
use agent_coordination.Domain.Data.{Fields, Format}
use agent_coordination.Domain.Enums.{JobStatus, JobType, completed, failed, pending, retry, running}
use agent_coordination.Domain.Service.{Job}
use agent_coordination.Queue.Rows.{
  JobRecord, claim, exhausted, fail_expired, is_claimable, is_expired, retry_expired, row_id,
}
use agent_coordination.Queue

abbrev pub is_running : JobStatus → Bool
is_running running = true
is_running _ = false

abbrev pub is_finished : JobStatus → Bool
is_finished completed = true
is_finished failed = true
is_finished _ = false

-- How many of its attempts a job in this status has used.
abbrev pub Spent : JobStatus → ℕ → ℕ → Type 0
Spent pending attempt max_attempts = attempt ≡ 0
Spent retry attempt max_attempts = attempt < max_attempts
Spent running attempt max_attempts = (0 < attempt) × (attempt ≤ max_attempts)
Spent completed attempt max_attempts = (0 < attempt) × (attempt ≤ max_attempts)
Spent failed attempt max_attempts = (0 < attempt) × (attempt ≡ max_attempts)

-- A job is claimed, leased and stamped exactly while it runs, has an end exactly when it is
-- finished, and has used the attempts that its status allows.
pub record RowOk (r : JobRecord) : Type 0 where
  pub positive : 0 < r.max_attempts
  pub spent : Spent r.status r.attempt r.max_attempts
  pub claimed : is_some r.claimed_by ≡ is_running r.status
  pub stamped : is_some r.claimed_at ≡ is_running r.status
  pub leased : is_some r.lease_expires_at ≡ is_running r.status
  pub ended : is_some r.completed_at ≡ is_finished r.status

pub record TableOk (table : List JobRecord) : Type 0 where
  pub rows : All RowOk table
  pub ids : Distinct row_id table

retry_expired-RowOk :
    (now : ℕ) (r : JobRecord)
    → (is_expired now r && not (exhausted r)) ≡ true
    → RowOk r
    → RowOk (retry_expired now r)
unfolding is_expired exhausted retry_expired
retry_expired-RowOk now r e h = ground arith

fail_expired-RowOk :
    (now : ℕ) (r : JobRecord)
    → (is_expired now r && exhausted r) ≡ true
    → RowOk r
    → RowOk (fail_expired now r)
unfolding is_expired exhausted fail_expired
fail_expired-RowOk now r e h = ground arith

pub claim-RowOk :
    (worker : String) (now lease_seconds : ℕ) (r : JobRecord)
    → is_claimable now r ≡ true
    → RowOk r
    → RowOk (claim worker now lease_seconds r)
unfolding is_claimable claim
claim-RowOk worker now lease_seconds r e h = ground arith

pub requeue_expired_leases-TableOk :
    (now : ℕ) (table : List JobRecord)
    → TableOk table
    → TableOk (Queue.requeue_expired_leases now table)
unfolding Queue.requeue_expired_leases
requeue_expired_leases-TableOk now table h = record {
  rows =
      All-update_where _ (retry_expired now) _ (retry_expired-RowOk now) (λ r _ k. k)
        (All-update_where _ (fail_expired now) table (fail_expired-RowOk now) (λ r _ k. k) h.rows);
  ids = Distinct-update_where row_id _ (retry_expired now) _ (unfold retry_expired in λ r _. refl) (
      Distinct-update_where row_id _ (fail_expired now) table (unfold fail_expired in λ r _. refl)
        h.ids);
}

-- A table whose row `r` is replaced, by its number, stays well-formed.
pub update_one-TableOk :
    (r : JobRecord) (f : JobRecord → JobRecord) (table : List JobRecord)
    → TableOk table
    → Member r table
    → ((x : JobRecord) → nat_beq x.id r.id ≡ true → (f x).id ≡ x.id)
    → (RowOk r → RowOk (f r))
    → TableOk (update_where (λ x. nat_beq x.id r.id) f table)
update_one-TableOk r f table h m keeps good = record {
  rows =
      All-update_where (λ x. nat_beq x.id r.id) f table
        (λ x e k. rw (k.1 e) (good (rw (k.1 e) at k.0))) (λ x e k. k.0)
        (All-both RowOk (λ x. nat_beq x.id r.id ≡ true → x ≡ r) table h.rows
          (Distinct-same row_id table h.ids m));
  ids = Distinct-update_where row_id _ f table keeps h.ids;
}

new_record-RowOk :
    (id now : ℕ) (job_type : JobType) (payload : Fields) (key : Format) (max_attempts : ℕ)
    (available_at : Option ℕ)
    → leb max_attempts 0 ≡ false
    → RowOk (Queue.new_record id now job_type payload key max_attempts available_at)
unfolding Queue.new_record
new_record-RowOk id now job_type payload key max_attempts available_at h = ground arith

-- The conditions on the row that a new job needs: its id is not in the table.
abbrev pub IsFresh : ℕ → List JobRecord → Type 0
IsFresh id table = All (λ r. nat_beq r.id id ≡ false) table

insert_job-TableOk :
    (r : JobRecord) (table : List JobRecord)
    → RowOk r
    → IsFresh r.id table
    → TableOk table
    → TableOk (Queue.insert_job r table)
unfolding Queue.insert_job
insert_job-TableOk r table good unseen h =
    elim (Option-cases (Queue.find_key r.idempotency_key table)) [
      | inl e ↦
          rw (e, Queue.insert_job)
            (record {
              rows = All-append RowOk table (r ∷ []) h.rows (good, tt);
              ids = Distinct-snoc row_id r table unseen h.ids;
            })
      | inr (old, e) ↦ rw (e, Queue.insert_job) h
    ]

pub enqueue-TableOk :
    (id now : ℕ) (job_type : JobType) (payload : Fields) (key : Format) (max_attempts : ℕ)
    (available_at : Option ℕ) (table after : List JobRecord) (job : Job)
    → IsFresh id table
    → TableOk table
    → Queue.enqueue id now job_type payload key max_attempts available_at table ≡ ok (job, after)
    → TableOk after
unfolding Queue.enqueue
enqueue-TableOk id now job_type payload key max_attempts available_at table after job unseen h e =
    let r = Queue.new_record id now job_type payload key max_attempts available_at in
    let positive : leb max_attempts 0 ≡ false = ground arith in
    let same : Queue.insert_job r table ≡ after = ground arith in
    subst TableOk same (
      insert_job-TableOk r table
        (new_record-RowOk id now job_type payload key max_attempts available_at positive)
        (unfold Queue.new_record in unseen) h)

-- Two rows of a well-formed table that differ have different numbers.
pub other_row :
    (r s : JobRecord) (table : List JobRecord)
    → TableOk table
    → Member r table
    → Member s table
    → r ≢ s
    → nat_beq r.id s.id ≡ false
other_row r s table h m n differs = elim (Bool-cases (nat_beq r.id s.id)) [
  | inl same ↦ absurd (
      differs (
        All-at (λ x. nat_beq x.id s.id ≡ true → x ≡ s) m (Distinct-same row_id table h.ids n) same))
  | inr e ↦ e
]
