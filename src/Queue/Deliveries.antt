-- ===== src/Queue/Deliveries.antt =====
-- How often a job is handed to a worker.
use agent_coordination.Prelude.{
  All, All-append, All-append_left, All-at, All-both, All-update_where, Bool, Distinct-same, List,
  Member, Option, Option-cases, String, [], arith, false, find_row-Member, if◌then◌else◌, inl, inr,
  nat_beq, none, refl, some, subst, suc, sym, true, update_where, ℕ, ◌+◌, ◌∙◌, ◌∷◌, ◌≡◌,
}
use agent_coordination.Errors.{ok}
use agent_coordination.Domain.Data.{Fields, Format}
use agent_coordination.Domain.Enums.{JobType}
use agent_coordination.Domain.Service.{Job}
use agent_coordination.Queue.Rows.{
  Delay, JobRecord, claim, fail_expired, job_from_record, owns, retry_expired, row_id,
}
use agent_coordination.Queue.Invariant.{IsFresh, TableOk}
use agent_coordination.Queue.Claims.{Claimed-Member, claim_next_cases, ready}
use agent_coordination.Queue.Results.{fail_cases}
use agent_coordination.Queue

-- How many of the claimed ids are the given one.
abbrev pub count : ℕ → List ℕ → ℕ
count id [] = 0
count id (x ∷ xs) = if nat_beq x id then suc (count id xs) else count id xs

abbrev pub claimed_id : Option Job → List ℕ → List ℕ
claimed_id none log = log
claimed_id (some job) log = job.id ∷ log

-- A sequence of calls from an empty table, with the ids of the jobs that `claim_next` returned.
pub data History : List JobRecord → List ℕ → Type 0 where
  begin : History [] []
  claims :
      {table after : List JobRecord} {log : List ℕ} (worker : String) (now lease_seconds : ℕ)
      (locked : ℕ → Bool) (result : Option Job)
      → History table log
      → Queue.claim_next worker now lease_seconds locked table ≡ ok (result, after)
      → History after (claimed_id result log)
  enqueues :
      {table after : List JobRecord} {log : List ℕ} (id now : ℕ) (job_type : JobType)
      (payload : Fields) (key : Format) (max_attempts : ℕ) (available_at : Option ℕ) (job : Job)
      → History table log
      → IsFresh id table
      → Queue.enqueue id now job_type payload key max_attempts available_at table ≡ ok (job, after)
      → History after log
  beats :
      {table after : List JobRecord} {log : List ℕ} (worker : String) (now job_id lease_seconds : ℕ)
      (held : Bool)
      → History table log
      → Queue.heartbeat worker now job_id lease_seconds table ≡ ok (held, after)
      → History after log
  completes :
      {table after : List JobRecord} {log : List ℕ} (worker : String) (now job_id : ℕ)
      → History table log
      → (Queue.complete worker now job_id table).1 ≡ after
      → History after log
  fails :
      {table after : List JobRecord} {log : List ℕ} (worker : String) (now job_id : ℕ)
      (error : String) (delay : Option Delay) (job : Job)
      → History table log
      → Queue.fail worker now job_id error delay table ≡ ok (job, after)
      → History after log

-- Each row counts the claims of its job, and only jobs of the table were claimed.
pub record Counted (table : List JobRecord) (log : List ℕ) : Type 0 where
  pub attempts : All (λ r. count r.id log ≡ r.attempt) table
  pub known : (id : ℕ) → IsFresh id table → count id log ≡ 0

IsFresh-update_where :
    (p : JobRecord → Bool) (f : JobRecord → JobRecord) (id : ℕ) (table : List JobRecord)
    → ((r : JobRecord) → p r ≡ true → (f r).id ≡ r.id)
    → IsFresh id (update_where p f table)
    → IsFresh id table
unfolding update_where
IsFresh-update_where p f id [] same h = tt
IsFresh-update_where p f id (r ∷ rs) same h =
    (ground (arith, same r, h.0), IsFresh-update_where p f id rs same h.1)

-- An update that keeps ids and attempts keeps the counts.
Counted-update_where :
    (p : JobRecord → Bool) (f : JobRecord → JobRecord) (table : List JobRecord) (log : List ℕ)
    → ((r : JobRecord) → p r ≡ true → ((f r).id ≡ r.id) × ((f r).attempt ≡ r.attempt))
    → Counted table log
    → Counted (update_where p f table) log
Counted-update_where p f table log same c = record {
  attempts =
      All-update_where p f table (λ r e h. rw ((same r e).0, (same r e).1) h) (λ r e h. h)
        c.attempts;
  known = λ id unseen. c.known id (IsFresh-update_where p f id table (λ r e. (same r e).0) unseen);
}

requeue-Counted :
    (now : ℕ) (table : List JobRecord) (log : List ℕ)
    → Counted table log
    → Counted (Queue.requeue_expired_leases now table) log
unfolding Queue.requeue_expired_leases
requeue-Counted now table log c =
    Counted-update_where _ (retry_expired now) _ log (unfold retry_expired in λ r _. (refl, refl)) (
      Counted-update_where _ (fail_expired now) table log
        (unfold fail_expired in λ r _. (refl, refl)) c)

-- The row that is claimed counts one claim more, and no other row does.
claim_one-Counted :
    (worker : String) (now lease_seconds : ℕ) (row : JobRecord) (ready : List JobRecord)
    (log : List ℕ)
    → Member row ready
    → Counted ready log
    → Counted
        (update_where (λ x. nat_beq x.id row.id) (claim worker now lease_seconds) ready)
        (row.id ∷ log)
unfolding claim
claim_one-Counted worker now lease_seconds row ready log m c =
    let p = λ (x : JobRecord). nat_beq x.id row.id in
    let f = claim worker now lease_seconds in
    record {
      attempts =
          All-update_where p f ready (λ r e h. ground arith) (λ r e h. ground arith) c.attempts;
      known = λ id unseen.
          let before = IsFresh-update_where p f id ready (λ r e. refl) unseen in
          let other = All-at (λ r. nat_beq r.id id ≡ false) m before in
          ground (arith, c.known id before);
    }

pub claim_next-Counted :
    (worker : String) (now lease_seconds : ℕ) (locked : ℕ → Bool) (result : Option Job)
    (table after : List JobRecord) (log : List ℕ)
    → Queue.claim_next worker now lease_seconds locked table ≡ ok (result, after)
    → Counted table log
    → Counted after (claimed_id result log)
claim_next-Counted worker now lease_seconds locked result table after log e c =
    let counted = requeue-Counted now table log c in
    elim (claim_next_cases worker now lease_seconds locked table after result e) [
      | inl (nothing, _, same) ↦ rw (nothing, same) counted
      | inr (job, found, d) ↦
          let (m, free) = Claimed-Member worker now lease_seconds locked table d in
          let one = claim_one-Counted worker now lease_seconds d.row _ log m counted in
          rw (found, d.written, d.returned) (unfold job_from_record claim in one)
    ]

insert_job-Counted :
    (r : JobRecord) (table : List JobRecord) (log : List ℕ)
    → IsFresh r.id table
    → r.attempt ≡ 0
    → Counted table log
    → Counted (Queue.insert_job r table) log
unfolding Queue.insert_job
insert_job-Counted r table log unseen none_yet c =
    elim (Option-cases (Queue.find_key r.idempotency_key table)) [
      | inl e ↦
          rw (e, Queue.insert_job)
            (record {
              attempts =
                  All-append (λ x. count x.id log ≡ x.attempt) table (r ∷ []) c.attempts
                    (c.known r.id unseen ∙ sym none_yet, tt);
              known = λ id gone. c.known id (All-append_left _ table (r ∷ []) gone);
            })
      | inr (old, e) ↦ rw (e, Queue.insert_job) c
    ]

failed_row_keeps :
    (worker : String) (now : ℕ) (error : String) (delay : Option Delay) (old new : JobRecord)
    → Queue.failed_row worker now error delay old ≡ ok new
    → (new.id ≡ old.id) × (new.attempt ≡ old.attempt)
unfolding Queue.failed_row
failed_row_keeps worker now error delay old new e = ground arith

update_one-Counted :
    (old new : JobRecord) (table : List JobRecord) (log : List ℕ)
    → TableOk table
    → Member old table
    → (new.id ≡ old.id) × (new.attempt ≡ old.attempt)
    → Counted table log
    → Counted (update_where (λ x. nat_beq x.id old.id) (λ _. new) table) log
update_one-Counted old new table log h m keeps c =
    let p = λ (x : JobRecord). nat_beq x.id old.id in
    record {
      attempts =
          All-update_where p (λ _. new) table (λ x e k. rw (keeps.0, keeps.1) (rw (k.1 e) at k.0))
            (λ x e k. k.0)
            (All-both (λ x. count x.id log ≡ x.attempt) (λ x. p x ≡ true → x ≡ old) table c.attempts
              (Distinct-same row_id table h.ids m));
      known = λ id unseen.
          c.known id (IsFresh-update_where p (λ _. new) id table (λ x e. ground arith) unseen);
    }

pub enqueue-Counted :
    (id now : ℕ) (job_type : JobType) (payload : Fields) (key : Format) (max_attempts : ℕ)
    (available_at : Option ℕ) (job : Job) (table after : List JobRecord) (log : List ℕ)
    → IsFresh id table
    → Queue.enqueue id now job_type payload key max_attempts available_at table ≡ ok (job, after)
    → Counted table log
    → Counted after log
unfolding Queue.enqueue
enqueue-Counted id now job_type payload key max_attempts available_at job table after log unseen e
      c =
    let r = Queue.new_record id now job_type payload key max_attempts available_at in
    let same : Queue.insert_job r table ≡ after = ground arith in
    subst (λ t. Counted t log) same
      (insert_job-Counted r table log (unfold Queue.new_record in unseen)
        (unfold Queue.new_record in refl) c)

pub fail-Counted :
    (worker : String) (now job_id : ℕ) (error : String) (delay : Option Delay) (job : Job)
    (table after : List JobRecord) (log : List ℕ)
    → Queue.fail worker now job_id error delay table ≡ ok (job, after)
    → TableOk table
    → Counted table log
    → Counted after log
fail-Counted worker now job_id error delay job table after log e h c =
    let d = fail_cases worker now job_id table after error delay job e in
    let m = find_row-Member row_id job_id table d.old d.found in
    let keeps = failed_row_keeps worker now error delay d.old d.new d.decided in
    rw d.written (update_one-Counted d.old d.new table log h m keeps c)

pub heartbeat-Counted :
    (worker : String) (now job_id lease_seconds : ℕ) (held : Bool) (table after : List JobRecord)
    (log : List ℕ)
    → Queue.heartbeat worker now job_id lease_seconds table ≡ ok (held, after)
    → Counted table log
    → Counted after log
unfolding Queue.heartbeat
heartbeat-Counted worker now job_id lease_seconds held table after log e c =
    let f = λ (x : JobRecord). record x { lease_expires_at = some (now + lease_seconds) } in
    let same : update_where (owns worker job_id) f table ≡ after = ground arith in
    subst (λ t. Counted t log) same
      (Counted-update_where (owns worker job_id) f table log (λ r _. (refl, refl)) c)

pub complete-Counted :
    (worker : String) (now job_id : ℕ) (table : List JobRecord) (log : List ℕ)
    → Counted table log
    → Counted (Queue.complete worker now job_id table).1 log
unfolding Queue.complete
complete-Counted worker now job_id table log c =
    Counted-update_where (owns worker job_id) _ table log (λ r _. (refl, refl)) c
