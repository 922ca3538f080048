-- ===== src/Queue/Leases.antt =====
-- Which rows a call leaves alone: a lease that others hold, a finished job, a retry that is not due.
use agent_coordination.Prelude.{
  Bool, List, Member, Option, Option-cases, String, [], append-Member, arith, false,
  find_row-Member, inl, inr, nat_eq, none, some, string_eq, subst, test, true, update_where,
  update_where-Member, ℕ, ◌&&◌, ◌+◌, ◌<◌, ◌==◌, ◌∷◌, ◌≡◌, ◌≢◌, ◌≤◌,
}
use agent_coordination.Errors.{ok}
use agent_coordination.Domain.Data.{Fields, Format}
use agent_coordination.Domain.Enums.{JobStatus-discrete, JobType, retry, running}
use agent_coordination.Domain.Service.{Job}
use agent_coordination.Queue.Rows.{
  Delay, JobRecord, claim, fail_expired, is_claimable, is_expired, owns, retry_expired, row_id,
}
use agent_coordination.Queue.Invariant.{
  TableOk, is_finished, other_row, requeue_expired_leases-TableOk,
}
use agent_coordination.Queue.Claims.{Claimed-Member, claim_next_cases, free_claimable}
use agent_coordination.Queue.Results.{fail_cases}
use agent_coordination.Queue.Steps.{Step, beats, claims, completes, enqueues, fails}
use agent_coordination.Queue

abbrev pub is_claimant : String → JobRecord → Bool
is_claimant worker r =
    test (JobStatus-discrete r.status running)
    && elim r.claimed_by [ none ↦ false | some w ↦ w == worker ]

-- A call by this worker at this time has no business with the row.
pub record Untouched (worker : String) (now : ℕ) (r : JobRecord) : Type 0 where
  pub live : is_expired now r ≡ false
  pub waiting : is_claimable now r ≡ false
  pub foreign : is_claimant worker r ≡ false

module _ (worker : String) (now : ℕ) (r : JobRecord) (u : Untouched worker now r) where
  owns_not : (job_id : ℕ) → owns worker job_id r ≡ false
  unfolding owns
  owns_not job_id = ground (arith, u.foreign)

  requeue_keeps :
      (table : List JobRecord) → Member r table → Member r (Queue.requeue_expired_leases now table)
  unfolding Queue.requeue_expired_leases
  requeue_keeps table m =
      update_where-Member _ (retry_expired now) (rw u.live)
        (update_where-Member _ (fail_expired now) (rw u.live) m)

  claim_keeps :
      (lease_seconds : ℕ) (locked : ℕ → Bool) (table after : List JobRecord) (result : Option Job)
      → TableOk table
      → Member r table
      → Queue.claim_next worker now lease_seconds locked table ≡ ok (result, after)
      → Member r after
  claim_keeps lease_seconds locked table after result h m e =
      let kept = requeue_keeps table m in
      let ok_ready = requeue_expired_leases-TableOk now table h in
      elim (claim_next_cases worker now lease_seconds locked table after result e) [
        | inl (_, _, same) ↦ rw same kept
        | inr (job, _, c) ↦
            let (picked, free) = Claimed-Member worker now lease_seconds locked table c in
            rw c.written (
              update_where-Member _ (claim worker now lease_seconds)
                (other_row r c.row _ ok_ready kept picked
                  (differs c.row (free_claimable now locked c.row free)))
                kept)
      ]
    where
      differs : (s : JobRecord) → is_claimable now s ≡ true → r ≢ s
      differs s due same = absurd (cc (u.waiting, rw (← same) at due))

  heartbeat_keeps :
      (job_id lease_seconds : ℕ) (held : Bool) (table after : List JobRecord)
      → Member r table
      → Queue.heartbeat worker now job_id lease_seconds table ≡ ok (held, after)
      → Member r after
  unfolding Queue.heartbeat
  heartbeat_keeps job_id lease_seconds held table after m e =
      let f = λ (x : JobRecord). record x { lease_expires_at = some (now + lease_seconds) } in
      let same : update_where (owns worker job_id) f table ≡ after = ground arith in
      rw same at (update_where-Member (owns worker job_id) f (owns_not job_id) m)

  complete_keeps :
      (job_id : ℕ) (table : List JobRecord)
      → Member r table
      → Member r (Queue.complete worker now job_id table).1
  unfolding Queue.complete
  complete_keeps job_id table m = update_where-Member (owns worker job_id) _ (owns_not job_id) m

  failed_row_claimant :
      (error : String) (delay : Option Delay) (old new : JobRecord)
      → Queue.failed_row worker now error delay old ≡ ok new
      → is_claimant worker old ≡ true
  unfolding Queue.failed_row
  failed_row_claimant error delay old new e = ground arith

  fail_keeps :
      (job_id : ℕ) (error : String) (delay : Option Delay) (job : Job)
      (table after : List JobRecord)
      → TableOk table
      → Member r table
      → Queue.fail worker now job_id error delay table ≡ ok (job, after)
      → Member r after
  fail_keeps job_id error delay job table after h m e =
      let c = fail_cases worker now job_id table after error delay job e in
      let mine = failed_row_claimant error delay c.old c.new c.decided in
      let n = find_row-Member row_id job_id table c.old c.found in
      let differs : r ≢ c.old = λ same. absurd (cc (u.foreign, mine)) in
      rw c.written (update_where-Member _ (λ _. c.new) (other_row r c.old table h m n differs) m)

  enqueue_keeps :
      (id : ℕ) (job_type : JobType) (payload : Fields) (key : Format) (max_attempts : ℕ)
      (available_at : Option ℕ) (job : Job) (table after : List JobRecord)
      → Member r table
      → Queue.enqueue id now job_type payload key max_attempts available_at table ≡ ok (job, after)
      → Member r after
  unfolding Queue.enqueue Queue.insert_job
  enqueue_keeps id job_type payload key max_attempts available_at job table after m e =
      let new = Queue.new_record id now job_type payload key max_attempts available_at in
      let same : Queue.insert_job new table ≡ after = ground arith in
      elim (Option-cases (Queue.find_key new.idempotency_key table)) [
        | inl missing ↦
            subst (Member r) (rw (missing, Queue.insert_job) at same) (append-Member (new ∷ []) m)
        | inr (old, found) ↦ subst (Member r) (rw (found, Queue.insert_job) at same) m
      ]

pub Step_keeps :
    (worker : String) (now : ℕ) (r : JobRecord) {table after : List JobRecord}
    → Step worker now table after
    → Untouched worker now r
    → TableOk table
    → Member r table
    → Member r after
Step_keeps worker now r {table} {after}
      (enqueues id job_type payload key max_attempts available_at job unseen e) u h m =
    enqueue_keeps worker now r u id job_type payload key max_attempts available_at job table after m
      e
Step_keeps worker now r {table} {after} (claims lease_seconds locked result e) u h m =
    claim_keeps worker now r u lease_seconds locked table after result h m e
Step_keeps worker now r {table} {after} (beats job_id lease_seconds held e) u h m =
    heartbeat_keeps worker now r u job_id lease_seconds held table after m e
Step_keeps worker now r {table} {after} (completes job_id e) u h m =
    subst (Member r) e (complete_keeps worker now r u job_id table m)
Step_keeps worker now r {table} {after} (fails job_id error delay job e) u h m =
    fail_keeps worker now r u job_id error delay job table after h m e

module _ (worker : String) (now : ℕ) (r : JobRecord) {table after : List JobRecord}
    (step : Step worker now table after) (h : TableOk table) (m : Member r table) where
  -- On a well-formed table, while a lease lasts, its job is the claimant's alone: no call of another worker at a time up to
  -- the lease's end changes the row of a running job, so no other worker can claim, renew, complete
  -- or fail it.
  pub lease_excludes_others :
      (claimant : String) (lease : ℕ)
      → r.status ≡ running
      → r.claimed_by ≡ some claimant
      → r.lease_expires_at ≡ some lease
      → now ≤ lease
      → claimant ≢ worker
      → Member r after
  lease_excludes_others claimant lease runs owned leased lasts other =
      Step_keeps worker now r step
        (record {
          live = unfold is_expired in ground arith;
          waiting = unfold is_claimable in ground arith;
          foreign = ground (arith, string_eq.beq_iff claimant worker);
        })
        h m

  -- On a well-formed table, a finished job stays finished: no call of any worker at any time changes the row of a job that is
  -- completed or failed.
  pub finished_stays : is_finished r.status ≡ true → Member r after
  finished_stays done =
      Step_keeps worker now r step
        (record {
          live = unfold is_expired in ground arith;
          waiting = unfold is_claimable in ground arith;
          foreign = ground arith;
        })
        h m

  -- On a well-formed table, a job that waits for a retry waits out its delay: no call of any worker before the time at which
  -- it is available changes its row.
  pub retry_waits : r.status ≡ retry → now < r.available_at → Member r after
  retry_waits waits early =
      Step_keeps worker now r step
        (record {
          live = unfold is_expired in ground arith;
          waiting = unfold is_claimable in ground arith;
          foreign = ground arith;
        })
        h m
