-- ===== src/Queue/Examples.antt =====
-- A job that is enqueued, claimed and left by its worker, and the theorems at its tables.
use agent_coordination.Queue
use agent_coordination.Prelude.{
  Bool, List, Member, Option, String, [], arith, count_where, false, find_row, first, keep_if,
  nat_beq, none, refl, some, string_eq, true, update_where, ℕ, ◌↔◌, ◌∷◌, ◌≡◌, ◌≢◌, ◌≤◌, ◌⊎◌,
}
use agent_coordination.Errors.{ok}
use agent_coordination.Queue.Rows.{JobRecord, job_from_record}
use agent_coordination.Queue.Invariant.{TableOk}
use agent_coordination.Queue.Deliveries.{History, begin, claims, completes, count, enqueues, fails}
use agent_coordination.Queue.Waiting.{Offered, Waiting}
use agent_coordination.Queue.Outcomes.{Held, IsNext, claim_next_lem, complete_lem, handed_out}
use agent_coordination.Queue.Leases.{finished_stays, lease_excludes_others, retry_waits}
use agent_coordination.Queue.Histories.{History-TableOk, History_bounds}
use agent_coordination.Queue.Steps.{Step}
use agent_coordination.Queue.Enqueue.{enqueue_idempotent}
use agent_coordination.Domain.Data.{Format, end, ident, word}
use agent_coordination.Domain.Enums.{
  JobStatus-discrete, completed, finalize_run, pending, retry, run_judge, running,
}
use agent_coordination.Domain.Service.{Job}
use agent_coordination.Domain.Keys.{format_beq}

abbrev key : Format
key = word "run:" ∷ ident 7 ∷ word ":finalize" ∷ []

abbrev queued : JobRecord
queued = record {
  id = 1;
  job_type = finalize_run;
  payload = end;
  status = pending;
  idempotency_key = key;
  attempt = 0;
  max_attempts = 2;
  available_at = 5;
  claimed_at = none;
  lease_expires_at = none;
  claimed_by = none;
  last_error = none;
  completed_at = none;
  created_at = 5;
}

abbrev taken : JobRecord
taken = record queued {
  status = running;
  attempt = 1;
  claimed_by = some "first";
  claimed_at = some 10;
  lease_expires_at = some 70;
}

abbrev unlocked : ℕ → Bool
unlocked id = false

-- What the tests below compute with.
program : Bool
unfolding Queue.enqueue Queue.find_key Queue.claim_next Queue.complete Queue.fail Queue.heartbeat
    job_from_record JobStatus-discrete format_beq update_where count_where keep_if find_row
program = true

key-taken : job_from_record taken ≡ record (job_from_record queued) {
  status = running;
  attempt = 1;
  claimed_by = some "first";
  claimed_at = some 10;
  lease_expires_at = some 70;
}
unfolding job_from_record
key-taken = refl

sample : History (taken ∷ []) (1 ∷ [])
unfolding program
sample =
    claims "first" 10 60 unlocked (some (job_from_record taken))
      (enqueues 1 5 finalize_run end key 2 none (job_from_record queued) begin tt refl) refl

sample_ok : TableOk (taken ∷ [])
sample_ok = History-TableOk sample

History-TableOk_example : TableOk (taken ∷ [])
History-TableOk_example = History-TableOk sample

History_bounds_example : (count 1 (1 ∷ []) ≡ 1) × (count 1 (1 ∷ []) ≤ 2)
History_bounds_example = History_bounds taken sample first

-- A second worker looks for work while the first holds its lease.
second_finds_nothing : Step "second" 50 (taken ∷ []) (taken ∷ [])
unfolding program
second_finds_nothing = Step.claims 60 unlocked none refl

lease_excludes_others_example : Member taken (taken ∷ [])
lease_excludes_others_example =
    lease_excludes_others "second" 50 taken second_finds_nothing sample_ok first "first" 70 refl
      refl refl (omega arith) first_ne_second
  where
    first_ne_second : ◌≢◌ {A = String} "first" "second"
    first_ne_second e = cc ((string_eq.beq_iff "first" "second").1 e)

abbrev closed : JobRecord
closed = record taken {
  status = completed;
  completed_at = some 40;
  claimed_at = none;
  lease_expires_at = none;
  claimed_by = none;
}

closed_ok : TableOk (closed ∷ [])
unfolding program
closed_ok = History-TableOk (completes "first" 40 1 sample refl)

finished_stays_example : Member closed (closed ∷ [])
unfolding program
finished_stays_example =
    finished_stays "second" 50 closed (Step.claims 60 unlocked none refl) closed_ok first refl

-- The first worker fails and the job waits 2 seconds.
abbrev resting : JobRecord
resting = record taken {
  status = retry;
  available_at = 22;
  last_error = some "boom";
  claimed_at = none;
  lease_expires_at = none;
  claimed_by = none;
}

resting_ok : TableOk (resting ∷ [])
unfolding program
resting_ok = History-TableOk (fails "first" 20 1 "boom" none (job_from_record resting) sample refl)

retry_waits_example : Member resting (resting ∷ [])
unfolding program
retry_waits_example =
    retry_waits "second" 21 resting (Step.claims 60 unlocked none refl) resting_ok first refl
      (omega arith)

-- tests/unit/test_job_backoff.py
backoff_is_capped : Queue.retry_delay_seconds 20 2 300 ≡ 300
unfolding Queue.retry_delay_seconds
backoff_is_capped = refl

enqueue_idempotent_example :
    (job : Job) × (after : List JobRecord) × (Queue.enqueue 1 5 finalize_run end key 2 none []
      ≡ ok (job, after))
    × (job.idempotency_key ≡ key)
    × (Queue.enqueue 2 9 run_judge end key 3 (some 30) after ≡ ok (job, after))
enqueue_idempotent_example =
    enqueue_idempotent 1 2 5 9 finalize_run run_judge end end key 2 3 none (some 30) []
      (omega arith) (omega arith)

claim_next_lem_example :
    (result : Option Job) × (after : List JobRecord) × (Queue.claim_next "second" 80 60 unlocked
        (taken ∷ [])
      ≡ ok (result, after))
    × ((result ≡ none) × ((r : JobRecord) → Offered 80 (taken ∷ []) r → Waiting 80 unlocked r → ⊥)
        ⊎ (row : JobRecord) × IsNext 80 unlocked (taken ∷ []) row
          × (result ≡ some (job_from_record (handed_out "second" 80 60 row)))
          × Member (handed_out "second" 80 60 row) after)
claim_next_lem_example = claim_next_lem "second" 80 60 unlocked (taken ∷ []) (omega arith)

complete_lem_example :
    (((Queue.complete "first" 40 1 (taken ∷ [])).0 ≡ true) ↔ Held "first" taken)
    × (Held "first" taken → Member closed (Queue.complete "first" 40 1 (taken ∷ [])).1)
    × ((Held "first" taken → ⊥) → Member taken (Queue.complete "first" 40 1 (taken ∷ [])).1)
    × ((other : JobRecord)
        → Member other (taken ∷ [])
        → nat_beq other.id 1 ≡ false
        → Member other (Queue.complete "first" 40 1 (taken ∷ [])).1)
complete_lem_example = complete_lem "first" 40 1 (taken ∷ []) taken sample_ok first refl
