-- ===== src/Queue/Results.antt =====
-- What `heartbeat`, `complete` and `fail` write.
use agent_coordination.Prelude.{
  All-at, All-update_where, Bool, Distinct-update_where, List, Option, Option-cases, String, arith,
  find_row, find_row-Member, inl, inr, nat_beq, refl, some, subst, true, update_where, ℕ, ◌+◌, ◌≡◌,
}
use agent_coordination.Errors.{Result-cases, ok}
use agent_coordination.Domain.Service.{Job}
use agent_coordination.Queue.Rows.{Delay, JobRecord, job_from_record, owns, row_id}
use agent_coordination.Queue.Invariant.{RowOk, TableOk, update_one-TableOk}
use agent_coordination.Queue

module _ (worker : String) (now job_id : ℕ) (table after : List JobRecord) where
  owned-Ok :
      (f : JobRecord → JobRecord)
      → ((x : JobRecord) → owns worker job_id x ≡ true → (f x).id ≡ x.id)
      → ((x : JobRecord) → owns worker job_id x ≡ true → RowOk x → RowOk (f x))
      → TableOk table
      → TableOk (update_where (owns worker job_id) f table)
  owned-Ok f keeps good h = record {
    rows = All-update_where (owns worker job_id) f table good (λ x _ k. k) h.rows;
    ids = Distinct-update_where row_id _ f table keeps h.ids;
  }

  pub heartbeat-TableOk :
      (lease_seconds : ℕ) (held : Bool)
      → TableOk table
      → Queue.heartbeat worker now job_id lease_seconds table ≡ ok (held, after)
      → TableOk after
  unfolding Queue.heartbeat
  heartbeat-TableOk lease_seconds held h e =
      let f = λ (r : JobRecord). record r { lease_expires_at = some (now + lease_seconds) } in
      let same : update_where (owns worker job_id) f table ≡ after = ground arith in
      subst TableOk same (owned-Ok f (λ x _. refl) (λ x o k. ground arith) h)

  pub complete-TableOk : TableOk table → TableOk (Queue.complete worker now job_id table).1
  unfolding Queue.complete
  complete-TableOk h = owned-Ok _ (λ x _. refl) (λ x o k. ground arith) h

  failed_row-RowOk :
      (error : String) (delay : Option Delay) (r r' : JobRecord)
      → Queue.failed_row worker now error delay r ≡ ok r'
      → RowOk r
      → RowOk r' × (r'.id ≡ r.id)
  unfolding Queue.failed_row
  failed_row-RowOk error delay r r' e h = ground arith

  -- What a successful `fail` found and wrote.
  pub record Failed (error : String) (delay : Option Delay) (job : Job) : Type 0 where
    pub old : JobRecord
    pub new : JobRecord
    pub found : find_row row_id job_id table ≡ some old
    pub decided : Queue.failed_row worker now error delay old ≡ ok new
    pub returned : job ≡ job_from_record new
    pub written : after ≡ update_where (λ x. nat_beq x.id old.id) (λ _. new) table

  pub fail_cases :
      (error : String) (delay : Option Delay) (job : Job)
      → Queue.fail worker now job_id error delay table ≡ ok (job, after)
      → Failed error delay job
  unfolding Queue.fail
  fail_cases error delay job e = elim (Option-cases (find_row row_id job_id table)) [
    | inl missing ↦ absurd (ground arith)
    | inr (old, found) ↦ elim (Result-cases (Queue.failed_row worker now error delay old)) [
      | inl (new, decided) ↦ record {
        old = old;
        new = new;
        found = found;
        decided = decided;
        returned = ground arith;
        written = ground arith;
      }
      | inr (x, refused) ↦ absurd (ground arith)
    ]
  ]

  pub fail-TableOk :
      (error : String) (delay : Option Delay) (job : Job)
      → TableOk table
      → Queue.fail worker now job_id error delay table ≡ ok (job, after)
      → TableOk after
  fail-TableOk error delay job h e =
      let c = fail_cases error delay job e in
      let m = find_row-Member row_id job_id table c.old c.found in
      let keeps = failed_row-RowOk error delay c.old c.new c.decided in
      let good = keeps (All-at RowOk m h.rows) in
      rw c.written
        (update_one-TableOk c.old (λ _. c.new) table h m (λ x same. ground arith) (λ _. good.0))
