-- ===== src/Queue/Claims.antt =====
-- What `claim_next` finds and writes.
use agent_coordination.Prelude.{
  Bool, List, Member, Option, Option-cases, String, arith, inl, inr, keep_if, keep_if-Member,
  nat_beq, none, refl, some, true, update_where, ℕ, ◌≡◌, ◌⊎◌,
}
use agent_coordination.Errors.{ok}
use agent_coordination.Domain.Service.{Job}
use agent_coordination.Queue.Rows.{
  JobRecord, claim, earliest, is_claimable, is_free, job_from_record,
}
use agent_coordination.Queue.Earliest.{earliest-Member}
use agent_coordination.Queue.Invariant.{
  TableOk, claim-RowOk, requeue_expired_leases-TableOk, update_one-TableOk,
}
use agent_coordination.Queue

pub free_claimable :
    (now : ℕ) (locked : ℕ → Bool) (r : JobRecord)
    → is_free now locked r ≡ true
    → is_claimable now r ≡ true
unfolding is_free
free_claimable now locked r free = ground arith

-- What a successful `claim_next` found and did.
module _ (worker : String) (now lease_seconds : ℕ) (locked : ℕ → Bool)
    (table : List JobRecord) where
  abbrev pub ready : List JobRecord
  ready = Queue.requeue_expired_leases now table

  pub record Claimed (job : Job) (after : List JobRecord) : Type 0 where
    pub row : JobRecord
    pub picked : earliest (keep_if (is_free now locked) ready) ≡ some row
    pub returned : job ≡ job_from_record (claim worker now lease_seconds row)
    pub written :
        after ≡ update_where (λ x. nat_beq x.id row.id) (claim worker now lease_seconds) ready

  pub claim_next_cases :
      (after : List JobRecord) (result : Option Job)
      → Queue.claim_next worker now lease_seconds locked table ≡ ok (result, after)
      → (result ≡ none) × (earliest (keep_if (is_free now locked) ready) ≡ none) × (after ≡ ready)
        ⊎ ((job : Job) × (result ≡ some job) × Claimed job after)
  unfolding Queue.claim_next
  claim_next_cases after result h =
      elim (Option-cases (earliest (keep_if (is_free now locked) ready))) [
        | inl e ↦ inl (ground arith, e, ground arith)
        | inr (r, e) ↦ inr (
          job_from_record (claim worker now lease_seconds r),
          ground arith,
          record { row = r; picked = e; returned = refl; written = ground arith },
        )
      ]

  pub Claimed-Member :
      {job : Job} {after : List JobRecord}
      → (c : Claimed job after) → Member c.row ready × (is_free now locked c.row ≡ true)
  Claimed-Member c = keep_if-Member (is_free now locked) ready (earliest-Member _ c.row c.picked)

  pub claim_next-TableOk :
      (after : List JobRecord) (result : Option Job)
      → TableOk table
      → Queue.claim_next worker now lease_seconds locked table ≡ ok (result, after)
      → TableOk after
  claim_next-TableOk after result h e =
      let ok_ready = requeue_expired_leases-TableOk now table h in
      elim (claim_next_cases after result e) [
        | inl (_, _, same) ↦ rw same ok_ready
        | inr (job, _, c) ↦
            let (m, free) = Claimed-Member c in
            rw c.written (
              update_one-TableOk c.row (claim worker now lease_seconds) ready ok_ready m
                (unfold claim in λ x _. refl)
                (claim-RowOk worker now lease_seconds c.row (free_claimable now locked c.row free)))
      ]
