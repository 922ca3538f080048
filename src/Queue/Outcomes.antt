-- ===== src/Queue/Outcomes.antt =====
-- What the methods return.
use agent_coordination.Queue
use agent_coordination.Prelude.{
  All-at, Bool, Bool-cases, List, Member, Option, Option-cases, String, [], ap, arith,
  count_where_one, false, if◌then◌else◌, inl, inr, keep_if, keep_if-Member, nat_beq, nat_beq_iff,
  nat_beq_refl, none, refl, some, string_eq, subst, sym, true, update_where, update_where-Member,
  update_where-Member_hit, ℕ, ◌+◌, ◌<◌, ◌↔◌, ◌∙◌, ◌≡◌, ◌⊎◌,
}
use agent_coordination.Errors.{ok}
use agent_coordination.Queue.Rows.{
  JobRecord, claim, earliest, is_free, job_from_record, not_after, owns, row_id,
}
use agent_coordination.Queue.Invariant.{TableOk}
use agent_coordination.Queue.Earliest.{earliest-Member, earliest-none, earliest_least}
use agent_coordination.Queue.Waiting.{
  Earlier, Offered, Waiting, not_after-Earlier, Offered-ready, ready-Offered,
}
use agent_coordination.Domain.Enums.{JobStatus-discrete, completed, job_status_eq, running}
use agent_coordination.Domain.Service.{Job}

nothing_in : {A : Type 0} {a : A} {xs : List A} → xs ≡ [] → Member a xs → ⊥
nothing_in {a} e m = elim (subst (Member a) e m) [ ]

-- The row of a job once a worker has it.
abbrev pub handed_out : String → ℕ → ℕ → JobRecord → JobRecord
handed_out worker now lease_seconds r = record r {
  status = running;
  attempt = r.attempt + 1;
  claimed_by = some worker;
  claimed_at = some now;
  lease_expires_at = some (now + lease_seconds);
  last_error = none;
}

-- The row is offered and waits, and comes before every other one that does.
pub record IsNext (now : ℕ) (locked : ℕ → Bool) (table : List JobRecord) (row : JobRecord)
    : Type 0 where
  pub offered : Offered now table row
  pub waits : Waiting now locked row
  pub before_others :
      (other : JobRecord) → Offered now table other → Waiting now locked other → Earlier row other

-- With a positive lease `claim_next` always returns. It considers the rows of the table, and those of
-- running jobs with a lease that is over and an attempt left, as they are when put back to be tried
-- again at once. If none of these is pending or to be tried again, due, and not locked by another
-- transaction, it returns none. Otherwise it returns the one of them that is first by availability
-- time, creation time and id: the row in the table is then running, leased to the worker for the time
-- asked for, with one attempt more.
pub claim_next_lem :
    (worker : String) (now lease_seconds : ℕ) (locked : ℕ → Bool) (table : List JobRecord)
    → 0 < lease_seconds
    → (result : Option Job) × (after : List JobRecord) × (Queue.claim_next worker now lease_seconds
          locked table
        ≡ ok (result, after))
      × ((result ≡ none) × ((r : JobRecord) → Offered now table r → Waiting now locked r → ⊥)
          ⊎ (row : JobRecord) × IsNext now locked table row
            × (result ≡ some (job_from_record (handed_out worker now lease_seconds row)))
            × Member (handed_out worker now lease_seconds row) after)
unfolding Queue.claim_next claim
claim_next_lem worker now lease_seconds locked table h =
    let ready = Queue.requeue_expired_leases now table in
    let free_rows = keep_if (is_free now locked) ready in
    elim (Option-cases (earliest free_rows)) [
      | inl e ↦ (
        none,
        ready,
        ground (arith, e),
        inl (
          refl,
          λ r offer w.
              nothing_in (earliest-none free_rows e) (Offered-ready now locked table r offer w),
        ),
      )
      | inr (r, e) ↦
          let m = earliest-Member free_rows r e in
          let (offer, w) = ready-Offered now locked table r m in
          (
            some (job_from_record (claim worker now lease_seconds r)),
            update_where (λ x. nat_beq x.id r.id) (claim worker now lease_seconds) ready,
            ground (arith, e),
            inr (
              r,
              record {
                offered = offer;
                waits = w;
                before_others = λ other o v. not_after-Earlier r other (
                    All-at (λ t. not_after r t ≡ true) (Offered-ready now locked table other o v)
                      (earliest_least free_rows r e));
              },
              refl,
              update_where-Member_hit _ (claim worker now lease_seconds) (nat_beq_refl r.id)
                  (keep_if-Member (is_free now locked) ready m).0,
            ),
          )
    ]

owns_other :
    (worker : String) (job_id : ℕ) (r : JobRecord)
    → nat_beq r.id job_id ≡ false
    → owns worker job_id r ≡ false
unfolding owns
owns_other worker job_id r e = rw e

one_or_none : (b : Bool) → nat_beq (if b then 1 else 0) 1 ≡ b
one_or_none true = refl
one_or_none false = refl

-- The worker runs the job.
abbrev pub Held : String → JobRecord → Type 0
Held worker r = (r.status ≡ running) × (r.claimed_by ≡ some worker)

Held-owns :
    (worker : String) (job_id : ℕ) (r : JobRecord)
    → r.id ≡ job_id
    → Held worker r
    → owns worker job_id r ≡ true
unfolding owns JobStatus-discrete
Held-owns worker job_id r e h =
    rw (h.0, h.1)
      (ground (arith, (nat_beq_iff r.id job_id).1 e, (string_eq.beq_iff worker worker).1 refl))

owns-Held :
    (worker : String) (job_id : ℕ) (r : JobRecord) → owns worker job_id r ≡ true → Held worker r
unfolding owns
owns-Held worker job_id r h = elim (Option-cases r.claimed_by) [
  | inl e ↦ absurd (ground (arith, rw e at h))
  | inr (w, e) ↦ (
    (job_status_eq.beq_iff r.status running).0 (ground (arith, h)),
    e ∙ ap some ((string_eq.beq_iff w worker).0 (ground (arith, rw e at h))),
  )
]

-- On a well-formed table `complete` of a job answers True exactly when the job was running and
-- claimed by this worker. Then its row is completed at that time, with the claim given up;
-- otherwise the row stays as it is. The row of every other job stays as it is in either case.
pub complete_lem :
    (worker : String) (now job_id : ℕ) (table : List JobRecord) (r : JobRecord)
    → TableOk table
    → Member r table
    → r.id ≡ job_id
    → (((Queue.complete worker now job_id table).0 ≡ true) ↔ Held worker r)
      × (Held worker r
          → Member
              (record r {
                status = completed;
                completed_at = some now;
                claimed_at = none;
                lease_expires_at = none;
                claimed_by = none;
              })
              (Queue.complete worker now job_id table).1)
      × ((Held worker r → ⊥) → Member r (Queue.complete worker now job_id table).1)
      × ((other : JobRecord)
          → Member other table
          → nat_beq other.id job_id ≡ false
          → Member other (Queue.complete worker now job_id table).1)
unfolding Queue.complete
complete_lem worker now job_id table r h m e =
    let answer =
      ap (λ n. nat_beq n 1)
        (count_where_one row_id (owns worker job_id) job_id (owns_other worker job_id) table h.ids m
          e)
      ∙ one_or_none (owns worker job_id r) in
    (
      (
        λ yes. owns-Held worker job_id r (sym answer ∙ yes),
        λ held. answer ∙ Held-owns worker job_id r e held,
      ),
      λ held. update_where-Member_hit (owns worker job_id) _ (Held-owns worker job_id r e held) m,
      λ lost. elim (Bool-cases (owns worker job_id r)) [
        | inl owned ↦ absurd (lost (owns-Held worker job_id r owned))
        | inr free ↦ update_where-Member (owns worker job_id) _ free m
      ],
      λ other n d. update_where-Member (owns worker job_id) _ (owns_other worker job_id other d) n,
    )
