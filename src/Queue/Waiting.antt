-- ===== src/Queue/Waiting.antt =====
-- What `claim_next` of packages/persistence/jobs.py may hand out, said of the table as it is found:
-- the statuses, the times and the locks, without the clauses of the SQL statements.
use agent_coordination.Queue
use agent_coordination.Prelude.{
  Bool, Bool-cases, List, Member, Member-cons, Option-cases, [], ap, arith, false, first, inl, inr,
  keep_if, keep_if-Member, keep_if-Member_of, later, leb, nat_eq, none, not, refl, some, string_eq,
  subst, sym, true, update_where, update_where-Member, update_where-Member_hit, ℕ, ◌&&◌, ◌<◌, ◌==◌,
  ◌∙◌, ◌∷◌, ◌≡◌, ◌≤◌, ◌⊎◌,
}
use agent_coordination.Queue.Rows.{
  JobRecord, exhausted, fail_expired, is_claimable, is_expired, is_free, not_after, retry_expired,
}
use agent_coordination.Domain.Enums.{JobStatus-discrete, job_status_eq, pending, retry, running}

-- A row that waits to be claimed.
pub record Waiting (now : ℕ) (locked : ℕ → Bool) (r : JobRecord) : Type 0 where
  pub unclaimed : (r.status ≡ pending) ⊎ (r.status ≡ retry)
  pub due : r.available_at ≤ now
  pub unlocked : locked r.id ≡ false

-- A running row whose lease ended before `now`.
pub record Lapsed (now : ℕ) (r : JobRecord) : Type 0 where
  pub started : r.status ≡ running
  pub until : ℕ
  pub lease : r.lease_expires_at ≡ some until
  pub over : until < now

-- The row of a job whose worker was lost.
abbrev pub put_back : ℕ → JobRecord → JobRecord
put_back now r = record r {
  status = retry;
  available_at = now;
  claimed_at = none;
  lease_expires_at = none;
  claimed_by = none;
  last_error = some "worker lease expired";
}

-- A row of the table, or one that is put back since its lease is over and it has an attempt left.
abbrev pub Offered : ℕ → List JobRecord → JobRecord → Type 0
Offered now table r =
    Member r table
    ⊎ ((old : JobRecord) × Member old table
        × Lapsed now old
        × (old.attempt < old.max_attempts)
        × (r ≡ put_back now old))

-- By the time from which the job is available, then by its creation, then by its id.
abbrev pub Earlier : JobRecord → JobRecord → Type 0
Earlier r s =
    (r.available_at < s.available_at)
    ⊎ ((r.available_at ≡ s.available_at)
        × ((r.created_at < s.created_at) ⊎ ((r.created_at ≡ s.created_at) × (r.id ≤ s.id))))

updated_from :
    {A : Type 0} (p : A → Bool) (f : A → A) (r : A) (xs : List A)
    → Member r (update_where p f xs)
    → (old : A) × Member old xs × ((p old ≡ true) × (r ≡ f old) ⊎ (p old ≡ false) × (r ≡ old))
unfolding update_where
updated_from p f r [] m = elim m [ ]
updated_from p f r (x ∷ xs) m = elim (Bool-cases (p x)) [
  | inl e ↦ elim (Member-cons (rw e at m)) [
    | inl same ↦ (x, first, inl (e, sym same))
    | inr n ↦ let (old, k, how) = updated_from p f r xs n in (old, later k, how)
  ]
  | inr e ↦ elim (Member-cons (rw e at m)) [
    | inl same ↦ (x, first, inr (e, sym same))
    | inr n ↦ let (old, k, how) = updated_from p f r xs n in (old, later k, how)
  ]
]

pub not_after-Earlier : (r s : JobRecord) → not_after r s ≡ true → Earlier r s
unfolding not_after
not_after-Earlier r s h = ground arith

Waiting-free :
    (now : ℕ) (locked : ℕ → Bool) (r : JobRecord)
    → Waiting now locked r
    → is_free now locked r ≡ true
unfolding is_free is_claimable JobStatus-discrete
Waiting-free now locked r w = elim w.unclaimed [
  | inl e ↦ rw (e, w.unlocked) (let d = w.due in ground arith)
  | inr e ↦ rw (e, w.unlocked) (let d = w.due in ground arith)
]

free-Waiting :
    (now : ℕ) (locked : ℕ → Bool) (r : JobRecord)
    → is_free now locked r ≡ true
    → Waiting now locked r
unfolding is_free is_claimable
free-Waiting now locked r h = record {
  unclaimed = elim (Bool-cases (r.status == pending)) [
    | inl e ↦ inl ((job_status_eq.beq_iff r.status pending).0 e)
    | inr n ↦ inr ((job_status_eq.beq_iff r.status retry).0 (ground (arith, h, n)))
  ];
  due = ground (arith, h);
  unlocked = ground (arith, h);
}

Lapsed-expired : (now : ℕ) (r : JobRecord) → Lapsed now r → is_expired now r ≡ true
unfolding is_expired JobStatus-discrete
Lapsed-expired now r l = rw (l.started, l.lease) (let o = l.over in ground arith)

expired-Lapsed : (now : ℕ) (r : JobRecord) → is_expired now r ≡ true → Lapsed now r
unfolding is_expired
expired-Lapsed now r h = elim (Option-cases r.lease_expires_at) [
  | inl e ↦ absurd (ground (arith, h, rw e at h))
  | inr (t, e) ↦ record {
    started = (job_status_eq.beq_iff r.status running).0 (ground (arith, h));
    until = t;
    lease = e;
    over = ground (arith, rw e at h);
  }
]

not_expired :
    (now : ℕ) (r : JobRecord) → (r.status ≡ pending) ⊎ (r.status ≡ retry) → is_expired now r ≡ false
unfolding is_expired JobStatus-discrete
not_expired now r (inl e) = rw e refl
not_expired now r (inr e) = rw e refl

failed_waits :
    (now : ℕ) (r old : JobRecord)
    → r ≡ fail_expired now old
    → (r.status ≡ pending) ⊎ (r.status ≡ retry)
    → ⊥
unfolding fail_expired
failed_waits now r old same (inl e) = cc (ap (λ (x : JobRecord). x.status) same)
failed_waits now r old same (inr e) = cc (ap (λ (x : JobRecord). x.status) same)

-- `requeue_expired_leases` leaves exactly the offered rows among those that wait.
pub Offered-ready :
    (now : ℕ) (locked : ℕ → Bool) (table : List JobRecord) (r : JobRecord)
    → Offered now table r
    → Waiting now locked r
    → Member r (keep_if (is_free now locked) (Queue.requeue_expired_leases now table))
unfolding Queue.requeue_expired_leases exhausted retry_expired
Offered-ready now locked table r offer w =
    keep_if-Member_of (is_free now locked) (Queue.requeue_expired_leases now table) (there offer)
      (Waiting-free now locked r w)
  where
    there : Offered now table r → Member r (Queue.requeue_expired_leases now table)
    there (inl m) =
        let fresh = not_expired now r w.unclaimed in
        update_where-Member _ _ (rw fresh refl) (update_where-Member _ _ (rw fresh refl) m)
    there (inr (old, m, lapsed, left, same)) =
        let over = Lapsed-expired now old lapsed in
        let more : leb old.max_attempts old.attempt ≡ false = ground (arith, left) in
        subst (λ x. Member x (Queue.requeue_expired_leases now table)) (sym same)
          (update_where-Member_hit _ _ (rw (over, more) refl)
            (update_where-Member _ _ (rw (over, more) refl) m))

pub ready-Offered :
    (now : ℕ) (locked : ℕ → Bool) (table : List JobRecord) (r : JobRecord)
    → Member r (keep_if (is_free now locked) (Queue.requeue_expired_leases now table))
    → Offered now table r × Waiting now locked r
unfolding Queue.requeue_expired_leases exhausted retry_expired fail_expired is_expired
    JobStatus-discrete
ready-Offered now locked table r m =
    let (present, free) =
      keep_if-Member (is_free now locked) (Queue.requeue_expired_leases now table) m in
    let w = free-Waiting now locked r free in
    let (mid, k, how) = updated_from _ _ r _ present in
    let (old, n, before) = updated_from _ _ mid _ k in (from w mid old n how before, w)
  where
    from :
        Waiting now locked r
        → (mid old : JobRecord) → Member old table
        → ((is_expired now mid && not (exhausted mid)) ≡ true) × (r ≡ retry_expired now mid)
          ⊎ ((is_expired now mid && not (exhausted mid)) ≡ false) × (r ≡ mid)
        → ((is_expired now old && exhausted old) ≡ true) × (mid ≡ fail_expired now old)
          ⊎ ((is_expired now old && exhausted old) ≡ false) × (mid ≡ old)
        → Offered now table r
    from w mid old n (inl (e, same)) (inl (f, was)) = absurd (cc (rw was at e))
    from w mid old n (inr (e, same)) (inl (f, was)) =
        absurd (failed_waits now r old (same ∙ was) w.unclaimed)
    from w mid old n (inl (e, same)) (inr (f, was)) =
        let e' = rw was at e in
        inr (
          old,
          n,
          expired-Lapsed now old (ground (arith, e')),
          ground (arith, e'),
          same ∙ ap (retry_expired now) was,
        )
    from w mid old n (inr (e, same)) (inr (f, was)) =
        inl (subst (λ x. Member x table) (sym (same ∙ was)) n)
