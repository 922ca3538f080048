-- ===== src/Verification/Verdicts.antt =====
-- What the verdict of a verification rests on.
use agent_coordination.Prelude.{
  All, All-at, All-imp, All-of, Bool, List, Member, all_of-All, any_of_absent, any_of_found,
  any_of_some, arith, false, is_empty, keep_if, keep_if-Member, keep_if-Member_of, keep_if-empty,
  keep_if_found, keep_if_none, keep_if_some, nat_beq, nat_beq_iff, test, test_iff, true, ℕ, ◌↔◌,
  ◌≡◌,
}
use agent_coordination.Domain.Enums.{
  VerificationStatus, VerificationStatus-discrete, failed, passed,
}
use agent_coordination.Domain.Research.{ClaimDraft, CriticFinding, Submission, VerificationResult}
use agent_coordination.Verification.{is_blank, overall_status, verify_adversarial}

abbrev status_is : VerificationStatus → VerificationResult → Bool
status_is s r = test (VerificationStatus-discrete r.status s)

status_is_iff :
    (s : VerificationStatus) (r : VerificationResult) → (status_is s r ≡ true) ↔ (r.status ≡ s)
status_is_iff s r = test_iff (VerificationStatus-discrete r.status s)

passed_not_failed : (r : VerificationResult) → r.status ≡ passed → status_is failed r ≡ false
unfolding VerificationStatus-discrete
passed_not_failed r e = rw e

-- The combined verdict is FAILED exactly when some check failed, and PASSED exactly when there is a
-- check and every check passed; in every other case it is INCONCLUSIVE.
pub overall_status_iff :
    (results : List VerificationResult)
    → ((overall_status results ≡ failed)
        ↔ ((r : VerificationResult) × Member r results × (r.status ≡ failed)))
      × ((overall_status results ≡ passed)
          ↔ (is_empty results ≡ false) × All (λ r. r.status ≡ passed) results)
unfolding overall_status
overall_status_iff results = (
  (
    λ h.
        let (r, m, e) = any_of_found (status_is failed) results (ground arith) in
        (r, m, (status_is_iff failed r).0 e),
    λ (r, m, e). rw (any_of_some (status_is failed) results m ((status_is_iff failed r).1 e)),
  ),
  (
    λ h. (
      ground arith,
      All-imp results (λ r. (status_is_iff passed r).0)
          ((all_of-All (status_is passed) results).0 (ground arith)),
    ),
    λ (some_check, good). ground (
      arith,
      any_of_absent (status_is failed) results (All-imp results passed_not_failed good),
      (all_of-All (status_is passed) results).1
          (All-imp results (λ r. (status_is_iff passed r).1) good),
      some_check,
    ),
  ),
)

module _ {F : Type 0} (run_id generation_id : ℕ) (submission : Submission F) where
  abbrev concerns : CriticFinding F → Bool
  concerns f = nat_beq f.submission_id submission.id

  abbrev is_fatal : CriticFinding F → Bool
  is_fatal f = f.fatal_error

  -- Some critic examined the submission, and no critic reported a fatal error in it.
  pub record Survived (findings : List (CriticFinding F)) : Type 0 where
    pub reviewed : (f : CriticFinding F) × Member f findings × (f.submission_id ≡ submission.id)
    pub unrefuted :
        (f : CriticFinding F)
        → Member f findings
        → f.submission_id ≡ submission.id
        → f.fatal_error ≡ false

  pub adversarial_passed :
      (id : ℕ) (findings : List (CriticFinding F))
      → ((verify_adversarial run_id generation_id submission id findings).status ≡ passed)
      → Survived findings
  unfolding verify_adversarial
  adversarial_passed id findings h =
      let relevant = keep_if concerns findings in
      let no_fatal : is_empty (keep_if is_fatal relevant) ≡ true = ground arith in
      let some_finding : is_empty relevant ≡ false = ground arith in
      let (f, m, e) = keep_if_found concerns findings some_finding in
      record {
        reviewed = (f, m, (nat_beq_iff f.submission_id submission.id).0 e);
        unrefuted = λ g n e'.
            All-at (λ x. is_fatal x ≡ false)
              (keep_if-Member_of concerns findings n
                ((nat_beq_iff g.submission_id submission.id).1 e'))
              (keep_if-empty is_fatal relevant no_fatal);
      }

  pub passed_adversarial :
      (id : ℕ) (findings : List (CriticFinding F))
      → Survived findings
      → (verify_adversarial run_id generation_id submission id findings).status ≡ passed
  unfolding verify_adversarial
  passed_adversarial id findings s =
      let relevant = keep_if concerns findings in
      let (f, m, e) = s.reviewed in
      let some_finding =
        keep_if_some concerns findings m ((nat_beq_iff f.submission_id submission.id).1 e) in
      let no_fatal = keep_if_none is_fatal relevant (
        All-of relevant λ g n.
          let (n', e') = keep_if-Member concerns findings n in
          s.unrefuted g n' ((nat_beq_iff g.submission_id submission.id).0 e')) in
      ground (arith, some_finding, no_fatal)

  -- There is an explicit answer, and every claim has explicit support.
  pub record Supported : Type 0 where
    pub answered : is_blank submission.final_answer ≡ false
    pub backed : All (λ (c : ClaimDraft F). is_blank c.support ≡ false) submission.claims
