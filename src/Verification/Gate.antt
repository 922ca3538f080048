-- ===== src/Verification/Gate.antt =====
-- When a candidate is verified: the checks of `verify`, together.
use agent_coordination.Prelude.{
  All, Bool-cases, List, Option, Option-cases, Text, [], arith, inl, inr, is_empty, is_empty-map,
  keep_if, keep_if-empty, keep_if_none, none, refl, true, ℕ, ◌+◌, ◌↔◌, ◌∷◌, ◌≡◌,
}
use agent_coordination.Domain.Enums.{passed}
use agent_coordination.Domain.Research.{ClaimDraft, CriticFinding, Submission}
use agent_coordination.Verification.Fences.{python_blocks}
use agent_coordination.Verification.{
  block_errors, blocks_result, corpus, is_blank, option_list, overall_status, verify,
  verify_structured_evidence,
}
use agent_coordination.Verification.Verdicts.{
  Supported, Survived, adversarial_passed, overall_status_iff, passed_adversarial,
}

module _ (syntax_error : Text → Option Text) where
  block_errors-empty :
      (index : ℕ) (blocks : List Text)
      → (is_empty (block_errors syntax_error index blocks) ≡ true)
        ↔ All (λ b. syntax_error b ≡ none) blocks
  unfolding block_errors
  block_errors-empty index [] = (λ _. tt, λ _. refl)
  block_errors-empty index (b ∷ bs) = elim (Option-cases (syntax_error b)) [
    | inl e ↦ (
      λ h. (e, (block_errors-empty (index + 1) bs).0 (rw (e, block_errors) at h)),
      λ h. rw (e, block_errors) ((block_errors-empty (index + 1) bs).1 h.1),
    )
    | inr (message, e) ↦ (λ h. absurd (cc (rw (e, block_errors) at h)), λ h. absurd (cc (e, h.0)))
  ]

module _ {F : Type 0} (run_id generation_id : ℕ) (submission : Submission F) where
  structured_passed :
      (id : ℕ)
      → ((verify_structured_evidence run_id generation_id submission id).status ≡ passed)
        ↔ Supported run_id generation_id submission
  unfolding verify_structured_evidence
  structured_passed id =
      let claims = submission.claims in
      let blank = λ (c : ClaimDraft F). is_blank c.support in
      let same = is_empty-map (λ c. c.statement) (keep_if blank claims) in
      (
        λ h. record {
          answered = ground arith;
          backed = keep_if-empty blank claims (ground (arith, same));
        },
        λ s. ground (arith, same, keep_if_none blank claims s.backed),
      )

  blocks_passed :
      (syntax_error : Text → Option Text) (id : ℕ) (blocks : List Text)
      → All
          (λ r. r.status ≡ passed)
          (option_list (blocks_result run_id generation_id submission syntax_error id blocks))
        ↔ All (λ b. syntax_error b ≡ none) blocks
  unfolding blocks_result
  blocks_passed syntax_error id [] = (λ _. tt, λ _. tt)
  blocks_passed syntax_error id (b ∷ bs) =
      let errors = block_errors syntax_error 0 (b ∷ bs) in
      elim (Bool-cases (is_empty errors)) [
        | inl e ↦ (
          λ _. (block_errors-empty syntax_error 0 (b ∷ bs)).0 e,
          λ _. rw (e, blocks_result) (refl, tt),
        )
        | inr e ↦ (
          λ h. absurd (cc ((rw (e, blocks_result) at h).0)),
          λ h. absurd (cc (e, (block_errors-empty syntax_error 0 (b ∷ bs)).1 h)),
        )
      ]

  -- What the gate demands of a candidate: it survived its critics, has an answer and supported
  -- claims, and each of its Python blocks compiles.
  pub record PassesGate (syntax_error : Text → Option Text) (findings : List (CriticFinding F))
      : Type 0 where
    pub survived : Survived run_id generation_id submission findings
    pub supported : Supported run_id generation_id submission
    pub compiles : All (λ b. syntax_error b ≡ none) (python_blocks (corpus submission))

  -- The combined verdict of the checks that `verify` makes is PASSED exactly when some critic
  -- examined the submission and none reported a fatal error in it, there is an answer that is not
  -- blank, every claim has support that is not blank, and every fenced Python block compiles. So no
  -- score of a judge can make a candidate verified, and none can keep it from being verified.
  pub verify-passed :
      (syntax_error : Text → Option Text) (id id' id'' : ℕ) (findings : List (CriticFinding F))
      → (overall_status (verify run_id generation_id submission syntax_error id id' id'' findings)
          ≡ passed)
        ↔ PassesGate syntax_error findings
  unfolding verify
  verify-passed syntax_error id id' id'' findings =
      let results = verify run_id generation_id submission syntax_error id id' id'' findings in
      let blocks = python_blocks (corpus submission) in
      let verdict = (overall_status_iff results).1 in
      (
        λ h.
            let (_, all_passed) = verdict.0 h in
            record {
              survived =
                  adversarial_passed run_id generation_id submission id findings all_passed.0;
              supported = (structured_passed id').0 all_passed.1.0;
              compiles = (blocks_passed syntax_error id'' blocks).0 all_passed.1.1;
            },
        λ g. verdict.1 (
          refl,
          (
            passed_adversarial run_id generation_id submission id findings g.survived,
            (
              (structured_passed id').1 g.supported,
              (blocks_passed syntax_error id'' blocks).1 g.compiles,
            ),
          ),
        ),
      )
