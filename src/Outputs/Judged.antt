-- ===== src/Outputs/Judged.antt =====
-- What an accepted answer of a judge covers.
use agent_coordination.Prelude.{
  All, All-at, Bool-cases, List, Member, Member-head, Text, [], all_of-All, ap, arith, count_where,
  false, if◌then◌else◌, inl, inr, is_empty, keep_if-empty, later, ltb, refl, subst, sym, true, ℕ,
  ◌<◌, ◌∙◌, ◌∷◌, ◌≡◌, ◌⊎◌,
}
use agent_coordination.Errors.{ok}
use agent_coordination.Outputs.{
  JudgeOutput, Validated, candidate_ids, check_output, duplicate_ids, invalid, parse_judge_output,
  repeated_ids, same_set, valid,
}
use agent_coordination.Domain.Keys.{text_beq, text_beq_iff}
use agent_coordination.Testing.Verdict.{is_empty-set_of, is_empty-sort}
use agent_coordination.Selection.Similarity.{set_of, text_in}

text_in_none :
    (id : Text) (ids : List Text) → text_in id ids ≡ false → count_where (text_beq id) ids ≡ 0
unfolding text_in count_where
text_in_none id [] h = refl
text_in_none id (x ∷ ids) h = ground (arith, h, text_in_none id ids)

text_in_some :
    (id : Text) (ids : List Text) → text_in id ids ≡ true → 0 < count_where (text_beq id) ids
unfolding text_in count_where
text_in_some id [] h = absurd (cc)
text_in_some id (x ∷ ids) h = ground (arith, h, text_in_some id ids)

text_in-Member : (id : Text) (ids : List Text) → text_in id ids ≡ true → Member id ids
unfolding text_in
text_in-Member id [] h = absurd (cc)
text_in-Member id (x ∷ ids) h = elim (Bool-cases (text_beq id x)) [
  | inl e ↦ Member-head (sym ((text_beq_iff id x).0 e))
  | inr e ↦ later (text_in-Member id ids (rw e at h))
]

-- How often an id is to be evaluated.
abbrev pub times_expected : Text → List Text → ℕ
times_expected id expected = if text_in id expected then 1 else 0

covered :
    (id : Text) (ids expected : List Text)
    → is_empty (repeated_ids ids) ≡ true
    → same_set ids expected ≡ true
    → count_where (text_beq id) ids ≡ times_expected id expected
unfolding repeated_ids same_set
covered id ids expected once same =
    let (into, from) = halves ids expected same in
    elim (Bool-cases (text_in id expected)) [
      | inl e ↦
          let here = All-at (λ x. text_in x ids ≡ true) (text_in-Member id expected e) from in
          let single =
            All-at (λ x. ltb 1 (count_where (text_beq x) ids) ≡ false) (text_in-Member id ids here)
              (keep_if-empty (λ x. ltb 1 (count_where (text_beq x) ids)) ids once) in
          rw e (ground (arith, single, text_in_some id ids here))
      | inr e ↦ elim (Bool-cases (text_in id ids)) [
        | inl here ↦
            absurd
              (cc (e, All-at (λ x. text_in x expected ≡ true) (text_in-Member id ids here) into))
        | inr absent ↦ rw e (text_in_none id ids absent)
      ]
    ]
  where
    halves :
        (ids expected : List Text)
        → same_set ids expected ≡ true
        → All (λ x. text_in x expected ≡ true) ids × All (λ x. text_in x ids ≡ true) expected
    halves ids expected same = (
      (all_of-All (λ x. text_in x expected) ids).0 (ground (arith, same)),
      (all_of-All (λ x. text_in x ids) expected).0 (ground (arith, same)),
    )

Validated-cases :
    {F : Type 0} (v : Validated F)
    → ((output : JudgeOutput F) × (v ≡ valid output)) ⊎ ((message : Text) × (v ≡ invalid message))
Validated-cases (valid output) = inl (output, refl)
Validated-cases (invalid message) = inr (message, refl)

is_empty-duplicate_ids :
    (ids : List Text) → is_empty (duplicate_ids ids) ≡ is_empty (repeated_ids ids)
unfolding duplicate_ids
is_empty-duplicate_ids ids =
    is_empty-sort (set_of (repeated_ids ids)) ∙ is_empty-set_of (repeated_ids ids)

accepted_output :
    {F : Type 0} (found output : JudgeOutput F) (expected : List Text)
    → check_output found expected ≡ ok output
    → (found ≡ output)
      × (is_empty (repeated_ids (candidate_ids found)) ≡ true)
      × (same_set (candidate_ids found) expected ≡ true)
unfolding check_output
accepted_output found output expected h =
    let ids = candidate_ids found in
    elim (Bool-cases (is_empty (duplicate_ids ids))) [
      | inr some_repeated ↦ absurd (cc (rw (some_repeated, check_output) at h))
      | inl none_repeated ↦ elim (Bool-cases (same_set ids expected)) [
        | inr differ ↦ absurd (cc (rw (none_repeated, differ, check_output) at h))
        | inl agree ↦ (
          cc (rw (none_repeated, agree, check_output) at h),
          sym (is_empty-duplicate_ids ids) ∙ none_repeated,
          agree,
        )
      ]
    ]

-- An answer that `parse_judge_output` accepts is the validated one, and evaluates each expected
-- candidate exactly once and no other candidate.
pub parse_judge_output_covers :
    {F : Type 0} (validate : Text → Validated F) (raw_response : Text) (expected : List Text)
    (output : JudgeOutput F)
    → parse_judge_output validate raw_response expected ≡ ok output
    → (validate raw_response ≡ valid output)
      × ((id : Text)
          → count_where (text_beq id) (candidate_ids output) ≡ times_expected id expected)
unfolding parse_judge_output
parse_judge_output_covers validate raw_response expected output h =
    elim (Validated-cases (validate raw_response)) [
      | inl (found, e) ↦
          let (same, once, sets) =
            accepted_output found output expected (rw (e, parse_judge_output) at h) in
          (
            e ∙ ap valid same,
            λ id.
                subst
                  (λ o. count_where (text_beq id) (candidate_ids o) ≡ times_expected id expected)
                  same (covered id (candidate_ids found) expected once sets),
          )
      | inr (message, e) ↦ absurd (cc (rw (e, parse_judge_output) at h))
    ]
