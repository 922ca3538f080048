-- ===== src/Queue/Earliest.antt =====
-- `ORDER BY available_at, created_at, id LIMIT 1` picks a row that comes after no other.
use agent_coordination.Prelude.{
  true, List, [], ◌∷◌, none, some, ◌⊎◌, subst, false, ◌≡◌, refl, arith, All, All-imp, Member, later,
  Member-head, Option-cases, inl, inr,
}
use agent_coordination.Queue.Rows.{JobRecord, earliest, not_after}

not_after_trans :
    (r s t : JobRecord) → not_after r s ≡ true → not_after s t ≡ true → not_after r t ≡ true
unfolding not_after
not_after_trans r s t h k = ground arith

not_after_refl : (r : JobRecord) → not_after r r ≡ true
unfolding not_after
not_after_refl r = ground arith

not_after-total : (r s : JobRecord) → not_after r s ≡ false → not_after s r ≡ true
unfolding not_after
not_after-total r s h = ground arith

pub earliest-none : (rs : List JobRecord) → earliest rs ≡ none → rs ≡ []
unfolding earliest
earliest-none [] h = refl
earliest-none (r ∷ rs) h = absurd (ground arith)

pub earliest_cons :
    (r s : JobRecord) (rs : List JobRecord)
    → earliest (r ∷ rs) ≡ some s
    → ((rs ≡ []) × (r ≡ s))
      ⊎ ((t : JobRecord) × (earliest rs ≡ some t)
          × ((not_after r t ≡ true) × (r ≡ s) ⊎ (not_after r t ≡ false) × (t ≡ s)))
unfolding earliest
earliest_cons r s rs h = elim (Option-cases (earliest rs)) [
  | inl e ↦ inl (earliest-none rs e, ground arith)
  | inr (t, e) ↦ inr (t, e, ground arith)
]

pub earliest-Member : (rs : List JobRecord) (s : JobRecord) → earliest rs ≡ some s → Member s rs
unfolding earliest
earliest-Member [] s h = absurd (cc)
earliest-Member (r ∷ rs) s h = elim (earliest_cons r s rs h) [
  | inl (_, same) ↦ Member-head same
  | inr (t, e, inl (_, same)) ↦ Member-head same
  | inr (t, e, inr (_, same)) ↦ later (earliest-Member rs s (rw same at e))
]

pub earliest_least :
    (rs : List JobRecord) (s : JobRecord)
    → earliest rs ≡ some s
    → All (λ t. not_after s t ≡ true) rs
unfolding earliest
earliest_least [] s h = tt
earliest_least (r ∷ rs) s h = elim (earliest_cons r s rs h) [
  | inl (nil, same) ↦ at same (rw nil (not_after_refl r, tt))
  | inr (t, e, inl (le, same)) ↦
      at same (not_after_refl r, All-imp rs (λ u. not_after_trans r t u le) (earliest_least rs t e))
  | inr (t, e, inr (gt, same)) ↦ at same (not_after-total r t gt, earliest_least rs t e)
]
  where
    at :
        {t : JobRecord}
        → t ≡ s
        → All (λ u. not_after t u ≡ true) (r ∷ rs)
        → All (λ u. not_after s u ≡ true) (r ∷ rs)
    at same = subst (λ t. All (λ u. not_after t u ≡ true) (r ∷ rs)) same
