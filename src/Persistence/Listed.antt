-- ===== src/Persistence/Listed.antt =====
-- The rows that a query of a repository finds, and what a query finds after a row is written:
-- packages/persistence/repositories.py, told of the entities and the times at which they were added.
use agent_coordination.Prelude.{
  All, All-of, Bool, Bool-cases, Distinct, IsOrder, IsSorted-Pairwise, List, Member, Member-sort,
  Pairwise, [], arith, false, find_row, first, inl, inr, keep_if, keep_if-Distinct, keep_if-Member,
  keep_if-Member_of, later, lexi-IsOrder, lexi-cases, map, nat_eq, none, refl, some, sort,
  sort-Distinct, sort-IsSorted, sort-Member, string_eq, true, ℕ, ◌<◌, ◌==◌, ◌↔◌, ◌∷◌, ◌≡◌, ◌≤◌, ◌⊎◌,
}
use agent_coordination.Errors.{ok}
use agent_coordination.Persistence.Refinement.{codec-Refines, encode}
use agent_coordination.Persistence.Sql.{Codec, first_where, select_rows}
use agent_coordination.Store.Rows.{
  Stamped, Table, find_where, in_order, list_where, row_of, write_where,
}
use agent_coordination.Floats.{by_number, by_number-IsOrder}

module _ {E R : Type 0} (c : Codec E R) where
  -- Added earlier, or at the same time and of a smaller id.
  abbrev pub Older : Stamped E → Stamped E → Type 0
  Older s t =
      (s.created_at < t.created_at)
      ⊎ ((s.created_at ≡ t.created_at) × (c.entity_id s.row ≤ c.entity_id t.row))

  -- The rows found are those of the table that meet the condition, each once where the table has no
  -- id twice, the oldest first.
  pub record Listing (rows : Table E) (Meets : E → Type 0) (found : Table E) : Type 0 where
    pub from_table : All (λ s. Member s rows × Meets s.row) found
    pub complete : (s : Stamped E) → Member s rows → Meets s.row → Member s found
    pub once : Distinct (λ s. c.entity_id s.row) rows → Distinct (λ s. c.entity_id s.row) found
    pub oldest_before : Pairwise Older found

  older : (s t : Stamped E) → in_order c.entity_id s t ≡ true → Older s t
  unfolding in_order
  older s t h =
      elim (lexi-cases (by_number (λ (r : Stamped E). r.created_at))
        (by_number (λ (r : Stamped E). c.entity_id r.row)) s t h) [
          | inl e ↦ inl (ground (arith, e))
          | inr (a, b, n) ↦ inr (ground (arith, a, b), ground (arith, n))
        ]

  in_order-IsOrder : IsOrder (in_order c.entity_id)
  unfolding in_order
  in_order-IsOrder =
      lexi-IsOrder (by_number-IsOrder (λ (s : Stamped E). s.created_at))
        (by_number-IsOrder (λ (s : Stamped E). c.entity_id s.row))

  module _ (p : R → Bool) (q : E → Bool) (same : (now : ℕ) (e : E) → p (c.to_record now e) ≡ q e)
      (Meets : E → Type 0) (tested : (e : E) → (q e ≡ true) ↔ Meets e) where
    abbrev chosen : Table E → Table E
    chosen rows = keep_if (λ (s : Stamped E). q s.row) rows

    pub select_rows-Listing :
        (rows : Table E)
        → (found : Table E) × (select_rows c p (encode c rows) ≡ ok (map row_of found))
          × Listing rows Meets found
    unfolding list_where
    select_rows-Listing rows =
        let found = sort (in_order c.entity_id) (chosen rows) in
        (
          found,
          (codec-Refines c).selects p q same rows,
          record {
            from_table = All-of found λ s m.
                let (given, h) =
                  keep_if-Member (λ (r : Stamped E). q r.row) rows
                    (sort-Member (in_order c.entity_id) (chosen rows) m) in
                (given, (tested s.row).0 h);
            complete = λ s m h.
                Member-sort (in_order c.entity_id) (chosen rows)
                  (keep_if-Member_of (λ (r : Stamped E). q r.row) rows m ((tested s.row).1 h));
            once = λ d.
                sort-Distinct (in_order c.entity_id) (λ s. c.entity_id s.row) (chosen rows)
                  (keep_if-Distinct (λ s. c.entity_id s.row) (λ (r : Stamped E). q r.row) rows d);
            oldest_before =
                IsSorted-Pairwise (in_order c.entity_id) Older older found
                  (sort-IsSorted (in_order c.entity_id) in_order-IsOrder (chosen rows));
          },
        )

    pub find_where-cases :
        (rows : Table E)
        → (All (λ s. ¬ (Meets s.row)) rows × (find_where q rows ≡ none))
          ⊎ ((s : Stamped E) × Member s rows × Meets s.row × (find_where q rows ≡ some s.row))
    unfolding find_where
    find_where-cases [] = inl (tt, refl)
    find_where-cases (s ∷ rows) = elim (Bool-cases (q s.row)) [
      | inl e ↦ inr (s, first, (tested s.row).0 e, rw e refl)
      | inr e ↦ elim (find_where-cases rows) [
        | inl (absent, h) ↦ inl ((λ m. absurd (cc (e, (tested s.row).1 m)), absent), rw e h)
        | inr (t, m, meets, h) ↦ inr (t, later m, meets, rw e h)
      ]
    ]

module _ {E : Type 0} (q : E → Bool) (g : E → E) where
  pub find_where-write_where :
      (rows : Table E) (e : E)
      → find_where q rows ≡ some e
      → q (g e) ≡ true
      → find_where q (write_where q g rows) ≡ some (g e)
  unfolding find_where write_where
  find_where-write_where [] e h k = absurd (ground (arith, h))
  find_where-write_where (s ∷ rows) e h k = elim (Bool-cases (q s.row)) [
    | inl y ↦ let here : s.row ≡ e = ground (arith, h, y) in rw (y, here, k) refl
    | inr n ↦ rw (n, find_where, n) (find_where-write_where rows e (rw (find_where, n) at h) k)
  ]

  pub find_where-others :
      (r : E → Bool)
      → ((e : E) → q e ≡ true → (r e ≡ false) × (r (g e) ≡ false))
      → (rows : Table E) → find_where r (write_where q g rows) ≡ find_where r rows
  unfolding find_where write_where
  find_where-others r apart [] = refl
  find_where-others r apart (s ∷ rows) = elim (Bool-cases (q s.row)) [
    | inl y ↦ rw (y, (apart s.row y).0, (apart s.row y).1) refl
    | inr n ↦ rw n (ground (arith, find_where-others r apart rows))
  ]

pub first_where-find_row :
    {R : Type 0} (id : R → ℕ) (key : ℕ) (table : List R)
    → find_row id key table ≡ first_where (λ r. id r == key) table
unfolding find_row first_where
first_where-find_row id key [] = refl
first_where-find_row id key (r ∷ table) = ground (arith, first_where-find_row id key table)
