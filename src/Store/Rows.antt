-- ===== src/Store/Rows.antt =====
-- A table whose rows carry `created_at`, as `TimestampMixin` of packages/persistence/models.py gives
-- it: PostgreSQL's `now()`, the start of the transaction that inserts the row.
use agent_coordination.Prelude.{
  Bool, List, Option, [], if◌then◌else◌, keep_if, lexi, map, none, some, sort, ℕ, ◌++◌, ◌∷◌,
}
use agent_coordination.Floats.{by_number}

pub record Stamped (A : Type 0) : Type 0 where
  pub row : A
  pub created_at : ℕ

abbrev pub Table : Type 0 → Type 0
Table A = List (Stamped A)

module _ {A : Type 0} where
  abbrev pub row_of : Stamped A → A
  row_of s = s.row

  unfoldable pub stamp : ℕ → A → Stamped A
  stamp now row = record { row = row; created_at = now }

  -- `session.add_all(records)` and `session.flush()`
  unfoldable pub insert_all : ℕ → List A → Table A → Table A
  unfolding stamp
  insert_all now rows table = table ++ map (stamp now) rows

  module _ (id : A → ℕ) where
    -- `ORDER BY created_at, id`
    unfoldable pub in_order : Stamped A → Stamped A → Bool
    in_order =
        lexi (by_number (λ (s : Stamped A). s.created_at)) (by_number (λ (s : Stamped A). id s.row))

    -- `SELECT ... WHERE ... ORDER BY created_at, id`
    unfoldable pub list_where : (A → Bool) → Table A → List A
    unfolding in_order sort keep_if
    list_where p table = map row_of (sort in_order (keep_if (λ s. p s.row) table))

  -- `scalar_one_or_none()`, under a condition that a primary key or a unique constraint lets at most
  -- one row meet.
  unfoldable pub find_where : (A → Bool) → Table A → Option A
  find_where p [] = none
  find_where p (s ∷ rest) = if p s.row then some s.row else find_where p rest

  -- The row that `find_where` finds is written anew, and keeps its stamp.
  unfoldable pub write_where : (A → Bool) → (A → A) → Table A → Table A
  write_where p f [] = []
  write_where p f (s ∷ rest) =
      if p s.row then record s { row = f s.row } ∷ rest else s ∷ write_where p f rest
