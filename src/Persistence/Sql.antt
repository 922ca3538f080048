-- ===== src/Persistence/Sql.antt =====
-- What the repositories of packages/persistence/repositories.py share: a table is the list of its
-- records, as SQLAlchemy keeps them in packages/persistence/models.py. A mapper reads an entity back
-- from a record, and raises when a column has a text that is no value of its enumeration. The column
-- `updated_at` is left out: nothing reads it.
use agent_coordination.Prelude.{
  Bool, List, Option, [], find_row, if◌then◌else◌, keep_if, lexi, map, none, some, sort, ℕ, ◌++◌,
  ◌∷◌, ◌≡◌,
}
use agent_coordination.Errors.{Error, Result, err, ok, ◌>>=◌}
use agent_coordination.Floats.{by_number}

-- How an entity `E` is kept in a record `R`: `to_record` is the record that `add` makes of it, with
-- the time of the transaction, and `from_record` is its mapper.
pub record Codec (E R : Type 0) : Type 0 where
  pub entity_id : E → ℕ
  pub record_id : R → ℕ
  pub created_at : R → ℕ
  pub to_record : ℕ → E → R
  pub from_record : R → Result E
  pub same_id : (now : ℕ) (e : E) → record_id (to_record now e) ≡ entity_id e
  pub same_time : (now : ℕ) (e : E) → created_at (to_record now e) ≡ now
  pub round_trip : (now : ℕ) (e : E) → from_record (to_record now e) ≡ ok e

-- `[from_record(record) for record in records]`
unfoldable pub read_all : {E R : Type 0} → (R → Result E) → List R → Result (List E)
read_all from_record [] = ok []
read_all from_record (r ∷ rs) = do e ← from_record r; es ← read_all from_record rs; ok (e ∷ es)

abbrev pub read_option : {E R : Type 0} → (R → Result E) → Option R → Result (Option E)
read_option from_record none = ok none
read_option from_record (some r) = from_record r >>= λ e. ok (some e)

unfoldable pub first_where : {R : Type 0} → (R → Bool) → List R → Option R
first_where p [] = none
first_where p (r ∷ rs) = if p r then some r else first_where p rs

module _ {E R : Type 0} (c : Codec E R) where
  -- `session.add(record)`, `session.flush()`, and the entity that is read back.
  unfoldable pub insert_one : ℕ → E → List R → Result (E × List R)
  insert_one now e table = do
    stored ← c.from_record (c.to_record now e)
    ok (stored, table ++ c.to_record now e ∷ [])

  unfoldable pub insert_many : ℕ → List E → List R → Result (List E × List R)
  unfolding read_all
  insert_many now es table = do
    let records = map (c.to_record now) es
    stored ← read_all c.from_record records
    ok (stored, table ++ records)

  -- `session.get(Record, key)`
  unfoldable pub fetch : ℕ → List R → Result (Option E)
  unfolding find_row
  fetch key table = read_option c.from_record (find_row c.record_id key table)

  -- `session.execute(select(Record).where(...)).scalar_one_or_none()`, where a unique constraint lets
  -- at most one row meet the condition.
  unfoldable pub fetch_where : (R → Bool) → List R → Result (Option E)
  unfolding first_where
  fetch_where p table = read_option c.from_record (first_where p table)

  -- `ORDER BY created_at, id`
  unfoldable pub oldest_first : R → R → Bool
  oldest_first = lexi (by_number c.created_at) (by_number c.record_id)

  -- `ORDER BY created_at DESC, id`
  unfoldable pub newest_first : R → R → Bool
  newest_first = lexi (λ a b. by_number c.created_at b a) (by_number c.record_id)

  -- `session.execute(select(Record).where(...).order_by(...)).scalars()`
  unfoldable pub select_in : (R → R → Bool) → (R → Bool) → List R → Result (List E)
  unfolding sort keep_if read_all
  select_in order p table = read_all c.from_record (sort order (keep_if p table))

  unfoldable pub select_rows : (R → Bool) → List R → Result (List E)
  unfolding select_in oldest_first
  select_rows = select_in oldest_first

  -- A column of the row is set and flushed: the row that `first_where` finds.
  unfoldable pub write_first : (R → Bool) → (R → R) → List R → List R
  write_first p f [] = []
  write_first p f (r ∷ rs) = if p r then f r ∷ rs else r ∷ write_first p f rs

  unfoldable pub update_where_found : Error → (R → Bool) → (R → R) → List R → Result (E × List R)
  unfolding first_where write_first
  update_where_found missing p f table = elim (first_where p table) [
    | none ↦ err missing
    | some r ↦ c.from_record (f r) >>= λ e. ok (e, write_first p f table)
  ]
