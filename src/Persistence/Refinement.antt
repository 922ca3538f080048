-- ===== src/Persistence/Refinement.antt =====
-- The SQL repositories of packages/persistence/repositories.py against the tables of entities of
-- Store, which the orchestrators are modelled on.
use agent_coordination.Prelude.{
  Bool, Bool-cases, List, [], ap, arith, inl, inr, insert_sorted, keep_if, map, map-append, none,
  refl, some, sort, ℕ, ◌∙◌, ◌∷◌, ◌≡◌, ◌⊎◌,
}
use agent_coordination.Errors.{Error, err, ok}
use agent_coordination.Persistence.Sql.{
  Codec, fetch_where, first_where, insert_many, oldest_first, read_all, read_option, select_in,
  select_rows, update_where_found, write_first,
}
use agent_coordination.Store.Rows.{
  Stamped, Table, find_where, in_order, insert_all, list_where, row_of, stamp, write_where,
}

module _ {A B : Type 0} (f : A → B) where
  keep_if-map :
      (p : B → Bool) (q : A → Bool)
      → ((a : A) → p (f a) ≡ q a)
      → (xs : List A) → keep_if p (map f xs) ≡ map f (keep_if q xs)
  unfolding keep_if
  keep_if-map p q same [] = refl
  keep_if-map p q same (x ∷ xs) = ground (arith, same x, keep_if-map p q same xs)

  module _ (le : A → A → Bool) (le' : B → B → Bool)
      (same : (a b : A) → le' (f a) (f b) ≡ le a b) where
    insert_sorted-map :
        (x : A) (ys : List A) → insert_sorted le' (f x) (map f ys) ≡ map f (insert_sorted le x ys)
    unfolding insert_sorted
    insert_sorted-map x [] = refl
    insert_sorted-map x (y ∷ ys) = ground (arith, same x y, insert_sorted-map x ys)

    sort-map : (xs : List A) → sort le' (map f xs) ≡ map f (sort le xs)
    unfolding sort
    sort-map [] = refl
    sort-map (x ∷ xs) = rw (sort-map xs) (insert_sorted-map x (sort le xs))

module _ {E R : Type 0} (c : Codec E R) where
  abbrev pub encode_row : Stamped E → R
  encode_row s = c.to_record s.created_at s.row

  -- The records of a table of entities.
  abbrev pub encode : Table E → List R
  encode table = map encode_row table

  read_all-encode : (rows : Table E) → read_all c.from_record (encode rows) ≡ ok (map row_of rows)
  unfolding read_all
  read_all-encode [] = refl
  read_all-encode (s ∷ rows) = rw (c.round_trip s.created_at s.row, read_all-encode rows) refl

  order-encode :
      (a b : Stamped E) → oldest_first c (encode_row a) (encode_row b) ≡ in_order c.entity_id a b
  unfolding oldest_first in_order
  order-encode a b =
      rw
        (
          c.same_time a.created_at a.row,
          c.same_time b.created_at b.row,
          c.same_id a.created_at a.row,
          c.same_id b.created_at b.row,
        )
        refl

  module _ (p : R → Bool) (q : E → Bool)
      (same : (now : ℕ) (e : E) → p (c.to_record now e) ≡ q e) where
    first_where-encode :
        (table : Table E)
        → read_option c.from_record (first_where p (encode table)) ≡ ok (find_where q table)
    unfolding first_where find_where
    first_where-encode [] = refl
    first_where-encode (s ∷ table) = elim (Bool-cases (q s.row)) [
      | inl e ↦ rw (same s.created_at s.row, e, c.round_trip s.created_at s.row) refl
      | inr e ↦ rw (same s.created_at s.row, e) (first_where-encode table)
    ]

    select_rows-encode :
        (table : Table E) → select_rows c p (encode table) ≡ ok (list_where c.entity_id q table)
    unfolding select_rows select_in list_where
    select_rows-encode table =
        let rows = keep_if (λ (s : Stamped E). q s.row) table in
        ap (λ rs. read_all c.from_record (sort (oldest_first c) rs))
          (keep_if-map encode_row p (λ s. q s.row) (λ s. same s.created_at s.row) table)
        ∙ ap (read_all c.from_record)
            (sort-map encode_row (in_order c.entity_id) (oldest_first c) order-encode rows)
        ∙ read_all-encode (sort (in_order c.entity_id) rows)

    module _ (f : R → R) (g : E → E)
        (written : (now : ℕ) (e : E) → f (c.to_record now e) ≡ c.to_record now (g e)) where
      write_first-encode :
          (table : Table E) → write_first c p f (encode table) ≡ encode (write_where q g table)
      unfolding write_first write_where
      write_first-encode [] = refl
      write_first-encode (s ∷ table) = elim (Bool-cases (q s.row)) [
        | inl e ↦ rw (same s.created_at s.row, e, written s.created_at s.row) refl
        | inr e ↦
            rw (same s.created_at s.row, e) (ap (λ t. encode_row s ∷ t) (write_first-encode table))
      ]

    first_found :
        (table : Table E)
        → ((first_where p (encode table) ≡ none) × (find_where q table ≡ none))
          ⊎ ((s : Stamped E) × (first_where p (encode table) ≡ some (encode_row s))
              × (find_where q table ≡ some s.row))
    unfolding first_where find_where
    first_found [] = inl (refl, refl)
    first_found (s ∷ table) = elim (Bool-cases (q s.row)) [
      | inl e ↦ inr (s, rw (same s.created_at s.row, e) refl, rw e refl)
      | inr e ↦ rw (same s.created_at s.row, e) (first_found table)
    ]

  insert_many-encode :
      (now : ℕ) (es : List E) (table : Table E)
      → insert_many c now es (encode table) ≡ ok (es, encode (insert_all now es table))
  unfolding insert_many insert_all stamp read_all
  insert_many-encode now es table =
      let stamps = map (stamp now) es in
      rw (read_new now es, map-append encode_row table stamps, encode_new now es) refl
    where
      read_new : (now : ℕ) (es : List E) → read_all c.from_record (map (c.to_record now) es) ≡ ok es
      read_new now [] = refl
      read_new now (e ∷ es) = rw (c.round_trip now e, read_new now es) refl

      encode_new : (now : ℕ) (es : List E) → encode (map (stamp now) es) ≡ map (c.to_record now) es
      encode_new now [] = refl
      encode_new now (e ∷ es) = ap (λ rs. c.to_record now e ∷ rs) (encode_new now es)

-- The SQL of a repository on the records does what Store says of the entities.
pub record Refines {E R : Type 0} (c : Codec E R) : Type 0 where
  pub inserts :
      (now : ℕ) (es : List E) (table : Table E)
      → insert_many c now es (encode c table) ≡ ok (es, encode c (insert_all now es table))
  pub selects :
      (p : R → Bool) (q : E → Bool)
      → ((now : ℕ) (e : E) → p (c.to_record now e) ≡ q e)
      → (table : Table E) → select_rows c p (encode c table) ≡ ok (list_where c.entity_id q table)
  pub finds :
      (p : R → Bool) (q : E → Bool)
      → ((now : ℕ) (e : E) → p (c.to_record now e) ≡ q e)
      → (table : Table E) → fetch_where c p (encode c table) ≡ ok (find_where q table)
  pub updates :
      (p : R → Bool) (q : E → Bool)
      → ((now : ℕ) (e : E) → p (c.to_record now e) ≡ q e)
      → (f : R → R) (g : E → E)
      → ((now : ℕ) (e : E) → f (c.to_record now e) ≡ c.to_record now (g e))
      → (missing : Error) (table : Table E)
      → update_where_found c missing p f (encode c table) ≡ elim (find_where q table) [
        | none ↦ err missing
        | some e ↦ ok (g e, encode c (write_where q g table))
      ]

-- For every mapper that reads back what `add` writes: on the records of a table of entities, `add`
-- and `add_many` add the records of the new entities and return them, a list query ordered by
-- `created_at` and `id` returns the entities that meet its condition in that order, a query for one
-- row returns the entity found, and an update raises when no row is found, and else writes the
-- changed entity in its place and returns it. None of them raises for a text of an enumeration.
pub codec-Refines : {E R : Type 0} (c : Codec E R) → Refines c
unfolding fetch_where update_where_found
codec-Refines c = record {
  inserts = insert_many-encode c;
  selects = select_rows-encode c;
  finds = first_where-encode c;
  updates = λ p q same f g written missing table. elim (first_found c p q same table) [
    | inl (no_record, no_entity) ↦ rw (no_record, no_entity, update_where_found) refl
    | inr (s, found, here) ↦
        rw
          (
            found,
            update_where_found,
            here,
            written s.created_at s.row,
            c.round_trip s.created_at (g s.row),
            write_first-encode c p q same f g written table,
          )
          refl
  ];
}
