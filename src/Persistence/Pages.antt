-- ===== src/Persistence/Pages.antt =====
-- Reading the events of a run in pages, by `list_for_run` of packages/persistence/repositories.py.
use agent_coordination.Prelude.{
  All, All-at, All-both, All-imp, All-of, Bool, Bool-cases, Distinct, IsOrder, IsSorted, List,
  Member, [], ap, arith, false, find_row, first, if◌then◌else◌, inl, inr, insert_sorted, keep_if,
  keep_if-Distinct, keep_if-Member, later, lexi-IsOrder, map, nat_beq, nat_beq_refl, nat_eq, none,
  refl, some, sort, sort-Distinct, sort-IsSorted, sort-Member, string_eq, subst, sym, true, ℕ, ◌++◌,
  ◌==◌, ◌∙◌, ◌∷◌, ◌≡◌,
}
use agent_coordination.Persistence.Events.{
  RunEventRecord, event_id, event_order, event_rows, event_time, is_after, list_for_run, passes,
  run_event_from_record,
}
use agent_coordination.Domain.Service.{RunEvent}
use agent_coordination.Floats.{by_number-IsOrder}

event_order-IsOrder : IsOrder event_order
event_order-IsOrder = lexi-IsOrder (by_number-IsOrder event_time) (by_number-IsOrder event_id)

module _ {A : Type 0} where
  keep_if-All {κ} : (P : A → Type κ) (q : A → Bool) (xs : List A) → All P xs → All P (keep_if q xs)
  unfolding keep_if
  keep_if-All P q [] h = tt
  keep_if-All P q (x ∷ xs) h = elim (Bool-cases (q x)) [
    | inl e ↦ rw e (h.0, keep_if-All P q xs h.1)
    | inr e ↦ rw e (keep_if-All P q xs h.1)
  ]

  keep_every : (p : A → Bool) (xs : List A) → All (λ x. p x ≡ true) xs → keep_if p xs ≡ xs
  unfolding keep_if
  keep_every p [] h = refl
  keep_every p (x ∷ xs) h = rw h.0 (ap (λ ys. x ∷ ys) (keep_every p xs h.1))

  drop_every :
      (p : A → Bool) (xs ys : List A)
      → All (λ x. p x ≡ false) xs
      → keep_if p (xs ++ ys) ≡ keep_if p ys
  unfolding keep_if
  drop_every p [] ys h = refl
  drop_every p (x ∷ xs) ys h = rw h.0 (drop_every p xs ys h.1)

  keep_if-same :
      (p q : A → Bool) (xs : List A) → ((x : A) → p x ≡ q x) → keep_if p xs ≡ keep_if q xs
  unfolding keep_if
  keep_if-same p q [] same = refl
  keep_if-same p q (x ∷ xs) same = rw (same x, keep_if-same p q xs same) refl

  All-append_right {κ} : (P : A → Type κ) (xs ys : List A) → All P (xs ++ ys) → All P ys
  All-append_right P [] ys h = h
  All-append_right P (x ∷ xs) ys h = All-append_right P xs ys h.1

  -- What is sorted before and after an element.
  sorted_around :
      (le : A → A → Bool) (x : A) (xs ys : List A)
      → IsSorted le (xs ++ x ∷ ys)
      → All (λ a. le a x ≡ true) xs × All (λ b. le x b ≡ true) ys
  sorted_around le x [] ys s = (tt, s.0)
  sorted_around le x (a ∷ xs) ys s =
      let (before, after) = sorted_around le x xs ys s.1 in
      (((All-append_right _ xs (x ∷ ys) s.0).0, before), after)

  distinct_after :
      (id : A → ℕ) (x : A) (xs ys : List A)
      → Distinct id (xs ++ x ∷ ys)
      → All (λ y. nat_beq (id x) (id y) ≡ false) ys
  distinct_after id x [] ys d = d.0
  distinct_after id x (a ∷ xs) ys d = distinct_after id x xs ys d.1

  Member-middle : (x : A) (xs ys : List A) → Member x (xs ++ x ∷ ys)
  Member-middle x [] ys = first
  Member-middle x (a ∷ xs) ys = later (Member-middle x xs ys)

  find_row-Distinct :
      (id : A → ℕ) {x : A} (xs : List A)
      → Distinct id xs
      → Member x xs
      → find_row id (id x) xs ≡ some x
  unfolding find_row
  find_row-Distinct id [] d m = elim m [ ]
  find_row-Distinct id (x ∷ xs) d first = rw (nat_beq_refl (id x)) refl
  find_row-Distinct id {x} (a ∷ xs) d (later m) =
      rw (All-at _ m d.0) (find_row-Distinct id xs d.1 m)

module _ {A : Type 0} (le : A → A → Bool) (order : IsOrder le) (p : A → Bool) where
  least_first : (x : A) (ys : List A) → All (λ y. le x y ≡ true) ys → insert_sorted le x ys ≡ x ∷ ys
  unfolding insert_sorted
  least_first x [] h = refl
  least_first x (y ∷ ys) h = rw h.0 refl

  keep_if-insert_sorted :
      (x : A) (ys : List A)
      → IsSorted le ys
      → keep_if p (insert_sorted le x ys)
        ≡ (if p x then insert_sorted le x (keep_if p ys) else keep_if p ys)
  unfolding keep_if insert_sorted
  keep_if-insert_sorted x [] s = refl
  keep_if-insert_sorted x (y ∷ ys) s = elim (Bool-cases (le x y)) [
    | inl e ↦
        let least =
          least_first x (keep_if p ys)
            (keep_if-All _ p ys (All-imp ys (λ z h. order.trans x y z e h) s.0)) in
        rw e (ground (arith, least, e))
    | inr e ↦ rw e (ground (arith, keep_if-insert_sorted x ys s.1, e))
  ]

  keep_if-sort : (xs : List A) → keep_if p (sort le xs) ≡ sort le (keep_if p xs)
  unfolding keep_if sort
  keep_if-sort [] = refl
  keep_if-sort (x ∷ xs) =
      keep_if-insert_sorted x (sort le xs) (sort-IsSorted le order xs)
      ∙ ground (arith, keep_if-sort xs)

not_after : (anchor a : RunEventRecord) → event_order a anchor ≡ true → is_after anchor a ≡ false
unfolding is_after
not_after anchor a h = ground arith

is_later :
    (anchor b : RunEventRecord)
    → event_order anchor b ≡ true
    → nat_beq anchor.id b.id ≡ false
    → is_after anchor b ≡ true
unfolding is_after
is_later anchor b h d = ground arith

not_after_itself : (anchor : RunEventRecord) → is_after anchor anchor ≡ false
unfolding is_after
not_after_itself anchor = ground arith

-- In the order of the log, what comes after an event is the rest of the list.
rest_after :
    (r : RunEventRecord) (xs ys : List RunEventRecord)
    → IsSorted event_order (xs ++ r ∷ ys)
    → Distinct event_id (xs ++ r ∷ ys)
    → keep_if (is_after r) (xs ++ r ∷ ys) ≡ ys
unfolding keep_if
rest_after r xs ys s d =
    let (before, after) = sorted_around event_order r xs ys s in
    drop_every (is_after r) xs (r ∷ ys) (All-imp xs (λ a h. not_after r a h) before)
    ∙ rw (not_after_itself r) (
        keep_every (is_after r) ys (
          All-imp ys (λ b h. is_later r b h.0 h.1)
            (All-both _ _ ys after (distinct_after event_id r xs ys d))))

split_map :
    {A B : Type 0} (f : A → B) (rows : List A) (xs ys : List B) (y : B)
    → map f rows ≡ xs ++ y ∷ ys
    → (front : List A) × (a : A) × (back : List A) × (rows ≡ front ++ a ∷ back)
      × (f a ≡ y)
      × (map f back ≡ ys)
split_map f [] [] ys y h = absurd (cc)
split_map f [] (x ∷ xs) ys y h = absurd (cc)
split_map f (a ∷ rows) [] ys y h = ([], a, rows, refl, cc, cc)
split_map f (a ∷ rows) (x ∷ xs) ys y h =
    let (front, b, back, split, same, tail) = split_map f rows xs ys y (cc) in
    (a ∷ front, b, back, ap (λ rs. a ∷ rs) split, same, tail)

number_of : (r : RunEventRecord) → (run_event_from_record r).id ≡ r.id
unfolding run_event_from_record
number_of r = refl

module _ (run : ℕ) (table : List RunEventRecord) (distinct : Distinct event_id table) where
  abbrev of_run : List RunEventRecord
  of_run = keep_if (λ r. r.run_id == run) table

  all_rows : event_rows run none table ≡ sort event_order of_run
  unfolding event_rows passes
  all_rows = ap (sort event_order) (keep_every (passes none table) of_run (All-of _ (λ r m. refl)))

  rows_after :
      (r : RunEventRecord) (xs ys : List RunEventRecord)
      → event_rows run none table ≡ xs ++ r ∷ ys
      → event_rows run (some r.id) table ≡ ys
  unfolding event_rows passes
  rows_after r xs ys split =
      let sorted = sym all_rows ∙ split in
      let inside : Member r (sort event_order of_run) =
        subst (Member r) (sym sorted) (Member-middle r xs ys) in
      let kept = sort-Member event_order of_run inside in
      let here =
        find_row-Distinct event_id table distinct
          (keep_if-Member (λ q. q.run_id == run) table kept).0 in
      let same : (q : RunEventRecord) → passes (some r.id) table q ≡ is_after r q =
        λ q. rw (here, passes) refl in
      ap (sort event_order) (keep_if-same _ (is_after r) of_run same)
      ∙ sym (keep_if-sort event_order event_order-IsOrder (is_after r) of_run)
      ∙ ap (keep_if (is_after r)) sorted
      ∙ rest_after r xs ys
          (subst (IsSorted event_order) sorted
            (sort-IsSorted event_order event_order-IsOrder of_run))
          (subst (Distinct event_id) sorted (
            sort-Distinct event_order event_id of_run
              (keep_if-Distinct event_id (λ q. q.run_id == run) table distinct)))

  -- With distinct event numbers, a client that reads the log of a run after an event that it has seen
  -- gets exactly the events that follow it in the log: no event is missed, and none comes twice.
  pub list_for_run_pages :
      (e : RunEvent) (seen rest : List RunEvent)
      → list_for_run run none table ≡ seen ++ e ∷ rest
      → list_for_run run (some e.id) table ≡ rest
  unfolding list_for_run
  list_for_run_pages e seen rest h =
      let (front, r, back, split, same, tail) =
        split_map run_event_from_record (event_rows run none table) seen rest e h in
      let number : e.id ≡ r.id = ap (λ (x : RunEvent). x.id) (sym same) ∙ number_of r in
      ap (λ n. map run_event_from_record (event_rows run (some n) table)) number
      ∙ ap (map run_event_from_record) (rows_after r front back split)
      ∙ tail
