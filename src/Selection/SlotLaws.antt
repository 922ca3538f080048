-- ===== src/Selection/SlotLaws.antt =====
-- The slots never exceed the budget, name viable candidates only, and are filled as far as possible.
use agent_coordination.Prelude.{
  All, All-append, Bool, Bool-cases, Different, Distinct-snoc, List, Member, Member-cons,
  Member-head, Option, [], ap, append-Member, arith, false, first, inl, inr, keep_if-Member, later,
  leb, length, length-append, ltb, nat_beq, nat_beq_iff, none, refl, some, sort, sort-Member, suc,
  true, ℕ, ◌++◌, ◌↔◌, ◌∷◌, ◌≡◌, ◌≤◌,
}
use agent_coordination.Domain.Enums.{SelectionKind, novelty}
use agent_coordination.Selection.Ranking.{id_in}
use agent_coordination.Selection.Slots.{Selected, add, first_of_list, ids, novelty_slot, unselected}

pub id_in-Member : (id : ℕ) (xs : List ℕ) → (id_in id xs ≡ true) ↔ Member id xs
unfolding id_in
id_in-Member id [] = (λ h. absurd (cc), λ m. elim m [ ])
id_in-Member id (x ∷ xs) = elim (Bool-cases (nat_beq x id)) [
  | inl e ↦ (λ h. Member-head ((nat_beq_iff x id).0 e), λ m. rw e)
  | inr e ↦ (
    λ h. later ((id_in-Member id xs).0 (rw e at h)),
    λ m. elim (Member-cons m) [
      | inl same ↦ absurd (ground (arith, nat_beq_iff x id))
      | inr n ↦ rw e ((id_in-Member id xs).1 n)
    ],
  )
]

not_in : (id : ℕ) (xs : List ℕ) → id_in id xs ≡ false → All (λ x. nat_beq x id ≡ false) xs
unfolding id_in
not_in id [] h = tt
not_in id (x ∷ xs) h = (ground arith, not_in id xs (ground arith))

ids-snoc :
    (s : Selected) (id : ℕ) (kind : SelectionKind) → ids (s ++ (id, kind) ∷ []) ≡ ids s ++ id ∷ []
ids-snoc [] id kind = refl
ids-snoc ((x, k) ∷ s) id kind = ap (◌∷◌ x) (ids-snoc s id kind)

pub length-ids : (s : Selected) → length (ids s) ≡ length s
length-ids [] = refl
length-ids ((x, k) ∷ s) = ap suc (length-ids s)

snoc-Member : (id : ℕ) (xs : List ℕ) → Member id (xs ++ id ∷ [])
snoc-Member id [] = first
snoc-Member id (x ∷ xs) = later (snoc-Member id xs)

-- `selected_kind` holds different viable candidates, as many as there are slots at most.
pub record Good (survivor_count : ℕ) (viable_ids : List ℕ) (s : Selected) : Type 0 where
  pub different : Different (ids s)
  pub viable : All (λ id. Member id viable_ids) (ids s)
  pub fits : length s ≤ survivor_count

module _ (survivor_count : ℕ) (viable_ids : List ℕ) where
  pub add-Good :
      (id : ℕ) (kind : SelectionKind) (s : Selected)
      → Member id viable_ids
      → Good survivor_count viable_ids s
      → Good survivor_count viable_ids (add survivor_count (some id) kind s)
  unfolding add
  add-Good id kind s m g = elim (Bool-cases (ltb (length s) survivor_count)) [
    | inr full ↦ rw (full, add) g
    | inl room ↦ elim (Bool-cases (id_in id (ids s))) [
      | inl old ↦ rw (room, old, add) g
      | inr new ↦
          rw (room, new, add)
            (record {
              different =
                  rw (ids-snoc s id kind)
                    (Distinct-snoc (λ x. x) id (ids s) (not_in id (ids s) new) g.different);
              viable = rw (ids-snoc s id kind) (All-append _ (ids s) (id ∷ []) g.viable (m, tt));
              fits = ground (arith, length-append s ((id, kind) ∷ []));
            })
    ]
  ]

  pub add-keeps :
      (x : ℕ) (id : Option ℕ) (kind : SelectionKind) (s : Selected)
      → Member x (ids s)
      → Member x (ids (add survivor_count id kind s))
  unfolding add
  add-keeps x none kind s m = m
  add-keeps x (some id) kind s m = elim (Bool-cases (ltb (length s) survivor_count)) [
    | inr full ↦ rw (full, add) m
    | inl room ↦ elim (Bool-cases (id_in id (ids s))) [
      | inl old ↦ rw (room, old, add) m
      | inr new ↦ rw (room, new, add, ids-snoc s id kind) (append-Member (id ∷ []) m)
    ]
  ]

  -- With room left, an added candidate is selected.
  pub add-Member :
      (id : ℕ) (kind : SelectionKind) (s : Selected)
      → ltb (length s) survivor_count ≡ true
      → Member id (ids (add survivor_count (some id) kind s))
  unfolding add
  add-Member id kind s room = elim (Bool-cases (id_in id (ids s))) [
    | inl old ↦ rw (room, old, add) ((id_in-Member id (ids s)).0 old)
    | inr new ↦ rw (room, new, add, ids-snoc s id kind) (snoc-Member id (ids s))
  ]

  -- The first of the candidates, if there is one.
  pub add_first-Good :
      (candidates : List ℕ) (kind : SelectionKind) (s : Selected)
      → ((id : ℕ) → Member id candidates → Member id viable_ids)
      → Good survivor_count viable_ids s
      → Good survivor_count viable_ids (add survivor_count (first_of_list candidates) kind s)
  unfolding add
  add_first-Good [] kind s h g = g
  add_first-Good (id ∷ rest) kind s h g = add-Good id kind s (h id first) g

  pub novelty_slot-Good :
      (novelty_first : ℕ → ℕ → Bool) (s : Selected)
      → Good survivor_count viable_ids s
      → Good survivor_count viable_ids (novelty_slot survivor_count novelty_first viable_ids s)
  unfolding novelty_slot
  novelty_slot-Good novelty_first s g = elim (Bool-cases (leb 2 survivor_count)) [
    | inr few ↦ rw few g
    | inl many ↦ rw many (
        add_first-Good (sort novelty_first (unselected s viable_ids)) novelty s
          (λ id m. (keep_if-Member _ viable_ids (sort-Member novelty_first _ m)).0) g)
  ]
