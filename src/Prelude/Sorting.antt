-- ===== src/Prelude/Sorting.antt =====
-- Python's stable `sorted`, over the test that one key does not come after another.
use Prim.Native.Nat.{ℕ, suc}
use mathlib.Core.Path.{◌≡◌, refl, ap, ◌∙◌}
use mathlib.Core.Logic.{◌⊎◌, inl, inr}
use mathlib.Core.Bool.{Bool, true, false, not}
use mathlib.Core.List.{List, [], ◌∷◌}
use native.Mathlib.Omega.{arith}
use agent_coordination.Prelude.Tests.{if◌then◌else◌, nat_beq, Bool-cases}
use agent_coordination.Prelude.Lists.{length}
use agent_coordination.Prelude.Updates.{All}
use agent_coordination.Prelude.Members.{Member, later, Member-cons, Member-head, All-imp, Distinct}

-- A total preorder given by a test.
pub record IsOrder {ℓ} {A : Type ℓ} (le : A → A → Bool) : Type ℓ where
  pub total : (a b : A) → le a b ≡ false → le b a ≡ true
  pub trans : (a b c : A) → le a b ≡ true → le b c ≡ true → le a c ≡ true

-- The order of tuples: the second test decides where the first finds no difference.
abbrev pub lexi {ℓ} : {A : Type ℓ} → (A → A → Bool) → (A → A → Bool) → A → A → Bool
lexi le next a b = if not (le b a) then true else if not (le a b) then false else next a b

-- The first test decides, or finds no difference and leaves it to the second.
pub lexi-cases {ℓ} :
    {A : Type ℓ} (le next : A → A → Bool) (a b : A)
    → lexi le next a b ≡ true
    → (le b a ≡ false) ⊎ ((le a b ≡ true) × (le b a ≡ true) × (next a b ≡ true))
lexi-cases le next a b h = elim (Bool-cases (le b a)) [
  | inl e ↦ elim (Bool-cases (le a b)) [
    | inl k ↦ inr (k, e, rw (e, k) at h)
    | inr k ↦ absurd (cc (rw (e, k) at h))
  ]
  | inr e ↦ inl e
]

-- Each element of the list stands in the relation to each later one.
abbrev pub Pairwise {ℓ κ} : {A : Type ℓ} → (A → A → Type κ) → List A → Type κ
Pairwise R [] = Unit
Pairwise R (x ∷ xs) = All (R x) xs × Pairwise R xs

pub lexi-IsOrder {ℓ} :
    {A : Type ℓ} {le next : A → A → Bool} → IsOrder le → IsOrder next → IsOrder (lexi le next)
lexi-IsOrder o p = record {
  total = λ a b h. ground (arith, o.total a b, o.total b a, p.total a b);
  trans = λ a b c h k. ground (
    arith,
    o.trans a b c,
    o.trans c a b,
    o.trans b c a,
    o.trans c b a,
    o.trans b a c,
    o.trans a c b,
    o.total a b,
    o.total b a,
    o.total b c,
    o.total c b,
    o.total a c,
    o.total c a,
    p.trans a b c,
  );
}

module _ {ℓ} {A : Type ℓ} (le : A → A → Bool) where
  unfoldable pub insert_sorted : A → List A → List A
  insert_sorted x [] = x ∷ []
  insert_sorted x (y ∷ ys) = if le x y then x ∷ y ∷ ys else y ∷ insert_sorted x ys

  unfoldable pub sort : List A → List A
  unfolding insert_sorted
  sort [] = []
  sort (x ∷ xs) = insert_sorted x (sort xs)

  abbrev pub IsSorted : List A → Type 0
  IsSorted [] = Unit
  IsSorted (x ∷ xs) = All (λ y. le x y ≡ true) xs × IsSorted xs

  pub IsSorted-Pairwise {κ} :
      (R : A → A → Type κ)
      → ((a b : A) → le a b ≡ true → R a b)
      → (xs : List A) → IsSorted xs
      → Pairwise R xs
  IsSorted-Pairwise R f [] h = tt
  IsSorted-Pairwise R f (x ∷ xs) h = (All-imp xs (f x) h.0, IsSorted-Pairwise R f xs h.1)

  insert_sorted-All {κ} :
      (P : A → Type κ) (x : A) (ys : List A) → P x → All P ys → All P (insert_sorted x ys)
  unfolding insert_sorted
  insert_sorted-All P x [] h k = (h, tt)
  insert_sorted-All P x (y ∷ ys) h k = elim (Bool-cases (le x y)) [
    | inl e ↦ rw e (h, k)
    | inr e ↦ rw e (k.0, insert_sorted-All P x ys h k.1)
  ]

  pub sort-All {κ} : (P : A → Type κ) (xs : List A) → All P xs → All P (sort xs)
  unfolding sort
  sort-All P [] h = tt
  sort-All P (x ∷ xs) h = insert_sorted-All P x (sort xs) h.0 (sort-All P xs h.1)

  length-insert_sorted : (x : A) (ys : List A) → length (insert_sorted x ys) ≡ suc (length ys)
  unfolding insert_sorted
  length-insert_sorted x [] = refl
  length-insert_sorted x (y ∷ ys) = ground (arith, length-insert_sorted x ys)

  pub length-sort : (xs : List A) → length (sort xs) ≡ length xs
  unfolding sort
  length-sort [] = refl
  length-sort (x ∷ xs) = length-insert_sorted x (sort xs) ∙ ap suc (length-sort xs)

  insert_sorted-Member :
      {a : A} (x : A) (ys : List A) → Member a (insert_sorted x ys) → (x ≡ a) ⊎ Member a ys
  unfolding insert_sorted
  insert_sorted-Member x [] m = Member-cons m
  insert_sorted-Member x (y ∷ ys) m = elim (Bool-cases (le x y)) [
    | inl e ↦ Member-cons (rw e at m)
    | inr e ↦ elim (Member-cons (rw e at m)) [
      | inl same ↦ inr (Member-head same)
      | inr m' ↦ elim (insert_sorted-Member x ys m') [ inl s ↦ inl s | inr n ↦ inr (later n) ]
    ]
  ]

  Member-insert_sorted :
      {a : A} (x : A) (ys : List A) → (x ≡ a) ⊎ Member a ys → Member a (insert_sorted x ys)
  unfolding insert_sorted
  Member-insert_sorted x [] (inl e) = Member-head e
  Member-insert_sorted x [] (inr m) = elim m [ ]
  Member-insert_sorted x (y ∷ ys) c = elim (Bool-cases (le x y)) [
    | inl e ↦ rw e (elim c [ inl s ↦ Member-head s | inr m ↦ later m ])
    | inr e ↦ rw e (elim c [
      | inl s ↦ later (Member-insert_sorted x ys (inl s))
      | inr m ↦ elim (Member-cons m) [
        | inl s ↦ Member-head s
        | inr n ↦ later (Member-insert_sorted x ys (inr n))
      ]
    ])
  ]

  pub sort-Member : {a : A} (xs : List A) → Member a (sort xs) → Member a xs
  unfolding sort
  sort-Member [] m = m
  sort-Member (x ∷ xs) m = elim (insert_sorted-Member x (sort xs) m) [
    | inl s ↦ Member-head s
    | inr n ↦ later (sort-Member xs n)
  ]

  pub Member-sort : {a : A} (xs : List A) → Member a xs → Member a (sort xs)
  unfolding sort
  Member-sort [] m = m
  Member-sort (x ∷ xs) m = elim (Member-cons m) [
    | inl s ↦ Member-insert_sorted x (sort xs) (inl s)
    | inr n ↦ Member-insert_sorted x (sort xs) (inr (Member-sort xs n))
  ]

  insert_sorted-IsSorted :
      IsOrder le → (x : A) (ys : List A) → IsSorted ys → IsSorted (insert_sorted x ys)
  unfolding insert_sorted
  insert_sorted-IsSorted o x [] h = (tt, tt)
  insert_sorted-IsSorted o x (y ∷ ys) h = elim (Bool-cases (le x y)) [
    | inl e ↦ rw e ((e, All-imp ys (λ z. o.trans x y z e) h.0), h)
    | inr e ↦ rw e (
      insert_sorted-All (λ z. le y z ≡ true) x ys (o.total x y e) h.0,
      insert_sorted-IsSorted o x ys h.1,
    )
  ]

  pub sort-IsSorted : IsOrder le → (xs : List A) → IsSorted (sort xs)
  unfolding sort
  sort-IsSorted o [] = tt
  sort-IsSorted o (x ∷ xs) = insert_sorted-IsSorted o x (sort xs) (sort-IsSorted o xs)

  module _ (id : A → ℕ) where
    insert_sorted-Distinct :
        (x : A) (ys : List A)
        → All (λ y. nat_beq (id x) (id y) ≡ false) ys
        → Distinct id ys
        → Distinct id (insert_sorted x ys)
    unfolding insert_sorted
    insert_sorted-Distinct x [] h d = (tt, tt)
    insert_sorted-Distinct x (y ∷ ys) h d = elim (Bool-cases (le x y)) [
      | inl e ↦ rw e (h, d)
      | inr e ↦ rw e (
        insert_sorted-All (λ z. nat_beq (id y) (id z) ≡ false) x ys (ground (arith, h.0)) d.0,
        insert_sorted-Distinct x ys h.1 d.1,
      )
    ]

    pub sort-Distinct : (xs : List A) → Distinct id xs → Distinct id (sort xs)
    unfolding sort
    sort-Distinct [] d = tt
    sort-Distinct (x ∷ xs) d =
        insert_sorted-Distinct x (sort xs) (sort-All (λ y. nat_beq (id x) (id y) ≡ false) xs d.0)
          (sort-Distinct xs d.1)
