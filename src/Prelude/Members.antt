-- ===== src/Prelude/Members.antt =====
-- Members of a list with the evidence kept, and rows that are told apart by their number.
use Prim.Native.Nat.{ℕ}
use mathlib.Core.Path.{◌≡◌, refl, sym, subst}
use mathlib.Core.Logic.{◌⊎◌, inl, inr}
use mathlib.Core.Option.{some}
use agent_coordination.Prelude.Tables.{find_row, put_row}
use mathlib.Core.Bool.{Bool, true, false}
use mathlib.Core.List.{List, [], map, ◌∷◌, ◌++◌}
use native.Mathlib.Omega.{arith}
use agent_coordination.Prelude.Tests.{if◌then◌else◌, nat_beq, Bool-cases}
use agent_coordination.Prelude.Updates.{update_where, count_where, keep_if, All, All-append}

pub data Member {ℓ} {A : Type ℓ} (a : A) : List A → Type ℓ where
  first : {xs : List A} → Member a (a ∷ xs)
  later : {x : A} {xs : List A} → Member a xs → Member a (x ∷ xs)

module _ {ℓ κ} {A : Type ℓ} (P : A → Type κ) where
  pub All-at : {a : A} {xs : List A} → Member a xs → All P xs → P a
  All-at first h = h.0
  All-at (later m) h = All-at m h.1

  pub All-both {μ} : (Q : A → Type μ) (xs : List A) → All P xs → All Q xs → All (λ a. P a × Q a) xs
  All-both Q [] h k = tt
  All-both Q (x ∷ xs) h k = ((h.0, k.0), All-both Q xs h.1 k.1)

module _ {ℓ κ} {A : Type ℓ} {P : A → Type κ} where
  pub All-of : (xs : List A) → ((a : A) → Member a xs → P a) → All P xs
  All-of [] h = tt
  All-of (x ∷ xs) h = (h x first, All-of xs (λ a m. h a (later m)))

  pub All-imp {μ} : {Q : A → Type μ} (xs : List A) → ((a : A) → P a → Q a) → All P xs → All Q xs
  All-imp [] f h = tt
  All-imp (x ∷ xs) f h = (f x h.0, All-imp xs f h.1)

module _ {ℓ} {A : Type ℓ} where
  pub Member-cons : {a x : A} {xs : List A} → Member a (x ∷ xs) → (x ≡ a) ⊎ Member a xs
  Member-cons first = inl refl
  Member-cons (later m) = inr m

  pub Member-head : {a x : A} {xs : List A} → x ≡ a → Member a (x ∷ xs)
  Member-head {a} {x} {xs} e = subst (λ y. Member a (y ∷ xs)) (sym e) first

  pub keep_if-Member :
      (p : A → Bool) {a : A} (xs : List A) → Member a (keep_if p xs) → Member a xs × (p a ≡ true)
  unfolding keep_if
  keep_if-Member p [] m = elim m [ ]
  keep_if-Member p {a} (x ∷ xs) m = elim (Bool-cases (p x)) [
    | inl e ↦ elim (Member-cons (rw e at m)) [
      | inl same ↦ (Member-head same, rw same at e)
      | inr m' ↦ let (i, q) = keep_if-Member p xs m' in (later i, q)
    ]
    | inr e ↦ let (i, q) = keep_if-Member p xs (rw e at m) in (later i, q)
  ]

module _ {ℓ} {A : Type ℓ} where
  pub keep_if-Member_of :
      (p : A → Bool) {a : A} (xs : List A) → Member a xs → p a ≡ true → Member a (keep_if p xs)
  unfolding keep_if
  keep_if-Member_of p (x ∷ xs) first e = rw e first
  keep_if-Member_of p (y ∷ xs) (later m) e = elim (Bool-cases (p y)) [
    | inl q ↦ rw q (later (keep_if-Member_of p xs m e))
    | inr q ↦ rw q (keep_if-Member_of p xs m e)
  ]
  keep_if-Member_of p [] m e = elim m [ ]

module _ {ℓ} {A : Type ℓ} (id : A → ℕ) where
  -- No two rows have the same number: a primary key.
  abbrev pub Distinct : List A → Type 0
  Distinct [] = Unit
  Distinct (x ∷ xs) = All (λ y. nat_beq (id x) (id y) ≡ false) xs × Distinct xs

  pub Distinct-same :
      {a : A} (xs : List A)
      → Distinct xs
      → Member a xs
      → All (λ x. nat_beq (id x) (id a) ≡ true → x ≡ a) xs
  Distinct-same [] d m = elim m [ ]
  Distinct-same {a} (x ∷ xs) d first =
      (λ _. refl, All-imp xs (λ y differs same. absurd (ground arith)) d.0)
  Distinct-same {a} (x ∷ xs) d (later m) = (
    λ same. absurd (ground (arith, All-at (λ y. nat_beq (id x) (id y) ≡ false) m d.0)),
    Distinct-same xs d.1 m,
  )

  pub Distinct-update_where :
      (p : A → Bool) (f : A → A) (rs : List A)
      → ((r : A) → p r ≡ true → id (f r) ≡ id r)
      → Distinct rs
      → Distinct (update_where p f rs)
  unfolding update_where
  Distinct-update_where p f [] same d = tt
  Distinct-update_where p f (r ∷ rs) same d = (heads rs d.0, Distinct-update_where p f rs same d.1)
    where
      keeps : (x : A) (b : Bool) → p x ≡ b → id (if b then f x else x) ≡ id x
      keeps x true e = same x e
      keeps x false e = refl

      heads :
          (ys : List A)
          → All (λ y. nat_beq (id r) (id y) ≡ false) ys
          → All (λ y. nat_beq (id (if p r then f r else r)) (id y) ≡ false) (update_where p f ys)
      heads [] h = tt
      heads (y ∷ ys) h = (rw (keeps r (p r) refl, keeps y (p y) refl) h.0, heads ys h.1)

  pub keep_if-Distinct : (p : A → Bool) (xs : List A) → Distinct xs → Distinct (keep_if p xs)
  unfolding keep_if
  keep_if-Distinct p [] d = tt
  keep_if-Distinct p (x ∷ xs) d = elim (Bool-cases (p x)) [
    | inl e ↦ rw e (
      All-of (keep_if p xs)
          λ y m. All-at (λ z. nat_beq (id x) (id z) ≡ false) (keep_if-Member p xs m).0 d.0,
      keep_if-Distinct p xs d.1,
    )
    | inr e ↦ rw e (keep_if-Distinct p xs d.1)
  ]

  pub Distinct-snoc :
      (a : A) (xs : List A)
      → All (λ x. nat_beq (id x) (id a) ≡ false) xs
      → Distinct xs
      → Distinct (xs ++ a ∷ [])
  Distinct-snoc a [] fresh d = (tt, tt)
  Distinct-snoc a (x ∷ xs) fresh d =
      (All-append _ xs (a ∷ []) d.0 (fresh.0, tt), Distinct-snoc a xs fresh.1 d.1)

  pub find_row-Member : (key : ℕ) (rs : List A) (r : A) → find_row id key rs ≡ some r → Member r rs
  unfolding find_row
  find_row-Member key [] r e = absurd (cc)
  find_row-Member key (x ∷ rs) r e = elim (Bool-cases (nat_beq (id x) key)) [
    | inl same ↦ Member-head (cc (rw same at e))
    | inr other ↦ later (find_row-Member key rs r (rw other at e))
  ]

module _ {ℓ} {A : Type ℓ} where
  pub update_where-Member :
      (p : A → Bool) (f : A → A) {a : A} {xs : List A}
      → p a ≡ false
      → Member a xs
      → Member a (update_where p f xs)
  unfolding update_where
  update_where-Member p f {a} e first = Member-head (rw e)
  update_where-Member p f e (later m) = later (update_where-Member p f e m)

  pub update_where-Member_hit :
      (p : A → Bool) (f : A → A) {a : A} {xs : List A}
      → p a ≡ true
      → Member a xs
      → Member (f a) (update_where p f xs)
  unfolding update_where
  update_where-Member_hit p f {a} e first = Member-head (rw e)
  update_where-Member_hit p f e (later m) = later (update_where-Member_hit p f e m)

  pub append-Member : {a : A} {xs : List A} (ys : List A) → Member a xs → Member a (xs ++ ys)
  append-Member ys first = first
  append-Member ys (later m) = later (append-Member ys m)

module _ {ℓ} {A : Type ℓ} (id : A → ℕ) (p : A → Bool) (key : ℕ)
    (narrow : (x : A) → nat_beq (id x) key ≡ false → p x ≡ false) where
  count_where-absent :
      (rs : List A) → All (λ x. nat_beq key (id x) ≡ false) rs → count_where p rs ≡ 0
  unfolding count_where
  count_where-absent [] h = refl
  count_where-absent (x ∷ xs) h = ground (arith, narrow x, h.0, count_where-absent xs h.1)

  -- A condition that names the primary key counts one row at most.
  pub count_where_one :
      {r : A} (rs : List A)
      → Distinct id rs
      → Member r rs
      → id r ≡ key
      → count_where p rs ≡ (if p r then 1 else 0)
  unfolding count_where
  count_where_one [] d m e = elim m [ ]
  count_where_one {r} (x ∷ xs) d first e = ground (arith, count_where-absent xs (rw e at d.0))
  count_where_one {r} (x ∷ xs) d (later m) e =
      let differs = All-at (λ y. nat_beq (id x) (id y) ≡ false) m d.0 in
      ground (arith, narrow x, differs, count_where_one xs d.1 m e)

module _ {ℓ κ} {A : Type ℓ} {B : Type κ} (f : A → B) where
  pub Member-image : {b : B} (xs : List A) → Member b (map f xs) → (a : A) × Member a xs × (f a ≡ b)
  Member-image [] m = elim m [ ]
  Member-image (x ∷ xs) m = elim (Member-cons m) [
    | inl same ↦ (x, first, same)
    | inr n ↦ let (a, k, e) = Member-image xs n in (a, later k, e)
  ]

  pub All-map {μ} : (P : B → Type μ) (xs : List A) → All (λ x. P (f x)) xs → All P (map f xs)
  All-map P [] h = tt
  All-map P (x ∷ xs) h = (h.0, All-map P xs h.1)

module _ {ℓ} {A : Type ℓ} (id : A → ℕ) where
  pub put_row-All {κ} :
      (P : A → Type κ) (key : ℕ) (r' : A) (rs : List A)
      → P r'
      → All P rs
      → All P (put_row id key r' rs)
  unfolding put_row
  put_row-All P key r' [] p h = tt
  put_row-All P key r' (r ∷ rs) p h = elim (Bool-cases (nat_beq (id r) key)) [
    | inl e ↦ rw e (p, h.1)
    | inr e ↦ rw e (h.0, put_row-All P key r' rs p h.1)
  ]

  pub put_row-Distinct :
      (key : ℕ) (r' : A) (rs : List A)
      → id r' ≡ key
      → Distinct id rs
      → Distinct id (put_row id key r' rs)
  unfolding put_row
  put_row-Distinct key r' [] e d = tt
  put_row-Distinct key r' (r ∷ rs) e d = elim (Bool-cases (nat_beq (id r) key)) [
    | inl same ↦
        rw same
          ((subst (λ i. All (λ y. nat_beq i (id y) ≡ false) rs) (ground (arith, same, e)) d.0, d.1))
    | inr other ↦ rw other (
        (
          put_row-All (λ y. nat_beq (id r) (id y) ≡ false) key r' rs (ground (arith, other, e)) d.0,
          put_row-Distinct key r' rs e d.1,
        ))
  ]
