-- ===== src/Prelude/Pigeonhole.antt =====
-- A list of different numbers is no longer than a list that has them all.
use Prim.Native.Nat.{ℕ, suc, ◌≤◌}
use mathlib.Core.Path.{◌≡◌}
use mathlib.Core.Logic.{inl, inr}
use mathlib.Core.Bool.{false}
use mathlib.Core.List.{List, [], ◌∷◌}
use native.Mathlib.Omega.{arith}
use agent_coordination.Prelude.Tests.{if◌then◌else◌, nat_beq, Bool-cases}
use agent_coordination.Prelude.Lists.{length}
use agent_coordination.Prelude.Members.{
  Member, first, later, Member-cons, Member-head, All-at, Distinct,
}

abbrev pub Different : List ℕ → Type 0
Different xs = Distinct (λ x. x) xs

remove_one : ℕ → List ℕ → List ℕ
remove_one x [] = []
remove_one x (y ∷ ys) = if nat_beq y x then ys else y ∷ remove_one x ys

length-remove_one : (x : ℕ) (ys : List ℕ) → Member x ys → length ys ≡ suc (length (remove_one x ys))
unfolding remove_one
length-remove_one x [] m = elim m [ ]
length-remove_one x (y ∷ ys) m = elim (Bool-cases (nat_beq y x)) [
  | inl e ↦ rw e
  | inr e ↦ elim (Member-cons m) [
    | inl same ↦ absurd (ground arith)
    | inr n ↦ rw e (omega (arith, length-remove_one x ys n))
  ]
]

remove_one-Member :
    (x z : ℕ) (ys : List ℕ) → nat_beq x z ≡ false → Member z ys → Member z (remove_one x ys)
unfolding remove_one
remove_one-Member x z [] d m = elim m [ ]
remove_one-Member x z (y ∷ ys) d m = elim (Bool-cases (nat_beq y x)) [
  | inl e ↦ elim (Member-cons m) [ inl same ↦ absurd (ground arith) | inr n ↦ rw e n ]
  | inr e ↦ rw e (elim (Member-cons m) [
    | inl same ↦ Member-head same
    | inr n ↦ later (remove_one-Member x z ys d n)
  ])
]

pub length-le_of_Different :
    (xs ys : List ℕ) → Different xs → ((x : ℕ) → Member x xs → Member x ys) → length xs ≤ length ys
length-le_of_Different [] ys d h = omega arith
length-le_of_Different (x ∷ xs) ys d h =
    let fewer =
      length-le_of_Different xs (remove_one x ys) d.1
        λ z m. remove_one-Member x z ys (All-at (λ y. nat_beq x y ≡ false) m d.0) (h z (later m)) in
    omega (arith, fewer, length-remove_one x ys (h x first))
