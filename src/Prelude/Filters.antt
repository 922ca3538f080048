-- ===== src/Prelude/Filters.antt =====
-- What the Boolean loops over a list say.
use mathlib.Core.Path.{◌≡◌, refl}
use mathlib.Core.Logic.{◌↔◌}
use mathlib.Core.Bool.{Bool, true, false}
use mathlib.Core.List.{List, [], ◌∷◌, map}
use agent_coordination.Prelude.Tests.{Bool-cases}
use agent_coordination.Prelude.Updates.{keep_if, any_of, all_of, All}
use agent_coordination.Prelude.Members.{Member, first, later}
use agent_coordination.Prelude.Texts.{is_empty}
use mathlib.Core.Logic.{inl, inr}

module _ {ℓ} {A : Type ℓ} (p : A → Bool) where
  pub keep_if-empty : (xs : List A) → is_empty (keep_if p xs) ≡ true → All (λ x. p x ≡ false) xs
  unfolding keep_if
  keep_if-empty [] h = tt
  keep_if-empty (x ∷ xs) h = elim (Bool-cases (p x)) [
    | inl e ↦ absurd (cc (rw e at h))
    | inr e ↦ (e, keep_if-empty xs (rw e at h))
  ]

  pub keep_if_none : (xs : List A) → All (λ x. p x ≡ false) xs → is_empty (keep_if p xs) ≡ true
  unfolding keep_if
  keep_if_none [] h = refl
  keep_if_none (x ∷ xs) h = rw h.0 (keep_if_none xs h.1)

  -- A member that is kept shows that something is kept.
  pub keep_if_some :
      {x : A} (xs : List A) → Member x xs → p x ≡ true → is_empty (keep_if p xs) ≡ false
  unfolding keep_if
  keep_if_some (x ∷ xs) first e = rw e
  keep_if_some (y ∷ xs) (later m) e = elim (Bool-cases (p y)) [
    | inl q ↦ rw q
    | inr q ↦ rw q (keep_if_some xs m e)
  ]
  keep_if_some [] m e = elim m [ ]

  pub keep_if_found :
      (xs : List A) → is_empty (keep_if p xs) ≡ false → (x : A) × Member x xs × (p x ≡ true)
  unfolding keep_if
  keep_if_found [] h = absurd (cc)
  keep_if_found (x ∷ xs) h = elim (Bool-cases (p x)) [
    | inl e ↦ (x, first, e)
    | inr e ↦ let (y, m, q) = keep_if_found xs (rw e at h) in (y, later m, q)
  ]

  pub any_of_found : (xs : List A) → any_of p xs ≡ true → (x : A) × Member x xs × (p x ≡ true)
  unfolding any_of
  any_of_found [] h = absurd (cc)
  any_of_found (x ∷ xs) h = elim (Bool-cases (p x)) [
    | inl e ↦ (x, first, e)
    | inr e ↦ let (y, m, q) = any_of_found xs (rw e at h) in (y, later m, q)
  ]

  pub any_of_some : {x : A} (xs : List A) → Member x xs → p x ≡ true → any_of p xs ≡ true
  unfolding any_of
  any_of_some (x ∷ xs) first e = rw e
  any_of_some (y ∷ xs) (later m) e = elim (Bool-cases (p y)) [
    | inl q ↦ rw q
    | inr q ↦ rw q (any_of_some xs m e)
  ]
  any_of_some [] m e = elim m [ ]

  pub any_of-none : (xs : List A) → any_of p xs ≡ false → All (λ x. p x ≡ false) xs
  unfolding any_of
  any_of-none [] h = tt
  any_of-none (x ∷ xs) h = elim (Bool-cases (p x)) [
    | inl e ↦ absurd (cc (rw e at h))
    | inr e ↦ (e, any_of-none xs (rw e at h))
  ]

  pub any_of_absent : (xs : List A) → All (λ x. p x ≡ false) xs → any_of p xs ≡ false
  unfolding any_of
  any_of_absent [] h = refl
  any_of_absent (x ∷ xs) h = rw h.0 (any_of_absent xs h.1)

  pub all_of-All : (xs : List A) → (all_of p xs ≡ true) ↔ All (λ x. p x ≡ true) xs
  unfolding all_of
  all_of-All [] = (λ _. tt, λ _. refl)
  all_of-All (x ∷ xs) = elim (Bool-cases (p x)) [
    | inl e ↦ (λ h. (e, (all_of-All xs).0 (rw e at h)), λ h. rw e ((all_of-All xs).1 h.1))
    | inr e ↦ (λ h. absurd (cc (rw e at h)), λ h. absurd (cc (e, h.0)))
  ]

pub is_empty-map {ℓ κ} :
    {A : Type ℓ} {B : Type κ} (f : A → B) (xs : List A) → is_empty (map f xs) ≡ is_empty xs
is_empty-map f [] = refl
is_empty-map f (x ∷ xs) = refl
