-- ===== src/Tournament/Roles.antt =====
-- The dicts of packages/core/orchestration/tournament.py that keep the agents of a generation by
-- their roles: what is missing in one, and what is found once it has been added.
use agent_coordination.Prelude.{
  All, All-of, Bool-cases, List, Member, Member-image, Option-cases, [], any_of, any_of_some, ap,
  arith, first, inl, inr, keep_if, keep_if-Member_of, later, map, nat_beq_iff, not, refl, some,
  subst, sym, true, ℕ, ◌++◌, ◌∙◌, ◌∷◌, ◌≡◌,
}
use agent_coordination.Errors.{ok}
use agent_coordination.Tournament.Cast.{agent_at, agents_at, has_role, last_with_role, role_beq}
use agent_coordination.Tournament.Evolution.{same_some}
use agent_coordination.Domain.Data.{Role, critic, judge, researcher}
use agent_coordination.Domain.Research.{Agent}

abbrev pub role_of : Agent → Role
role_of a = a.role

role_beq_refl : (r : Role) → role_beq r r ≡ true
unfolding role_beq
role_beq_refl (researcher i) = ground arith
role_beq_refl (judge i) = ground arith
role_beq_refl (critic i) = ground arith

role_beq_same : (a b : Role) → role_beq a b ≡ true → a ≡ b
unfolding role_beq
role_beq_same (researcher i) (researcher j) h = ap researcher ((nat_beq_iff i j).0 h)
role_beq_same (judge i) (judge j) h = ap judge ((nat_beq_iff i j).0 h)
role_beq_same (critic i) (critic j) h = ap critic ((nat_beq_iff i j).0 h)
role_beq_same (researcher i) (judge j) h = cc
role_beq_same (researcher i) (critic j) h = cc
role_beq_same (judge i) (researcher j) h = cc
role_beq_same (judge i) (critic j) h = cc
role_beq_same (critic i) (researcher j) h = cc
role_beq_same (critic i) (judge j) h = cc

has_role-Member :
    (r : Role) (agents : List Agent) → Member r (map role_of agents) → has_role r agents ≡ true
unfolding has_role
has_role-Member r agents m =
    let (a, inside, same) = Member-image role_of agents m in
    any_of_some (λ b. role_beq b.role r) agents inside
      (subst (λ x. role_beq x r ≡ true) (sym same) (role_beq_refl r))

has_role_left :
    (r : Role) (xs ys : List Agent) → has_role r xs ≡ true → has_role r (xs ++ ys) ≡ true
unfolding has_role any_of
has_role_left r [] ys h = absurd (cc)
has_role_left r (x ∷ xs) ys h = ground (arith, has_role_left r xs ys)

has_role_right :
    (r : Role) (xs ys : List Agent) → has_role r ys ≡ true → has_role r (xs ++ ys) ≡ true
unfolding has_role any_of
has_role_right r [] ys h = h
has_role_right r (x ∷ xs) ys h = ground (arith, has_role_right r xs ys h)

last_with_role_is :
    (r : Role) (agents : List Agent) (a : Agent) → last_with_role r agents ≡ some a → a.role ≡ r
unfolding last_with_role
last_with_role_is r [] a h = absurd (cc)
last_with_role_is r (x ∷ rest) a h = elim (Option-cases (last_with_role r rest)) [
  | inr (b, e) ↦ last_with_role_is r rest a (e ∙ (rw (e, last_with_role) at h))
  | inl e ↦ elim (Bool-cases (role_beq x.role r)) [
    | inl t ↦
        let same : some x ≡ some a = rw (e, last_with_role, t) at h in
        role_beq_same a.role r (subst (λ (y : Agent). role_beq y.role r ≡ true) (same_some same) t)
    | inr f ↦ absurd (cc (rw (e, last_with_role, f) at h))
  ]
]

last_with_role-found :
    (r : Role) (agents : List Agent)
    → has_role r agents ≡ true
    → (a : Agent) × (last_with_role r agents ≡ some a) × (a.role ≡ r)
unfolding has_role any_of last_with_role
last_with_role-found r [] h = absurd (cc)
last_with_role-found r (x ∷ rest) h = elim (Option-cases (last_with_role r rest)) [
  | inr (b, e) ↦ (b, rw (e, last_with_role) refl, last_with_role_is r rest b e)
  | inl e ↦ elim (Bool-cases (role_beq x.role r)) [
    | inl t ↦ (x, rw (e, last_with_role, t) refl, role_beq_same x.role r t)
    | inr f ↦
        let (a, e', same) = last_with_role-found r rest (ground (arith, f, h)) in
        absurd (cc (sym e ∙ e'))
  ]
]

Member-map :
    {A B : Type 0} (f : A → B) {a : A} {xs : List A} → Member a xs → Member (f a) (map f xs)
Member-map f first = first
Member-map f (later m) = later (Member-map f m)

module _ (role : ℕ → Role) where
  abbrev missing : List ℕ → List Agent → List ℕ
  missing indices existing = keep_if (λ i. not (has_role (role i) existing)) indices

  -- Once the missing ones are added, no role is missing.
  pub none_missing :
      (indices : List ℕ) (existing added : List Agent)
      → map role_of added ≡ map role (missing indices existing)
      → All (λ i. has_role (role i) (existing ++ added) ≡ true) indices
  none_missing indices existing added same = All-of indices λ i m.
      elim (Bool-cases (has_role (role i) existing)) [
        | inl here ↦ has_role_left (role i) existing added here
        | inr absent ↦ has_role_right (role i) existing added (
            has_role-Member (role i) added (
              subst (Member (role i)) (sym same)
                (Member-map role (keep_if-Member_of _ indices m (rw absent refl)))))
      ]

  pub agents_at_returns :
      (indices : List ℕ) (agents : List Agent)
      → All (λ i. has_role (role i) agents ≡ true) indices
      → (found : List Agent) × (agents_at role indices agents ≡ ok found)
        × (map role_of found ≡ map role indices)
  unfolding agents_at agent_at
  agents_at_returns [] agents h = ([], refl, refl)
  agents_at_returns (i ∷ is) agents h =
      let (a, e, same) = last_with_role-found (role i) agents h.0 in
      let (found, e', rest) = agents_at_returns is agents h.1 in
      (a ∷ found, rw (e, agent_at, e') refl, cc)
