-- ===== src/Store/Effects.antt =====
-- What a transaction of Store keeps true of the tables: a triple with one invariant, and its rules.
use agent_coordination.Store.{
  Session, Store, Tx, after_draws, collect, for_each, fresh_id, gets, lift, pure, raise, ◌>>=◌,
  ◌>>◌,
}
use agent_coordination.Prelude.{
  All, Bool, List, Option, [], false, if◌then◌else◌, inl, inr, none, refl, some, subst, sym, true,
  ℕ, ◌∷◌, ◌≡◌,
}
use agent_coordination.Errors.{Error, Result, Result-cases, err, ok, same_ok}

-- When the transaction returns, the invariant still holds, and the result is as said.
pub record Ensures {F A : Type 0} (P : Store F → Type 0) (Q : A → Type 0) (m : Tx F A)
    : Type 0 where
  pub apply : (s s' : Session F) (a : A) → m s ≡ ok (a, s') → P s.store → P s'.store × Q a

abbrev pub Anything : {A : Type 0} → A → Type 0
Anything a = Unit {0}

pub everything : {A : Type 0} (xs : List A) → All Anything xs
everything [] = tt
everything (x ∷ xs) = (tt, everything xs)

module _ {F : Type 0} where
  abbrev pub Keeps : {A : Type 0} → (Store F → Type 0) → Tx F A → Type 0
  Keeps P m = Ensures P Anything m

  -- A chain that returns is made of steps that return.
  pub >>=-eq-ok :
      {A B : Type 0} (m : Tx F A) (k : A → Tx F B) (s s' : Session F) (b : B)
      → (m >>= k) s ≡ ok (b, s')
      → (a : A) × (s1 : Session F) × (m s ≡ ok (a, s1)) × (k a s1 ≡ ok (b, s'))
  unfolding ◌>>=◌
  >>=-eq-ok m k s s' b h = elim (Result-cases (m s)) [
    | inl (r, e) ↦ (r.0, r.1, e, rw (e, ◌>>=◌) at h)
    | inr (x, e) ↦ cc (rw (e, ◌>>=◌) at h)
  ]

  module _ {A B : Type 0} {P : Store F → Type 0} where
    pub >>=-Ensures :
        {Q : A → Type 0} {R : B → Type 0} {m : Tx F A} {k : A → Tx F B}
        → Ensures P Q m
        → ((a : A) → Q a → Ensures P R (k a))
        → Ensures P R (m >>= k)
    >>=-Ensures {m} {k} hm hk = record {
      apply = λ s s' b h p.
          let (a, s1, e, e') = >>=-eq-ok m k s s' b h in
          let (p1, q) = hm.apply s s1 a e p in (hk a q).apply s1 s' b e' p1;
    }

    then_next :
        {Q : A → Type 0} {R : B → Type 0} (m : Tx F A) (k : Tx F B)
        → Ensures P Q m
        → Ensures P R k
        → Ensures P R (m >> k)
    unfolding ◌>>◌ ◌>>=◌
    then_next m k hm hk = >>=-Ensures {m = m} {k = λ _. k} hm (λ _ _. hk)

    pub >>-Ensures :
        {Q : A → Type 0} {R : B → Type 0} {m : Tx F A} {k : Tx F B}
        → Ensures P Q m
        → Ensures P R k
        → Ensures P R (m >> k)
    >>-Ensures {m} {k} hm hk = then_next m k hm hk

  module _ {A : Type 0} {P : Store F → Type 0} {Q : A → Type 0} where
    pub pure-Ensures : (a : A) → Q a → Ensures P Q (pure a)
    unfolding pure
    pure-Ensures a q = record {
      apply = λ s s' b h p.
          let e = same_ok h in subst (λ (r : A × Session F). P r.1.store × Q r.0) e (p, q);
    }

    pub raise-Ensures : (e : Error) → Ensures P Q (raise e)
    unfolding raise
    raise-Ensures e = record { apply = λ s s' b h p. cc }

    -- A step that leaves the tables as they are.
    pub read-Ensures :
        {m : Tx F A}
        → ((s s' : Session F) (a : A) → m s ≡ ok (a, s') → (s'.store ≡ s.store) × (P s.store → Q a))
        → Ensures P Q m
    read-Ensures reads = record {
      apply = λ s s' a h p. let (e, q) = reads s s' a h in (subst P (sym e) p, q p);
    }

    pub if-Ensures :
        (c : Bool) {m n : Tx F A}
        → (c ≡ true → Ensures P Q m)
        → (c ≡ false → Ensures P Q n)
        → Ensures P Q (if c then m else n)
    if-Ensures true t f = t refl
    if-Ensures false t f = f refl

    pub elim-Ensures :
        {B : Type 0} (o : Option B) {m : Tx F A} {k : B → Tx F A}
        → (o ≡ none → Ensures P Q m)
        → ((b : B) → o ≡ some b → Ensures P Q (k b))
        → Ensures P Q (elim o [ none ↦ m | some b ↦ k b ])
    elim-Ensures none hm hk = hm refl
    elim-Ensures (some b) hm hk = hk b refl

    pub list-Ensures :
        {B : Type 0} (xs : List B) {m : Tx F A} {k : B → List B → Tx F A}
        → Ensures P Q m
        → ((x : B) (rest : List B) → xs ≡ x ∷ rest → Ensures P Q (k x rest))
        → Ensures P Q (elim xs [ [] ↦ m | x ∷ rest ↦ k x rest ])
    list-Ensures [] hm hk = hm
    list-Ensures (x ∷ rest) hm hk = hk x rest refl

    pub imp-Ensures :
        {R : A → Type 0} {m : Tx F A} → Ensures P R m → ((a : A) → R a → Q a) → Ensures P Q m
    imp-Ensures h imp = record {
      apply = λ s s' a e p. let (p', r) = h.apply s s' a e p in (p', imp a r);
    }

  module _ {A : Type 0} {P : Store F → Type 0} where
    pub for_each-Keeps :
        {f : A → Tx F (Unit {0})} {I : A → Type 0}
        → ((a : A) → I a → Keeps P (f a))
        → (xs : List A) → All I xs
        → Keeps P (for_each f xs)
    unfolding for_each
    for_each-Keeps h [] i = pure-Ensures _ tt
    for_each-Keeps {I} h (x ∷ xs) i = >>-Ensures (h x i.0) (for_each-Keeps {I = I} h xs i.1)

    pub collect-Ensures :
        {B : Type 0} {f : A → Tx F B} {Q : B → Type 0}
        → ((a : A) → Ensures P Q (f a))
        → (xs : List A) → Ensures P (All Q) (collect f xs)
    unfolding collect
    collect-Ensures h [] = pure-Ensures _ tt
    collect-Ensures {Q} h (x ∷ xs) =
        >>=-Ensures (h x)
          λ y q. >>=-Ensures (collect-Ensures {Q = Q} h xs) λ ys qs. pure-Ensures _ (q, qs)

  module _ {A : Type 0} where
    abbrev returned : Session F → Result A → Result (A × Session F)
    returned s r = elim r [ ok x ↦ ok (x, s) | err e ↦ err e ]

    lift_reads :
        (r : Result A) (s s' : Session F) (a : A)
        → returned s r ≡ ok (a, s')
        → (s'.store ≡ s.store) × (r ≡ ok a)
    lift_reads (ok x) s s' a h =
        subst (λ (r : A × Session F). (r.1.store ≡ s.store) × (ok x ≡ ok r.0)) (same_ok h)
          (refl, refl)
    lift_reads (err e) s s' a h = cc

  module _ {A : Type 0} {P : Store F → Type 0} where
    pub gets-Keeps : (f : Store F → A) → Keeps P (gets f)
    unfolding gets
    gets-Keeps f =
        read-Ensures
          λ s s' a h. (subst (λ (r : A × Session F). r.1.store ≡ s.store) (same_ok h) refl, λ p. tt)

    pub lift-Ensures :
        {Q : A → Type 0} (f : Store F → Result A)
        → ((s : Store F) (a : A) → P s → f s ≡ ok a → Q a)
        → Ensures P Q (lift f)
    unfolding lift
    lift-Ensures f q =
        read-Ensures
          λ s s' a h. let (e, r) = lift_reads (f s.store) s s' a h in (e, λ p. q s.store a p r)

    pub lift-Keeps : (f : Store F → Result A) → Keeps P (lift f)
    lift-Keeps f = lift-Ensures f (λ _ _ _ _. tt)

  pub after_draws_reads :
      {A : Type 0} (s s' : Session F) (drawn : ℕ) (r : Result A) (a : A)
      → after_draws s drawn r ≡ ok (a, s')
      → s'.store ≡ s.store
  unfolding after_draws
  after_draws_reads {A} s s' drawn (ok x) a h =
      subst (λ (r : A × Session F). r.1.store ≡ s.store) (same_ok h) refl
  after_draws_reads s s' drawn (err e) a h = cc

  pub fresh-Keeps : {P : Store F → Type 0} → Keeps P fresh_id
  unfolding fresh_id
  fresh-Keeps =
      read-Ensures
        λ s s' a h. (subst (λ (r : ℕ × Session F). r.1.store ≡ s.store) (same_ok h) refl, λ p. tt)
