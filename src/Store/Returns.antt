-- ===== src/Store/Returns.antt =====
-- Transactions that return: a step that runs through, with what it returns, and what it leaves of the
-- table of runs.
use agent_coordination.Store.{
  Session, Store, Tx, collect, for_each, fresh_id, gets, lift, pure, ◌>>=◌, ◌>>◌,
}
use agent_coordination.Store.Repositories.{add_agents, add_generation, append_event}
use agent_coordination.Store.Effects.{Anything}
use agent_coordination.Prelude.{List, [], map, refl, ℕ, ◌∷◌, ◌≡◌}
use agent_coordination.Errors.{ok}
use agent_coordination.Domain.Data.{Fields}
use agent_coordination.Domain.Enums.{RunEventType}
use agent_coordination.Domain.Research.{Agent, Generation, Run}

pub record Returns {F A : Type 0} (before after : List (Run F)) (m : Tx F A) (P : A → Type 0)
    : Type 0 where
  pub apply :
      (s : Session F)
      → s.store.runs ≡ before
      → (a : A) × (t : Session F) × (m s ≡ ok (a, t)) × (t.store.runs ≡ after) × P a

module _ {F : Type 0} {before after : List (Run F)} where
  pub >>=-Returns :
      {A B : Type 0} {between : List (Run F)} {P : A → Type 0} {Q : B → Type 0} {m : Tx F A}
      {k : A → Tx F B}
      → Returns before between m P
      → ((a : A) → P a → Returns between after (k a) Q)
      → Returns before after (m >>= k) Q
  unfolding ◌>>=◌
  >>=-Returns hm hk = record {
    apply = λ s same.
        let (a, t, e, here, p) = hm.apply s same in
        let (b, u, e', there, q) = (hk a p).apply t here in (b, u, rw (e, ◌>>=◌) e', there, q);
  }

  pub >>-Returns :
      {A B : Type 0} {between : List (Run F)} {P : A → Type 0} {Q : B → Type 0} {m : Tx F A}
      {k : Tx F B}
      → Returns before between m P
      → Returns between after k Q
      → Returns before after (m >> k) Q
  unfolding ◌>>◌
  >>-Returns {P} {k} hm hk = >>=-Returns {P = P} {k = λ _. k} hm (λ _ _. hk)

module _ {F : Type 0} {runs : List (Run F)} where
  pub pure-Returns : {A : Type 0} {P : A → Type 0} (a : A) → P a → Returns runs runs (pure a) P
  unfolding pure
  pure-Returns a p = record { apply = λ s same. (a, s, refl, same, p) }

  pub gets-Returns :
      {A : Type 0} {P : A → Type 0} (f : Store F → A)
      → ((store : Store F) → P (f store))
      → Returns runs runs (gets f) P
  unfolding gets
  gets-Returns f h = record { apply = λ s same. (f s.store, s, refl, same, h s.store) }

  pub lift-Returns :
      {A : Type 0} {P : A → Type 0} (a : A) → P a → Returns runs runs (lift (λ _. ok a)) P
  unfolding lift
  lift-Returns a p = record { apply = λ s same. (a, s, refl, same, p) }

  pub fresh-Returns : Returns runs runs fresh_id Anything
  unfolding fresh_id
  fresh-Returns = record { apply = λ s same. (_, _, refl, same, tt) }

  pub append_event-Returns :
      (run : ℕ) (event_type : RunEventType) (payload : Fields)
      → Returns runs runs (append_event run event_type payload) Anything
  unfolding append_event
  append_event-Returns run event_type payload = record { apply = λ s same. (_, _, refl, same, tt) }

  pub add_agents-Returns :
      (agents : List Agent) → Returns runs runs (add_agents agents) (λ added. added ≡ agents)
  unfolding add_agents
  add_agents-Returns agents = record { apply = λ s same. (_, _, refl, same, refl) }

  pub add_generation-Returns :
      (g : Generation) → Returns runs runs (add_generation g) (λ added. added ≡ g)
  unfolding add_generation
  add_generation-Returns g = record { apply = λ s same. (_, _, refl, same, refl) }

  pub for_each-Returns :
      {A : Type 0} {f : A → Tx F (Unit {0})}
      → ((a : A) → Returns runs runs (f a) Anything)
      → (xs : List A) → Returns runs runs (for_each f xs) Anything
  unfolding for_each
  for_each-Returns h [] = pure-Returns tt tt
  for_each-Returns h (x ∷ xs) = >>-Returns (h x) (for_each-Returns h xs)

  -- What the elements of a comprehension are called.
  pub collect-Returns :
      {A B K : Type 0} {f : A → Tx F B} (key : B → K) (name : A → K)
      → ((a : A) → Returns runs runs (f a) (λ b. key b ≡ name a))
      → (xs : List A) → Returns runs runs (collect f xs) (λ bs. map key bs ≡ map name xs)
  unfolding collect
  collect-Returns key name h [] = pure-Returns [] refl
  collect-Returns key name h (x ∷ xs) =
      >>=-Returns (h x)
        λ b e. >>=-Returns (collect-Returns key name h xs) λ bs es. pure-Returns (b ∷ bs) (cc)
