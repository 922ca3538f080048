-- ===== src/Store.antt =====
-- The tables of a research run and one transaction on them: `UnitOfWork` of
-- packages/core/ports/repositories.py. A transaction reads and writes the tables, draws fresh
-- numbers, and returns or raises; when it raises, its writes are rolled back.
pub mod Rows
pub mod Repositories
pub mod Effects
pub mod Returns
use agent_coordination.Errors.{Error, Result, err, ok}
use agent_coordination.Store.Rows.{Table}
use agent_coordination.Prelude.{List, [], suc, ℕ, ◌+◌, ◌∷◌}
use agent_coordination.Domain.Research.{
  Agent, CandidateState, CriticFinding, CrossPollinationPacket, Evaluation, Generation, LineageLink,
  Run, SelectionDecision, Submission, VerificationResult,
}
use agent_coordination.Domain.Service.{RunEvent}

pub record Store (F : Type 0) : Type 0 where
  pub runs : List (Run F)
  pub generations : List Generation
  pub agents : Table Agent
  pub submissions : Table (Submission F)
  pub evaluations : Table (Evaluation F)
  pub selections : List (SelectionDecision F)
  pub lineages : Table LineageLink
  pub candidate_states : Table CandidateState
  pub critic_findings : Table (CriticFinding F)
  pub cross_pollination : Table CrossPollinationPacket
  pub verifications : Table VerificationResult
  pub events : Table RunEvent

-- The state inside a transaction: the tables, the time at which it began, and the `uuid4()`s, of
-- which the first `drawn` are used up.
pub record Session (F : Type 0) : Type 0 where
  pub store : Store F
  pub now : ℕ
  pub ids : ℕ → ℕ
  pub drawn : ℕ

abbrev pub Tx : Type 0 → Type 0 → Type 0
Tx F A = Session F → Result (A × Session F)

module _ {F : Type 0} where
  infixl 5 ◌>>=◌ ◌>>◌
  unfoldable pub ◌>>=◌ : {A B : Type 0} → Tx F A → (A → Tx F B) → Tx F B
  ◌>>=◌ m f s = elim (m s) [ ok (a, s') ↦ f a s' | err e ↦ err e ]

  unfoldable pub ◌>>◌ : {A B : Type 0} → Tx F A → Tx F B → Tx F B
  unfolding ◌>>=◌
  m >> k = m >>= λ _. k

  unfoldable pub pure : {A : Type 0} → A → Tx F A
  pure a s = ok (a, s)

  unfoldable pub raise : {A : Type 0} → Error → Tx F A
  raise e s = err e

  unfoldable pub gets : {A : Type 0} → (Store F → A) → Tx F A
  gets f s = ok (f s.store, s)

  -- `uuid4()`
  unfoldable pub fresh_id : Tx F ℕ
  fresh_id s = ok (s.ids s.drawn, record s { drawn = suc s.drawn })

  -- A call that may raise, and that uses up some fresh numbers.
  unfoldable pub after_draws : {A : Type 0} → Session F → ℕ → Result A → Result (A × Session F)
  after_draws s drawn (ok a) = ok (a, record s { drawn = s.drawn + drawn })
  after_draws s drawn (err e) = err e

  -- The body of a `for` loop, for each element in turn.
  unfoldable pub for_each : {A : Type 0} → (A → Tx F (Unit {0})) → List A → Tx F (Unit {0})
  for_each f [] = pure tt
  for_each f (x ∷ xs) = f x >> for_each f xs

  -- A list comprehension whose elements draw fresh numbers.
  unfoldable pub collect : {A B : Type 0} → (A → Tx F B) → List A → Tx F (List B)
  collect f [] = pure []
  collect f (x ∷ xs) = do y ← f x; ys ← collect f xs; pure (y ∷ ys)

  -- A query that may raise.
  unfoldable pub lift : {A : Type 0} → (Store F → Result A) → Tx F A
  lift f s = elim (f s.store) [ ok a ↦ ok (a, s) | err e ↦ err e ]
