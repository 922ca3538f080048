-- ===== src/Persistence/Observations.antt =====
-- `ModelStateSqlRepository.observe_call` of packages/persistence/repositories.py: the running
-- averages of a model's failures and latency, under the constraint `ck_model_state_failure` of
-- packages/persistence/models.py.
use agent_coordination.Prelude.{
  All, Bool, Bool-cases, List, Option, Option-cases, [], ap, if◌then◌else◌, inl, inr, nat_eq, none,
  some, string_eq, subst, true, ℕ, ◌==◌, ◌∷◌, ◌≡◌,
}
use agent_coordination.Errors.{Result, ok, same_ok, ◌>>=◌}
use agent_coordination.Persistence.Sql.{first_where, write_first}
use agent_coordination.Persistence.Models.{
  ModelStateRecord, model_state_codec, model_state_from_record,
}
use agent_coordination.Domain.Service.{ModelState}
use agent_coordination.Floats.{Floats}

module _ {F : Type 0} ⦃o : Floats F⦄ where
  -- `max(a, b)` and `min(a, b)`, which return `a` when neither is greater.
  abbrev pub max_of : F → F → F
  max_of a b = if o.at_most b a then a else b

  abbrev pub min_of : F → F → F
  min_of a b = if o.at_most a b then a else b

  -- `0.9 * record.failure_rate + 0.1 * observation`, kept between 0 and 1.
  unfoldable pub observed_rate : Bool → F → F
  observed_rate success rate =
      let observation = if success then o.zero else o.one in
      max_of o.zero
        (min_of o.one (o.add (o.mul (o.ratio 9 10) rate) (o.mul (o.ratio 1 10) observation)))

  unfoldable pub observed_latency : Option ℕ → F → F
  observed_latency none latency = latency
  observed_latency (some ms) latency =
      max_of o.zero (o.add (o.mul (o.ratio 8 10) latency) (o.mul (o.ratio 2 10) (o.ratio ms 1)))

  unfoldable pub observed : Bool → Option ℕ → ModelStateRecord F → ModelStateRecord F
  unfolding observed_rate observed_latency
  observed success latency_ms r = record r {
    failure_rate = observed_rate success r.failure_rate;
    latency_ms = observed_latency latency_ms r.latency_ms;
  }

  unfoldable pub observe_call :
      ℕ
      → Bool
      → Option ℕ
      → List (ModelStateRecord F)
      → Result (Option (ModelState F) × List (ModelStateRecord F))
  unfolding first_where observed write_first
  observe_call id success latency_ms table =
      elim (first_where (λ r. r.model_profile_id == id) table) [
        | none ↦ ok (none, table)
        | some r ↦ do
          state ← model_state_from_record (observed success latency_ms r)
          ok (
            some state,
            write_first model_state_codec (λ r. r.model_profile_id == id)
                (observed success latency_ms) table,
          )
      ]

  -- The constraint on a row, and that its latency is not negative.
  pub record InRange (r : ModelStateRecord F) : Type 0 where
    pub not_below : o.at_most o.zero r.failure_rate ≡ true
    pub not_above : o.at_most r.failure_rate o.one ≡ true
    pub latency_positive : o.at_most o.zero r.latency_ms ≡ true

  at_most_refl : (x : F) → o.at_most x x ≡ true
  at_most_refl x = elim (Bool-cases (o.at_most x x)) [ inl e ↦ e | inr e ↦ o.order.total x x e ]

  max_of-above : (a b : F) → o.at_most a (max_of a b) ≡ true
  max_of-above a b = elim (Bool-cases (o.at_most b a)) [
    | inl e ↦ rw e (at_most_refl a)
    | inr e ↦ rw e (o.order.total b a e)
  ]

  max_of-least :
      (a b c : F) → o.at_most a c ≡ true → o.at_most b c ≡ true → o.at_most (max_of a b) c ≡ true
  max_of-least a b c h k = elim (Bool-cases (o.at_most b a)) [ inl e ↦ rw e h | inr e ↦ rw e k ]

  min_of-below : (a b : F) → o.at_most (min_of a b) a ≡ true
  min_of-below a b = elim (Bool-cases (o.at_most a b)) [
    | inl e ↦ rw e (at_most_refl a)
    | inr e ↦ rw e (o.order.total a b e)
  ]

  module _ (unit : o.at_most o.zero o.one ≡ true) where
    rate-InRange :
        (success : Bool) (rate : F)
        → (o.at_most o.zero (observed_rate success rate) ≡ true)
          × (o.at_most (observed_rate success rate) o.one ≡ true)
    unfolding observed_rate
    rate-InRange success rate =
        (max_of-above o.zero _, max_of-least o.zero _ o.one unit (min_of-below o.one _))

    observed-InRange :
        (success : Bool) (latency_ms : Option ℕ) (r : ModelStateRecord F)
        → InRange r
        → InRange (observed success latency_ms r)
    unfolding observed
    observed-InRange success none r h = record {
      not_below = (rate-InRange success r.failure_rate).0;
      not_above = (rate-InRange success r.failure_rate).1;
      latency_positive = h.latency_positive;
    }
    observed-InRange success (some ms) r h = record {
      not_below = (rate-InRange success r.failure_rate).0;
      not_above = (rate-InRange success r.failure_rate).1;
      latency_positive = max_of-above o.zero _;
    }

    written-InRange :
        (id : ℕ) (success : Bool) (latency_ms : Option ℕ) (table : List (ModelStateRecord F))
        → All InRange table
        → All InRange (
            write_first model_state_codec
              (λ r. r.model_profile_id == id)
              (observed success latency_ms)
              table)
    unfolding write_first
    written-InRange id success latency_ms [] h = tt
    written-InRange id success latency_ms (r ∷ table) h =
        elim (Bool-cases (r.model_profile_id == id)) [
          | inl e ↦ rw e (observed-InRange success latency_ms r h.0, h.1)
          | inr e ↦ rw e (h.0, written-InRange id success latency_ms table h.1)
        ]

    -- Whatever the arithmetic of floats gives, when 0 is at most 1: after `observe_call` every
    -- failure rate still lies between 0 and 1, as the table's constraint demands, and every latency
    -- is at least 0, when this was so before.
    pub observe_call-InRange :
        (id : ℕ) (success : Bool) (latency_ms : Option ℕ) (table after : List (ModelStateRecord F))
        (found : Option (ModelState F))
        → observe_call id success latency_ms table ≡ ok (found, after)
        → All InRange table
        → All InRange after
    unfolding observe_call model_state_from_record
    observe_call-InRange id success latency_ms table after found h k =
        elim (Option-cases (first_where (λ r. r.model_profile_id == id) table)) [
          | inl missing ↦
              subst (All InRange) (ap (λ x. x.1) (same_ok (rw (missing, observe_call) at h))) k
          | inr (r, e) ↦
              subst (All InRange) (ap (λ x. x.1) (same_ok (rw (e, observe_call) at h)))
                (written-InRange id success latency_ms table k)
        ]
