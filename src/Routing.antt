-- ===== src/Routing.antt =====
-- packages/core/routing/adaptive.py: the choice of a model for a task. The arithmetic of floats is a
-- parameter; `x * y / z` is written as the code groups it, and a literal such as 0.05 as 5 / 100.
pub mod Choice
mod Examples
use agent_coordination.Prelude.{
  Bool, List, String, [], if◌then◌else◌, keep_if, lexi, ltb, map, nat_eq, sort, string_eq, ◌&&◌,
  ◌==◌, ◌∷◌,
}
use agent_coordination.Errors.{Result, err, ok, runtime_error}
use agent_coordination.Domain.Data.{word}
use agent_coordination.Domain.Service.{ModelState}
use agent_coordination.Floats.{Floats, ascending, by_number, descending}

-- The operations of floats that only the router uses.
pub record Arithmetic (F : Type 0) : Type 0 where
  pub plus : F → F → F
  pub times : F → F → F
  pub divide : F → F → F
  pub log1p : F → F

pub record AdaptiveRouter (F : Type 0) : Type 0 where
  pub cash_weight : F
  pub credit_weight : F
  pub latency_weight : F
  pub scarcity_weight : F
  pub rate_limit_weight : F

pub record RoutingDecision (F : Type 0) : Type 0 where
  pub state : ModelState F
  pub utility : F
  pub task_type : String

-- `quality_by_task.get(task_type, default)`
unfoldable pub quality_of : {F : Type 0} → String → F → List (String × F) → F
quality_of task_type default [] = default
quality_of task_type default ((name, measured) ∷ rest) =
    if name == task_type then measured else quality_of task_type default rest

module _ {F : Type 0} ⦃o : Floats F⦄ (arithmetic : Arithmetic F) where
  -- `max(bound, x)`
  abbrev pub at_least : F → F → F
  at_least bound x = if o.at_most x bound then bound else x

  abbrev pub positive : F → F
  positive x = at_least o.zero x

  module _ (router : AdaptiveRouter F) (task_type : String) (task_value : F) where
    unfoldable pub pressure : ModelState F → F
    pressure state =
        let plus = arithmetic.plus in
        let times = arithmetic.times in
        plus
          (plus
            (plus
              (plus
                (plus (o.ratio 5 100)
                  (times router.cash_weight (positive state.marginal_cash_cost)))
                (times router.credit_weight (positive state.credit_cost)))
              (arithmetic.divide (times router.latency_weight (positive state.latency_ms))
                (o.ratio 1000 1)))
            (times router.scarcity_weight (positive state.scarcity)))
          (times router.rate_limit_weight (positive state.rate_limit_pressure))

    unfoldable pub utility : ModelState F → F
    unfolding quality_of pressure
    utility state =
        let times = arithmetic.times in
        let measured =
          quality_of task_type (quality_of "default" (o.ratio 1 2) state.quality_by_task)
            state.quality_by_task in
        let reliability = at_least (o.ratio 1 100) (o.sub o.one state.failure_rate) in
        let concurrency_bonus =
          arithmetic.plus o.one
            (times (o.ratio 8 100) (arithmetic.log1p (o.ratio state.available_concurrency 1))) in
        arithmetic.divide
          (times (times (times (positive measured) reliability) (positive task_value))
            concurrency_bonus)
          (pressure state)

    unfoldable pub has_capacity : ModelState F → Bool
    has_capacity state = state.enabled && ltb 0 state.available_concurrency

    abbrev pub decision_on : ModelState F → RoutingDecision F
    decision_on state = record { state = state; utility = utility state; task_type = task_type }

    -- The order of the tuples by which `scored` is sorted.
    unfoldable pub preferred : RoutingDecision F → RoutingDecision F → Bool
    preferred = lexi (descending (λ (d : RoutingDecision F). d.utility)) (
        lexi (ascending (λ (d : RoutingDecision F). d.state.failure_rate)) (
          lexi (ascending (λ (d : RoutingDecision F). d.state.latency_ms))
            (by_number (λ (d : RoutingDecision F). d.state.model_profile_id))))

    unfoldable pub choose : List (ModelState F) → Result (RoutingDecision F)
    unfolding has_capacity preferred sort keep_if
    choose states = elim (sort preferred (map decision_on (keep_if has_capacity states))) [
      | [] ↦ err (runtime_error (word "No model capacity is currently available" ∷ []))
      | decision ∷ rest ↦ ok decision
    ]
