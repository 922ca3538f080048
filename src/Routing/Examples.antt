-- ===== src/Routing/Examples.antt =====
-- A choice among three models, with hundredths for floats.
use agent_coordination.Prelude.{
  All, List, [], keep_if, leb, refl, sort, true, ℕ, ◌*◌, ◌+◌, ◌-◌, ◌/◌, ◌<◌, ◌∷◌, ◌≡◌, ◌⊎◌,
}
use agent_coordination.Errors.{Result, err, ok, runtime_error}
use agent_coordination.Routing.Choice.{Best, choose_lem}
use agent_coordination.Routing.{
  AdaptiveRouter, Arithmetic, RoutingDecision, choose, has_capacity, preferred, pressure,
  quality_of, utility,
}
use agent_coordination.Domain.Data.{word}
use agent_coordination.Domain.Service.{ModelState}
use agent_coordination.Floats.{Floats, by_number-IsOrder}
use Prim.Native.Nat.{◌-◌, ◌/◌}

instance abbrev hundredths : Floats ℕ
hundredths = record {
  at_most = leb;
  order = by_number-IsOrder (λ (n : ℕ). n);
  zero = 0;
  one = 100;
  sub = λ a b. a - b;
  fmean = λ xs. 0;
  ratio = λ a b. a * 100 / b;
  round6 = λ a. a;
  add = λ a b. a + b;
  mul = λ a b. a * b;
  over = λ a n. a / n;
  bits = λ a. a;
  of_bits = λ a. a;
  bits_kept = λ a. refl;
}

abbrev fixed_point : Arithmetic ℕ
fixed_point = record {
  plus = λ a b. a + b;
  times = λ a b. a * b / 100;
  divide = λ a b. a * 100 / b;
  log1p = λ a. a;
}

abbrev weights : AdaptiveRouter ℕ
weights = record {
  cash_weight = 100;
  credit_weight = 35;
  latency_weight = 8;
  scarcity_weight = 80;
  rate_limit_weight = 80;
}

abbrev model : ℕ → ℕ → ℕ → ModelState ℕ
model id cost slots = record {
  model_profile_id = id;
  quality_by_task = ("judge", 80) ∷ [];
  marginal_cash_cost = cost;
  credit_cost = 0;
  latency_ms = 0;
  scarcity = 0;
  failure_rate = 0;
  rate_limit_pressure = 0;
  available_concurrency = slots;
  enabled = true;
  id = id;
}

abbrev models : List (ModelState ℕ)
models = model 1 50 2 ∷ model 2 10 2 ∷ model 3 0 0 ∷ []

abbrev chosen_id : Result (RoutingDecision ℕ) → ℕ
chosen_id (ok d) = d.state.model_profile_id
chosen_id (err e) = 0

-- The cheapest model has no free slot, so the next one is chosen.
cheap_is_chosen : chosen_id (choose fixed_point weights "judge" 100 models) ≡ 2
unfolding choose preferred utility pressure quality_of has_capacity sort keep_if
cheap_is_chosen = refl

choose_lem_example :
    (All (λ s. ¬ ((s.enabled ≡ true) × (0 < s.available_concurrency))) models
      × (choose fixed_point weights "judge" 100 models
          ≡ err (runtime_error (word "No model capacity is currently available" ∷ []))))
    ⊎ ((d : RoutingDecision ℕ) × (choose fixed_point weights "judge" 100 models ≡ ok d)
        × Best fixed_point weights "judge" 100 models d)
choose_lem_example = choose_lem fixed_point weights "judge" 100 models
