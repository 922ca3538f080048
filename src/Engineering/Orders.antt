-- ===== src/Engineering/Orders.antt =====
-- The jobs that the methods of packages/core/engineering/orchestration.py enqueue.
use agent_coordination.Prelude.{List, String, [], ℕ, ◌∷◌}
use agent_coordination.Queue.Orders.{Order}
use agent_coordination.Domain.Data.{Format, end, field, formatted, ident, num, number, word}
use agent_coordination.Domain.Enums.{
  JobType, engineering_implement, engineering_plan, engineering_test,
}

-- `f"engineering:{engineering_run_id}:..."`
abbrev pub key_of : ℕ → Format → Format
key_of id rest = word "engineering:" ∷ ident id ∷ rest

abbrev pub plan_order : ℕ → Order
plan_order id = record {
  job_type = engineering_plan;
  payload = field "engineering_run_id" (ident id) end;
  key = key_of id (word ":plan" ∷ []);
}

abbrev pub implement_order : ℕ → String → Order
implement_order id role = record {
  job_type = engineering_implement;
  payload = field "engineering_run_id" (ident id) (field "role" (formatted (word role ∷ [])) end);
  key = key_of id (word ":implement:" ∷ word role ∷ []);
}

-- The jobs of one cycle of repair.
abbrev pub cycle_order : JobType → String → ℕ → ℕ → ℕ → Order
cycle_order job_type name id repair_cycle keyed = record {
  job_type = job_type;
  payload = field "engineering_run_id" (ident id) (field "repair_cycle" (number repair_cycle) end);
  key = key_of id (word ":" ∷ word name ∷ word ":" ∷ num keyed ∷ []);
}

-- `_enqueue_test`
abbrev pub test_order : ℕ → ℕ → Order
test_order id repair_cycle = cycle_order engineering_test "test" id repair_cycle repair_cycle

abbrev pub implementer_roles : List String
implementer_roles = "primary" ∷ "test_specialist" ∷ []
