-- ===== src/Persistence/Models.antt =====
-- The tables of the model router: profiles, states and calls: packages/persistence/models.py, the mappers of
-- packages/persistence/mappers.py, and the repositories of packages/persistence/repositories.py.
use agent_coordination.Prelude.{
  Bool, List, Option, String, false, nat_eq, none, refl, some, sort, string_eq, take, true, ℕ, ◌&&◌,
  ◌==◌, ◌≡◌,
}
use agent_coordination.Errors.{Result, ok, ◌>>=◌}
use agent_coordination.Persistence.Sql.{
  Codec, fetch, fetch_where, insert_one, oldest_first, read_all, select_rows,
}
use agent_coordination.Persistence.Columns.{call_status_of, call_status_of_value}
use agent_coordination.Domain.Data.{Fields}
use agent_coordination.Domain.Values.{call_status_value}
use agent_coordination.Domain.Service.{ModelCall, ModelProfile, ModelState}

pub record ModelProfileRecord : Type 0 where
  pub id : ℕ
  pub provider : String
  pub model : String
  pub enabled : Bool
  pub profile_metadata : Fields
  pub created_at : ℕ

pub record ModelStateRecord (F : Type 0) : Type 0 where
  pub id : ℕ
  pub model_profile_id : ℕ
  pub quality_by_task : List (String × F)
  pub marginal_cash_cost : F
  pub credit_cost : F
  pub latency_ms : F
  pub scarcity : F
  pub failure_rate : F
  pub rate_limit_pressure : F
  pub available_concurrency : ℕ
  pub enabled : Bool
  pub created_at : ℕ

pub record ModelCallRecord : Type 0 where
  pub id : ℕ
  pub model_profile_id : ℕ
  pub run_id : Option ℕ
  pub engineering_run_id : Option ℕ
  pub agent_id : Option ℕ
  pub task_type : String
  pub status : String
  pub latency_ms : Option ℕ
  pub input_tokens : Option ℕ
  pub output_tokens : Option ℕ
  pub estimated_cost : Option ℕ
  pub retry_count : ℕ
  pub request_metadata : Fields
  pub response_metadata : Fields
  pub error : Option String
  pub started_at : Option ℕ
  pub completed_at : Option ℕ
  pub created_at : ℕ

-- Whether a column that may be NULL holds the number.
abbrev pub option_is : Option ℕ → ℕ → Bool
option_is none id = false
option_is (some n) id = n == id

-- The record that `add` makes.
unfoldable pub model_profile_record : ℕ → ModelProfile → ModelProfileRecord
model_profile_record now m = record {
  id = m.id;
  provider = m.provider;
  model = m.model;
  enabled = m.enabled;
  profile_metadata = m.metadata;
  created_at = now;
}

unfoldable pub model_profile_from_record : ModelProfileRecord → Result ModelProfile
model_profile_from_record r = ok (record {
  provider = r.provider;
  model = r.model;
  enabled = r.enabled;
  metadata = r.profile_metadata;
  id = r.id;
})

pub model_profile_round_trip :
    (now : ℕ) (m : ModelProfile) → model_profile_from_record (model_profile_record now m) ≡ ok m
unfolding model_profile_record model_profile_from_record
model_profile_round_trip now m = refl

pub model_profile_same_key :
    (now : ℕ) (m : ModelProfile)
    → ((model_profile_record now m).id ≡ m.id) × ((model_profile_record now m).created_at ≡ now)
unfolding model_profile_record
model_profile_same_key now m = (refl, refl)

abbrev pub model_profile_codec : Codec ModelProfile ModelProfileRecord
model_profile_codec = record {
  entity_id = λ m. m.id;
  record_id = λ r. r.id;
  created_at = λ r. r.created_at;
  to_record = model_profile_record;
  from_record = model_profile_from_record;
  same_id = λ now m. (model_profile_same_key now m).0;
  same_time = λ now m. (model_profile_same_key now m).1;
  round_trip = model_profile_round_trip;
}

unfoldable pub add_profile :
    ℕ → ModelProfile → List ModelProfileRecord → Result (ModelProfile × List ModelProfileRecord)
unfolding insert_one
add_profile = insert_one model_profile_codec

unfoldable pub get_profile : ℕ → List ModelProfileRecord → Result (Option ModelProfile)
unfolding fetch
get_profile = fetch model_profile_codec

unfoldable pub find_profile :
    String → String → List ModelProfileRecord → Result (Option ModelProfile)
unfolding fetch_where
find_profile provider model =
    fetch_where model_profile_codec (λ r. r.provider == provider && r.model == model)

unfoldable pub list_profiles : List ModelProfileRecord → Result (List ModelProfile)
unfolding select_rows
list_profiles = select_rows model_profile_codec (λ r. true)

-- The record that `add` makes.
unfoldable pub model_call_record : ℕ → ModelCall → ModelCallRecord
model_call_record now m = record {
  id = m.id;
  model_profile_id = m.model_profile_id;
  run_id = m.run_id;
  engineering_run_id = m.engineering_run_id;
  agent_id = m.agent_id;
  task_type = m.task_type;
  status = call_status_value m.status;
  latency_ms = m.latency_ms;
  input_tokens = m.input_tokens;
  output_tokens = m.output_tokens;
  estimated_cost = m.estimated_cost;
  retry_count = m.retry_count;
  request_metadata = m.request_metadata;
  response_metadata = m.response_metadata;
  error = m.error;
  started_at = none;
  completed_at = none;
  created_at = now;
}

unfoldable pub model_call_from_record : ModelCallRecord → Result ModelCall
unfolding call_status_of
model_call_from_record r = do
  status ← call_status_of r.status
  ok (record {
    model_profile_id = r.model_profile_id;
    task_type = r.task_type;
    status = status;
    run_id = r.run_id;
    engineering_run_id = r.engineering_run_id;
    agent_id = r.agent_id;
    latency_ms = r.latency_ms;
    input_tokens = r.input_tokens;
    output_tokens = r.output_tokens;
    estimated_cost = r.estimated_cost;
    retry_count = r.retry_count;
    request_metadata = r.request_metadata;
    response_metadata = r.response_metadata;
    error = r.error;
    id = r.id;
  })

pub model_call_round_trip :
    (now : ℕ) (m : ModelCall) → model_call_from_record (model_call_record now m) ≡ ok m
unfolding model_call_record model_call_from_record
model_call_round_trip now m = rw (call_status_of_value m.status) refl

pub model_call_same_key :
    (now : ℕ) (m : ModelCall)
    → ((model_call_record now m).id ≡ m.id) × ((model_call_record now m).created_at ≡ now)
unfolding model_call_record
model_call_same_key now m = (refl, refl)

abbrev pub model_call_codec : Codec ModelCall ModelCallRecord
model_call_codec = record {
  entity_id = λ m. m.id;
  record_id = λ r. r.id;
  created_at = λ r. r.created_at;
  to_record = model_call_record;
  from_record = model_call_from_record;
  same_id = λ now m. (model_call_same_key now m).0;
  same_time = λ now m. (model_call_same_key now m).1;
  round_trip = model_call_round_trip;
}

unfoldable pub add_call :
    ℕ → ModelCall → List ModelCallRecord → Result (ModelCall × List ModelCallRecord)
unfolding insert_one
add_call = insert_one model_call_codec

unfoldable pub get_call : ℕ → List ModelCallRecord → Result (Option ModelCall)
unfolding fetch
get_call = fetch model_call_codec

unfoldable pub list_calls : ℕ → List ModelCallRecord → Result (List ModelCall)
unfolding select_rows
list_calls id = select_rows model_call_codec (λ r. option_is r.run_id id)

unfoldable pub list_recent_calls : ℕ → List ModelCallRecord → Result (List ModelCall)
unfolding read_all oldest_first sort
list_recent_calls limit table =
    read_all model_call_from_record
      (take limit (sort (λ a b. oldest_first model_call_codec b a) table))

module _ {F : Type 0} where
  -- The record that `add` makes.
  unfoldable pub model_state_record : ℕ → ModelState F → ModelStateRecord F
  model_state_record now m = record {
    id = m.id;
    model_profile_id = m.model_profile_id;
    quality_by_task = m.quality_by_task;
    marginal_cash_cost = m.marginal_cash_cost;
    credit_cost = m.credit_cost;
    latency_ms = m.latency_ms;
    scarcity = m.scarcity;
    failure_rate = m.failure_rate;
    rate_limit_pressure = m.rate_limit_pressure;
    available_concurrency = m.available_concurrency;
    enabled = m.enabled;
    created_at = now;
  }

  unfoldable pub model_state_from_record : ModelStateRecord F → Result (ModelState F)
  model_state_from_record r = ok (record {
    model_profile_id = r.model_profile_id;
    quality_by_task = r.quality_by_task;
    marginal_cash_cost = r.marginal_cash_cost;
    credit_cost = r.credit_cost;
    latency_ms = r.latency_ms;
    scarcity = r.scarcity;
    failure_rate = r.failure_rate;
    rate_limit_pressure = r.rate_limit_pressure;
    available_concurrency = r.available_concurrency;
    enabled = r.enabled;
    id = r.id;
  })

  pub model_state_round_trip :
      (now : ℕ) (m : ModelState F) → model_state_from_record (model_state_record now m) ≡ ok m
  unfolding model_state_record model_state_from_record
  model_state_round_trip now m = refl

  pub model_state_same_key :
      (now : ℕ) (m : ModelState F)
      → ((model_state_record now m).id ≡ m.id) × ((model_state_record now m).created_at ≡ now)
  unfolding model_state_record
  model_state_same_key now m = (refl, refl)

  abbrev pub model_state_codec : Codec (ModelState F) (ModelStateRecord F)
  model_state_codec = record {
    entity_id = λ m. m.id;
    record_id = λ r. r.id;
    created_at = λ r. r.created_at;
    to_record = model_state_record;
    from_record = model_state_from_record;
    same_id = λ now m. (model_state_same_key now m).0;
    same_time = λ now m. (model_state_same_key now m).1;
    round_trip = model_state_round_trip;
  }

  unfoldable pub add_model_state :
      ℕ
      → ModelState F
      → List (ModelStateRecord F)
      → Result (ModelState F × List (ModelStateRecord F))
  unfolding insert_one
  add_model_state = insert_one model_state_codec

  unfoldable pub get_state_for_profile :
      ℕ → List (ModelStateRecord F) → Result (Option (ModelState F))
  unfolding fetch_where
  get_state_for_profile id = fetch_where model_state_codec (λ r. r.model_profile_id == id)

  unfoldable pub list_model_states : List (ModelStateRecord F) → Result (List (ModelState F))
  unfolding select_rows
  list_model_states = select_rows model_state_codec (λ r. true)
