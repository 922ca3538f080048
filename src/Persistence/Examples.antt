-- ===== src/Persistence/Examples.antt =====
-- The tables on small inputs.
use agent_coordination.Prelude.{
  All, List, [], codes, false, insert_sorted, keep_if, leb, nat_eq, none, refl, some, sort,
  string_eq, true, ℕ, ◌*◌, ◌+◌, ◌-◌, ◌/◌, ◌==◌, ◌∷◌, ◌≡◌,
}
use agent_coordination.Errors.{Result, ok}
use agent_coordination.Persistence.Refinement.{codec-Refines, encode}
use agent_coordination.Persistence.Kept.{AgentsKept, encode-AgentsKept}
use agent_coordination.Persistence.Observations.{
  InRange, observe_call, observe_call-InRange, observed, observed_latency, observed_rate,
}
use agent_coordination.Persistence.Pages.{list_for_run_pages}
use agent_coordination.Persistence.Events.{
  RunEventRecord, event_rows, list_for_run, passes, run_event_from_record,
}
use agent_coordination.Persistence.Models.{ModelStateRecord, model_state_from_record}
use agent_coordination.Persistence.Submissions.{
  submission_from_record, submission_record, submission_round_trip,
}
use agent_coordination.Persistence.Agents.{agent_codec, agent_record, list_agents}
use agent_coordination.Persistence.Sql.{first_where, write_first}
use agent_coordination.Domain.Data.{end, researcher}
use agent_coordination.Domain.Enums.{
  agent_origin_eq, agent_status_eq, candidate_lifecycle_eq, cross_pollination_kind_eq,
  engineering_stage_eq, engineering_status_eq, fresh, job_status_eq, job_type_eq, knowledge_kind_eq,
  knowledge_status_eq, model_call_status_eq, pending, run_started, run_status_eq, selection_kind_eq,
  skeptical, verification_kind_eq, verification_status_eq,
}
use agent_coordination.Domain.Research.{Agent, Submission}
use agent_coordination.Domain.Service.{RunEvent}
use agent_coordination.Store.Rows.{list_where}
use agent_coordination.Floats.{Floats, by_number-IsOrder}

abbrev agent : Agent
agent = record {
  generation_id = 7;
  role = researcher 0;
  status = pending;
  niche = skeptical;
  origin = fresh;
  id = 3;
}

encode-AgentsKept_example : AgentsKept (record { row = agent; created_at = 5 } ∷ [])
encode-AgentsKept_example = encode-AgentsKept (record { row = agent; created_at = 5 } ∷ [])

abbrev agents_found : Result (List Agent)
agents_found = list_agents 7 (encode agent_codec (record { row = agent; created_at = 5 } ∷ []))

agents_found_lem : agents_found ≡ ok (agent ∷ [])
unfolding list_agents agent_record list_where
agents_found_lem =
    (codec-Refines agent_codec).selects (λ r. r.generation_id == 7) (λ a. a.generation_id == 7)
      (λ now a. refl) (record { row = agent; created_at = 5 } ∷ [])

instance abbrev tenths : Floats ℕ
tenths = record {
  at_most = leb;
  order = by_number-IsOrder (λ (n : ℕ). n);
  zero = 0;
  one = 10;
  sub = λ a b. a - b;
  fmean = λ xs. 0;
  ratio = λ a b. a * 10 / b;
  round6 = λ a. a;
  add = λ a b. a + b;
  mul = λ a b. a * b / 10;
  over = λ a n. a / n;
  bits = λ a. a;
  of_bits = λ a. a;
  bits_kept = λ a. refl;
}

abbrev submission : Submission ℕ
submission = record {
  agent_id = 3;
  summary = codes "a proof";
  approach = codes "by cases";
  claims =
      record { statement = codes "n is even"; confidence = some 8; support = none }
      ∷ record { statement = codes "n > 2"; confidence = none; support = some (codes "given") }
      ∷ [];
  evidence = codes "computed" ∷ [];
  discoveries = [];
  failed_attempts = [];
  open_questions = [];
  final_answer = some (codes "yes");
  raw_response = codes "{}";
  id = 11;
}

submission_round_trip_example :
    submission_from_record (submission_record 5 submission) ≡ ok submission
submission_round_trip_example = submission_round_trip 5 submission

abbrev state : ModelStateRecord ℕ
state = record {
  id = 1;
  model_profile_id = 2;
  quality_by_task = [];
  marginal_cash_cost = 0;
  credit_cost = 0;
  latency_ms = 100;
  scarcity = 0;
  failure_rate = 5;
  rate_limit_pressure = 0;
  available_concurrency = 1;
  enabled = true;
  created_at = 5;
}

abbrev states_after : List (ModelStateRecord ℕ)
states_after = record state { failure_rate = 5; latency_ms = 120 } ∷ []

observe_call-InRange_example : All InRange states_after
unfolding observe_call observed observed_rate observed_latency first_where write_first
    model_state_from_record
observe_call-InRange_example =
    observe_call-InRange refl 2 false (some 20) (state ∷ []) states_after _ refl
      (record { not_below = refl; not_above = refl; latency_positive = refl }, tt)

abbrev event : ℕ → ℕ → RunEventRecord
event id at = record {
  id = id;
  run_id = 9;
  event_type = run_started;
  payload = end;
  created_at = at;
}

abbrev log : List RunEventRecord
log = event 4 20 ∷ event 6 10 ∷ event 5 20 ∷ []

abbrev entry : ℕ → ℕ → RunEvent
entry id at = record {
  run_id = 9;
  event_type = run_started;
  payload = end;
  created_at = some at;
  id = id;
}

log_pages : list_for_run 9 none log ≡ entry 6 10 ∷ entry 4 20 ∷ entry 5 20 ∷ []
unfolding list_for_run event_rows passes run_event_from_record sort keep_if insert_sorted
log_pages = refl

list_for_run_pages_example : list_for_run 9 (some 4) log ≡ entry 5 20 ∷ []
list_for_run_pages_example =
    list_for_run_pages 9 log ((refl, (refl, tt)), ((refl, tt), (tt, tt))) (entry 4 20)
      (entry 6 10 ∷ []) (entry 5 20 ∷ []) log_pages
